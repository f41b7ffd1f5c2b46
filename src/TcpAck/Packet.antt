-- ===== src/TcpAck/Packet.antt =====
-- aicwf_tcp_ack.c, the part that reads packets: tcp_check_quick_ack, is_drop_tcp_ack, tcp_check_ack.
-- The memory from a pointer on is a function from offsets to bytes, since the code reads without
-- looking at the length of the buffer.
pub mod Options
pub mod Check
use aic8800_linux_driver.Common.{
  ℕ, zero, suc, ◌+◌, ◌-◌, ◌*◌, ◌/◌, ◌%◌, ◌^◌, Bool, true, false, ◌&&◌, ◌||◌, not, Option, none,
  some, ltb, ◌==◌, if◌then◌else◌, bit,
}
use aic8800_linux_driver.TcpAck.{TcpAckMsg}

abbrev pub Memory : Type 0
Memory = ℕ → ℕ

abbrev pub be16 : Memory → ℕ → ℕ
be16 m p = m p * 256 + m (p + 1)

abbrev pub be32 : Memory → ℕ → ℕ
be32 m p = be16 m p * 65536 + be16 m (p + 2)

-- Offsets in the frame: `struct ethhdr` has 14 bytes, then comes `struct iphdr`.
abbrev pub is_ip : Memory → Bool
is_ip buf = be16 buf 12 == 0x0800

abbrev pub is_ipv4_tcp : Memory → Bool
is_ipv4_tcp buf = (buf 14 / 16 == 4) && (buf 23 == 6)

abbrev pub ip_hdr_len : Memory → ℕ
ip_hdr_len buf = buf 14 % 16 * 4

-- where `struct tcphdr` begins
abbrev pub tcp_at : Memory → ℕ
tcp_at buf = 14 + ip_hdr_len buf

abbrev pub tcp_flags : Memory → ℕ
tcp_flags buf = buf (tcp_at buf + 13)

-- `msg` is what the caller's variable holds before the call; `win` is not written.
pub tcp_check_quick_ack : Memory → TcpAckMsg → Bool × TcpAckMsg
tcp_check_quick_ack buf msg =
    if not (is_ip buf)
    then (false, msg)
    else if not (is_ipv4_tcp buf)
    then (false, msg)
    else if not (bit (tcp_flags buf) 4)
    then (false, msg)
    else if bit (tcp_flags buf) 3
    then (
      true,
      record msg {
        source = be16 buf (tcp_at buf + 2);
        dest = be16 buf (tcp_at buf);
        saddr = be32 buf 30;
        daddr = be32 buf 26;
        seq = be32 buf (tcp_at buf + 4);
      },
    )
    else (false, msg)

-- The variables of the loop over the TCP options.
pub record OptLoop : Type 0 where
  pub ptr : ℕ
  pub len : ℕ
  pub drop : ℕ
  pub win_scale : ℕ

abbrev pub tcpopt_window : ℕ
tcpopt_window = 3

abbrev pub tcpopt_timestamp : ℕ
tcpopt_timestamp = 8

-- The inner `switch`: what an option of a known size does to `drop` and `*win_scale`.
pub ignore_opt : ℕ → ℕ → OptLoop → OptLoop
ignore_opt opcode value s =
    if opcode == tcpopt_timestamp
    then s
    else if opcode == tcpopt_window
    then (if ltb value 15 then record s { win_scale = 2 ^ value } else s)
    else record s { drop = 2 }

-- The body of the loop. Each `break` of the source leaves the `switch`, and the loop goes on.
pub opt_step : Memory → OptLoop → OptLoop
unfolding ignore_opt
opt_step m s =
    let opcode = m s.ptr in
    let opsize = m (s.ptr + 1) in
    if opcode == 0
    then record s { ptr = s.ptr + 1 }
    else if opcode == 1
    then record s { ptr = s.ptr + 1; len = s.len - 1 }
    else if ltb opsize 2
    then record s { ptr = s.ptr + 2 }
    else if ltb s.len opsize
    then record s { ptr = s.ptr + 2 }
    else let t = ignore_opt opcode (m (s.ptr + 2)) s in
      record t { ptr = s.ptr + 2 + (opsize - 2); len = s.len - opsize }

-- `while ((len > 0) && drop)`, on fuel: `none` means that the loop still runs.
pub opt_loop : Memory → ℕ → OptLoop → Option OptLoop
opt_loop m zero s = none
opt_loop m (suc fuel) s =
    let rest = opt_loop m fuel (opt_step m s) in
    if ltb 0 s.len && not (s.drop == 0) then rest else some s

abbrev pub verdict : Option OptLoop → Option (ℕ × ℕ)
verdict none = none
verdict (some s) = some (s.drop, s.win_scale)

-- `tcp` is the offset of the TCP header in the frame. Where the source's `len` would be negative
-- the truncated subtraction gives 0, and the loop is not entered either way.
pub is_drop_tcp_ack : Memory → ℕ → ℕ → ℕ → ℕ → Option (ℕ × ℕ)
is_drop_tcp_ack m fuel tcp tcp_tot_len win_scale =
    let len = m (tcp + 12) / 16 * 4 in
    let start : OptLoop = record {
      ptr = tcp + 20;
      len = len - 20;
      drop = 1;
      win_scale = win_scale;
    } in
    if ltb len tcp_tot_len then some (0, win_scale) else verdict (opt_loop m fuel start)

-- `if (ret > 0)`, the message is written.
abbrev pub fill_msg : Memory → TcpAckMsg → Option (ℕ × ℕ) → Option (ℕ × TcpAckMsg × ℕ)
fill_msg buf msg none = none
fill_msg buf msg (some (ret, scale)) = some (
  ret,
  (if ltb 0 ret
      then record {
        source = be16 buf (tcp_at buf);
        dest = be16 buf (tcp_at buf + 2);
        saddr = be32 buf 26;
        daddr = be32 buf 30;
        seq = be32 buf (tcp_at buf + 8);
        win = be16 buf (tcp_at buf + 14);
      }
      else msg),
  scale,
)

-- `msg` is what the caller's variable holds before the call; the result is `ret`, `*msg` and
-- `*win_scale`. A negative `tcp_tot_len` acts as 0.
pub tcp_check_ack : Memory → ℕ → TcpAckMsg → ℕ → Option (ℕ × TcpAckMsg × ℕ)
tcp_check_ack buf fuel msg win_scale =
    if not (is_ip buf)
    then some (0, msg, win_scale)
    else if not (is_ipv4_tcp buf)
    then some (0, msg, win_scale)
    else if not (bit (tcp_flags buf) 4)
    then some (0, msg, win_scale)
    else fill_msg buf msg
        (is_drop_tcp_ack buf fuel (tcp_at buf) (be16 buf 16 - ip_hdr_len buf) win_scale)
