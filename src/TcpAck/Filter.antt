-- ===== src/TcpAck/Filter.antt =====
-- aicwf_tcp_ack.c, the filter: tcp_ack_init, tcp_ack_deinit, tcp_ack_timeout, tcp_ack_handle_new,
-- filter_rx_tcp_ack, filter_send_tcp_ack, move_tcpack_msg. Each returns the new table; buffers that
-- it frees (intf_tcp_drop_msg) or transmits (intf_tx) come back beside it.
pub mod Valid
pub mod Send
pub mod Reach
pub mod Uninit
pub mod Order
use aic8800_linux_driver.Common.{
  ℕ, zero, suc, ◌+◌, ◌-◌, ◌*◌, ◌%◌, Bool, true, false, ◌&&◌, ◌||◌, not, Option, none, some, List,
  [], ◌∷◌, ltb, leb, ◌==◌, if◌then◌else◌, get_elem?, set, u32_mod,
}
use aic8800_linux_driver.TcpAck.{
  Clock, MsgBuf, TcpAckMsg, TcpAckInfo, TcpAckManage, tcp_ack_num, tcp_ack_drop_cnt, ack_old_time,
  max_tcp_ack, min_win, size_kb,
}
use aic8800_linux_driver.TcpAck.Packet.{Memory, tcp_check_quick_ack, tcp_check_ack}
use aic8800_linux_driver.TcpAck.Table.{tcp_ack_match, tcp_ack_update, tcp_ack_alloc_index}

-- U32_BEFORE: the difference as an `__s32` is at most 0.
abbrev pub u32_before : ℕ → ℕ → Bool
u32_before a b = let d = (a + u32_mod - b) % u32_mod in (d == 0) || leb 2147483648 d

-- The loop of tcp_ack_init over the slots that are left, after the memset.
init_slots : Clock → ℕ → ℕ → List TcpAckInfo
init_slots k i zero = []
init_slots k i (suc n) =
    record {
      ack_info_num = i;
      busy = false;
      drop_cnt = 0;
      psh_flag = false;
      psh_seq = 0;
      win_scale = 0;
      last_time = k.jiffies;
      timeout = k.msecs_to_jiffies ack_old_time;
      timer = none;
      msgbuf = none;
      in_send_msg = none;
      ack_msg = record { source = 0; dest = 0; saddr = 0; daddr = 0; seq = 0; win = 0 };
    }
    ∷ init_slots k (i + 1) n

-- The memset leaves `free_index` at 0.
pub tcp_ack_init : Clock → TcpAckManage
tcp_ack_init k = record {
  enable = true;
  max_num = 0;
  free_index = some 0;
  last_time = k.jiffies;
  timeout = k.msecs_to_jiffies ack_old_time;
  max_drop_cnt = tcp_ack_drop_cnt;
  ack_info = init_slots k 0 tcp_ack_num;
  ack_winsize = min_win;
}

-- The loop of tcp_ack_deinit: the timers stop and the held buffers are freed.
deinit_slots : List TcpAckInfo → List TcpAckInfo × List MsgBuf
deinit_slots [] = ([], [])
deinit_slots (x ∷ xs) =
    let (ys, dropped) = deinit_slots xs in
    let y = record x { timer = none; msgbuf = none } in
    elim x.msgbuf [ none ↦ (y ∷ ys, dropped) | some b ↦ (y ∷ ys, b ∷ dropped) ]

pub tcp_ack_deinit : TcpAckManage → TcpAckManage × List MsgBuf
tcp_ack_deinit m =
    let (ys, dropped) = deinit_slots m.ack_info in
    (record m { enable = false; ack_info = ys }, dropped)

-- The timer of one slot has run out: a held acknowledgement goes to intf_tx.
pub tcp_ack_timeout : TcpAckInfo → TcpAckInfo × Option MsgBuf
tcp_ack_timeout s =
    let idle = record s { timer = none } in
    elim s.msgbuf [
      | none ↦ (idle, none)
      | some b ↦ elim s.in_send_msg [
        | some _ ↦ (idle, none)
        | none ↦
            if s.busy
            then (record idle { msgbuf = none; drop_cnt = 0; in_send_msg = some b }, some b)
            else (idle, none)
      ]
    ]

-- The handler on the slot at `i` of the table.
pub timeout_at : TcpAckManage → ℕ → TcpAckManage × Option MsgBuf
timeout_at m i = elim (get_elem? m.ack_info i) [
  | none ↦ (m, none)
  | some s ↦ let (t, sent) = tcp_ack_timeout s in (record m { ack_info = set m.ack_info i t }, sent)
]

abbrev is_none : Option MsgBuf → Bool
is_none none = true
is_none (some _) = false

abbrev start_timer : Clock → Option ℕ → Option ℕ
start_timer k none = some (k.jiffies + k.msecs_to_jiffies 5)
start_timer k (some t) = some t

-- `ret`, the slot and `drop_msg`. The argument `type` is not read, as in the source.
unfoldable pub tcp_ack_handle_new :
    Clock → MsgBuf → ℕ → TcpAckInfo → TcpAckMsg → ℕ → Bool × TcpAckInfo × Option MsgBuf
tcp_ack_handle_new k new max_drop_cnt s ack_msg type =
    let quick_ack = s.psh_flag && not (u32_before ack_msg.seq s.psh_seq) in
    let drop_cnt = if quick_ack then s.drop_cnt else s.drop_cnt + 1 in
    let t = record s {
      last_time = k.jiffies;
      msgbuf = none;
      psh_flag = if quick_ack then false else s.psh_flag;
      drop_cnt = drop_cnt;
      ack_msg = record s.ack_msg { seq = ack_msg.seq };
    } in
    if not (u32_before s.ack_msg.seq ack_msg.seq)
    then (true, record s { last_time = k.jiffies }, some new)
    else if quick_ack || (is_none s.in_send_msg && leb max_drop_cnt drop_cnt)
    then (false, record t { drop_cnt = 0; in_send_msg = some new; timer = none }, s.msgbuf)
    else (true, record t { msgbuf = some new; timer = start_timer k s.timer }, s.msgbuf)

-- What filter_rx_tcp_ack writes to the slot of the flow, if there is one.
mark_psh : TcpAckManage → TcpAckMsg → TcpAckManage
mark_psh m ack_msg = elim (tcp_ack_match m ack_msg) [
  | none ↦ m
  | some i ↦ elim (get_elem? m.ack_info i) [
    | none ↦ m
    | some s ↦ record m {
      ack_info = set m.ack_info i (record s { psh_flag = true; psh_seq = ack_msg.seq });
    }
  ]
]

-- `buf` is the received frame; `msg` what the local variable holds before it is written.
pub filter_rx_tcp_ack : TcpAckManage → Memory → ℕ → TcpAckMsg → TcpAckManage
filter_rx_tcp_ack m buf plen msg =
    let (is_quick, ack_msg) = tcp_check_quick_ack buf msg in
    if not m.enable
    then m
    else if ltb max_tcp_ack plen || not is_quick
    then m
    else mark_psh m ack_msg

abbrev pub list_of : Option MsgBuf → List MsgBuf
list_of none = []
list_of (some b) = b ∷ []

scale_slot : ℕ → TcpAckInfo → TcpAckInfo
scale_slot win_scale s =
    if not (win_scale == 0) && not (s.win_scale == win_scale)
    then record s { win_scale = win_scale }
    else s

-- `drop` again, after the comparison of the window with `ack_winsize`.
ack_type : TcpAckManage → ℕ → TcpAckMsg → ℕ → TcpAckInfo → ℕ
ack_type m drop ack_msg win_scale t =
    if not (win_scale == 0) && ltb (t.win_scale * ack_msg.win % u32_mod) (m.ack_winsize * size_kb)
    then 2
    else drop

-- What filter_send_tcp_ack does with the slot that tcp_ack_match found.
send_matched :
    Clock
    → TcpAckManage
    → MsgBuf
    → ℕ
    → TcpAckMsg
    → ℕ
    → ℕ
    → TcpAckInfo
    → Bool × TcpAckManage × List MsgBuf
send_matched k m new drop ack_msg win_scale i s =
    let t = scale_slot win_scale s in
    let type = ack_type m drop ack_msg win_scale t in
    let (ret, u, dropped) = tcp_ack_handle_new k new m.max_drop_cnt t ack_msg type in
    if ltb 0 drop && m.enable
    then (ret, record m { ack_info = set m.ack_info i u }, list_of dropped)
    else (false, record m { ack_info = set m.ack_info i t }, [])

-- What it writes to the slot that tcp_ack_alloc_index handed out.
abbrev pub claim_slot : Clock → TcpAckManage → TcpAckMsg → ℕ → TcpAckInfo → TcpAckInfo
claim_slot k m ack_msg win_scale s = record s {
  busy = true;
  psh_flag = false;
  last_time = k.jiffies;
  drop_cnt = m.max_drop_cnt;
  win_scale = if not (win_scale == 0) then win_scale else 1;
  ack_msg = record s.ack_msg {
    dest = ack_msg.dest;
    source = ack_msg.source;
    saddr = ack_msg.saddr;
    daddr = ack_msg.daddr;
    seq = ack_msg.seq;
  };
}

claim_at : Clock → TcpAckManage → TcpAckMsg → ℕ → ℕ → TcpAckManage
claim_at k m ack_msg win_scale i = elim (get_elem? m.ack_info i) [
  | none ↦ m
  | some s ↦ record m { ack_info = set m.ack_info i (claim_slot k m ack_msg win_scale s) }
]

-- filter_send_tcp_ack from the call of tcp_ack_match on.
send_checked : Clock → TcpAckManage → MsgBuf → ℕ → TcpAckMsg → ℕ → Bool × TcpAckManage × List MsgBuf
send_checked k m new drop ack_msg win_scale = elim (tcp_ack_match m ack_msg) [
  | some i ↦ elim (get_elem? m.ack_info i) [
    | none ↦ (false, m, [])
    | some s ↦ send_matched k m new drop ack_msg win_scale i s
  ]
  | none ↦
      let (index, m') = tcp_ack_alloc_index m in
      elim index [
        | none ↦ (false, m', [])
        | some i ↦ (false, claim_at k m' ack_msg win_scale i, [])
      ]
]

-- filter_send_tcp_ack after tcp_check_ack.
send_parsed : Clock → TcpAckManage → MsgBuf → ℕ → TcpAckMsg → ℕ → Bool × TcpAckManage × List MsgBuf
send_parsed k m new drop ack_msg win_scale =
    if (drop == 0) && (win_scale == 0)
    then (false, m, [])
    else send_checked k m new drop ack_msg win_scale

abbrev after_check :
    Clock
    → TcpAckManage
    → MsgBuf
    → Option (ℕ × TcpAckMsg × ℕ)
    → Option (Bool × TcpAckManage × List MsgBuf)
after_check k m new none = none
after_check k m new (some (drop, ack_msg, win_scale)) =
    some (send_parsed k (tcp_ack_update k m) new drop ack_msg win_scale)

-- `ret`, the table and the buffers that were freed. `fuel` bounds the loop over the TCP options and
-- `none` means that it still runs; `msg` is what the local variable holds before it is written.
pub filter_send_tcp_ack :
    Clock
    → ℕ
    → TcpAckMsg
    → TcpAckManage
    → MsgBuf
    → Memory
    → Option (Bool × TcpAckManage × List MsgBuf)
filter_send_tcp_ack k fuel msg m new buf = after_check k m new (tcp_check_ack buf fuel msg 0)

abbrev is_in_send : MsgBuf → Option MsgBuf → Bool
is_in_send b none = false
is_in_send b (some c) = b == c

move_slots : MsgBuf → List TcpAckInfo → List TcpAckInfo
move_slots b [] = []
move_slots b (x ∷ xs) =
    (if x.busy && is_in_send b x.in_send_msg then record x { in_send_msg = none } else x)
    ∷ move_slots b xs

-- A buffer has left the transmit path: no busy slot waits for it any more.
pub move_tcpack_msg : TcpAckManage → MsgBuf → TcpAckManage
move_tcpack_msg m b = if not m.enable then m else record m { ack_info = move_slots b m.ack_info }
