-- ===== src/TcpAck/Packet/Check.antt =====
-- What tcp_check_ack hands to the filter: the message is written whenever it is going to be read.
use aic8800_linux_driver.Common.{
  ℕ, zero, suc, ◌+◌, ◌*◌, ◌/◌, ◌-◌, ◌≡◌, ◌≢◌, refl, false, not, Option, none, some, ◌⊎◌, inl, inr,
  ltb, ◌==◌, Bool-cases, Option-cases, arith, bit, ◌&&◌,
}
use aic8800_linux_driver.TcpAck.{TcpAckMsg}
use aic8800_linux_driver.TcpAck.Packet.{
  Memory, OptLoop, opt_step, opt_loop, is_drop_tcp_ack, tcp_check_ack, fill_msg, is_ip, is_ipv4_tcp,
  tcp_flags, tcp_at, be16, ip_hdr_len,
}

drop-opt_step : (m : Memory) (s : OptLoop) → s.drop ≢ 0 → (opt_step m s).drop ≢ 0
unfolding opt_step
drop-opt_step m s h = ground arith

drop-opt_loop :
    (m : Memory) (fuel : ℕ) (s t : OptLoop) → opt_loop m fuel s ≡ some t → s.drop ≢ 0 → t.drop ≢ 0
unfolding opt_loop
drop-opt_loop m zero s t e h = cc
drop-opt_loop m (suc fuel) s t e h = elim (Bool-cases (ltb 0 s.len && not (s.drop == 0))) [
  | inl b ↦ drop-opt_loop m fuel (opt_step m s) t (rw b at e) (drop-opt_step m s h)
  | inr b ↦ ground arith
]

-- A verdict of 0 leaves the window factor alone.
is_drop_tcp_ack-zero :
    (m : Memory) (fuel tcp tot w w' : ℕ) → is_drop_tcp_ack m fuel tcp tot w ≡ some (0, w') → w' ≡ w
unfolding is_drop_tcp_ack
is_drop_tcp_ack-zero m fuel tcp tot w w' e = elim (Bool-cases (ltb (m (tcp + 12) / 16 * 4) tot)) [
  | inl b ↦ ground arith
  | inr b ↦ loop_case b
]
  where
    start : OptLoop
    start = record { ptr = tcp + 20; len = m (tcp + 12) / 16 * 4 - 20; drop = 1; win_scale = w }

    loop_case : ltb (m (tcp + 12) / 16 * 4) tot ≡ false → w' ≡ w
    loop_case b = elim (Option-cases (opt_loop m fuel start)) [
      | inl n ↦ ground arith
      | inr (t, q) ↦ ground (arith, drop-opt_loop m fuel start t q (λ z. cc))
    ]

-- Two outcomes that agree but for a message that is not going to be read.
abbrev pub SameCheck : Option (ℕ × TcpAckMsg × ℕ) → Option (ℕ × TcpAckMsg × ℕ) → Type 0
SameCheck none none = Unit
SameCheck (some (d, a, w)) (some (d', a', w')) =
    (d ≡ d') × (w ≡ w') × (((d ≡ 0) × (w ≡ 0)) ⊎ (a ≡ a'))
SameCheck _ _ = ⊥

fill_msg-same :
    (buf : Memory) (msg msg' : TcpAckMsg) (r : Option (ℕ × ℕ))
    → ((w : ℕ) → r ≡ some (0, w) → w ≡ 0)
    → SameCheck (fill_msg buf msg r) (fill_msg buf msg' r)
fill_msg-same buf msg msg' none h = tt
fill_msg-same buf msg msg' (some (zero, w)) h = (refl, refl, inl (refl, h w refl))
fill_msg-same buf msg msg' (some (suc d, w)) h = (refl, refl, inr (ground arith))

-- The outcome of tcp_check_ack with a window factor of 0 does not depend on what the message held
-- before, but for a message that comes with the verdict 0 and the window factor 0.
pub tcp_check_ack-same :
    (buf : Memory) (fuel : ℕ) (msg msg' : TcpAckMsg)
    → SameCheck (tcp_check_ack buf fuel msg 0) (tcp_check_ack buf fuel msg' 0)
unfolding tcp_check_ack
tcp_check_ack-same buf fuel msg msg' = elim (Bool-cases (is_ip buf)) [
  | inr a ↦ rw (a, tcp_check_ack) left
  | inl a ↦ elim (Bool-cases (is_ipv4_tcp buf)) [
    | inr b ↦ rw (a, b, tcp_check_ack) left
    | inl b ↦ elim (Bool-cases (bit (tcp_flags buf) 4)) [
      | inr c ↦ rw (a, b, c, tcp_check_ack) left
      | inl c ↦
          rw (a, b, c, tcp_check_ack)
            (fill_msg-same buf msg msg'
              (is_drop_tcp_ack buf fuel (tcp_at buf) (be16 buf 16 - ip_hdr_len buf) 0)
              (is_drop_tcp_ack-zero buf fuel (tcp_at buf) (be16 buf 16 - ip_hdr_len buf) 0))
    ]
  ]
]
  where
    left : SameCheck (some (0, msg, 0)) (some (0, msg', 0))
    left = (refl, refl, inl (refl, refl))
