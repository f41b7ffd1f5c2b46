-- ===== src/TcpAck/Filter/Order.antt =====
-- tcp_ack_handle_new: who owns the buffers, and how many acknowledgements are held back in a row.
use aic8800_linux_driver.Common.{
  ℕ, ◌+◌, ◌<◌, ◌≡◌, true, Option, none, some, List, [], ◌∷◌, if◌then◌else◌, ◌==◌, arith,
}
use aic8800_linux_driver.TcpAck.{Clock, MsgBuf, TcpAckMsg, TcpAckInfo}
use aic8800_linux_driver.TcpAck.Filter.{u32_before, tcp_ack_handle_new}

-- how often the buffer `b` is in a pointer, or is the buffer `c`
abbrev pub is_buf : MsgBuf → MsgBuf → ℕ
is_buf b c = if b == c then 1 else 0

abbrev pub count_buf : MsgBuf → Option MsgBuf → ℕ
count_buf b none = 0
count_buf b (some c) = is_buf b c

-- Each buffer that the slot held or that comes in is afterwards exactly one of: held by the slot,
-- freed, or (when the result is 0) left to the caller, who transmits it.
pub tcp_ack_handle_new-owns :
    (k : Clock) (new : MsgBuf) (max : ℕ) (s : TcpAckInfo) (a : TcpAckMsg) (type : ℕ) (b : MsgBuf)
    → let (ret, s', dropped) = tcp_ack_handle_new k new max s a type in
      count_buf b s'.msgbuf + count_buf b dropped + (if ret then 0 else is_buf b new)
      ≡ count_buf b s.msgbuf + is_buf b new
unfolding tcp_ack_handle_new
tcp_ack_handle_new-owns k new max s a type b = ground arith

module _ (k : Clock) (max : ℕ) where
  abbrev pub after_ack : TcpAckInfo → MsgBuf → TcpAckMsg → TcpAckInfo
  after_ack s b a = (tcp_ack_handle_new k b max s a 1).1

  -- The acknowledgements are handed over in order, and each is held back.
  abbrev pub AllHeld : TcpAckInfo → List (MsgBuf × TcpAckMsg) → Type 0
  AllHeld s [] = Unit
  AllHeld s ((b, a) ∷ acks) =
      ((tcp_ack_handle_new k b max s a 1).0 ≡ true) × AllHeld (after_ack s b a) acks

  -- how many of them are not older than what the flow had acknowledged before
  abbrev pub newer : TcpAckInfo → List (MsgBuf × TcpAckMsg) → ℕ
  newer s [] = 0
  newer s ((b, a) ∷ acks) =
      (if u32_before s.ack_msg.seq a.seq then 1 else 0) + newer (after_ack s b a) acks

  held-step :
      (s : TcpAckInfo) (b : MsgBuf) (a : TcpAckMsg)
      → (tcp_ack_handle_new k b max s a 1).0 ≡ true
      → s.in_send_msg ≡ none
      → s.drop_cnt < max
      → ((after_ack s b a).in_send_msg ≡ none)
        × ((after_ack s b a).drop_cnt < max)
        × ((after_ack s b a).drop_cnt
            ≡ s.drop_cnt + (if u32_before s.ack_msg.seq a.seq then 1 else 0))
  unfolding tcp_ack_handle_new
  held-step s b a h n l = ground arith

  -- On a slot with no acknowledgement in flight and its counter below `max_drop_cnt`: if all of a
  -- run of acknowledgements are held back, the counter plus the number of those that are not older
  -- than the ones before stays below `max_drop_cnt`.
  pub held_in_row-lt :
      (s : TcpAckInfo) (acks : List (MsgBuf × TcpAckMsg))
      → AllHeld s acks
      → s.in_send_msg ≡ none
      → s.drop_cnt < max
      → s.drop_cnt + newer s acks < max
  held_in_row-lt s [] h n l = omega arith
  held_in_row-lt s ((b, a) ∷ acks) h n l =
      let (n', l', e) = held-step s b a h.0 n l in
      omega (arith, e, held_in_row-lt (after_ack s b a) acks h.1 n' l')
