-- ===== src/TcpAck/Filter/Uninit.antt =====
-- The local `ack_msg` of filter_send_tcp_ack is not initialised: it is never read before it is
-- written.
use aic8800_linux_driver.Common.{ℕ, ◌≡◌, refl, ap, ◌⊎◌, inl, inr, Option, none, some, arith}
use aic8800_linux_driver.TcpAck.{Clock, MsgBuf, TcpAckMsg, TcpAckManage}
use aic8800_linux_driver.TcpAck.Packet.{Memory}
use aic8800_linux_driver.TcpAck.Packet.Check.{SameCheck, tcp_check_ack-same}
use aic8800_linux_driver.TcpAck.Table.{tcp_ack_update}
use aic8800_linux_driver.TcpAck.Filter.{send_parsed, after_check, filter_send_tcp_ack}

send_parsed-zero :
    (k : Clock) (m : TcpAckManage) (new : MsgBuf) (d : ℕ) (a a' : TcpAckMsg) (w : ℕ)
    → ((d ≡ 0) × (w ≡ 0)) ⊎ (a ≡ a')
    → send_parsed k m new d a w ≡ send_parsed k m new d a' w
unfolding send_parsed
send_parsed-zero k m new d a a' w (inl h) = ground arith
send_parsed-zero k m new d a a' w (inr h) = ap (λ x. send_parsed k m new d x w) h

after_check-same :
    (k : Clock) (m : TcpAckManage) (new : MsgBuf) (x x' : Option (ℕ × TcpAckMsg × ℕ))
    → SameCheck x x'
    → after_check k m new x ≡ after_check k m new x'
after_check-same k m new none none h = refl
after_check-same k m new none (some y) h = absurd h
after_check-same k m new (some y) none h = absurd h
after_check-same k m new (some (d, a, w)) (some (d', a', w')) h =
    rw (← h.0, ← h.1) (ap some (send_parsed-zero k (tcp_ack_update k m) new d a a' w h.2))

-- What filter_send_tcp_ack does is the same whatever its local `ack_msg` holds at the start: the
-- variable is not read uninitialised.
pub filter_send_tcp_ack-same :
    (k : Clock) (fuel : ℕ) (msg msg' : TcpAckMsg) (m : TcpAckManage) (new : MsgBuf) (buf : Memory)
    → filter_send_tcp_ack k fuel msg m new buf ≡ filter_send_tcp_ack k fuel msg' m new buf
unfolding filter_send_tcp_ack
filter_send_tcp_ack-same k fuel msg msg' m new buf =
    after_check-same k m new _ _ (tcp_check_ack-same buf fuel msg msg')
