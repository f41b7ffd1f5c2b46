-- ===== src/TcpAck/Filter/Reach.antt =====
-- The filter as a transition system: the entry points, called in any order.
use aic8800_linux_driver.Common.{ℕ, ◌≡◌, Bool, some, List}
use aic8800_linux_driver.TcpAck.{Clock, MsgBuf, TcpAckMsg, TcpAckManage}
use aic8800_linux_driver.TcpAck.Packet.{Memory}
use aic8800_linux_driver.TcpAck.Table.Valid.{IsValid}
use aic8800_linux_driver.TcpAck.Filter.{
  tcp_ack_init, tcp_ack_deinit, timeout_at, filter_rx_tcp_ack, filter_send_tcp_ack, move_tcpack_msg,
}
use aic8800_linux_driver.TcpAck.Filter.Valid.{
  tcp_ack_init-IsValid, tcp_ack_deinit-IsValid, timeout_at-IsValid, move_tcpack_msg-IsValid,
}
use aic8800_linux_driver.TcpAck.Filter.Send.{filter_rx_tcp_ack-IsValid, filter_send_tcp_ack-IsValid}

-- One call: an acknowledgement on its way out, a received frame, a timer, the end of a
-- transmission, or the removal of the filter.
pub data Step : TcpAckManage → TcpAckManage → Type 0 where
  send :
      (k : Clock) (fuel : ℕ) (msg : TcpAckMsg) (new : MsgBuf) (buf : Memory) (ret : Bool)
      (dropped : List MsgBuf) {m m' : TcpAckManage}
      → filter_send_tcp_ack k fuel msg m new buf ≡ some (ret, m', dropped)
      → Step m m'
  receive :
      (buf : Memory) (plen : ℕ) (msg : TcpAckMsg) (m : TcpAckManage)
      → Step m (filter_rx_tcp_ack m buf plen msg)
  fire : (i : ℕ) (m : TcpAckManage) → Step m (timeout_at m i).0
  sent : (b : MsgBuf) (m : TcpAckManage) → Step m (move_tcpack_msg m b)
  stop : (m : TcpAckManage) → Step m (tcp_ack_deinit m).0

pub data Reach : TcpAckManage → Type 0 where
  start : (k : Clock) → Reach (tcp_ack_init k)
  next : {m m' : TcpAckManage} → Reach m → Step m m' → Reach m'

Step-IsValid : {m m' : TcpAckManage} → Step m m' → IsValid m → IsValid m'
Step-IsValid (send k fuel msg new buf ret dropped {m} {m'} e) v =
    filter_send_tcp_ack-IsValid k fuel msg m new buf ret m' dropped e v
Step-IsValid (receive buf plen msg m) v = filter_rx_tcp_ack-IsValid m buf plen msg v
Step-IsValid (fire i m) v = timeout_at-IsValid m i v
Step-IsValid (sent b m) v = move_tcpack_msg-IsValid m b v
Step-IsValid (stop m) v = tcp_ack_deinit-IsValid m v

-- In every state that tcp_ack_init and any sequence of calls of the filter's entry points lead to,
-- the table has 32 slots, `max_num` is the number of busy slots, `free_index` is the index of an
-- idle slot if it is one, and no two busy slots have the same flow.
pub Reach-IsValid : {m : TcpAckManage} → Reach m → IsValid m
Reach-IsValid (start k) = tcp_ack_init-IsValid k
Reach-IsValid (next r s) = Step-IsValid s (Reach-IsValid r)
