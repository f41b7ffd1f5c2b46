-- ===== src/TcpAck/Tests.antt =====
-- Tests of the filter, and its theorems at concrete inputs.
use aic8800_linux_driver.Common.{
  ℕ, ◌+◌, ◌<◌, ◌≡◌, ◌↔◌, refl, true, false, none, some, List, [], ◌∷◌, get_or, arith, if◌then◌else◌,
  ltb,
}
use aic8800_linux_driver.TcpAck.{Clock, MsgBuf, TcpAckMsg, TcpAckInfo, TcpAckManage, tcp_ack_num}
use aic8800_linux_driver.TcpAck.Packet.{Memory, is_drop_tcp_ack}
use aic8800_linux_driver.TcpAck.Packet.Options.{
  nop, opt, is_drop_tcp_ack-Options, is_drop_tcp_ack-eol,
}
use aic8800_linux_driver.TcpAck.Table.{tcp_ack_alloc_index}
use aic8800_linux_driver.TcpAck.Table.Slots.{slot, count_busy, idle_slot, no_msg}
use aic8800_linux_driver.TcpAck.Table.Valid.{IsValid}
use aic8800_linux_driver.TcpAck.Table.Alloc.{tcp_ack_alloc_index_lem}
use aic8800_linux_driver.TcpAck.Filter.{
  tcp_ack_init, tcp_ack_handle_new, filter_rx_tcp_ack, filter_send_tcp_ack,
}
use aic8800_linux_driver.TcpAck.Filter.Valid.{tcp_ack_init-IsValid}
use aic8800_linux_driver.TcpAck.Filter.Reach.{start, next, receive, Reach-IsValid}
use aic8800_linux_driver.TcpAck.Filter.Uninit.{filter_send_tcp_ack-same}
use aic8800_linux_driver.TcpAck.Filter.Order.{
  count_buf, is_buf, tcp_ack_handle_new-owns, newer, held_in_row-lt,
}

-- a kernel with a tick of a millisecond, at time 1000
abbrev clock : Clock
clock = record { jiffies = 1000; time_after = λ a b. ltb b a; msecs_to_jiffies = λ n. n }

-- An acknowledgement of 1000 with two NOPs and a timestamp, and one with end-of-list padding.
abbrev ack_1000 : Memory
ack_1000 i =
    get_or
      (0 ∷ 0 ∷ 0 ∷ 0 ∷ 0 ∷ 0 ∷ 0 ∷ 0 ∷ 0 ∷ 0 ∷ 0 ∷ 0 ∷ 8 ∷ 0 ∷ 69 ∷ 0 ∷ 0 ∷ 52 ∷ 0 ∷ 0 ∷ 0 ∷ 0 ∷ 64
        ∷ 6 ∷ 0 ∷ 0 ∷ 10 ∷ 0 ∷ 0 ∷ 1 ∷ 10 ∷ 0 ∷ 0 ∷ 2 ∷ 18 ∷ 52 ∷ 0 ∷ 80 ∷ 0 ∷ 0 ∷ 0 ∷ 0 ∷ 0 ∷ 0 ∷ 3
        ∷ 232 ∷ 128 ∷ 16 ∷ 1 ∷ 0 ∷ 0 ∷ 0 ∷ 0 ∷ 0 ∷ 1 ∷ 1 ∷ 8 ∷ 10 ∷ 0 ∷ 0 ∷ 0 ∷ 1 ∷ 0 ∷ 0 ∷ 0 ∷ 2
        ∷ [])
      i 0

abbrev ack_2000 : Memory
ack_2000 i =
    get_or
      (0 ∷ 0 ∷ 0 ∷ 0 ∷ 0 ∷ 0 ∷ 0 ∷ 0 ∷ 0 ∷ 0 ∷ 0 ∷ 0 ∷ 8 ∷ 0 ∷ 69 ∷ 0 ∷ 0 ∷ 52 ∷ 0 ∷ 0 ∷ 0 ∷ 0 ∷ 64
        ∷ 6 ∷ 0 ∷ 0 ∷ 10 ∷ 0 ∷ 0 ∷ 1 ∷ 10 ∷ 0 ∷ 0 ∷ 2 ∷ 18 ∷ 52 ∷ 0 ∷ 80 ∷ 0 ∷ 0 ∷ 0 ∷ 0 ∷ 0 ∷ 0 ∷ 7
        ∷ 208 ∷ 128 ∷ 16 ∷ 1 ∷ 0 ∷ 0 ∷ 0 ∷ 0 ∷ 0 ∷ 1 ∷ 1 ∷ 8 ∷ 10 ∷ 0 ∷ 0 ∷ 0 ∷ 1 ∷ 0 ∷ 0 ∷ 0 ∷ 2
        ∷ [])
      i 0

abbrev padded : Memory
padded i =
    get_or
      (0 ∷ 0 ∷ 0 ∷ 0 ∷ 0 ∷ 0 ∷ 0 ∷ 0 ∷ 0 ∷ 0 ∷ 0 ∷ 0 ∷ 8 ∷ 0 ∷ 69 ∷ 0 ∷ 0 ∷ 44 ∷ 0 ∷ 0 ∷ 0 ∷ 0 ∷ 64
        ∷ 6 ∷ 0 ∷ 0 ∷ 10 ∷ 0 ∷ 0 ∷ 1 ∷ 10 ∷ 0 ∷ 0 ∷ 2 ∷ 18 ∷ 52 ∷ 0 ∷ 80 ∷ 0 ∷ 0 ∷ 0 ∷ 0 ∷ 0 ∷ 0 ∷ 3
        ∷ 232 ∷ 96 ∷ 16 ∷ 1 ∷ 0 ∷ 0 ∷ 0 ∷ 0 ∷ 0 ∷ 0 ∷ 0 ∷ 0 ∷ 0 ∷ [])
      i 0

abbrev other_msg : TcpAckMsg
other_msg = record no_msg { seq = 77 }

is_drop_tcp_ack-Options_example : is_drop_tcp_ack ack_1000 13 34 32 0 ≡ some (1, 0)
is_drop_tcp_ack-Options_example =
    is_drop_tcp_ack-Options ack_1000 13 34 32 0 12 (nop ∷ nop ∷ opt 8 10 0 ∷ []) refl (omega arith)
      (omega arith) (omega arith)

zeros : (i : ℕ) → i < 14 → padded (34 + 20 + i) ≡ 0
zeros i h = ground arith

-- four bytes of options, and the loop is still running after fourteen rounds
is_drop_tcp_ack-eol_example : is_drop_tcp_ack padded 14 34 24 0 ≡ none
is_drop_tcp_ack-eol_example =
    is_drop_tcp_ack-eol padded 14 34 24 0 (omega arith) (omega arith) zeros

filter_send_tcp_ack-same_example :
    filter_send_tcp_ack clock 20 no_msg (tcp_ack_init clock) 5 ack_1000
    ≡ filter_send_tcp_ack clock 20 other_msg (tcp_ack_init clock) 5 ack_1000
filter_send_tcp_ack-same_example =
    filter_send_tcp_ack-same clock 20 no_msg other_msg (tcp_ack_init clock) 5 ack_1000

abbrev received : TcpAckManage
received = filter_rx_tcp_ack (tcp_ack_init clock) ack_1000 66 no_msg

Reach-IsValid_example : IsValid received
Reach-IsValid_example =
    Reach-IsValid (next (start clock) (receive ack_1000 66 no_msg (tcp_ack_init clock)))

tcp_ack_alloc_index_lem_example :
    let m = tcp_ack_init clock in
    (((tcp_ack_alloc_index m).0 ≡ none) ↔ (count_busy m.ack_info ≡ tcp_ack_num))
    × ((i : ℕ)
        → (tcp_ack_alloc_index m).0 ≡ some i
        → (i < tcp_ack_num)
          × ((slot m.ack_info i).busy ≡ false)
          × ((tcp_ack_alloc_index m).1 ≡ record m { free_index = none; max_num = m.max_num + 1 }))
tcp_ack_alloc_index_lem_example =
    tcp_ack_alloc_index_lem (tcp_ack_init clock) (tcp_ack_init-IsValid clock)

-- a busy slot that has acknowledged 900 and holds the buffer 4
abbrev busy_slot : TcpAckInfo
busy_slot = record idle_slot {
  busy = true;
  drop_cnt = 3;
  msgbuf = some 4;
  ack_msg = record no_msg { seq = 900 };
}

tcp_ack_handle_new-owns_example :
    let (ret, s', dropped) =
      tcp_ack_handle_new clock 5 10 busy_slot (record no_msg { seq = 1000 }) 1 in
    count_buf 4 s'.msgbuf + count_buf 4 dropped + (if ret then 0 else is_buf 4 5) ≡ 1
tcp_ack_handle_new-owns_example =
    tcp_ack_handle_new-owns clock 5 10 busy_slot (record no_msg { seq = 1000 }) 1 4

abbrev run_of_acks : List (MsgBuf × TcpAckMsg)
run_of_acks = (5, record no_msg { seq = 1000 }) ∷ (6, record no_msg { seq = 1100 }) ∷ []

held_in_row-lt_example : 3 + newer clock 10 busy_slot run_of_acks < 10
unfolding tcp_ack_handle_new
held_in_row-lt_example =
    held_in_row-lt clock 10 busy_slot run_of_acks (refl, (refl, tt)) refl (omega arith)
