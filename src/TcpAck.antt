-- ===== src/TcpAck.antt =====
-- drivers/aic8800/aic8800_fdrv/aicwf_tcp_ack.{c,h}: the filter that thins out TCP acknowledgements
-- on their way to the air. This file has the structures and constants; the children have the code.
-- A pointer to a `msg_buf` is a number (its address) and NULL is `none`. A kernel timer is seen
-- through its documented state: `some t` is pending with expiry `t`, `none` is not pending.
pub mod Packet
pub mod Table
pub mod Filter
pub mod Tests
use aic8800_linux_driver.Common.{ℕ, Bool, Option, List}

-- The clock of the kernel: none of it is code of the driver, so it is a parameter.
pub record Clock : Type 0 where
  pub jiffies : ℕ
  pub time_after : ℕ → ℕ → Bool
  pub msecs_to_jiffies : ℕ → ℕ

abbrev pub MsgBuf : Type 0
MsgBuf = ℕ

-- `struct tcp_ack_msg`. The addresses and ports are kept as read, since they are only compared.
pub record TcpAckMsg : Type 0 where
  pub source : ℕ
  pub dest : ℕ
  pub saddr : ℕ
  pub daddr : ℕ
  pub seq : ℕ
  pub win : ℕ

-- `struct tcp_ack_info`, one slot of the table (its seqlock is left out).
pub record TcpAckInfo : Type 0 where
  pub ack_info_num : ℕ
  pub busy : Bool
  pub drop_cnt : ℕ
  pub psh_flag : Bool
  pub psh_seq : ℕ
  pub win_scale : ℕ
  pub last_time : ℕ
  pub timeout : ℕ
  pub timer : Option ℕ
  pub msgbuf : Option MsgBuf
  pub in_send_msg : Option MsgBuf
  pub ack_msg : TcpAckMsg

-- `struct tcp_ack_manage`. `free_index` is `none` where the code has -1.
pub record TcpAckManage : Type 0 where
  pub enable : Bool
  pub max_num : ℕ
  pub free_index : Option ℕ
  pub last_time : ℕ
  pub timeout : ℕ
  pub max_drop_cnt : ℕ
  pub ack_info : List TcpAckInfo
  pub ack_winsize : ℕ

abbrev pub tcp_ack_num : ℕ
tcp_ack_num = 32

abbrev pub tcp_ack_drop_cnt : ℕ
tcp_ack_drop_cnt = 10

abbrev pub ack_old_time : ℕ
ack_old_time = 4000

abbrev pub max_tcp_ack : ℕ
max_tcp_ack = 200

abbrev pub min_win : ℕ
min_win = 256

abbrev pub size_kb : ℕ
size_kb = 1024
