-- ===== src/TcpAck/Table.antt =====
-- aicwf_tcp_ack.c, the table of flows: tcp_ack_match, tcp_ack_update, tcp_ack_alloc_index.
-- The loops over the 32 slots are recursions on the list of the slots from index `i` on; each
-- seqlock section reads once, as it does when no writer comes between.
pub mod Slots
pub mod Valid
pub mod Alloc
use aic8800_linux_driver.Common.{
  ℕ, ◌+◌, ◌-◌, ◌%◌, ◌^◌, Bool, true, false, ◌&&◌, not, Option, none, some, List, [], ◌∷◌, ◌==◌,
  if◌then◌else◌,
}
use aic8800_linux_driver.TcpAck.{Clock, TcpAckMsg, TcpAckInfo, TcpAckManage, tcp_ack_num}

-- `unsigned long` has 64 bits.
abbrev pub ulong_mod : ℕ
ulong_mod = 2 ^ 64

-- the test of tcp_ack_match without `busy`
pub flow_eq : TcpAckMsg → TcpAckMsg → Bool
flow_eq a b =
    (a.dest == b.dest) && ((a.source == b.source) && ((a.saddr == b.saddr) && (a.daddr == b.daddr)))

pub tcp_ack_match_from : ℕ → List TcpAckInfo → TcpAckMsg → Option ℕ
tcp_ack_match_from i [] msg = none
tcp_ack_match_from i (x ∷ xs) msg =
    let rest = tcp_ack_match_from (i + 1) xs msg in
    if x.busy && flow_eq x.ack_msg msg then some i else rest

pub tcp_ack_match : TcpAckManage → TcpAckMsg → Option ℕ
unfolding tcp_ack_match_from
tcp_ack_match m msg = tcp_ack_match_from 0 m.ack_info msg

abbrev pub is_old : Clock → TcpAckInfo → Bool
is_old k x = x.busy && k.time_after k.jiffies ((x.last_time + x.timeout) % ulong_mod)

-- The loop of tcp_ack_update, from the last slot down to slot `i`. `max_num--` runs on a busy slot,
-- so `max_num` is not 0 there.
pub expire_from : Clock → ℕ → List TcpAckInfo → Option ℕ → ℕ → List TcpAckInfo × Option ℕ × ℕ
expire_from k i [] free_index max_num = ([], free_index, max_num)
expire_from k i (x ∷ xs) free_index max_num =
    let (xs', f, n) = expire_from k (i + 1) xs free_index max_num in
    if is_old k x then (record x { busy = false } ∷ xs', some i, n - 1) else (x ∷ xs', f, n)

pub tcp_ack_update : Clock → TcpAckManage → TcpAckManage
unfolding expire_from
tcp_ack_update k m =
    let (slots, f, n) = expire_from k 0 m.ack_info m.free_index m.max_num in
    if k.time_after k.jiffies ((m.last_time + m.timeout) % ulong_mod)
    then record m { last_time = k.jiffies; ack_info = slots; free_index = f; max_num = n }
    else m

-- The scan of tcp_ack_alloc_index.
pub first_idle : ℕ → List TcpAckInfo → Option ℕ
first_idle i [] = none
first_idle i (x ∷ xs) = let rest = first_idle (i + 1) xs in if not x.busy then some i else rest

pub tcp_ack_alloc_index : TcpAckManage → Option ℕ × TcpAckManage
unfolding first_idle
tcp_ack_alloc_index m = if m.max_num == tcp_ack_num then (none, m) else elim m.free_index [
  | some i ↦ (some i, record m { free_index = none; max_num = m.max_num + 1 })
  | none ↦ elim (first_idle 0 m.ack_info) [
    | none ↦ (none, m)
    | some i ↦ (some i, record m { free_index = none; max_num = m.max_num + 1 })
  ]
]
