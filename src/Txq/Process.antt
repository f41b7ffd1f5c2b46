-- ===== src/Txq/Process.antt =====
-- rwnx_hwq_process: the queues of a hardware queue in turn (rwnx_txq.c).
pub mod Changes
pub mod Loop
pub mod Ready
pub mod Kept
pub mod Measure
use aic8800_linux_driver.Common.{
  ℕ, zero, suc, ◌+◌, ◌-◌, ◌*◌, ◌%◌, Bool, true, false, ◌&&◌, ◌||◌, not, Option, none, some, List,
  [], ◌∷◌, ◌++◌, length, get_or, set, leb, ltb, ◌==◌, if◌then◌else◌, u16_mod, u8_mod,
}
use aic8800_linux_driver.Txq.{
  Status, Frame, Txq, Hwq, Sta, Event, netif_wake_subqueue, Hw, txq_inactive,
  rwnx_ndev_flow_ctrl_restart, legacy_ps_id, txq_at, set_txq, hwq_at, sta_at, emit, is_nil,
  s8_positive,
}
use aic8800_linux_driver.Txq.Sched.{rwnx_txq_del_from_hw_list, rwnx_txq_flush}
use aic8800_linux_driver.Txq.Push.{rwnx_txq_get_skb_to_push, push_all, bump, set_sta}

abbrev pub set_hwq : Hw → ℕ → Hwq → Hw
set_hwq h k q = record h { hwq = set h.hwq k q }

abbrev pub rotate : List ℕ → List ℕ
rotate [] = []
rotate (x ∷ xs) = xs ++ (x ∷ [])

-- A queue that is done with leaves the list; one that has sent enough in a row turns the list.
pub reschedule : Hw → ℕ → ℕ → Bool → Hw
reschedule h k i true =
    let n = rwnx_txq_del_from_hw_list h i in set_txq n i (record (txq_at n i) { pkt_sent = 0 })
reschedule h k i false =
    let t = txq_at h i in
    let q = hwq_at h k in
    if t.status.in_hwq_list && ltb q.size t.pkt_sent
    then set_hwq (set_txq h i (record t { pkt_sent = 0 })) k (record q { list = rotate q.list })
    else h

abbrev pub give_up : Hw → ℕ → Option ℕ → Hw
give_up h i none = h
give_up h i (some s) =
    let t = txq_at h i in
    let x = sta_at h s in
    let sp = bump (u16_mod - t.push_limit) x.sp_cnt t.ps_id in
    if not (t.push_limit == 0) && (t.ps_id == legacy_ps_id)
    then set_txq (set_sta h s (record x { sp_cnt = sp })) i (record t { push_limit = 0 })
    else h

-- In legacy power save a service period that cannot be completed is given up.
pub abort_period : Hw → ℕ → Hw
abort_period h i = give_up h i (txq_at h i).sta

abbrev pub flow_off : Txq → Txq
flow_off t = record t { status = record t.status { ndev_flow_ctrl = false } }

pub restart_netdev : Hw → ℕ → Hw
restart_netdev h i =
    let t = txq_at h i in
    let n = set_txq h i (flow_off t) in
    if t.status.ndev_flow_ctrl && ltb (length t.sk_list) rwnx_ndev_flow_ctrl_restart
    then (if h.tbusy then n else emit (netif_wake_subqueue t.ndev t.ndev_idx) n)
    else h

-- A queue that is in use: its frames are pushed, as many as its credits allow.
pub serve : Hw → ℕ → ℕ → Hw
unfolding reschedule abort_period restart_netdev
serve h k i =
    let (pushed, rest, empty) = rwnx_txq_get_skb_to_push (txq_at h i) in
    let a = push_all (set_txq h i (record (txq_at h i) { sk_list = rest })) i pushed in
    restart_netdev (abort_period (reschedule a k i empty) i) i

-- The checks by BUG_ON that stop the kernel.
abbrev pub is_bug : Txq → Bool
is_bug t =
    not t.status.in_hwq_list
    || (not (t.idx == txq_inactive) && (not (s8_positive t.credits) || is_nil t.sk_list))

-- One round of the loop; `none` is a BUG_ON.
pub process_txq : Hw → ℕ → ℕ → Option Hw
unfolding serve
process_txq h k i =
    let t = txq_at h i in
    if is_bug t
    then none
    else if t.idx == txq_inactive
    then some (rwnx_txq_flush (rwnx_txq_del_from_hw_list h i) i)
    else some (serve h k i)

abbrev pub head? : List ℕ → Option ℕ
head? [] = none
head? (x ∷ xs) = some x

-- The node behind `i`.
pub next_of : ℕ → List ℕ → Option ℕ
next_of i [] = none
next_of i (x ∷ xs) = let rest = next_of i xs in if x == i then head? xs else rest

pub data Outcome : Type 0 where
  finished : Hw → Outcome
  bug : Outcome
  running : Hw → Outcome

abbrev pub go_on : Option Hw → (Hw → Outcome) → Outcome
go_on none f = bug
go_on (some n) f = f n

-- list_for_each_entry_safe: the next node is taken before a round, which may turn the list.
pub process_from : ℕ → Hw → ℕ → Option ℕ → Outcome
unfolding process_txq next_of
process_from fuel h k none = finished h
process_from zero h k (some i) = running h
process_from (suc fuel) h k (some i) =
    go_on (process_txq h k i) (λ n. process_from fuel n k (next_of i (hwq_at h k).list))

pub rwnx_hwq_process : ℕ → Hw → ℕ → Outcome
unfolding process_from
rwnx_hwq_process fuel h k =
    let q = hwq_at h k in
    process_from fuel (set_hwq h k (record q { need_processing = false })) k (head? q.list)

abbrev pub and_then : (Hw → Outcome) → Outcome → Outcome
and_then f (finished h) = f h
and_then f bug = bug
and_then f (running h) = running h

-- The hardware queues from `n - 1` down to 0.
pub process_down : ℕ → ℕ → Hw → Outcome
unfolding rwnx_hwq_process
process_down fuel zero h = finished h
process_down fuel (suc n) h =
    let r = if (hwq_at h n).need_processing then rwnx_hwq_process fuel h n else finished h in
    and_then (process_down fuel n) r

pub rwnx_hwq_process_all : ℕ → Hw → Outcome
unfolding process_down
rwnx_hwq_process_all fuel h = process_down fuel (length h.hwq) h
