-- ===== src/Txq/PowerSave.antt =====
-- Power save of the stations, and confirmations of pushed frames (rwnx_tx.c, rwnx_txq.c).
pub mod Kept
pub mod Credits
pub mod Steps
use aic8800_linux_driver.Common.{
  ℕ, zero, suc, ◌+◌, ◌-◌, ◌*◌, ◌%◌, Bool, true, false, ◌&&◌, ◌||◌, not, Option, none, some, List,
  [], ◌∷◌, ◌++◌, length, get_or, set, leb, ltb, ◌==◌, if◌then◌else◌, u16_mod, u8_mod,
}
use aic8800_linux_driver.Txq.{
  Status, full, sta_ps, Frame, Txq, Hwq, Sta, Event, kfree_skb, set_traffic_status,
  tasklet_schedule, Hw, txq_inactive, legacy_ps_id, uapsd_id, is_multicast_sta, txq_at, set_txq,
  hwq_at, sta_at, emit, s8_positive, rwnx_txq_sta_get,
}
use aic8800_linux_driver.Txq.Sched.{
  rwnx_txq_add_to_hw_list, rwnx_txq_start, rwnx_txq_stop, each, nb_txq, rwnx_txq_sta_start,
  rwnx_txq_sta_stop,
}
use aic8800_linux_driver.Txq.Push.{bump, set_sta, rwnx_txq_queue_skb}
use aic8800_linux_driver.Txq.Process.{set_hwq}

-- The frames of the queues from `i` on that use `ps`.
pub frames_of : Hw → ℕ → ℕ → ℕ → ℕ
frames_of h ps i zero = 0
frames_of h ps i (suc n) =
    let t = txq_at h i in
    let rest = frames_of h ps (i + 1) n in
    if t.ps_id == ps then (length t.sk_list + rest) % u16_mod else rest

abbrev pub no_limit : Hw → ℕ → Hw
no_limit h i = set_txq h i (record (txq_at h i) { push_limit = 0 })

-- The queues are stopped, and the frames that wait are counted.
pub ps_enable : Hw → ℕ → Hw
unfolding frames_of
ps_enable h s =
    let x = sta_at h s in
    let n =
      rwnx_txq_sta_stop (set_sta h s (record x { ps_active = true; sp_cnt = 0 ∷ 0 ∷ [] })) s
        sta_ps in
    let base = rwnx_txq_sta_get h s 0 in
    let ready =
      if is_multicast_sta h.old_ic s
      then length (txq_at n base).sk_list % u16_mod ∷ 0 ∷ []
      else frames_of n 0 base (nb_txq h s) ∷ frames_of n 1 base (nb_txq h s) ∷ [] in
    set_sta n s (record (sta_at n s) { pkt_ready = ready })

-- The queues lose their limits and are started. A multicast queue goes back to the hardware queue 1.
pub ps_disable : Hw → ℕ → Hw
ps_disable h s =
    let a = set_sta h s (record (sta_at h s) { ps_active = false }) in
    let base = rwnx_txq_sta_get h s 0 in
    let b =
      if is_multicast_sta h.old_ic s
      then set_txq a base (record (txq_at a base) { hwq = 1; push_limit = 0 })
      else each no_limit base (nb_txq h s) a in
    let c = rwnx_txq_sta_start b s sta_ps in
    let d =
      if get_or (sta_at c s).pkt_ready 0 0 == 0
      then c
      else emit (set_traffic_status s false false) c in
    emit tasklet_schedule d

pub rwnx_ps_bh_enable : Hw → ℕ → Bool → Hw
unfolding ps_enable ps_disable
rwnx_ps_bh_enable h s enable = if enable then ps_enable h s else ps_disable h s

abbrev pub grant : Hw → ℕ → ℕ → ℕ → ℕ → Hw
grant h s ps i n =
    let a = set_txq h i (record (txq_at h i) { push_limit = n % u8_mod }) in
    let x = sta_at a s in
    rwnx_txq_add_to_hw_list (set_sta a s (record x { sp_cnt = bump n x.sp_cnt ps })) i

-- The frames of a queue that its credits allow; the credits are not negative.
abbrev pub allowed : Txq → ℕ
allowed t = let len = length t.sk_list % u16_mod in if ltb t.credits len then t.credits else len

-- The queues in the order of foreach_sta_txq_prio: each is granted what it has, up to the request.
pub dispatch : Hw → ℕ → ℕ → ℕ → ℕ → List ℕ → Hw
dispatch h s ps base req [] = h
dispatch h s ps base req (tid ∷ tids) =
    let i = base + tid in
    let t = txq_at h i in
    let n = allowed t in
    let skip = not (t.ps_id == ps) || (n == 0) in
    let part = ltb n req in
    let next =
      dispatch (if skip then h else grant h s ps i n) s ps base (if skip then req else req - n)
        tids in
    if skip then next else if part then next else grant h s ps i req

abbrev pub nx_tid_prio : List ℕ
nx_tid_prio = 7 ∷ 6 ∷ 5 ∷ 4 ∷ 3 ∷ 0 ∷ 2 ∷ 1 ∷ []

-- A request of the peer for frames, `pkt_req` of them or all with 0.
pub rwnx_ps_bh_traffic_req : Hw → ℕ → ℕ → ℕ → Hw
unfolding dispatch
rwnx_ps_bh_traffic_req h s pkt_req ps =
    let x = sta_at h s in
    let base = rwnx_txq_sta_get h s 0 in
    let ready = get_or x.pkt_ready ps 0 in
    let busy = get_or x.sp_cnt ps 0 in
    let req = if (pkt_req == 0) || ltb ready pkt_req then ready else pkt_req in
    let cut = set_sta h s (record x { sp_cnt = set x.sp_cnt ps 0 }) in
    let t = txq_at h base in
    let less = if ltb t.credits req then t.credits else req in
    let interrupted = each no_limit base (nb_txq h s) cut in
    if not x.ps_active
    then h
    else if (pkt_req == 255) && (ps == uapsd_id)
    then interrupted
    else if not (busy == 0) || (ready == 0)
    then h
    else if is_multicast_sta h.old_ic s
    then emit tasklet_schedule (grant cut s ps base less)
    else emit tasklet_schedule (dispatch cut s ps base req nx_tid_prio)

pub rwnx_txq_confirm_any : Hw → ℕ → ℕ → Hw
rwnx_txq_confirm_any h i k =
    let t = txq_at h i in
    set_hwq (set_txq h i (record t { pkt_pushed = t.pkt_pushed - 1 })) k
      (record (hwq_at h k) { need_processing = true })

-- The credits of an s8, one more.
pub rwnx_tx_retry : Hw → ℕ → Frame → Hw
rwnx_tx_retry h i f =
    let t = txq_at h i in
    let c = (t.credits + 1) % 256 in
    let n = set_txq h i (record t { credits = c }) in
    (rwnx_txq_queue_skb (if s8_positive c then rwnx_txq_start n i full else n) i f true).1

-- rwnx_txdatacfm for a frame of queue `i`, pushed to the hardware queue `k`, on a device that is up:
-- a data frame that is to be retried is queued again, if its queue is still in use.
pub rwnx_txdatacfm : Hw → ℕ → ℕ → Frame → Bool → Hw
unfolding rwnx_txq_confirm_any rwnx_tx_retry
rwnx_txdatacfm h i k f retry =
    let n = rwnx_txq_confirm_any h i k in
    let t = txq_at n i in
    let again =
      if not (t.push_limit == 0) && not t.status.stop_full
      then rwnx_txq_add_to_hw_list n i
      else n in
    if not f.is_mgmt && (not (t.idx == txq_inactive) && retry)
    then rwnx_tx_retry n i f
    else emit (kfree_skb f.skb) (if t.idx == txq_inactive then n else again)

pub rwnx_txq_credit_update : Hw → ℕ → ℕ → Hw
rwnx_txq_credit_update h s tid =
    let i = rwnx_txq_sta_get h s tid in
    let t = txq_at h i in
    if t.idx == txq_inactive
    then h
    else if s8_positive t.credits
    then rwnx_txq_start h i full
    else rwnx_txq_stop h i full
