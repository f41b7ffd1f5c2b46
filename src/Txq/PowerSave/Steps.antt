-- ===== src/Txq/PowerSave/Steps.antt =====
-- Requests of the peer, confirmations and credit updates keep the lists of the hardware queues.
use aic8800_linux_driver.Common.{
  ℕ, ◌+◌, ◌-◌, ◌<◌, ◌≤◌, ◌%◌, ◌≡◌, refl, ◌∙◌, Bool, true, false, ◌&&◌, ◌||◌, not, List, [], ◌∷◌,
  length, length-set, get_or, All, set, ◌==◌, if◌then◌else◌, arith, ltb, ltb→lt,
}
use aic8800_linux_driver.Txq.{
  Frame, Txq, Hw, Sta, emit, kfree_skb, tasklet_schedule, txq_at, set_txq, hwq_at, sta_at, full,
  txq_inactive, is_multicast_sta, s8_positive, uapsd_id, rwnx_txq_sta_get, nx_nb_txq_per_sta,
}
use aic8800_linux_driver.Txq.Sched.{
  rwnx_txq_add_to_hw_list, rwnx_txq_start, rwnx_txq_stop, each, nb_txq,
}
use aic8800_linux_driver.Txq.Sched.Links.{Linked, add-Linked}
use aic8800_linux_driver.Txq.Sched.Ops.{if_Linked, each-Linked, start-Linked, stop-Linked}
use aic8800_linux_driver.Txq.Sched.Changes.{start-length}
use aic8800_linux_driver.Txq.Push.{set_sta}
use aic8800_linux_driver.Txq.Push.Keeps.{queue_skb-Linked}
use aic8800_linux_driver.Txq.Process.Kept.{written_Linked, set_hwq-Linked}
use aic8800_linux_driver.Txq.PowerSave.{
  no_limit, grant, dispatch, nx_tid_prio, rwnx_ps_bh_traffic_req, rwnx_txq_confirm_any,
  rwnx_tx_retry, rwnx_txdatacfm, rwnx_txq_credit_update,
}
use aic8800_linux_driver.Txq.PowerSave.Kept.{
  sta_Linked, emit-Linked, no_limit-Linked, grant-Linked, dispatch-Linked, if_length,
}

shift_below :
    (base n : ℕ) (tids : List ℕ)
    → base + nx_nb_txq_per_sta ≤ n
    → All (λ tid. ltb tid nx_nb_txq_per_sta ≡ true) tids
    → All (λ tid. base + tid < n) tids
shift_below base n [] l a = tt
shift_below base n (tid ∷ tids) l a =
    (omega (arith, l, ltb→lt tid nx_nb_txq_per_sta a.0), shift_below base n tids l a.1)

prio_below : (base n : ℕ) → base + nx_nb_txq_per_sta ≤ n → All (λ tid. base + tid < n) nx_tid_prio
prio_below base n l =
    shift_below base n nx_tid_prio l
      (refl, (refl, (refl, (refl, (refl, (refl, (refl, (refl, tt))))))))

dispatched :
    (b : Bool) (h : Hw) (s ps base req less : ℕ)
    → base + (if b then 1 else nx_nb_txq_per_sta) ≤ length h.txq
    → Linked h
    → Linked (
        if b
        then emit tasklet_schedule (grant h s ps base less)
        else emit tasklet_schedule (dispatch h s ps base req nx_tid_prio))
dispatched true h s ps base req less l w =
    emit-Linked (grant h s ps base less) tasklet_schedule
      (grant-Linked h s ps base less (omega (arith, l)) w)
dispatched false h s ps base req less l w =
    emit-Linked (dispatch h s ps base req nx_tid_prio) tasklet_schedule (
      dispatch-Linked h s ps base req nx_tid_prio (length h.txq) (prio_below base (length h.txq) l)
        refl w)

-- The queues of the station lie in the array.
pub traffic_req-Linked :
    (h : Hw) (s pkt_req ps : ℕ)
    → rwnx_txq_sta_get h s 0 + nb_txq h s ≤ length h.txq
    → Linked h
    → Linked (rwnx_ps_bh_traffic_req h s pkt_req ps)
unfolding rwnx_ps_bh_traffic_req
traffic_req-Linked h s pkt_req ps l w =
    let x = sta_at h s in
    let base = rwnx_txq_sta_get h s 0 in
    let ready = get_or x.pkt_ready ps 0 in
    let busy = get_or x.sp_cnt ps 0 in
    let req = if (pkt_req == 0) || ltb ready pkt_req then ready else pkt_req in
    let v : Sta = record x { sp_cnt = set x.sp_cnt ps 0 } in
    let cut = set_sta h s v in
    let t = txq_at h base in
    let less = if ltb t.credits req then t.credits else req in
    let interrupted = each no_limit base (nb_txq h s) cut in
    let c = sta_Linked h s v w in
    let sent =
      if is_multicast_sta h.old_ic s
      then emit tasklet_schedule (grant cut s ps base less)
      else emit tasklet_schedule (dispatch cut s ps base req nx_tid_prio) in
    let started = if not (busy == 0) || (ready == 0) then h else sent in
    if_Linked (not x.ps_active) h
      (if (pkt_req == 255) && (ps == uapsd_id) then interrupted else started) w
      (if_Linked ((pkt_req == 255) && (ps == uapsd_id)) interrupted started
        (each-Linked no_limit base (nb_txq h s) cut no_limit-Linked c)
        (if_Linked (not (busy == 0) || (ready == 0)) h sent w
          (dispatched (is_multicast_sta h.old_ic s) cut s ps base req less l c)))

confirm_any_Linked : (h : Hw) (i k : ℕ) → Linked h → Linked (rwnx_txq_confirm_any h i k)
unfolding rwnx_txq_confirm_any
confirm_any_Linked h i k w =
    let t : Txq = record (txq_at h i) { pkt_pushed = (txq_at h i).pkt_pushed - 1 } in
    set_hwq-Linked (set_txq h i t) k (record (hwq_at h k) { need_processing = true }) (λ j. refl)
      (written_Linked h (set_txq h i t) i t refl refl refl refl w)

confirm_any_length : (h : Hw) (i k : ℕ) → length (rwnx_txq_confirm_any h i k).txq ≡ length h.txq
unfolding rwnx_txq_confirm_any
confirm_any_length h i k =
    length-set h.txq i (record (txq_at h i) { pkt_pushed = (txq_at h i).pkt_pushed - 1 })

tx_retry_Linked :
    (h : Hw) (i : ℕ) (f : Frame) → i < length h.txq → Linked h → Linked (rwnx_tx_retry h i f)
unfolding rwnx_tx_retry
tx_retry_Linked h i f l w =
    let c = ((txq_at h i).credits + 1) % 256 in
    let t : Txq = record (txq_at h i) { credits = c } in
    let n = set_txq h i t in
    let v = written_Linked h n i t refl refl refl refl w in
    let s = length-set h.txq i t in
    queue_skb-Linked (if s8_positive c then rwnx_txq_start n i full else n) i f true
      (omega (
        arith,
        l,
        if_length (s8_positive c) (rwnx_txq_start n i full) n (length h.txq)
            (start-length n i full ∙ s) s,
      ))
      (if_Linked (s8_positive c) (rwnx_txq_start n i full) n (start-Linked n i full v) v)

-- A frame of a queue of the array is confirmed.
pub txdatacfm-Linked :
    (h : Hw) (i k : ℕ) (f : Frame) (retry : Bool)
    → i < length h.txq
    → Linked h
    → Linked (rwnx_txdatacfm h i k f retry)
unfolding rwnx_txdatacfm
txdatacfm-Linked h i k f retry l w =
    let n = rwnx_txq_confirm_any h i k in
    let v = confirm_any_Linked h i k w in
    let t = txq_at n i in
    let r : i < length n.txq = omega (arith, l, confirm_any_length h i k) in
    let b = not (t.push_limit == 0) && not t.status.stop_full in
    let again = if b then rwnx_txq_add_to_hw_list n i else n in
    let kept = if t.idx == txq_inactive then n else again in
    if_Linked (not f.is_mgmt && (not (t.idx == txq_inactive) && retry)) (rwnx_tx_retry n i f)
      (emit (kfree_skb f.skb) kept) (tx_retry_Linked n i f r v)
      (emit-Linked kept (kfree_skb f.skb) (
        if_Linked (t.idx == txq_inactive) n again v
          (if_Linked b (rwnx_txq_add_to_hw_list n i) n (add-Linked n i r v) v)))

pub credit_update-Linked : (h : Hw) (s tid : ℕ) → Linked h → Linked (rwnx_txq_credit_update h s tid)
unfolding rwnx_txq_credit_update
credit_update-Linked h s tid w =
    let i = rwnx_txq_sta_get h s tid in
    let t = txq_at h i in
    let b = s8_positive t.credits in
    if_Linked (t.idx == txq_inactive) h
      (if b then rwnx_txq_start h i full else rwnx_txq_stop h i full) w
      (if_Linked b (rwnx_txq_start h i full) (rwnx_txq_stop h i full) (start-Linked h i full w)
        (stop-Linked h i full w))
