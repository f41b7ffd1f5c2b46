-- ===== src/Txq/Classify/Network.antt =====
-- The network queue that a frame for a station goes to.
use aic8800_linux_driver.Common.{
  ℕ, zero, suc, ◌+◌, ◌*◌, ◌%◌, ◌<◌, ◌≤◌, ◌≡◌, sym, inl, inr, Bool, true, false, some, length, arith,
  ltb, ◌==◌, Bool-cases, if◌then◌else◌, bit, subst, false≢true,
}
use aic8800_linux_driver.Txq.{
  Hw, Status, nx_remote_sta_max, nx_nb_tid_per_sta, nx_first_vif_txq_idx,
}
use aic8800_linux_driver.Txq.Sched.{rwnx_txq_sta_init, tid2hwq}
use aic8800_linux_driver.Txq.Sched.Ndev.{sta_init-ndev_idx}
use aic8800_linux_driver.Txq.Classify.{
  Peer, down_hwq2tid, downgrade_from, rwnx_downgrade_ac, select_for, nx_bcmc_txq_ndev_idx,
}

downgrade_from_lt : (acm ac p : ℕ) → p < 8 → downgrade_from acm ac p < 8
unfolding downgrade_from
downgrade_from_lt acm zero p l = elim (Bool-cases (bit acm 0)) [
  | inl e ↦ rw e (omega arith)
  | inr e ↦ rw e l
]
downgrade_from_lt acm (suc ac) p l = elim (Bool-cases (bit acm (suc ac))) [
  | inl e ↦ rw e (downgrade_from_lt acm ac (down_hwq2tid ac) (small ac))
  | inr e ↦ rw e l
]
  where
    small : (n : ℕ) → down_hwq2tid n < 8
    small zero = omega arith
    small (suc zero) = omega arith
    small (suc (suc zero)) = omega arith
    small (suc (suc (suc n))) = omega arith

downgrade_lt : (b : Bool) (acm p : ℕ) → p < 8 → (if b then p else rwnx_downgrade_ac acm p) < 8
unfolding rwnx_downgrade_ac
downgrade_lt true acm p l = l
downgrade_lt false acm p l = downgrade_from_lt acm (if ltb 3 (tid2hwq p) then 3 else tid2hwq p) p l

tid_lt : (b : Bool) (priority tag : ℕ) → priority < 8 → (if b then priority else tag % 8) < 8
tid_lt true p tag l = l
tid_lt false p tag l = omega arith

-- A queue of the station, with the priority of the frame if the station has classes, and of the station.
pub record Selected (ic qos : Bool) (sta : ℕ) (r : ℕ × ℕ) : Type 0 where
  pub of_class : r.1 ≡ (if qos then r.0 else 0) + sta * nx_nb_tid_per_sta
  pub class : qos ≡ true → r.0 < nx_nb_tid_per_sta
  pub in_range : r.1 < nx_bcmc_txq_ndev_idx ic

in_range :
    (ic : Bool) (sta p : ℕ)
    → sta < nx_remote_sta_max ic
    → p < 8
    → p + sta * 8 < nx_bcmc_txq_ndev_idx ic
in_range true sta p s l = omega (arith, s, l)
in_range false sta p s l = omega (arith, s, l)

-- A frame with a priority below 8 for a station that rwnx_txq_sta_init has set up, in a table of queues
-- that has those of all stations: it goes to the network queue of that station and of the priority that
-- it is given, or of the first class where the station has no classes. That is below the queue of the
-- multicast frames.
pub select_for-Selected :
    (h : Hw) (peer : Peer) (tdls_frame : Bool) (priority tag : ℕ) (uapsd : ℕ → Bool)
    (status : Status) (ndev : ℕ)
    → peer.sta_idx < nx_remote_sta_max h.old_ic
    → nx_first_vif_txq_idx h.old_ic ≤ length h.txq
    → priority < 8
    → Selected h.old_ic peer.qos peer.sta_idx (
        select_for
          (rwnx_txq_sta_init h peer.sta_idx uapsd status ndev)
          (some peer)
          tdls_frame
          priority
          tag)
unfolding select_for
select_for-Selected h peer tdls_frame priority tag uapsd status ndev s l p =
    let tid = if tdls_frame then priority else tag % 8 in
    let down = if peer.acm == 0 then tid else rwnx_downgrade_ac peer.acm tid in
    let small = downgrade_lt (peer.acm == 0) peer.acm tid (tid_lt tdls_frame priority tag p) in
    let mine = sta_init-ndev_idx h peer.sta_idx down uapsd status ndev s small l in
    let first = sta_init-ndev_idx h peer.sta_idx 0 uapsd status ndev s (omega arith) l in
    elim (Bool-cases peer.qos) [
      | inl q ↦ rw q (record {
        of_class = mine;
        class = λ e. small;
        in_range =
            subst (λ n. n < nx_bcmc_txq_ndev_idx h.old_ic) (sym mine)
              (in_range h.old_ic peer.sta_idx down s small);
      })
      | inr q ↦ rw q (record {
        of_class = first;
        class = λ e. absurd (false≢true e);
        in_range =
            subst (λ n. n < nx_bcmc_txq_ndev_idx h.old_ic) (sym first)
              (in_range h.old_ic peer.sta_idx 0 s (omega arith));
      })
    ]
