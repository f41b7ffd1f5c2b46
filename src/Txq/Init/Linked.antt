-- ===== src/Txq/Init/Linked.antt =====
-- The queues when the driver starts are in no list, and the operations for TDLS peers and interfaces
-- keep the lists.
use aic8800_linux_driver.Common.{
  ℕ, zero, suc, ◌≡◌, refl, ap, Bool, Option, none, some, List, [], get_or, replicate, arith,
}
use aic8800_linux_driver.Txq.{
  Reason, Txq, Hw, Sta, no_txq, netif_wake_subqueue, txq_at, set_txq, hwq_at, nx_nb_tid_per_sta,
  rwnx_txq_sta_get,
}
use aic8800_linux_driver.Txq.Sched.Links.{Linked}
use aic8800_linux_driver.Txq.Sched.Ops.{each-Linked, sta_start-Linked, sta_stop-Linked}
use aic8800_linux_driver.Txq.Process.Kept.{written_Linked}
use aic8800_linux_driver.Txq.PowerSave.Kept.{emit-Linked}
use aic8800_linux_driver.Txq.Init.{
  init_queues, nx_nb_txq, rwnx_txq_tdls_sta_start, rwnx_txq_tdls_sta_stop, switch_txq,
  rwnx_txq_sta_switch_vif,
}

get_or-replicate {ℓ} : {A : Type ℓ} (n i : ℕ) (a : A) → get_or (replicate n a) i a ≡ a
get_or-replicate zero i a = refl
get_or-replicate (suc n) zero a = refl
get_or-replicate (suc n) (suc i) a = get_or-replicate n i a

no_lists :
    (old_ic : Bool) (stas : List Sta) (k : ℕ) → (hwq_at (init_queues old_ic stas) k).list ≡ []
unfolding init_queues
no_lists old_ic stas zero = refl
no_lists old_ic stas (suc zero) = refl
no_lists old_ic stas (suc (suc zero)) = refl
no_lists old_ic stas (suc (suc (suc zero))) = refl
no_lists old_ic stas (suc (suc (suc (suc zero)))) = refl
no_lists old_ic stas (suc (suc (suc (suc (suc k))))) = refl

pub init_queues-Linked : (old_ic : Bool) (stas : List Sta) → Linked (init_queues old_ic stas)
unfolding init_queues
init_queues-Linked old_ic stas = record {
  lists = λ i k. rw (no_lists old_ic stas k, get_or-replicate nx_nb_txq i no_txq) refl;
  homes = λ i. omega (arith, ap (λ (t : Txq). t.hwq) (get_or-replicate nx_nb_txq i no_txq));
}

pub tdls_sta_start-Linked :
    (h : Hw) (o : Option ℕ) (r : Reason) → Linked h → Linked (rwnx_txq_tdls_sta_start h o r)
unfolding rwnx_txq_tdls_sta_start
tdls_sta_start-Linked h none r w = w
tdls_sta_start-Linked h (some s) r w = sta_start-Linked h s r w

pub tdls_sta_stop-Linked :
    (h : Hw) (o : Option ℕ) (r : Reason) → Linked h → Linked (rwnx_txq_tdls_sta_stop h o r)
unfolding rwnx_txq_tdls_sta_stop
tdls_sta_stop-Linked h none r w = w
tdls_sta_stop-Linked h (some s) r w = sta_stop-Linked h s r w

switch_txq-Linked : (ndev : ℕ) (h : Hw) (i : ℕ) → Linked h → Linked (switch_txq ndev h i)
unfolding switch_txq
switch_txq-Linked ndev h i w =
    let t : Txq = record (txq_at h i) { ndev = ndev } in
    emit-Linked (set_txq h i t) (netif_wake_subqueue ndev (txq_at h i).ndev_idx)
      (written_Linked h (set_txq h i t) i t refl refl refl refl w)

pub sta_switch_vif-Linked :
    (h : Hw) (s ndev : ℕ) → Linked h → Linked (rwnx_txq_sta_switch_vif h s ndev)
unfolding rwnx_txq_sta_switch_vif
sta_switch_vif-Linked h s ndev w =
    each-Linked (switch_txq ndev) (rwnx_txq_sta_get h s 0) nx_nb_tid_per_sta h
      (switch_txq-Linked ndev) w
