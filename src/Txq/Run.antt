-- ===== src/Txq/Run.antt =====
-- Sequences of the operations on the transmit queues. What initialises or releases the queues of a
-- station or an interface is a sequence of steps `init` or `deinit`.
use aic8800_linux_driver.Common.{
  ℕ, ◌+◌, ◌<◌, ◌≤◌, ◌≡◌, ◌==◌, ◌&&◌, Bool, true, false, Option, List, length,
}
use aic8800_linux_driver.Txq.{
  Sta, Status, Reason, Frame, Hw, txq_at, hwq_at, is_multicast_sta, rwnx_txq_sta_get,
}
use aic8800_linux_driver.Txq.Sched.{
  rwnx_txq_init, rwnx_txq_deinit, rwnx_txq_start, rwnx_txq_stop, rwnx_txq_sta_start,
  rwnx_txq_sta_stop, rwnx_txq_vif_start, rwnx_txq_vif_stop, nb_txq, Peers,
}
use aic8800_linux_driver.Txq.Sched.Links.{Linked, one, count}
use aic8800_linux_driver.Txq.Sched.Ops.{
  init-Linked, deinit-Linked, start-Linked, stop-Linked, sta_start-Linked, sta_stop-Linked,
  vif_start-Linked, vif_stop-Linked,
}
use aic8800_linux_driver.Txq.Push.{rwnx_txq_queue_skb}
use aic8800_linux_driver.Txq.Push.Keeps.{queue_skb-Linked}
use aic8800_linux_driver.Txq.Process.{finished, rwnx_hwq_process}
use aic8800_linux_driver.Txq.Process.Loop.{hwq_process-Linked}
use aic8800_linux_driver.Txq.PowerSave.{
  rwnx_ps_bh_enable, rwnx_ps_bh_traffic_req, rwnx_txdatacfm, rwnx_txq_credit_update,
}
use aic8800_linux_driver.Txq.PowerSave.Kept.{ps_bh_enable-Linked}
use aic8800_linux_driver.Txq.PowerSave.Steps.{
  traffic_req-Linked, txdatacfm-Linked, credit_update-Linked,
}
use aic8800_linux_driver.Txq.Init.{
  init_queues, rwnx_txq_tdls_sta_start, rwnx_txq_tdls_sta_stop, rwnx_txq_sta_switch_vif,
}
use aic8800_linux_driver.Txq.Init.Linked.{
  init_queues-Linked, tdls_sta_start-Linked, tdls_sta_stop-Linked, sta_switch_vif-Linked,
}

pub data TxqStep (h : Hw) : Hw → Type 0 where
  -- of a queue that is in no list; what the driver does otherwise is in Sched/Reinit
  init :
      (i : ℕ) (status : Status) (hwq tid : ℕ) (sta : Option ℕ) (ndev : ℕ)
      → (txq_at h i).status.in_hwq_list ≡ false
      → status.in_hwq_list ≡ false
      → hwq < length h.hwq
      → TxqStep h (rwnx_txq_init h i status hwq tid sta ndev)
  deinit : (i : ℕ) → TxqStep h (rwnx_txq_deinit h i)
  start : (i : ℕ) (r : Reason) → TxqStep h (rwnx_txq_start h i r)
  stop : (i : ℕ) (r : Reason) → TxqStep h (rwnx_txq_stop h i r)
  sta_start : (s : ℕ) (r : Reason) → TxqStep h (rwnx_txq_sta_start h s r)
  sta_stop : (s : ℕ) (r : Reason) → TxqStep h (rwnx_txq_sta_stop h s r)
  vif_start :
      (monitor roc : Bool) (chsw : Option ℕ) (peers : Peers) (vif : ℕ) (r : Reason)
      → TxqStep h (rwnx_txq_vif_start h monitor roc chsw peers vif r)
  vif_stop :
      (monitor : Bool) (peers : Peers) (vif : ℕ) (r : Reason)
      → TxqStep h (rwnx_txq_vif_stop h monitor peers vif r)
  queue_skb :
      (i : ℕ) (f : Frame) (retry : Bool)
      → i < length h.txq
      → TxqStep h (rwnx_txq_queue_skb h i f retry).1
  -- one that ends
  process : (fuel k : ℕ) (n : Hw) → rwnx_hwq_process fuel h k ≡ finished n → TxqStep h n
  -- where a multicast queue is in the hardware queue 1
  ps_bh_enable :
      (s : ℕ) (enable : Bool)
      → (is_multicast_sta h.old_ic s ≡ true → (txq_at h (rwnx_txq_sta_get h s 0)).hwq ≡ 1)
      → TxqStep h (rwnx_ps_bh_enable h s enable)
  ps_bh_traffic_req :
      (s pkt_req ps : ℕ)
      → rwnx_txq_sta_get h s 0 + nb_txq h s ≤ length h.txq
      → TxqStep h (rwnx_ps_bh_traffic_req h s pkt_req ps)
  txdatacfm :
      (i k : ℕ) (f : Frame) (retry : Bool)
      → i < length h.txq
      → TxqStep h (rwnx_txdatacfm h i k f retry)
  credit_update : (s tid : ℕ) → TxqStep h (rwnx_txq_credit_update h s tid)
  tdls_sta_start : (peer : Option ℕ) (r : Reason) → TxqStep h (rwnx_txq_tdls_sta_start h peer r)
  tdls_sta_stop : (peer : Option ℕ) (r : Reason) → TxqStep h (rwnx_txq_tdls_sta_stop h peer r)
  sta_switch_vif : (s ndev : ℕ) → TxqStep h (rwnx_txq_sta_switch_vif h s ndev)

pub data TxqRun (h : Hw) : Hw → Type 0 where
  here : TxqRun h h
  then_step : (a b : Hw) → TxqRun h a → TxqStep a b → TxqRun h b

step_Linked : (h n : Hw) → TxqStep h n → Linked h → Linked n
step_Linked h n (init i status hwq tid sta ndev e f l) w =
    init-Linked h i status hwq tid sta ndev e f l w
step_Linked h n (deinit i) w = deinit-Linked h i w
step_Linked h n (start i r) w = start-Linked h i r w
step_Linked h n (stop i r) w = stop-Linked h i r w
step_Linked h n (sta_start s r) w = sta_start-Linked h s r w
step_Linked h n (sta_stop s r) w = sta_stop-Linked h s r w
step_Linked h n (vif_start monitor roc chsw peers vif r) w =
    vif_start-Linked h monitor roc chsw peers vif r w
step_Linked h n (vif_stop monitor peers vif r) w = vif_stop-Linked h monitor peers vif r w
step_Linked h n (queue_skb i f retry l) w = queue_skb-Linked h i f retry l w
step_Linked h n (process fuel k a e) w = hwq_process-Linked fuel h n k e w
step_Linked h n (ps_bh_enable s enable e) w = ps_bh_enable-Linked h s enable e w
step_Linked h n (ps_bh_traffic_req s pkt_req ps l) w = traffic_req-Linked h s pkt_req ps l w
step_Linked h n (txdatacfm i k f retry l) w = txdatacfm-Linked h i k f retry l w
step_Linked h n (credit_update s tid) w = credit_update-Linked h s tid w
step_Linked h n (tdls_sta_start peer r) w = tdls_sta_start-Linked h peer r w
step_Linked h n (tdls_sta_stop peer r) w = tdls_sta_stop-Linked h peer r w
step_Linked h n (sta_switch_vif s ndev) w = sta_switch_vif-Linked h s ndev w

run_Linked : (h n : Hw) → TxqRun h n → Linked h → Linked n
run_Linked h n here w = w
run_Linked h n (then_step a b r s) w = step_Linked a n s (run_Linked h a r w)

pub TxqRun-Linked :
    (old_ic : Bool) (stas : List Sta) (n : Hw) → TxqRun (init_queues old_ic stas) n → Linked n
TxqRun-Linked old_ic stas n r =
    run_Linked (init_queues old_ic stas) n r (init_queues-Linked old_ic stas)

-- After a sequence of operations from the start of the driver, each queue with the flag
-- RWNX_TXQ_IN_HWQ_LIST is in the list of its own hardware queue once and in no other, and the other
-- queues are in no list. The conditions: a queue is initialised only while it is in no list, with a
-- status without the flag and one of the hardware queues; the loops of rwnx_hwq_process end;
-- rwnx_ps_bh_enable for a multicast station finds its queue in the hardware queue 1; and the queues of
-- frames, of confirmations and of rwnx_ps_bh_traffic_req are those of the driver.
pub TxqRun-count :
    (old_ic : Bool) (stas : List Sta) (n : Hw) (i k : ℕ)
    → TxqRun (init_queues old_ic stas) n
    → count i (hwq_at n k).list ≡ one ((txq_at n i).status.in_hwq_list && ((txq_at n i).hwq == k))
TxqRun-count old_ic stas n i k r = (TxqRun-Linked old_ic stas n r).lists i k
