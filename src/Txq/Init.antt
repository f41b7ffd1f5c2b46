-- ===== src/Txq/Init.antt =====
-- The queues when the driver starts (rwnx_hwq_init, and the loop of rwnx_cfg80211_init in rwnx_main.c),
-- and their operations for TDLS peers and for a station that changes its interface.
pub mod Linked
use aic8800_linux_driver.Common.{
  ℕ, zero, suc, ◌+◌, ◌*◌, Bool, true, false, ◌||◌, Option, none, some, List, [], ◌∷◌, map,
  replicate, if◌then◌else◌,
}
use aic8800_linux_driver.UsbHost.{UsbHostEnv, aicwf_usb_host_init}
use aic8800_linux_driver.Txq.{
  Status, Reason, Txq, Hwq, Sta, netif_wake_subqueue, Hw, no_txq, txq_at, set_txq, emit,
  nx_nb_tid_per_sta, nx_nb_txq_per_sta, nx_virt_dev_max, no_sta, rwnx_txq_sta_get, rwnx_txq_vif_get,
  no_status,
}
use aic8800_linux_driver.Txq.Sched.{
  each, rwnx_txq_sta_start, rwnx_txq_sta_stop, rwnx_txq_unk_vif_init, rwnx_txq_unk_vif_deinit,
}

-- For NX_TXQ_CNT = 5.
abbrev pub nx_txdesc_cnt : List ℕ
nx_txdesc_cnt = 8 ∷ 64 ∷ 64 ∷ 32 ∷ 8 ∷ []

-- The memory is zeroed before.
pub rwnx_hwq_init : List Hwq
rwnx_hwq_init = map (λ n. record { list = []; size = n; need_processing = false }) nx_txdesc_cnt

-- NX_NB_TXQ
abbrev pub nx_nb_txq : ℕ
nx_nb_txq = nx_nb_txq_per_sta * 32 + 2 * nx_virt_dev_max + 1

-- The part of rwnx_cfg80211_init for the queues, whose memory is taken as zeroed. The hardware queue of
-- a queue that was never initialised is NULL in the source and the index 0 here.
unfoldable pub init_queues : Bool → List Sta → Hw
unfolding rwnx_hwq_init
init_queues old_ic stas = record {
  txq = replicate nx_nb_txq no_txq;
  hwq = rwnx_hwq_init;
  sta_table = stas;
  usb_env = aicwf_usb_host_init;
  old_ic = old_ic;
  tbusy = false;
  events = [];
}

-- `tdls` is whether the device supports it.
pub rwnx_txq_tdls_vif_init : Bool → Hw → ℕ → ℕ → Hw
rwnx_txq_tdls_vif_init tdls h vif ndev = if tdls then rwnx_txq_unk_vif_init h vif ndev else h

pub rwnx_txq_tdls_vif_deinit : Bool → Hw → ℕ → Hw
rwnx_txq_tdls_vif_deinit tdls h vif = if tdls then rwnx_txq_unk_vif_deinit h vif else h

-- The peer of the interface, if it has one.
pub rwnx_txq_tdls_sta_start : Hw → Option ℕ → Reason → Hw
rwnx_txq_tdls_sta_start h none reason = h
rwnx_txq_tdls_sta_start h (some s) reason = rwnx_txq_sta_start h s reason

pub rwnx_txq_tdls_sta_stop : Hw → Option ℕ → Reason → Hw
rwnx_txq_tdls_sta_stop h none reason = h
rwnx_txq_tdls_sta_stop h (some s) reason = rwnx_txq_sta_stop h s reason

pub switch_txq : ℕ → Hw → ℕ → Hw
switch_txq ndev h i =
    let t = txq_at h i in
    emit (netif_wake_subqueue ndev t.ndev_idx) (set_txq h i (record t { ndev = ndev }))

-- `ndev` is the network device of the new interface, whose carrier is on.
pub rwnx_txq_sta_switch_vif : Hw → ℕ → ℕ → Hw
unfolding switch_txq
rwnx_txq_sta_switch_vif h s ndev =
    each (switch_txq ndev) (rwnx_txq_sta_get h s 0) nx_nb_tid_per_sta h

-- The status bits of an interface that a station takes over.
pub rwnx_txq_vif_get_status : Hw → ℕ → Status
rwnx_txq_vif_get_status h vif =
    let s = (txq_at h (rwnx_txq_vif_get h vif 0)).status in
    record no_status { stop_chan = s.stop_chan; stop_vif_ps = s.stop_vif_ps }
