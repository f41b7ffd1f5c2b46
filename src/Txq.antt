-- ===== src/Txq.antt =====
-- The transmit queues (rwnx_txq.h, rwnx_txq.c): one queue of frames for each station and traffic class,
-- the five hardware queues that schedule them, and the state of the stations in power save. A queue is
-- its index in the array `txq` of struct rwnx_hw, a station its index in `sta_table`, a frame a record
-- with the address of its buffer. Every operation holds tx_lock, so it is one step. What it asks of the
-- network stack, the bus and the firmware are events, in order. The callers stop and start a queue for
-- one reason at a time. Statistics and the report of a management frame to cfg80211 are left out, and
-- CONFIG_RWNX_MUMIMO_TX and CONFIG_RWNX_AMSDUS_TX are not set.
pub mod Run
pub mod Sched
pub mod Push
pub mod Process
pub mod PowerSave
pub mod Init
pub mod Classify
mod Tests
use aic8800_linux_driver.Common.{
  ℕ, ◌+◌, ◌*◌, ◌-◌, ◌%◌, Bool, true, false, ◌&&◌, ◌||◌, not, Option, none, some, List, [], ◌∷◌,
  ◌++◌, length, get_or, set, map, leb, ltb, ◌==◌, if◌then◌else◌, u8_mod, u16_mod,
}
use aic8800_linux_driver.UsbHost.{UsbHostEnv, aicwf_usb_host_txdesc_push}

-- `enum rwnx_txq_flags`
pub record Status : Type 0 where
  pub in_hwq_list : Bool
  pub stop_full : Bool
  pub stop_csa : Bool
  pub stop_sta_ps : Bool
  pub stop_vif_ps : Bool
  pub stop_chan : Bool
  pub stop_mu_pos : Bool
  pub ndev_flow_ctrl : Bool

pub data Reason : Type 0 where
  full : Reason
  csa : Reason
  sta_ps : Reason
  vif_ps : Reason
  chan : Reason
  mu_pos : Reason

-- What pushing reads of a buffer and its `struct rwnx_sw_txhdr`.
pub record Frame : Type 0 where
  pub skb : ℕ
  pub rwnx_sta : Option ℕ
  pub on_mesh : Bool
  pub is_mgmt : Bool
  pub frame_control : ℕ
  pub ethertype : ℕ
  pub fixed_rate : Option ℕ

-- `struct rwnx_txq`; `credits` is an s8 by its bits.
pub record Txq : Type 0 where
  pub idx : ℕ
  pub status : Status
  pub credits : ℕ
  pub pkt_sent : ℕ
  pub pkt_pushed : ℕ
  pub sk_list : List Frame
  pub last_retry_skb : Option ℕ
  pub hwq : ℕ
  pub nb_retry : ℕ
  pub push_limit : ℕ
  pub tid : ℕ
  pub sta : Option ℕ
  pub ps_id : ℕ
  pub ndev_idx : ℕ
  pub ndev : ℕ

-- `struct rwnx_hwq`
pub record Hwq : Type 0 where
  pub list : List ℕ
  pub size : ℕ
  pub need_processing : Bool

-- What the queues read and write of `struct rwnx_sta`; `sp_cnt` and `pkt_ready` by their two indices.
pub record Sta : Type 0 where
  pub vif_idx : ℕ
  pub ps_active : Bool
  pub sp_cnt : List ℕ
  pub pkt_ready : List ℕ
  pub tdls_active : Bool

pub data Event : Type 0 where
  netif_stop_subqueue : ℕ → ℕ → Event
  netif_wake_subqueue : ℕ → ℕ → Event
  -- a buffer is released, by kfree_skb or by consume_skb
  kfree_skb : ℕ → Event
  set_traffic_status : ℕ → Bool → Bool → Event
  tasklet_schedule : Event
  -- buffer, hardware queue, end of service period, more data, status_desc_addr
  frame_tx : ℕ → ℕ → Bool → Bool → ℕ → Event

-- The part of `struct rwnx_hw` that the queues work on. `old_ic` is the test on the chip that chooses
-- the smaller table of stations.
pub record Hw : Type 0 where
  pub txq : List Txq
  pub hwq : List Hwq
  pub sta_table : List Sta
  pub usb_env : UsbHostEnv
  pub old_ic : Bool
  pub tbusy : Bool
  pub events : List Event

abbrev pub txq_inactive : ℕ
txq_inactive = 0xffff

abbrev pub ndev_no_txq : ℕ
ndev_no_txq = 0xffff

abbrev pub nx_nb_tid_per_sta : ℕ
nx_nb_tid_per_sta = 8

abbrev pub nx_nb_txq_per_sta : ℕ
nx_nb_txq_per_sta = 9

abbrev pub nx_virt_dev_max : ℕ
nx_virt_dev_max = 4

abbrev pub nx_txq_initial_credits : ℕ
nx_txq_initial_credits = 64

abbrev pub rwnx_ndev_flow_ctrl_stop : ℕ
rwnx_ndev_flow_ctrl_stop = 64

abbrev pub rwnx_ndev_flow_ctrl_restart : ℕ
rwnx_ndev_flow_ctrl_restart = 64

abbrev pub legacy_ps_id : ℕ
legacy_ps_id = 0

abbrev pub uapsd_id : ℕ
uapsd_id = 1

-- NX_REMOTE_STA_MAX, and NX_REMOTE_STA_MAX_FOR_OLD_IC
abbrev pub nx_remote_sta_max : Bool → ℕ
nx_remote_sta_max old_ic = if old_ic then 8 else 32

abbrev pub nx_first_vif_txq_idx : Bool → ℕ
nx_first_vif_txq_idx old_ic = nx_remote_sta_max old_ic * nx_nb_txq_per_sta

abbrev pub nx_first_unk_txq_idx : Bool → ℕ
nx_first_unk_txq_idx old_ic = nx_first_vif_txq_idx old_ic + nx_virt_dev_max

abbrev pub nx_off_chan_txq_idx : Bool → ℕ
nx_off_chan_txq_idx old_ic = nx_first_vif_txq_idx old_ic + nx_virt_dev_max * 2

abbrev pub is_multicast_sta : Bool → ℕ → Bool
is_multicast_sta old_ic sta_idx = leb (nx_remote_sta_max old_ic) sta_idx

abbrev pub no_status : Status
no_status = record {
  in_hwq_list = false;
  stop_full = false;
  stop_csa = false;
  stop_sta_ps = false;
  stop_vif_ps = false;
  stop_chan = false;
  stop_mu_pos = false;
  ndev_flow_ctrl = false;
}

-- What lies out of bounds is a queue that is not in use.
abbrev pub no_txq : Txq
no_txq = record {
  idx = txq_inactive;
  status = no_status;
  credits = 0;
  pkt_sent = 0;
  pkt_pushed = 0;
  sk_list = [];
  last_retry_skb = none;
  hwq = 0;
  nb_retry = 0;
  push_limit = 0;
  tid = 0;
  sta = none;
  ps_id = 0;
  ndev_idx = ndev_no_txq;
  ndev = 0;
}

abbrev pub no_hwq : Hwq
no_hwq = record { list = []; size = 0; need_processing = false }

abbrev pub no_sta : Sta
no_sta = record { vif_idx = 0; ps_active = false; sp_cnt = []; pkt_ready = []; tdls_active = false }

abbrev pub txq_at : Hw → ℕ → Txq
txq_at h i = get_or h.txq i no_txq

abbrev pub set_txq : Hw → ℕ → Txq → Hw
set_txq h i t = record h { txq = set h.txq i t }

abbrev pub hwq_at : Hw → ℕ → Hwq
hwq_at h k = get_or h.hwq k no_hwq

abbrev pub sta_at : Hw → ℕ → Sta
sta_at h s = get_or h.sta_table s no_sta

abbrev pub emit : Event → Hw → Hw
emit e h = record h { events = h.events ++ (e ∷ []) }

abbrev pub has : Status → Reason → Bool
has s full = s.stop_full
has s csa = s.stop_csa
has s sta_ps = s.stop_sta_ps
has s vif_ps = s.stop_vif_ps
has s chan = s.stop_chan
has s mu_pos = s.stop_mu_pos

abbrev pub mark : Status → Reason → Bool → Status
mark s full b = record s { stop_full = b }
mark s csa b = record s { stop_csa = b }
mark s sta_ps b = record s { stop_sta_ps = b }
mark s vif_ps b = record s { stop_vif_ps = b }
mark s chan b = record s { stop_chan = b }
mark s mu_pos b = record s { stop_mu_pos = b }

-- RWNX_TXQ_STOP has all reasons but RWNX_TXQ_STOP_MU_POS.
abbrev pub is_stopped : Status → Bool
is_stopped s = s.stop_full || (s.stop_csa || (s.stop_sta_ps || (s.stop_vif_ps || s.stop_chan)))

abbrev pub is_nil {ℓ} : {A : Type ℓ} → List A → Bool
is_nil [] = true
is_nil (x ∷ xs) = false

-- An s8 that is positive.
abbrev pub s8_positive : ℕ → Bool
s8_positive c = ltb 0 c && ltb c 128

pub rwnx_txq_sta_idx : Hw → ℕ → ℕ → ℕ
rwnx_txq_sta_idx h sta_idx tid =
    if is_multicast_sta h.old_ic sta_idx
    then nx_first_vif_txq_idx h.old_ic + (sta_at h sta_idx).vif_idx
    else sta_idx * nx_nb_txq_per_sta + tid

-- `vif` is the index of the master interface.
pub rwnx_txq_vif_idx : Hw → ℕ → ℕ → ℕ
rwnx_txq_vif_idx h vif type = nx_first_vif_txq_idx h.old_ic + vif + type * nx_virt_dev_max

pub rwnx_txq_sta_get : Hw → ℕ → ℕ → ℕ
unfolding rwnx_txq_sta_idx
rwnx_txq_sta_get h sta tid = rwnx_txq_sta_idx h sta (if leb nx_nb_txq_per_sta tid then 0 else tid)

pub rwnx_txq_vif_get : Hw → ℕ → ℕ → ℕ
unfolding rwnx_txq_vif_idx
rwnx_txq_vif_get h vif type = rwnx_txq_vif_idx h vif (if ltb 1 type then 0 else type)
