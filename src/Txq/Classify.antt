-- ===== src/Txq/Classify.antt =====
-- The traffic class and the network queue of a frame: rwnx_downgrade_ac, and what rwnx_select_txq of
-- rwnx_tx.c does once it knows the station. `tag` is what cfg80211_classify8021d returns.
pub mod Downgrade
pub mod Network
use aic8800_linux_driver.Common.{
  ℕ, zero, suc, ◌+◌, ◌*◌, ◌%◌, Bool, true, false, Option, none, some, [], ◌∷◌, get_or, ltb, ◌==◌,
  if◌then◌else◌, bit,
}
use aic8800_linux_driver.Txq.{Hw, txq_at, rwnx_txq_sta_get, nx_nb_tid_per_sta, nx_remote_sta_max}
use aic8800_linux_driver.Txq.Sched.{tid2hwq}

abbrev pub rwnx_hwq_vo : ℕ
rwnx_hwq_vo = 3

-- rwnx_down_hwq2tid
abbrev pub down_hwq2tid : ℕ → ℕ
down_hwq2tid ac = get_or (2 ∷ 3 ∷ 5 ∷ []) ac 0

-- The loop, from the class `ac` down; `priority` is that of the frame.
pub downgrade_from : ℕ → ℕ → ℕ → ℕ
downgrade_from acm zero priority = if bit acm 0 then 1 else priority
downgrade_from acm (suc ac) priority =
    let lower = downgrade_from acm ac (down_hwq2tid ac) in
    if bit acm (suc ac) then lower else priority

pub rwnx_downgrade_ac : ℕ → ℕ → ℕ
unfolding downgrade_from
rwnx_downgrade_ac acm priority =
    let ac = tid2hwq priority in
    downgrade_from acm (if ltb rwnx_hwq_vo ac then rwnx_hwq_vo else ac) priority

-- What the choice reads of a station: its index, `qos` and `acm`.
pub record Peer : Type 0 where
  pub sta_idx : ℕ
  pub qos : Bool
  pub acm : ℕ

abbrev pub nx_bcmc_txq_ndev_idx : Bool → ℕ
nx_bcmc_txq_ndev_idx old_ic = nx_nb_tid_per_sta * nx_remote_sta_max old_ic

abbrev pub prio_sta_null : ℕ
prio_sta_null = 0xaa

-- The priority of the frame, and the index of its network queue. `priority` is the one that it comes
-- with, which a TDLS frame keeps.
pub select_for : Hw → Option Peer → Bool → ℕ → ℕ → ℕ × ℕ
unfolding rwnx_downgrade_ac
select_for h none tdls_frame priority tag = (prio_sta_null, nx_bcmc_txq_ndev_idx h.old_ic)
select_for h (some sta) tdls_frame priority tag =
    let tid = if tdls_frame then priority else tag % 8 in
    let down = if sta.acm == 0 then tid else rwnx_downgrade_ac sta.acm tid in
    if sta.qos
    then (down, (txq_at h (rwnx_txq_sta_get h sta.sta_idx down)).ndev_idx)
    else (0xff, (txq_at h (rwnx_txq_sta_get h sta.sta_idx 0)).ndev_idx)
