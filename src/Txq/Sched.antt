-- ===== src/Txq/Sched.antt =====
-- Initialising, starting, stopping and scheduling the transmit queues (rwnx_txq.c).
pub mod Changes
pub mod Links
pub mod Ops
pub mod Ndev
pub mod Reinit
pub mod Tests
use aic8800_linux_driver.Common.{
  ℕ, zero, suc, ◌+◌, ◌*◌, ◌-◌, ◌%◌, Bool, true, false, ◌&&◌, ◌||◌, not, Option, none, some, List,
  [], ◌∷◌, ◌++◌, length, get_or, set, map, leb, ltb, ◌==◌, if◌then◌else◌, u16_mod, u8_mod,
}
use aic8800_linux_driver.Txq.{
  Status, Reason, chan, Frame, Txq, Hwq, Sta, Event, kfree_skb, netif_wake_subqueue,
  netif_stop_subqueue, set_traffic_status, Hw, txq_inactive, ndev_no_txq, nx_nb_tid_per_sta,
  nx_nb_txq_per_sta, nx_txq_initial_credits, rwnx_ndev_flow_ctrl_stop, legacy_ps_id, uapsd_id,
  nx_remote_sta_max, nx_first_vif_txq_idx, nx_first_unk_txq_idx, nx_off_chan_txq_idx,
  is_multicast_sta, no_status, txq_at, set_txq, hwq_at, sta_at, emit, has, mark, is_stopped, is_nil,
  rwnx_txq_sta_get, rwnx_txq_vif_get,
}

-- The index of the queue for the network stack.
pub init_ndev_idx : Hw → ℕ → Option ℕ → ℕ
init_ndev_idx h idx sta =
    let s : ℕ = elim sta [ none ↦ 0 | some s ↦ s ] in
    let tid = idx - s * nx_nb_txq_per_sta in
    if ltb idx (nx_first_vif_txq_idx h.old_ic)
    then (if ltb tid nx_nb_tid_per_sta then tid + s * nx_nb_tid_per_sta else ndev_no_txq)
    else if ltb idx (nx_first_unk_txq_idx h.old_ic)
    then nx_nb_tid_per_sta * nx_remote_sta_max h.old_ic
    else ndev_no_txq

pub rwnx_txq_init : Hw → ℕ → Status → ℕ → ℕ → Option ℕ → ℕ → Hw
unfolding init_ndev_idx
rwnx_txq_init h idx status hwq tid sta ndev = set_txq h idx (record {
  idx = idx;
  status = status;
  credits = nx_txq_initial_credits;
  pkt_sent = 0;
  pkt_pushed = 0;
  sk_list = [];
  last_retry_skb = none;
  hwq = hwq;
  nb_retry = 0;
  push_limit = 0;
  tid = tid;
  sta = sta;
  ps_id = legacy_ps_id;
  ndev_idx = init_ndev_idx h idx sta;
  ndev = ndev;
})

-- RWNX_TXQ_IN_HWQ_LIST alone.
abbrev pub linked : Txq → Bool → Txq
linked t b = record t { status = record t.status { in_hwq_list = b } }

abbrev pub append_to : ℕ → Hwq → Hwq
append_to i q = record q { list = q.list ++ (i ∷ []); need_processing = true }

-- list_del: the node leaves the list that it is in.
pub remove : ℕ → List ℕ → List ℕ
remove i [] = []
remove i (x ∷ xs) = let rest = remove i xs in if x == i then rest else x ∷ rest

abbrev pub removed_from : ℕ → Hwq → Hwq
removed_from i q = record q { list = remove i q.list }

pub rwnx_txq_add_to_hw_list : Hw → ℕ → Hw
rwnx_txq_add_to_hw_list h i =
    let t = txq_at h i in
    let k = t.hwq in
    if t.status.in_hwq_list
    then h
    else record (set_txq h i (linked t true)) { hwq = set h.hwq k (append_to i (hwq_at h k)) }

pub rwnx_txq_del_from_hw_list : Hw → ℕ → Hw
unfolding remove
rwnx_txq_del_from_hw_list h i =
    let t = txq_at h i in
    if t.status.in_hwq_list
    then record (set_txq h i (linked t false)) { hwq = map (removed_from i) h.hwq }
    else h

pub rwnx_txq_start : Hw → ℕ → Reason → Hw
unfolding rwnx_txq_add_to_hw_list
rwnx_txq_start h i reason =
    let t = txq_at h i in
    let s = mark t.status reason false in
    let n = set_txq h i (record t { status = s }) in
    if not (t.idx == txq_inactive) && has t.status reason
    then (if not (is_stopped s) && not (is_nil t.sk_list) then rwnx_txq_add_to_hw_list n i else n)
    else h

pub rwnx_txq_stop : Hw → ℕ → Reason → Hw
unfolding rwnx_txq_del_from_hw_list
rwnx_txq_stop h i reason =
    let t = txq_at h i in
    if t.idx == txq_inactive
    then h
    else rwnx_txq_del_from_hw_list (set_txq h i (record t { status = mark t.status reason true })) i

abbrev pub free_all : List Frame → Hw → Hw
free_all [] h = h
free_all (f ∷ fs) h = free_all fs (emit (kfree_skb f.skb) h)

pub rwnx_txq_flush : Hw → ℕ → Hw
rwnx_txq_flush h i =
    let t = txq_at h i in free_all t.sk_list (set_txq h i (record t { sk_list = [] }))

pub rwnx_txq_deinit : Hw → ℕ → Hw
unfolding rwnx_txq_del_from_hw_list rwnx_txq_flush
rwnx_txq_deinit h i =
    let n = rwnx_txq_del_from_hw_list h i in
    if (txq_at h i).idx == txq_inactive
    then h
    else rwnx_txq_flush (set_txq n i (record (txq_at n i) { idx = txq_inactive })) i

-- An operation on the `n` queues from index `i`, by foreach_sta_txq.
pub each : (Hw → ℕ → Hw) → ℕ → ℕ → Hw → Hw
each f i zero h = h
each f i (suc n) h = each f (i + 1) n (f h i)

abbrev pub nb_txq : Hw → ℕ → ℕ
nb_txq h sta = if is_multicast_sta h.old_ic sta then 1 else nx_nb_txq_per_sta

pub rwnx_txq_sta_start : Hw → ℕ → Reason → Hw
unfolding each rwnx_txq_start rwnx_txq_sta_get
rwnx_txq_sta_start h sta reason =
    each (λ n i. rwnx_txq_start n i reason) (rwnx_txq_sta_get h sta 0) (nb_txq h sta) h

pub rwnx_txq_sta_stop : Hw → ℕ → Reason → Hw
unfolding each rwnx_txq_stop rwnx_txq_sta_get
rwnx_txq_sta_stop h sta reason =
    each (λ n i. rwnx_txq_stop n i reason) (rwnx_txq_sta_get h sta 0) (nb_txq h sta) h

pub rwnx_txq_sta_deinit : Hw → ℕ → Hw
unfolding each rwnx_txq_deinit rwnx_txq_sta_get
rwnx_txq_sta_deinit h sta = each rwnx_txq_deinit (rwnx_txq_sta_get h sta 0) (nb_txq h sta) h

-- rwnx_tid2hwq of rwnx_main.c
abbrev pub tid2hwq : ℕ → ℕ
tid2hwq tid = get_or (1 ∷ 0 ∷ 0 ∷ 1 ∷ 2 ∷ 2 ∷ 3 ∷ 3 ∷ 3 ∷ []) tid 1

-- The loop of rwnx_txq_sta_init, from `tid` on.
pub sta_init_from : Hw → ℕ → ℕ → ℕ → (ℕ → Bool) → Status → ℕ → ℕ → Hw
unfolding rwnx_txq_init
sta_init_from h sta base tid uapsd_tid status ndev zero = h
sta_init_from h sta base tid uapsd_tid status ndev (suc n) =
    let a = rwnx_txq_init h (base + tid) status (tid2hwq tid) tid (some sta) ndev in
    let t = txq_at a (base + tid) in
    let ps = if uapsd_tid tid then uapsd_id else legacy_ps_id in
    sta_init_from (set_txq a (base + tid) (record t { ps_id = ps })) sta base (tid + 1) uapsd_tid
      status ndev n

-- `uapsd_tid` tests a bit of the station's `uapsd_tids`.
pub rwnx_txq_sta_init : Hw → ℕ → (ℕ → Bool) → Status → ℕ → Hw
unfolding sta_init_from rwnx_txq_sta_get
rwnx_txq_sta_init h sta uapsd_tid status ndev =
    sta_init_from h sta (rwnx_txq_sta_get h sta 0) 0 uapsd_tid status ndev (nb_txq h sta)

abbrev pub tid_mgt : ℕ
tid_mgt = 8

pub rwnx_txq_unk_vif_init : Hw → ℕ → ℕ → Hw
unfolding rwnx_txq_init rwnx_txq_vif_get
rwnx_txq_unk_vif_init h vif ndev =
    rwnx_txq_init h (rwnx_txq_vif_get h vif 1) no_status 3 tid_mgt none ndev

-- `bcmc` is the index of the station for multicast frames.
pub rwnx_txq_vif_init : Hw → ℕ → ℕ → Status → ℕ → Hw
unfolding rwnx_txq_init rwnx_txq_vif_get
rwnx_txq_vif_init h vif bcmc status ndev =
    let a = rwnx_txq_init h (rwnx_txq_vif_get h vif 0) status 1 0 (some bcmc) ndev in
    rwnx_txq_init a (rwnx_txq_vif_get h vif 1) status 3 tid_mgt none ndev

pub rwnx_txq_unk_vif_deinit : Hw → ℕ → Hw
unfolding rwnx_txq_deinit rwnx_txq_vif_get
rwnx_txq_unk_vif_deinit h vif = rwnx_txq_deinit h (rwnx_txq_vif_get h vif 1)

pub rwnx_txq_offchan_init : Hw → ℕ → Hw
unfolding rwnx_txq_init
rwnx_txq_offchan_init h ndev =
    rwnx_txq_init h (nx_off_chan_txq_idx h.old_ic) (record no_status { stop_chan = true }) 3 tid_mgt
      none ndev

pub rwnx_txq_offchan_deinit : Hw → Hw
unfolding rwnx_txq_deinit
rwnx_txq_offchan_deinit h = rwnx_txq_deinit h (nx_off_chan_txq_idx h.old_ic)

pub rwnx_txq_offchan_start : Hw → Hw
unfolding rwnx_txq_start
rwnx_txq_offchan_start h = rwnx_txq_start h (nx_off_chan_txq_idx h.old_ic) chan

-- What rwnx_txq_vif_for_each_sta goes through: the peer and the access point of a station, or the
-- stations of an access point (for a VLAN those of its master, which the caller passes).
pub data Peers : Type 0 where
  client : (tdls ap : Option ℕ) → Peers
  stations : List ℕ → Peers

abbrev pub peers_of : Peers → List ℕ
peers_of (client none none) = []
peers_of (client none (some a)) = a ∷ []
peers_of (client (some t) none) = t ∷ []
peers_of (client (some t) (some a)) = t ∷ a ∷ []
peers_of (stations ss) = ss

pub each_sta : (Hw → ℕ → Hw) → List ℕ → Hw → Hw
each_sta f [] h = h
each_sta f (s ∷ ss) h = each_sta f ss (f h s)

abbrev pub start_chsw : Hw → Reason → Option ℕ → Hw
start_chsw h reason none = h
start_chsw h reason (some s) = rwnx_txq_sta_start h s reason

-- `monitor`: the interface is a monitor, and nothing is done. `roc` is `roc_tdls`; `chsw` is the peer,
-- if it has a channel switch enabled.
pub rwnx_txq_vif_start : Hw → Bool → Bool → Option ℕ → Peers → ℕ → Reason → Hw
unfolding each_sta rwnx_txq_sta_start rwnx_txq_start rwnx_txq_vif_get
rwnx_txq_vif_start h monitor roc chsw peers vif reason =
    let a = start_chsw h reason chsw in
    let e = each_sta (λ n s. rwnx_txq_sta_start n s reason) (peers_of peers) h in
    let b = if roc then a else e in
    let c = rwnx_txq_start b (rwnx_txq_vif_get h vif 0) reason in
    if monitor then h else rwnx_txq_start c (rwnx_txq_vif_get h vif 1) reason

pub rwnx_txq_vif_stop : Hw → Bool → Peers → ℕ → Reason → Hw
unfolding each_sta rwnx_txq_sta_stop rwnx_txq_stop rwnx_txq_vif_get
rwnx_txq_vif_stop h monitor peers vif reason =
    let b = each_sta (λ n s. rwnx_txq_sta_stop n s reason) (peers_of peers) h in
    let c = rwnx_txq_stop b (rwnx_txq_vif_get h vif 0) reason in
    if monitor then h else rwnx_txq_stop c (rwnx_txq_vif_get h vif 1) reason

-- rwnx_txq_vif_deinit and the loops over the queues of a vif.
pub rwnx_txq_vif_deinit : Hw → ℕ → Hw
unfolding rwnx_txq_deinit rwnx_txq_vif_get
rwnx_txq_vif_deinit h vif =
    rwnx_txq_deinit (rwnx_txq_deinit h (rwnx_txq_vif_get h vif 0)) (rwnx_txq_vif_get h vif 1)
