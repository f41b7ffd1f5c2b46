-- ===== src/Txq/Push.antt =====
-- Queueing frames, pushing them to the bus, and confirmations (rwnx_txq.c, rwnx_tx.c).
pub mod Changes
pub mod Keeps
pub mod Order
use aic8800_linux_driver.Common.{
  ℕ, zero, suc, ◌+◌, ◌*◌, ◌-◌, ◌%◌, Bool, true, false, ◌&&◌, ◌||◌, not, Option, none, some, List,
  [], ◌∷◌, ◌++◌, length, get_or, set, map, leb, ltb, ◌==◌, if◌then◌else◌, bit_or, u16_mod, u8_mod,
}
use aic8800_linux_driver.UsbHost.{UsbHostEnv, aicwf_usb_host_txdesc_push}
use aic8800_linux_driver.Txq.{
  Status, Reason, full, sta_ps, Frame, Txq, Hwq, Sta, Event, kfree_skb, netif_wake_subqueue,
  netif_stop_subqueue, set_traffic_status, tasklet_schedule, frame_tx, Hw, txq_inactive,
  ndev_no_txq, rwnx_ndev_flow_ctrl_stop, rwnx_ndev_flow_ctrl_restart, legacy_ps_id, uapsd_id,
  is_multicast_sta, txq_at, set_txq, hwq_at, sta_at, emit, is_stopped, is_nil, s8_positive,
  rwnx_txq_sta_get, no_sta,
}
use aic8800_linux_driver.Txq.Sched.{
  rwnx_txq_add_to_hw_list, rwnx_txq_del_from_hw_list, rwnx_txq_start, rwnx_txq_stop, rwnx_txq_flush,
  each, nb_txq, rwnx_txq_sta_start, rwnx_txq_sta_stop,
}

-- A change of the counter of a station for `ps_id`, by a u16.
abbrev pub bump : ℕ → List ℕ → ℕ → List ℕ
bump d xs ps = set xs ps ((get_or xs ps 0 + d) % u16_mod)

abbrev pub set_sta : Hw → ℕ → Sta → Hw
set_sta h s v = record h { sta_table = set h.sta_table s v }

-- The count of a frame that is queued for a station in power save.
pub count_queued : Hw → Txq → Option ℕ → Hw
count_queued h t none = h
count_queued h t (some s) =
    let x = sta_at h s in
    let ready = bump 1 x.pkt_ready t.ps_id in
    let n = set_sta h s (record x { pkt_ready = ready }) in
    if x.ps_active
    then (if get_or ready t.ps_id 0 == 1
        then emit (set_traffic_status s true (not (t.ps_id == legacy_ps_id))) n
        else n)
    else h

-- rwnx_skb_append: behind the buffer with this address.
pub insert_after : ℕ → Frame → List Frame → List Frame
insert_after l f [] = []
insert_after l f (x ∷ xs) =
    let rest = insert_after l f xs in if x.skb == l then x ∷ f ∷ xs else x ∷ rest

pub enqueue : Txq → Frame → Bool → Txq
unfolding insert_after
enqueue t f false = record t { sk_list = t.sk_list ++ (f ∷ []) }
enqueue t f true = record t {
  sk_list = elim t.last_retry_skb [ none ↦ f ∷ t.sk_list | some l ↦ insert_after l f t.sk_list ];
  last_retry_skb = some f.skb;
  nb_retry = t.nb_retry + 1;
}

abbrev pub flow_on : Txq → Txq
flow_on t = record t { status = record t.status { ndev_flow_ctrl = true } }

-- The queue with the frame, and the network stack stopped when it is long.
pub put : Hw → ℕ → Frame → Bool → Hw
unfolding count_queued enqueue
put h i f retry =
    let n = count_queued h (txq_at h i) (txq_at h i).sta in
    let t = enqueue (txq_at n i) f retry in
    if (not (t.ndev_idx == ndev_no_txq) && not n.tbusy)
      && ltb rwnx_ndev_flow_ctrl_stop (length t.sk_list)
    then emit (netif_stop_subqueue t.ndev t.ndev_idx) (set_txq n i (flow_on t))
    else set_txq n i t

-- The result tells whether the hardware queue is to be processed.
pub rwnx_txq_queue_skb : Hw → ℕ → Frame → Bool → Bool × Hw
unfolding put
rwnx_txq_queue_skb h i f retry =
    let n = put h i f retry in
    if is_stopped (txq_at n i).status then (false, n) else (true, rwnx_txq_add_to_hw_list n i)

pub rwnx_txq_get_credits : Txq → ℕ
rwnx_txq_get_credits t =
    if not (t.push_limit == 0) && ltb t.push_limit t.credits then t.push_limit else t.credits

abbrev pub take {ℓ} : {A : Type ℓ} → ℕ → List A → List A
take zero xs = []
take (suc n) [] = []
take (suc n) (x ∷ xs) = x ∷ take n xs

abbrev pub drop {ℓ} : {A : Type ℓ} → ℕ → List A → List A
drop zero xs = xs
drop (suc n) [] = []
drop (suc n) (x ∷ xs) = drop n xs

-- With positive credits: the frames to push, those that stay, and whether the queue is done with.
pub rwnx_txq_get_skb_to_push : Txq → List Frame × List Frame × Bool
unfolding rwnx_txq_get_credits
rwnx_txq_get_skb_to_push t =
    let credits = rwnx_txq_get_credits t in
    if leb (length t.sk_list) credits then (t.sk_list, [], true) else (
      take credits t.sk_list,
      drop credits t.sk_list,
      not (t.push_limit == 0) && (credits == t.push_limit),
    )

-- The counters of rwnx_tx_push: a frame that is retried, or one more frame sent.
pub count_push : Txq → Txq
count_push t =
    let left = t.nb_retry - 1 in
    let retried = record t {
      nb_retry = left;
      last_retry_skb = if left == 0 then none else t.last_retry_skb;
    } in
    let sent = record t { pkt_sent = (t.pkt_sent + 1) % u8_mod } in
    let c = if t.nb_retry == 0 then sent else retried in
    record c { pkt_pushed = (c.pkt_pushed + 1) % u8_mod; push_limit = c.push_limit - 1 }

-- End of service period, more data, and the counters of a station in power save.
pub more_data : Hw → Txq → Frame → Option ℕ → Bool × Bool × Hw
more_data h t f none = (false, false, h)
more_data h t f (some s) =
    let x = sta_at h s in
    let ready = bump (u16_mod - 1) x.pkt_ready t.ps_id in
    let sp = bump (u16_mod - 1) x.sp_cnt t.ps_id in
    let n = set_sta h s (record x { pkt_ready = ready; sp_cnt = sp }) in
    let none_left = get_or ready t.ps_id 0 == 0 in
    let eosp =
      ((t.ps_id == uapsd_id) || (f.on_mesh || x.tdls_active)) && (get_or sp t.ps_id 0 == 0) in
    let told = emit (set_traffic_status s false (not (t.ps_id == legacy_ps_id))) n in
    if x.ps_active then (eosp, not none_left, if none_left then told else n) else (false, false, h)

pub rwnx_set_more_data_flag : Hw → Txq → Frame → Bool × Bool × Hw
unfolding more_data
rwnx_set_more_data_flag h t f = more_data h t f f.rwnx_sta

-- A management frame of one of the kinds that the firmware confirms, or EAPOL or WAPI.
abbrev pub needs_cfm : Frame → Bool
needs_cfm f =
    (f.is_mgmt
      && ((f.frame_control == 0xd0) || ((f.frame_control == 0x10) || (f.frame_control == 0x30))))
    || ((f.ethertype == 0x8e88) || (f.ethertype == 0xb488))

-- `status_desc_addr`, and the ring of frames to confirm.
pub push_desc : UsbHostEnv → Frame → ℕ × UsbHostEnv
push_desc env f =
    let plain : ℕ = elim f.fixed_rate [ none ↦ 0 | some r ↦ bit_or 0x40000000 r ] in
    if needs_cfm f
    then (0x80000000 + env.txdesc_free_idx, aicwf_usb_host_txdesc_push env f.skb)
    else (plain, env)

pub rwnx_tx_push : Hw → ℕ → Frame → Hw
unfolding count_push rwnx_set_more_data_flag push_desc
rwnx_tx_push h i f =
    let t = txq_at h i in
    let (eosp, more, n) = rwnx_set_more_data_flag h t f in
    let (addr, env) = push_desc n.usb_env f in
    emit (frame_tx f.skb t.hwq eosp more addr)
      (record (set_txq n i (count_push (txq_at n i))) { usb_env = env })

pub push_all : Hw → ℕ → List Frame → Hw
unfolding rwnx_tx_push
push_all h i [] = h
push_all h i (f ∷ fs) = push_all (rwnx_tx_push h i f) i fs
