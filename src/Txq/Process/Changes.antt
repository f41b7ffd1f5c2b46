-- ===== src/Txq/Process/Changes.antt =====
-- What a round of rwnx_hwq_process changes of the queue it serves.
use aic8800_linux_driver.Common.{
  ℕ, ◌-◌, ◌≡◌, refl, sym, ap, ◌∙◌, inl, inr, Bool, true, false, ◌&&◌, not, Option, none, some,
  length, get_or-set_field, Bool-cases, ◌==◌, if◌then◌else◌, ltb, u16_mod, false≢true,
}
use aic8800_linux_driver.Txq.{
  Txq, Hw, emit, no_txq, txq_at, set_txq, hwq_at, sta_at, rwnx_ndev_flow_ctrl_restart,
  netif_wake_subqueue, legacy_ps_id,
}
use aic8800_linux_driver.Txq.Sched.{rwnx_txq_del_from_hw_list}
use aic8800_linux_driver.Txq.Push.{bump, set_sta, push_all, rwnx_txq_get_skb_to_push}
use aic8800_linux_driver.Txq.Push.Changes.{push_all-Touched}
use aic8800_linux_driver.Txq.Process.{
  set_hwq, rotate, reschedule, abort_period, give_up, flow_off, restart_netdev, serve,
}
use aic8800_linux_driver.Txq.Sched.Changes.{
  Touched, Touched-refl, Touched-trans, set_txq-Touched, if_Touched, del-Touched, del_unlinks,
}

pub reschedule-Touched : (h : Hw) (k i : ℕ) (b : Bool) → Touched i h (reschedule h k i b)
unfolding reschedule
reschedule-Touched h k i true =
    let n = rwnx_txq_del_from_hw_list h i in
    let t : Txq = record (txq_at n i) { pkt_sent = 0 } in
    Touched-trans i h n (set_txq n i t) (del-Touched h i)
      (set_txq-Touched n (set_txq n i t) i t refl refl refl refl (λ e. e))
reschedule-Touched h k i false =
    let t : Txq = record (txq_at h i) { pkt_sent = 0 } in
    let q = hwq_at h k in
    let n = set_hwq (set_txq h i t) k (record q { list = rotate q.list }) in
    if_Touched i h ((txq_at h i).status.in_hwq_list && ltb q.size (txq_at h i).pkt_sent) n h
      (set_txq-Touched h n i t refl refl refl refl (λ e. e)) (Touched-refl i h)

give_up-Touched : (h : Hw) (i : ℕ) (o : Option ℕ) → Touched i h (give_up h i o)
give_up-Touched h i none = Touched-refl i h
give_up-Touched h i (some s) =
    let t : Txq = record (txq_at h i) { push_limit = 0 } in
    let sp = bump (u16_mod - (txq_at h i).push_limit) (sta_at h s).sp_cnt (txq_at h i).ps_id in
    let n = set_txq (set_sta h s (record (sta_at h s) { sp_cnt = sp })) i t in
    if_Touched i h (not ((txq_at h i).push_limit == 0) && ((txq_at h i).ps_id == legacy_ps_id)) n h
      (set_txq-Touched h n i t refl refl refl refl (λ x. x)) (Touched-refl i h)

abort_period-Touched : (h : Hw) (i : ℕ) → Touched i h (abort_period h i)
unfolding abort_period
abort_period-Touched h i = give_up-Touched h i (txq_at h i).sta

pub restart_netdev-Touched : (h : Hw) (i : ℕ) → Touched i h (restart_netdev h i)
unfolding restart_netdev
restart_netdev-Touched h i =
    let t = txq_at h i in
    let n = set_txq h i (flow_off t) in
    let m = emit (netif_wake_subqueue t.ndev t.ndev_idx) n in
    if_Touched i h (t.status.ndev_flow_ctrl && ltb (length t.sk_list) rwnx_ndev_flow_ctrl_restart)
      (if h.tbusy then n else m) h
      (if_Touched i h h.tbusy n m (set_txq-Touched h n i (flow_off t) refl refl refl refl (λ x. x))
        (set_txq-Touched h m i (flow_off t) refl refl refl refl (λ x. x)))
      (Touched-refl i h)

-- What a round does after the frames to push are taken from the queue.
pub serve-Touched :
    (h : Hw) (k i : ℕ)
    → Touched i
        (set_txq h i (record (txq_at h i) { sk_list = (rwnx_txq_get_skb_to_push (txq_at h i)).1 }))
        (serve h k i)
unfolding serve
serve-Touched h k i =
    let r = rwnx_txq_get_skb_to_push (txq_at h i) in
    let a = set_txq h i (record (txq_at h i) { sk_list = r.1 }) in
    let b = push_all a i r.0 in
    let c = reschedule b k i r.2 in
    let d = abort_period c i in
    Touched-trans i a b (restart_netdev d i) (push_all-Touched a i r.0) (
      Touched-trans i b c (restart_netdev d i) (reschedule-Touched b k i r.2) (
        Touched-trans i c d (restart_netdev d i) (abort_period-Touched c i)
          (restart_netdev-Touched d i)))

done_unlinked : (h : Hw) (k i : ℕ) → (txq_at (reschedule h k i true) i).status.in_hwq_list ≡ false
unfolding reschedule
done_unlinked h k i =
    let n = rwnx_txq_del_from_hw_list h i in
    get_or-set_field (λ (x : Txq). x.status.in_hwq_list) n.txq i i
      (record (txq_at n i) { pkt_sent = 0 }) no_txq refl
    ∙ del_unlinks h i

-- A queue that is still in a list after a round was not done with.
pub serve_more :
    (h : Hw) (k i : ℕ)
    → (txq_at (serve h k i) i).status.in_hwq_list ≡ true
    → (rwnx_txq_get_skb_to_push (txq_at h i)).2 ≡ false
unfolding serve
serve_more h k i m =
    let r = rwnx_txq_get_skb_to_push (txq_at h i) in
    let b = push_all (set_txq h i (record (txq_at h i) { sk_list = r.1 })) i r.0 in
    let c = reschedule b k i r.2 in
    let d = abort_period c i in
    let e = (abort_period-Touched c i).marks ((restart_netdev-Touched d i).marks m) in
    elim (Bool-cases r.2) [
      | inr f ↦ f
      | inl f ↦ absurd (
          false≢true (
            sym (done_unlinked b k i)
            ∙ ap (λ x. (txq_at (reschedule b k i x) i).status.in_hwq_list) (sym f)
            ∙ e))
    ]
