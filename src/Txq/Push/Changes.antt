-- ===== src/Txq/Push/Changes.antt =====
-- Pushing frames changes the counters of one queue.
use aic8800_linux_driver.Common.{
  ℕ, ◌≡◌, refl, sym, ap, ◌∙◌, inl, inr, Bool, true, false, ◌&&◌, not, List, [], ◌∷◌, length, get_or,
  Bool-cases, ◌==◌, ltb,
}
use aic8800_linux_driver.Txq.{
  Frame, Txq, Hw, no_txq, txq_at, is_stopped, ndev_no_txq, rwnx_ndev_flow_ctrl_stop,
}
use aic8800_linux_driver.Txq.Push.{
  count_push, rwnx_tx_push, push_all, enqueue, put, flow_on, count_queued, rwnx_txq_queue_skb,
}
use aic8800_linux_driver.Txq.Push.Keeps.{
  count_push_marks, tx_push-txq, count_queued-SameQueues, put-length,
}
use aic8800_linux_driver.Txq.Sched.Links.{add-length}
use aic8800_linux_driver.Txq.Sched.Changes.{
  Touched, Touched-refl, Touched-trans, set_txq-Touched, credits_idx, add_class,
}

count_push_class : (t : Txq) → ((count_push t).credits ≡ t.credits) × ((count_push t).idx ≡ t.idx)
unfolding count_push
count_push_class t = elim (Bool-cases (t.nb_retry == 0)) [
  | inl e ↦ rw e (refl, refl)
  | inr e ↦ rw e (refl, refl)
]

tx_push-Touched : (h : Hw) (i : ℕ) (f : Frame) → Touched i h (rwnx_tx_push h i f)
tx_push-Touched h i f =
    let t = txq_at h i in
    let m = count_push_marks t in
    let k = count_push_class t in
    set_txq-Touched h (rwnx_tx_push h i f) i (count_push t) (tx_push-txq h i f).0 m.2 k.0 k.1
      (λ e. sym (ap (λ s. s.in_hwq_list) m.0) ∙ e)

pub push_all-Touched : (h : Hw) (i : ℕ) (fs : List Frame) → Touched i h (push_all h i fs)
unfolding push_all
push_all-Touched h i [] = Touched-refl i h
push_all-Touched h i (f ∷ fs) =
    Touched-trans i h (rwnx_tx_push h i f) (push_all (rwnx_tx_push h i f) i fs)
      (tx_push-Touched h i f) (push_all-Touched (rwnx_tx_push h i f) i fs)

enqueue_class :
    (t : Txq) (f : Frame) (retry : Bool)
    → ((enqueue t f retry).credits ≡ t.credits) × ((enqueue t f retry).idx ≡ t.idx)
unfolding enqueue
enqueue_class t f true = (refl, refl)
enqueue_class t f false = (refl, refl)

put_class :
    (h : Hw) (i : ℕ) (f : Frame) (retry : Bool)
    → ((txq_at (put h i f retry) i).credits ≡ (txq_at h i).credits)
      × ((txq_at (put h i f retry) i).idx ≡ (txq_at h i).idx)
unfolding put
put_class h i f retry =
    let n = count_queued h (txq_at h i) (txq_at h i).sta in
    let e = (count_queued-SameQueues h (txq_at h i) (txq_at h i).sta).txq in
    let t = enqueue (txq_at n i) f retry in
    let m = enqueue_class (txq_at n i) f retry in
    let p = credits_idx n i t m.0 m.1 in
    let q = credits_idx n i (flow_on t) m.0 m.1 in
    let c = ap (λ x. (get_or x i no_txq).credits) e in
    let d = ap (λ x. (get_or x i no_txq).idx) e in
    let b =
      (not (t.ndev_idx == ndev_no_txq) && not n.tbusy)
      && ltb rwnx_ndev_flow_ctrl_stop (length t.sk_list) in
    elim (Bool-cases b) [ inl y ↦ rw y (q.0 ∙ c, q.1 ∙ d) | inr y ↦ rw y (p.0 ∙ c, p.1 ∙ d) ]

-- Queueing a frame leaves the credits, and whether the queue is in use.
pub queue_skb_class :
    (h : Hw) (i : ℕ) (f : Frame) (retry : Bool)
    → ((txq_at (rwnx_txq_queue_skb h i f retry).1 i).credits ≡ (txq_at h i).credits)
      × ((txq_at (rwnx_txq_queue_skb h i f retry).1 i).idx ≡ (txq_at h i).idx)
      × (length (rwnx_txq_queue_skb h i f retry).1.txq ≡ length h.txq)
unfolding rwnx_txq_queue_skb
queue_skb_class h i f retry =
    let n = put h i f retry in
    let p = put_class h i f retry in
    let z = put-length h i f retry in
    let a = add_class n i in
    elim (Bool-cases (is_stopped (txq_at n i).status)) [
      | inl e ↦ rw e (p.0, p.1, z)
      | inr e ↦ rw e (a.0 ∙ p.0, a.1 ∙ p.1, add-length n i ∙ z)
    ]
