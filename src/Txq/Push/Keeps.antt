-- ===== src/Txq/Push/Keeps.antt =====
-- What queueing and pushing frames leave alone: the lists of the hardware queues and other queues.
use aic8800_linux_driver.Common.{
  ℕ, ◌-◌, ◌<◌, ◌≡◌, refl, ap, ◌∙◌, inl, inr, Bool, true, false, ◌&&◌, not, Option, none, some, List,
  [], ◌∷◌, length, length-set, get_or, set, Bool-cases, ◌==◌, if◌then◌else◌, arith, ltb, u16_mod,
}
use aic8800_linux_driver.Txq.{
  Frame, Txq, Hw, Event, emit, no_txq, no_hwq, txq_at, set_txq, ndev_no_txq,
  rwnx_ndev_flow_ctrl_stop, is_stopped, netif_stop_subqueue, sta_at,
}
use aic8800_linux_driver.Txq.Sched.Links.{
  Linked, SameLinks, SameLinks-refl, SameLinks-trans, SameLinks-Linked, set_txq-SameLinks,
  add-Linked,
}
use aic8800_linux_driver.Txq.Push.{
  count_queued, enqueue, put, flow_on, rwnx_txq_queue_skb, count_push, rwnx_set_more_data_flag,
  rwnx_tx_push, push_all, bump, more_data,
}

-- The same queues and hardware queues.
pub record SameQueues (h n : Hw) : Type 0 where
  pub txq : n.txq ≡ h.txq
  pub hwq : n.hwq ≡ h.hwq

pub SameQueues-SameLinks : (h n : Hw) → SameQueues h n → SameLinks h n
SameQueues-SameLinks h n s = record {
  lists = λ k. ap (λ x. (get_or x k no_hwq).list) s.hwq;
  marks = λ i. ap (λ x. (get_or x i no_txq).status.in_hwq_list) s.txq;
  homes = λ i. ap (λ x. (get_or x i no_txq).hwq) s.txq;
  size = ap length s.hwq;
}

if_SameQueues :
    (h : Hw) (b : Bool) (x y : Hw)
    → SameQueues h x
    → SameQueues h y
    → SameQueues h (if b then x else y)
if_SameQueues h true x y p q = p
if_SameQueues h false x y p q = q

pub count_queued-SameQueues : (h : Hw) (t : Txq) (s : Option ℕ) → SameQueues h (count_queued h t s)
unfolding count_queued
count_queued-SameQueues h t none = record { txq = refl; hwq = refl }
count_queued-SameQueues h t (some s) = elim (Bool-cases (sta_at h s).ps_active) [
  | inr e ↦ rw e (record { txq = refl; hwq = refl })
  | inl e ↦
      rw e (elim (Bool-cases (get_or (bump 1 (sta_at h s).pkt_ready t.ps_id) t.ps_id 0 == 1)) [
        | inl f ↦ rw f (record { txq = refl; hwq = refl })
        | inr f ↦ rw f (record { txq = refl; hwq = refl })
      ])
]

pub enqueue_marks :
    (t : Txq) (f : Frame) (retry : Bool)
    → ((enqueue t f retry).status.in_hwq_list ≡ t.status.in_hwq_list)
      × ((enqueue t f retry).hwq ≡ t.hwq)
unfolding enqueue
enqueue_marks t f true = (refl, refl)
enqueue_marks t f false = (refl, refl)

pub event_SameLinks : (h n : Hw) (e : Event) → SameLinks h n → SameLinks h (emit e n)
event_SameLinks h n e s = record {
  lists = s.lists;
  marks = s.marks;
  homes = s.homes;
  size = s.size;
}

pub put-length :
    (h : Hw) (i : ℕ) (f : Frame) (retry : Bool) → length (put h i f retry).txq ≡ length h.txq
unfolding put
put-length h i f retry =
    let n = count_queued h (txq_at h i) (txq_at h i).sta in
    let t = enqueue (txq_at n i) f retry in
    let c = ap length (count_queued-SameQueues h (txq_at h i) (txq_at h i).sta).txq in
    let b =
      (not (t.ndev_idx == ndev_no_txq) && not n.tbusy)
      && ltb rwnx_ndev_flow_ctrl_stop (length t.sk_list) in
    elim (Bool-cases b) [
      | inl e ↦ rw e (length-set n.txq i (flow_on t) ∙ c)
      | inr e ↦ rw e (length-set n.txq i t ∙ c)
    ]

pub put-SameLinks : (h : Hw) (i : ℕ) (f : Frame) (retry : Bool) → SameLinks h (put h i f retry)
unfolding put
put-SameLinks h i f retry =
    let n = count_queued h (txq_at h i) (txq_at h i).sta in
    let t = enqueue (txq_at n i) f retry in
    let m = enqueue_marks (txq_at n i) f retry in
    let a = SameQueues-SameLinks h n (count_queued-SameQueues h (txq_at h i) (txq_at h i).sta) in
    let b =
      (not (t.ndev_idx == ndev_no_txq) && not n.tbusy)
      && ltb rwnx_ndev_flow_ctrl_stop (length t.sk_list) in
    elim (Bool-cases b) [
      | inl e ↦ rw e (
          SameLinks-trans h n
            (emit (netif_stop_subqueue t.ndev t.ndev_idx) (set_txq n i (flow_on t))) a
            (event_SameLinks n (set_txq n i (flow_on t)) (netif_stop_subqueue t.ndev t.ndev_idx)
              (set_txq-SameLinks n i (flow_on t) m.0 m.1)))
      | inr e ↦ rw e (SameLinks-trans h n (set_txq n i t) a (set_txq-SameLinks n i t m.0 m.1))
    ]

pub more_data-SameQueues :
    (h : Hw) (t : Txq) (f : Frame) (s : Option ℕ) → SameQueues h (more_data h t f s).2
unfolding more_data
more_data-SameQueues h t f none = record { txq = refl; hwq = refl }
more_data-SameQueues h t f (some s) = elim (Bool-cases (sta_at h s).ps_active) [
  | inr e ↦ rw e (record { txq = refl; hwq = refl })
  | inl e ↦
      rw e
        (elim (Bool-cases
          (get_or (bump (u16_mod - 1) (sta_at h s).pkt_ready t.ps_id) t.ps_id 0 == 0)) [
            | inl g ↦ rw g (record { txq = refl; hwq = refl })
            | inr g ↦ rw g (record { txq = refl; hwq = refl })
          ])
]

pub count_push_marks :
    (t : Txq)
    → ((count_push t).status ≡ t.status)
      × ((count_push t).hwq ≡ t.hwq)
      × ((count_push t).sk_list ≡ t.sk_list)
unfolding count_push
count_push_marks t = elim (Bool-cases (t.nb_retry == 0)) [
  | inl e ↦ rw e (refl, refl, refl)
  | inr e ↦ rw e (refl, refl, refl)
]

-- A frame that is pushed changes the queue by count_push, and no other queue.
pub tx_push-txq :
    (h : Hw) (i : ℕ) (f : Frame)
    → ((rwnx_tx_push h i f).txq ≡ set h.txq i (count_push (txq_at h i)))
      × ((rwnx_tx_push h i f).hwq ≡ h.hwq)
unfolding rwnx_tx_push rwnx_set_more_data_flag
tx_push-txq h i f =
    let s = more_data-SameQueues h (txq_at h i) f f.rwnx_sta in
    (ap (λ x. set x i (count_push (get_or x i no_txq))) s.txq, s.hwq)

pub tx_push-SameLinks : (h : Hw) (i : ℕ) (f : Frame) → SameLinks h (rwnx_tx_push h i f)
tx_push-SameLinks h i f =
    let p = tx_push-txq h i f in
    let m = count_push_marks (txq_at h i) in
    SameLinks-trans h (set_txq h i (count_push (txq_at h i))) (rwnx_tx_push h i f)
      (set_txq-SameLinks h i (count_push (txq_at h i)) (ap (λ s. s.in_hwq_list) m.0) m.1)
      (SameQueues-SameLinks (set_txq h i (count_push (txq_at h i))) (rwnx_tx_push h i f)
        (record { txq = p.0; hwq = p.1 }))

pub push_all-SameLinks : (h : Hw) (i : ℕ) (fs : List Frame) → SameLinks h (push_all h i fs)
unfolding push_all
push_all-SameLinks h i [] = SameLinks-refl h
push_all-SameLinks h i (f ∷ fs) =
    SameLinks-trans h (rwnx_tx_push h i f) (push_all (rwnx_tx_push h i f) i fs)
      (tx_push-SameLinks h i f) (push_all-SameLinks (rwnx_tx_push h i f) i fs)

pub queue_skb-Linked :
    (h : Hw) (i : ℕ) (f : Frame) (retry : Bool)
    → i < length h.txq
    → Linked h
    → Linked (rwnx_txq_queue_skb h i f retry).1
unfolding rwnx_txq_queue_skb
queue_skb-Linked h i f retry r w =
    let n = put h i f retry in
    let v = SameLinks-Linked h n (put-SameLinks h i f retry) w in
    elim (Bool-cases (is_stopped (txq_at n i).status)) [
      | inl e ↦ rw e v
      | inr e ↦ rw e (add-Linked n i (omega (arith, put-length h i f retry, r)) v)
    ]
