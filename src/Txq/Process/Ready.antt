-- ===== src/Txq/Process/Ready.antt =====
-- The queues in the lists have frames and credits, which a round of rwnx_hwq_process keeps.
use aic8800_linux_driver.Common.{
  ℕ, ◌≡◌, ◌≢◌, refl, sym, ap, ◌∙◌, true, [], get_or, get_or-set_self, get_or-set_ne, false≢true,
  subst, get_or-set_field,
}
use native.Mathlib.Decide.{ℕ_discrete}
use aic8800_linux_driver.Txq.{Txq, Hw, no_txq, txq_at, txq_inactive, s8_positive}
use aic8800_linux_driver.Txq.Sched.{rwnx_txq_del_from_hw_list, rwnx_txq_flush}
use aic8800_linux_driver.Txq.Sched.Links.{in_range}
use aic8800_linux_driver.Txq.Sched.Changes.{del-Touched, del_unlinks, flush-txq}
use aic8800_linux_driver.Txq.Push.{rwnx_txq_get_skb_to_push}
use aic8800_linux_driver.Txq.Push.Order.{get_skb_to_push_more}
use aic8800_linux_driver.Txq.Process.{serve}
use aic8800_linux_driver.Txq.Process.Changes.{serve-Touched, serve_more}

-- The queues in the lists that are in use have credits and frames.
pub record Ready (h : Hw) : Type 0 where
  pub credits :
      (i : ℕ)
      → (txq_at h i).status.in_hwq_list ≡ true
      → (txq_at h i).idx ≢ txq_inactive
      → s8_positive (txq_at h i).credits ≡ true
  pub frames :
      (i : ℕ)
      → (txq_at h i).status.in_hwq_list ≡ true
      → (txq_at h i).idx ≢ txq_inactive
      → (txq_at h i).sk_list ≢ []

-- A step that changes queue `i` alone, and leaves it so if it is still in a list.
Ready-at :
    (h n : Hw) (i : ℕ)
    → ((j : ℕ) → i ≢ j → txq_at n j ≡ txq_at h j)
    → ((txq_at n i).status.in_hwq_list ≡ true
        → (txq_at n i).idx ≢ txq_inactive
        → (s8_positive (txq_at n i).credits ≡ true) × ((txq_at n i).sk_list ≢ []))
    → Ready h
    → Ready n
Ready-at h n i o own w = record {
  credits = λ j m a. elim (ℕ_discrete i j) [
    | yes p ↦
        subst (λ x. s8_positive (txq_at n x).credits ≡ true) p
          (own (ap (λ x. (txq_at n x).status.in_hwq_list) p ∙ m)
            (λ z. a (ap (λ x. (txq_at n x).idx) (sym p) ∙ z))).0
    | no p ↦
        ap (λ t. s8_positive t.credits) (o j p)
        ∙ w.credits j (ap (λ t. t.status.in_hwq_list) (sym (o j p)) ∙ m)
            (λ z. a (ap (λ t. t.idx) (o j p) ∙ z))
  ];
  frames = λ j m a z. elim (ℕ_discrete i j) [
    | yes p ↦
        (own (ap (λ x. (txq_at n x).status.in_hwq_list) p ∙ m)
            (λ y. a (ap (λ x. (txq_at n x).idx) (sym p) ∙ y))).1
          (ap (λ x. (txq_at n x).sk_list) p ∙ z)
    | no p ↦
        w.frames j (ap (λ t. t.status.in_hwq_list) (sym (o j p)) ∙ m)
          (λ y. a (ap (λ t. t.idx) (o j p) ∙ y)) (ap (λ t. t.sk_list) (sym (o j p)) ∙ z)
  ];
}

-- A queue that is not in use leaves its list.
pub drop-Ready :
    (h : Hw) (i : ℕ) → Ready h → Ready (rwnx_txq_flush (rwnx_txq_del_from_hw_list h i) i)
drop-Ready h i w =
    let d = rwnx_txq_del_from_hw_list h i in
    let n = rwnx_txq_flush d i in
    let t : Txq = record (txq_at d i) { sk_list = [] } in
    let f = flush-txq d i in
    Ready-at h n i
      (λ j ne.
        ap (λ x. get_or x j no_txq) f
        ∙ get_or-set_ne d.txq i j t no_txq ne
        ∙ (del-Touched h i).others j ne)
      (λ m a. absurd (
        false≢true (
          sym (
            ap (λ x. (get_or x i no_txq).status.in_hwq_list) f
            ∙ get_or-set_field (λ (x : Txq). x.status.in_hwq_list) d.txq i i t no_txq refl
            ∙ del_unlinks h i)
          ∙ m)))
      w

pub serve-Ready :
    (h : Hw) (k i : ℕ) → (txq_at h i).status.in_hwq_list ≡ true → Ready h → Ready (serve h k i)
serve-Ready h k i m w =
    let t : Txq = record (txq_at h i) { sk_list = (rwnx_txq_get_skb_to_push (txq_at h i)).1 } in
    let p = serve-Touched h k i in
    let s = get_or-set_self h.txq i t no_txq (in_range h.txq i m) in
    Ready-at h (serve h k i) i (λ j ne. p.others j ne ∙ get_or-set_ne h.txq i j t no_txq ne)
      (λ e a. (
        ap s8_positive (p.credits ∙ ap (λ x. x.credits) s)
            ∙ w.credits i m (λ z. a (p.idx ∙ ap (λ x. x.idx) s ∙ z)),
        λ z.
            get_skb_to_push_more (txq_at h i) (serve_more h k i e)
              (sym (p.frames ∙ ap (λ x. x.sk_list) s) ∙ z),
      ))
      w
