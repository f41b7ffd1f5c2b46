-- ===== src/FrameQueue/Lowest.antt =====
-- The list that aicwf_frame_queue_peek_tail chooses: the lowest one that is not empty.
use aic8800_linux_driver.Common.{
  ℕ, zero, suc, ◌+◌, ◌<◌, ◌≤◌, ◌≡◌, ◌≢◌, refl, sym, ap, subst, ◌∙◌, ◌⊎◌, inl, inr, false, some,
  List, [], ◌∷◌, length, arith, Bool-cases, ltb→lt, ltb_false→le, false≢true, ltb,
}
use native.Mathlib.Decide.{ℕ_discrete}
use aic8800_linux_driver.FrameQueue.{FrameQueue, queue_at, is_nil, lowest_from, last?, but_last}
use aic8800_linux_driver.FrameQueue.Total.{empty_total, is_nil-true}
use aic8800_linux_driver.FrameQueue.Valid.{IsValid}

pub lowest_from-empty :
    (q : FrameQueue) (p n i : ℕ) → p ≤ i → i < lowest_from q p n → queue_at q i ≡ []
unfolding lowest_from
lowest_from-empty q p zero i l h = absurd (omega arith)
lowest_from-empty q p (suc n) i l h = elim (Bool-cases (is_nil (queue_at q p))) [
  | inl e ↦ elim (ℕ_discrete p i) [
    | yes r ↦ subst (λ j. queue_at q j ≡ []) r (is_nil-true _ e)
    | no r ↦ lowest_from-empty q (p + 1) n i (omega arith) (rw e at h)
  ]
  | inr e ↦ absurd (omega (arith, rw e at h))
]

pub lowest_from-le : (q : FrameQueue) (p n : ℕ) → lowest_from q p n ≤ p + n
unfolding lowest_from
lowest_from-le q p zero = omega arith
lowest_from-le q p (suc n) = elim (Bool-cases (is_nil (queue_at q p))) [
  | inl e ↦ rw e (omega (arith, lowest_from-le q (p + 1) n))
  | inr e ↦ rw e (omega arith)
]

pub lowest_from-end :
    (q : FrameQueue) (p n : ℕ)
    → (lowest_from q p n ≡ p + n) ⊎ (is_nil (queue_at q (lowest_from q p n)) ≡ false)
unfolding lowest_from
lowest_from-end q p zero = inl (omega arith)
lowest_from-end q p (suc n) = elim (Bool-cases (is_nil (queue_at q p))) [
  | inl e ↦
      rw e (elim (lowest_from-end q (p + 1) n) [ inl r ↦ inl (omega (arith, r)) | inr r ↦ inr r ])
  | inr e ↦ rw e (inr e)
]

pub lt_or_le : (i n : ℕ) → (i < n) ⊎ (n ≤ i)
lt_or_le i n = elim (Bool-cases (ltb i n)) [
  | inl e ↦ inl (ltb→lt i n e)
  | inr e ↦ inr (ltb_false→le i n e)
]

pub snoc : (x : ℕ) (xs : List ℕ) → (y : ℕ) × (last? (x ∷ xs) ≡ some y)
snoc x [] = (x, refl)
snoc x (y ∷ ys) = snoc y ys

pub length-but_last : (x : ℕ) (xs : List ℕ) → length (but_last (x ∷ xs)) ≡ length xs
length-but_last x [] = refl
length-but_last x (y ∷ ys) = ap suc (length-but_last y ys)

-- The list that loses a frame is not empty, unless all lists are.
pub lowest-nonempty :
    (q : FrameQueue) → IsValid q → q.qcnt ≢ 0 → queue_at q (lowest_from q 0 q.hi_prio) ≢ []
lowest-nonempty q w c e = elim (lowest_from-end q 0 q.hi_prio) [
  | inl r ↦ c (
      sym w.counted
      ∙ empty_total q.queuelist (λ i. elim (lt_or_le i (lowest_from q 0 q.hi_prio)) [
        | inl h ↦ lowest_from-empty q 0 q.hi_prio i (omega arith) h
        | inr h ↦ elim (ℕ_discrete (lowest_from q 0 q.hi_prio) i) [
          | yes p ↦ subst (λ j. queue_at q j ≡ []) p e
          | no p ↦ w.above i (omega (arith, r))
        ]
      ]))
  | inr r ↦ absurd (false≢true (sym r ∙ ap is_nil e))
]
