-- ===== src/FrameQueue/Valid.antt =====
-- The counters of a frame queue agree with its lists, and aicwf_frame_dequeue serves the highest
-- priority first.
use aic8800_linux_driver.Common.{
  ℕ, ◌-◌, ◌<◌, ◌≤◌, ◌≡◌, ◌≢◌, refl, sym, ap, ◌∙◌, inl, inr, Option, some, List, [], ◌∷◌, length,
  get_or, set, length-set, get_or-set_ne, u16_mod, ==_iff, ◌==◌, arith, Bool-cases,
}
use native.Mathlib.Decide.{ℕ_discrete}
use aic8800_linux_driver.FrameQueue.{FrameQueue, queue_at, lower, take_head, aicwf_frame_dequeue}
use aic8800_linux_driver.FrameQueue.Total.{
  total, total-set, NothingAbove, empty_total, lower-empty, lower-nonzero, lower-le,
}

pub record IsValid (q : FrameQueue) : Type 0 where
  pub lists : length q.queuelist ≡ q.num_prio
  pub counted : total q.queuelist ≡ q.qcnt
  pub bounded : q.qcnt ≤ q.qmax
  pub narrow : q.qmax < u16_mod
  pub priorities : q.num_prio < u16_mod
  pub below : q.hi_prio < q.num_prio
  pub above : NothingAbove q.queuelist q.hi_prio

uncons : (q : List ℕ) → q ≢ [] → (x : ℕ) × (xs : List ℕ) × (q ≡ x ∷ xs)
uncons [] ne = absurd (ne refl)
uncons (x ∷ xs) ne = (x, xs, refl)

-- The list at the priority that the loop of aicwf_frame_dequeue stops at is not empty, unless all are.
pub lower-nonempty :
    (qs : List (List ℕ)) (h : ℕ)
    → NothingAbove qs h
    → total qs ≢ 0
    → (x : ℕ) × (xs : List ℕ) × (get_or qs (lower qs h) [] ≡ x ∷ xs)
lower-nonempty qs h n t = uncons (get_or qs (lower qs h) []) (λ e. elim (lower-nonzero qs h) [
  | inl z ↦ t (
      empty_total qs (λ i. elim (ℕ_discrete i 0) [
        | yes p ↦ rw p (rw z at e)
        | no p ↦ lower-empty qs h i (omega arith) n
      ]))
  | inr f ↦ cc
])

abbrev pub after : FrameQueue → ℕ → List ℕ → FrameQueue
after q p rest = record q { hi_prio = p; queuelist = set q.queuelist p rest; qcnt = q.qcnt - 1 }

-- Taking the head off the list `p`, above which there is nothing.
pub after-IsValid :
    (q : FrameQueue) (p x : ℕ) (rest : List ℕ)
    → queue_at q p ≡ x ∷ rest
    → p < q.num_prio
    → NothingAbove q.queuelist p
    → IsValid q
    → IsValid (after q p rest)
after-IsValid q p x rest e l n w = record {
  lists = length-set q.queuelist p rest ∙ w.lists;
  counted =
      omega (arith, total-set q.queuelist p rest (omega (arith, w.lists)), ap length e, w.counted);
  bounded = omega (arith, w.bounded);
  narrow = w.narrow;
  priorities = w.priorities;
  below = l;
  above = λ i h. get_or-set_ne q.queuelist p i rest [] (omega arith) ∙ n i h;
}

-- What a call of aicwf_frame_dequeue does: it returns the head of the list `p`, above which all
-- lists are empty, keeps the rest of that list and every other, and counts one frame less.
pub record Dequeued (q : FrameQueue) (r : Option ℕ × FrameQueue) : Type 0 where
  pub p : ℕ
  pub x : ℕ
  pub rest : List ℕ
  pub head : queue_at q p ≡ x ∷ rest
  pub highest : NothingAbove q.queuelist p
  pub result : r ≡ (some x, after q p rest)
  pub valid : IsValid r.1

dequeued :
    (q : FrameQueue) (p x : ℕ) (rest : List ℕ)
    → queue_at q p ≡ x ∷ rest
    → IsValid q
    → q.qcnt ≢ 0
    → take_head q p (queue_at q p) ≡ (some x, after q p rest)
unfolding take_head
dequeued q p x rest e w c = rw e (
    ap (λ n. (some x, record q { hi_prio = p; queuelist = set q.queuelist p rest; qcnt = n }))
      (omega (arith, w.bounded, w.narrow)))

no_frames :
    (q : FrameQueue)
    → q.qcnt ≢ 0
    → aicwf_frame_dequeue q
      ≡ take_head q (lower q.queuelist q.hi_prio) (queue_at q (lower q.queuelist q.hi_prio))
unfolding aicwf_frame_dequeue
no_frames q c = elim (Bool-cases (q.qcnt == 0)) [
  | inl e ↦ absurd (c ((==_iff q.qcnt 0).0 e))
  | inr e ↦ rw e refl
]

-- In a valid queue that counts a frame, aicwf_frame_dequeue returns the head of the non-empty list of
-- the highest priority; that list keeps the rest, the other lists are unchanged, the counter is one
-- less, and the queue is valid again.
pub aicwf_frame_dequeue-Dequeued :
    (q : FrameQueue) → IsValid q → q.qcnt ≢ 0 → Dequeued q (aicwf_frame_dequeue q)
aicwf_frame_dequeue-Dequeued q w c =
    let (x, rest, e) = lower-nonempty q.queuelist q.hi_prio w.above (λ z. c (sym w.counted ∙ z)) in
    let l = lower-le q.queuelist q.hi_prio in
    let above : NothingAbove q.queuelist (lower q.queuelist q.hi_prio) =
      λ i h. lower-empty q.queuelist q.hi_prio i h w.above in
    let p = lower q.queuelist q.hi_prio in
    let v = after-IsValid q p x rest e (omega (arith, l, w.below)) above w in
    let r = no_frames q c ∙ dequeued q p x rest e w c in
    record { p = p; x = x; rest = rest; head = e; highest = above; result = r; valid = rw r v }
