-- ===== src/FrameQueue/Total.antt =====
-- The number of frames in a list of lists, and how a write to one of them changes it.
use aic8800_linux_driver.Common.{
  ℕ, zero, suc, ◌+◌, ◌<◌, ◌≡◌, refl, ◌⊎◌, inl, inr, true, false, List, [], ◌∷◌, length, get_or, set,
  replicate, arith, Bool-cases, ◌≤◌, subst,
}
use native.Mathlib.Decide.{ℕ_discrete}
use aic8800_linux_driver.FrameQueue.{is_nil, lower}

abbrev pub total : List (List ℕ) → ℕ
total [] = 0
total (q ∷ qs) = length q + total qs

pub total-set :
    (qs : List (List ℕ)) (i : ℕ) (v : List ℕ)
    → i < length qs
    → total (set qs i v) + length (get_or qs i []) ≡ total qs + length v
total-set [] i v h = absurd (omega arith)
total-set (q ∷ qs) zero v h = omega arith
total-set (q ∷ qs) (suc i) v h = omega (arith, total-set qs i v (omega arith))

pub total-replicate : (n : ℕ) → total (replicate n []) ≡ 0
total-replicate zero = refl
total-replicate (suc n) = omega (arith, total-replicate n)

-- Every list above `h` is empty.
abbrev pub NothingAbove : List (List ℕ) → ℕ → Type 0
NothingAbove qs h = (i : ℕ) → h < i → get_or qs i [] ≡ []

pub empty_total : (qs : List (List ℕ)) → ((i : ℕ) → get_or qs i [] ≡ []) → total qs ≡ 0
empty_total [] e = refl
empty_total (q ∷ qs) e = let a = e 0 in let b = empty_total qs (λ i. e (suc i)) in rw (a, b) refl

pub is_nil-true : (q : List ℕ) → is_nil q ≡ true → q ≡ []
is_nil-true [] e = refl
is_nil-true (x ∷ xs) e = absurd cc

pub lower-empty :
    (qs : List (List ℕ)) (h i : ℕ) → lower qs h < i → NothingAbove qs h → get_or qs i [] ≡ []
unfolding lower
lower-empty qs zero i l n = n i l
lower-empty qs (suc h) i l n = elim (Bool-cases (is_nil (get_or qs (suc h) []))) [
  | inl e ↦ lower-empty qs h i (rw e at l) (λ j k. elim (ℕ_discrete (suc h) j) [
    | yes p ↦ subst (λ x. get_or qs x [] ≡ []) p (is_nil-true _ e)
    | no p ↦ n j (omega arith)
  ])
  | inr e ↦ n i (rw e at l)
]

pub lower-nonzero :
    (qs : List (List ℕ)) (h : ℕ) → lower qs h ≡ 0 ⊎ (is_nil (get_or qs (lower qs h) []) ≡ false)
unfolding lower
lower-nonzero qs zero = inl refl
lower-nonzero qs (suc h) = elim (Bool-cases (is_nil (get_or qs (suc h) []))) [
  | inl e ↦ rw e (lower-nonzero qs h)
  | inr e ↦ inr (rw e e)
]

pub lower-le : (qs : List (List ℕ)) (h : ℕ) → lower qs h ≤ h
unfolding lower
lower-le qs zero = omega arith
lower-le qs (suc h) = elim (Bool-cases (is_nil (get_or qs (suc h) []))) [
  | inl e ↦ rw e (omega (arith, lower-le qs h))
  | inr e ↦ rw e (omega arith)
]
