-- ===== src/Radar/Pulses/Recent.antt =====
-- Lists of time stamps with the newest first: those within a window, and one fewer where there are too many.
use aic8800_linux_driver.Common.{
  ℕ, suc, ◌+◌, ◌-◌, ◌<◌, ◌≤◌, ◌≡◌, refl, ap, inl, inr, true, some, List, [], ◌∷◌, length, All,
  arith, leb, leb→le, leb_false→lt, Bool-cases, if◌then◌else◌, some_inj, none≢some,
}
use aic8800_linux_driver.Radar.Pulses.{get_last?, drop_last}

-- Time stamps that do not rise, from `newest` on.
abbrev pub Falling : ℕ → List ℕ → Type 0
Falling newest [] = Unit {0}
Falling newest (p ∷ older) = (p ≤ newest) × Falling p older

-- The pulses up to the first that is older than `min`.
abbrev pub recent : ℕ → List ℕ → List ℕ
recent min [] = []
recent min (p ∷ older) = let rest = recent min older in if leb min p then p ∷ rest else []

-- Without the oldest where there are `max` or more.
abbrev pub shorten : ℕ → List ℕ → List ℕ
shorten max ps = if leb max (length ps) then drop_last ps else ps

pub length-drop_last : (x : ℕ) (xs : List ℕ) → length (drop_last (x ∷ xs)) ≡ length xs
length-drop_last x [] = refl
length-drop_last x (y ∷ r) = ap suc (length-drop_last y r)

pub Falling-drop_last : (b : ℕ) (xs : List ℕ) → Falling b xs → Falling b (drop_last xs)
Falling-drop_last b [] f = tt
Falling-drop_last b (x ∷ []) f = tt
Falling-drop_last b (x ∷ y ∷ r) f = (f.0, Falling-drop_last x (y ∷ r) f.1)

pub All-drop_last : (P : ℕ → Type 0) (xs : List ℕ) → All P xs → All P (drop_last xs)
All-drop_last P [] a = tt
All-drop_last P (x ∷ []) a = tt
All-drop_last P (x ∷ y ∷ r) a = (a.0, All-drop_last P (y ∷ r) a.1)

-- The last of them is not above the first.
pub last_le : (b : ℕ) (xs : List ℕ) (p : ℕ) → Falling b xs → get_last? xs ≡ some p → p ≤ b
last_le b [] p f e = absurd (none≢some e)
last_le b (x ∷ []) p f e = omega (arith, f.0, some_inj e)
last_le b (x ∷ y ∷ r) p f e = omega (arith, f.0, last_le x (y ∷ r) p f.1 e)

pub recent_all :
    (min b : ℕ) (xs : List ℕ) (p : ℕ)
    → Falling b xs
    → get_last? xs ≡ some p
    → min ≤ p
    → recent min xs ≡ xs
recent_all min b [] p f e h = refl
recent_all min b (x ∷ []) p f e h = ground (arith, some_inj e)
recent_all min b (x ∷ y ∷ r) p f e h =
    ground (arith, recent_all min x (y ∷ r) p f.1 e h, last_le x (y ∷ r) p f.1 e)

pub recent-drop_last :
    (min : ℕ) (xs : List ℕ) (p : ℕ)
    → get_last? xs ≡ some p
    → p < min
    → recent min (drop_last xs) ≡ recent min xs
recent-drop_last min [] p e h = refl
recent-drop_last min (x ∷ []) p e h = ground (arith, some_inj e)
recent-drop_last min (x ∷ y ∷ r) p e h =
    ap (λ rest. if leb min x then x ∷ rest else []) (recent-drop_last min (y ∷ r) p e h)

pub has_last : (x : ℕ) (xs : List ℕ) → (p : ℕ) × (get_last? (x ∷ xs) ≡ some p)
has_last x [] = (x, refl)
has_last x (y ∷ r) = has_last y r

pub front : (n : ℕ) (xs : List ℕ) → length xs ≡ suc n → (y : ℕ) × (ys : List ℕ) × (xs ≡ y ∷ ys)
front n [] e = absurd (omega (arith, e))
front n (y ∷ ys) e = (y, ys, refl)

pub recent_zero : (xs : List ℕ) → recent 0 xs ≡ xs
recent_zero [] = refl
recent_zero (x ∷ xs) = ground (arith, recent_zero xs)

pub length-recent : (min : ℕ) (xs : List ℕ) → length (recent min xs) ≤ length xs
length-recent min [] = omega arith
length-recent min (x ∷ xs) = ground (arith, length-recent min xs)

pub Falling-recent : (min b : ℕ) (xs : List ℕ) → Falling b xs → Falling b (recent min xs)
Falling-recent min b [] f = tt
Falling-recent min b (x ∷ xs) f = elim (Bool-cases (leb min x)) [
  | inl e ↦ rw e (f.0, Falling-recent min x xs f.1)
  | inr e ↦ rw e tt
]

pub All-recent : (min w t : ℕ) (xs : List ℕ) → min ≡ t - w → All (λ p. t ≤ p + w) (recent min xs)
All-recent min w t [] e = tt
All-recent min w t (x ∷ xs) e = elim (Bool-cases (leb min x)) [
  | inl a ↦ rw a (omega (arith, leb→le min x a, e), All-recent min w t xs e)
  | inr a ↦ rw a tt
]

-- The newest pulse is in the window.
pub keeps_newest : (t w : ℕ) (xs : List ℕ) → length (t ∷ xs) < 2 → recent (t - w) (t ∷ xs) ≡ t ∷ xs
keeps_newest t w [] l = ground arith
keeps_newest t w (x ∷ xs) l = absurd (omega (arith, l))

pub All-shorten : (P : ℕ → Type 0) (max : ℕ) (xs : List ℕ) → All P xs → All P (shorten max xs)
All-shorten P max xs a = elim (Bool-cases (leb max (length xs))) [
  | inl e ↦ rw e (All-drop_last P xs a)
  | inr e ↦ rw e a
]

pub Falling-shorten : (b max : ℕ) (xs : List ℕ) → Falling b xs → Falling b (shorten max xs)
Falling-shorten b max xs f = elim (Bool-cases (leb max (length xs))) [
  | inl e ↦ rw e (Falling-drop_last b xs f)
  | inr e ↦ rw e f
]

pub length-shorten :
    (max : ℕ) (xs : List ℕ) → length xs ≤ max → 0 < max → length (shorten max xs) < max
length-shorten max [] l z = ground arith
length-shorten max (x ∷ xs) l z = elim (Bool-cases (leb max (length (x ∷ xs)))) [
  | inl e ↦ rw e (omega (arith, length-drop_last x xs))
  | inr e ↦ rw e (leb_false→lt max (length (x ∷ xs)) e)
]

pub recent_newest : (t w : ℕ) (xs : List ℕ) → recent (t - w) (t ∷ xs) ≡ t ∷ recent (t - w) xs
recent_newest t w xs = rw (le→leb t w) refl
  where
    le→leb : (t w : ℕ) → leb (t - w) t ≡ true
    le→leb t w = ground arith
