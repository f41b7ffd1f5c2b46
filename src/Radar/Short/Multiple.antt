-- ===== src/Radar/Short/Multiple.antt =====
-- pde_get_multiple against what it is for: the multiple of an interval that a distance is near to.
use aic8800_linux_driver.Common.{
  ℕ, zero, suc, ◌+◌, ◌-◌, ◌*◌, ◌/◌, ◌%◌, ◌<◌, ◌≤◌, ◌≡◌, inl, inr, false, arith, ltb, leb,
  Bool-cases, ltb→lt, ltb_false→le, leb→le, leb_false→lt, refl, ◌==◌, if◌then◌else◌,
}
use native.Mathlib.Nat.{div-add-mod', mod-lt}
use native.Mathlib.Decide.{dec_le}
use aic8800_linux_driver.Radar.Short.{pde_get_multiple}

not_zero : (n : ℕ) → 0 < n → (n == 0) ≡ false
not_zero n h = ground arith

-- `k` intervals are not further than the tolerance from `val`.
pub record Near (val fraction tolerance k : ℕ) : Type 0 where
  pub above : val ≤ k * fraction + tolerance
  pub below : k * fraction ≤ val + tolerance

mul_mono : (j q f : ℕ) → j ≤ q → j * f ≤ q * f
mul_mono j q f h = grind arith

split : (val f : ℕ) → 0 < f → (val ≡ val / f * f + val % f) × (val % f < f)
split val f h = (omega (arith, div-add-mod' val f), mod-lt val h)

-- What remains is beyond the tolerance on both sides.
far : (val f tol q r j : ℕ) → val ≡ q * f + r → tol < r → r + tol < f → Near val f tol j → ⊥
far val f tol q r j e a b n = elim (dec_le j q) [
  | yes h ↦ absurd (omega (arith, e, mul_mono j q f h, n.above))
  | no h ↦ absurd (omega (arith, e, mul_mono (suc q) j f (omega arith), n.below))
]

-- `k` is positive and such a multiple, or it is 0 and there is none.
pub data IsMultiple (val fraction tolerance k : ℕ) : Type 0 where
  near : 0 < k → Near val fraction tolerance k → IsMultiple val fraction tolerance k
  nowhere :
      k ≡ 0
      → ((j : ℕ) → ¬ (Near val fraction tolerance (suc j)))
      → IsMultiple val fraction tolerance k

near_one : (val f tol : ℕ) → (if ltb val f then f - val else val - f) ≤ tol → IsMultiple val f tol 1
near_one val f tol h = near (omega arith) (record { above = ground arith; below = ground arith })

-- Near the next multiple.
near_next :
    (val f tol q r : ℕ) → val ≡ q * f + r → r < f → f - r ≤ tol → IsMultiple val f tol (q + 1)
near_next val f tol q r e l h =
    near (omega arith) (record { above = omega (arith, e); below = omega (arith, e, l, h) })

near_none : (val f tol q r : ℕ) → val ≡ q * f + r → tol < r → tol < f - r → IsMultiple val f tol 0
near_none val f tol q r e a b =
    nowhere refl (λ j n. far val f tol q r (suc j) e a (omega (arith, b)) n)

-- Near the multiple below, if there is one.
near_last :
    (val f tol q r : ℕ)
    → val ≡ q * f + r
    → r < f
    → r ≤ tol
    → tol < (if ltb val f then f - val else val - f)
    → IsMultiple val f tol q
near_last val f tol zero r e l h d =
    nowhere refl (λ j n. omega (arith, n.below, mul_mono 1 (suc j) f (omega arith), short_of))
  where
    short_of : val + tol < f
    short_of = ground arith
near_last val f tol (suc q) r e l h d =
    near (omega arith) (record { above = omega (arith, e, h); below = omega (arith, e) })

-- For an interval that is not 0, the result is a positive multiple of it that is within the tolerance of
-- the distance, or it is 0 and no positive multiple is.
pub pde_get_multiple_lem :
    (val fraction tolerance : ℕ)
    → 0 < fraction
    → IsMultiple val fraction tolerance (pde_get_multiple val fraction tolerance)
unfolding pde_get_multiple
pde_get_multiple_lem val fraction tolerance h =
    let f = fraction in
    let delta = if ltb val f then f - val else val - f in
    let s = split val f h in
    let z = not_zero f h in
    elim (Bool-cases (leb delta tolerance)) [
      | inl a ↦ rw (z, a) (near_one val f tolerance (leb→le delta tolerance a))
      | inr a ↦ elim (Bool-cases (ltb tolerance (val % f))) [
        | inl b ↦ elim (Bool-cases (leb (f - val % f) tolerance)) [
          | inl c ↦
              rw (z, a, b, c)
                (near_next val f tolerance (val / f) (val % f) s.0 s.1
                  (leb→le (f - val % f) tolerance c))
          | inr c ↦
              rw (z, a, b, c)
                (near_none val f tolerance (val / f) (val % f) s.0 (ltb→lt tolerance (val % f) b)
                  (leb_false→lt (f - val % f) tolerance c))
        ]
        | inr b ↦
            rw (z, a, b)
              (near_last val f tolerance (val / f) (val % f) s.0 s.1
                (ltb_false→le tolerance (val % f) b) (leb_false→lt delta tolerance a))
      ]
    ]
