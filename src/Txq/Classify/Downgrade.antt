-- ===== src/Txq/Classify/Downgrade.antt =====
-- The class that rwnx_downgrade_ac leaves a frame in.
use aic8800_linux_driver.Common.{
  ℕ, zero, suc, ◌<◌, ◌≤◌, ◌≡◌, refl, sym, ap, ◌∙◌, ◌⊎◌, inl, inr, true, false, arith, Bool-cases,
  if◌then◌else◌, bit, false≢true, subst, ltb,
}
use aic8800_linux_driver.Txq.Sched.{tid2hwq}
use aic8800_linux_driver.Txq.Classify.{down_hwq2tid, downgrade_from, rwnx_downgrade_ac}

-- The highest class, from that of `p` down, that does not ask for admission, or the lowest.
pub record Downgraded (acm p q : ℕ) : Type 0 where
  pub lower : tid2hwq q ≤ tid2hwq p
  pub admitted : (bit acm (tid2hwq q) ≡ false) ⊎ (tid2hwq q ≡ 0)
  pub highest : (k : ℕ) → tid2hwq q < k → k ≤ tid2hwq p → bit acm k ≡ true
  pub unchanged : bit acm (tid2hwq p) ≡ false → q ≡ p

stays : (acm p : ℕ) → bit acm (tid2hwq p) ≡ false → Downgraded acm p p
stays acm p e = record {
  lower = omega arith;
  admitted = inl e;
  highest = λ k a b. absurd (omega (arith, a, b));
  unchanged = λ z. refl;
}

-- One class down.
step_down :
    (acm p q n ac : ℕ)
    → tid2hwq p ≡ suc ac
    → tid2hwq n ≡ ac
    → bit acm (suc ac) ≡ true
    → Downgraded acm n q
    → Downgraded acm p q
step_down acm p q n ac e f b d = record {
  lower = omega (arith, e, f, d.lower);
  admitted = d.admitted;
  highest = λ k x y. passed k x (dec k) y;
  unchanged = λ z. absurd (false≢true (sym z ∙ ap (bit acm) e ∙ b));
}
  where
    apart : (k : ℕ) → ¬ (k ≡ suc ac) → k ≤ suc ac → k ≤ ac
    apart k z l = grind arith

    dec : (k : ℕ) → (k ≡ suc ac) ⊎ (¬ (k ≡ suc ac))
    dec k = ground arith

    passed :
        (k : ℕ) → tid2hwq q < k → (k ≡ suc ac) ⊎ (¬ (k ≡ suc ac)) → k ≤ tid2hwq p → bit acm k ≡ true
    passed k x (inl z) y = ap (bit acm) z ∙ b
    passed k x (inr z) y = d.highest k x (omega (arith, f, apart k z (omega (arith, y, e))))

downgrade_from-Downgraded :
    (acm ac p : ℕ) → tid2hwq p ≡ ac → ac < 4 → Downgraded acm p (downgrade_from acm ac p)
unfolding downgrade_from
downgrade_from-Downgraded acm zero p e l = elim (Bool-cases (bit acm 0)) [
  | inl b ↦ rw b (record {
    lower = omega arith;
    admitted = inr refl;
    highest = λ k x y. absurd (omega (arith, x, y, e));
    unchanged = λ z. absurd (false≢true (sym z ∙ ap (bit acm) e ∙ b));
  })
  | inr b ↦ rw b (stays acm p (ap (bit acm) e ∙ b))
]
downgrade_from-Downgraded acm (suc ac) p e l = elim (Bool-cases (bit acm (suc ac))) [
  | inl b ↦
      let f = of_down ac (omega (arith, l)) in
      rw b (
        step_down acm p (downgrade_from acm ac (down_hwq2tid ac)) (down_hwq2tid ac) ac e f b
          (downgrade_from-Downgraded acm ac (down_hwq2tid ac) f (omega (arith, l))))
  | inr b ↦ rw b (stays acm p (ap (bit acm) e ∙ b))
]
  where
    of_down : (n : ℕ) → n < 3 → tid2hwq (down_hwq2tid n) ≡ n
    of_down zero l = refl
    of_down (suc zero) l = refl
    of_down (suc (suc zero)) l = refl
    of_down (suc (suc (suc n))) l = absurd (omega (arith, l))

-- For a priority below 8: the loop of rwnx_downgrade_ac ends, and the priority that it gives a frame is
-- of the highest class, not above that of the priority that it had, that needs no admission, or of the
-- lowest class if all of them need it; where its own class needs none the priority is unchanged.
pub rwnx_downgrade_ac-Downgraded : (acm p : ℕ) → p < 8 → Downgraded acm p (rwnx_downgrade_ac acm p)
unfolding rwnx_downgrade_ac
rwnx_downgrade_ac-Downgraded acm p l =
    let e = no_more (tid2hwq p) (at_most p l) in
    subst (λ n. Downgraded acm p (downgrade_from acm n p)) (sym e)
      (downgrade_from-Downgraded acm (tid2hwq p) p refl (at_most p l))
  where
    no_more : (n : ℕ) → n < 4 → (if ltb 3 n then 3 else n) ≡ n
    no_more n l = ground arith

    at_most : (n : ℕ) → n < 8 → tid2hwq n < 4
    at_most zero l = omega arith
    at_most (suc zero) l = omega arith
    at_most (suc (suc zero)) l = omega arith
    at_most (suc (suc (suc zero))) l = omega arith
    at_most (suc (suc (suc (suc zero)))) l = omega arith
    at_most (suc (suc (suc (suc (suc zero))))) l = omega arith
    at_most (suc (suc (suc (suc (suc (suc zero)))))) l = omega arith
    at_most (suc (suc (suc (suc (suc (suc (suc zero))))))) l = omega arith
    at_most (suc (suc (suc (suc (suc (suc (suc (suc n)))))))) l = absurd (omega (arith, l))
