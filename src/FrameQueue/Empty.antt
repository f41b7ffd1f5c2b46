-- ===== src/FrameQueue/Empty.antt =====
-- aicwf_is_framequeue_empty against the counter of the queue.
use aic8800_linux_driver.Common.{
  ℕ, zero, suc, ◌+◌, ◌≡◌, ◌↔◌, refl, ap, ◌∙◌, inl, inr, true, List, [], ◌∷◌, length, ltb, arith,
  Bool-cases, ltb→lt, ltb_false→le, false≢true,
}
use aic8800_linux_driver.FrameQueue.{FrameQueue, sum_to, aicwf_is_framequeue_empty}
use aic8800_linux_driver.FrameQueue.Total.{total, NothingAbove, empty_total}
use aic8800_linux_driver.FrameQueue.Valid.{IsValid}

pub sum_to-cons :
    (q : List ℕ) (qs : List (List ℕ)) (n : ℕ) → sum_to (q ∷ qs) (suc n) ≡ length q + sum_to qs n
unfolding sum_to
sum_to-cons q qs zero = refl
sum_to-cons q qs (suc n) = omega (arith, sum_to-cons q qs n)

-- The lists up to one above which there is nothing hold all frames.
pub sum_to-total : (qs : List (List ℕ)) (h : ℕ) → NothingAbove qs h → sum_to qs h ≡ total qs
unfolding sum_to
sum_to-total [] zero n = refl
sum_to-total [] (suc h) n = omega (arith, sum_to-total [] h (λ i _. refl))
sum_to-total (q ∷ qs) zero n = omega (arith, empty_total qs (λ i. n (suc i) (omega arith)))
sum_to-total (q ∷ qs) (suc h) n =
    sum_to-cons q qs h
    ∙ ap (λ x. length q + x) (sum_to-total qs h (λ i l. n (suc i) (omega (arith, l))))

-- On a valid queue aicwf_is_framequeue_empty, which counts the lists up to hi_prio, answers whether
-- the counter qcnt of all lists is zero.
pub aicwf_is_framequeue_empty_iff :
    (q : FrameQueue) → IsValid q → (aicwf_is_framequeue_empty q ≡ true) ↔ (q.qcnt ≡ 0)
unfolding aicwf_is_framequeue_empty
aicwf_is_framequeue_empty_iff q w =
    let s = sum_to-total q.queuelist q.hi_prio w.above in
    let c = w.counted in
    elim (Bool-cases (ltb 0 (sum_to q.queuelist q.hi_prio))) [
      | inl e ↦
          let l = ltb→lt _ _ e in
          rw e (λ f. absurd (false≢true f), λ z. absurd (omega (arith, l, s, c, z)))
      | inr e ↦ let l = ltb_false→le _ _ e in rw e (λ _. omega (arith, l, s, c), λ _. refl)
    ]
