-- ===== src/Txq/PowerSave/Credits.antt =====
-- Nothing takes credits from a queue, and each retry gives it one, in an s8.
use aic8800_linux_driver.Common.{
  ℕ, ◌+◌, ◌<◌, ◌≤◌, ◌%◌, ◌≡◌, ◌≢◌, refl, sym, ap, ◌∙◌, Bool, true, false, none, List, [], ◌∷◌,
  length, length-set, get_or-set_self, if◌then◌else◌, arith,
}
use aic8800_linux_driver.Txq.{
  Frame, Txq, Hw, no_txq, txq_at, set_txq, full, txq_inactive, s8_positive,
}
use aic8800_linux_driver.Txq.Sched.{rwnx_txq_start}
use aic8800_linux_driver.Txq.Sched.Changes.{start-length, start_class}
use aic8800_linux_driver.Txq.Push.Changes.{queue_skb_class}
use aic8800_linux_driver.Txq.Process.{process_txq}
use aic8800_linux_driver.Txq.Process.Measure.{no_credits_bug}
use aic8800_linux_driver.Txq.PowerSave.{rwnx_tx_retry}

small : (n : ℕ) → n ≤ 255 → n % 256 ≡ n
small n l = omega (arith, l)

-- The credits of a queue, whether it is in use, and the number of queues.
if_class :
    (b : Bool) (x y : Hw) (i : ℕ)
    → ((txq_at x i).credits ≡ (txq_at y i).credits) × ((txq_at x i).idx ≡ (txq_at y i).idx)
    → length x.txq ≡ length y.txq
    → ((txq_at (if b then x else y) i).credits ≡ (txq_at y i).credits)
      × ((txq_at (if b then x else y) i).idx ≡ (txq_at y i).idx)
      × (length (if b then x else y).txq ≡ length y.txq)
if_class true x y i p l = (p.0, p.1, l)
if_class false x y i p l = (refl, refl, refl)

retry_class :
    (h : Hw) (i : ℕ) (f : Frame)
    → i < length h.txq
    → ((txq_at (rwnx_tx_retry h i f) i).credits ≡ ((txq_at h i).credits + 1) % 256)
      × ((txq_at (rwnx_tx_retry h i f) i).idx ≡ (txq_at h i).idx)
      × (length (rwnx_tx_retry h i f).txq ≡ length h.txq)
unfolding rwnx_tx_retry
retry_class h i f l =
    let c = ((txq_at h i).credits + 1) % 256 in
    let t : Txq = record (txq_at h i) { credits = c } in
    let n = set_txq h i t in
    let s = get_or-set_self h.txq i t no_txq l in
    let z = length-set h.txq i t in
    let q = queue_skb_class (if s8_positive c then rwnx_txq_start n i full else n) i f true in
    let r =
      if_class (s8_positive c) (rwnx_txq_start n i full) n i (start_class n i full)
        (start-length n i full) in
    (q.0 ∙ r.0 ∙ ap (λ x. x.credits) s, q.1 ∙ r.1 ∙ ap (λ x. x.idx) s, q.2 ∙ r.2 ∙ z)

-- The frames are queued again, one after the other.
abbrev pub retries : Hw → ℕ → List Frame → Hw
retries h i [] = h
retries h i (f ∷ fs) = retries (rwnx_tx_retry h i f) i fs

retries_class :
    (h : Hw) (i : ℕ) (fs : List Frame)
    → i < length h.txq
    → (txq_at h i).credits + length fs ≤ 255
    → ((txq_at (retries h i fs) i).credits ≡ (txq_at h i).credits + length fs)
      × ((txq_at (retries h i fs) i).idx ≡ (txq_at h i).idx)
retries_class h i [] l b = (omega arith, refl)
retries_class h i (f ∷ fs) l b =
    let a = retry_class h i f l in
    let e = small ((txq_at h i).credits + 1) (omega (arith, b)) in
    let r =
      retries_class (rwnx_tx_retry h i f) i fs (omega (arith, a.2, l)) (omega (arith, a.0, e, b)) in
    (omega (arith, r.0, a.0, e), r.1 ∙ a.1)

-- A queue in use that starts with 64 credits has 128 after 64 retries, which is -128 in its s8, and the
-- next round of rwnx_hwq_process on it stops the kernel.
pub retries_bug :
    (h : Hw) (i k : ℕ) (fs : List Frame)
    → i < length h.txq
    → (txq_at h i).idx ≢ txq_inactive
    → (txq_at h i).credits ≡ 64
    → length fs ≡ 64
    → ((txq_at (retries h i fs) i).credits ≡ 128) × (process_txq (retries h i fs) k i ≡ none)
retries_bug h i k fs l a c n =
    let r = retries_class h i fs l (omega (arith, c, n)) in
    let e : (txq_at (retries h i fs) i).credits ≡ 128 = omega (arith, r.0, c, n) in
    (e, no_credits_bug (retries h i fs) k i (λ z. a (sym r.1 ∙ z)) (ap s8_positive e))
