-- ===== src/Txq/Sched/Links.antt =====
-- The flag RWNX_TXQ_IN_HWQ_LIST and the lists of the hardware queues: each queue that has the flag is in
-- the list of its own hardware queue exactly once, and the others are in none.
use aic8800_linux_driver.Common.{
  ℕ, zero, suc, ◌+◌, ◌<◌, ◌≤◌, ◌≡◌, ◌≢◌, refl, sym, ap, subst, ◌∙◌, inl, inr, Bool, true, false,
  ◌&&◌, List, [], ◌∷◌, ◌++◌, length, length-set, get_or, get_or-set_self, get_or-set_ne,
  get_or-set_field, set, map, arith, Bool-cases, ==_iff, ==_refl, false≢true, ◌==◌,
}
use native.Mathlib.Decide.{ℕ_discrete}
use aic8800_linux_driver.Txq.{Txq, Hwq, Hw, no_txq, no_hwq, txq_at, set_txq, hwq_at, txq_inactive}
use aic8800_linux_driver.Txq.Sched.{
  linked, append_to, remove, removed_from, rwnx_txq_add_to_hw_list, rwnx_txq_del_from_hw_list,
}

abbrev pub one : Bool → ℕ
one true = 1
one false = 0

abbrev pub count : ℕ → List ℕ → ℕ
count i [] = 0
count i (x ∷ xs) = one (x == i) + count i xs

pub count-append : (i : ℕ) (xs ys : List ℕ) → count i (xs ++ ys) ≡ count i xs + count i ys
count-append i [] ys = omega arith
count-append i (x ∷ xs) ys = omega (arith, count-append i xs ys)

pub count-remove_self : (i : ℕ) (xs : List ℕ) → count i (remove i xs) ≡ 0
unfolding remove
count-remove_self i [] = refl
count-remove_self i (x ∷ xs) = elim (Bool-cases (x == i)) [
  | inl e ↦ rw e (count-remove_self i xs)
  | inr e ↦ rw (e, e) (omega (arith, count-remove_self i xs))
]

eq_false : (x i : ℕ) → x ≢ i → (x == i) ≡ false
eq_false x i ne = ground arith

pub count-remove_ne : (i j : ℕ) (xs : List ℕ) → i ≢ j → count j (remove i xs) ≡ count j xs
unfolding remove
count-remove_ne i j [] ne = refl
count-remove_ne i j (x ∷ xs) ne = elim (Bool-cases (x == i)) [
  | inl e ↦ rw e (
      let z = (==_iff x i).0 e in
      omega (arith, count-remove_ne i j xs ne, ap one (eq_false x j (λ w. ne (sym z ∙ w)))))
  | inr e ↦ rw e (ap (λ n. one (x == j) + n) (count-remove_ne i j xs ne))
]

pub count-remove-le : (i j : ℕ) (xs : List ℕ) → count j (remove i xs) ≤ count j xs
count-remove-le i j xs = elim (ℕ_discrete i j) [
  | yes p ↦ omega (arith, subst (λ x. count x (remove i xs) ≡ 0) p (count-remove_self i xs))
  | no p ↦ omega (arith, count-remove_ne i j xs p)
]

pub record Linked (h : Hw) : Type 0 where
  pub lists :
      (i k : ℕ)
      → count i (hwq_at h k).list ≡ one ((txq_at h i).status.in_hwq_list && ((txq_at h i).hwq == k))
  pub homes : (i : ℕ) → (txq_at h i).hwq < length h.hwq

-- The same lists and the same flags.
pub record SameLinks (h n : Hw) : Type 0 where
  pub lists : (k : ℕ) → (hwq_at n k).list ≡ (hwq_at h k).list
  pub marks : (i : ℕ) → (txq_at n i).status.in_hwq_list ≡ (txq_at h i).status.in_hwq_list
  pub homes : (i : ℕ) → (txq_at n i).hwq ≡ (txq_at h i).hwq
  pub size : length n.hwq ≡ length h.hwq

pub SameLinks-refl : (h : Hw) → SameLinks h h
SameLinks-refl h = record { lists = λ k. refl; marks = λ i. refl; homes = λ i. refl; size = refl }

pub SameLinks-trans : (a b c : Hw) → SameLinks a b → SameLinks b c → SameLinks a c
SameLinks-trans a b c p q = record {
  lists = λ k. q.lists k ∙ p.lists k;
  marks = λ i. q.marks i ∙ p.marks i;
  homes = λ i. q.homes i ∙ p.homes i;
  size = q.size ∙ p.size;
}

pub SameLinks-Linked : (h n : Hw) → SameLinks h n → Linked h → Linked n
SameLinks-Linked h n s w = record {
  lists = λ i k. rw (s.lists k, s.marks i, s.homes i) (w.lists i k);
  homes = λ i. omega (arith, s.homes i, s.size, w.homes i);
}

-- A write to a queue that leaves its flag and its hardware queue alone.
pub set_txq-SameLinks :
    (h : Hw) (i : ℕ) (t : Txq)
    → t.status.in_hwq_list ≡ (txq_at h i).status.in_hwq_list
    → t.hwq ≡ (txq_at h i).hwq
    → SameLinks h (set_txq h i t)
set_txq-SameLinks h i t a b = record {
  lists = λ k. refl;
  marks = λ j. get_or-set_field (λ (x : Txq). x.status.in_hwq_list) h.txq i j t no_txq a;
  homes = λ j. get_or-set_field (λ (x : Txq). x.hwq) h.txq i j t no_txq b;
  size = refl;
}

pub in_range :
    (xs : List Txq) (i : ℕ) → (get_or xs i no_txq).status.in_hwq_list ≡ true → i < length xs
in_range [] i e = absurd (false≢true e)
in_range (x ∷ xs) zero e = omega arith
in_range (x ∷ xs) (suc i) e = omega (arith, in_range xs i e)

pub active_in_range :
    (xs : List Txq) (i : ℕ) → (get_or xs i no_txq).idx ≢ txq_inactive → i < length xs
active_in_range [] i e = absurd (e refl)
active_in_range (x ∷ xs) zero e = omega arith
active_in_range (x ∷ xs) (suc i) e = omega (arith, active_in_range xs i e)

removed_lists :
    (i : ℕ) (qs : List Hwq) (k : ℕ)
    → (get_or (map (removed_from i) qs) k no_hwq).list ≡ remove i (get_or qs k no_hwq).list
unfolding remove
removed_lists i [] k = refl
removed_lists i (q ∷ qs) zero = refl
removed_lists i (q ∷ qs) (suc k) = removed_lists i qs k

length-map {ℓ κ} :
    {A : Type ℓ} {B : Type κ} (f : A → B) (xs : List A) → length (map f xs) ≡ length xs
length-map f [] = refl
length-map f (x ∷ xs) = ap suc (length-map f xs)

del_lists :
    (h : Hw) (i j k : ℕ)
    → (txq_at h i).status.in_hwq_list ≡ true
    → Linked h
    → count j (remove i (hwq_at h k).list)
      ≡ one (
          (txq_at (set_txq h i (linked (txq_at h i) false)) j).status.in_hwq_list
          && ((txq_at (set_txq h i (linked (txq_at h i) false)) j).hwq == k))
del_lists h i j k e w = elim (ℕ_discrete i j) [
  | yes p ↦
      let r = in_range h.txq i e in
      rw (← p, get_or-set_self h.txq i (linked (txq_at h i) false) no_txq r)
        (count-remove_self i (hwq_at h k).list)
  | no p ↦
      rw (get_or-set_ne h.txq i j (linked (txq_at h i) false) no_txq p)
        (count-remove_ne i j (hwq_at h k).list p ∙ w.lists j k)
]

pub del-Linked : (h : Hw) (i : ℕ) → Linked h → Linked (rwnx_txq_del_from_hw_list h i)
unfolding rwnx_txq_del_from_hw_list
del-Linked h i w = elim (Bool-cases (txq_at h i).status.in_hwq_list) [
  | inr e ↦ rw e w
  | inl e ↦ rw e (record {
    lists = λ j k. ap (count j) (removed_lists i h.hwq k) ∙ del_lists h i j k e w;
    homes = λ j. omega (
      arith,
      length-map (removed_from i) h.hwq,
      get_or-set_field (λ (x : Txq). x.hwq) h.txq i j (linked (txq_at h i) false) no_txq refl,
      w.homes j,
    );
  })
]

pub added_count :
    (i j k k0 : ℕ) (qs : List Hwq)
    → k0 < length qs
    → count j (get_or (set qs k0 (append_to i (get_or qs k0 no_hwq))) k no_hwq).list
      ≡ count j (get_or qs k no_hwq).list + one ((k0 == k) && (i == j))
added_count i j k k0 qs h = elim (ℕ_discrete k0 k) [
  | yes p ↦
      rw (← p, get_or-set_self qs k0 (append_to i (get_or qs k0 no_hwq)) no_hwq h, ==_refl k0)
        (count-append j (get_or qs k0 no_hwq).list (i ∷ []) ∙ omega arith)
  | no p ↦
      rw (get_or-set_ne qs k0 k (append_to i (get_or qs k0 no_hwq)) no_hwq p, eq_false k0 k p)
        (omega arith)
]

swap_and : (b : Bool) (n : ℕ) → n ≡ 0 → n + one (b && true) ≡ one b
swap_and true n e = omega (arith, e)
swap_and false n e = omega (arith, e)

drop_and : (b : Bool) (n : ℕ) → n + one (b && false) ≡ n
drop_and true n = omega arith
drop_and false n = omega arith

add_lists :
    (h : Hw) (i j k : ℕ)
    → i < length h.txq
    → (txq_at h i).status.in_hwq_list ≡ false
    → Linked h
    → count j (hwq_at h k).list + one (((txq_at h i).hwq == k) && (i == j))
      ≡ one (
          (txq_at (set_txq h i (linked (txq_at h i) true)) j).status.in_hwq_list
          && ((txq_at (set_txq h i (linked (txq_at h i) true)) j).hwq == k))
add_lists h i j k r e w = elim (ℕ_discrete i j) [
  | yes p ↦
      let c = w.lists i k in
      rw (← p, get_or-set_self h.txq i (linked (txq_at h i) true) no_txq r, ==_refl i)
        (swap_and ((txq_at h i).hwq == k) (count i (hwq_at h k).list)
          (c ∙ ap (λ b. one (b && ((txq_at h i).hwq == k))) e))
  | no p ↦
      rw (get_or-set_ne h.txq i j (linked (txq_at h i) true) no_txq p, eq_false i j p)
        (drop_and ((txq_at h i).hwq == k) (count j (hwq_at h k).list) ∙ w.lists j k)
]

pub add-Linked :
    (h : Hw) (i : ℕ) → i < length h.txq → Linked h → Linked (rwnx_txq_add_to_hw_list h i)
unfolding rwnx_txq_add_to_hw_list
add-Linked h i r w = elim (Bool-cases (txq_at h i).status.in_hwq_list) [
  | inl e ↦ rw e w
  | inr e ↦ rw e (record {
    lists = λ j k. added_count i j k (txq_at h i).hwq h.hwq (w.homes i) ∙ add_lists h i j k r e w;
    homes = λ j. omega (
      arith,
      length-set h.hwq (txq_at h i).hwq (append_to i (hwq_at h (txq_at h i).hwq)),
      get_or-set_field (λ (x : Txq). x.hwq) h.txq i j (linked (txq_at h i) true) no_txq refl,
      w.homes j,
    );
  })
]

pub add-length : (h : Hw) (i : ℕ) → length (rwnx_txq_add_to_hw_list h i).txq ≡ length h.txq
unfolding rwnx_txq_add_to_hw_list
add-length h i = elim (Bool-cases (txq_at h i).status.in_hwq_list) [
  | inl e ↦ rw e refl
  | inr e ↦ rw e (length-set h.txq i (linked (txq_at h i) true))
]
