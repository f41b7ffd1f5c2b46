-- ===== src/Txq/Sched/Changes.antt =====
-- Operations that change one queue, and neither its frames, nor its credits, nor whether it is in use.
use aic8800_linux_driver.Common.{
  ℕ, zero, suc, ◌≡◌, ◌≢◌, refl, sym, ap, ◌∙◌, inl, inr, Bool, true, false, ◌&&◌, not, List, [], ◌∷◌,
  length, length-set, get_or, get_or-set_ne, get_or-set_field, set, map, Bool-cases, ◌==◌,
  if◌then◌else◌,
}
use aic8800_linux_driver.Txq.{
  Frame, Txq, Hw, emit, kfree_skb, no_txq, txq_at, set_txq, Reason, mark, has, is_stopped, is_nil,
  txq_inactive,
}
use aic8800_linux_driver.Txq.Sched.Links.{add-length}
use aic8800_linux_driver.Txq.Sched.{
  linked, removed_from, rwnx_txq_del_from_hw_list, rwnx_txq_flush, free_all, rwnx_txq_start,
  rwnx_txq_add_to_hw_list,
}

-- Only queue `i` has changed, and of it neither its frames, nor its credits, nor whether it is in use.
pub record Touched (i : ℕ) (h n : Hw) : Type 0 where
  pub others : (j : ℕ) → i ≢ j → txq_at n j ≡ txq_at h j
  pub frames : (txq_at n i).sk_list ≡ (txq_at h i).sk_list
  pub credits : (txq_at n i).credits ≡ (txq_at h i).credits
  pub idx : (txq_at n i).idx ≡ (txq_at h i).idx
  pub marks : (txq_at n i).status.in_hwq_list ≡ true → (txq_at h i).status.in_hwq_list ≡ true
  pub size : length n.txq ≡ length h.txq

pub Touched-refl : (i : ℕ) (h : Hw) → Touched i h h
Touched-refl i h = record {
  others = λ j ne. refl;
  frames = refl;
  credits = refl;
  idx = refl;
  marks = λ e. e;
  size = refl;
}

pub Touched-trans : (i : ℕ) (a b c : Hw) → Touched i a b → Touched i b c → Touched i a c
Touched-trans i a b c p q = record {
  others = λ j ne. q.others j ne ∙ p.others j ne;
  frames = q.frames ∙ p.frames;
  credits = q.credits ∙ p.credits;
  idx = q.idx ∙ p.idx;
  marks = λ e. p.marks (q.marks e);
  size = q.size ∙ p.size;
}

mark_of :
    (xs : List Txq) (i : ℕ) (t : Txq)
    → (t.status.in_hwq_list ≡ true → (get_or xs i no_txq).status.in_hwq_list ≡ true)
    → (get_or (set xs i t) i no_txq).status.in_hwq_list ≡ true
    → (get_or xs i no_txq).status.in_hwq_list ≡ true
mark_of [] i t d e = e
mark_of (x ∷ xs) zero t d e = d e
mark_of (x ∷ xs) (suc i) t d e = mark_of xs i t d e

-- A write to the queue that leaves these fields alone, and clears its flag at most.
pub set_txq-Touched :
    (h n : Hw) (i : ℕ) (t : Txq)
    → n.txq ≡ set h.txq i t
    → t.sk_list ≡ (txq_at h i).sk_list
    → t.credits ≡ (txq_at h i).credits
    → t.idx ≡ (txq_at h i).idx
    → (t.status.in_hwq_list ≡ true → (txq_at h i).status.in_hwq_list ≡ true)
    → Touched i h n
set_txq-Touched h n i t e a b c d = record {
  others = λ j ne. ap (λ x. get_or x j no_txq) e ∙ get_or-set_ne h.txq i j t no_txq ne;
  frames =
      ap (λ x. (get_or x i no_txq).sk_list) e
      ∙ get_or-set_field (λ (x : Txq). x.sk_list) h.txq i i t no_txq a;
  credits =
      ap (λ x. (get_or x i no_txq).credits) e
      ∙ get_or-set_field (λ (x : Txq). x.credits) h.txq i i t no_txq b;
  idx =
      ap (λ x. (get_or x i no_txq).idx) e
      ∙ get_or-set_field (λ (x : Txq). x.idx) h.txq i i t no_txq c;
  marks = λ m. mark_of h.txq i t d (sym (ap (λ x. (get_or x i no_txq).status.in_hwq_list) e) ∙ m);
  size = ap length e ∙ length-set h.txq i t;
}

pub if_Touched :
    (i : ℕ) (h : Hw) (b : Bool) (x y : Hw)
    → Touched i h x
    → Touched i h y
    → Touched i h (if b then x else y)
if_Touched i h true x y p q = p
if_Touched i h false x y p q = q

pub del-Touched : (h : Hw) (i : ℕ) → Touched i h (rwnx_txq_del_from_hw_list h i)
unfolding rwnx_txq_del_from_hw_list
del-Touched h i = elim (Bool-cases (txq_at h i).status.in_hwq_list) [
  | inr e ↦ rw e (Touched-refl i h)
  | inl e ↦ rw e (
      set_txq-Touched h
        (record (set_txq h i (linked (txq_at h i) false)) { hwq = map (removed_from i) h.hwq }) i
        (linked (txq_at h i) false) refl refl refl refl (λ x. e))
]

free_all-txq : (fs : List Frame) (h : Hw) → (free_all fs h).txq ≡ h.txq
free_all-txq [] h = refl
free_all-txq (f ∷ fs) h = free_all-txq fs (emit (kfree_skb f.skb) h)

pub flush-txq :
    (h : Hw) (i : ℕ) → (rwnx_txq_flush h i).txq ≡ set h.txq i (record (txq_at h i) { sk_list = [] })
unfolding rwnx_txq_flush
flush-txq h i =
    free_all-txq (txq_at h i).sk_list (set_txq h i (record (txq_at h i) { sk_list = [] }))

cleared :
    (xs : List Txq) (i : ℕ)
    → (get_or (set xs i (linked (get_or xs i no_txq) false)) i no_txq).status.in_hwq_list ≡ false
cleared [] i = refl
cleared (x ∷ xs) zero = refl
cleared (x ∷ xs) (suc i) = cleared xs i

pub del_unlinks :
    (h : Hw) (i : ℕ) → (txq_at (rwnx_txq_del_from_hw_list h i) i).status.in_hwq_list ≡ false
unfolding rwnx_txq_del_from_hw_list
del_unlinks h i = elim (Bool-cases (txq_at h i).status.in_hwq_list) [
  | inr e ↦ rw (e) e
  | inl e ↦ rw (e) (cleared h.txq i)
]

pub start-length : (h : Hw) (i : ℕ) (r : Reason) → length (rwnx_txq_start h i r).txq ≡ length h.txq
unfolding rwnx_txq_start
start-length h i r =
    let s = mark (txq_at h i).status r false in
    let t : Txq = record (txq_at h i) { status = s } in
    let n = set_txq h i t in
    let b = not (is_stopped s) && not (is_nil (txq_at h i).sk_list) in
    let l = length-set h.txq i t in
    elim (Bool-cases (not ((txq_at h i).idx == txq_inactive) && has (txq_at h i).status r)) [
      | inr e ↦ rw e refl
      | inl e ↦ rw e (elim (Bool-cases b) [ inl f ↦ rw f (add-length n i ∙ l) | inr f ↦ rw f l ])
    ]

pub credits_idx :
    (h : Hw) (i : ℕ) (t : Txq)
    → t.credits ≡ (txq_at h i).credits
    → t.idx ≡ (txq_at h i).idx
    → ((txq_at (set_txq h i t) i).credits ≡ (txq_at h i).credits)
      × ((txq_at (set_txq h i t) i).idx ≡ (txq_at h i).idx)
credits_idx h i t a b = (
  get_or-set_field (λ (x : Txq). x.credits) h.txq i i t no_txq a,
  get_or-set_field (λ (x : Txq). x.idx) h.txq i i t no_txq b,
)

pub add_class :
    (h : Hw) (i : ℕ)
    → ((txq_at (rwnx_txq_add_to_hw_list h i) i).credits ≡ (txq_at h i).credits)
      × ((txq_at (rwnx_txq_add_to_hw_list h i) i).idx ≡ (txq_at h i).idx)
unfolding rwnx_txq_add_to_hw_list
add_class h i = elim (Bool-cases (txq_at h i).status.in_hwq_list) [
  | inl e ↦ rw e (refl, refl)
  | inr e ↦ rw e (credits_idx h i (linked (txq_at h i) true) refl refl)
]

pub start_class :
    (h : Hw) (i : ℕ) (r : Reason)
    → ((txq_at (rwnx_txq_start h i r) i).credits ≡ (txq_at h i).credits)
      × ((txq_at (rwnx_txq_start h i r) i).idx ≡ (txq_at h i).idx)
unfolding rwnx_txq_start
start_class h i r =
    let s = mark (txq_at h i).status r false in
    let t : Txq = record (txq_at h i) { status = s } in
    let n = set_txq h i t in
    let b = not (is_stopped s) && not (is_nil (txq_at h i).sk_list) in
    let l = credits_idx h i t refl refl in
    let a = add_class n i in
    elim (Bool-cases (not ((txq_at h i).idx == txq_inactive) && has (txq_at h i).status r)) [
      | inr e ↦ rw e (refl, refl)
      | inl e ↦ rw e (elim (Bool-cases b) [ inl f ↦ rw f (a.0 ∙ l.0, a.1 ∙ l.1) | inr f ↦ rw f l ])
    ]
