-- ===== src/Txq/Process/Measure.antt =====
-- Each round of rwnx_hwq_process leaves less to do: fewer frames, or fewer queues in the lists.
use aic8800_linux_driver.Common.{
  ℕ, zero, suc, ◌+◌, ◌<◌, ◌≤◌, ◌≡◌, ◌≢◌, refl, sym, ap, ◌∙◌, inl, inr, Bool, true, false, ◌&&◌,
  ◌||◌, not, none, some, List, [], ◌∷◌, length, length-set, get_or, get_or-set_self, get_or-set_ne,
  Bool-cases, ◌==◌, arith, false≢true, none≢some, some_inj, subst,
}
use aic8800_linux_driver.Txq.{Frame, Txq, Hw, no_txq, txq_at, txq_inactive, is_nil, s8_positive}
use aic8800_linux_driver.Txq.Sched.{rwnx_txq_del_from_hw_list, rwnx_txq_flush}
use aic8800_linux_driver.Txq.Sched.Links.{one, in_range}
use aic8800_linux_driver.Txq.Sched.Changes.{del-Touched, del_unlinks, flush-txq}
use aic8800_linux_driver.Txq.Push.{rwnx_txq_get_skb_to_push}
use aic8800_linux_driver.Txq.Push.Order.{get_skb_to_push_split, get_credits_positive}
use aic8800_linux_driver.Txq.Process.{is_bug, process_txq, serve}
use aic8800_linux_driver.Txq.Process.Changes.{serve-Touched}

abbrev pub weight : Txq → ℕ
weight t = length t.sk_list + one t.status.in_hwq_list

-- The frames that wait, and the queues in the lists.
abbrev pub backlog : List Txq → ℕ
backlog [] = 0
backlog (t ∷ ts) = weight t + backlog ts

pred_ne : (i j : ℕ) → i ≢ j → suc i ≢ suc j
pred_ne i j ne e = ne (omega (arith, e))

same_backlog :
    (xs ys : List Txq)
    → length ys ≡ length xs
    → ((j : ℕ) → get_or ys j no_txq ≡ get_or xs j no_txq)
    → backlog ys ≡ backlog xs
same_backlog [] [] e o = refl
same_backlog [] (y ∷ ys) e o = absurd (omega (arith, e))
same_backlog (x ∷ xs) [] e o = absurd (omega (arith, e))
same_backlog (x ∷ xs) (y ∷ ys) e o =
    omega (arith, ap weight (o 0), same_backlog xs ys (omega (arith, e)) (λ j. o (suc j)))

less_backlog :
    (i : ℕ) (xs ys : List Txq)
    → length ys ≡ length xs
    → ((j : ℕ) → i ≢ j → get_or ys j no_txq ≡ get_or xs j no_txq)
    → weight (get_or ys i no_txq) < weight (get_or xs i no_txq)
    → backlog ys < backlog xs
less_backlog i [] [] e o l = absurd (omega (arith, l))
less_backlog i [] (y ∷ ys) e o l = absurd (omega (arith, e))
less_backlog i (x ∷ xs) [] e o l = absurd (omega (arith, e))
less_backlog zero (x ∷ xs) (y ∷ ys) e o l = omega (
  arith,
  l,
  same_backlog xs ys (omega (arith, e)) (λ j. o (suc j) (λ z. absurd (omega (arith, z)))),
)
less_backlog (suc i) (x ∷ xs) (y ∷ ys) e o l = omega (
  arith,
  ap weight (o 0 (λ z. absurd (omega (arith, z)))),
  less_backlog i xs ys (omega (arith, e)) (λ j ne. o (suc j) (pred_ne i j ne)) l,
)

one_le : (a b : Bool) → (a ≡ true → b ≡ true) → one a ≤ one b
one_le true b k = rw (k refl) (omega arith)
one_le false b k = omega arith

tests :
    (a b c d : Bool)
    → not a || (not b && (not c || d)) ≡ false
    → (a ≡ true) × (b ≡ false → (c ≡ true) × (d ≡ false))
tests true true c d e = (refl, λ z. absurd (false≢true (sym z)))
tests true false true true e = absurd (false≢true (sym e))
tests true false true false e = (refl, λ z. (refl, refl))
tests true false false d e = absurd (false≢true (sym e))
tests false b c d e = absurd (false≢true (sym e))

not_nil : (xs : List Frame) → is_nil xs ≡ false → xs ≢ []
not_nil xs e z = absurd (false≢true (sym e ∙ ap is_nil z))

ne_test : (a b : ℕ) → a ≢ b → (a == b) ≡ false
ne_test a b ne = ground arith

pub no_bug :
    (t : Txq)
    → is_bug t ≡ false
    → (t.status.in_hwq_list ≡ true)
      × (t.idx ≢ txq_inactive → (s8_positive t.credits ≡ true) × (t.sk_list ≢ []))
no_bug t e =
    let r =
      tests t.status.in_hwq_list (t.idx == txq_inactive) (s8_positive t.credits) (is_nil t.sk_list)
        e in
    (r.0, λ ne. let p = r.1 (ne_test t.idx txq_inactive ne) in (p.0, not_nil t.sk_list p.1))

-- A queue that is served has fewer frames after.
serve_less :
    (h : Hw) (k i : ℕ)
    → is_bug (txq_at h i) ≡ false
    → (txq_at h i).idx ≢ txq_inactive
    → backlog (serve h k i).txq < backlog h.txq
serve_less h k i b a =
    let t = txq_at h i in
    let c = no_bug t b in
    let g = c.1 a in
    let split = get_skb_to_push_split t (get_credits_positive t g.0) g.1 in
    let rest = (rwnx_txq_get_skb_to_push t).1 in
    let w : Txq = record t { sk_list = rest } in
    let p = serve-Touched h k i in
    less_backlog i h.txq (serve h k i).txq (p.size ∙ length-set h.txq i w)
      (λ j ne. p.others j ne ∙ get_or-set_ne h.txq i j w no_txq ne)
      (omega (
        arith,
        split.1,
        ap length (
            p.frames
            ∙ ap (λ x. x.sk_list) (get_or-set_self h.txq i w no_txq (in_range h.txq i c.0))),
        one_le (txq_at (serve h k i) i).status.in_hwq_list t.status.in_hwq_list (λ e. c.0),
      ))

drop_less :
    (h : Hw) (i : ℕ)
    → (txq_at h i).status.in_hwq_list ≡ true
    → backlog (rwnx_txq_flush (rwnx_txq_del_from_hw_list h i) i).txq < backlog h.txq
drop_less h i m =
    let d = rwnx_txq_del_from_hw_list h i in
    let n = rwnx_txq_flush d i in
    let p = del-Touched h i in
    let w : Txq = record (txq_at d i) { sk_list = [] } in
    let f = flush-txq d i in
    less_backlog i h.txq n.txq (ap length f ∙ length-set d.txq i w ∙ p.size)
      (λ j ne. ap (λ x. get_or x j no_txq) f ∙ get_or-set_ne d.txq i j w no_txq ne ∙ p.others j ne)
      (omega (
        arith,
        ap weight (
            ap (λ x. get_or x i no_txq) f
            ∙ get_or-set_self d.txq i w no_txq (omega (arith, p.size, in_range h.txq i m))),
        ap one (del_unlinks h i),
        ap one m,
      ))

test_ne : (a b : ℕ) → (a == b) ≡ false → a ≢ b
test_ne a b e z = ground arith

-- A round of the loop that does not stop at a BUG_ON.
pub process_txq_less :
    (h n : Hw) (k i : ℕ) → process_txq h k i ≡ some n → backlog n.txq < backlog h.txq
unfolding process_txq
process_txq_less h n k i e = elim (Bool-cases (is_bug (txq_at h i))) [
  | inl b ↦ absurd (none≢some (rw (b) at e))
  | inr b ↦ elim (Bool-cases ((txq_at h i).idx == txq_inactive)) [
    | inl a ↦
        let x = rwnx_txq_flush (rwnx_txq_del_from_hw_list h i) i in
        subst (λ y. backlog y.txq < backlog h.txq) (some_inj (rw (b, a) at e))
          (drop_less h i (no_bug (txq_at h i) b).0)
    | inr a ↦
        subst (λ y. backlog y.txq < backlog h.txq) (some_inj (rw (b, a) at e))
          (serve_less h k i b (test_ne (txq_at h i).idx txq_inactive a))
  ]
]

any_bug : (a b c d : Bool) → b ≡ false → c ≡ false → not a || (not b && (not c || d)) ≡ true
any_bug true b c d e f = rw (e, f) refl
any_bug false b c d e f = refl

-- A queue in use without credits.
pub no_credits_bug :
    (h : Hw) (k i : ℕ)
    → (txq_at h i).idx ≢ txq_inactive
    → s8_positive (txq_at h i).credits ≡ false
    → process_txq h k i ≡ none
unfolding process_txq
no_credits_bug h k i a c =
    let t = txq_at h i in
    let b =
      any_bug t.status.in_hwq_list (t.idx == txq_inactive) (s8_positive t.credits)
        (is_nil t.sk_list) (ne_test t.idx txq_inactive a) c in
    rw (b) refl
