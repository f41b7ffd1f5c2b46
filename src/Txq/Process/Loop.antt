-- ===== src/Txq/Process/Loop.antt =====
-- rwnx_hwq_process ends, and at no BUG_ON.
use aic8800_linux_driver.Common.{
  ℕ, zero, suc, ◌<◌, ◌≡◌, ◌≢◌, refl, sym, ap, ◌∙◌, inl, inr, Bool, true, false, ◌&&◌, ◌||◌, not,
  Option, none, some, List, [], ◌∷◌, get_or, Bool-cases, ◌==◌, arith, false≢true, none≢some,
  some_inj, subst, get_or-set_ne, ==_refl, get_or-set_field, Option-cases,
}
use aic8800_linux_driver.Txq.{
  Frame, Txq, Hwq, Hw, no_txq, no_hwq, txq_at, hwq_at, txq_inactive, is_nil, s8_positive,
}
use aic8800_linux_driver.Txq.Sched.{rwnx_txq_del_from_hw_list, rwnx_txq_flush}
use aic8800_linux_driver.Txq.Sched.Links.{Linked, one, count}
use aic8800_linux_driver.Txq.Sched.Changes.{del-Touched, flush-txq}
use aic8800_linux_driver.Txq.Push.{rwnx_txq_get_skb_to_push}
use aic8800_linux_driver.Txq.Process.{
  set_hwq, is_bug, process_txq, serve, head?, next_of, finished, bug, running, process_from,
  rwnx_hwq_process, go_on,
}
use aic8800_linux_driver.Txq.Process.Changes.{serve-Touched}
use aic8800_linux_driver.Txq.Process.Kept.{process_txq-Linked, set_hwq-Linked}
use aic8800_linux_driver.Txq.Process.Ready.{Ready, drop-Ready, serve-Ready}
use aic8800_linux_driver.Txq.Process.Measure.{backlog, process_txq_less}

member_flags : {n : ℕ} (a b : Bool) → n ≡ one (a && b) → 0 < n → (a ≡ true) × (n ≡ 1)
member_flags true true e l = (refl, e)
member_flags true false e l = absurd (omega (arith, e, l))
member_flags false b e l = absurd (omega (arith, e, l))

-- A queue that a list holds has the flag, and is in the list once.
member_marks :
    (h : Hw) (i k : ℕ)
    → 0 < count i (hwq_at h k).list
    → Linked h
    → ((txq_at h i).status.in_hwq_list ≡ true) × (count i (hwq_at h k).list ≡ 1)
member_marks h i k l w =
    member_flags (txq_at h i).status.in_hwq_list ((txq_at h i).hwq == k) (w.lists i k) l

no_bug_tests :
    (a b c d : Bool)
    → a ≡ true
    → (b ≡ false → (c ≡ true) × (d ≡ false))
    → not a || (not b && (not c || d)) ≡ false
no_bug_tests true true c d e k = refl
no_bug_tests true false c d e k = let p = k refl in rw (p.0, p.1) refl
no_bug_tests false b c d e k = absurd (false≢true e)

some_frames : (xs : List Frame) → xs ≢ [] → is_nil xs ≡ false
some_frames [] ne = absurd (ne refl)
some_frames (x ∷ xs) ne = refl

test_ne : (a b : ℕ) → (a == b) ≡ false → a ≢ b
test_ne a b e z = ground arith

-- No round on a member stops at a BUG_ON.
round_no_bug :
    (h : Hw) (i : ℕ)
    → (txq_at h i).status.in_hwq_list ≡ true
    → Ready h
    → is_bug (txq_at h i) ≡ false
round_no_bug h i m w =
    let t = txq_at h i in
    no_bug_tests t.status.in_hwq_list (t.idx == txq_inactive) (s8_positive t.credits)
      (is_nil t.sk_list) m
      (λ e.
        let a = test_ne t.idx txq_inactive e in
        (w.credits i m a, some_frames t.sk_list (w.frames i m a)))

-- What a round on queue `i` keeps.
record Round (h n : Hw) (k i : ℕ) : Type 0 where
  result : process_txq h k i ≡ some n
  ready : Ready n
  others : (j : ℕ) → i ≢ j → txq_at n j ≡ txq_at h j

Round-total :
    (h : Hw) (k i : ℕ) → (txq_at h i).status.in_hwq_list ≡ true → Ready h → (n : Hw) × Round h n k i
unfolding process_txq
Round-total h k i m w =
    let b = round_no_bug h i m w in
    elim (Bool-cases ((txq_at h i).idx == txq_inactive)) [
      | inl a ↦
          let d = rwnx_txq_del_from_hw_list h i in
          let t : Txq = record (txq_at d i) { sk_list = [] } in
          (
            rwnx_txq_flush d i,
            record {
              result = rw (b, a) refl;
              ready = drop-Ready h i w;
              others = λ j ne.
                  ap (λ x. get_or x j no_txq) (flush-txq d i)
                  ∙ get_or-set_ne d.txq i j t no_txq ne
                  ∙ (del-Touched h i).others j ne;
            },
          )
      | inr a ↦
          let t : Txq = record (txq_at h i) {
            sk_list = (rwnx_txq_get_skb_to_push (txq_at h i)).1;
          } in
          (
            serve h k i,
            record {
              result = rw (b, a) refl;
              ready = serve-Ready h k i m w;
              others =
                  λ j ne. (serve-Touched h k i).others j ne ∙ get_or-set_ne h.txq i j t no_txq ne;
            },
          )
    ]

next_is_head :
    (i j x : ℕ) (xs : List ℕ)
    → count i (x ∷ xs) ≡ 1
    → (x == i) ≡ true
    → head? xs ≡ some j
    → (0 < count j (x ∷ xs)) × (i ≢ j)
next_is_head i j x [] c t e = absurd (none≢some e)
next_is_head i j x (y ∷ xs) c t e =
    let z = some_inj e in
    (
      rw (← z, ==_refl y) (omega arith),
      λ p.
          let t2 : (y == i) ≡ true = rw (z, p) (==_refl j) in
          absurd (omega (arith, c, ap one t, ap one t2)),
    )

-- The node to go on with is in the list, and is another one.
next_of_member :
    (i j : ℕ) (xs : List ℕ) → count i xs ≡ 1 → next_of i xs ≡ some j → (0 < count j xs) × (i ≢ j)
unfolding next_of
next_of_member i j [] c e = absurd (none≢some e)
next_of_member i j (x ∷ xs) c e = elim (Bool-cases (x == i)) [
  | inl t ↦ next_is_head i j x xs c t (rw (t) at e)
  | inr f ↦
      let r = next_of_member i j xs (omega (arith, c, ap one f)) (rw (f) at e) in
      (omega (arith, r.0), r.1)
]

Member : Hw → ℕ → Option ℕ → Type 0
Member h k none = Unit
Member h k (some i) = 0 < count i (hwq_at h k).list

-- Queue `j` stays in the list when a round changes another queue.
still_member :
    (h n : Hw) (k j : ℕ)
    → txq_at n j ≡ txq_at h j
    → Linked h
    → Linked n
    → 0 < count j (hwq_at h k).list
    → 0 < count j (hwq_at n k).list
still_member h n k j e w v l =
    omega
      (arith, l, w.lists j k, v.lists j k, ap (λ t. one (t.status.in_hwq_list && (t.hwq == k))) e)

next-Member :
    (h n : Hw) (k i : ℕ) (o : Option ℕ)
    → next_of i (hwq_at h k).list ≡ o
    → count i (hwq_at h k).list ≡ 1
    → ((j : ℕ) → i ≢ j → txq_at n j ≡ txq_at h j)
    → Linked h
    → Linked n
    → Member n k o
unfolding Member
next-Member h n k i none e c o w v = tt
next-Member h n k i (some j) e c o w v =
    let m = next_of_member i j (hwq_at h k).list c e in still_member h n k j (o j m.1) w v m.0

one_round :
    (fuel : ℕ) (h n : Hw) (k i : ℕ)
    → process_txq h k i ≡ some n
    → process_from (suc fuel) h k (some i) ≡ process_from fuel n k (next_of i (hwq_at h k).list)
unfolding process_from
one_round fuel h n k i e =
    ap (λ x. go_on x (λ m. process_from fuel m k (next_of i (hwq_at h k).list))) e

process_from_ends :
    (fuel : ℕ) (h : Hw) (k : ℕ) (o : Option ℕ)
    → Linked h
    → Ready h
    → Member h k o
    → backlog h.txq < fuel
    → (n : Hw) × (process_from fuel h k o ≡ finished n) × Linked n × Ready n
unfolding process_from Member
process_from_ends zero h k none w r m l = absurd (omega (arith, l))
process_from_ends zero h k (some i) w r m l = absurd (omega (arith, l))
process_from_ends (suc fuel) h k none w r m l = (h, refl, w, r)
process_from_ends (suc fuel) h k (some i) w r m l =
    let f = member_marks h i k m w in
    let (n, p) = Round-total h k i f.0 r in
    let v = process_txq-Linked h n k i p.result w in
    let next = next_of i (hwq_at h k).list in
    let rest =
      process_from_ends fuel n k next v p.ready (next-Member h n k i next refl f.1 p.others w v)
        (omega (arith, process_txq_less h n k i p.result, l)) in
    (rest.0, one_round fuel h n k i p.result ∙ rest.1, rest.2, rest.3)

head_member : (i : ℕ) (xs : List ℕ) → head? xs ≡ some i → 0 < count i xs
head_member i [] e = absurd (none≢some e)
head_member i (x ∷ xs) e = rw (some_inj e, ==_refl i) (omega arith)

first-Member : (h : Hw) (k : ℕ) (o : Option ℕ) → head? (hwq_at h k).list ≡ o → Member h k o
unfolding Member
first-Member h k none e = tt
first-Member h k (some i) e = head_member i (hwq_at h k).list e

-- With more fuel than there are frames in all the queues and queues in the lists, the processing of a
-- hardware queue ends and stops at no BUG_ON, if each queue in a list has the flag of its list, and frames
-- and positive credits unless it is out of use; and all this holds of the state that it leaves.
pub rwnx_hwq_process-finished :
    (fuel : ℕ) (h : Hw) (k : ℕ)
    → Linked h
    → Ready h
    → backlog h.txq < fuel
    → (n : Hw) × (rwnx_hwq_process fuel h k ≡ finished n) × Linked n × Ready n
unfolding rwnx_hwq_process
rwnx_hwq_process-finished fuel h k w r l =
    let q = hwq_at h k in
    let a = set_hwq h k (record q { need_processing = false }) in
    let v = set_hwq-Linked h k (record q { need_processing = false }) (λ i. refl) w in
    let o =
      get_or-set_field (λ (x : Hwq). x.list) h.hwq k k (record q { need_processing = false }) no_hwq
        refl in
    process_from_ends fuel a k (head? q.list) v (record { credits = r.credits; frames = r.frames })
      (first-Member a k (head? q.list) (ap head? o)) l

finished_inj : {a b : Hw} → finished a ≡ finished b → a ≡ b
finished_inj e = cc

running≢finished : {a b : Hw} → running a ≢ finished b
running≢finished e = cc

bug≢finished : {a : Hw} → bug ≢ finished a
bug≢finished e = cc

process_from-Linked :
    (fuel : ℕ) (h n : Hw) (k : ℕ) (o : Option ℕ)
    → process_from fuel h k o ≡ finished n
    → Linked h
    → Linked n
unfolding process_from
process_from-Linked zero h n k none e w = subst Linked (finished_inj e) w
process_from-Linked (suc fuel) h n k none e w = subst Linked (finished_inj e) w
process_from-Linked zero h n k (some i) e w = absurd (running≢finished e)
process_from-Linked (suc fuel) h n k (some i) e w = elim (Option-cases (process_txq h k i)) [
  | inl p ↦ absurd (
      bug≢finished
        (sym (ap (λ x. go_on x (λ m. process_from fuel m k (next_of i (hwq_at h k).list))) p) ∙ e))
  | inr (m, p) ↦
      process_from-Linked fuel m n k (next_of i (hwq_at h k).list)
        (sym (one_round fuel h m k i p) ∙ e) (process_txq-Linked h m k i p w)
]

pub hwq_process-Linked :
    (fuel : ℕ) (h n : Hw) (k : ℕ) → rwnx_hwq_process fuel h k ≡ finished n → Linked h → Linked n
unfolding rwnx_hwq_process
hwq_process-Linked fuel h n k e w =
    let q : Hwq = record (hwq_at h k) { need_processing = false } in
    process_from-Linked fuel (set_hwq h k q) n k (head? (hwq_at h k).list) e
      (set_hwq-Linked h k q (λ i. refl) w)
