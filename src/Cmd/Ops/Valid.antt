-- ===== src/Cmd/Ops/Valid.antt =====
-- The list of the commands in flight and its counter through every operation but the drain.
use aic8800_linux_driver.Common.{
  ℕ, suc, ◌≤◌, ◌<◌, ◌≡◌, refl, sym, ap, ◌∙◌, ◌⊎◌, inl, inr, Bool, true, false, List, [], ◌∷◌,
  length, length-append, ◌==◌, ==_iff, if◌then◌else◌, arith, Bool-cases, false≢true,
}
use native.Mathlib.Decide.{ℕ_discrete}
use aic8800_linux_driver.Cmd.{
  crashed, CmdMgr, Effect, cmd_at, is_nil, rwnx_cmd_max_queued, wait_complete, rwnx_cmd_free,
  cmd_complete, link,
}
use aic8800_linux_driver.Cmd.Ops.{
  list_del, wait_completed, wait_timed_out, E2aMsg, confirm, is_full, noted, given_up,
}

-- The counter is the length of the list, which is at most sixteen.
pub record IsValid (m : CmdMgr) : Type 0 where
  pub counted : m.queue_sz ≡ length m.cmds
  pub bounded : m.queue_sz ≤ m.max_queue_sz
  pub room : m.max_queue_sz ≡ rwnx_cmd_max_queued

-- The same list, counter and maximum.
pub record SameList (m n : CmdMgr) : Type 0 where
  pub cmds : n.cmds ≡ m.cmds
  pub queue_sz : n.queue_sz ≡ m.queue_sz
  pub max_queue_sz : n.max_queue_sz ≡ m.max_queue_sz

pub SameList-refl : (m : CmdMgr) → SameList m m
SameList-refl m = record { cmds = refl; queue_sz = refl; max_queue_sz = refl }

pub SameList-IsValid : (m n : CmdMgr) → SameList m n → IsValid m → IsValid n
SameList-IsValid m n s w = record {
  counted = s.queue_sz ∙ w.counted ∙ ap length (sym s.cmds);
  bounded = omega (arith, s.queue_sz, s.max_queue_sz, w.bounded);
  room = s.max_queue_sz ∙ w.room;
}

-- What holds of both branches holds of the test.
pub on_branches {κ ℓ} :
    {S : Type ℓ} (Holds : S → Type κ) (test : Bool) {yes_state no_state : S}
    → Holds yes_state
    → Holds no_state
    → Holds (if test then yes_state else no_state)
on_branches Holds true y n = y
on_branches Holds false y n = n

pub by_test {κ ℓ} :
    {S : Type ℓ} (Holds : S → Type κ) (test : Bool) {yes_state no_state : S}
    → (test ≡ true → Holds yes_state)
    → (test ≡ false → Holds no_state)
    → Holds (if test then yes_state else no_state)
by_test Holds true y n = y refl
by_test Holds false y n = n refl

pub cmd_complete-SameList : (m : CmdMgr) (c : ℕ) → SameList m (cmd_complete m c).0
unfolding cmd_complete rwnx_cmd_free
cmd_complete-SameList m c =
    on_branches (λ (r : CmdMgr × List Effect). SameList m r.0) (cmd_at m c).flags.nonblock
      (record { cmds = refl; queue_sz = refl; max_queue_sz = refl })
      (on_branches (λ (r : CmdMgr × List Effect). SameList m r.0) (wait_complete (cmd_at m c).flags)
        (record { cmds = refl; queue_sz = refl; max_queue_sz = refl })
        (record { cmds = refl; queue_sz = refl; max_queue_sz = refl }))

pub cmd_complete-same :
    (m n : CmdMgr) (c : ℕ)
    → n.cmds ≡ m.cmds
    → n.queue_sz ≡ m.queue_sz
    → n.max_queue_sz ≡ m.max_queue_sz
    → SameList m (cmd_complete n c).0
cmd_complete-same m n c a b d =
    let s = cmd_complete-SameList n c in
    record { cmds = s.cmds ∙ a; queue_sz = s.queue_sz ∙ b; max_queue_sz = s.max_queue_sz ∙ d }

pub wait_timed_out-SameList : (m : CmdMgr) (c : ℕ) → SameList m (wait_timed_out m c).0
unfolding wait_timed_out
wait_timed_out-SameList m c =
    on_branches (λ (r : CmdMgr × List Effect). SameList m r.0) (cmd_at m c).flags.is_done
      {yes_state = (record m { state = crashed }, [])} {no_state = cmd_complete (given_up m c) c}
      (record { cmds = refl; queue_sz = refl; max_queue_sz = refl })
      (cmd_complete-same m (given_up m c) c refl refl refl)

pub confirm-SameList : (m : CmdMgr) (msg : E2aMsg) (c : ℕ) → SameList m (confirm m msg c).0
unfolding confirm
confirm-SameList m msg c =
    on_branches (λ (r : CmdMgr × List Effect). SameList m r.0)
      (wait_complete (cmd_at (noted m msg c) c).flags) {yes_state = cmd_complete (noted m msg c) c}
      {no_state = (noted m msg c, [])} (cmd_complete-same m (noted m msg c) c refl refl refl)
      (record { cmds = refl; queue_sz = refl; max_queue_sz = refl })

abbrev pub elem : ℕ → List ℕ → Bool
elem c [] = false
elem c (x ∷ xs) = if x == c then true else elem c xs

pub length-list_del :
    (c : ℕ) (xs : List ℕ) → elem c xs ≡ true → suc (length (list_del c xs)) ≡ length xs
unfolding list_del
length-list_del c [] e = absurd cc
length-list_del c (x ∷ xs) e = elim (Bool-cases (x == c)) [
  | inl h ↦ rw h refl
  | inr h ↦ rw h (ap suc (length-list_del c xs (rw h at e)))
]

pub wait_completed-IsValid :
    (wakes : Bool) (m : CmdMgr) (c : ℕ)
    → elem c m.cmds ≡ true
    → IsValid m
    → IsValid (wait_completed wakes m c).0
unfolding wait_completed rwnx_cmd_free
wait_completed-IsValid wakes m c e w =
    let l = length-list_del c m.cmds e in
    record {
      counted = omega (arith, l, w.counted, w.bounded, w.room);
      bounded = omega (arith, l, w.counted, w.bounded, w.room);
      room = w.room;
    }

nil_or : (xs : List ℕ) → (xs ≡ []) ⊎ (is_nil xs ≡ false)
nil_or [] = inl refl
nil_or (x ∷ xs) = inr refl

not_full : (m : CmdMgr) → is_full m ≡ false → IsValid m → m.queue_sz < m.max_queue_sz
not_full m f w = elim (Bool-cases (m.queue_sz == m.max_queue_sz)) [
  | inl e ↦ elim (nil_or m.cmds) [
    | inl z ↦ omega (arith, w.counted, ap length z, w.room)
    | inr z ↦ absurd (false≢true (sym f ∙ rw (z, e) refl))
  ]
  | inr e ↦ elim (ℕ_discrete m.queue_sz m.max_queue_sz) [
    | yes p ↦ absurd (false≢true (sym e ∙ (==_iff m.queue_sz m.max_queue_sz).1 p))
    | no p ↦ omega (arith, w.bounded)
  ]
]

pub link-IsValid :
    (m : CmdMgr) (c : ℕ) (d : Bool) → is_full m ≡ false → IsValid m → IsValid (link m c d)
unfolding link
link-IsValid m c d f w =
    let l = length-append m.cmds (c ∷ []) in
    let r = not_full m f w in
    record {
      counted = omega (arith, l, r, w.counted, w.room);
      bounded = omega (arith, l, r, w.counted, w.room);
      room = w.room;
    }
