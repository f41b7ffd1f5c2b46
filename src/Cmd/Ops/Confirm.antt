-- ===== src/Cmd/Ops/Confirm.antt =====
-- cmd_mgr_msgind: the command that a message of the firmware reaches, and no other.
use aic8800_linux_driver.Common.{
  set-set, All-inside, subst, ℕ, ◌<◌, ◌≡◌, refl, sym, ap, ◌∙◌, inl, inr, Bool, true, false, Option,
  none, some, List, [], ◌∷◌, ◌++◌, length, get_or-set_self, All, Bool-cases, Option-cases,
  false≢true,
}
use aic8800_linux_driver.Cmd.{
  RwnxCmd, no_cmd, marked_done, woken, CmdMgr, Effect, cmd_at, set_cmd, wait_complete,
  rwnx_cmd_free, cmd_complete,
}
use aic8800_linux_driver.Cmd.Ops.{E2aMsg, matches, confirmed, noted, fill, confirm, cmd_mgr_msgind}
use aic8800_linux_driver.Cmd.Ops.Valid.{by_test}

-- The first command of the list that waits for the message and whose callback accepts it.
pub record FirstMatch (cb : Option RwnxCmd → E2aMsg → ℕ) (m : CmdMgr) (msg : E2aMsg) (xs : List ℕ)
    (c : ℕ) : Type 0 where
  pub before : List ℕ
  pub behind : List ℕ
  pub split : xs ≡ before ++ (c ∷ behind)
  pub passed : All (λ d. matches cb m msg d ≡ false) before
  pub match : matches cb m msg c ≡ true

abbrev pub Found : (Option RwnxCmd → E2aMsg → ℕ) → CmdMgr → E2aMsg → List ℕ → Option ℕ → Type 0
Found cb m msg xs none = All (λ d. matches cb m msg d ≡ false) xs
Found cb m msg xs (some c) = FirstMatch cb m msg xs c

Found-behind :
    (cb : Option RwnxCmd → E2aMsg → ℕ) (m : CmdMgr) (msg : E2aMsg) (x : ℕ) (xs : List ℕ)
    (o : Option ℕ)
    → matches cb m msg x ≡ false
    → Found cb m msg xs o
    → Found cb m msg (x ∷ xs) o
Found-behind cb m msg x xs none e f = (e, f)
Found-behind cb m msg x xs (some c) e f = record {
  before = x ∷ f.before;
  behind = f.behind;
  split = ap (λ l. x ∷ l) f.split;
  passed = (e, f.passed);
  match = f.match;
}

pub confirmed-Found :
    (cb : Option RwnxCmd → E2aMsg → ℕ) (m : CmdMgr) (msg : E2aMsg) (xs : List ℕ)
    → Found cb m msg xs (confirmed cb m msg xs)
unfolding confirmed
confirmed-Found cb m msg [] = tt
confirmed-Found cb m msg (x ∷ xs) = elim (Bool-cases (matches cb m msg x)) [
  | inl e ↦ rw e (record { before = []; behind = xs; split = refl; passed = tt; match = e })
  | inr e ↦
      rw e (Found-behind cb m msg x xs (confirmed cb m msg xs) e (confirmed-Found cb m msg xs))
]

-- The command with its confirmation.
abbrev pub confirmed_cmd : CmdMgr → E2aMsg → ℕ → RwnxCmd
confirmed_cmd m msg c =
    let x = cmd_at m c in
    record x { flags = record x.flags { wait_cfm = false }; e2a_msg = fill x.e2a_msg msg.param }

set_cmd_self :
    (m : CmdMgr) (c : ℕ) (v : RwnxCmd) → c < length m.cmd_array → cmd_at (set_cmd m c v) c ≡ v
set_cmd_self m c v h = get_or-set_self m.cmd_array c v no_cmd h

-- A blocking command that waits for nothing more is woken up, and nothing else changes.
pub cmd_complete-wakes :
    (m : CmdMgr) (c : ℕ)
    → (cmd_at m c).flags.nonblock ≡ false
    → wait_complete (cmd_at m c).flags ≡ true
    → (cmd_complete m c).0 ≡ set_cmd m c (woken (marked_done (cmd_at m c)))
unfolding cmd_complete rwnx_cmd_free
cmd_complete-wakes m c n w =
    let y = set_cmd m c (woken (marked_done (cmd_at m c))) in
    by_test (λ (r : CmdMgr × List Effect). r.0 ≡ y) (cmd_at m c).flags.nonblock
      (λ e. absurd (false≢true (sym n ∙ e)))
      (λ _.
        by_test (λ (r : CmdMgr × List Effect). r.0 ≡ y) (wait_complete (cmd_at m c).flags)
          (λ _. refl) (λ e. absurd (false≢true (sym e ∙ w))))

set_cmd_twice : (m : CmdMgr) (c : ℕ) (u v : RwnxCmd) → set_cmd (set_cmd m c u) c v ≡ set_cmd m c v
set_cmd_twice m c u v = ap (λ a. record m { cmd_array = a }) (set-set m.cmd_array c u v)

-- A command in the array that blocks and does not wait for an acknowledgement.
abbrev pub Blocking : CmdMgr → ℕ → Type 0
Blocking m c =
    (c < length m.cmd_array)
    × ((cmd_at m c).flags.nonblock ≡ false)
    × ((cmd_at m c).flags.wait_ack ≡ false)

pub confirm-wakes :
    (m : CmdMgr) (msg : E2aMsg) (c : ℕ)
    → Blocking m c
    → (confirm m msg c).0 ≡ set_cmd m c (woken (marked_done (confirmed_cmd m msg c)))
unfolding confirm
confirm-wakes m msg c (h, n, a) =
    let v = confirmed_cmd m msg c in
    let k = noted m msg c in
    let s = set_cmd_self m c v h in
    let w : wait_complete (cmd_at k c).flags ≡ true = rw (s, a) refl in
    let b : (cmd_at k c).flags.nonblock ≡ false = rw (s, n) refl in
    by_test (λ (r : CmdMgr × List Effect). r.0 ≡ set_cmd m c (woken (marked_done v)))
      (wait_complete (cmd_at k c).flags) {yes_state = cmd_complete k c} {no_state = (k, [])}
      (λ _.
        cmd_complete-wakes k c b w
        ∙ ap (λ x. set_cmd k c (woken (marked_done x))) s
        ∙ set_cmd_twice m c v (woken (marked_done v)))
      (λ e. absurd (false≢true (sym e ∙ w)))

-- What a message did: no command of the list waits for it and nothing changed, or the first one that
-- does has its confirmation and is woken up, and nothing else changed.
abbrev pub Indicated :
    (Option RwnxCmd → E2aMsg → ℕ) → CmdMgr → E2aMsg → Bool × CmdMgr × List Effect → Type 0
Indicated cb m msg (false, n, es) = Found cb m msg m.cmds none × (n ≡ m)
Indicated cb m msg (true, n, es) =
    (c : ℕ) × FirstMatch cb m msg m.cmds c
    × (n ≡ set_cmd m c (woken (marked_done (confirmed_cmd m msg c))))

FirstMatch-Blocking :
    (cb : Option RwnxCmd → E2aMsg → ℕ) (m : CmdMgr) (msg : E2aMsg) (c : ℕ)
    → All (Blocking m) m.cmds
    → FirstMatch cb m msg m.cmds c
    → Blocking m c
FirstMatch-Blocking cb m msg c a f =
    All-inside (Blocking m) f.before c f.behind (subst (All (Blocking m)) f.split a)

-- When all commands in flight block and wait for no acknowledgement, cmd_mgr_msgind confirms the
-- first command of the list that waits for the message and whose callback accepts it: it stores the
-- confirmation in the buffer of that command, marks it done and wakes its waiter with the result 0,
-- and changes no other command. If there is none, it changes nothing.
pub cmd_mgr_msgind-Indicated :
    (cb : Option RwnxCmd → E2aMsg → ℕ) (m : CmdMgr) (msg : E2aMsg)
    → All (Blocking m) m.cmds
    → Indicated cb m msg (cmd_mgr_msgind cb m msg)
unfolding cmd_mgr_msgind
cmd_mgr_msgind-Indicated cb m msg a =
    let f = confirmed-Found cb m msg m.cmds in
    elim (Option-cases (confirmed cb m msg m.cmds)) [
      | inl e ↦ rw (e, cmd_mgr_msgind) (rw e at f, refl)
      | inr (c, e) ↦
          let g : FirstMatch cb m msg m.cmds c = rw e at f in
          rw (e, cmd_mgr_msgind) (c, g, confirm-wakes m msg c (FirstMatch-Blocking cb m msg c a g))
    ]
