-- ===== src/Cmd/Ops/Run.antt =====
-- The command manager under any interleaving of its callers, its work queue and the firmware.
use aic8800_linux_driver.Common.{
  ℕ, ◌≡◌, refl, inl, inr, Bool, true, false, ◌&&◌, not, Option, none, some, List, [], ◌∷◌, arith,
  Bool-cases, Option-cases,
}
use aic8800_linux_driver.Cmd.{
  Errno, epipe, enomem, RwnxCmd, CmdMgr, Effect, cmd_at, is_crashed, is_nil, wait_complete,
  cmd_complete, link, fail, rwnx_cmd_mgr_init,
}
use aic8800_linux_driver.Cmd.Ops.{
  cmd_mgr_queue_force_defer, cmd_mgr_queue, wait_completed, wait_timed_out, acked, has_buffer,
  push_result, cmd_mgr_task_process, cmd_mgr_llind, E2aMsg, cmd_mgr_msgind, confirmed, confirm,
  is_full, defers, no_ack, push_first,
}
use aic8800_linux_driver.Cmd.Ops.Valid.{
  IsValid, SameList-IsValid, wait_timed_out-SameList, confirm-SameList, elem, cmd_complete-same,
  wait_completed-IsValid, link-IsValid, on_branches,
}

pub fail-IsValid : (m : CmdMgr) (c : ℕ) (e : Errno) → IsValid m → IsValid (fail m c e).1
fail-IsValid m c e w = record { counted = w.counted; bounded = w.bounded; room = w.room }

pub force_defer-IsValid :
    (m : CmdMgr) (c : ℕ) → IsValid m → IsValid (cmd_mgr_queue_force_defer m c).1
unfolding cmd_mgr_queue_force_defer
force_defer-IsValid m c w = elim (Bool-cases (is_crashed m.state)) [
  | inl e ↦ rw e (fail-IsValid m c epipe w)
  | inr e ↦ elim (Bool-cases (is_full m)) [
    | inl f ↦ rw (e, f) (fail-IsValid m c enomem w)
    | inr f ↦ rw (e, f) (link-IsValid m c true f w)
  ]
]

push_result-IsValid : (m : CmdMgr) (c : ℕ) → IsValid m → IsValid (push_result m c)
push_result-IsValid m c w =
    on_branches IsValid (cmd_at m c).flags.nonblock
      (record { counted = w.counted; bounded = w.bounded; room = w.room }) w

pub cmd_mgr_queue-IsValid :
    (is_up : Bool) (m : CmdMgr) (c : ℕ) → IsValid m → IsValid (cmd_mgr_queue is_up m c).1
unfolding cmd_mgr_queue
cmd_mgr_queue-IsValid is_up m c w = elim (Bool-cases (is_crashed m.state)) [
  | inl e ↦ rw e (fail-IsValid m c epipe w)
  | inr e ↦ elim (Bool-cases (has_buffer (cmd_at m c) && not (is_nil m.cmds))) [
    | inl p ↦ rw (e, p) w
    | inr p ↦ elim (Bool-cases (is_full m)) [
      | inl f ↦ rw (e, p, f) (fail-IsValid m c enomem w)
      | inr f ↦ elim (Bool-cases (defers m c)) [
        | inl d ↦ rw (e, p, f, d) (link-IsValid m c true f w)
        | inr d ↦
            rw (e, p, f, d) (push_result-IsValid (link m c false) c (link-IsValid m c false f w))
      ]
    ]
  ]
]

pub llind-IsValid : (m : CmdMgr) (c : ℕ) → IsValid m → IsValid (cmd_mgr_llind m c).0
unfolding cmd_mgr_llind
llind-IsValid m c w = elim (Option-cases (acked m (cmd_at m c).tkn m.cmds)) [
  | inl e ↦ rw (e, cmd_mgr_llind) w
  | inr (a, e) ↦
      rw (e, cmd_mgr_llind)
        (on_branches (λ (r : CmdMgr × List Effect). IsValid r.0)
          (wait_complete (cmd_at (no_ack m c) c).flags) {yes_state = cmd_complete (no_ack m c) c}
          {no_state = (no_ack m c, [])}
          (SameList-IsValid m _ (cmd_complete-same m (no_ack m c) c refl refl refl) w)
          (record { counted = w.counted; bounded = w.bounded; room = w.room }))
]

abbrev pub pushed_or : CmdMgr → Option (ℕ × CmdMgr × List Effect) → CmdMgr
pushed_or m none = m
pushed_or m (some (c, n, es)) = n

push_first-IsValid :
    (is_up : Bool) (m : CmdMgr) (xs : List ℕ)
    → IsValid m
    → IsValid (pushed_or m (push_first is_up m xs))
unfolding push_first
push_first-IsValid is_up m [] w = w
push_first-IsValid is_up m (c ∷ cs) w = elim (Bool-cases (cmd_at m c).flags.wait_push) [
  | inl e ↦ rw e (record { counted = w.counted; bounded = w.bounded; room = w.room })
  | inr e ↦ rw e w
]

pub msgind-IsValid :
    (cb : Option RwnxCmd → E2aMsg → ℕ) (m : CmdMgr) (msg : E2aMsg)
    → IsValid m
    → IsValid (cmd_mgr_msgind cb m msg).1
unfolding cmd_mgr_msgind
msgind-IsValid cb m msg w = elim (Option-cases (confirmed cb m msg m.cmds)) [
  | inl e ↦ rw (e, cmd_mgr_msgind) w
  | inr (c, e) ↦
      rw (e, cmd_mgr_msgind) (SameList-IsValid m (confirm m msg c).0 (confirm-SameList m msg c) w)
]

-- One operation. A wait that ends in time is that of a command in the list.
pub data Step (m : CmdMgr) : CmdMgr → Type 0 where
  defer : (c : ℕ) → Step m (cmd_mgr_queue_force_defer m c).1
  queue : (is_up : Bool) (c : ℕ) → Step m (cmd_mgr_queue is_up m c).1
  completed : (wakes : Bool) (c : ℕ) → elem c m.cmds ≡ true → Step m (wait_completed wakes m c).0
  timed_out : (c : ℕ) → Step m (wait_timed_out m c).0
  push : (is_up : Bool) → Step m (pushed_or m (cmd_mgr_task_process is_up m))
  ack : (c : ℕ) → Step m (cmd_mgr_llind m c).0
  confirm_one :
      (cb : Option RwnxCmd → E2aMsg → ℕ) (msg : E2aMsg) → Step m (cmd_mgr_msgind cb m msg).1

pub Step-IsValid : (m n : CmdMgr) → Step m n → IsValid m → IsValid n
unfolding cmd_mgr_task_process
Step-IsValid m n (defer c) w = force_defer-IsValid m c w
Step-IsValid m n (queue is_up c) w = cmd_mgr_queue-IsValid is_up m c w
Step-IsValid m n (completed wakes c e) w = wait_completed-IsValid wakes m c e w
Step-IsValid m n (timed_out c) w =
    SameList-IsValid m (wait_timed_out m c).0 (wait_timed_out-SameList m c) w
Step-IsValid m n (push is_up) w = push_first-IsValid is_up m m.cmds w
Step-IsValid m n (ack c) w = llind-IsValid m c w
Step-IsValid m n (confirm_one cb msg) w = msgind-IsValid cb m msg w

-- The managers that a run of operations reaches, from rwnx_cmd_mgr_init of a zeroed manager.
pub data Run (m : CmdMgr) : CmdMgr → Type 0 where
  start : Run m (rwnx_cmd_mgr_init m)
  next : (a b : CmdMgr) → Run m a → Step a b → Run m b

-- Whatever callers, the work queue and the firmware do to a fresh manager, in any order and short of a
-- drain, queue_sz is the number of commands in the list, and at most sixteen, provided that a wait
-- ends in time only for a command in the list.
pub Run-IsValid : (m n : CmdMgr) → m.queue_sz ≡ 0 → Run m n → IsValid n
unfolding rwnx_cmd_mgr_init
Run-IsValid m n z start = record { counted = z; bounded = omega (arith, z); room = refl }
Run-IsValid m n z (next a b r s) = Step-IsValid a b s (Run-IsValid m a z r)
