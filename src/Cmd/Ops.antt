-- ===== src/Cmd/Ops.antt =====
-- The operations of the command manager (rwnx_cmds.c): queueing, the two ways in which a wait ends,
-- the work queue, the confirmation by the firmware, and draining.
pub mod Valid
pub mod Run
pub mod Confirm
mod Tests
use aic8800_linux_driver.Common.{
  ℕ, zero, suc, ◌+◌, ◌-◌, ◌%◌, Bool, true, false, ◌&&◌, ◌||◌, not, Option, none, some, List, [],
  ◌∷◌, ◌++◌, length, get_or, set, leb, ltb, ◌==◌, if◌then◌else◌, u32_mod,
}
use aic8800_linux_driver.Cmd.{
  LmacMsg, Flags, Errno, ok, eintr, epipe, enomem, etimedout, RwnxCmd, MgrState, deinit, crashed,
  CmdMgr, Effect, wakeup_lock, wakeup_unlock, wake_cmd_work, kfree, rwnx_cmd_e2amsg_len_max, no_cmd,
  cmd_at, set_cmd, is_crashed, is_nil, wait_complete, tx, rwnx_cmd_free, cmd_complete, link, Queued,
  refused, polling, pushed, deferred, fail, rwnx_cmd_malloc,
}

abbrev pub is_full : CmdMgr → Bool
is_full m = not (is_nil m.cmds) && (m.queue_sz == m.max_queue_sz)

abbrev lock_if_first : CmdMgr → List Effect
lock_if_first m = if m.queue_sz == 0 then wakeup_lock ∷ [] else []

pub cmd_mgr_queue_force_defer : CmdMgr → ℕ → Queued × CmdMgr × List Effect
unfolding link
cmd_mgr_queue_force_defer m c =
    if is_crashed m.state
    then fail m c epipe
    else if is_full m
    then fail m c enomem
    else (deferred, link m c true, lock_if_first m ++ (wake_cmd_work ∷ []))

abbrev pub last_or : ℕ → List ℕ → ℕ
last_or d [] = d
last_or d (x ∷ xs) = last_or x xs

abbrev pub waits : Flags → Bool
waits f = f.wait_ack || (f.wait_push || f.wait_cfm)

-- ME_TRAFFIC_IND_REQ and MM_SET_ARPOFFLOAD_REQ
abbrev pub always_deferred : ℕ → Bool
always_deferred id = (id == 5132) || (id == 97)

-- `defer_push`: the last command in flight still waits, or the message is always deferred.
abbrev pub defers : CmdMgr → ℕ → Bool
defers m c =
    (not (is_nil m.cmds) && waits (cmd_at m (last_or 0 m.cmds)).flags)
    || always_deferred (cmd_at m c).a2e_msg.id

abbrev has_buffer : RwnxCmd → Bool
has_buffer x = elim x.e2a_msg [ none ↦ false | some b ↦ true ]

-- A command that is pushed and does not block has its result at once.
abbrev pub push_result : CmdMgr → ℕ → CmdMgr
push_result m c =
    if (cmd_at m c).flags.nonblock then set_cmd m c (record (cmd_at m c) { result = ok }) else m

-- cmd_mgr_queue up to its wait. A command with a buffer is polled until the list is empty.
pub cmd_mgr_queue : Bool → CmdMgr → ℕ → Queued × CmdMgr × List Effect
unfolding link tx
cmd_mgr_queue is_up m c =
    let x = cmd_at m c in
    let put = link m c (defers m c) in
    let work = if leb put.queue_sz 1 then wake_cmd_work ∷ [] else [] in
    if is_crashed m.state
    then fail m c epipe
    else if has_buffer x && not (is_nil m.cmds)
    then (polling, m, [])
    else if is_full m
    then fail m c enomem
    else if defers m c
    then (deferred, put, lock_if_first m ++ work)
    else (
      pushed,
      push_result put c,
      lock_if_first m ++ (tx is_up x.a2e_msg ++ (kfree x.a2e_msg ∷ [])),
    )

-- list_del: the first occurrence of a command leaves the list.
pub list_del : ℕ → List ℕ → List ℕ
list_del c [] = []
list_del c (x ∷ xs) = let rest = list_del c xs in if x == c then xs else x ∷ rest

abbrev pub unlinked : CmdMgr → ℕ → CmdMgr
unlinked m c = record m {
  cmds = list_del c m.cmds;
  queue_sz = (m.queue_sz + (u32_mod - 1)) % u32_mod;
}

abbrev unlock_if_last : CmdMgr → List Effect
unlock_if_last m = if m.queue_sz == 0 then wakeup_unlock ∷ [] else []

-- The wait ended in time. `wakes` is whether the work queue is to be woken for the commands left: in
-- cmd_mgr_queue when the device is up, in cmd_mgr_task_process never, as its loop goes on.
pub wait_completed : Bool → CmdMgr → ℕ → CmdMgr × List Effect
unfolding list_del rwnx_cmd_free
wait_completed wakes m c =
    let n = unlinked m c in
    (
      rwnx_cmd_free n c,
      unlock_if_last n ++ (if wakes && not (is_nil n.cmds) then wake_cmd_work ∷ [] else []),
    )

abbrev pub given_up : CmdMgr → ℕ → CmdMgr
given_up m c = set_cmd (record m { state = crashed }) c (record (cmd_at m c) { result = etimedout })

-- The wait timed out: the manager is crashed for good, and the command stays in the list.
pub wait_timed_out : CmdMgr → ℕ → CmdMgr × List Effect
unfolding cmd_complete
wait_timed_out m c =
    if (cmd_at m c).flags.is_done
    then (record m { state = crashed }, [])
    else cmd_complete (given_up m c) c

-- The first command of the list, if it waits to be pushed.
pub push_first : Bool → CmdMgr → List ℕ → Option (ℕ × CmdMgr × List Effect)
unfolding tx
push_first is_up m [] = none
push_first is_up m (c ∷ cs) =
    let x = cmd_at m c in
    let n = set_cmd m c (record x { flags = record x.flags { wait_push = false } }) in
    if x.flags.wait_push then some (c, n, tx is_up x.a2e_msg ++ (kfree x.a2e_msg ∷ [])) else none

-- One round of cmd_mgr_task_process up to its wait.
pub cmd_mgr_task_process : Bool → CmdMgr → Option (ℕ × CmdMgr × List Effect)
unfolding push_first
cmd_mgr_task_process is_up m = push_first is_up m m.cmds

-- The search of cmd_mgr_llind: the first command in flight with this token, unless one that waits to
-- be pushed comes before it, where the loop ends.
pub acked : CmdMgr → ℕ → List ℕ → Option ℕ
acked m t [] = none
acked m t (c ∷ cs) =
    let rest = acked m t cs in
    if (cmd_at m c).tkn == t then some c else if (cmd_at m c).flags.wait_push then none else rest

abbrev pub no_ack : CmdMgr → ℕ → CmdMgr
no_ack m c =
    let x = cmd_at m c in set_cmd m c (record x { flags = record x.flags { wait_ack = false } })

pub cmd_mgr_llind : CmdMgr → ℕ → CmdMgr × List Effect
unfolding acked cmd_complete
cmd_mgr_llind m c = elim (acked m (cmd_at m c).tkn m.cmds) [
  | none ↦ (m, [])
  | some a ↦
      if wait_complete (cmd_at (no_ack m c) c).flags
      then cmd_complete (no_ack m c) c
      else (no_ack m c, [])
]

-- A message of the firmware; the callback is a parameter, with the result that it gives for a command
-- (`none` for a message that no command waits for), 0 for a confirmation.
pub record E2aMsg : Type 0 where
  pub id : ℕ
  pub param : List ℕ

abbrev pub matches : (Option RwnxCmd → E2aMsg → ℕ) → CmdMgr → E2aMsg → ℕ → Bool
matches cb m msg c =
    let x = cmd_at m c in ((x.reqid == msg.id) && x.flags.wait_cfm) && (cb (some x) msg == 0)

-- The command that the loop of cmd_mgr_msgind stops at.
pub confirmed : (Option RwnxCmd → E2aMsg → ℕ) → CmdMgr → E2aMsg → List ℕ → Option ℕ
confirmed cb m msg [] = none
confirmed cb m msg (c ∷ cs) =
    let rest = confirmed cb m msg cs in if matches cb m msg c then some c else rest

abbrev pub take : ℕ → List ℕ → List ℕ
take zero xs = []
take (suc n) [] = []
take (suc n) (x ∷ xs) = x ∷ take n xs

abbrev pub drop : ℕ → List ℕ → List ℕ
drop zero xs = xs
drop (suc n) [] = []
drop (suc n) (x ∷ xs) = drop n xs

-- memcpy of a confirmation over the front of the caller's buffer. A confirmation longer than the buffer
-- makes the buffer longer here; the source writes past its end.
abbrev pub fill : Option (List ℕ) → List ℕ → Option (List ℕ)
fill none p = none
fill (some b) p = let q = take rwnx_cmd_e2amsg_len_max p in some (q ++ drop (length q) b)

-- What the loop does with the command that it stops at, before it is completed.
abbrev pub noted : CmdMgr → E2aMsg → ℕ → CmdMgr
noted m msg c =
    let x = cmd_at m c in
    set_cmd m c
      (record x { flags = record x.flags { wait_cfm = false }; e2a_msg = fill x.e2a_msg msg.param })

pub confirm : CmdMgr → E2aMsg → ℕ → CmdMgr × List Effect
unfolding cmd_complete
confirm m msg c =
    let n = noted m msg c in if wait_complete (cmd_at n c).flags then cmd_complete n c else (n, [])

-- True when a command is confirmed; otherwise the callback is run once more, with no command.
pub cmd_mgr_msgind : (Option RwnxCmd → E2aMsg → ℕ) → CmdMgr → E2aMsg → Bool × CmdMgr × List Effect
unfolding confirmed confirm
cmd_mgr_msgind cb m msg = elim (confirmed cb m msg m.cmds) [
  | none ↦ (false, m, [])
  | some c ↦ let (n, es) = confirm m msg c in (true, n, es)
]

-- complete() for each blocking command of the list.
pub complete_all : CmdMgr → List ℕ → CmdMgr
complete_all m [] = m
complete_all m (c ∷ cs) =
    let x = cmd_at m c in
    let y = if x.flags.nonblock then x else record x { completed = x.completed + 1 } in
    complete_all (set_cmd m c y) cs

-- The list is emptied; queue_sz keeps its value.
pub cmd_mgr_drain : CmdMgr → CmdMgr
unfolding complete_all
cmd_mgr_drain m = record (complete_all m m.cmds) { cmds = [] }

pub rwnx_cmd_mgr_deinit : CmdMgr → CmdMgr
unfolding cmd_mgr_drain
rwnx_cmd_mgr_deinit m = record (cmd_mgr_drain m) {
  state = deinit;
  next_tkn = 0;
  queue_sz = 0;
  max_queue_sz = 0;
}

-- The command that rwnx_send_msg fills in: the flags of its last use stay.
abbrev pub prepare : CmdMgr → ℕ → LmacMsg → Bool → ℕ → Option (List ℕ) → CmdMgr
prepare m c msg reqcfm reqid cfm =
    let x = cmd_at m c in
    let f = record x.flags {
      req_cfm = x.flags.req_cfm || reqcfm;
      wait_ack = x.flags.wait_ack && not reqcfm;
    } in
    set_cmd m c (record x {
      result = eintr;
      id = msg.id;
      reqid = reqid;
      a2e_msg = msg;
      e2a_msg = cfm;
      flags = f;
    })

-- A refused command goes back to the array.
abbrev pub free_refused : ℕ → Queued × CmdMgr × List Effect → Queued × CmdMgr × List Effect
free_refused c (refused e, m, es) = (refused e, rwnx_cmd_free m c, es)
free_refused c (polling, m, es) = (polling, m, es)
free_refused c (pushed, m, es) = (pushed, m, es)
free_refused c (deferred, m, es) = (deferred, m, es)

-- rwnx_send_msg up to its wait: the command if one is queued, and how. `none` is the dereference of
-- the null pointer that an exhausted array gives. With no confirmation the message goes out at once.
pub rwnx_send_msg :
    Bool
    → CmdMgr
    → LmacMsg
    → Bool
    → ℕ
    → Option (List ℕ)
    → Option (Option ℕ × Queued × CmdMgr × List Effect)
unfolding rwnx_cmd_malloc cmd_mgr_queue tx rwnx_cmd_free
rwnx_send_msg is_up m msg reqcfm reqid cfm =
    if not is_up then some (none, pushed, m, kfree msg ∷ []) else elim (rwnx_cmd_malloc m) [
      | none ↦ none
      | some (c, n) ↦
          let p = prepare n c msg reqcfm reqid cfm in
          let (d, q, es) = free_refused c (cmd_mgr_queue is_up p c) in
          if reqcfm
          then some (some c, d, q, es)
          else some (none, pushed, rwnx_cmd_free p c, tx is_up msg)
    ]

-- The end of rwnx_send_msg after a wait that timed out: the command is freed, still in the list.
pub rwnx_send_msg_timed_out : CmdMgr → ℕ → CmdMgr × List Effect
unfolding wait_timed_out rwnx_cmd_free
rwnx_send_msg_timed_out m c = let (n, es) = wait_timed_out m c in (rwnx_cmd_free n c, es)
