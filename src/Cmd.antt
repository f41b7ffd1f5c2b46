-- ===== src/Cmd.antt =====
-- The command manager (rwnx_cmds.h, rwnx_cmds.c): the commands to the firmware, in the array
-- cmd_array of rwnx_msg_tx.c, the list of those in flight, and the operations on them. A command is
-- its index in the array. A call that waits for the firmware is in two parts, before and after the
-- wait; between them any other operation may run. What an operation does outside the manager (the
-- bus, the waiters, the work queue, the wake lock) is its list of effects, in order.
pub mod Ops
pub mod Codec
use aic8800_linux_driver.Common.{
  ℕ, zero, suc, ◌+◌, ◌*◌, ◌/◌, ◌-◌, ◌%◌, Bool, true, false, ◌&&◌, ◌||◌, not, Option, none, some,
  List, [], ◌∷◌, ◌++◌, length, get_or, set, map, replicate, leb, ◌==◌, if◌then◌else◌, u8_mod,
  u16_mod, u32_mod,
}

pub record LmacMsg : Type 0 where
  pub id : ℕ
  pub dest_id : ℕ
  pub src_id : ℕ
  pub param : List ℕ

-- The RWNX_CMD_FLAG bits.
pub record Flags : Type 0 where
  pub nonblock : Bool
  pub req_cfm : Bool
  pub wait_push : Bool
  pub wait_ack : Bool
  pub wait_cfm : Bool
  pub is_done : Bool

pub data Errno : Type 0 where
  ok : Errno
  eintr : Errno
  epipe : Errno
  enomem : Errno
  etimedout : Errno

-- `e2a_msg` is the caller's buffer for the confirmation, by its bytes; `completed` counts complete().
pub record RwnxCmd : Type 0 where
  pub id : ℕ
  pub reqid : ℕ
  pub a2e_msg : LmacMsg
  pub e2a_msg : Option (List ℕ)
  pub tkn : ℕ
  pub flags : Flags
  pub completed : ℕ
  pub result : Errno
  pub used : Bool

pub data MgrState : Type 0 where
  deinit : MgrState
  inited : MgrState
  crashed : MgrState

pub record CmdMgr : Type 0 where
  pub state : MgrState
  pub next_tkn : ℕ
  pub queue_sz : ℕ
  pub max_queue_sz : ℕ
  pub cmds : List ℕ
  pub cmd_array : List RwnxCmd

pub data Effect : Type 0 where
  wakeup_lock : Effect
  wakeup_unlock : Effect
  wake_cmd_work : Effect
  txmsg : List ℕ → Effect
  kfree : LmacMsg → Effect

abbrev pub rwnx_cmd_max_queued : ℕ
rwnx_cmd_max_queued = 16

abbrev pub rwnx_cmd_array_size : ℕ
rwnx_cmd_array_size = 40

abbrev pub rwnx_cmd_e2amsg_len_max : ℕ
rwnx_cmd_e2amsg_len_max = 1024

abbrev pub no_flags : Flags
no_flags = record {
  nonblock = false;
  req_cfm = false;
  wait_push = false;
  wait_ack = false;
  wait_cfm = false;
  is_done = false;
}

abbrev pub no_lmac : LmacMsg
no_lmac = record { id = 0; dest_id = 0; src_id = 0; param = [] }

abbrev pub no_cmd : RwnxCmd
no_cmd = record {
  id = 0;
  reqid = 0;
  a2e_msg = no_lmac;
  e2a_msg = none;
  tkn = 0;
  flags = no_flags;
  completed = 0;
  result = ok;
  used = false;
}

abbrev pub cmd_at : CmdMgr → ℕ → RwnxCmd
cmd_at m c = get_or m.cmd_array c no_cmd

abbrev pub set_cmd : CmdMgr → ℕ → RwnxCmd → CmdMgr
set_cmd m c v = record m { cmd_array = set m.cmd_array c v }

abbrev pub is_crashed : MgrState → Bool
is_crashed crashed = true
is_crashed inited = false
is_crashed deinit = false

abbrev pub is_nil : List ℕ → Bool
is_nil [] = true
is_nil (x ∷ xs) = false

-- RWNX_CMD_WAIT_COMPLETE
abbrev pub wait_complete : Flags → Bool
wait_complete f = not (f.wait_ack || f.wait_cfm)

abbrev pub put_u16 : ℕ → List ℕ
put_u16 d = d % u8_mod ∷ d / u8_mod % u8_mod ∷ []

-- The bytes given to the bus, or `none` when the device is down; `len` is the length of the message
-- with its header of 8 bytes.
pub aicwf_set_cmd_tx : Bool → LmacMsg → Option (List ℕ)
aicwf_set_cmd_tx is_up m =
    let len = 8 + length m.param in
    if not is_up
    then none
    else some (
        ((len + 4) % 256 ∷ (len + 4) / 256 % 16 ∷ 17 ∷ 0 ∷ [])
        ++ ((0 ∷ 0 ∷ 0 ∷ 0 ∷ [])
            ++ (put_u16 m.id
                ++ (put_u16 m.dest_id
                    ++ (put_u16 m.src_id ++ (put_u16 (length m.param) ++ m.param))))))

pub tx : Bool → LmacMsg → List Effect
unfolding aicwf_set_cmd_tx
tx is_up m = elim (aicwf_set_cmd_tx is_up m) [ none ↦ [] | some b ↦ txmsg b ∷ [] ]

-- The first free command of the array, from index `i`, with the array in which it is taken.
pub malloc_from : ℕ → List RwnxCmd → Option (ℕ × List RwnxCmd)
malloc_from i [] = none
malloc_from i (c ∷ cs) =
    let rest = malloc_from (i + 1) cs in
    if not c.used
    then some (i, record c { used = true } ∷ cs)
    else elim rest [ none ↦ none | some (j, ds) ↦ some (j, c ∷ ds) ]

pub rwnx_cmd_malloc : CmdMgr → Option (ℕ × CmdMgr)
unfolding malloc_from
rwnx_cmd_malloc m = elim (malloc_from 0 m.cmd_array) [
  | none ↦ none
  | some (i, cs) ↦ some (i, record m { cmd_array = cs })
]

pub rwnx_cmd_free : CmdMgr → ℕ → CmdMgr
rwnx_cmd_free m c = set_cmd m c (record (cmd_at m c) { used = false })

-- rwnx_init_cmd_array and rwnx_free_cmd_array: no command is in use.
pub rwnx_free_cmd_array : CmdMgr → CmdMgr
rwnx_free_cmd_array m = record m {
  cmd_array = map (λ (c : RwnxCmd). record c { used = false }) m.cmd_array;
}

pub rwnx_cmd_mgr_init : CmdMgr → CmdMgr
rwnx_cmd_mgr_init m = record m { cmds = []; state = inited; max_queue_sz = rwnx_cmd_max_queued }

abbrev pub marked_done : RwnxCmd → RwnxCmd
marked_done x = record x { flags = record x.flags { is_done = true } }

-- complete(): the waiter runs, with the result 0.
abbrev pub woken : RwnxCmd → RwnxCmd
woken x = record x { result = ok; completed = x.completed + 1 }

pub cmd_complete : CmdMgr → ℕ → CmdMgr × List Effect
unfolding rwnx_cmd_free
cmd_complete m c =
    let y = marked_done (cmd_at m c) in
    let unlock = if m.queue_sz == 0 then wakeup_unlock ∷ [] else [] in
    if y.flags.nonblock
    then (rwnx_cmd_free (set_cmd m c y) c, unlock)
    else if wait_complete y.flags
    then (set_cmd m c (woken y), unlock)
    else (set_cmd m c y, unlock)

-- The new command at the end of the list, with its token; a call of init_completion resets it.
pub link : CmdMgr → ℕ → Bool → CmdMgr
link m c defer =
    let x = cmd_at m c in
    let f = record x.flags {
      wait_push = x.flags.wait_push || defer;
      wait_cfm = x.flags.wait_cfm || x.flags.req_cfm;
    } in
    let y = record x {
      flags = f;
      tkn = m.next_tkn;
      result = eintr;
      completed = if f.nonblock then x.completed else 0;
    } in
    record m {
      cmds = m.cmds ++ (c ∷ []);
      next_tkn = (m.next_tkn + 1) % u32_mod;
      queue_sz = (m.queue_sz + 1) % u32_mod;
      cmd_array = set m.cmd_array c y;
    }

-- How the part of a call before its wait ends: refused, still polling for an empty list, pushed (a
-- blocking command then waits), or deferred to the work queue.
pub data Queued : Type 0 where
  refused : Errno → Queued
  polling : Queued
  pushed : Queued
  deferred : Queued

abbrev pub fail : CmdMgr → ℕ → Errno → Queued × CmdMgr × List Effect
fail m c e = (refused e, set_cmd m c (record (cmd_at m c) { result = e }), [])
