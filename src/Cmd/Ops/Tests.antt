-- ===== src/Cmd/Ops/Tests.antt =====
-- Tests of the command manager, and its theorems at concrete inputs.
use aic8800_linux_driver.Common.{
  ℕ, ◌≡◌, refl, true, false, Option, some, List, [], ◌∷◌, arith, replicate,
}
use aic8800_linux_driver.Cmd.{
  LmacMsg, RwnxCmd, CmdMgr, inited, aicwf_set_cmd_tx, rwnx_cmd_mgr_init, no_cmd, no_flags, cmd_at,
}
use aic8800_linux_driver.Cmd.Ops.{cmd_mgr_queue, cmd_mgr_msgind, wait_completed, E2aMsg}
use aic8800_linux_driver.Cmd.Ops.Valid.{IsValid}
use aic8800_linux_driver.Cmd.Ops.Run.{start, next, queue, confirm_one, completed, Run-IsValid}
use aic8800_linux_driver.Cmd.Ops.Confirm.{Indicated, cmd_mgr_msgind-Indicated}
use aic8800_linux_driver.Cmd.Codec.{Decoded, aicwf_set_cmd_tx-Decoded}

-- a request with a parameter of four bytes
abbrev request : LmacMsg
request = record { id = 5121; dest_id = 5; src_id = 13; param = 1 ∷ 2 ∷ 3 ∷ 4 ∷ [] }

abbrev zeroed : CmdMgr
zeroed = record {
  state = inited;
  next_tkn = 0;
  queue_sz = 0;
  max_queue_sz = 0;
  cmds = [];
  cmd_array =
      record no_cmd { a2e_msg = request; reqid = 5122; flags = record no_flags { req_cfm = true } }
      ∷ replicate 39 no_cmd;
}

abbrev cfm : E2aMsg
cfm = record { id = 5122; param = [] }

abbrev accept_all : Option RwnxCmd → E2aMsg → ℕ
accept_all c msg = 0

-- A request is queued and sent, confirmed by the firmware, and leaves the list when its wait ends.
abbrev sent : CmdMgr
sent = (cmd_mgr_queue true (rwnx_cmd_mgr_init zeroed) 0).1

abbrev answered : CmdMgr
answered = (cmd_mgr_msgind accept_all sent cfm).1

answered_once : (cmd_at answered 0).completed ≡ 1
unfolding cmd_mgr_queue cmd_mgr_msgind rwnx_cmd_mgr_init
answered_once = refl

Run-IsValid_example : IsValid (wait_completed false answered 0).0
unfolding cmd_mgr_queue cmd_mgr_msgind rwnx_cmd_mgr_init
Run-IsValid_example = Run-IsValid zeroed (wait_completed false answered 0).0 refl (
    next answered (wait_completed false answered 0).0
      (next sent answered (next (rwnx_cmd_mgr_init zeroed) sent start (queue true 0))
        (confirm_one accept_all cfm))
      (completed false 0 refl))

aicwf_set_cmd_tx-Decoded_example :
    (b : List ℕ) × (aicwf_set_cmd_tx true request ≡ some b) × Decoded request b
aicwf_set_cmd_tx-Decoded_example =
    aicwf_set_cmd_tx-Decoded request (omega arith) (omega arith) (omega arith) (omega arith)

cmd_mgr_msgind-Indicated_example :
    Indicated accept_all sent cfm (cmd_mgr_msgind accept_all sent cfm)
unfolding cmd_mgr_queue rwnx_cmd_mgr_init
cmd_mgr_msgind-Indicated_example =
    cmd_mgr_msgind-Indicated accept_all sent cfm ((omega arith, refl, refl), tt)
