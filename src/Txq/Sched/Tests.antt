-- ===== src/Txq/Sched/Tests.antt =====
-- A queue for unknown stations that is initialised twice.
use aic8800_linux_driver.Common.{ℕ, true, false, none, [], ◌∷◌}
use aic8800_linux_driver.Txq.{Frame, Hw, txq_at, set_txq, rwnx_txq_vif_get}
use aic8800_linux_driver.Txq.Init.{init_queues}
use aic8800_linux_driver.Txq.Sched.{rwnx_txq_add_to_hw_list, rwnx_txq_unk_vif_init}
use aic8800_linux_driver.Txq.Sched.Links.{Linked}

abbrev auth : Frame
auth = record {
  skb = 7;
  rwnx_sta = none;
  on_mesh = false;
  is_mgmt = true;
  frame_control = 0xb0;
  ethertype = 0;
  fixed_rate = none;
}

abbrev start : Hw
start = init_queues true []

abbrev unknown : ℕ
unknown = rwnx_txq_vif_get start 0 1

-- The queue of the interface 0 is initialised, gets a frame and is put in the list of its hardware
-- queue.
abbrev with_frame : Hw
with_frame =
    let h = rwnx_txq_unk_vif_init start 0 5 in
    set_txq h unknown (record (txq_at h unknown) { sk_list = auth ∷ [] })

abbrev waiting : Hw
waiting = rwnx_txq_add_to_hw_list with_frame unknown
