-- ===== src/Txq/Sched/Reinit.antt =====
-- rwnx_txq_init on a queue that is still in the list of its hardware queue. The driver does this to the
-- queue for unknown stations: rwnx_external_auth_enable and rwnx_sm_connect_ind initialise it without
-- rwnx_txq_deinit.
use aic8800_linux_driver.Common.{ℕ, ◌≡◌, false, []}
use aic8800_linux_driver.Txq.{Txq, Hw, txq_at, hwq_at}
use aic8800_linux_driver.Txq.Sched.{rwnx_txq_add_to_hw_list, rwnx_txq_del_from_hw_list}
use aic8800_linux_driver.Txq.Sched.Links.{count}

-- `n` is `h` after the queue `i`, of the hardware queue `k`, was initialised.
pub record Dangling (i k : ℕ) (h n : Hw) : Type 0 where
  pub listed : count i (hwq_at n k).list ≡ 1
  pub unmarked : (txq_at n i).status.in_hwq_list ≡ false
  pub dropped : (txq_at n i).sk_list ≡ []
  pub unfreed : n.events ≡ h.events
  pub stays : rwnx_txq_del_from_hw_list n i ≡ n
  pub twice : count i (hwq_at (rwnx_txq_add_to_hw_list n i) k).list ≡ 2
