-- ===== src/Radar/Cac.antt =====
-- The channel availability check of rwnx_radar.c. The delayed work has two bits of the kernel's:
-- `cac_work` says whether it waits, so that cancel_delayed_work cancels it, and `running` that its time
-- has come, which clears the first, and that rwnx_radar_cac_work has still to run. `events` has the calls
-- that leave the file, the newest first. `new_kernel` is LINUX_VERSION_CODE >= KERNEL_VERSION(6, 12, 0).
-- The body of a call is one step.
pub mod Run
use aic8800_linux_driver.Common.{
  ℕ, Bool, true, false, Option, none, some, List, [], ◌∷◌, if◌then◌else◌,
}

pub data Event : Type 0 where
  stop_cac_req : ℕ → Event
  cac_finished : ℕ → Event
  cac_aborted : ℕ → Event
  chanctx_unlink : ℕ → Event
  radar_event : Event

pub record Cac : Type 0 where
  pub cac_vif : Option ℕ
  pub cac_work : Bool
  pub running : Bool
  pub events : List Event

abbrev pub no_cac : Cac
no_cac = record { cac_vif = none; cac_work = false; running = false; events = [] }

-- A check in progress is warned of, and lost. A work that waits already is left as it is.
unfoldable pub rwnx_radar_start_cac : Cac → ℕ → Cac
rwnx_radar_start_cac c vif = record c { cac_vif = some vif; cac_work = true }

abbrev pub abort_event : Bool → ℕ → Event
abort_event true vif = cac_finished vif
abort_event false vif = cac_aborted vif

-- Nothing is told where the work does not wait any more.
abbrev pub cancel_vif : Bool → Cac → Option ℕ → Cac
cancel_vif new_kernel c none = c
cancel_vif new_kernel c (some vif) =
    let told = chanctx_unlink vif ∷ abort_event new_kernel vif ∷ stop_cac_req vif ∷ c.events in
    record c { cac_vif = none; cac_work = false; events = if c.cac_work then told else c.events }

unfoldable pub rwnx_radar_cancel_cac : Bool → Cac → Cac
rwnx_radar_cancel_cac new_kernel c = cancel_vif new_kernel c c.cac_vif

-- The kernel takes the work up.
unfoldable pub expire : Cac → Cac
expire c = record c { cac_work = false; running = true }

abbrev pub finish_vif : Cac → Option ℕ → Cac
finish_vif c none = record c { running = false }
finish_vif c (some vif) = record c {
  cac_vif = none;
  running = false;
  events = chanctx_unlink vif ∷ stop_cac_req vif ∷ cac_finished vif ∷ c.events;
}

unfoldable pub rwnx_radar_cac_work : Cac → Cac
rwnx_radar_cac_work c = finish_vif c c.cac_vif

-- `valid` says whether there is a current channel.
pub rwnx_radar_detected : Bool → Bool → Cac → Cac
unfolding rwnx_radar_cancel_cac
rwnx_radar_detected new_kernel false c = c
rwnx_radar_detected new_kernel true c =
    let d = rwnx_radar_cancel_cac new_kernel c in record d { events = radar_event ∷ d.events }
