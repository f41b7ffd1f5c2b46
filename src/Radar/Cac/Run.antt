-- ===== src/Radar/Cac/Run.antt =====
-- The checks that are started, and how each of them ends.
use aic8800_linux_driver.Common.{
  ℕ, suc, ◌+◌, ◌≡◌, Bool, true, false, Option, none, some, List, [], ◌∷◌, ◌++◌, if◌then◌else◌,
}
use aic8800_linux_driver.Radar.Cac.{
  Event, stop_cac_req, cac_finished, chanctx_unlink, radar_event, Cac, no_cac, abort_event, expire,
  rwnx_radar_start_cac, rwnx_radar_cancel_cac, rwnx_radar_cac_work, rwnx_radar_detected,
}

-- A check is in progress, and its work does not wait any more.
abbrev pub late : Cac → ℕ
late c = elim c.cac_vif [ none ↦ 0 | some v ↦ if c.cac_work then 0 else 1 ]

-- The calls of the driver and the kernel, with the interfaces of the checks that were started, the newest
-- first, and the number of checks that were cancelled while no work waits any more. A check is started
-- only where none is in progress; the kernel takes a work up that waits, and runs it once.
pub data CacRun (new_kernel : Bool) : List ℕ → ℕ → Cac → Type 0 where
  here : CacRun new_kernel [] 0 no_cac
  start :
      (vif : ℕ) (vs : List ℕ) (n : ℕ) (c : Cac)
      → CacRun new_kernel vs n c
      → c.cac_vif ≡ none
      → CacRun new_kernel (vif ∷ vs) n (rwnx_radar_start_cac c vif)
  cancel :
      (vs : List ℕ) (n : ℕ) (c : Cac)
      → CacRun new_kernel vs n c
      → CacRun new_kernel vs (late c + n) (rwnx_radar_cancel_cac new_kernel c)
  take_up :
      (vs : List ℕ) (n : ℕ) (c : Cac)
      → CacRun new_kernel vs n c
      → c.cac_work ≡ true
      → c.running ≡ false
      → CacRun new_kernel vs n (expire c)
  work :
      (vs : List ℕ) (n : ℕ) (c : Cac)
      → CacRun new_kernel vs n c
      → c.running ≡ true
      → CacRun new_kernel vs n (rwnx_radar_cac_work c)
  detected :
      (vs : List ℕ) (n : ℕ) (c : Cac)
      → CacRun new_kernel vs n c
      → CacRun new_kernel vs (late c + n) (rwnx_radar_detected new_kernel true c)
  undetected :
      (vs : List ℕ) (n : ℕ) (c : Cac)
      → CacRun new_kernel vs n c
      → CacRun new_kernel vs n (rwnx_radar_detected new_kernel false c)

-- The ends of checks, and the radars that are told.
pub data Entry : Type 0 where
  finished : ℕ → Entry
  cancelled : ℕ → Entry
  lost : ℕ → Entry
  radar : Entry

-- The check that an entry is the end of.
abbrev pub ends : List Entry → List ℕ
ends [] = []
ends (finished v ∷ es) = v ∷ ends es
ends (cancelled v ∷ es) = v ∷ ends es
ends (lost v ∷ es) = v ∷ ends es
ends (radar ∷ es) = ends es

-- The calls that an entry is told by, the newest first: the end that is told, the request to the firmware
-- and the channel all go to the interface of the check. A lost check is told by none.
abbrev pub calls : Bool → List Entry → List Event
calls k [] = []
calls k (finished v ∷ es) = chanctx_unlink v ∷ stop_cac_req v ∷ cac_finished v ∷ calls k es
calls k (cancelled v ∷ es) = chanctx_unlink v ∷ abort_event k v ∷ stop_cac_req v ∷ calls k es
calls k (lost v ∷ es) = calls k es
calls k (radar ∷ es) = radar_event ∷ calls k es

abbrev pub count_lost : List Entry → ℕ
count_lost [] = 0
count_lost (finished v ∷ es) = count_lost es
count_lost (cancelled v ∷ es) = count_lost es
count_lost (lost v ∷ es) = suc (count_lost es)
count_lost (radar ∷ es) = count_lost es

abbrev pub in_progress : Option ℕ → List ℕ
in_progress none = []
in_progress (some v) = v ∷ []

-- A log of the checks that accounts for all calls.
pub record Logged (new_kernel : Bool) (vs : List ℕ) (n : ℕ) (c : Cac) : Type 0 where
  pub log : List Entry
  pub order : vs ≡ in_progress c.cac_vif ++ ends log
  pub told : c.events ≡ calls new_kernel log
  pub losses : count_lost log ≡ n
