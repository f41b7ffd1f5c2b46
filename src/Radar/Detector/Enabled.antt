-- ===== src/Radar/Detector/Enabled.antt =====
-- A pulse does not change whether detection is enabled.
use aic8800_linux_driver.Common.{
  ℕ, ◌≡◌, refl, inl, inr, Bool, true, false, Option, none, some, List, ◌==◌, Bool-cases,
}
use aic8800_linux_driver.Radar.{Pools, Region, unset, fcc, etsi, jp}
use aic8800_linux_driver.Radar.Detector.{
  RadarType, DfsPatternDetector, end_pulse, time_stamp, types_add_pulse,
  dfs_pattern_detector_pri_overflow, dfs_pattern_detector_reset, dfs_pattern_detector_add_pulse,
}

-- A result, where there is one, whose detectors are enabled as `n` says.
abbrev pub Enabled : ℕ → Option (Bool × DfsPatternDetector × Pools) → Type 0
Enabled n none = Unit {0}
Enabled n (some (hit, e, m)) = e.enabled ≡ n

end_pulse-Enabled :
    (d : DfsPatternDetector) (jiffies n : ℕ) (o : Option (Bool × List RadarType × Pools))
    → d.enabled ≡ n
    → Enabled n (end_pulse d jiffies o)
unfolding dfs_pattern_detector_reset
end_pulse-Enabled d jiffies n none e = tt
end_pulse-Enabled d jiffies n (some (true, ts, m)) e = e
end_pulse-Enabled d jiffies n (some (false, ts, m)) e = e

time_stamp-enabled :
    (usecs : ℕ → ℕ) (dpd : DfsPatternDetector) (pri now : ℕ) (m : Pools)
    → (time_stamp usecs dpd pri now m).0.enabled ≡ dpd.enabled
unfolding time_stamp dfs_pattern_detector_pri_overflow
time_stamp-enabled usecs dpd pri now m = elim (Bool-cases (pri == 0)) [
  | inl e ↦ rw e refl
  | inr e ↦ rw e refl
]

pub add_pulse-Enabled :
    (usecs : ℕ → ℕ) (dpd : DfsPatternDetector) (freq pri len now jiffies : ℕ) (m : Pools)
    → Enabled dpd.enabled (dfs_pattern_detector_add_pulse usecs dpd freq pri len now jiffies m)
unfolding dfs_pattern_detector_add_pulse
add_pulse-Enabled usecs dpd freq pri len now jiffies m =
    let (d, k) = time_stamp usecs dpd pri now m in
    let r = types_add_pulse freq len d.last_pulse_ts d.types k in
    by_region (end_pulse d jiffies r) dpd.region
      (end_pulse-Enabled d jiffies dpd.enabled r (time_stamp-enabled usecs dpd pri now m))
  where
    by_region :
        (a : Option (Bool × DfsPatternDetector × Pools)) (g : Region)
        → Enabled dpd.enabled a
        → Enabled dpd.enabled (elim g [ unset ↦ some (true, dpd, m) | fcc ↦ a | etsi ↦ a | jp ↦ a ])
    by_region a unset e = refl
    by_region a fcc e = e
    by_region a etsi e = e
    by_region a jp e = e
