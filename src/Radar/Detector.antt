-- ===== src/Radar/Detector.antt =====
-- The detectors of one chain (rwnx_radar.c, "PRI detector init/reset/exit/get" and "DFS Pattern
-- Detector"): one list of detectors for each pattern of the domain. `jiffies` is the clock of the kernel
-- at the time of the call.
pub mod Find
pub mod Valid
pub mod Outcome
pub mod Enabled
pub mod Domain
use aic8800_linux_driver.Common.{
  ℕ, zero, suc, ◌+◌, ◌-◌, ◌*◌, ◌%◌, Bool, true, false, ◌&&◌, ◌||◌, Option, none, some, List, [],
  ◌∷◌, length, set, get_elem?, ltb, leb, ◌==◌, if◌then◌else◌, u32_mod,
}
use aic8800_linux_driver.Radar.{
  RadarWaveform, short, weather, interleaved, long, RadarDetectorSpecs, PriSequence, PriDetector,
  Pools, Region, unset, fcc, etsi, jp, kmalloc_one, u64_mod, pool_register_ref, pool_deregister_ref,
}
use aic8800_linux_driver.Radar.Pulses.{pri_detector_reset}
use aic8800_linux_driver.Radar.Short.{pde_short_add_pulse}
use aic8800_linux_driver.Radar.Long.{pde_long_init, pde_long_add_pulse}

abbrev pub pde_short_init : PriDetector → PriDetector
pde_short_init d = record d {
  window_size = d.rs.pri_max * d.rs.ppb * d.rs.num_pri % u32_mod;
  max_count = d.rs.ppb * 2;
}

-- What `pri_detector_ops` of a waveform has: `init`, `add_pulse`, whose arguments that are not used are
-- left out, and `reset_on_pri_overflow`.
abbrev pub ops_init : RadarWaveform → PriDetector → PriDetector
ops_init short d = pde_short_init d
ops_init weather d = pde_short_init d
ops_init interleaved d = pde_short_init d
ops_init long d = pde_long_init d

pub ops_add_pulse :
    RadarWaveform → PriDetector → ℕ → Pools → Option PriSequence × PriDetector × Pools
ops_add_pulse short d ts m = pde_short_add_pulse d ts m
ops_add_pulse weather d ts m = pde_short_add_pulse d ts m
ops_add_pulse interleaved d ts m = pde_short_add_pulse d ts m
ops_add_pulse long d ts m = pde_long_add_pulse d ts m

abbrev pub reset_on_pri_overflow : RadarWaveform → Bool
reset_on_pri_overflow short = true
reset_on_pri_overflow weather = true
reset_on_pri_overflow interleaved = true
reset_on_pri_overflow long = false

-- One pattern, with its entry of `radar_spec` and of `detectors`.
pub record RadarType : Type 0 where
  pub spec : RadarDetectorSpecs
  pub detectors : List PriDetector

-- `struct dfs_pattern_detector`; there are num_radar_types `types`, and the other lists are empty.
pub record DfsPatternDetector : Type 0 where
  pub enabled : ℕ
  pub region : Region
  pub last_pulse_ts : ℕ
  pub prev_jiffies : ℕ
  pub types : List RadarType

pub new_detector : RadarDetectorSpecs → ℕ → PriDetector
new_detector rs freq = ops_init rs.waveform (record {
  rs = rs;
  last_ts = 0;
  sequences = [];
  pulses = [];
  count = 0;
  max_count = 0;
  window_size = 0;
  freq = freq;
})

abbrev pub entered : RadarType → ℕ → Bool × Pools → Bool × RadarType × Pools
entered t freq (false, m) = (false, t, m)
entered t freq (true, m) =
    (true, record t { detectors = new_detector t.spec freq ∷ t.detectors }, pool_register_ref m)

-- Also gives whether there is memory; the new detector is the first of its list.
pub pri_detector_init : RadarType → ℕ → Pools → Bool × RadarType × Pools
unfolding new_detector
pri_detector_init t freq m = entered t freq (kmalloc_one m)

abbrev pub pri_detector_exit : PriDetector → Pools → Pools
pri_detector_exit d m = pool_deregister_ref (pri_detector_reset d 0 m).1

-- The index of the detector, if there is one; `cur` is the last without pulses at this frequency.
pub find_detector : ℕ → List PriDetector → ℕ → Option ℕ → Option ℕ
find_detector freq [] i cur = cur
find_detector freq (d ∷ rest) i cur =
    let same = d.freq == freq in
    let near = d.freq == freq + 2 || d.freq + 2 == freq in
    let later = find_detector freq rest (suc i) (if same && d.count == 0 then some i else cur) in
    if (same || near) && ltb 0 d.count then some i else later

abbrev pub found_or_new : RadarType → ℕ → Pools → Option ℕ → Option ℕ × RadarType × Pools
found_or_new t freq m (some i) = (some i, t, m)
found_or_new t freq m none =
    let (ok, n, k) = pri_detector_init t freq m in (if ok then some 0 else none, n, k)

-- The index is none for the null pointer.
pub pri_detector_get : RadarType → ℕ → Pools → Option ℕ × RadarType × Pools
unfolding find_detector
pri_detector_get t freq m = found_or_new t freq m (find_detector freq t.detectors 0 none)

abbrev pub reset_all : List PriDetector → ℕ → Pools → List PriDetector × Pools
reset_all [] ts m = ([], m)
reset_all (d ∷ rest) ts m =
    let (e, k) = pri_detector_reset d ts m in let (r, l) = reset_all rest ts k in (e ∷ r, l)

abbrev pub reset_types : List RadarType → ℕ → Pools → List RadarType × Pools
reset_types [] ts m = ([], m)
reset_types (t ∷ rest) ts m =
    let (ds, k) = reset_all t.detectors ts m in
    let (r, l) = reset_types rest ts k in (record t { detectors = ds } ∷ r, l)

pub dfs_pattern_detector_reset : DfsPatternDetector → ℕ → Pools → DfsPatternDetector × Pools
dfs_pattern_detector_reset dpd jiffies m =
    let (ts, k) = reset_types dpd.types dpd.last_pulse_ts m in
    (record dpd { types = ts; last_pulse_ts = 0; prev_jiffies = jiffies % u32_mod }, k)

abbrev pub overflow_all : List PriDetector → ℕ → Pools → List PriDetector × Pools
overflow_all [] ts m = ([], m)
overflow_all (d ∷ rest) ts m =
    let (e, k) =
      if reset_on_pri_overflow d.rs.waveform then pri_detector_reset d ts m else (d, m) in
    let (r, l) = overflow_all rest ts k in (e ∷ r, l)

abbrev pub overflow_types : List RadarType → ℕ → Pools → List RadarType × Pools
overflow_types [] ts m = ([], m)
overflow_types (t ∷ rest) ts m =
    let (ds, k) = overflow_all t.detectors ts m in
    let (r, l) = overflow_types rest ts k in (record t { detectors = ds } ∷ r, l)

pub dfs_pattern_detector_pri_overflow : DfsPatternDetector → Pools → DfsPatternDetector × Pools
dfs_pattern_detector_pri_overflow dpd m =
    let (ts, k) = overflow_types dpd.types dpd.last_pulse_ts m in (record dpd { types = ts }, k)

abbrev pub is_report : Option PriSequence → Bool
is_report none = false
is_report (some ps) = true

abbrev pub put_pulse :
    RadarType → ℕ → ℕ → Pools → Option PriDetector → Option (Bool × RadarType × Pools)
put_pulse t ts i m none = none
put_pulse t ts i m (some d) =
    let (ps, e, k) = ops_add_pulse d.rs.waveform d ts m in
    some (is_report ps, record t { detectors = set t.detectors i e }, k)

-- The pulse is put to the detector of its frequency; the result is none where that is the null pointer.
abbrev pub put_detector : ℕ → Option ℕ × RadarType × Pools → Option (Bool × RadarType × Pools)
put_detector ts (none, t, m) = none
put_detector ts (some i, t, m) = put_pulse t ts i m (get_elem? t.detectors i)

pub type_add_pulse : ℕ → ℕ → RadarType → Pools → Option (Bool × RadarType × Pools)
unfolding pri_detector_get
type_add_pulse freq ts t m = put_detector ts (pri_detector_get t freq m)

abbrev pub consed :
    RadarType → Option (Bool × List RadarType × Pools) → Option (Bool × List RadarType × Pools)
consed t none = none
consed t (some (hit, ts, m)) = some (hit, t ∷ ts, m)

-- The patterns after the first are tried where that one reports nothing; `go` is the rest of the loop.
abbrev pub next_type :
    List RadarType
    → (Pools → Option (Bool × List RadarType × Pools))
    → Option (Bool × RadarType × Pools)
    → Option (Bool × List RadarType × Pools)
next_type rest go none = none
next_type rest go (some (true, t, m)) = some (true, t ∷ rest, m)
next_type rest go (some (false, t, m)) = consed t (go m)

-- The loop over the patterns. The result is none for an access through the null pointer.
pub types_add_pulse : ℕ → ℕ → ℕ → List RadarType → Pools → Option (Bool × List RadarType × Pools)
unfolding type_add_pulse
types_add_pulse freq len ts [] m = some (false, [], m)
types_add_pulse freq len ts (t ∷ rest) m =
    let skip = ltb len t.spec.width_min || ltb t.spec.width_max len in
    let go = types_add_pulse freq len ts rest in
    if skip then consed t (go m) else next_type rest go (type_add_pulse freq ts t m)

-- The time since the last pulse, from the clock where `pri` is 0.
abbrev pub delta_jiffie : DfsPatternDetector → ℕ → ℕ
delta_jiffie dpd now =
    if ltb now dpd.prev_jiffies
    then (0xffff_ffff - dpd.prev_jiffies + now) % u32_mod
    else now - dpd.prev_jiffies

pub time_stamp : (ℕ → ℕ) → DfsPatternDetector → ℕ → ℕ → Pools → DfsPatternDetector × Pools
unfolding dfs_pattern_detector_pri_overflow
time_stamp jiffies_to_usecs dpd pri now m =
    if pri == 0
    then dfs_pattern_detector_pri_overflow
        (record dpd {
          last_pulse_ts = (dpd.last_pulse_ts + jiffies_to_usecs (delta_jiffie dpd now)) % u64_mod;
          prev_jiffies = now;
        })
        m
    else (record dpd { last_pulse_ts = (dpd.last_pulse_ts + pri) % u64_mod }, m)

-- After a report everything is reset.
abbrev pub end_pulse :
    DfsPatternDetector
    → ℕ
    → Option (Bool × List RadarType × Pools)
    → Option (Bool × DfsPatternDetector × Pools)
end_pulse dpd jiffies none = none
end_pulse dpd jiffies (some (true, ts, m)) =
    let (d, k) = dfs_pattern_detector_reset (record dpd { types = ts }) jiffies m in
    some (true, d, k)
end_pulse dpd jiffies (some (false, ts, m)) = some (false, record dpd { types = ts }, m)

-- Without a domain each pulse is a radar.
pub dfs_pattern_detector_add_pulse :
    (ℕ → ℕ)
    → DfsPatternDetector
    → ℕ
    → ℕ
    → ℕ
    → ℕ
    → ℕ
    → Pools
    → Option (Bool × DfsPatternDetector × Pools)
unfolding time_stamp types_add_pulse dfs_pattern_detector_reset
dfs_pattern_detector_add_pulse jiffies_to_usecs dpd freq pri len now jiffies m =
    let (d, k) = time_stamp jiffies_to_usecs dpd pri now m in
    let r = types_add_pulse freq len d.last_pulse_ts d.types k in
    elim dpd.region [
      | unset ↦ some (true, dpd, m)
      | fcc ↦ end_pulse d jiffies r
      | etsi ↦ end_pulse d jiffies r
      | jp ↦ end_pulse d jiffies r
    ]

abbrev pub exit_all : List PriDetector → Pools → Pools
exit_all [] m = m
exit_all (d ∷ rest) m = exit_all rest (pri_detector_exit d m)

abbrev pub exit_types : List RadarType → Pools → Pools
exit_types [] m = m
exit_types (t ∷ rest) m = exit_types rest (exit_all t.detectors m)

pub dfs_pattern_detector_exit : DfsPatternDetector → Pools → Pools
dfs_pattern_detector_exit dpd m = exit_types dpd.types m
