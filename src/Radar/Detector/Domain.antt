-- ===== src/Radar/Detector/Domain.antt =====
-- The domain of a pattern detector, and the two detectors of a device (rwnx_radar.c,
-- dfs_pattern_detector_set_domain and "driver interface").
pub mod Tables
pub mod Changed
use aic8800_linux_driver.Common.{
  ℕ, zero, suc, ◌%◌, Bool, true, false, ◌&&◌, Option, none, some, List, [], ◌∷◌, length, ltb, ◌==◌,
  if◌then◌else◌, u32_mod,
}
use aic8800_linux_driver.Radar.{
  RadarDetectorSpecs, Pools, Chain, riu, fcu, Region, unset, fcc, etsi, jp, kmalloc_one,
  etsi_radar_ref_types_v17, fcc_radar_ref_types, jp_radar_ref_types,
}
use aic8800_linux_driver.Radar.Detector.{
  RadarType, DfsPatternDetector, exit_types, dfs_pattern_detector_exit,
}

-- `struct radar_types`; `specs` has the patterns of both chains.
pub record RadarTypes : Type 0 where
  pub region : Region
  pub specs : Chain → List RadarDetectorSpecs

pub dfs_domains : List RadarTypes
dfs_domains =
    record { region = etsi; specs = etsi_radar_ref_types_v17 }
    ∷ record { region = fcc; specs = fcc_radar_ref_types }
    ∷ record { region = jp; specs = λ c. jp_radar_ref_types }
    ∷ []

abbrev pub region_number : Region → ℕ
region_number unset = 0
region_number fcc = 1
region_number etsi = 2
region_number jp = 3

abbrev pub same_region : Region → Region → Bool
same_region a b = region_number a == region_number b

abbrev pub find_domain : Region → List RadarTypes → Option RadarTypes
find_domain region [] = none
find_domain region (t ∷ rest) =
    let later = find_domain region rest in if same_region t.region region then some t else later

pub get_dfs_domain_radar_types : Region → Option RadarTypes
unfolding dfs_domains
get_dfs_domain_radar_types region = find_domain region dfs_domains

abbrev pub most_types : List RadarTypes → ℕ → ℕ
most_types [] max = max
most_types (t ∷ rest) max =
    let n = length (t.specs riu) in most_types rest (if ltb max n then n else max)

pub get_dfs_max_radar_types : ℕ
unfolding dfs_domains
get_dfs_max_radar_types = most_types dfs_domains 0

abbrev pub without_detectors : List RadarDetectorSpecs → List RadarType
without_detectors [] = []
without_detectors (s ∷ rest) = record { spec = s; detectors = [] } ∷ without_detectors rest

-- The detectors of the domain before are deleted. For an unknown domain they stay, without a domain.
abbrev pub change_domain :
    DfsPatternDetector
    → Region
    → Chain
    → Pools
    → Option RadarTypes
    → Bool × DfsPatternDetector × Pools
change_domain dpd region chain m none = (false, record dpd { region = unset }, m)
change_domain dpd region chain m (some rt) = (
  true,
  record dpd { region = region; types = without_detectors (rt.specs chain) },
  exit_types dpd.types m,
)

pub dfs_pattern_detector_set_domain :
    DfsPatternDetector → Region → Chain → Pools → Bool × DfsPatternDetector × Pools
unfolding get_dfs_domain_radar_types
dfs_pattern_detector_set_domain dpd region chain m =
    if same_region dpd.region region
    then (true, dpd, m)
    else change_domain dpd region chain m (get_dfs_domain_radar_types region)

abbrev pub new_pattern_detector : ℕ → DfsPatternDetector
new_pattern_detector jiffies = record {
  enabled = 0;
  region = unset;
  last_pulse_ts = 0;
  prev_jiffies = jiffies % u32_mod;
  types = [];
}

abbrev pub if_domain : Bool × DfsPatternDetector × Pools → Option DfsPatternDetector × Pools
if_domain (true, dpd, m) = (some dpd, m)
if_domain (false, dpd, m) = (none, m)

pub dfs_pattern_detector_init : Region → Chain → ℕ → Pools → Option DfsPatternDetector × Pools
unfolding dfs_pattern_detector_set_domain
dfs_pattern_detector_init region chain jiffies m =
    let (ok, k) = kmalloc_one m in
    let r =
      if_domain (dfs_pattern_detector_set_domain (new_pattern_detector jiffies) region chain k) in
    if ok then r else (none, k)

-- The detectors of the two chains.
pub record Detectors : Type 0 where
  pub riu : Option DfsPatternDetector
  pub fcu : Option DfsPatternDetector

abbrev pub exit_one : Option DfsPatternDetector → Pools → Pools
exit_one none m = m
exit_one (some dpd) m = dfs_pattern_detector_exit dpd m

pub rwnx_radar_detection_deinit : Detectors → Pools → Detectors × Pools
rwnx_radar_detection_deinit r m =
    (record { riu = none; fcu = none }, exit_one r.fcu (exit_one r.riu m))

abbrev pub with_second :
    DfsPatternDetector → Option DfsPatternDetector × Pools → Bool × Detectors × Pools
unfolding rwnx_radar_detection_deinit
with_second a (none, m) =
    let (r, k) = rwnx_radar_detection_deinit (record { riu = some a; fcu = none }) m in
    (false, r, k)
with_second a (some b, m) = (true, record { riu = some a; fcu = some b }, m)

abbrev pub with_first :
    ℕ → Option DfsPatternDetector → Option DfsPatternDetector × Pools → Bool × Detectors × Pools
with_first jiffies old (none, m) = (false, record { riu = none; fcu = old }, m)
with_first jiffies old (some a, m) = with_second a (dfs_pattern_detector_init unset fcu jiffies m)

-- `old` is what the field of the second chain holds before.
pub rwnx_radar_detection_init : Option DfsPatternDetector → ℕ → Pools → Bool × Detectors × Pools
unfolding dfs_pattern_detector_init
rwnx_radar_detection_init old jiffies m =
    with_first jiffies old (dfs_pattern_detector_init unset riu jiffies m)

-- There is no result for the null pointer; the first detector stays set where the second fails.
abbrev pub set_second :
    Region → Detectors → Bool × DfsPatternDetector × Pools → Option (Bool × Detectors × Pools)
set_second region r (false, a, m) = some (false, record r { riu = some a }, m)
set_second region r (true, a, m) = elim r.fcu [
  | none ↦ none
  | some d ↦
      let (ok, b, k) = dfs_pattern_detector_set_domain d region fcu m in
      some (ok, record { riu = some a; fcu = some b }, k)
]

pub rwnx_radar_set_domain : Detectors → Region → Pools → Option (Bool × Detectors × Pools)
unfolding dfs_pattern_detector_set_domain
rwnx_radar_set_domain r region m = elim r.riu [
  | none ↦ some (false, r, m)
  | some d ↦ set_second region r (dfs_pattern_detector_set_domain d region riu m)
]
