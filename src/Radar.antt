-- ===== src/Radar.antt =====
-- Radar detection (rwnx_radar.c): the patterns of the three regulatory domains, and the data of the
-- detectors. A pulse is its time stamp in microseconds, the queue of a detector its pulses with the
-- newest first. The elements of the two pools are interchangeable, so a pool is its size; `kmalloc` holds
-- the outcomes of the coming calls of kmalloc, which fails when there are none. jiffies_to_usecs is a
-- parameter of what calls it. The locks, the dumps for debugging and the copy of pulses that they print
-- are left out.
pub mod Pulses
pub mod Short
pub mod Long
pub mod Detector
pub mod Process
pub mod Cac
mod Tests
use aic8800_linux_driver.Common.{
  ℕ, ◌+◌, ◌-◌, ◌*◌, ◌/◌, ◌%◌, Bool, true, false, List, [], ◌∷◌, if◌then◌else◌, ◌==◌, u8_mod,
  u32_mod,
}

pub data RadarWaveform : Type 0 where
  short : RadarWaveform
  weather : RadarWaveform
  interleaved : RadarWaveform
  long : RadarWaveform

-- `struct radar_detector_specs`; `waveform` is its `type`.
pub record RadarDetectorSpecs : Type 0 where
  pub type_id : ℕ
  pub width_min : ℕ
  pub width_max : ℕ
  pub pri_min : ℕ
  pub pri_max : ℕ
  pub num_pri : ℕ
  pub ppb : ℕ
  pub ppb_thresh : ℕ
  pub max_pri_tolerance : ℕ
  pub waveform : RadarWaveform

abbrev pub pri_tolerance : ℕ
pri_tolerance = 16

-- PPB_THRESH, with MIN_PPB_THRESH = 50.
abbrev pub ppb_threshold : ℕ → ℕ
ppb_threshold ppb = (ppb * 50 + 50) / 100

abbrev pub prf2pri : ℕ → ℕ
prf2pri prf = (1000000 + prf / 2) / prf

abbrev pub etsi_pattern_short : ℕ → ℕ → ℕ → ℕ → ℕ → ℕ → RadarDetectorSpecs
etsi_pattern_short id wmin wmax pmin pmax ppb = record {
  type_id = id;
  width_min = wmin;
  width_max = wmax;
  pri_min = prf2pri pmax - pri_tolerance;
  pri_max = prf2pri pmin + pri_tolerance;
  num_pri = 1;
  ppb = ppb;
  ppb_thresh = ppb_threshold ppb;
  max_pri_tolerance = pri_tolerance;
  waveform = short;
}

abbrev pub etsi_pattern_interleaved : ℕ → ℕ → ℕ → ℕ → ℕ → ℕ → ℕ → ℕ → RadarDetectorSpecs
etsi_pattern_interleaved id wmin wmax pmin pmax prfmin prfmax ppb = record {
  type_id = id;
  width_min = wmin;
  width_max = wmax;
  pri_min = prf2pri pmax * prfmin - pri_tolerance;
  pri_max = prf2pri pmin * prfmax + pri_tolerance;
  num_pri = prfmax;
  ppb = ppb * prfmax;
  ppb_thresh = ppb_threshold ppb;
  max_pri_tolerance = pri_tolerance;
  waveform = interleaved;
}

abbrev pub fcc_pattern : ℕ → ℕ → ℕ → ℕ → ℕ → ℕ → ℕ → RadarWaveform → RadarDetectorSpecs
fcc_pattern id wmin wmax pmin pmax prf ppb waveform = record {
  type_id = id;
  width_min = wmin;
  width_max = wmax;
  pri_min = pmin - pri_tolerance;
  pri_max = pmax * prf + pri_tolerance;
  num_pri = prf;
  ppb = ppb * prf;
  ppb_thresh = ppb_threshold ppb;
  max_pri_tolerance = pri_tolerance;
  waveform = waveform;
}

pub data Chain : Type 0 where
  riu : Chain
  fcu : Chain

-- The maximal widths that differ between the two chains are the arguments `riu` and `fcu` of the tables.
abbrev pub by_chain : Chain → ℕ → ℕ → ℕ
by_chain riu a b = a
by_chain fcu a b = b

pub etsi_radar_ref_types_v17 : Chain → List RadarDetectorSpecs
etsi_radar_ref_types_v17 c =
    etsi_pattern_short 0 0 8 700 700 18
    ∷ etsi_pattern_short 1 0 (by_chain c 10 8) 200 1000 10
    ∷ etsi_pattern_short 2 0 (by_chain c 22 16) 200 1600 15
    ∷ etsi_pattern_short 3 0 (by_chain c 22 16) 2300 4000 25
    ∷ etsi_pattern_short 4 20 (by_chain c 38 34) 2000 4000 20
    ∷ etsi_pattern_interleaved 5 0 8 300 400 2 3 10
    ∷ etsi_pattern_interleaved 6 0 8 400 1200 2 3 15
    ∷ []

pub fcc_radar_ref_types : Chain → List RadarDetectorSpecs
fcc_radar_ref_types c =
    fcc_pattern 0 0 8 1428 1428 1 18 short
    ∷ fcc_pattern 1 0 8 518 3066 1 102 weather
    ∷ fcc_pattern 2 0 8 150 230 1 23 short
    ∷ fcc_pattern 3 6 (by_chain c 20 12) 200 500 1 16 short
    ∷ fcc_pattern 4 10 (by_chain c 28 22) 200 500 1 12 short
    ∷ fcc_pattern 5 50 (by_chain c 110 104) 1000 2000 1 8 long
    ∷ fcc_pattern 6 0 8 333 333 1 9 short
    ∷ []

-- The same for both chains.
pub jp_radar_ref_types : List RadarDetectorSpecs
jp_radar_ref_types =
    fcc_pattern 0 0 4 1388 1388 1 18 short
    ∷ fcc_pattern 1 0 4 1428 1428 1 18 short
    ∷ fcc_pattern 2 0 4 4000 4000 1 18 short
    ∷ fcc_pattern 3 0 6 150 230 1 23 short
    ∷ fcc_pattern 4 6 12 200 500 1 16 short
    ∷ fcc_pattern 5 10 22 200 500 1 12 short
    ∷ fcc_pattern 6 48 110 1000 2000 1 8 long
    ∷ fcc_pattern 7 0 4 333 333 1 9 short
    ∷ []

-- `enum nl80211_dfs_regions` of the kernel.
pub data Region : Type 0 where
  unset : Region
  fcc : Region
  etsi : Region
  jp : Region

pub record PriSequence : Type 0 where
  pub pri : ℕ
  pub dur : ℕ
  pub count : ℕ
  pub count_falses : ℕ
  pub first_ts : ℕ
  pub last_ts : ℕ
  pub deadline_ts : ℕ
  pub ppb_thresh : ℕ

pub record PriDetector : Type 0 where
  pub rs : RadarDetectorSpecs
  pub last_ts : ℕ
  pub sequences : List PriSequence
  pub pulses : List ℕ
  pub count : ℕ
  pub max_count : ℕ
  pub window_size : ℕ
  pub freq : ℕ

-- `stale_dur` is what an element of the pool of sequences, or of fresh memory, holds as its `dur`;
-- `references` is singleton_pool_references.
pub record Pools : Type 0 where
  pub pulse_pool : ℕ
  pub pseq_pool : ℕ
  pub kmalloc : List Bool
  pub stale_dur : ℕ
  pub references : ℕ

abbrev pub u64_mod : ℕ
u64_mod = 0x1_0000_0000_0000_0000

-- a - b in a u64, and what a u32 keeps of it.
abbrev pub sub_u64 : ℕ → ℕ → ℕ
sub_u64 a b = (a + u64_mod - b) % u64_mod

abbrev pub sub_u32 : ℕ → ℕ → ℕ
sub_u32 a b = sub_u64 a b % u32_mod

abbrev pub kmalloc_one : Pools → Bool × Pools
kmalloc_one m = elim m.kmalloc [ [] ↦ (false, m) | b ∷ rest ↦ (b, record m { kmalloc = rest }) ]

-- pool_get_pulse_elem, and the kmalloc of its caller.
pub pool_get_pulse_elem : Pools → Bool × Pools
pool_get_pulse_elem m =
    if m.pulse_pool == 0 then kmalloc_one m else (true, record m { pulse_pool = m.pulse_pool - 1 })

pub pool_get_pseq_elem : Pools → Bool × Pools
pool_get_pseq_elem m =
    if m.pseq_pool == 0 then kmalloc_one m else (true, record m { pseq_pool = m.pseq_pool - 1 })

abbrev pub pool_put_pulse_elem : Pools → Pools
pool_put_pulse_elem m = record m { pulse_pool = m.pulse_pool + 1 }

abbrev pub pool_put_pseq_elem : Pools → Pools
pool_put_pseq_elem m = record m { pseq_pool = m.pseq_pool + 1 }

abbrev pub pool_register_ref : Pools → Pools
pool_register_ref m = record m { references = (m.references + 1) % u32_mod }

-- The memory of the pools is given back with the last reference.
abbrev pub pool_deregister_ref : Pools → Pools
pool_deregister_ref m =
    let n = (m.references + u32_mod - 1) % u32_mod in
    if n == 0
    then record m { references = n; pulse_pool = 0; pseq_pool = 0 }
    else record m { references = n }
