-- ===== src/Radar/Short.antt =====
-- Waveforms of one or a few intervals (rwnx_radar.c, "Short waveform").
pub mod Multiple
pub mod Created
pub mod Report
pub mod Queued
use aic8800_linux_driver.Common.{
  ℕ, zero, suc, ◌+◌, ◌-◌, ◌*◌, ◌/◌, ◌%◌, Bool, true, false, ◌&&◌, ◌||◌, not, Option, none, some,
  List, [], ◌∷◌, ltb, leb, ◌==◌, if◌then◌else◌, u8_mod, u16_mod, u32_mod,
}
use aic8800_linux_driver.Radar.{
  RadarWaveform, short, weather, interleaved, long, RadarDetectorSpecs, PriSequence, PriDetector,
  Pools, pool_get_pseq_elem, pool_put_pseq_elem, sub_u32, sub_u64, ppb_threshold, u64_mod,
}
use aic8800_linux_driver.Radar.Pulses.{pulse_queue_enqueue, pri_detector_reset}

pub pde_get_multiple : ℕ → ℕ → ℕ → ℕ
pde_get_multiple val fraction tolerance =
    let delta = if ltb val fraction then fraction - val else val - fraction in
    let factor = val / fraction in
    let remainder = val % fraction in
    if fraction == 0
    then 0
    else if leb delta tolerance
    then 1
    else if ltb tolerance remainder
    then (if leb (fraction - remainder) tolerance then factor + 1 else 0)
    else factor

-- Whether a pulse is a multiple of the interval before `ts`.
abbrev pub is_hit : ℕ → ℕ → ℕ → ℕ → Bool
is_hit tolerance ts pri p = ltb 0 (pde_get_multiple (sub_u32 ts p) pri tolerance)

-- One pulse of the loop over the older ones: one that matches is counted, with the false ones since the
-- last that did, which `tmp_false` counts.
abbrev pub matched : Bool → PriSequence → ℕ → ℕ → PriSequence × ℕ
matched true ps tmp_false p = (
  record ps {
    count = (ps.count + 1) % u32_mod;
    first_ts = p;
    count_falses = (ps.count_falses + tmp_false) % u32_mod;
  },
  0,
)
matched false ps tmp_false p = (ps, (tmp_false + 1) % u32_mod)

pub match_pulses : ℕ → ℕ → PriSequence → ℕ → List ℕ → PriSequence
match_pulses tolerance min_valid ps tmp_false [] = ps
match_pulses tolerance min_valid ps tmp_false (p ∷ older) =
    let (s, t) = matched (is_hit tolerance ps.last_ts ps.pri p) ps tmp_false p in
    let rest = match_pulses tolerance min_valid s t older in if ltb p min_valid then ps else rest

abbrev pub sequence_dur : RadarDetectorSpecs → ℕ → ℕ
sequence_dur rs pri = (pri * (rs.ppb - 1) + 2 * rs.max_pri_tolerance) % u32_mod

abbrev pub sequence_thresh : RadarDetectorSpecs → RadarWaveform → ℕ → ℕ
sequence_thresh rs weather pri = ppb_threshold (19000000 / (360 * pri % u32_mod) % u8_mod) % u8_mod
sequence_thresh rs short pri = rs.ppb_thresh
sequence_thresh rs interleaved pri = rs.ppb_thresh
sequence_thresh rs long pri = rs.ppb_thresh

-- The sequence of a pulse at `ts` and an older one `p`, the pulse of the queue with index `idx`.
pub start_sequence : RadarDetectorSpecs → ℕ → ℕ → ℕ → PriSequence
start_sequence rs ts p idx =
    let pri = sub_u32 ts p in
    record {
      pri = pri;
      dur = sequence_dur rs pri;
      count = 2;
      count_falses = idx;
      first_ts = p;
      last_ts = ts;
      deadline_ts = 0;
      ppb_thresh = 0;
    }

pub build_sequence : RadarDetectorSpecs → ℕ → ℕ → ℕ → List ℕ → PriSequence
unfolding start_sequence match_pulses
build_sequence rs ts p idx older =
    let s = start_sequence rs ts p idx in
    let min_valid = if ltb ts s.dur then 0 else ts - s.dur in
    let ps = match_pulses rs.max_pri_tolerance min_valid s 0 older in
    record ps {
      deadline_ts = (ps.first_ts + ps.dur) % u64_mod;
      ppb_thresh = sequence_thresh rs rs.waveform ps.pri;
    }

-- The loop over the pulses of the queue; `idx` counts those before. The result is false where there is
-- no memory.
pub create_from :
    RadarDetectorSpecs
    → ℕ
    → ℕ
    → ℕ
    → List ℕ
    → List PriSequence
    → Pools
    → Bool × List PriSequence × Pools
unfolding build_sequence
create_from rs ts min_count idx [] seqs m = (true, seqs, m)
create_from rs ts min_count idx (p ∷ older) seqs m =
    let delta = sub_u32 ts p in
    let ps = build_sequence rs ts p idx older in
    let skip = ltb delta rs.pri_min || leb ps.count min_count in
    let (ok, k) = pool_get_pseq_elem m in
    let rest =
      create_from rs ts min_count ((idx + 1) % u16_mod) older (if skip then seqs else ps ∷ seqs)
        (if skip then m else k) in
    if not (ltb delta rs.pri_min) && ltb rs.pri_max delta
    then (true, seqs, m)
    else if not skip && not ok
    then (false, seqs, k)
    else rest

pub pde_short_create_sequences : PriDetector → ℕ → ℕ → Pools → Bool × PriDetector × Pools
unfolding create_from
pde_short_create_sequences d ts min_count m =
    let (ok, seqs, k) = create_from d.rs ts min_count 0 d.pulses d.sequences m in
    (ok, record d { sequences = seqs }, k)

abbrev pub extended : PriSequence → ℕ → PriSequence
extended ps ts = record ps { last_ts = ts; count = (ps.count + 1) % u32_mod }

-- A pulse is put to a sequence that has not reached its deadline.
pub add_to_sequence : ℕ → ℕ → PriSequence → PriSequence × Bool
unfolding pde_get_multiple
add_to_sequence tolerance ts ps =
    if ltb 0 (pde_get_multiple (sub_u32 ts ps.last_ts) ps.pri tolerance)
    then (extended ps ts, true)
    else (record ps { count_falses = (ps.count_falses + 1) % u32_mod }, false)

-- The sequences that stay, the longest that the pulse was added to, and the pool.
pub add_from : ℕ → ℕ → List PriSequence → ℕ → Pools → List PriSequence × ℕ × Pools
unfolding add_to_sequence
add_from tolerance ts [] max_count m = ([], max_count, m)
add_from tolerance ts (ps ∷ rest) max_count m =
    let late = ltb ps.deadline_ts ts in
    let (new, hit) = add_to_sequence tolerance ts ps in
    let longer = not late && (hit && ltb max_count new.count) in
    let (kept, max, k) =
      add_from tolerance ts rest (if longer then new.count else max_count)
        (if late then pool_put_pseq_elem m else m) in
    if late then (kept, max, k) else (new ∷ kept, max, k)

pub pde_short_add_to_existing_seqs : PriDetector → ℕ → Pools → PriDetector × ℕ × Pools
unfolding add_from
pde_short_add_to_existing_seqs d ts m =
    let (seqs, max, k) = add_from d.rs.max_pri_tolerance ts d.sequences 0 m in
    (record d { sequences = seqs }, max, k)

-- Enough pulses, and more that match than false ones.
abbrev pub is_complete : RadarDetectorSpecs → PriSequence → Bool
is_complete rs ps =
    leb ps.ppb_thresh ps.count && ltb ps.count_falses (ps.count * rs.num_pri % u32_mod)

pub find_complete : RadarDetectorSpecs → List PriSequence → Option PriSequence
find_complete rs [] = none
find_complete rs (ps ∷ rest) =
    let later = find_complete rs rest in if is_complete rs ps then some ps else later

pub pde_short_check_detection : PriDetector → Option PriSequence
unfolding find_complete
pde_short_check_detection d = find_complete d.rs d.sequences

abbrev pub enqueued : Bool × PriDetector × Pools → Option PriSequence × PriDetector × Pools
enqueued (ok, d, m) = (none, d, m)

-- The pulse is queued where no sequence is complete.
abbrev pub detected :
    PriDetector → ℕ → Pools → Option PriSequence → Option PriSequence × PriDetector × Pools
detected d ts m none = enqueued (pulse_queue_enqueue d ts m)
detected d ts m (some ps) = (some ps, d, m)

abbrev pub not_detected : PriDetector × Pools → Option PriSequence × PriDetector × Pools
not_detected (d, m) = (none, d, m)

pub pde_short_add_pulse : PriDetector → ℕ → Pools → Option PriSequence × PriDetector × Pools
unfolding pde_short_add_to_existing_seqs pde_short_create_sequences pde_short_check_detection
pde_short_add_pulse d ts m =
    let (a, longest, k) = pde_short_add_to_existing_seqs d ts m in
    let (ok, b, l) = pde_short_create_sequences a ts longest k in
    if d.count == 0
    then enqueued (pulse_queue_enqueue d ts m)
    else if ltb (sub_u64 ts d.last_ts) d.rs.max_pri_tolerance
    then (none, d, m)
    else if ok
    then detected b ts l (pde_short_check_detection b)
    else not_detected (pri_detector_reset b ts l)
