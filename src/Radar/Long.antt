-- ===== src/Radar/Long.antt =====
-- The long waveform (rwnx_radar.c, "Long waveform"): one sequence of bursts, of which each queues one
-- pulse. The sequence is the only one of its detector.
pub mod Queued
use aic8800_linux_driver.Common.{
  ℕ, zero, suc, ◌+◌, ◌-◌, ◌/◌, ◌%◌, Bool, true, false, ◌&&◌, Option, none, some, List, [], ◌∷◌,
  length, ltb, leb, if◌then◌else◌, u32_mod,
}
use aic8800_linux_driver.Radar.{
  RadarDetectorSpecs, PriSequence, PriDetector, Pools, pool_get_pseq_elem, sub_u32, sub_u64,
  u64_mod,
}
use aic8800_linux_driver.Radar.Pulses.{
  pulse_queue_get_tail, pulse_queue_dequeue, pulse_queue_enqueue,
}

abbrev pub long_radar_duration : ℕ
long_radar_duration = 12000000

abbrev pub long_radar_burst_min_duration : ℕ
long_radar_burst_min_duration = 12000000 / 20

abbrev pub long_radar_max_burst : ℕ
long_radar_max_burst = 20

abbrev pub pde_long_init : PriDetector → PriDetector
pde_long_init d = record d { window_size = long_radar_duration; max_count = long_radar_max_burst }

-- The first pulse; `dur` is what the element holds.
abbrev pub first_burst : PriDetector → ℕ → ℕ → PriSequence
first_burst d ts stale = record {
  pri = 0;
  dur = stale;
  count = 1;
  count_falses = 1;
  first_ts = ts;
  last_ts = ts;
  deadline_ts = (ts + d.window_size) % u64_mod;
  ppb_thresh = 0;
}

abbrev pub restarted : PriDetector → PriSequence → ℕ → PriSequence
restarted d ps p = record ps { first_ts = p; deadline_ts = (p + d.window_size) % u64_mod }

abbrev pub until_valid :
    ℕ
    → PriDetector
    → PriSequence
    → Pools
    → PriSequence × PriDetector × Pools
    → Option ℕ
    → PriSequence × PriDetector × Pools
until_valid min d ps m rest none = (ps, d, m)
until_valid min d ps m rest (some p) = if leb min p then (restarted d ps p, d, m) else rest

abbrev pub one_burst_less : PriSequence → PriSequence
one_burst_less ps = record ps { count = (ps.count + u32_mod - 1) % u32_mod }

-- The loop that drops the bursts before `min`: one round takes one pulse, so `n` is the length of the
-- queue.
pub drop_bursts : ℕ → ℕ → PriDetector → PriSequence → Pools → PriSequence × PriDetector × Pools
drop_bursts zero min d ps m = (ps, d, m)
drop_bursts (suc n) min d ps m =
    let (e, k) = pulse_queue_dequeue d m in
    until_valid min d ps m (drop_bursts n min e (one_burst_less ps) k) (pulse_queue_get_tail d)

-- The sequence goes back to the detector; without a report the pulse is queued.
abbrev pub end_burst :
    ℕ → ℕ → PriSequence × PriDetector × Pools → Option PriSequence × PriDetector × Pools
end_burst ts delta (ps, d, m) =
    let (ok, e, k) = pulse_queue_enqueue d ts m in
    if ltb d.rs.ppb_thresh ps.count && ltb (d.window_size / 2) (sub_u64 ts ps.first_ts)
    then (some ps, record d { sequences = ps ∷ [] }, m)
    else (none, record e { sequences = record ps { dur = delta } ∷ [] }, k)

pub new_burst : PriDetector → PriSequence → ℕ → ℕ → Pools → Option PriSequence × PriDetector × Pools
unfolding drop_bursts
new_burst d ps ts delta m =
    let s = record ps { count = (ps.count + 1) % u32_mod; count_falses = 1 } in
    end_burst ts delta (
      if ltb s.deadline_ts ts
      then drop_bursts (length d.pulses) (sub_u64 ts d.window_size) d s m
      else (s, d, m))

abbrev pub unreported : PriDetector → PriSequence → Pools → Option PriSequence × PriDetector × Pools
unreported d ps m = (none, record d { sequences = ps ∷ [] }, m)

-- A pulse after the first; `ps` is the sequence.
pub next_pulse : PriDetector → PriSequence → ℕ → Pools → Option PriSequence × PriDetector × Pools
unfolding new_burst
next_pulse d ps ts m =
    let delta = sub_u32 ts ps.last_ts in
    let s = record ps { last_ts = ts } in
    if ltb delta d.rs.pri_max
    then unreported d s m
    else if leb d.rs.pri_min delta && leb delta d.rs.pri_max
    then unreported d (record s { count_falses = (s.count_falses + 1) % u32_mod }) m
    else if ltb 2 s.count && ltb ((s.dur + delta) % u32_mod) long_radar_burst_min_duration
    then unreported d s m
    else new_burst d s ts delta m

abbrev pub queued_first : Bool × PriDetector × Pools → Option PriSequence × PriDetector × Pools
queued_first (ok, d, m) = (none, d, m)

abbrev pub first_pulse : PriDetector → ℕ → Bool × Pools → Option PriSequence × PriDetector × Pools
first_pulse d ts (false, m) = (none, d, m)
first_pulse d ts (true, m) =
    queued_first
      (pulse_queue_enqueue (record d { sequences = first_burst d ts m.stale_dur ∷ [] }) ts m)

abbrev pub pulse_of_sequences :
    PriDetector → ℕ → Pools → List PriSequence → Option PriSequence × PriDetector × Pools
pulse_of_sequences d ts m [] = first_pulse d ts (pool_get_pseq_elem m)
pulse_of_sequences d ts m (ps ∷ rest) = next_pulse d ps ts m

pub pde_long_add_pulse : PriDetector → ℕ → Pools → Option PriSequence × PriDetector × Pools
unfolding next_pulse
pde_long_add_pulse d ts m = pulse_of_sequences d ts m d.sequences
