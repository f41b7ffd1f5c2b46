-- ===== src/Radar/Long/Queued.antt =====
-- A pulse put to a detector of the long waveform, and its queue.
use aic8800_linux_driver.Common.{
  ℕ, zero, suc, inl, inr, Bool, true, false, ◌&&◌, Option, none, some, List, [], ◌∷◌, length, ltb,
  leb, ◌/◌, ◌+◌, ◌%◌, Bool-cases, u32_mod,
}
use aic8800_linux_driver.Radar.{
  PriDetector, PriSequence, Pools, sub_u64, sub_u32, pool_get_pseq_elem,
}
use aic8800_linux_driver.Radar.Pulses.{
  pulse_queue_dequeue, pulse_queue_enqueue, pulse_queue_get_tail,
}
use aic8800_linux_driver.Radar.Pulses.Sound.{Sound, enqueue-Sound, dequeue-Sound, with_sequences}
use aic8800_linux_driver.Radar.Long.{
  until_valid, drop_bursts, one_burst_less, end_burst, new_burst, next_pulse, first_pulse,
  first_burst, pulse_of_sequences, pde_long_add_pulse, long_radar_burst_min_duration,
}

until_valid-Sound :
    (ts min : ℕ) (d : PriDetector) (ps : PriSequence) (m : Pools)
    (rest : PriSequence × PriDetector × Pools) (o : Option ℕ)
    → Sound ts d
    → Sound ts rest.1
    → Sound ts (until_valid min d ps m rest o).1
until_valid-Sound ts min d ps m rest none s r = s
until_valid-Sound ts min d ps m rest (some p) s r = elim (Bool-cases (leb min p)) [
  | inl e ↦ rw e s
  | inr e ↦ rw e r
]

drop_bursts-Sound :
    (ts n min : ℕ) (d : PriDetector) (ps : PriSequence) (m : Pools)
    → Sound ts d
    → Sound ts (drop_bursts n min d ps m).1
unfolding drop_bursts
drop_bursts-Sound ts zero min d ps m s = s
drop_bursts-Sound ts (suc n) min d ps m s =
    let (e, k) = pulse_queue_dequeue d m in
    until_valid-Sound ts min d ps m (drop_bursts n min e (one_burst_less ps) k)
      (pulse_queue_get_tail d) s
      (drop_bursts-Sound ts n min e (one_burst_less ps) k (dequeue-Sound ts d m s))

end_burst-Sound :
    (ts delta : ℕ) (r : PriSequence × PriDetector × Pools)
    → Sound ts r.1
    → Sound ts (end_burst ts delta r).1
end_burst-Sound ts delta (ps, d, m) s =
    let (ok, e, k) = pulse_queue_enqueue d ts m in
    elim (Bool-cases
      (ltb d.rs.ppb_thresh ps.count && ltb (d.window_size / 2) (sub_u64 ts ps.first_ts))) [
        | inl t ↦ rw t (with_sequences ts d (ps ∷ []) s)
        | inr t ↦
            rw t (with_sequences ts e (record ps { dur = delta } ∷ []) (enqueue-Sound d ts m s))
      ]

new_burst-Sound :
    (ts delta : ℕ) (d : PriDetector) (ps : PriSequence) (m : Pools)
    → Sound ts d
    → Sound ts (new_burst d ps ts delta m).1
unfolding new_burst
new_burst-Sound ts delta d ps m s =
    let p = record ps { count = (ps.count + 1) % u32_mod; count_falses = 1 } in
    let r = drop_bursts (length d.pulses) (sub_u64 ts d.window_size) d p m in
    elim (Bool-cases (ltb ps.deadline_ts ts)) [
      | inl t ↦ rw t (
          end_burst-Sound ts delta r
            (drop_bursts-Sound ts (length d.pulses) (sub_u64 ts d.window_size) d p m s))
      | inr t ↦ rw t (end_burst-Sound ts delta (p, d, m) s)
    ]

next_pulse-Sound :
    (ts : ℕ) (d : PriDetector) (ps : PriSequence) (m : Pools)
    → Sound ts d
    → Sound ts (next_pulse d ps ts m).1
unfolding next_pulse
next_pulse-Sound ts d ps m s =
    let delta = sub_u32 ts ps.last_ts in
    let p = record ps { last_ts = ts } in
    let q = record p { count_falses = (p.count_falses + 1) % u32_mod } in
    elim (Bool-cases (ltb delta d.rs.pri_max)) [
      | inl a ↦ rw a (with_sequences ts d (p ∷ []) s)
      | inr a ↦ elim (Bool-cases (leb d.rs.pri_min delta && leb delta d.rs.pri_max)) [
        | inl b ↦ rw (a, b) (with_sequences ts d (q ∷ []) s)
        | inr b ↦
            elim (Bool-cases
              (ltb 2 p.count && ltb ((p.dur + delta) % u32_mod) long_radar_burst_min_duration)) [
                | inl c ↦ rw (a, b, c) (with_sequences ts d (p ∷ []) s)
                | inr c ↦ rw (a, b, c) (new_burst-Sound ts delta d p m s)
              ]
      ]
    ]

first_pulse-Sound :
    (ts : ℕ) (d : PriDetector) (g : Bool × Pools) → Sound ts d → Sound ts (first_pulse d ts g).1
first_pulse-Sound ts d (false, m) s = s
first_pulse-Sound ts d (true, m) s =
    let seqs = first_burst d ts m.stale_dur ∷ [] in
    enqueue-Sound (record d { sequences = seqs }) ts m (with_sequences ts d seqs s)

of_sequences-Sound :
    (ts : ℕ) (d : PriDetector) (m : Pools) (seqs : List PriSequence)
    → Sound ts d
    → Sound ts (pulse_of_sequences d ts m seqs).1
of_sequences-Sound ts d m [] s = first_pulse-Sound ts d (pool_get_pseq_elem m) s
of_sequences-Sound ts d m (ps ∷ rest) s = next_pulse-Sound ts d ps m s

pub long_add-Sound :
    (ts : ℕ) (d : PriDetector) (m : Pools) → Sound ts d → Sound ts (pde_long_add_pulse d ts m).1
unfolding pde_long_add_pulse
long_add-Sound ts d m s = of_sequences-Sound ts d m d.sequences s
