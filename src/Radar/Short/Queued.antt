-- ===== src/Radar/Short/Queued.antt =====
-- A pulse put to a detector of a short waveform, and its queue.
use aic8800_linux_driver.Common.{ℕ, inl, inr, Option, none, some, ltb, Bool-cases, ◌==◌}
use aic8800_linux_driver.Radar.{PriDetector, PriSequence, Pools, sub_u64}
use aic8800_linux_driver.Radar.Pulses.Sound.{Sound, enqueue-Sound, reset-Sound, with_sequences}
use aic8800_linux_driver.Radar.Short.{
  pde_short_add_to_existing_seqs, pde_short_create_sequences, pde_short_check_detection,
  pde_short_add_pulse, detected,
}

detected-Sound :
    (ts : ℕ) (d : PriDetector) (m : Pools) (o : Option PriSequence)
    → Sound ts d
    → Sound ts (detected d ts m o).1
detected-Sound ts d m none s = enqueue-Sound d ts m s
detected-Sound ts d m (some _) s = s

pub short_add-Sound :
    (ts : ℕ) (d : PriDetector) (m : Pools) → Sound ts d → Sound ts (pde_short_add_pulse d ts m).1
unfolding pde_short_add_pulse pde_short_add_to_existing_seqs pde_short_create_sequences
short_add-Sound ts d m s =
    let (a, longest, k) = pde_short_add_to_existing_seqs d ts m in
    let (ok, b, l) = pde_short_create_sequences a ts longest k in
    let v = with_sequences ts d b.sequences s in
    elim (Bool-cases (d.count == 0)) [
      | inl e ↦ rw e (enqueue-Sound d ts m s)
      | inr e ↦ elim (Bool-cases (ltb (sub_u64 ts d.last_ts) d.rs.max_pri_tolerance)) [
        | inl t ↦ rw (e, t) s
        | inr t ↦ elim (Bool-cases ok) [
          | inl o ↦ rw (e, t, o) (detected-Sound ts b l (pde_short_check_detection b) v)
          | inr o ↦ rw (e, t, o) (reset-Sound ts ts ts b l v)
        ]
      ]
    ]
