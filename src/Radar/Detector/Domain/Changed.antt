-- ===== src/Radar/Detector/Domain/Changed.antt =====
-- A change of the domain: the old detectors and their references, and the new patterns.
use aic8800_linux_driver.Common.{
  ℕ, ◌+◌, ◌-◌, ◌%◌, ◌<◌, ◌≤◌, ◌≡◌, refl, sym, ap, ◌∙◌, inl, inr, Bool, true, false, some, List, [],
  ◌∷◌, length, map, All, arith, ◌==◌, ==_iff, Bool-cases, if◌then◌else◌, u32_mod, subst, false≢true,
}
use aic8800_linux_driver.Radar.{
  RadarDetectorSpecs, PriSequence, PriDetector, Pools, Chain, Region, unset, fcc, etsi, jp,
  pool_deregister_ref,
}
use aic8800_linux_driver.Radar.Pulses.{put_pulses, put_sequences, pri_detector_reset}
use aic8800_linux_driver.Radar.Detector.{
  RadarType, DfsPatternDetector, pri_detector_exit, exit_all, exit_types,
}
use aic8800_linux_driver.Radar.Detector.Valid.{Good}
use aic8800_linux_driver.Radar.Detector.Outcome.{IsValid}
use aic8800_linux_driver.Radar.Detector.Domain.{
  RadarTypes, region_number, same_region, without_detectors, change_domain,
  dfs_pattern_detector_set_domain, get_dfs_max_radar_types,
}
use aic8800_linux_driver.Radar.Detector.Domain.Tables.{
  Fits, domain_specs, domain_specs-Fits, domain-found,
}

put_pulses-references : (ps : List ℕ) (m : Pools) → (put_pulses ps m).references ≡ m.references
put_pulses-references [] m = refl
put_pulses-references (p ∷ ps) m =
    put_pulses-references ps (record m { pulse_pool = m.pulse_pool + 1 })

put_sequences-references :
    (ss : List PriSequence) (m : Pools) → (put_sequences ss m).references ≡ m.references
put_sequences-references [] m = refl
put_sequences-references (s ∷ ss) m =
    put_sequences-references ss (record m { pseq_pool = m.pseq_pool + 1 })

reset-references :
    (d : PriDetector) (ts : ℕ) (m : Pools) → (pri_detector_reset d ts m).1.references ≡ m.references
unfolding pri_detector_reset
reset-references d ts m =
    put_pulses-references d.pulses (put_sequences d.sequences m)
    ∙ put_sequences-references d.sequences m

deregister :
    (m : Pools) → (pool_deregister_ref m).references ≡ (m.references + u32_mod - 1) % u32_mod
deregister m = elim (Bool-cases ((m.references + u32_mod - 1) % u32_mod == 0)) [
  | inl e ↦ rw e refl
  | inr e ↦ rw e refl
]

exit-references :
    (d : PriDetector) (m : Pools)
    → 0 < m.references
    → m.references < u32_mod
    → (pri_detector_exit d m).references + 1 ≡ m.references
exit-references d m z l =
    omega (arith, z, l, reset-references d 0 m, deregister (pri_detector_reset d 0 m).1)

exit_all-references :
    (ds : List PriDetector) (m : Pools)
    → length ds ≤ m.references
    → m.references < u32_mod
    → (exit_all ds m).references + length ds ≡ m.references
exit_all-references [] m z l = omega arith
exit_all-references (d ∷ rest) m z l =
    let e = exit-references d m (omega (arith, z)) l in
    omega (
      arith,
      e,
      exit_all-references rest (pri_detector_exit d m) (omega (arith, z, e)) (omega (arith, l, e)),
    )

-- The detectors of all patterns.
abbrev pub count_detectors : List RadarType → ℕ
count_detectors [] = 0
count_detectors (t ∷ rest) = length t.detectors + count_detectors rest

exit_types-references :
    (ts : List RadarType) (m : Pools)
    → count_detectors ts ≤ m.references
    → m.references < u32_mod
    → (exit_types ts m).references + count_detectors ts ≡ m.references
exit_types-references [] m z l = omega arith
exit_types-references (t ∷ rest) m z l =
    let e = exit_all-references t.detectors m (omega (arith, z)) l in
    omega (
      arith,
      e,
      exit_types-references rest (exit_all t.detectors m) (omega (arith, z, e))
          (omega (arith, l, e)),
    )

abbrev named : ℕ → Region
named n = if n == 0 then unset else if n == 1 then fcc else if n == 2 then etsi else jp

named-number : (a : Region) → named (region_number a) ≡ a
named-number unset = refl
named-number fcc = refl
named-number etsi = refl
named-number jp = refl

same_region-path : (a b : Region) → same_region a b ≡ true → a ≡ b
same_region-path a b e =
    sym (named-number a)
    ∙ ap named ((==_iff (region_number a) (region_number b)).0 e)
    ∙ named-number b

other_region : (a b : Region) → same_region a b ≡ false → ¬ (a ≡ b)
other_region a b e p =
    absurd
      (false≢true (sym e ∙ (==_iff (region_number a) (region_number b)).1 (ap region_number p)))

abbrev pub Unused : RadarType → Type 0
Unused t = t.detectors ≡ []

-- What a change of the domain leads to: a known domain gets its patterns, without detectors, and the
-- references of the old ones are given back.
pub data Changed (dpd : DfsPatternDetector) (region : Region) (chain : Chain) (m : Pools)
    : Bool × DfsPatternDetector × Pools → Type 0 where
  same : dpd.region ≡ region → Changed dpd region chain m (true, dpd, m)
  removed :
      (¬ (dpd.region ≡ region))
      → region ≡ unset
      → Changed dpd region chain m (false, record dpd { region = unset }, m)
  changed :
      (e : DfsPatternDetector) (k : Pools)
      → (¬ (dpd.region ≡ region))
      → (¬ (region ≡ unset))
      → e.region ≡ region
      → map (λ t. t.spec) e.types ≡ domain_specs region chain
      → All Unused e.types
      → length e.types ≤ get_dfs_max_radar_types
      → IsValid e
      → k.references + count_detectors dpd.types ≡ m.references
      → Changed dpd region chain m (true, e, k)

specs_of : (xs : List RadarDetectorSpecs) → map (λ t. t.spec) (without_detectors xs) ≡ xs
specs_of [] = refl
specs_of (s ∷ rest) = ap (λ r. s ∷ r) (specs_of rest)

length-without : (xs : List RadarDetectorSpecs) → length (without_detectors xs) ≡ length xs
length-without [] = refl
length-without (s ∷ rest) = omega (arith, length-without rest)

without-Unused : (xs : List RadarDetectorSpecs) → All Unused (without_detectors xs)
without-Unused [] = tt
without-Unused (s ∷ rest) = (refl, without-Unused rest)

without-Good :
    (ts : ℕ) (xs : List RadarDetectorSpecs) → All Fits xs → All (Good ts) (without_detectors xs)
without-Good ts [] f = tt
without-Good ts (s ∷ rest) f = (
  record { some_pulses = f.0.pulses; few_pulses = omega (arith, f.0.ppb); sound = tt },
  without-Good ts rest f.1,
)

change-Changed :
    (dpd : DfsPatternDetector) (region : Region) (chain : Chain) (m : Pools) (rt : RadarTypes)
    → (¬ (dpd.region ≡ region))
    → (¬ (region ≡ unset))
    → rt.specs chain ≡ domain_specs region chain
    → count_detectors dpd.types ≤ m.references
    → m.references < u32_mod
    → Changed dpd region chain m (change_domain dpd region chain m (some rt))
change-Changed dpd region chain m rt p q e z l =
    let (f, n) = domain_specs-Fits region chain in
    let fits = subst (All Fits) (sym e) f in
    let (ok, new, k) = change_domain dpd region chain m (some rt) in
    changed new k p q refl (specs_of (rt.specs chain) ∙ e) (without-Unused (rt.specs chain))
      (omega (arith, n, length-without (rt.specs chain), ap length e))
      (without-Good dpd.last_pulse_ts (rt.specs chain) fits) (exit_types-references dpd.types m z l)

-- Where the detectors of a chain have their references: the domain stays if it is the same; a domain
-- without patterns is refused, and only the region of the chain is lost; any other domain is set, with
-- exactly its patterns for the chain, no more than there are lists, no detectors, and without the
-- references of the old ones, and the chain is valid.
pub set_domain-Changed :
    (dpd : DfsPatternDetector) (region : Region) (chain : Chain) (m : Pools)
    → count_detectors dpd.types ≤ m.references
    → m.references < u32_mod
    → Changed dpd region chain m (dfs_pattern_detector_set_domain dpd region chain m)
unfolding dfs_pattern_detector_set_domain
set_domain-Changed dpd region chain m z l = elim (Bool-cases (same_region dpd.region region)) [
  | inl e ↦ rw e (same (same_region-path dpd.region region e))
  | inr e ↦
      let p = other_region dpd.region region e in
      rw e (elim (domain-found region chain) [
        | inl h ↦ rw h.1 (removed p h.0)
        | inr h ↦ rw h.2 (change-Changed dpd region chain m h.1 p h.0 h.3 z l)
      ])
]
