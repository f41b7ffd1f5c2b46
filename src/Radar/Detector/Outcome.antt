-- ===== src/Radar/Detector/Outcome.antt =====
-- What the detectors of a chain return for a pulse.
use aic8800_linux_driver.Common.{
  ◌∙◌, ap, ℕ, zero, suc, ◌+◌, ◌%◌, ◌<◌, ◌≤◌, ◌≡◌, refl, sym, inl, inr, Bool, true, false, ◌||◌,
  Option, none, some, List, [], ◌∷◌, length, set, get_elem?, All, arith, ltb, ◌==◌, Bool-cases,
  if◌then◌else◌, none≢some, subst,
}
use aic8800_linux_driver.Radar.{
  PriDetector, Pools, Region, unset, fcc, etsi, jp, u64_mod, kmalloc_one, pool_register_ref,
}
use aic8800_linux_driver.Radar.Pulses.Sound.{Sound}
use aic8800_linux_driver.Radar.Detector.{
  RadarType, DfsPatternDetector, ops_add_pulse, new_detector, pri_detector_init, find_detector,
  entered, found_or_new, pri_detector_get, put_pulse, put_detector, is_report, type_add_pulse,
  consed, next_type, types_add_pulse, time_stamp, end_pulse, delta_jiffie,
  dfs_pattern_detector_pri_overflow, dfs_pattern_detector_reset, dfs_pattern_detector_add_pulse,
}
use aic8800_linux_driver.Radar.Detector.Find.{find_none, find_some}
use aic8800_linux_driver.Radar.Detector.Valid.{
  Good, Tuned, AllCleared, ops_add-Sound, new-Sound, All-set, Good-later, overflow_types-Good,
  overflow_types-Tuned, reset_types-Both,
}

-- What a pattern answers: the null pointer only where it has no detector of the frequency.
data Answer (freq ts : ℕ) (t : RadarType) : Option (Bool × RadarType × Pools) → Type 0 where
  null_pointer : (¬ Tuned freq t) → Answer freq ts t none
  answer :
      (hit : Bool) (e : RadarType) (m : Pools) → Good ts e → Answer freq ts t (some (hit, e, m))

get_elem-All :
    (ts : ℕ) (ds : List PriDetector) (i : ℕ)
    → All (Sound ts) ds
    → i < length ds
    → (d : PriDetector) × (get_elem? ds i ≡ some d) × Sound ts d
get_elem-All ts [] i s l = absurd (omega (arith, l))
get_elem-All ts (d ∷ rest) zero s l = (d, refl, s.0)
get_elem-All ts (d ∷ rest) (suc i) s l = get_elem-All ts rest i s.1 (omega (arith, l))

put_pulse-Answer :
    (freq ts i : ℕ) (t u : RadarType) (m : Pools)
    → Good ts u
    → i < length u.detectors
    → Answer freq ts t (put_pulse u ts i m (get_elem? u.detectors i))
put_pulse-Answer freq ts i t u m g l =
    let (d, e, s) = get_elem-All ts u.detectors i g.sound l in
    let (ps, n, k) = ops_add_pulse d.rs.waveform d ts m in
    subst (λ o. Answer freq ts t (put_pulse u ts i m o)) (sym e)
      (answer (is_report ps) (record u { detectors = set u.detectors i n }) k
        (record {
          some_pulses = g.some_pulses;
          few_pulses = g.few_pulses;
          sound = All-set (Sound ts) u.detectors i n g.sound (ops_add-Sound d.rs.waveform ts d m s);
        }))

put_new-Answer :
    (freq ts : ℕ) (t : RadarType) (a : Bool × Pools)
    → Good ts t
    → (¬ Tuned freq t)
    → Answer freq ts t
        (let (ok, n, k) = entered t freq a in put_detector ts (if ok then some 0 else none, n, k))
put_new-Answer freq ts t (false, m) g k = null_pointer k
put_new-Answer freq ts t (true, m) g k =
    put_pulse-Answer freq ts 0 t (record t { detectors = new_detector t.spec freq ∷ t.detectors })
      (pool_register_ref m)
      (record {
        some_pulses = g.some_pulses;
        few_pulses = g.few_pulses;
        sound = (new-Sound ts freq t.spec g.some_pulses g.few_pulses, g.sound);
      })
      (omega arith)

found-Answer :
    (freq ts : ℕ) (t : RadarType) (m : Pools) (o : Option ℕ)
    → find_detector freq t.detectors 0 none ≡ o
    → Good ts t
    → Answer freq ts t (put_detector ts (found_or_new t freq m o))
unfolding pri_detector_init
found-Answer freq ts t m none e g =
    put_new-Answer freq ts t (kmalloc_one m) g (find_none freq t.detectors 0 none e).1
found-Answer freq ts t m (some i) e g = elim (find_some freq t.detectors 0 i none e) [
  | inl h ↦ absurd (none≢some h)
  | inr h ↦ put_pulse-Answer freq ts i t t m g (omega (arith, h.1))
]

type_add-Answer :
    (freq ts : ℕ) (t : RadarType) (m : Pools)
    → Good ts t
    → Answer freq ts t (type_add_pulse freq ts t m)
unfolding type_add_pulse pri_detector_get
type_add-Answer freq ts t m g =
    found-Answer freq ts t m (find_detector freq t.detectors 0 none) refl g

data Answers (freq ts : ℕ) (types : List RadarType)
    : Option (Bool × List RadarType × Pools) → Type 0 where
  null_pointer : (¬ All (Tuned freq) types) → Answers freq ts types none
  answers :
      (hit : Bool) (es : List RadarType) (m : Pools)
      → All (Good ts) es
      → Answers freq ts types (some (hit, es, m))

consed-Answers :
    (freq ts : ℕ) (t u : RadarType) (rest : List RadarType)
    (o : Option (Bool × List RadarType × Pools))
    → Good ts u
    → Answers freq ts rest o
    → Answers freq ts (t ∷ rest) (consed u o)
consed-Answers freq ts t u rest none g (null_pointer k) = null_pointer (λ a. k a.1)
consed-Answers freq ts t u rest (some _) g (answers hit es m a) = answers hit (u ∷ es) m (g, a)

next_type-Answers :
    (freq ts : ℕ) (t : RadarType) (rest : List RadarType)
    (go : Pools → Option (Bool × List RadarType × Pools)) (o : Option (Bool × RadarType × Pools))
    → All (Good ts) rest
    → Answer freq ts t o
    → ((m : Pools) → Answers freq ts rest (go m))
    → Answers freq ts (t ∷ rest) (next_type rest go o)
next_type-Answers freq ts t rest go none g (null_pointer k) r = null_pointer (λ a. k a.0)
next_type-Answers freq ts t rest go (some _) g (answer true e m a) r =
    answers true (e ∷ rest) m (a, g)
next_type-Answers freq ts t rest go (some _) g (answer false e m a) r =
    consed-Answers freq ts t e rest (go m) a (r m)

types_add-Answers :
    (freq len ts : ℕ) (types : List RadarType) (m : Pools)
    → All (Good ts) types
    → Answers freq ts types (types_add_pulse freq len ts types m)
unfolding types_add_pulse
types_add-Answers freq len ts [] m g = answers false [] m tt
types_add-Answers freq len ts (t ∷ rest) m g =
    let go = types_add_pulse freq len ts rest in
    let next = λ (k : Pools). types_add-Answers freq len ts rest k g.1 in
    elim (Bool-cases (ltb len t.spec.width_min || ltb t.spec.width_max len)) [
      | inl e ↦ rw e (consed-Answers freq ts t t rest (go m) g.0 (next m))
      | inr e ↦ rw e (
          next_type-Answers freq ts t rest go (type_add_pulse freq ts t m) g.1
            (type_add-Answer freq ts t m g.0) next)
    ]

-- The detectors of a chain between two pulses.
abbrev pub IsValid : DfsPatternDetector → Type 0
IsValid dpd = All (Good dpd.last_pulse_ts) dpd.types

-- The microseconds since the last pulse.
abbrev pub elapsed : (ℕ → ℕ) → DfsPatternDetector → ℕ → ℕ → ℕ
elapsed jiffies_to_usecs dpd pri now =
    if pri == 0 then jiffies_to_usecs (delta_jiffie dpd now) else pri

-- What a pulse leads to.
pub data Outcome (dpd : DfsPatternDetector) (freq : ℕ) (m : Pools)
    : Option (Bool × DfsPatternDetector × Pools) → Type 0 where
  null_pointer : (¬ (dpd.region ≡ unset)) → (¬ All (Tuned freq) dpd.types) → Outcome dpd freq m none
  no_domain : dpd.region ≡ unset → Outcome dpd freq m (some (true, dpd, m))
  quiet :
      (e : DfsPatternDetector) (k : Pools)
      → (¬ (dpd.region ≡ unset))
      → e.region ≡ dpd.region
      → IsValid e
      → Outcome dpd freq m (some (false, e, k))
  reported :
      (e : DfsPatternDetector) (k : Pools)
      → (¬ (dpd.region ≡ unset))
      → e.region ≡ dpd.region
      → IsValid e
      → All AllCleared e.types
      → e.last_pulse_ts ≡ 0
      → Outcome dpd freq m (some (true, e, k))

end_pulse-Outcome :
    (dpd d : DfsPatternDetector) (freq jiffies : ℕ) (m : Pools)
    (o : Option (Bool × List RadarType × Pools))
    → (¬ (dpd.region ≡ unset))
    → d.region ≡ dpd.region
    → (All (Tuned freq) dpd.types → All (Tuned freq) d.types)
    → Answers freq d.last_pulse_ts d.types o
    → Outcome dpd freq m (end_pulse d jiffies o)
unfolding dfs_pattern_detector_reset
end_pulse-Outcome dpd d freq jiffies m none u r t (null_pointer k) = null_pointer u (λ a. k (t a))
end_pulse-Outcome dpd d freq jiffies m (some _) u r t (answers true es k a) =
    let both = reset_types-Both d.last_pulse_ts 0 es k a in
    let (n, l) = dfs_pattern_detector_reset (record d { types = es }) jiffies k in
    reported n l u r both.0 both.1 refl
end_pulse-Outcome dpd d freq jiffies m (some _) u r t (answers false es k a) =
    quiet (record d { types = es }) k u r a

-- What the time stamp of a pulse leaves.
record Stamped (dpd d : DfsPatternDetector) (freq : ℕ) : Type 0 where
  region : d.region ≡ dpd.region
  valid : IsValid d
  tuned : All (Tuned freq) dpd.types → All (Tuned freq) d.types

small_sum : (a b : ℕ) → a + b < u64_mod → a ≤ (a + b) % u64_mod
small_sum a b l = omega (arith, l)

advance :
    (dpd : DfsPatternDetector) (n : ℕ)
    → IsValid dpd
    → dpd.last_pulse_ts + n < u64_mod
    → All (Good ((dpd.last_pulse_ts + n) % u64_mod)) dpd.types
advance dpd n v l =
    Good-later dpd.last_pulse_ts ((dpd.last_pulse_ts + n) % u64_mod) dpd.types
      (small_sum dpd.last_pulse_ts n l) v

time_stamp-Stamped :
    (usecs : ℕ → ℕ) (dpd : DfsPatternDetector) (freq pri now : ℕ) (m : Pools)
    → IsValid dpd
    → dpd.last_pulse_ts + elapsed usecs dpd pri now < u64_mod
    → Stamped dpd (time_stamp usecs dpd pri now m).0 freq
unfolding time_stamp dfs_pattern_detector_pri_overflow
time_stamp-Stamped usecs dpd freq pri now m v l =
    let since = usecs (delta_jiffie dpd now) in
    let sum = λ (b : Bool). dpd.last_pulse_ts + (if b then since else pri) in
    elim (Bool-cases (pri == 0)) [
      | inl e ↦
          let up = advance dpd since v (subst (λ b. sum b < u64_mod) e l) in
          let at = (dpd.last_pulse_ts + since) % u64_mod in
          rw e (record {
            region = refl;
            valid = overflow_types-Good at dpd.types m up;
            tuned = overflow_types-Tuned freq at dpd.types m;
          })
      | inr e ↦ rw e (record {
        region = refl;
        valid = advance dpd pri v (subst (λ b. sum b < u64_mod) e l);
        tuned = λ a. a;
      })
    ]

-- For valid detectors and a time stamp that fits a u64: the pulse goes through the null pointer only if
-- some pattern has no detector of its frequency. Without a domain it is a radar, and nothing changes.
-- Otherwise the domain stays, the detectors are valid after it, and if it is reported then the time stamp
-- is 0 and no detector holds a sequence or a pulse.
pub add_pulse-Outcome :
    (usecs : ℕ → ℕ) (dpd : DfsPatternDetector) (freq pri len now jiffies : ℕ) (m : Pools)
    → IsValid dpd
    → dpd.last_pulse_ts + elapsed usecs dpd pri now < u64_mod
    → Outcome dpd freq m (dfs_pattern_detector_add_pulse usecs dpd freq pri len now jiffies m)
unfolding dfs_pattern_detector_add_pulse
add_pulse-Outcome usecs dpd freq pri len now jiffies m v l =
    let (d, k) = time_stamp usecs dpd pri now m in
    let r = types_add_pulse freq len d.last_pulse_ts d.types k in
    let s = time_stamp-Stamped usecs dpd freq pri now m v l in
    let o = λ (u : ¬ (dpd.region ≡ unset)).
      end_pulse-Outcome dpd d freq jiffies m r u s.region s.tuned
        (types_add-Answers freq len d.last_pulse_ts d.types k s.valid) in
    by_region dpd.region refl o
  where
    number : Region → ℕ
    number unset = 0
    number fcc = 1
    number etsi = 2
    number jp = 3

    other : (g : Region) (n : ℕ) → number g ≡ suc n → dpd.region ≡ g → ¬ (dpd.region ≡ unset)
    other g n z e u = absurd (omega (arith, z, ap number (sym e ∙ u)))

    by_region :
        {a : Option (Bool × DfsPatternDetector × Pools)} (g : Region)
        → dpd.region ≡ g
        → ((¬ (dpd.region ≡ unset)) → Outcome dpd freq m a)
        → Outcome dpd freq m (elim g [ unset ↦ some (true, dpd, m) | fcc ↦ a | etsi ↦ a | jp ↦ a ])
    by_region unset e o = no_domain e
    by_region fcc e o = o (other fcc 0 refl e)
    by_region etsi e o = o (other etsi 1 refl e)
    by_region jp e o = o (other jp 2 refl e)
