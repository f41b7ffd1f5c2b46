-- ===== src/Radar/Detector/Valid.antt =====
-- Valid detectors of a chain, through the changes of its lists of detectors.
use aic8800_linux_driver.Common.{
  ℕ, zero, suc, ◌+◌, ◌<◌, ◌≤◌, ◌≡◌, refl, sym, ap, ◌∙◌, ◌⊎◌, inl, inr, List, [], ◌∷◌, length, set,
  All, arith, Bool-cases, u32_mod, subst,
}
use aic8800_linux_driver.Radar.{
  RadarWaveform, short, weather, interleaved, long, RadarDetectorSpecs, PriDetector, Pools,
}
use aic8800_linux_driver.Radar.Pulses.{pri_detector_reset}
use aic8800_linux_driver.Radar.Pulses.Recent.{Falling}
use aic8800_linux_driver.Radar.Pulses.Sound.{Sound, reset-Sound, later}
use aic8800_linux_driver.Radar.Short.Queued.{short_add-Sound}
use aic8800_linux_driver.Radar.Long.Queued.{long_add-Sound}
use aic8800_linux_driver.Radar.Detector.{
  RadarType, ops_init, ops_add_pulse, new_detector, reset_on_pri_overflow, reset_all, reset_types,
  overflow_all, overflow_types,
}
use aic8800_linux_driver.Radar.Detector.Find.{Known}

-- Time stamps of at most `ts` in all queues, and room in a new one.
pub record Good (ts : ℕ) (t : RadarType) : Type 0 where
  pub some_pulses : 0 < t.spec.ppb
  pub few_pulses : t.spec.ppb < 256
  pub sound : All (Sound ts) t.detectors

pub ops_add-Sound :
    (w : RadarWaveform) (ts : ℕ) (d : PriDetector) (m : Pools)
    → Sound ts d
    → Sound ts (ops_add_pulse w d ts m).1
unfolding ops_add_pulse
ops_add-Sound short ts d m s = short_add-Sound ts d m s
ops_add-Sound weather ts d m s = short_add-Sound ts d m s
ops_add-Sound interleaved ts d m s = short_add-Sound ts d m s
ops_add-Sound long ts d m s = long_add-Sound ts d m s

init-Sound :
    (w : RadarWaveform) (ts : ℕ) (d : PriDetector)
    → d.pulses ≡ []
    → d.count ≡ 0
    → 0 < d.rs.ppb
    → d.rs.ppb < 256
    → Sound ts (ops_init w d)
init-Sound w ts d p c z l = elim w as (λ k. Sound ts (ops_init k d)) [
  | short ↦ empty (ops_init short d) p c (omega (arith, z)) (omega (arith, l))
  | weather ↦ empty (ops_init weather d) p c (omega (arith, z)) (omega (arith, l))
  | interleaved ↦ empty (ops_init interleaved d) p c (omega (arith, z)) (omega (arith, l))
  | long ↦ empty (ops_init long d) p c (omega arith) (omega arith)
]
  where
    empty :
        (e : PriDetector)
        → e.pulses ≡ []
        → e.count ≡ 0
        → 0 < e.max_count
        → e.max_count + 1 < u32_mod
        → Sound ts e
    empty e p c z l = record {
      queue = record {
        counted = c ∙ sym (ap length p);
        room = omega (arith, z, ap length p);
        small = l;
        order = subst (λ ps. Falling e.last_ts ps) (sym p) tt;
        inside = subst (All (λ x. e.last_ts ≤ x + e.window_size)) (sym p) tt;
      };
      upto = subst (Falling ts) (sym p) tt;
    }

pub new-Sound :
    (ts freq : ℕ) (rs : RadarDetectorSpecs)
    → 0 < rs.ppb
    → rs.ppb < 256
    → Sound ts (new_detector rs freq)
unfolding new_detector
new-Sound ts freq rs z l = init-Sound rs.waveform ts fresh refl refl z l
  where
    fresh : PriDetector
    fresh = record {
      rs = rs;
      last_ts = 0;
      sequences = [];
      pulses = [];
      count = 0;
      max_count = 0;
      window_size = 0;
      freq = freq;
    }

pub All-set {ℓ κ} :
    {A : Type ℓ} (P : A → Type κ) (xs : List A) (i : ℕ) (v : A)
    → All P xs
    → P v
    → All P (set xs i v)
All-set P [] i v a p = a
All-set P (x ∷ xs) zero v a p = (p, a.1)
All-set P (x ∷ xs) (suc i) v a p = (a.0, All-set P xs i v a.1 p)

pub All-later : (a b : ℕ) (ds : List PriDetector) → a ≤ b → All (Sound a) ds → All (Sound b) ds
All-later a b [] l s = tt
All-later a b (d ∷ rest) l s = (later a b d l s.0, All-later a b rest l s.1)

pub Good-later : (a b : ℕ) (ts : List RadarType) → a ≤ b → All (Good a) ts → All (Good b) ts
Good-later a b [] l g = tt
Good-later a b (t ∷ rest) l g = (
  record {
    some_pulses = g.0.some_pulses;
    few_pulses = g.0.few_pulses;
    sound = All-later a b t.detectors l g.0.sound;
  },
  Good-later a b rest l g.1,
)

overflow_all-Sound :
    (ts : ℕ) (ds : List PriDetector) (m : Pools)
    → All (Sound ts) ds
    → All (Sound ts) (overflow_all ds ts m).0
overflow_all-Sound ts [] m s = tt
overflow_all-Sound ts (d ∷ rest) m s = elim (Bool-cases (reset_on_pri_overflow d.rs.waveform)) [
  | inl e ↦
      rw e
        (reset-Sound ts ts ts d m s.0, overflow_all-Sound ts rest (pri_detector_reset d ts m).1 s.1)
  | inr e ↦ rw e (s.0, overflow_all-Sound ts rest m s.1)
]

pub overflow_types-Good :
    (at : ℕ) (ts : List RadarType) (m : Pools)
    → All (Good at) ts
    → All (Good at) (overflow_types ts at m).0
overflow_types-Good at [] m g = tt
overflow_types-Good at (t ∷ rest) m g = (
  record {
    some_pulses = g.0.some_pulses;
    few_pulses = g.0.few_pulses;
    sound = overflow_all-Sound at t.detectors m g.0.sound;
  },
  overflow_types-Good at rest (overflow_all t.detectors at m).1 g.1,
)

reset-freq : (d : PriDetector) (ts : ℕ) (m : Pools) → (pri_detector_reset d ts m).0.freq ≡ d.freq
unfolding pri_detector_reset
reset-freq d ts m = refl

overflow_all-Known :
    (freq ts : ℕ) (ds : List PriDetector) (m : Pools)
    → Known freq ds
    → Known freq (overflow_all ds ts m).0
overflow_all-Known freq ts [] m k = k
overflow_all-Known freq ts (d ∷ rest) m k =
    elim (Bool-cases (reset_on_pri_overflow d.rs.waveform)) [
      | inl e ↦ rw e (
          either (reset-freq d ts m) k
            (overflow_all-Known freq ts rest (pri_detector_reset d ts m).1))
      | inr e ↦ rw e (either refl k (overflow_all-Known freq ts rest m))
    ]
  where
    either : {f : ℕ} {A B : Type 0} → f ≡ d.freq → (d.freq ≡ freq) ⊎ A → (A → B) → (f ≡ freq) ⊎ B
    either e (inl h) go = inl (e ∙ h)
    either e (inr h) go = inr (go h)

-- The pattern has a detector of the frequency.
abbrev pub Tuned : ℕ → RadarType → Type 0
Tuned freq t = Known freq t.detectors

pub overflow_types-Tuned :
    (freq at : ℕ) (ts : List RadarType) (m : Pools)
    → All (Tuned freq) ts
    → All (Tuned freq) (overflow_types ts at m).0
overflow_types-Tuned freq at [] m k = tt
overflow_types-Tuned freq at (t ∷ rest) m k = (
  overflow_all-Known freq at t.detectors m k.0,
  overflow_types-Tuned freq at rest (overflow_all t.detectors at m).1 k.1,
)

-- What a reset leaves.
pub record Cleared (d : PriDetector) : Type 0 where
  pub sequences : d.sequences ≡ []
  pub pulses : d.pulses ≡ []
  pub count : d.count ≡ 0

abbrev pub AllCleared : RadarType → Type 0
AllCleared t = All Cleared t.detectors

reset-Cleared : (d : PriDetector) (ts : ℕ) (m : Pools) → Cleared (pri_detector_reset d ts m).0
unfolding pri_detector_reset
reset-Cleared d ts m = record { sequences = refl; pulses = refl; count = refl }

reset_all-Both :
    (at b ts : ℕ) (ds : List PriDetector) (m : Pools)
    → All (Sound at) ds
    → All (Sound b) (reset_all ds ts m).0 × All Cleared (reset_all ds ts m).0
reset_all-Both at b ts [] m s = (tt, tt)
reset_all-Both at b ts (d ∷ rest) m s =
    let (e, k) = pri_detector_reset d ts m in
    let r = reset_all-Both at b ts rest k s.1 in
    ((reset-Sound at b ts d m s.0, r.0), (reset-Cleared d ts m, r.1))

pub reset_types-Both :
    (at b : ℕ) (ts : List RadarType) (m : Pools)
    → All (Good at) ts
    → All (Good b) (reset_types ts at m).0 × All AllCleared (reset_types ts at m).0
reset_types-Both at b [] m g = (tt, tt)
reset_types-Both at b (t ∷ rest) m g =
    let a = reset_all-Both at b at t.detectors m g.0.sound in
    let r = reset_types-Both at b rest (reset_all t.detectors at m).1 g.1 in
    (
      (record { some_pulses = g.0.some_pulses; few_pulses = g.0.few_pulses; sound = a.0 }, r.0),
      (a.1, r.1),
    )
