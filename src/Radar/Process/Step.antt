-- ===== src/Radar/Process/Step.antt =====
-- What the processing of the pulses of a chain changes: at most one radar is noted.
use aic8800_linux_driver.Common.{
  ℕ, ◌+◌, ◌*◌, ◌%◌, ◌≡◌, refl, sym, ap, ◌∙◌, ◌⊎◌, inl, inr, Bool, true, false, Option, none, some,
  List, [], ◌∷◌, set, ◌==◌, ==_iff, Bool-cases, u16_mod, false≢true,
}
use aic8800_linux_driver.Radar.{Pools, Chain, riu, fcu}
use aic8800_linux_driver.Radar.Detector.{DfsPatternDetector, dfs_pattern_detector_add_pulse}
use aic8800_linux_driver.Radar.Detector.Enabled.{Enabled, add_pulse-Enabled}
use aic8800_linux_driver.Radar.Process.{
  RwnxRadarStatus, RadarChain, is_busy, report_radar, note_radar, put_dpd, after_pulse,
  process_pulses, pulse_freq, pulse_rep, pulse_len, nx_nb_radar_detected,
  rwnx_radar_detection_enable,
}

-- The radar is reported only on the operating chain, where reports are enabled; then detection stops, and
-- the pulses that came are dropped.
pub data Reported (chain : Chain) (c e : RadarChain) : Type 0 where
  silent :
      (chain ≡ fcu) ⊎ (¬ (c.dpd.enabled ≡ 2))
      → e.reports ≡ c.reports
      → e.dpd.enabled ≡ c.dpd.enabled
      → e.pulses ≡ c.pulses
      → Reported chain c e
  told :
      chain ≡ riu
      → c.dpd.enabled ≡ 2
      → e.reports ≡ c.reports + 1
      → e.dpd.enabled ≡ 0
      → e.pulses.count ≡ 0
      → Reported chain c e

-- One more radar, in the slot of the index.
pub record Noted (c e : RadarChain) (f now : ℕ) : Type 0 where
  pub index : e.detected.index ≡ (c.detected.index + 1) % nx_nb_radar_detected
  pub count : e.detected.count ≡ (c.detected.count + 1) % u16_mod
  pub freq : e.detected.freq ≡ set c.detected.freq c.detected.index f
  pub time : e.detected.time ≡ set c.detected.time c.detected.index now

-- What the detectors of a chain make of a list of pulses.
pub data Fate : Type 0 where
  fault : Fate
  silence : DfsPatternDetector → Pools → Fate
  hit : ℕ → DfsPatternDetector → Pools → Fate

module _ (usecs : ℕ → ℕ) (freq now jiffies : ℕ) where
  abbrev pub detect : ℕ → DfsPatternDetector → Pools → Option (Bool × DfsPatternDetector × Pools)
  detect v d m =
      dfs_pattern_detector_add_pulse usecs d (pulse_freq freq v) (pulse_rep v) (pulse_len v * 2) now
        jiffies m

  -- The pulses go to the detectors one by one, up to the first that they report or cannot take.
  pub data First : List ℕ → DfsPatternDetector → Pools → Fate → Type 0 where
    ended : (d : DfsPatternDetector) (m : Pools) → First [] d m (silence d m)
    failed :
        (v : ℕ) (vs : List ℕ) (d : DfsPatternDetector) (m : Pools)
        → detect v d m ≡ none
        → First (v ∷ vs) d m fault
    found :
        (v : ℕ) (vs : List ℕ) (d e : DfsPatternDetector) (m k : Pools)
        → detect v d m ≡ some (true, e, k)
        → First (v ∷ vs) d m (hit v e k)
    passed :
        (v : ℕ) (vs : List ℕ) (d e : DfsPatternDetector) (m k : Pools) (f : Fate)
        → detect v d m ≡ some (false, e, k)
        → First vs e k f
        → First (v ∷ vs) d m f

-- What the loop over pulses leads to.
pub data Processed (usecs : ℕ → ℕ) (chain : Chain) (status : RwnxRadarStatus)
    (freq now jiffies seconds : ℕ) (vs : List ℕ) (c : RadarChain) (m : Pools)
    : Option (RadarChain × Pools) → Type 0 where
  idle :
      is_busy status ≡ false
      → Processed usecs chain status freq now jiffies seconds vs c m (some (c, m))
  null_pointer :
      is_busy status ≡ true
      → First usecs freq now jiffies vs c.dpd m fault
      → Processed usecs chain status freq now jiffies seconds vs c m none
  no_radar :
      (d : DfsPatternDetector) (k : Pools)
      → is_busy status ≡ true
      → First usecs freq now jiffies vs c.dpd m (silence d k)
      → Processed usecs chain status freq now jiffies seconds vs c m (some (put_dpd c d, k))
  radar :
      (e : RadarChain) (d : DfsPatternDetector) (k : Pools) (v : ℕ)
      → is_busy status ≡ true
      → First usecs freq now jiffies vs c.dpd m (hit v d k)
      → Noted c e (pulse_freq freq v) seconds
      → Reported chain c e
      → e.dpd.types ≡ d.types
      → Processed usecs chain status freq now jiffies seconds vs c m (some (e, k))

reported : (chain : Chain) (c : RadarChain) → Reported chain c (report_radar chain c)
unfolding report_radar rwnx_radar_detection_enable
reported fcu c = silent (inl refl) refl refl refl
reported riu c = elim (Bool-cases (c.dpd.enabled == 2)) [
  | inl e ↦ rw e (told refl ((==_iff c.dpd.enabled 2).0 e) refl refl refl)
  | inr e ↦ rw e (
      silent (inr (λ z. absurd (false≢true (sym e ∙ (==_iff c.dpd.enabled 2).1 z)))) refl refl refl)
]

report-detected : (chain : Chain) (c : RadarChain) → (report_radar chain c).detected ≡ c.detected
unfolding report_radar rwnx_radar_detection_enable
report-detected fcu c = refl
report-detected riu c = elim (Bool-cases (c.dpd.enabled == 2)) [
  | inl e ↦ rw e refl
  | inr e ↦ rw e refl
]

-- The entry of a radar leaves the rest.
note-Reported :
    (chain : Chain) (c e : RadarChain) (f now : ℕ)
    → Reported chain c e
    → Reported chain c (note_radar e f now)
unfolding note_radar
note-Reported chain c e f now (silent w r a p) = silent w r a p
note-Reported chain c e f now (told w b r a p) = told w b r a p

note-Noted :
    (c e : RadarChain) (f now : ℕ) → e.detected ≡ c.detected → Noted c (note_radar e f now) f now
unfolding note_radar
note-Noted c e f now z = record {
  index = ap (λ d. (d.index + 1) % nx_nb_radar_detected) z;
  count = ap (λ d. (d.count + 1) % u16_mod) z;
  freq = ap (λ d. set d.freq d.index f) z;
  time = ap (λ d. set d.time d.index now) z;
}

-- With other detectors, enabled alike.
from_same :
    (chain : Chain) (c e : RadarChain) (d : DfsPatternDetector)
    → d.enabled ≡ c.dpd.enabled
    → Reported chain (put_dpd c d) e
    → Reported chain c e
from_same chain c e d z (silent (inl w) r a p) = silent (inl w) r (a ∙ z) p
from_same chain c e d z (silent (inr w) r a p) = silent (inr (λ h. w (z ∙ h))) r (a ∙ z) p
from_same chain c e d z (told w b r a p) = told w (sym z ∙ b) r a p

report-types : (chain : Chain) (c : RadarChain) → (report_radar chain c).dpd.types ≡ c.dpd.types
unfolding report_radar rwnx_radar_detection_enable
report-types fcu c = refl
report-types riu c = elim (Bool-cases (c.dpd.enabled == 2)) [
  | inl e ↦ rw e refl
  | inr e ↦ rw e refl
]

note-dpd : (c : RadarChain) (f now : ℕ) → (note_radar c f now).dpd ≡ c.dpd
unfolding note_radar
note-dpd c f now = refl

module _ (usecs : ℕ → ℕ) (chain : Chain) (status : RwnxRadarStatus)
    (freq now jiffies seconds : ℕ) where
  longer :
      (v : ℕ) (vs : List ℕ) (c : RadarChain) (d : DfsPatternDetector) (m k : Pools)
      (o : Option (RadarChain × Pools))
      → is_busy status ≡ true
      → detect usecs freq now jiffies v c.dpd m ≡ some (false, d, k)
      → d.enabled ≡ c.dpd.enabled
      → Processed usecs chain status freq now jiffies seconds vs (put_dpd c d) k o
      → Processed usecs chain status freq now jiffies seconds (v ∷ vs) c m o
  longer v vs c d m k (some _) b q z (idle i) = absurd (false≢true (sym i ∙ b))
  longer v vs c d m k none b q z (null_pointer i f) =
      null_pointer b (passed v vs c.dpd d m k fault q f)
  longer v vs c d m k (some _) b q z (no_radar e l i f) =
      no_radar e l b (passed v vs c.dpd d m k (silence e l) q f)
  longer v vs c d m k (some _) b q z (radar e g l w i f n r t) =
      radar e g l w b (passed v vs c.dpd d m k (hit w g l) q f)
        (record { index = n.index; count = n.count; freq = n.freq; time = n.time })
        (from_same chain c e d z r) t

  after_pulse-Processed :
      (v : ℕ) (vs : List ℕ) (c : RadarChain) (m : Pools)
      (go : RadarChain → Pools → Option (RadarChain × Pools))
      (o : Option (Bool × DfsPatternDetector × Pools))
      → is_busy status ≡ true
      → detect usecs freq now jiffies v c.dpd m ≡ o
      → Enabled c.dpd.enabled o
      → ((n : RadarChain) (k : Pools)
          → Processed usecs chain status freq now jiffies seconds vs n k (go n k))
      → Processed usecs chain status freq now jiffies seconds
          (v ∷ vs)
          c
          m
          (after_pulse chain (pulse_freq freq v) seconds c go o)
  after_pulse-Processed v vs c m go none b q z r = null_pointer b (failed v vs c.dpd m q)
  after_pulse-Processed v vs c m go (some (true, d, k)) b q z r =
      let p = put_dpd c d in
      let s = report_radar chain p in
      let f = pulse_freq freq v in
      radar (note_radar s f seconds) d k v b (found v vs c.dpd d m k q)
        (note-Noted c s f seconds (report-detected chain p))
        (from_same chain c (note_radar s f seconds) d z
          (note-Reported chain p s f seconds (reported chain p)))
        (ap (λ x. x.types) (note-dpd s f seconds) ∙ report-types chain p)
  after_pulse-Processed v vs c m go (some (false, d, k)) b q z r =
      longer v vs c d m k (go (put_dpd c d) k) b q z (r (put_dpd c d) k)

-- The loop over the pulses of a chain does nothing unless the status is busy. Otherwise it gives the
-- pulses to the detectors one by one, up to the first that they report or that goes through the null
-- pointer. It has no result exactly in this last case; if no pulse is reported it changes the detectors
-- alone; and if one is, it notes one radar in the slot of the index, at the frequency of that pulse. On
-- the operating chain with reports enabled it also reports it once, stops the detection and drops the
-- pulses of the ring, and else it does none of these.
pub process_pulses-Processed :
    (usecs : ℕ → ℕ) (chain : Chain) (status : RwnxRadarStatus) (freq now jiffies seconds : ℕ)
    (vs : List ℕ) (c : RadarChain) (m : Pools)
    → Processed usecs chain status freq now jiffies seconds vs c m
        (process_pulses usecs chain status freq now jiffies seconds vs c m)
unfolding process_pulses
process_pulses-Processed usecs chain status freq now jiffies seconds [] c m =
    elim (Bool-cases (is_busy status)) [
      | inl b ↦ no_radar c.dpd m b (ended c.dpd m)
      | inr b ↦ idle b
    ]
process_pulses-Processed usecs chain status freq now jiffies seconds (v ∷ vs) c m =
    elim (Bool-cases (is_busy status)) [
      | inl b ↦ rw b (
          after_pulse-Processed usecs chain status freq now jiffies seconds v vs c m
            (process_pulses usecs chain status freq now jiffies seconds vs)
            (detect usecs freq now jiffies v c.dpd m) b refl
            (add_pulse-Enabled usecs c.dpd (pulse_freq freq v) (pulse_rep v) (pulse_len v * 2) now
              jiffies m)
            (process_pulses-Processed usecs chain status freq now jiffies seconds vs))
      | inr b ↦ rw b (idle b)
    ]
