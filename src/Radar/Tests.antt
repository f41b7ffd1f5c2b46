-- ===== src/Radar/Tests.antt =====
-- The theorems of radar detection at concrete inputs.
use aic8800_linux_driver.Common.{
  ℕ, ◌+◌, ◌*◌, ◌≡◌, refl, true, false, [], ◌∷◌, ◌++◌, replicate, arith,
}
use aic8800_linux_driver.Radar.{
  RadarDetectorSpecs, PriSequence, PriDetector, Pools, riu, etsi, fcc, etsi_pattern_short,
}
use aic8800_linux_driver.Radar.Cac.{
  Cac, no_cac, rwnx_radar_start_cac, rwnx_radar_cancel_cac, expire, rwnx_radar_cac_work,
}
use aic8800_linux_driver.Radar.Pulses.{pulse_queue_enqueue}
use aic8800_linux_driver.Radar.Pulses.Window.{Queue, Enqueued, pulse_queue_enqueue-Enqueued}
use aic8800_linux_driver.Radar.Short.{
  pde_get_multiple, pde_short_create_sequences, pde_short_add_pulse,
}
use aic8800_linux_driver.Radar.Short.Multiple.{IsMultiple, pde_get_multiple_lem}
use aic8800_linux_driver.Radar.Short.Created.{Created, Added, pde_short_create_sequences-Added}
use aic8800_linux_driver.Radar.Short.Report.{Reported, pde_short_add_pulse-Reported}
use aic8800_linux_driver.Radar.Detector.{
  RadarType, DfsPatternDetector, dfs_pattern_detector_add_pulse,
}
use aic8800_linux_driver.Radar.Detector.Outcome.{Outcome, add_pulse-Outcome}
use aic8800_linux_driver.Radar.Detector.Domain.{dfs_pattern_detector_set_domain}
use aic8800_linux_driver.Radar.Detector.Domain.Changed.{Changed, set_domain-Changed}
use aic8800_linux_driver.Radar.Process.{
  RwnxRadarPulses, push_pulses, copy_pulses, cac_busy, RadarChain, process_pulses,
}
use aic8800_linux_driver.Radar.Process.Ring.{newest, copy-push_pulses}
use aic8800_linux_driver.Radar.Process.Step.{Processed, process_pulses-Processed}

abbrev spec : RadarDetectorSpecs
spec = etsi_pattern_short 0 0 8 700 700 18

-- A sequence of three pulses, at the interval of the pattern.
abbrev sequence : PriSequence
sequence = record {
  pri = 1429;
  dur = 24325;
  count = 3;
  count_falses = 0;
  first_ts = 5000;
  last_ts = 7858;
  deadline_ts = 29325;
  ppb_thresh = 9;
}

abbrev detector : PriDetector
detector = record {
  rs = spec;
  last_ts = 7858;
  sequences = sequence ∷ [];
  pulses = 7858 ∷ 6429 ∷ 5000 ∷ [];
  count = 3;
  max_count = 36;
  window_size = 26010;
  freq = 5260;
}

abbrev pools : Pools
pools = record {
  pulse_pool = 1;
  pseq_pool = 0;
  kmalloc = true ∷ true ∷ true ∷ [];
  stale_dur = 0;
  references = 1;
}

detector-Queue : Queue detector
detector-Queue = record {
  counted = refl;
  room = omega arith;
  small = omega arith;
  order = (omega arith, (omega arith, (omega arith, tt)));
  inside = (omega arith, (omega arith, (omega arith, tt)));
}

pulse_queue_enqueue-Enqueued_example :
    Enqueued detector 9287 pools (pulse_queue_enqueue detector 9287 pools)
pulse_queue_enqueue-Enqueued_example =
    pulse_queue_enqueue-Enqueued detector 9287 pools detector-Queue
      (omega arith, (omega arith, (omega arith, tt)))

pde_get_multiple_lem_example : IsMultiple 2870 1429 16 (pde_get_multiple 2870 1429 16)
pde_get_multiple_lem_example = pde_get_multiple_lem 2870 1429 16 (omega arith)

pde_short_create_sequences-Added_example :
    Added
      (Created spec 9287 2 (7858 ∷ 6429 ∷ 5000 ∷ []))
      (sequence ∷ [])
      (pde_short_create_sequences detector 9287 2 pools).1.sequences
pde_short_create_sequences-Added_example =
    pde_short_create_sequences-Added detector 9287 2 pools (omega arith)

pde_short_add_pulse-Reported_example :
    Reported detector 9287 (pde_short_add_pulse detector 9287 pools)
pde_short_add_pulse-Reported_example =
    pde_short_add_pulse-Reported detector 9287 pools
      (record { queue = detector-Queue; pending = (refl, tt) })
      (omega arith, (omega arith, (omega arith, tt))) (omega arith, tt)

abbrev pattern : RadarType
pattern = record { spec = spec; detectors = detector ∷ [] }

abbrev dpd : DfsPatternDetector
dpd = record {
  enabled = 2;
  region = etsi;
  last_pulse_ts = 7858;
  prev_jiffies = 10;
  types = pattern ∷ [];
}

add_pulse-Outcome_example :
    Outcome dpd 5260 pools
      (dfs_pattern_detector_add_pulse (λ j. j * 1000) dpd 5260 1429 2 11 11 pools)
add_pulse-Outcome_example =
    add_pulse-Outcome (λ j. j * 1000) dpd 5260 1429 2 11 11 pools
      (
        record {
          some_pulses = omega arith;
          few_pulses = omega arith;
          sound = (
            record {
              queue = detector-Queue;
              upto = (omega arith, (omega arith, (omega arith, tt)));
            },
            tt,
          );
        },
        tt,
      )
      (omega arith)

set_domain-Changed_example :
    Changed dpd fcc riu pools (dfs_pattern_detector_set_domain dpd fcc riu pools)
set_domain-Changed_example = set_domain-Changed dpd fcc riu pools (omega arith) (omega arith)

-- A ring with two pulses, the last slot and the first.
abbrev ring : RwnxRadarPulses
ring = record { index = 1; count = 2; buffer = 9 ∷ replicate 30 0 ++ (8 ∷ []) }

copy-push_pulses_example :
    copy_pulses (push_pulses ring (10 ∷ 11 ∷ [])) ≡ newest (copy_pulses ring ++ (10 ∷ 11 ∷ []))
copy-push_pulses_example =
    copy-push_pulses ring (10 ∷ 11 ∷ [])
      (record { slots = refl; index = omega arith; count = omega arith })

abbrev chain : RadarChain
chain = record {
  pulses = ring;
  dpd = dpd;
  detected = record { index = 3; count = 3; time = replicate 4 0; freq = replicate 4 0 };
  reports = 0;
}

-- A pulse of 2 us, 1429 us after the one before.
abbrev word : ℕ
word = 1429 * 65536 + 1024

process_pulses-Processed_example :
    Processed
      (λ j. j * 1000)
      riu
      cac_busy
      5260
      11
      11
      1700000000
      (word ∷ [])
      chain
      pools
      (process_pulses (λ j. j * 1000) riu cac_busy 5260 11 11 1700000000 (word ∷ []) chain pools)
process_pulses-Processed_example =
    process_pulses-Processed (λ j. j * 1000) riu cac_busy 5260 11 11 1700000000 (word ∷ []) chain
      pools

-- A check that is cancelled after its work was taken up, and one that finishes.
abbrev checked : Cac
checked = rwnx_radar_cac_work (
    expire (
      rwnx_radar_start_cac
        (rwnx_radar_cac_work (rwnx_radar_cancel_cac false (expire (rwnx_radar_start_cac no_cac 3))))
        4))
