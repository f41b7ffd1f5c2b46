-- ===== src/Radar/Process.antt =====
-- The pulses from the firmware (rwnx_radar_detect_ind of rwnx_msg_rx.c), their ring for each chain
-- (rwnx_radar.h), and rwnx_radar_process_pulse of rwnx_radar.c. The dump of pulses for debugging is left
-- out.
pub mod Ring
pub mod Step
use aic8800_linux_driver.Common.{
  ℕ, zero, suc, ◌+◌, ◌-◌, ◌*◌, ◌/◌, ◌%◌, Bool, true, false, ◌&&◌, ◌||◌, not, Option, none, some,
  List, [], ◌∷◌, ◌++◌, length, set, get_or, ltb, leb, ◌==◌, if◌then◌else◌, u16_mod,
}
use aic8800_linux_driver.Radar.{Pools, Chain, riu, fcu}
use aic8800_linux_driver.Radar.Detector.{DfsPatternDetector, dfs_pattern_detector_add_pulse}

abbrev pub rwnx_radar_pulse_max : ℕ
rwnx_radar_pulse_max = 32

pub record RwnxRadarPulses : Type 0 where
  pub index : ℕ
  pub count : ℕ
  pub buffer : List ℕ

pub push_pulse : RwnxRadarPulses → ℕ → RwnxRadarPulses
push_pulse p v = record {
  index = (p.index + 1) % rwnx_radar_pulse_max;
  count = if ltb p.count rwnx_radar_pulse_max then p.count + 1 else p.count;
  buffer = set p.buffer p.index v;
}

pub push_pulses : RwnxRadarPulses → List ℕ → RwnxRadarPulses
unfolding push_pulse
push_pulses p [] = p
push_pulses p (v ∷ vs) = push_pulses (push_pulse p v) vs

abbrev pub rwnx_radar_detection_is_enable : DfsPatternDetector → Bool
rwnx_radar_detection_is_enable dpd = not (dpd.enabled == 0)

-- The pulses of one message, on the chain that it names. The result is 0 or -1, here whether there was no
-- error, with whether the work is scheduled.
pub rwnx_radar_detect_ind :
    DfsPatternDetector → RwnxRadarPulses → List ℕ → Bool × Bool × RwnxRadarPulses
unfolding push_pulses
rwnx_radar_detect_ind dpd p vs =
    if length vs == 0
    then (false, false, p)
    else if rwnx_radar_detection_is_enable dpd
    then (true, true, push_pulses p vs)
    else (true, false, p)

-- `n` words from the index `i` on.
abbrev pub memcpy_from : List ℕ → ℕ → ℕ → List ℕ
memcpy_from buffer i zero = []
memcpy_from buffer i (suc n) = get_or buffer i 0 ∷ memcpy_from buffer (suc i) n

abbrev pub start_of : RwnxRadarPulses → ℕ
start_of p =
    if ltb p.index p.count then p.index + rwnx_radar_pulse_max - p.count else p.index - p.count

-- The copy of the pulses that rwnx_radar_process_pulse takes of a chain; it leaves no pulse.
pub copy_pulses : RwnxRadarPulses → List ℕ
copy_pulses p =
    let start = start_of p in
    let count1 = rwnx_radar_pulse_max - start in
    if ltb rwnx_radar_pulse_max (start + p.count)
    then memcpy_from p.buffer start count1 ++ memcpy_from p.buffer 0 (p.count - count1)
    else memcpy_from p.buffer start p.count

-- The fields of `struct radar_pulse`, the first in the lowest bits: `freq`, of which this adds twice the
-- signed value to a frequency in a u16, and `len` and `rep`.
abbrev pub pulse_freq : ℕ → ℕ → ℕ
pulse_freq freq v =
    let f = v % 64 in (if ltb f 32 then freq + 2 * f else freq + u16_mod + 2 * f - 128) % u16_mod

abbrev pub pulse_len : ℕ → ℕ
pulse_len v = v / 1024 % 64

abbrev pub pulse_rep : ℕ → ℕ
pulse_rep v = v / 65536 % u16_mod

abbrev pub nx_nb_radar_detected : ℕ
nx_nb_radar_detected = 4

pub record RwnxRadarDetected : Type 0 where
  pub index : ℕ
  pub count : ℕ
  pub time : List ℕ
  pub freq : List ℕ

-- `enum rwnx_radar_status`
pub data RwnxRadarStatus : Type 0 where
  idle : RwnxRadarStatus
  cac_busy : RwnxRadarStatus
  cac_done : RwnxRadarStatus
  inservice_busy : RwnxRadarStatus
  inservice_done : RwnxRadarStatus

abbrev pub is_busy : RwnxRadarStatus → Bool
is_busy idle = false
is_busy cac_busy = true
is_busy cac_done = false
is_busy inservice_busy = true
is_busy inservice_done = false

-- One chain of `struct rwnx_radar`. `reports` counts the calls of rwnx_radar_detected.
pub record RadarChain : Type 0 where
  pub pulses : RwnxRadarPulses
  pub dpd : DfsPatternDetector
  pub detected : RwnxRadarDetected
  pub reports : ℕ

pub rwnx_radar_detection_enable : RadarChain → ℕ → RadarChain
rwnx_radar_detection_enable c enable = record c { dpd = record c.dpd { enabled = enable } }

-- On the operating chain; `flag` is the IEEE80211_CHAN_RADAR of the current channel, if there is one.
pub rwnx_radar_detection_enable_on_cur_channel : RadarChain → Option Bool → RadarChain
unfolding rwnx_radar_detection_enable
rwnx_radar_detection_enable_on_cur_channel c none = c
rwnx_radar_detection_enable_on_cur_channel c (some flag) =
    rwnx_radar_detection_enable c (if flag then 2 else 0)

-- A radar on the operating chain is reported, where reports are enabled, and detection stops.
pub report_radar : Chain → RadarChain → RadarChain
unfolding rwnx_radar_detection_enable
report_radar fcu c = c
report_radar riu c =
    let off = rwnx_radar_detection_enable (record c { reports = c.reports + 1 }) 0 in
    if c.dpd.enabled == 2 then record off { pulses = record off.pulses { count = 0 } } else c

-- The entry of a radar, at the time `now`.
pub note_radar : RadarChain → ℕ → ℕ → RadarChain
note_radar c freq now =
    let d = c.detected in
    record c {
      detected = record {
        index = (d.index + 1) % nx_nb_radar_detected;
        count = (d.count + 1) % u16_mod;
        time = set d.time d.index now;
        freq = set d.freq d.index freq;
      };
    }

abbrev pub put_dpd : RadarChain → DfsPatternDetector → RadarChain
put_dpd c d = record c { dpd = d }

-- What follows a pulse of the frequency `freq`; `go` is the rest of the loop.
abbrev pub after_pulse :
    Chain
    → ℕ
    → ℕ
    → RadarChain
    → (RadarChain → Pools → Option (RadarChain × Pools))
    → Option (Bool × DfsPatternDetector × Pools)
    → Option (RadarChain × Pools)
after_pulse chain freq seconds c go none = none
after_pulse chain freq seconds c go (some (true, d, m)) =
    some (note_radar (report_radar chain (put_dpd c d)) freq seconds, m)
after_pulse chain freq seconds c go (some (false, d, m)) = go (put_dpd c d) m

-- The loop over the pulses of a chain, at the frequency `freq`; the result is none for an access through
-- the null pointer. `now` is the value of jiffies at the start, `jiffies` the one at a report, and
-- `seconds` the real time.
pub process_pulses :
    (ℕ → ℕ)
    → Chain
    → RwnxRadarStatus
    → ℕ
    → ℕ
    → ℕ
    → ℕ
    → List ℕ
    → RadarChain
    → Pools
    → Option (RadarChain × Pools)
unfolding report_radar note_radar
process_pulses jiffies_to_usecs chain status freq now jiffies seconds [] c m = some (c, m)
process_pulses jiffies_to_usecs chain status freq now jiffies seconds (v ∷ vs) c m =
    let f = pulse_freq freq v in
    let go = process_pulses jiffies_to_usecs chain status freq now jiffies seconds vs in
    if not (is_busy status)
    then some (c, m)
    else after_pulse chain f seconds c go (
        dfs_pattern_detector_add_pulse jiffies_to_usecs c.dpd f (pulse_rep v) (pulse_len v * 2) now
          jiffies m)

-- Both chains, and `status`, of `struct rwnx_radar`; rwnx_radar_get_center_freq gives the frequency of
-- the second channel to the second chain, and to the first that of the current channel, if there is one.
pub record RwnxRadar : Type 0 where
  pub riu : RadarChain
  pub fcu : RadarChain
  pub status : RwnxRadarStatus

pub record Channels : Type 0 where
  pub current : Option ℕ
  pub second : ℕ

pub rwnx_radar_get_center_freq : Channels → Chain → ℕ
rwnx_radar_get_center_freq ch fcu = ch.second
rwnx_radar_get_center_freq ch riu = elim ch.current [ none ↦ 0 | some freq ↦ freq ]

abbrev pub emptied : RadarChain → RadarChain
emptied c = record c { pulses = record c.pulses { count = 0 } }

-- The second chain, after the first.
abbrev pub then_second :
    (RadarChain → Pools → Option (RadarChain × Pools))
    → RwnxRadar
    → Option (RadarChain × Pools)
    → Option (RwnxRadar × Pools)
then_second go r none = none
then_second go r (some (a, m)) = elim (go r.fcu m) [
  | none ↦ none
  | some s ↦ some (record r { riu = a; fcu = s.0 }, s.1)
]

-- The pulses that come after the copies are left out.
pub rwnx_radar_process_pulse :
    (ℕ → ℕ) → RwnxRadar → Channels → ℕ → ℕ → ℕ → Pools → Option (RwnxRadar × Pools)
unfolding copy_pulses process_pulses rwnx_radar_get_center_freq
rwnx_radar_process_pulse jiffies_to_usecs r ch now jiffies seconds m =
    let a = copy_pulses r.riu.pulses in
    let b = copy_pulses r.fcu.pulses in
    let f = rwnx_radar_get_center_freq ch riu in
    let g = rwnx_radar_get_center_freq ch fcu in
    then_second (process_pulses jiffies_to_usecs fcu r.status g now jiffies seconds b)
      (record r { riu = emptied r.riu; fcu = emptied r.fcu })
      (process_pulses jiffies_to_usecs riu r.status f now jiffies seconds a (emptied r.riu) m)
