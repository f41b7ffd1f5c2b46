-- ===== src/Radar/Pulses.antt =====
-- The queue of pulses of a detector, and pri_detector_reset (rwnx_radar.c).
pub mod Memory
pub mod Recent
pub mod Window
pub mod Sound
use aic8800_linux_driver.Common.{
  ℕ, zero, suc, ◌+◌, ◌-◌, ◌%◌, Bool, true, false, Option, none, some, List, [], ◌∷◌, length, ltb,
  leb, if◌then◌else◌, u32_mod,
}
use aic8800_linux_driver.Radar.{
  PriDetector, PriSequence, Pools, pool_get_pulse_elem, pool_put_pulse_elem, pool_put_pseq_elem,
}

abbrev pub get_last? {ℓ} : {A : Type ℓ} → List A → Option A
get_last? [] = none
get_last? (x ∷ []) = some x
get_last? (x ∷ y ∷ r) = get_last? (y ∷ r)

abbrev pub drop_last {ℓ} : {A : Type ℓ} → List A → List A
drop_last [] = []
drop_last (x ∷ []) = []
drop_last (x ∷ y ∷ r) = x ∷ drop_last (y ∷ r)

abbrev pub pulse_queue_get_tail : PriDetector → Option ℕ
pulse_queue_get_tail d = get_last? d.pulses

-- Its result, whether pulses are left, is not used.
abbrev pub dequeue_some : PriDetector → Pools → Option ℕ → PriDetector × Pools
dequeue_some d m none = (d, m)
dequeue_some d m (some p) = (
  record d { pulses = drop_last d.pulses; count = (d.count + u32_mod - 1) % u32_mod },
  pool_put_pulse_elem m,
)

pub pulse_queue_dequeue : PriDetector → Pools → PriDetector × Pools
pulse_queue_dequeue d m = dequeue_some d m (pulse_queue_get_tail d)

abbrev pub unless_recent :
    ℕ → PriDetector × Pools → PriDetector × Pools → Option ℕ → PriDetector × Pools
unless_recent min stay rest none = stay
unless_recent min stay rest (some p) = if leb min p then stay else rest

-- The loop of pulse_queue_check_window: one round takes one pulse, so `n` is the length of the queue.
pub check_from : ℕ → ℕ → PriDetector → Pools → PriDetector × Pools
unfolding pulse_queue_dequeue
check_from zero min d m = (d, m)
check_from (suc n) min d m =
    let (e, k) = pulse_queue_dequeue d m in
    unless_recent min (d, m) (check_from n min e k) (pulse_queue_get_tail d)

pub pulse_queue_check_window : PriDetector → Pools → PriDetector × Pools
unfolding check_from
pulse_queue_check_window d m =
    if ltb d.count 2
    then (d, m)
    else if leb d.last_ts d.window_size
    then (d, m)
    else check_from (length d.pulses) (d.last_ts - d.window_size) d m

abbrev pub add_pulse_elem : PriDetector → ℕ → PriDetector
add_pulse_elem d ts = record d {
  pulses = ts ∷ d.pulses;
  count = (d.count + 1) % u32_mod;
  last_ts = ts;
}

abbrev pub bounded : PriDetector × Pools → PriDetector × Pools
bounded (d, m) = if leb d.max_count d.count then pulse_queue_dequeue d m else (d, m)

-- The result is false where there is no memory.
pub pulse_queue_enqueue : PriDetector → ℕ → Pools → Bool × PriDetector × Pools
unfolding pulse_queue_check_window pulse_queue_dequeue
pulse_queue_enqueue d ts m =
    let (ok, k) = pool_get_pulse_elem m in
    let (e, l) = bounded (pulse_queue_check_window (add_pulse_elem d ts) k) in
    if ok then (true, e, l) else (false, d, k)

-- All elements of a list go back to their pool.
abbrev pub put_pulses : List ℕ → Pools → Pools
put_pulses [] m = m
put_pulses (p ∷ ps) m = put_pulses ps (pool_put_pulse_elem m)

abbrev pub put_sequences : List PriSequence → Pools → Pools
put_sequences [] m = m
put_sequences (s ∷ ss) m = put_sequences ss (pool_put_pseq_elem m)

unfoldable pub pri_detector_reset : PriDetector → ℕ → Pools → PriDetector × Pools
pri_detector_reset d ts m = (
  record d { sequences = []; pulses = []; count = 0; last_ts = ts },
  put_pulses d.pulses (put_sequences d.sequences m),
)
