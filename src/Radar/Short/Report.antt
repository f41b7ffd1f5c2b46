-- ===== src/Radar/Short/Report.antt =====
-- A detector reports a sequence with the pulse that completes it, and keeps its invariant.
use aic8800_linux_driver.Common.{
  ℕ, ◌+◌, ◌*◌, ◌%◌, ◌<◌, ◌≡◌, refl, sym, ◌∙◌, inl, inr, Bool, true, false, ◌&&◌, not, Option, none,
  some, List, [], ◌∷◌, length, All, All-append, arith, ltb, leb, Bool-cases, ◌==◌, if◌then◌else◌,
  u32_mod, false≢true, subst,
}
use aic8800_linux_driver.Radar.{
  RadarDetectorSpecs, PriSequence, PriDetector, Pools, sub_u32, sub_u64, pool_put_pseq_elem,
}
use aic8800_linux_driver.Radar.Pulses.{pulse_queue_enqueue, pri_detector_reset}
use aic8800_linux_driver.Radar.Pulses.Recent.{Falling}
use aic8800_linux_driver.Radar.Pulses.Window.{
  Queue, Enqueued, no_memory, queued, pulse_queue_enqueue-Enqueued,
}
use aic8800_linux_driver.Radar.Short.{
  is_complete, add_to_sequence, add_from, pde_short_add_to_existing_seqs,
  pde_short_create_sequences, find_complete, pde_short_check_detection, pde_short_add_pulse,
  enqueued, detected, pde_get_multiple,
}
use aic8800_linux_driver.Radar.Short.Created.{Created, pde_short_create_sequences-Added}

abbrev pub Pending : RadarDetectorSpecs → PriSequence → Type 0
Pending rs s = is_complete rs s ≡ false

-- A detector between two pulses.
pub record IsValid (d : PriDetector) : Type 0 where
  pub queue : Queue d
  pub pending : All (Pending d.rs) d.sequences

-- Complete only with a pulse at `ts`.
data Fresh (rs : RadarDetectorSpecs) (ts : ℕ) (s : PriSequence) : Type 0 where
  pending : Pending rs s → Fresh rs ts s
  now : s.last_ts ≡ ts → Fresh rs ts s

-- The counter of false pulses has room for one more.
abbrev pub HasRoom : PriSequence → Type 0
HasRoom s = s.count_falses + 1 < u32_mod

still_pending :
    (n c k f : ℕ)
    → leb n c && ltb f k ≡ false
    → f + 1 < u32_mod
    → leb n c && ltb ((f + 1) % u32_mod) k ≡ false
still_pending n c k f e l = ground arith

add_to_sequence-Fresh :
    (rs : RadarDetectorSpecs) (tolerance ts : ℕ) (s : PriSequence)
    → Pending rs s
    → HasRoom s
    → Fresh rs ts (add_to_sequence tolerance ts s).0
unfolding add_to_sequence
add_to_sequence-Fresh rs tolerance ts s p l =
    elim (Bool-cases (ltb 0 (pde_get_multiple (sub_u32 ts s.last_ts) s.pri tolerance))) [
      | inl h ↦ rw h (now refl)
      | inr h ↦ rw h (
          pending (
            still_pending s.ppb_thresh s.count (s.count * rs.num_pri % u32_mod) s.count_falses p l))
    ]

if_All :
    (P : PriSequence → Type 0) (b : Bool) (x y : List PriSequence × ℕ × Pools)
    → All P x.0
    → All P y.0
    → All P (if b then x else y).0
if_All P true x y a c = a
if_All P false x y a c = c

add_from-Fresh :
    (rs : RadarDetectorSpecs) (tolerance ts max : ℕ) (seqs : List PriSequence) (m : Pools)
    → All (Pending rs) seqs
    → All HasRoom seqs
    → All (Fresh rs ts) (add_from tolerance ts seqs max m).0
unfolding add_from
add_from-Fresh rs tolerance ts max [] m p l = tt
add_from-Fresh rs tolerance ts max (s ∷ rest) m p l =
    let late = ltb s.deadline_ts ts in
    let (new, hit) = add_to_sequence tolerance ts s in
    let longer = not late && (hit && ltb max new.count) in
    let next = if longer then new.count else max in
    let k = if late then pool_put_pseq_elem m else m in
    let (kept, most, pools) = add_from tolerance ts rest next k in
    let f = add_from-Fresh rs tolerance ts next rest k p.1 l.1 in
    if_All (Fresh rs ts) late (kept, most, pools) (new ∷ kept, most, pools) f
      (add_to_sequence-Fresh rs tolerance ts s p.0 l.0, f)

news-Fresh :
    (rs : RadarDetectorSpecs) (ts n : ℕ) (ps : List ℕ) (news : List PriSequence)
    → All (Created rs ts n ps) news
    → All (Fresh rs ts) news
news-Fresh rs ts n ps [] a = tt
news-Fresh rs ts n ps (s ∷ news) a = (now a.0.last, news-Fresh rs ts n ps news a.1)

-- The first complete sequence has the pulse; if there is none, all are pending.
data Found (rs : RadarDetectorSpecs) (ts : ℕ) (seqs : List PriSequence)
    : Option PriSequence → Type 0 where
  nothing : All (Pending rs) seqs → Found rs ts seqs none
  complete :
      (s : PriSequence) → is_complete rs s ≡ true → s.last_ts ≡ ts → Found rs ts seqs (some s)

last_ts-now :
    (rs : RadarDetectorSpecs) (ts : ℕ) (s : PriSequence)
    → Fresh rs ts s
    → is_complete rs s ≡ true
    → s.last_ts ≡ ts
last_ts-now rs ts s (pending p) c = absurd (false≢true (sym p ∙ c))
last_ts-now rs ts s (now e) c = e

first_Found :
    (rs : RadarDetectorSpecs) (ts : ℕ) (s : PriSequence) (rest : List PriSequence) (b : Bool)
    (o : Option PriSequence)
    → is_complete rs s ≡ b
    → Fresh rs ts s
    → Found rs ts rest o
    → Found rs ts (s ∷ rest) (if b then some s else o)
first_Found rs ts s rest true o e f r = complete s e (last_ts-now rs ts s f e)
first_Found rs ts s rest false none e f (nothing p) = nothing (e, p)
first_Found rs ts s rest false (some _) e f (complete t c l) = complete t c l

find_complete-Found :
    (rs : RadarDetectorSpecs) (ts : ℕ) (seqs : List PriSequence)
    → All (Fresh rs ts) seqs
    → Found rs ts seqs (find_complete rs seqs)
unfolding find_complete
find_complete-Found rs ts [] a = nothing tt
find_complete-Found rs ts (s ∷ rest) a =
    first_Found rs ts s rest (is_complete rs s) (find_complete rs rest) refl a.0
      (find_complete-Found rs ts rest a.1)

-- What a detector returns for a pulse: nothing, or a sequence that the pulse completes.
pub data Reported (d : PriDetector) (ts : ℕ)
    : Option PriSequence × PriDetector × Pools → Type 0 where
  quiet : (e : PriDetector) (m : Pools) → e.rs ≡ d.rs → IsValid e → Reported d ts (none, e, m)
  report :
      (s : PriSequence) (e : PriDetector) (m : Pools)
      → is_complete d.rs s ≡ true
      → s.last_ts ≡ ts
      → Reported d ts (some s, e, m)

enqueued-Reported :
    (d b : PriDetector) (ts : ℕ) (m : Pools) (r : Bool × PriDetector × Pools)
    → b.rs ≡ d.rs
    → IsValid b
    → Enqueued b ts m r
    → Reported d ts (enqueued r)
enqueued-Reported d b ts m r s v (no_memory k z w) = quiet b k s v
enqueued-Reported d b ts m r s v (queued e k z t ps q rs seqs max win freq) =
    quiet e k (rs ∙ s) (record {
      queue = q;
      pending =
          subst (λ x. All (Pending x) e.sequences) (sym rs)
            (subst (All (Pending b.rs)) (sym seqs) v.pending);
    })

detected-Reported :
    (d b : PriDetector) (ts : ℕ) (m : Pools) (o : Option PriSequence)
    → b.rs ≡ d.rs
    → Queue b
    → Falling ts b.pulses
    → Found b.rs ts b.sequences o
    → Reported d ts (detected b ts m o)
detected-Reported d b ts m none s q f (nothing p) =
    enqueued-Reported d b ts m (pulse_queue_enqueue b ts m) s (record { queue = q; pending = p })
      (pulse_queue_enqueue-Enqueued b ts m q f)
detected-Reported d b ts m (some _) s q f (complete t c l) =
    report t b m (subst (λ x. is_complete x t ≡ true) s c) l

reset-IsValid :
    (d : PriDetector) (ts : ℕ) (m : Pools) → Queue d → IsValid (pri_detector_reset d ts m).0
unfolding pri_detector_reset
reset-IsValid d ts m q = record {
  queue = record {
    counted = refl;
    room = omega (arith, q.room);
    small = q.small;
    order = tt;
    inside = tt;
  };
  pending = tt;
}

same_Queue :
    (d : PriDetector) (seqs : List PriSequence) → Queue d → Queue (record d { sequences = seqs })
same_Queue d seqs q = record {
  counted = q.counted;
  room = q.room;
  small = q.small;
  order = q.order;
  inside = q.inside;
}

-- The sequences after both steps.
all_Fresh :
    (d a : PriDetector) (ts n : ℕ) (m : Pools)
    → a.rs ≡ d.rs
    → length a.pulses + 2 < u32_mod
    → All (Fresh d.rs ts) a.sequences
    → All (Fresh d.rs ts) (pde_short_create_sequences a ts n m).1.sequences
all_Fresh d a ts n m s l f =
    let c = pde_short_create_sequences-Added a ts n m l in
    subst (All (Fresh d.rs ts)) (sym c.front) (
      All-append (Fresh d.rs ts) c.news a.sequences
        (subst (λ x. All (Fresh x ts) c.news) s (news-Fresh a.rs ts n a.pulses c.news c.each)) f)

-- For a valid detector whose pulses are not newer than the new one, and where the counters of false
-- pulses have room: pde_short_add_pulse reports a sequence only if it is complete and the new pulse is
-- its last, and where it reports none the detector stays valid, so that no sequence of it is complete.
pub pde_short_add_pulse-Reported :
    (d : PriDetector) (ts : ℕ) (m : Pools)
    → IsValid d
    → Falling ts d.pulses
    → All HasRoom d.sequences
    → Reported d ts (pde_short_add_pulse d ts m)
unfolding pde_short_add_pulse pde_short_add_to_existing_seqs pde_short_create_sequences
    pde_short_check_detection pri_detector_reset
pde_short_add_pulse-Reported d ts m v f l =
    let (a, longest, k) = pde_short_add_to_existing_seqs d ts m in
    let (ok, b, p) = pde_short_create_sequences a ts longest k in
    let fresh =
      all_Fresh d a ts longest k refl (omega (arith, v.queue.room, v.queue.small))
        (add_from-Fresh d.rs d.rs.max_pri_tolerance ts 0 d.sequences m v.pending l) in
    let q = same_Queue d b.sequences v.queue in
    elim (Bool-cases (d.count == 0)) [
      | inl e ↦ rw e (
          enqueued-Reported d d ts m (pulse_queue_enqueue d ts m) refl v
            (pulse_queue_enqueue-Enqueued d ts m v.queue f))
      | inr e ↦ elim (Bool-cases (ltb (sub_u64 ts d.last_ts) d.rs.max_pri_tolerance)) [
        | inl t ↦ rw (e, t) (quiet d m refl v)
        | inr t ↦ elim (Bool-cases ok) [
          | inl o ↦
              rw (e, t, o)
                (detected-Reported d b ts p (pde_short_check_detection b) refl q f
                  (find_complete-Found d.rs ts b.sequences fresh))
          | inr o ↦
              rw (e, t, o)
                (quiet (pri_detector_reset b ts p).0 (pri_detector_reset b ts p).1 refl
                  (reset-IsValid b ts p q))
        ]
      ]
    ]
