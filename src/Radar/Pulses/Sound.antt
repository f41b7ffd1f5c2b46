-- ===== src/Radar/Pulses/Sound.antt =====
-- Queues whose pulses are not newer than a time stamp, through the operations on the queue.
use aic8800_linux_driver.Common.{
  ℕ, ◌+◌, ◌≤◌, ◌≡◌, refl, sym, ap, ◌∙◌, Bool, List, [], ◌∷◌, length, All, arith, subst,
}
use aic8800_linux_driver.Radar.{PriDetector, PriSequence, Pools}
use aic8800_linux_driver.Radar.Pulses.{
  pulse_queue_dequeue, pulse_queue_enqueue, pri_detector_reset, drop_last, dequeue_some, get_last?,
}
use aic8800_linux_driver.Radar.Pulses.Recent.{
  Falling, Falling-drop_last, All-drop_last, length-drop_last,
}
use aic8800_linux_driver.Radar.Pulses.Window.{
  Queue, Holds, Enqueued, no_memory, queued, dequeue-Holds, pulse_queue_enqueue-Enqueued,
}

pub record Sound (ts : ℕ) (d : PriDetector) : Type 0 where
  pub queue : Queue d
  pub upto : Falling ts d.pulses

raise-Falling : (a b : ℕ) (xs : List ℕ) → a ≤ b → Falling a xs → Falling b xs
raise-Falling a b [] l f = tt
raise-Falling a b (x ∷ xs) l f = (omega (arith, l, f.0), f.1)

pub later : (a b : ℕ) (d : PriDetector) → a ≤ b → Sound a d → Sound b d
later a b d l s = record { queue = s.queue; upto = raise-Falling a b d.pulses l s.upto }

pub with_sequences :
    (ts : ℕ) (d : PriDetector) (seqs : List PriSequence)
    → Sound ts d
    → Sound ts (record d { sequences = seqs })
with_sequences ts d seqs s = record {
  queue = record {
    counted = s.queue.counted;
    room = s.queue.room;
    small = s.queue.small;
    order = s.queue.order;
    inside = s.queue.inside;
  };
  upto = s.upto;
}

pub reset-Sound :
    (a b t : ℕ) (d : PriDetector) (m : Pools) → Sound a d → Sound b (pri_detector_reset d t m).0
unfolding pri_detector_reset
reset-Sound a b t d m s = record {
  queue = record {
    counted = refl;
    room = omega (arith, s.queue.room);
    small = s.queue.small;
    order = tt;
    inside = tt;
  };
  upto = tt;
}

Enqueued-Sound :
    (d : PriDetector) (ts : ℕ) (m : Pools) (r : Bool × PriDetector × Pools)
    → Sound ts d
    → Enqueued d ts m r
    → Sound ts r.1
Enqueued-Sound d ts m r s (no_memory k z w) = s
Enqueued-Sound d ts m r s (queued e k z t ps q rs seqs max win freq) = record {
  queue = q;
  upto = subst (λ b. Falling b e.pulses) t q.order;
}

pub enqueue-Sound :
    (d : PriDetector) (ts : ℕ) (m : Pools) → Sound ts d → Sound ts (pulse_queue_enqueue d ts m).1
enqueue-Sound d ts m s =
    Enqueued-Sound d ts m (pulse_queue_enqueue d ts m) s
      (pulse_queue_enqueue-Enqueued d ts m s.queue s.upto)

shorter :
    (ts x : ℕ) (xs : List ℕ) (d e : PriDetector)
    → d.pulses ≡ x ∷ xs
    → Holds d e (drop_last d.pulses)
    → Sound ts d
    → Sound ts e
shorter ts x xs d e z h s = record {
  queue = record {
    counted = h.count ∙ sym (ap length h.pulses);
    room = omega (
      arith,
      s.queue.room,
      ap length h.pulses,
      h.max_count,
      ap length z,
      ap (λ ps. length (drop_last ps)) z,
      length-drop_last x xs,
    );
    small = omega (arith, s.queue.small, h.max_count);
    order = subst (Falling e.last_ts) (sym h.pulses) (
        subst (λ b. Falling b (drop_last d.pulses)) (sym h.last_ts)
          (Falling-drop_last d.last_ts d.pulses s.queue.order));
    inside = subst (All (λ p. e.last_ts ≤ p + e.window_size)) (sym h.pulses) (
        subst (λ b. All (λ p. b ≤ p + e.window_size) (drop_last d.pulses)) (sym h.last_ts)
          (subst (λ w. All (λ p. d.last_ts ≤ p + w) (drop_last d.pulses)) (sym h.window_size)
            (All-drop_last (λ p. d.last_ts ≤ p + d.window_size) d.pulses s.queue.inside)));
  };
  upto = subst (Falling ts) (sym h.pulses) (Falling-drop_last ts d.pulses s.upto);
}

dequeue_of :
    (ts : ℕ) (d : PriDetector) (m : Pools) (ps : List ℕ)
    → d.pulses ≡ ps
    → Sound ts d
    → Sound ts (pulse_queue_dequeue d m).0
unfolding pulse_queue_dequeue
dequeue_of ts d m [] z s = subst (λ o. Sound ts (dequeue_some d m o).0) (sym (ap get_last? z)) s
dequeue_of ts d m (x ∷ xs) z s =
    shorter ts x xs d (pulse_queue_dequeue d m).0 z
      (dequeue-Holds d m x xs z s.queue.counted
        (omega (arith, s.queue.counted, s.queue.room, s.queue.small)))
      s

pub dequeue-Sound :
    (ts : ℕ) (d : PriDetector) (m : Pools) → Sound ts d → Sound ts (pulse_queue_dequeue d m).0
dequeue-Sound ts d m s = dequeue_of ts d m d.pulses refl s
