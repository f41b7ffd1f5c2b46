-- ===== src/FrameQueue/Tests.antt =====
-- Tests of the frame queues, and their theorems at concrete inputs.
use aic8800_linux_driver.Common.{◌↔◌, zero, suc, ◌≡◌, refl, true, false, some, [], ◌∷◌, arith}
use aic8800_linux_driver.FrameQueue.{
  FrameQueue, aicwf_frame_dequeue, aicwf_frame_enq, aicwf_is_framequeue_empty,
}
use aic8800_linux_driver.FrameQueue.Total.{NothingAbove}
use aic8800_linux_driver.FrameQueue.Valid.{IsValid, Dequeued, aicwf_frame_dequeue-Dequeued}
use aic8800_linux_driver.FrameQueue.Empty.{aicwf_is_framequeue_empty_iff}
use aic8800_linux_driver.FrameQueue.Enqueue.{Enqueued, aicwf_frame_enq-Enqueued}

-- A full queue of three frames: two of priority 1 and one of priority 2.
abbrev full : FrameQueue
full = record {
  num_prio = 4;
  hi_prio = 2;
  qmax = 3;
  qcnt = 3;
  queuelist = [] ∷ (10 ∷ 11 ∷ []) ∷ (20 ∷ []) ∷ [] ∷ [];
}

above_two : NothingAbove full.queuelist 2
above_two zero h = absurd (omega arith)
above_two (suc zero) h = absurd (omega arith)
above_two (suc (suc zero)) h = absurd (omega arith)
above_two (suc (suc (suc zero))) h = refl
above_two (suc (suc (suc (suc i)))) h = refl

full-IsValid : IsValid full
full-IsValid = record {
  lists = refl;
  counted = refl;
  bounded = omega arith;
  narrow = omega arith;
  priorities = omega arith;
  below = omega arith;
  above = above_two;
}

not_empty : aicwf_is_framequeue_empty full ≡ false
unfolding aicwf_is_framequeue_empty
not_empty = refl

-- A frame of priority 3 takes the place of the last frame of priority 1.
evicts :
    aicwf_frame_enq full 30 3
    ≡ (true, record full { queuelist = [] ∷ (10 ∷ 30 ∷ []) ∷ (20 ∷ []) ∷ [] ∷ [] }, some 11)
unfolding aicwf_frame_enq
evicts = refl

aicwf_frame_dequeue-Dequeued_example : Dequeued full (aicwf_frame_dequeue full)
aicwf_frame_dequeue-Dequeued_example =
    aicwf_frame_dequeue-Dequeued full full-IsValid (λ e. absurd (omega (arith, e)))

aicwf_frame_enq-Enqueued_example :
    Enqueued full 30 3 (aicwf_frame_enq full 30 3) × IsValid (aicwf_frame_enq full 30 3).1
aicwf_frame_enq-Enqueued_example = aicwf_frame_enq-Enqueued full 30 3 (omega arith) full-IsValid

aicwf_is_framequeue_empty_iff_example : (aicwf_is_framequeue_empty full ≡ true) ↔ (full.qcnt ≡ 0)
aicwf_is_framequeue_empty_iff_example = aicwf_is_framequeue_empty_iff full full-IsValid
