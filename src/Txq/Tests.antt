-- ===== src/Txq/Tests.antt =====
-- The theorems of the transmit queues at concrete inputs.
use aic8800_linux_driver.Common.{
  ℕ, zero, suc, ◌<◌, ◌≡◌, ◌≢◌, refl, ap, true, false, none, some, [], ◌∷◌, length, replicate,
  length-replicate, arith, some, false, false≢true, ◌&&◌, ◌==◌,
}
use aic8800_linux_driver.UsbHost.{aicwf_usb_host_init}
use aic8800_linux_driver.Txq.{
  Frame, Txq, Hw, no_txq, no_hwq, no_status, txq_at, hwq_at, full, s8_positive,
}
use aic8800_linux_driver.Txq.Sched.Links.{Linked, one, count}
use aic8800_linux_driver.Txq.Init.{init_queues}
use aic8800_linux_driver.Txq.Sched.{rwnx_txq_init, rwnx_txq_stop, rwnx_txq_sta_init}
use aic8800_linux_driver.Txq.Classify.{rwnx_downgrade_ac, Peer, select_for}
use aic8800_linux_driver.Txq.Classify.Network.{Selected, select_for-Selected}
use aic8800_linux_driver.Txq.Classify.Downgrade.{Downgraded, rwnx_downgrade_ac-Downgraded}
use aic8800_linux_driver.Txq.Push.{enqueue, count_push}
use aic8800_linux_driver.Txq.Push.Order.{Ordered, retried, enqueue-Ordered, count_push-Ordered}
use aic8800_linux_driver.Txq.Process.{finished, rwnx_hwq_process, process_txq}
use aic8800_linux_driver.Txq.Process.Ready.{Ready}
use aic8800_linux_driver.Txq.Process.Loop.{rwnx_hwq_process-finished}
use aic8800_linux_driver.Txq.PowerSave.Credits.{retries, retries_bug}
use aic8800_linux_driver.Txq.Run.{here, then_step, init, stop, TxqRun-count}

abbrev frame : ℕ → Frame
frame n = record {
  skb = n;
  rwnx_sta = none;
  on_mesh = false;
  is_mgmt = false;
  frame_control = 0;
  ethertype = 0x8;
  fixed_rate = none;
}

-- A queue with two frames, in the list of the hardware queue 0.
abbrev busy : Txq
busy = record no_txq {
  idx = 0;
  status = record no_status { in_hwq_list = true };
  credits = 64;
  sk_list = frame 7 ∷ frame 8 ∷ [];
}

abbrev hw : Hw
hw = record {
  txq = busy ∷ [];
  hwq = record no_hwq { list = 0 ∷ []; size = 8; need_processing = true } ∷ [];
  sta_table = [];
  usb_env = aicwf_usb_host_init;
  old_ic = true;
  tbusy = false;
  events = [];
}

lists :
    (i k : ℕ)
    → count i (hwq_at hw k).list
      ≡ one ((txq_at hw i).status.in_hwq_list && ((txq_at hw i).hwq == k))
lists zero zero = refl
lists zero (suc k) = ground arith
lists (suc i) zero = ground arith
lists (suc i) (suc k) = refl

homes : (i : ℕ) → (txq_at hw i).hwq < length hw.hwq
homes zero = omega arith
homes (suc i) = omega arith

hw-Linked : Linked hw
hw-Linked = record { lists = lists; homes = homes }

credits :
    (i : ℕ) → (txq_at hw i).status.in_hwq_list ≡ true → s8_positive (txq_at hw i).credits ≡ true
credits zero e = refl
credits (suc i) e = absurd (false≢true e)

frames : (i : ℕ) → (txq_at hw i).status.in_hwq_list ≡ true → (txq_at hw i).sk_list ≢ []
frames zero e z = absurd (omega (arith, ap length z))
frames (suc i) e z = false≢true e

hw-Ready : Ready hw
hw-Ready = record { credits = λ i e a. credits i e; frames = λ i e a. frames i e }

rwnx_hwq_process-finished_example :
    (n : Hw) × (rwnx_hwq_process 4 hw 0 ≡ finished n) × Linked n × Ready n
rwnx_hwq_process-finished_example =
    rwnx_hwq_process-finished 4 hw 0 hw-Linked hw-Ready (omega arith)

idle : (txq_at (init_queues true []) 3).status.in_hwq_list ≡ false
unfolding init_queues
idle = refl

few : 1 < length (init_queues true []).hwq
unfolding init_queues
few = omega arith

-- A queue of a station is initialised, and stopped because it has no credits.
abbrev started : Hw
started = rwnx_txq_init (init_queues true []) 3 no_status 1 3 (some 0) 1

TxqRun-count_example :
    count 3 (hwq_at (rwnx_txq_stop started 3 full) 1).list
    ≡ one (
        (txq_at (rwnx_txq_stop started 3 full) 3).status.in_hwq_list
        && ((txq_at (rwnx_txq_stop started 3 full) 3).hwq == 1))
TxqRun-count_example = TxqRun-count true [] (rwnx_txq_stop started 3 full) 3 1 (
    then_step started (rwnx_txq_stop started 3 full)
      (then_step (init_queues true []) started here
        (init 3 no_status 1 3 (some 0) 1 idle refl (few)))
      (stop 3 full))

retries_bug_example :
    ((txq_at (retries hw 0 (replicate 64 (frame 9))) 0).credits ≡ 128)
    × (process_txq (retries hw 0 (replicate 64 (frame 9))) 0 0 ≡ none)
retries_bug_example =
    retries_bug hw 0 0 (replicate 64 (frame 9)) (omega arith) (λ e. absurd (omega (arith, e))) refl
      refl

-- The frame 7 is one that is retried.
abbrev mixed : Txq
mixed = record busy { last_retry_skb = some 7; nb_retry = 1 }

mixed-Ordered : Ordered mixed [] (frame 7 ∷ []) (frame 8 ∷ [])
mixed-Ordered = retried (frame 7 ∷ []) (frame 8 ∷ []) [] (frame 7) refl refl refl refl tt

enqueue-Ordered_example :
    Ordered (enqueue mixed (frame 9) false) [] (frame 7 ∷ []) (frame 8 ∷ frame 9 ∷ [])
    × Ordered (enqueue mixed (frame 9) true) [] (frame 7 ∷ frame 9 ∷ []) (frame 8 ∷ [])
enqueue-Ordered_example =
    enqueue-Ordered mixed (frame 9) (frame 7 ∷ []) (frame 8 ∷ []) (refl, tt) mixed-Ordered

-- Both frames are taken from the queue, and the first is pushed.
abbrev taken : Txq
taken = record mixed { sk_list = [] }

count_push-Ordered_example : Ordered (count_push taken) (frame 8 ∷ []) [] (frame 8 ∷ [])
count_push-Ordered_example =
    count_push-Ordered taken (frame 7) (frame 8 ∷ []) (frame 7 ∷ []) (frame 8 ∷ [])
      (retried (frame 7 ∷ []) (frame 8 ∷ []) [] (frame 7) refl refl refl refl tt)

-- Voice and video need admission.
rwnx_downgrade_ac-Downgraded_example : Downgraded 12 6 (rwnx_downgrade_ac 12 6)
rwnx_downgrade_ac-Downgraded_example = rwnx_downgrade_ac-Downgraded 12 6 (omega arith)

abbrev empty_hw : Hw
empty_hw = record hw { txq = replicate 72 no_txq }

-- A station with classes, of which voice needs admission.
abbrev peer : Peer
peer = record { sta_idx = 3; qos = true; acm = 8 }

select_for-Selected_example :
    Selected true true 3
      (select_for (rwnx_txq_sta_init empty_hw 3 (λ t. false) no_status 5) (some peer) false 0 6)
select_for-Selected_example =
    select_for-Selected empty_hw peer false 0 6 (λ t. false) no_status 5 (omega arith)
      (omega (arith, length-replicate 72 no_txq)) (omega arith)
