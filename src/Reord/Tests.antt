-- ===== src/Reord/Tests.antt =====
-- Tests of the reordering window, and its theorems at concrete inputs.
use aic8800_linux_driver.Common.{ℕ, ◌≡◌, refl, inr, true, false, none, [], ◌∷◌, arith}
use aic8800_linux_driver.Reord.{
  RecvMsdu, ReordCtrl, queued, receive, reord_timeout_worker, reord_need_check, sn_less, accept,
  reord_rxframe_enqueue, insert_frame, reord_rxframes_ind, take_ready, reord_rxframes_process,
  process_from,
}
use aic8800_linux_driver.Reord.Receive.{InWindow, Received, receive-Received}
use aic8800_linux_driver.Reord.Timeout.{Fired, reord_timeout_worker-Fired}

abbrev frame : ℕ → RecvMsdu
frame n = record {
  frame_id = 0;
  pkt = none;
  tid = 0;
  forward = true;
  seq_num = n;
  is_amsdu = false;
  is_ap_reord = false;
  ap_fwd_cnt = 0;
  ap_resend_cnt = 0;
  first_fwd_skb = [];
  first_resend_skb = [];
}

-- The window is at 4094; the frames 4095 and 1 wait.
abbrev waiting : ReordCtrl
waiting = record {
  enable = true;
  ind_sn = 4094;
  wsize_b = 64;
  reord_list = frame 4095 ∷ frame 1 ∷ [];
  timer_pending = true;
  work_pending = false;
}

waiting-InWindow : InWindow waiting
waiting-InWindow = record {
  size = refl;
  place = inr (
    omega arith,
    (omega arith, omega arith, omega arith, (omega arith, omega arith, omega arith, tt)),
  );
  served = refl;
}

-- 4094 releases 4095, and 1 keeps waiting for 0.
releases :
    receive waiting (frame 4094)
    ≡ queued
        (frame 4094 ∷ frame 4095 ∷ [])
        (record waiting { ind_sn = 0; reord_list = frame 1 ∷ [] })
unfolding receive reord_need_check sn_less accept reord_rxframe_enqueue insert_frame
    reord_rxframes_ind take_ready reord_rxframes_process process_from
releases = refl

receive-Received_example : Received waiting (frame 4094) (receive waiting (frame 4094))
receive-Received_example = receive-Received waiting (frame 4094) waiting-InWindow (omega arith)

reord_timeout_worker-Fired_example :
    Fired waiting.reord_list (reord_timeout_worker waiting).0 (reord_timeout_worker waiting).1
reord_timeout_worker-Fired_example = reord_timeout_worker-Fired waiting waiting-InWindow
