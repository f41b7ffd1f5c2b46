-- ===== src/Reord.antt =====
-- drivers/aic8800/aic8800_fdrv/rwnx_rx.c and aicwf_txrxif.h: putting the received frames of a
-- station back into the order of their sequence numbers. This file has the window of one traffic
-- class; `Station` has the calls that work on all stations, and the other children the proofs.
-- A kernel list is a list; a timer or a work item is whether it is pending.
pub mod Window
pub mod Check
pub mod Sorted
pub mod Receive
pub mod Timeout
pub mod Station
mod Tests
use aic8800_linux_driver.Common.{
  ℕ, ◌+◌, ◌-◌, ◌*◌, ◌/◌, ◌%◌, Bool, true, false, not, ◌&&◌, ◌||◌, Option, none, some, List, [], ◌∷◌,
  ltb, leb, ◌==◌, if◌then◌else◌,
}
use aic8800_linux_driver.TcpAck.Packet.{Memory}

-- What reordering reads of a `struct sk_buff`.
pub record Skb : Type 0 where
  pub content : Memory
  pub len : ℕ

-- `struct recv_msdu`; `frame_id` is its place in the array `recv_frames`. A chain of buffers linked by
-- `next` is a list.
pub record RecvMsdu : Type 0 where
  pub frame_id : ℕ
  pub pkt : Option Skb
  pub tid : ℕ
  pub forward : Bool
  pub seq_num : ℕ
  pub is_amsdu : Bool
  pub is_ap_reord : Bool
  pub ap_fwd_cnt : ℕ
  pub ap_resend_cnt : ℕ
  pub first_fwd_skb : List Skb
  pub first_resend_skb : List Skb

-- `struct reord_ctrl`, the window of one traffic class.
pub record ReordCtrl : Type 0 where
  pub enable : Bool
  pub ind_sn : ℕ
  pub wsize_b : ℕ
  pub reord_list : List RecvMsdu
  pub timer_pending : Bool
  pub work_pending : Bool

abbrev pub reorder_winsize : ℕ
reorder_winsize = 64

-- SN_LESS: bit 11 of the difference of two `u16`, taken as `int`.
pub sn_less : ℕ → ℕ → Bool
sn_less a b = (a + 65536 - b) / 2048 % 2 == 1

-- reord_need_check: `true` is the result -1, the frame is older than the window.
pub reord_need_check : ReordCtrl → ℕ → Bool × ReordCtrl
reord_need_check c seq =
    let wend = (c.ind_sn + c.wsize_b + 4095) % 4096 in
    let ind_sn = if c.ind_sn == 0xffff then seq else c.ind_sn in
    let d = record c { ind_sn = ind_sn } in
    if sn_less seq ind_sn
    then (true, d)
    else if seq == ind_sn
    then (false, record c { ind_sn = (ind_sn + 1) % 4096 })
    else if sn_less wend seq
    then (
      false,
      record c {
        ind_sn =
            if leb (c.wsize_b - 1) seq
            then seq - (c.wsize_b - 1)
            else 0xfff - (c.wsize_b - (seq + 1)) + 1;
      },
    )
    else (false, d)

abbrev pub cons? : RecvMsdu → Option (List RecvMsdu) → Option (List RecvMsdu)
cons? x none = none
cons? x (some ys) = some (x ∷ ys)

-- The walk of reord_rxframe_enqueue: `none` is the result -1, the number is there already.
pub insert_frame : RecvMsdu → List RecvMsdu → Option (List RecvMsdu)
insert_frame f [] = some (f ∷ [])
insert_frame f (x ∷ xs) =
    let rest = cons? x (insert_frame f xs) in
    if sn_less x.seq_num f.seq_num
    then rest
    else if x.seq_num == f.seq_num
    then none
    else some (f ∷ x ∷ xs)

pub reord_rxframe_enqueue : ReordCtrl → RecvMsdu → Option ReordCtrl
reord_rxframe_enqueue c f = elim (insert_frame f c.reord_list) [
  | none ↦ none
  | some xs ↦ some (record c { reord_list = xs })
]

-- The loop of reord_rxframes_process: the new `ind_sn`, and whether a frame has to wait.
pub process_from : ℕ → List RecvMsdu → Bool × ℕ
process_from ind_sn [] = (false, ind_sn)
process_from ind_sn (x ∷ xs) =
    let rest = process_from (if ind_sn == x.seq_num then (ind_sn + 1) % 4096 else ind_sn) xs in
    if sn_less ind_sn x.seq_num then (true, ind_sn) else rest

abbrev pub first_seq : ℕ → List RecvMsdu → ℕ
first_seq ind_sn [] = ind_sn
first_seq ind_sn (x ∷ _) = x.seq_num

-- With `bforced` the window first moves to the oldest frame that waits. The early returns for an
-- empty list are what the loop gives on it: `false`, and nothing changes.
pub reord_rxframes_process : ReordCtrl → Bool → Bool × ReordCtrl
reord_rxframes_process c bforced =
    let start = if bforced then first_seq c.ind_sn c.reord_list else c.ind_sn in
    let (more, ind_sn) = process_from start c.reord_list in (more, record c { ind_sn = ind_sn })

-- The loop of reord_rxframes_ind: the frames that go up, in order, and those that stay.
pub take_ready : ℕ → List RecvMsdu → List RecvMsdu × List RecvMsdu
take_ready ind_sn [] = ([], [])
take_ready ind_sn (x ∷ xs) =
    let (ready, left) = take_ready ind_sn xs in
    if sn_less ind_sn x.seq_num then ([], x ∷ xs) else (x ∷ ready, left)

abbrev pub is_empty : List RecvMsdu → Bool
is_empty [] = true
is_empty (_ ∷ _) = false

-- Each frame of the first component is handed to reord_single_frame_ind, in that order.
pub reord_rxframes_ind : ReordCtrl → List RecvMsdu × ReordCtrl
reord_rxframes_ind c =
    let (ready, left) = take_ready c.ind_sn c.reord_list in (ready, record c { reord_list = left })

-- What one frame does to the window: it is older than the window and never queued, it is there
-- already, or it is queued and the given frames go up.
pub data Outcome : Type 0 where
  old : ReordCtrl → Outcome
  duplicate : ReordCtrl → Outcome
  queued : List RecvMsdu → ReordCtrl → Outcome

-- `if bPktInBuf` the timer is started unless it runs, else it is stopped.
abbrev pub set_timer : Bool → ReordCtrl → ReordCtrl
set_timer more c = record c { timer_pending = more }

-- reord_process_unit after the check: the frame is queued, the window moves on, the timer is set and
-- the frames that are ready go up.
pub accept : ReordCtrl → RecvMsdu → Outcome
accept d f = elim (reord_rxframe_enqueue d f) [
  | none ↦ duplicate d
  | some e ↦
      let (more, g) = reord_rxframes_process e false in
      let (ready, h) = reord_rxframes_ind (set_timer more g) in queued ready h
]

-- reord_process_unit from reord_need_check on, for the frame `f` whose fields are set.
pub receive : ReordCtrl → RecvMsdu → Outcome
receive c f = let (is_old, d) = reord_need_check c f.seq_num in if is_old then old d else accept d f

-- reord_timeout_handler: the timer has run out.
pub reord_timeout_handler : Bool → ReordCtrl → ReordCtrl
reord_timeout_handler bus_down c =
    if bus_down
    then record c { timer_pending = false }
    else record c { timer_pending = false; work_pending = true }

-- reord_timeout_worker: the frames that go up, and the window. mod_timer is only called if a frame
-- has to wait.
pub reord_timeout_worker : ReordCtrl → List RecvMsdu × ReordCtrl
reord_timeout_worker c =
    let (more, d) = reord_rxframes_process (record c { work_pending = false }) true in
    reord_rxframes_ind (record d { timer_pending = d.timer_pending || more })
