-- ===== src/Reord/Station.antt =====
-- rwnx_rx.c, the calls that work on all stations: reord_rxframe_free, reord_rxframe_alloc,
-- reord_init_sta, reord_flush_tid, reord_deinit_sta, reord_single_frame_ind, reord_process_unit.
use aic8800_linux_driver.Common.{
  ℕ, zero, suc, ◌+◌, ◌%◌, ◌^◌, Bool, true, false, not, ◌&&◌, ◌||◌, Option, none, some, List, [],
  ◌∷◌, ◌++◌, ◌==◌, if◌then◌else◌, get_elem?, set, replicate,
}
use aic8800_linux_driver.TcpAck.{TcpAckMsg, TcpAckManage}
use aic8800_linux_driver.TcpAck.Packet.{Memory, be16}
use aic8800_linux_driver.TcpAck.Filter.{filter_rx_tcp_ack}
use aic8800_linux_driver.Reord.{
  Skb, RecvMsdu, ReordCtrl, reorder_winsize, old, duplicate, queued, receive,
}

-- `wdev.iftype`, as far as the code tells the types apart.
pub data IfType : Type 0 where
  station p2p_client ap p2p_go other : IfType

-- `struct reord_ctrl_info`: a station and its eight windows.
pub record CtrlInfo : Type 0 where
  pub mac_addr : List ℕ
  pub preorder_ctrl : List ReordCtrl

-- What reordering uses of `struct aicwf_rx_priv` and the interface; `netif` holds the buffers that
-- have gone up to netif_receive_skb and `freed` those that dev_kfree_skb was called on.
pub record RxPriv : Type 0 where
  pub iftype : IfType
  pub bus_down : Bool
  pub rxframes_freequeue : List RecvMsdu
  pub stas_reord_list : List CtrlInfo
  pub rx_packets : ℕ
  pub rx_bytes : ℕ
  pub ack_m : TcpAckManage
  pub netif : List Skb
  pub freed : List Skb

-- What the code calls: the kernel's eth_type_trans, rwnx_rxdata_process_amsdu as the buffers that it
-- puts into the list, and what a local variable of filter_rx_tcp_ack holds at first.
pub record Calls : Type 0 where
  pub eth_type_trans : Skb → Skb
  pub process_amsdu : Skb → List Skb
  pub stale : TcpAckMsg

pub reord_rxframe_free : RxPriv → RecvMsdu → RxPriv
reord_rxframe_free rx f = record rx { rxframes_freequeue = f ∷ rx.rxframes_freequeue }

pub reord_rxframe_alloc : RxPriv → Option (RecvMsdu × RxPriv)
reord_rxframe_alloc rx = elim rx.rxframes_freequeue [
  | [] ↦ none
  | f ∷ fs ↦ some (f, record rx { rxframes_freequeue = fs })
]

abbrev pub fresh_ctrl : ReordCtrl
fresh_ctrl = record {
  enable = true;
  ind_sn = 0xffff;
  wsize_b = reorder_winsize;
  reord_list = [];
  timer_pending = false;
  work_pending = false;
}

-- `allocated` is whether kmalloc gives memory.
pub reord_init_sta : Bool → RxPriv → List ℕ → Option CtrlInfo
reord_init_sta allocated rx mac =
    if rx.bus_down
    then none
    else if allocated
    then some (record { mac_addr = mac; preorder_ctrl = replicate 8 fresh_ctrl })
    else none

-- The frame goes back to the pool, its buffer taken out.
abbrev pub release : RxPriv → RecvMsdu → RxPriv
release rx f = record rx { rxframes_freequeue = record f { pkt = none } ∷ rx.rxframes_freequeue }

abbrev pub free_skbs : RxPriv → List Skb → RxPriv
free_skbs rx skbs = record rx { freed = rx.freed ++ skbs }

abbrev pub sta_count : List CtrlInfo → ℕ
sta_count [] = 0
sta_count (_ ∷ xs) = suc (sta_count xs)

abbrev pub remove_at : List CtrlInfo → ℕ → List CtrlInfo
remove_at [] i = []
remove_at (x ∷ xs) zero = xs
remove_at (x ∷ xs) (suc i) = x ∷ remove_at xs i

abbrev pub bytes_at : Memory → ℕ → ℕ → List ℕ
bytes_at m p zero = []
bytes_at m p (suc n) = m p ∷ bytes_at m (p + 1) n

abbrev same_mac : List ℕ → List ℕ → Bool
same_mac [] [] = true
same_mac [] (y ∷ ys) = false
same_mac (x ∷ xs) [] = false
same_mac (x ∷ xs) (y ∷ ys) = (x == y) && same_mac xs ys

-- The address by which the station is found; `none` is the error of an unknown mode.
pub peer_mac : IfType → Skb → Option (List ℕ)
peer_mac station skb = some (bytes_at skb.content 0 6)
peer_mac p2p_client skb = some (bytes_at skb.content 0 6)
peer_mac ap skb = some (bytes_at skb.content 6 6)
peer_mac p2p_go skb = some (bytes_at skb.content 6 6)
peer_mac other skb = none

pub find_sta : List ℕ → List CtrlInfo → Option ℕ
find_sta mac [] = none
find_sta mac (x ∷ xs) =
    let rest : Option ℕ = elim (find_sta mac xs) [ none ↦ none | some i ↦ some (suc i) ] in
    if same_mac mac x.mac_addr then some 0 else rest

abbrev pub get_ctrl : RxPriv → ℕ → ℕ → Option ReordCtrl
get_ctrl rx i tid = elim (get_elem? rx.stas_reord_list i) [
  | none ↦ none
  | some info ↦ get_elem? info.preorder_ctrl tid
]

abbrev pub set_ctrl : RxPriv → ℕ → ℕ → ReordCtrl → RxPriv
set_ctrl rx i tid c = elim (get_elem? rx.stas_reord_list i) [
  | none ↦ rx
  | some info ↦ record rx {
    stas_reord_list =
        set rx.stas_reord_list i (record info { preorder_ctrl = set info.preorder_ctrl tid c });
  }
]

-- A window that was switched off starts anew.
abbrev pub revive : ReordCtrl → ReordCtrl
revive c =
    if c.enable then c else record c { enable = true; ind_sn = 0xffff; wsize_b = reorder_winsize }

abbrev pub skbs_of : RecvMsdu → List Skb
skbs_of f = elim f.pkt [ none ↦ [] | some s ↦ s ∷ [] ]

pub drop_frames : RxPriv → List RecvMsdu → RxPriv
drop_frames rx [] = rx
drop_frames rx (f ∷ fs) = drop_frames (release (free_skbs rx (skbs_of f)) f) fs

pub drop_ctrls : RxPriv → List ReordCtrl → RxPriv
drop_ctrls rx [] = rx
drop_ctrls rx (c ∷ cs) = drop_ctrls (drop_frames rx c.reord_list) cs

-- The station leaves: the frames that wait are freed.
pub reord_deinit_sta : RxPriv → ℕ → RxPriv
reord_deinit_sta rx i = elim (get_elem? rx.stas_reord_list i) [
  | none ↦ rx
  | some info ↦
      let rx' = drop_ctrls rx info.preorder_ctrl in
      record rx' { stas_reord_list = remove_at rx'.stas_reord_list i }
]

module _ (calls : Calls) where
  -- One round of the loop that hands buffers up.
  pub deliver : RxPriv → Skb → RxPriv
  deliver rx skb =
      let up = calls.eth_type_trans skb in
      record rx {
        rx_packets = (rx.rx_packets + 1) % 2 ^ 64;
        rx_bytes = (rx.rx_bytes + skb.len) % 2 ^ 64;
        ack_m = filter_rx_tcp_ack rx.ack_m up.content (up.len % 65536) calls.stale;
        netif = rx.netif ++ (up ∷ []);
      }

  pub deliver_all : RxPriv → List Skb → RxPriv
  deliver_all rx [] = rx
  deliver_all rx (s ∷ ss) = deliver_all (deliver rx s) ss

  -- The buffers of the frame that go up, and the state in which the loop starts.
  pub indicate : RxPriv → RecvMsdu → Skb → RxPriv × List Skb
  indicate rx f skb =
      if f.is_ap_reord
      then (rx, f.first_fwd_skb)
      else if f.is_amsdu
      then (free_skbs rx (skb ∷ []), calls.process_amsdu skb)
      else (rx, skb ∷ [])

  pub reord_single_frame_ind : RxPriv → RecvMsdu → Bool × RxPriv
  reord_single_frame_ind rx f = elim f.pkt [
    | none ↦ (false, rx)
    | some skb ↦
        let resent = free_skbs rx f.first_resend_skb in
        let start = if f.is_ap_reord && not (f.ap_resend_cnt == 0) then resent else rx in
        let (begun, list) = indicate start f skb in
        if f.is_ap_reord && (not (f.ap_resend_cnt == 0) && (f.ap_fwd_cnt == 0))
        then (true, release start f)
        else if not f.is_ap_reord && not f.forward
        then (true, release (free_skbs rx (skb ∷ [])) f)
        else (true, release (deliver_all begun list) f)
  ]

  pub indicate_all : RxPriv → List RecvMsdu → RxPriv
  indicate_all rx [] = rx
  indicate_all rx (f ∷ fs) = indicate_all (reord_single_frame_ind rx f).1 fs

  -- A frame behind the window. Byte 42 tells an RTP packet.
  pub indicate_old : RxPriv → ReordCtrl → RecvMsdu → Skb → RxPriv
  indicate_old rx d f skb =
      if skb.content 42 == 0x80
      then (if f.seq_num == d.ind_sn
          then (reord_single_frame_ind rx f).1
          else release (free_skbs rx (skb ∷ [])) f)
      else (reord_single_frame_ind rx f).1

  -- reord_process_unit with the window `c` of the station and traffic class: the new window beside
  -- the rest of the state.
  pub process_in : RxPriv → ReordCtrl → RecvMsdu → Skb → ReordCtrl × RxPriv
  process_in rx c f skb = elim (receive c f) [
    | old d ↦ (d, indicate_old rx d f skb)
    | duplicate d ↦ (d, release (free_skbs rx (skb ∷ [])) f)
    | queued ready d ↦ (d, indicate_all rx ready)
  ]

  -- The window at `tid` of the station at `i`; a `tid` of 8 or more is outside the array.
  pub process_at : RxPriv → ℕ → RecvMsdu → Skb → Bool × RxPriv
  process_at rx i f skb = elim (get_ctrl rx i f.tid) [
    | none ↦ (false, rx)
    | some c ↦ let (d, rx') = process_in rx (revive c) f skb in (true, set_ctrl rx' i f.tid d)
  ]

  -- `true` is the result 0. The frame `f` has been taken from the pool.
  pub reord_process_unit : RxPriv → Bool → RecvMsdu → Skb → ℕ → ℕ → Bool → Bool → Bool × RxPriv
  reord_process_unit rx allocated f skb seq_num tid forward is_amsdu =
      let g = record f {
        seq_num = seq_num;
        tid = tid;
        pkt = some skb;
        forward = forward;
        is_amsdu = is_amsdu;
      } in
      let by_station : Bool × RxPriv = elim (peer_mac rx.iftype skb) [
        | none ↦ (false, free_skbs rx (skb ∷ []))
        | some mac ↦ elim (find_sta mac rx.stas_reord_list) [
          | some i ↦ process_at rx i g skb
          | none ↦ elim (reord_init_sta allocated rx mac) [
            | none ↦ (false, (reord_single_frame_ind rx g).1)
            | some info ↦
                process_at (record rx { stas_reord_list = rx.stas_reord_list ++ (info ∷ []) })
                  (sta_count rx.stas_reord_list) g skb
          ]
        ]
      ] in
      if (be16 skb.content 12 == 0x888e) || (skb.content 0 % 2 == 1)
      then reord_single_frame_ind rx g
      else by_station

  -- The loop of reord_flush_tid: every frame that waits goes up, and the window is switched off.
  pub flush_ctrl : RxPriv → ReordCtrl → ReordCtrl × RxPriv
  flush_ctrl rx c = (
    record c { enable = false; reord_list = []; timer_pending = false; work_pending = false },
    indicate_all rx c.reord_list,
  )

  -- `true` is the result 0.
  pub reord_flush_tid : RxPriv → Skb → ℕ → Bool × RxPriv
  reord_flush_tid rx skb tid = elim (peer_mac rx.iftype skb) [
    | none ↦ (false, free_skbs rx (skb ∷ []))
    | some mac ↦ elim (find_sta mac rx.stas_reord_list) [
      | none ↦ (true, rx)
      | some i ↦ elim (get_ctrl rx i tid) [
        | none ↦ (true, rx)
        | some c ↦
            let (d, rx') = flush_ctrl rx c in (true, if c.enable then set_ctrl rx' i tid d else rx)
      ]
    ]
  ]
