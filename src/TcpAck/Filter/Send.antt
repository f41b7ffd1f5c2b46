-- ===== src/TcpAck/Filter/Send.antt =====
-- filter_rx_tcp_ack and filter_send_tcp_ack keep the invariant of the table of flows.
use aic8800_linux_driver.Common.{
  ℕ, zero, suc, ◌+◌, ◌<◌, ◌≡◌, refl, ◌∙◌, Bool, true, false, not, ◌&&◌, none, some, List, [], ◌∷◌,
  if◌then◌else◌, ◌==◌, length, get_elem?, arith, inl, inr, Bool-cases, Option-cases, ltb, none≢some,
}
use aic8800_linux_driver.TcpAck.{Clock, MsgBuf, TcpAckMsg, TcpAckInfo, TcpAckManage, tcp_ack_num}
use aic8800_linux_driver.TcpAck.Packet.{Memory, tcp_check_ack}
use aic8800_linux_driver.TcpAck.Table.{tcp_ack_match, tcp_ack_update, tcp_ack_alloc_index}
use aic8800_linux_driver.TcpAck.Table.Slots.{slot}
use aic8800_linux_driver.TcpAck.Table.Valid.{IsValid, flow_key, tcp_ack_update-IsValid}
use aic8800_linux_driver.TcpAck.Table.Alloc.{
  tcp_ack_alloc_index-idle, tcp_ack_alloc_index-state, tcp_ack_alloc_index-none, match-NoFlow,
  NoFlow, claim-IsValid,
}
use aic8800_linux_driver.TcpAck.Filter.{
  filter_rx_tcp_ack, send_matched, send_checked, filter_send_tcp_ack, claim_at, send_parsed,
  mark_psh, scale_slot, ack_type,
}
use aic8800_linux_driver.TcpAck.Filter.Valid.{write_back-IsValid, tcp_ack_handle_new-slot}

if-IsValid : (b : Bool) (x y : TcpAckManage) → IsValid x → IsValid y → IsValid (if b then x else y)
if-IsValid true x y v w = v
if-IsValid false x y v w = w

mark_psh-IsValid : (m : TcpAckManage) (a : TcpAckMsg) → IsValid m → IsValid (mark_psh m a)
unfolding mark_psh
mark_psh-IsValid m a v = elim (Option-cases (tcp_ack_match m a)) [
  | inl e ↦ rw (e, mark_psh) v
  | inr (i, e) ↦ elim (Option-cases (get_elem? m.ack_info i)) [
    | inl g ↦ rw (e, mark_psh, g) v
    | inr (s, g) ↦
        rw (e, mark_psh, g)
          (write_back-IsValid m i s (record s { psh_flag = true; psh_seq = a.seq }) g refl refl v)
  ]
]

-- filter_rx_tcp_ack keeps the invariant.
pub filter_rx_tcp_ack-IsValid :
    (m : TcpAckManage) (buf : Memory) (plen : ℕ) (msg : TcpAckMsg)
    → IsValid m
    → IsValid (filter_rx_tcp_ack m buf plen msg)
unfolding filter_rx_tcp_ack
filter_rx_tcp_ack-IsValid m buf plen msg v =
    if-IsValid (not m.enable) m _ v (if-IsValid _ m _ v (mark_psh-IsValid m _ v))

scale_slot-slot :
    (w : ℕ) (s : TcpAckInfo)
    → ((scale_slot w s).busy ≡ s.busy) × (flow_key (scale_slot w s).ack_msg ≡ flow_key s.ack_msg)
unfolding scale_slot
scale_slot-slot w s = ground arith

send_matched-IsValid :
    (k : Clock) (m : TcpAckManage) (new : MsgBuf) (drop : ℕ) (a : TcpAckMsg) (scale i : ℕ)
    (s : TcpAckInfo)
    → get_elem? m.ack_info i ≡ some s
    → IsValid m
    → IsValid (send_matched k m new drop a scale i s).1
unfolding send_matched
send_matched-IsValid k m new drop a scale i s e v =
    let t = scale_slot scale s in
    let (b, f) = scale_slot-slot scale s in
    let (b', f') = tcp_ack_handle_new-slot k new m.max_drop_cnt t a (ack_type m drop a scale t) in
    elim (Bool-cases (ltb 0 drop && m.enable)) [
      | inl on ↦ rw on (write_back-IsValid m i s _ e (b' ∙ b) (f' ∙ f) v)
      | inr off ↦ rw off (write_back-IsValid m i s t e b f v)
    ]

get_elem?-slot : (xs : List TcpAckInfo) (i : ℕ) → i < length xs → get_elem? xs i ≡ some (slot xs i)
get_elem?-slot [] i h = elim h [ ]
get_elem?-slot (x ∷ xs) zero h = refl
get_elem?-slot (x ∷ xs) (suc i) h = get_elem?-slot xs i (omega arith)

claim_at-IsValid :
    (k : Clock) (m : TcpAckManage) (a : TcpAckMsg) (scale i : ℕ)
    → i < tcp_ack_num
    → (slot m.ack_info i).busy ≡ false
    → NoFlow m.ack_info a
    → IsValid m
    → IsValid (claim_at k (record m { free_index = none; max_num = m.max_num + 1 }) a scale i)
unfolding claim_at
claim_at-IsValid k m a scale i l idle new v =
    rw (get_elem?-slot m.ack_info i (omega (arith, v.slots)), claim_at)
      (claim-IsValid m i _ l idle refl new v)

send_checked-IsValid :
    (k : Clock) (m : TcpAckManage) (new : MsgBuf) (drop : ℕ) (a : TcpAckMsg) (scale : ℕ)
    → IsValid m
    → IsValid (send_checked k m new drop a scale).1
unfolding send_checked
send_checked-IsValid k m new drop a scale v = elim (Option-cases (tcp_ack_match m a)) [
  | inr (i, e) ↦ elim (Option-cases (get_elem? m.ack_info i)) [
    | inl g ↦ rw (e, send_checked, g) v
    | inr (s, g) ↦ rw (e, send_checked, g) (send_matched-IsValid k m new drop a scale i s g v)
  ]
  | inl e ↦ elim (Option-cases (tcp_ack_alloc_index m).0) [
    | inl f ↦ rw (e, send_checked, f, (tcp_ack_alloc_index-none m v f).1) v
    | inr (i, f) ↦
        let (l, idle) = tcp_ack_alloc_index-idle m i v f in
        rw (e, send_checked, f, tcp_ack_alloc_index-state m i f)
          (claim_at-IsValid k m a scale i l idle (match-NoFlow m a e) v)
  ]
]

send_parsed-IsValid :
    (k : Clock) (m : TcpAckManage) (new : MsgBuf) (drop : ℕ) (a : TcpAckMsg) (scale : ℕ)
    → IsValid m
    → IsValid (send_parsed k m new drop a scale).1
unfolding send_parsed
send_parsed-IsValid k m new drop a scale v = elim (Bool-cases ((drop == 0) && (scale == 0))) [
  | inl e ↦ rw e v
  | inr e ↦ rw e (send_checked-IsValid k m new drop a scale v)
]

some-snd :
    (x : Bool × TcpAckManage × List MsgBuf) (ret : Bool) (m' : TcpAckManage) (d : List MsgBuf)
    → some x ≡ some (ret, m', d)
    → x.1 ≡ m'
some-snd x ret m' d e = ground arith

-- filter_send_tcp_ack keeps the invariant, whatever the packet is.
pub filter_send_tcp_ack-IsValid :
    (k : Clock) (fuel : ℕ) (msg : TcpAckMsg) (m : TcpAckManage) (new : MsgBuf) (buf : Memory)
    (ret : Bool) (m' : TcpAckManage) (dropped : List MsgBuf)
    → filter_send_tcp_ack k fuel msg m new buf ≡ some (ret, m', dropped)
    → IsValid m
    → IsValid m'
unfolding filter_send_tcp_ack
filter_send_tcp_ack-IsValid k fuel msg m new buf ret m' dropped e v =
    elim (Option-cases (tcp_check_ack buf fuel msg 0)) [
      | inl n ↦ absurd (none≢some (rw (n, filter_send_tcp_ack) at e))
      | inr ((drop, a, scale), n) ↦
          rw (← some-snd _ ret m' dropped (rw (n, filter_send_tcp_ack) at e)) (
            send_parsed-IsValid k (tcp_ack_update k m) new drop a scale
              (tcp_ack_update-IsValid k m v))
    ]
