-- ===== src/TcpAck/Filter/Valid.antt =====
-- Every entry point of the filter keeps the invariant of the table of flows.
use aic8800_linux_driver.Common.{
  ℕ, zero, suc, ◌+◌, ◌<◌, ◌≡◌, refl, sym, ap, ◌∙◌, Bool, true, false, none, some, List, [], ◌∷◌,
  length, get_elem?, set, arith, inl, inr, Bool-cases, Option-cases, false≢true,
}
use aic8800_linux_driver.TcpAck.{Clock, MsgBuf, TcpAckMsg, TcpAckInfo, TcpAckManage, tcp_ack_num}
use aic8800_linux_driver.TcpAck.Table.Slots.{slot, count_busy, one_if}
use aic8800_linux_driver.TcpAck.Table.Valid.{IsValid, flow_key, Inherits-flows, set-IsValid}
use aic8800_linux_driver.TcpAck.Filter.{
  init_slots, tcp_ack_init, deinit_slots, tcp_ack_deinit, tcp_ack_timeout, tcp_ack_handle_new,
  move_slots, move_tcpack_msg, timeout_at,
}

-- Slots that are one for one as busy as before, with the same flows.
record SameFlows (xs ys : List TcpAckInfo) : Type 0 where
  size : length ys ≡ length xs
  count : count_busy ys ≡ count_busy xs
  busy : (i : ℕ) → (slot ys i).busy ≡ (slot xs i).busy
  key : (i : ℕ) → flow_key (slot ys i).ack_msg ≡ flow_key (slot xs i).ack_msg

SameFlows-IsValid :
    (m : TcpAckManage) (ys : List TcpAckInfo) (on : Bool)
    → SameFlows m.ack_info ys
    → IsValid m
    → IsValid (record m { enable = on; ack_info = ys })
SameFlows-IsValid m ys on s v = record {
  slots = s.size ∙ v.slots;
  counted = v.counted ∙ sym s.count;
  free_idle = λ i e. ((v.free_idle i e).0, s.busy i ∙ (v.free_idle i e).1);
  flows = Inherits-flows m.ack_info ys (λ i. ((λ p. sym (s.busy i) ∙ p), s.key i)) v.flows;
}

-- The slot that a table holds at `i`, and writing one back.
pub get-slot :
    (xs : List TcpAckInfo) (i : ℕ) (s : TcpAckInfo)
    → get_elem? xs i ≡ some s
    → (i < length xs) × (slot xs i ≡ s)
get-slot [] i s e = cc
get-slot (x ∷ xs) zero s e = (omega arith, ground arith)
get-slot (x ∷ xs) (suc i) s e = let r = get-slot xs i s e in (omega arith, r.1)

pub write_back-IsValid :
    (m : TcpAckManage) (i : ℕ) (s v : TcpAckInfo)
    → get_elem? m.ack_info i ≡ some s
    → v.busy ≡ s.busy
    → flow_key v.ack_msg ≡ flow_key s.ack_msg
    → IsValid m
    → IsValid (record m { ack_info = set m.ack_info i v })
write_back-IsValid m i s v e b f w =
    let (h, g) = get-slot m.ack_info i s e in set-IsValid m i v h (rw g b) (rw g f) w

length-init_slots : (k : Clock) (i n : ℕ) → length (init_slots k i n) ≡ n
unfolding init_slots
length-init_slots k i zero = refl
length-init_slots k i (suc n) = ap suc (length-init_slots k (i + 1) n)

count-init_slots : (k : Clock) (i n : ℕ) → count_busy (init_slots k i n) ≡ 0
unfolding init_slots
count-init_slots k i zero = refl
count-init_slots k i (suc n) = omega (arith, count-init_slots k (i + 1) n)

idle-init_slots : (k : Clock) (i n j : ℕ) → (slot (init_slots k i n) j).busy ≡ false
unfolding init_slots
idle-init_slots k i zero j = refl
idle-init_slots k i (suc n) zero = refl
idle-init_slots k i (suc n) (suc j) = idle-init_slots k (i + 1) n j

-- tcp_ack_init makes a valid table.
pub tcp_ack_init-IsValid : (k : Clock) → IsValid (tcp_ack_init k)
unfolding tcp_ack_init
tcp_ack_init-IsValid k = record {
  slots = length-init_slots k 0 tcp_ack_num;
  counted = sym (count-init_slots k 0 tcp_ack_num);
  free_idle = λ i e. (ground arith, idle-init_slots k 0 tcp_ack_num i);
  flows = λ i j b. absurd (false≢true (sym (idle-init_slots k 0 tcp_ack_num i) ∙ b));
}

-- One for one: a slot is replaced by one that is as busy, with the same flow.
SameFlows-cons :
    (x y : TcpAckInfo) (xs ys : List TcpAckInfo)
    → y.busy ≡ x.busy
    → flow_key y.ack_msg ≡ flow_key x.ack_msg
    → SameFlows xs ys
    → SameFlows (x ∷ xs) (y ∷ ys)
SameFlows-cons x y xs ys b f s = record {
  size = omega (arith, s.size);
  count = omega (arith, s.count, ap one_if b);
  busy = λ i. at_busy i;
  key = λ i. at_key i;
}
  where
    at_busy : (i : ℕ) → (slot (y ∷ ys) i).busy ≡ (slot (x ∷ xs) i).busy
    at_busy zero = b
    at_busy (suc i) = s.busy i

    at_key : (i : ℕ) → flow_key (slot (y ∷ ys) i).ack_msg ≡ flow_key (slot (x ∷ xs) i).ack_msg
    at_key zero = f
    at_key (suc i) = s.key i

SameFlows-nil : SameFlows [] []
SameFlows-nil = record { size = refl; count = refl; busy = λ i. refl; key = λ i. refl }

deinit-cons :
    (x : TcpAckInfo) (xs : List TcpAckInfo)
    → (deinit_slots (x ∷ xs)).0 ≡ record x { timer = none; msgbuf = none } ∷ (deinit_slots xs).0
unfolding deinit_slots
deinit-cons x xs = ground arith

deinit-SameFlows : (xs : List TcpAckInfo) → SameFlows xs (deinit_slots xs).0
deinit-SameFlows [] = unfold deinit_slots in SameFlows-nil
deinit-SameFlows (x ∷ xs) = rw (deinit-cons x xs) (
    SameFlows-cons x (record x { timer = none; msgbuf = none }) xs (deinit_slots xs).0 refl refl
      (deinit-SameFlows xs))

move-SameFlows : (b : MsgBuf) (xs : List TcpAckInfo) → SameFlows xs (move_slots b xs)
unfolding move_slots
move-SameFlows b [] = SameFlows-nil
move-SameFlows b (x ∷ xs) =
    SameFlows-cons x _ xs (move_slots b xs) (ground arith) (ground arith) (move-SameFlows b xs)

-- tcp_ack_deinit keeps the invariant.
pub tcp_ack_deinit-IsValid : (m : TcpAckManage) → IsValid m → IsValid (tcp_ack_deinit m).0
unfolding tcp_ack_deinit
tcp_ack_deinit-IsValid m v = SameFlows-IsValid m _ false (deinit-SameFlows m.ack_info) v

-- move_tcpack_msg keeps the invariant.
pub move_tcpack_msg-IsValid :
    (m : TcpAckManage) (b : MsgBuf) → IsValid m → IsValid (move_tcpack_msg m b)
unfolding move_tcpack_msg
move_tcpack_msg-IsValid m b v = elim (Bool-cases m.enable) [
  | inl e ↦
      rw e (SameFlows-IsValid m (move_slots b m.ack_info) true (move-SameFlows b m.ack_info) v)
  | inr e ↦
      rw e
        (record { slots = v.slots; counted = v.counted; free_idle = v.free_idle; flows = v.flows })
]

-- The slot of a held acknowledgement stays as busy as it was, with its flow, whatever comes.
pub tcp_ack_handle_new-slot :
    (k : Clock) (new : MsgBuf) (max : ℕ) (s : TcpAckInfo) (a : TcpAckMsg) (type : ℕ)
    → ((tcp_ack_handle_new k new max s a type).1.busy ≡ s.busy)
      × (flow_key (tcp_ack_handle_new k new max s a type).1.ack_msg ≡ flow_key s.ack_msg)
unfolding tcp_ack_handle_new
tcp_ack_handle_new-slot k new max s a type = ground arith

tcp_ack_timeout-slot :
    (s : TcpAckInfo)
    → ((tcp_ack_timeout s).0.busy ≡ s.busy)
      × (flow_key (tcp_ack_timeout s).0.ack_msg ≡ flow_key s.ack_msg)
unfolding tcp_ack_timeout
tcp_ack_timeout-slot s = ground arith

-- The timer of any slot keeps the invariant.
pub timeout_at-IsValid : (m : TcpAckManage) (i : ℕ) → IsValid m → IsValid (timeout_at m i).0
unfolding timeout_at
timeout_at-IsValid m i v = elim (Option-cases (get_elem? m.ack_info i)) [
  | inl e ↦ rw (e, timeout_at) v
  | inr (s, e) ↦
      let (b, f) = tcp_ack_timeout-slot s in
      rw (e, timeout_at) (write_back-IsValid m i s (tcp_ack_timeout s).0 e b f v)
]
