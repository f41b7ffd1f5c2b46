-- ===== src/TcpAck/Table/Valid.antt =====
-- The invariant of the table of flows; expiry, writing back and claiming a slot keep it.
use aic8800_linux_driver.Common.{
  ℕ, ◌+◌, ◌<◌, ◌≡◌, ◌≢◌, refl, sym, ap, ◌∙◌, ◌%◌, ◌↔◌, true, false, some, List, length, set, arith,
  inl, inr, Bool-cases, length-set, get_or-set_self, get_or-set_ne,
}
use native.Mathlib.Decide.{ℕ_discrete}
use aic8800_linux_driver.TcpAck.{Clock, TcpAckMsg, TcpAckInfo, TcpAckManage, tcp_ack_num}
use aic8800_linux_driver.TcpAck.Table.{flow_eq, tcp_ack_update, expire_from, ulong_mod}
use aic8800_linux_driver.TcpAck.Table.Slots.{
  idle_slot, slot, one_if, count_busy, count_busy-set, expire, length-expire_from, slot-expire_from,
  count-expire_from, free-expire_from,
}

-- Two busy slots never hold the same flow.
abbrev pub OneSlotPerFlow : List TcpAckInfo → Type 0
OneSlotPerFlow xs =
    (i j : ℕ)
    → (slot xs i).busy ≡ true
    → (slot xs j).busy ≡ true
    → flow_eq (slot xs i).ack_msg (slot xs j).ack_msg ≡ true
    → i ≡ j

-- What holds of the table between two calls.
pub record IsValid (m : TcpAckManage) : Type 0 where
  pub slots : length m.ack_info ≡ tcp_ack_num
  pub counted : m.max_num ≡ count_busy m.ack_info
  pub free_idle :
      (i : ℕ) → m.free_index ≡ some i → (i < tcp_ack_num) × ((slot m.ack_info i).busy ≡ false)
  pub flows : OneSlotPerFlow m.ack_info

busy-expire : (k : Clock) (x : TcpAckInfo) → (expire k x).busy ≡ true → x.busy ≡ true
busy-expire k x h = ground arith

idle-expire : (k : Clock) (x : TcpAckInfo) → x.busy ≡ false → (expire k x).busy ≡ false
idle-expire k x h = ground arith

-- What tells two flows apart.
abbrev pub flow_key : TcpAckMsg → ℕ × ℕ × ℕ × ℕ
flow_key a = (a.dest, a.source, a.saddr, a.daddr)

pub flow_eq_iff : (a b : TcpAckMsg) → (flow_eq a b ≡ true) ↔ (flow_key a ≡ flow_key b)
unfolding flow_eq
flow_eq_iff a b = ground arith

-- The slots of `ys` that are busy were busy in `xs`, with the same flow.
abbrev pub Inherits : List TcpAckInfo → List TcpAckInfo → Type 0
Inherits xs ys =
    (i : ℕ)
    → ((slot ys i).busy ≡ true → (slot xs i).busy ≡ true)
      × (flow_key (slot ys i).ack_msg ≡ flow_key (slot xs i).ack_msg)

pub Inherits-flows :
    (xs ys : List TcpAckInfo) → Inherits xs ys → OneSlotPerFlow xs → OneSlotPerFlow ys
Inherits-flows xs ys h o i j bi bj e =
    o i j ((h i).0 bi) ((h j).0 bj)
      ((flow_eq_iff _ _).1 (sym (h i).1 ∙ (flow_eq_iff _ _).0 e ∙ (h j).1))

pub slot-set_self :
    (xs : List TcpAckInfo) (i : ℕ) (v : TcpAckInfo) → i < length xs → slot (set xs i v) i ≡ v
slot-set_self xs i v h = get_or-set_self xs i v idle_slot h

pub slot-set_ne :
    (xs : List TcpAckInfo) (i j : ℕ) (v : TcpAckInfo) → i ≢ j → slot (set xs i v) j ≡ slot xs j
slot-set_ne xs i j v h = get_or-set_ne xs i j v idle_slot h

-- A slot that keeps its flow and does not become busy.
Inherits-set :
    (xs : List TcpAckInfo) (i : ℕ) (v : TcpAckInfo)
    → i < length xs
    → v.busy ≡ (slot xs i).busy
    → flow_key v.ack_msg ≡ flow_key (slot xs i).ack_msg
    → Inherits xs (set xs i v)
Inherits-set xs i v h b f j = elim (ℕ_discrete i j) [
  | yes e ↦ rw (← e, slot-set_self xs i v h) ((λ p. sym b ∙ p), f)
  | no n ↦ rw (slot-set_ne xs i j v n) ((λ p. p), refl)
]

busy-set :
    (xs : List TcpAckInfo) (i : ℕ) (v : TcpAckInfo) (r : ℕ)
    → i < length xs
    → v.busy ≡ (slot xs i).busy
    → (slot (set xs i v) r).busy ≡ (slot xs r).busy
busy-set xs i v r h b = elim (ℕ_discrete i r) [
  | yes e ↦ rw (← e, slot-set_self xs i v h) b
  | no n ↦ rw (slot-set_ne xs i r v n)
]

count-set_same :
    (xs : List TcpAckInfo) (i : ℕ) (v : TcpAckInfo)
    → i < length xs
    → v.busy ≡ (slot xs i).busy
    → count_busy (set xs i v) ≡ count_busy xs
count-set_same xs i v h b = omega (arith, count_busy-set xs i v h, ap one_if b)

-- Writing back a slot that is as busy as before, with the same flow, keeps the invariant.
pub set-IsValid :
    (m : TcpAckManage) (i : ℕ) (v : TcpAckInfo)
    → i < length m.ack_info
    → v.busy ≡ (slot m.ack_info i).busy
    → flow_key v.ack_msg ≡ flow_key (slot m.ack_info i).ack_msg
    → IsValid m
    → IsValid (record m { ack_info = set m.ack_info i v })
set-IsValid m i v h b f w = record {
  slots = length-set m.ack_info i v ∙ w.slots;
  counted = w.counted ∙ sym (count-set_same m.ack_info i v h b);
  free_idle = λ r e. ((w.free_idle r e).0, busy-set m.ack_info i v r h b ∙ (w.free_idle r e).1);
  flows =
      Inherits-flows m.ack_info (set m.ack_info i v) (Inherits-set m.ack_info i v h b f) w.flows;
}

key-expire : (k : Clock) (x : TcpAckInfo) → flow_key (expire k x).ack_msg ≡ flow_key x.ack_msg
key-expire k x = ground arith

expired-IsValid :
    (k : Clock) (m : TcpAckManage)
    → IsValid m
    → IsValid (record m {
      last_time = k.jiffies;
      ack_info = (expire_from k 0 m.ack_info m.free_index m.max_num).0;
      free_index = (expire_from k 0 m.ack_info m.free_index m.max_num).1;
      max_num = (expire_from k 0 m.ack_info m.free_index m.max_num).2;
    })
expired-IsValid k m v = record {
  slots = length-expire_from k m.free_index m.max_num 0 m.ack_info ∙ v.slots;
  counted =
      omega
        (arith, count-expire_from k m.free_index m.max_num 0 m.ack_info (omega arith), v.counted);
  free_idle = λ r e. elim (free-expire_from k m.free_index m.max_num 0 m.ack_info r e) [
    | inl g ↦ (
      (v.free_idle r g).0,
      rw (slot-expire_from k m.free_index m.max_num 0 m.ack_info r)
          (idle-expire k _ (v.free_idle r g).1),
    )
    | inr (j, p, l, b) ↦ (
      omega (arith, v.slots, length-expire_from k m.free_index m.max_num 0 m.ack_info),
      let q : j ≡ r = omega arith in rw q at b,
    )
  ];
  flows =
      Inherits-flows m.ack_info _
        (λ i.
          rw (slot-expire_from k m.free_index m.max_num 0 m.ack_info i)
            (busy-expire k (slot m.ack_info i), key-expire k (slot m.ack_info i)))
        v.flows;
}

-- tcp_ack_update keeps the invariant.
pub tcp_ack_update-IsValid :
    (k : Clock) (m : TcpAckManage) → IsValid m → IsValid (tcp_ack_update k m)
unfolding tcp_ack_update
tcp_ack_update-IsValid k m v =
    elim (Bool-cases (k.time_after k.jiffies ((m.last_time + m.timeout) % ulong_mod))) [
      | inl e ↦ rw e (expired-IsValid k m v)
      | inr e ↦ rw e v
    ]
