-- ===== src/TcpAck/Table/Alloc.antt =====
-- tcp_ack_alloc_index on a valid table, and what filling the slot that it hands out needs.
use aic8800_linux_driver.Common.{
  false≢true, ◌↔◌, ℕ, ◌+◌, ◌<◌, ◌≡◌, ◌≢◌, sym, ap, ◌∙◌, true, false, none, some, List, length, set,
  arith, inl, inr, Bool-cases, Option-cases, ◌==◌, length-set, none≢some,
}
use native.Mathlib.Decide.{ℕ_discrete}
use aic8800_linux_driver.TcpAck.{TcpAckMsg, TcpAckInfo, TcpAckManage, tcp_ack_num}
use aic8800_linux_driver.TcpAck.Table.{tcp_ack_match, tcp_ack_alloc_index, first_idle}
use aic8800_linux_driver.TcpAck.Table.Slots.{
  match_from-none, slot, one_if, count_busy, count_busy-set, first_idle_lem, first_idle-none,
}
use aic8800_linux_driver.TcpAck.Table.Valid.{
  OneSlotPerFlow, IsValid, flow_key, flow_eq_iff, slot-set_self, slot-set_ne,
}

-- The slot that tcp_ack_alloc_index hands out of a valid table is idle.
pub tcp_ack_alloc_index-idle :
    (m : TcpAckManage) (i : ℕ)
    → IsValid m
    → (tcp_ack_alloc_index m).0 ≡ some i
    → (i < tcp_ack_num) × ((slot m.ack_info i).busy ≡ false)
unfolding tcp_ack_alloc_index
tcp_ack_alloc_index-idle m i v h = elim (Bool-cases (m.max_num == tcp_ack_num)) [
  | inl full ↦ absurd (none≢some (rw full at h))
  | inr room ↦ elim (Option-cases m.free_index) [
    | inr (r, e) ↦ let q : r ≡ i = ground arith in rw q at (v.free_idle r e)
    | inl e ↦ elim (Option-cases (first_idle 0 m.ack_info)) [
      | inl g ↦ absurd (ground arith)
      | inr (r, g) ↦
          let q : r ≡ i = ground arith in
          let (j, a, b, c) = first_idle_lem 0 m.ack_info r g in
          let z : j ≡ i = omega arith in (omega (arith, v.slots), rw z at c)
    ]
  ]
]

pub tcp_ack_alloc_index-state :
    (m : TcpAckManage) (i : ℕ)
    → (tcp_ack_alloc_index m).0 ≡ some i
    → (tcp_ack_alloc_index m).1 ≡ record m { free_index = none; max_num = m.max_num + 1 }
unfolding tcp_ack_alloc_index
tcp_ack_alloc_index-state m i h = ground arith

-- tcp_ack_alloc_index hands out no slot only when all 32 are busy, and then changes nothing.
pub tcp_ack_alloc_index-none :
    (m : TcpAckManage)
    → IsValid m
    → (tcp_ack_alloc_index m).0 ≡ none
    → (count_busy m.ack_info ≡ tcp_ack_num) × ((tcp_ack_alloc_index m).1 ≡ m)
unfolding tcp_ack_alloc_index
tcp_ack_alloc_index-none m v h =
    (ground (arith, first_idle-none 0 m.ack_info, v.counted, v.slots), ground arith)

alloc_full-none :
    (m : TcpAckManage)
    → IsValid m
    → count_busy m.ack_info ≡ tcp_ack_num
    → (tcp_ack_alloc_index m).0 ≡ none
unfolding tcp_ack_alloc_index
alloc_full-none m v h = ground (arith, v.counted)

-- On a valid table tcp_ack_alloc_index hands out no slot exactly when all 32 are busy; the slot that
-- it hands out is idle, and then `max_num` is one more and `free_index` is -1.
pub tcp_ack_alloc_index_lem :
    (m : TcpAckManage)
    → IsValid m
    → (((tcp_ack_alloc_index m).0 ≡ none) ↔ (count_busy m.ack_info ≡ tcp_ack_num))
      × ((i : ℕ)
          → (tcp_ack_alloc_index m).0 ≡ some i
          → (i < tcp_ack_num)
            × ((slot m.ack_info i).busy ≡ false)
            × ((tcp_ack_alloc_index m).1 ≡ record m { free_index = none; max_num = m.max_num + 1 }))
tcp_ack_alloc_index_lem m v = (
  ((λ h. (tcp_ack_alloc_index-none m v h).0), alloc_full-none m v),
  λ i h.
      let (l, idle) = tcp_ack_alloc_index-idle m i v h in
      (l, idle, tcp_ack_alloc_index-state m i h),
)

-- No busy slot has the flow of `a`.
abbrev pub NoFlow : List TcpAckInfo → TcpAckMsg → Type 0
NoFlow xs a = (j : ℕ) → (slot xs j).busy ≡ true → flow_key (slot xs j).ack_msg ≢ flow_key a

-- No busy slot has the flow of a message that tcp_ack_match does not find.
pub match-NoFlow :
    (m : TcpAckManage) (a : TcpAckMsg) → tcp_ack_match m a ≡ none → NoFlow m.ack_info a
unfolding tcp_ack_match
match-NoFlow m a e j b k = absurd (
    false≢true (
      sym (match_from-none 0 m.ack_info a j e b) ∙ (flow_eq_iff (slot m.ack_info j).ack_msg a).1 k))

claim-flows :
    (xs : List TcpAckInfo) (i : ℕ) (v : TcpAckInfo)
    → i < length xs
    → NoFlow xs v.ack_msg
    → OneSlotPerFlow xs
    → OneSlotPerFlow (set xs i v)
claim-flows xs i v h new o a b ba bb e = elim (ℕ_discrete i a) [
  | yes p ↦ elim (ℕ_discrete i b) [
    | yes q ↦ sym p ∙ q
    | no q ↦ absurd (
        new b (rw (slot-set_ne xs i b v q) at bb) (
          sym (
            (flow_eq_iff v.ack_msg (slot xs b).ack_msg).0
              (rw (← p, slot-set_self xs i v h, slot-set_ne xs i b v q) at e))))
  ]
  | no p ↦ elim (ℕ_discrete i b) [
    | yes q ↦ absurd (
        new a (rw (slot-set_ne xs i a v p) at ba) (
          (flow_eq_iff (slot xs a).ack_msg v.ack_msg).0
            (rw (← q, slot-set_self xs i v h, slot-set_ne xs i a v p) at e)))
    | no q ↦
        o a b (rw (slot-set_ne xs i a v p) at ba) (rw (slot-set_ne xs i b v q) at bb)
          (rw (slot-set_ne xs i a v p, slot-set_ne xs i b v q) at e)
  ]
]

-- Filling an idle slot with a flow that no busy slot has keeps the invariant.
pub claim-IsValid :
    (m : TcpAckManage) (i : ℕ) (v : TcpAckInfo)
    → i < tcp_ack_num
    → (slot m.ack_info i).busy ≡ false
    → v.busy ≡ true
    → NoFlow m.ack_info v.ack_msg
    → IsValid m
    → IsValid
        (record m { free_index = none; max_num = m.max_num + 1; ack_info = set m.ack_info i v })
claim-IsValid m i v h idle b new w = record {
  slots = length-set m.ack_info i v ∙ w.slots;
  counted = omega (
    arith,
    count_busy-set m.ack_info i v (omega (arith, w.slots)),
    ap one_if b,
    ap one_if idle,
    w.counted,
  );
  free_idle = λ r e. cc;
  flows = claim-flows m.ack_info i v (omega (arith, w.slots)) new w.flows;
}
