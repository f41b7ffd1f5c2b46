-- ===== src/Txq/Process/Kept.antt =====
-- A round of rwnx_hwq_process keeps the lists of the hardware queues.
use aic8800_linux_driver.Common.{
  ℕ, ◌-◌, ◌≡◌, refl, ap, ◌∙◌, inl, inr, Bool, true, false, ◌&&◌, not, Option, none, some, List, [],
  ◌∷◌, length, length-set, get_or, get_or-set_field, set, Bool-cases, ◌==◌, if◌then◌else◌, arith,
  ltb, u16_mod, none≢some, some_inj, subst,
}
use aic8800_linux_driver.Txq.{
  Txq, Hwq, Hw, emit, no_txq, no_hwq, txq_at, set_txq, hwq_at, sta_at, rwnx_ndev_flow_ctrl_restart,
  netif_wake_subqueue, legacy_ps_id, txq_inactive,
}
use aic8800_linux_driver.Txq.Sched.{rwnx_txq_del_from_hw_list}
use aic8800_linux_driver.Txq.Sched.Links.{
  Linked, SameLinks-Linked, set_txq-SameLinks, del-Linked, count, count-append,
}
use aic8800_linux_driver.Txq.Sched.Ops.{if_Linked, flush-Linked}
use aic8800_linux_driver.Txq.Push.{bump, set_sta, push_all, rwnx_txq_get_skb_to_push}
use aic8800_linux_driver.Txq.Push.Keeps.{push_all-SameLinks}
use aic8800_linux_driver.Txq.Process.{
  set_hwq, rotate, reschedule, abort_period, give_up, flow_off, restart_netdev, serve, is_bug,
  process_txq,
}

count-rotate : (i : ℕ) (xs : List ℕ) → count i (rotate xs) ≡ count i xs
count-rotate i [] = refl
count-rotate i (x ∷ xs) = omega (arith, count-append i xs (x ∷ []))

-- A write to a hardware queue that keeps what its list holds.
pub set_hwq-Linked :
    (h : Hw) (k : ℕ) (q : Hwq)
    → ((i : ℕ) → count i q.list ≡ count i (hwq_at h k).list)
    → Linked h
    → Linked (set_hwq h k q)
set_hwq-Linked h k q c w = record {
  lists =
      λ i j. get_or-set_field (λ (x : Hwq). count i x.list) h.hwq k j q no_hwq (c i) ∙ w.lists i j;
  homes = λ i. omega (arith, length-set h.hwq k q, w.homes i);
}

-- A write to a queue that leaves its flag and its hardware queue alone, and no other.
pub written_Linked :
    (h n : Hw) (i : ℕ) (t : Txq)
    → n.txq ≡ set h.txq i t
    → n.hwq ≡ h.hwq
    → t.status.in_hwq_list ≡ (txq_at h i).status.in_hwq_list
    → t.hwq ≡ (txq_at h i).hwq
    → Linked h
    → Linked n
written_Linked h n i t e f a b w =
    let s = set_txq-SameLinks h i t a b in
    SameLinks-Linked h n
      (record {
        lists = λ k. ap (λ x. (get_or x k no_hwq).list) f;
        marks = λ j. ap (λ x. (get_or x j no_txq).status.in_hwq_list) e ∙ s.marks j;
        homes = λ j. ap (λ x. (get_or x j no_txq).hwq) e ∙ s.homes j;
        size = ap length f;
      })
      w

reschedule-Linked : (h : Hw) (k i : ℕ) (b : Bool) → Linked h → Linked (reschedule h k i b)
unfolding reschedule
reschedule-Linked h k i true w =
    let n = rwnx_txq_del_from_hw_list h i in
    let t : Txq = record (txq_at n i) { pkt_sent = 0 } in
    written_Linked n (set_txq n i t) i t refl refl refl refl (del-Linked h i w)
reschedule-Linked h k i false w =
    let t : Txq = record (txq_at h i) { pkt_sent = 0 } in
    let q = hwq_at h k in
    let a = set_txq h i t in
    if_Linked ((txq_at h i).status.in_hwq_list && ltb q.size (txq_at h i).pkt_sent)
      (set_hwq a k (record q { list = rotate q.list })) h
      (set_hwq-Linked a k (record q { list = rotate q.list }) (λ j. count-rotate j q.list)
        (written_Linked h a i t refl refl refl refl w))
      w

give_up-Linked : (h : Hw) (i : ℕ) (o : Option ℕ) → Linked h → Linked (give_up h i o)
give_up-Linked h i none w = w
give_up-Linked h i (some s) w =
    let t : Txq = record (txq_at h i) { push_limit = 0 } in
    let sp = bump (u16_mod - (txq_at h i).push_limit) (sta_at h s).sp_cnt (txq_at h i).ps_id in
    let n = set_txq (set_sta h s (record (sta_at h s) { sp_cnt = sp })) i t in
    if_Linked (not ((txq_at h i).push_limit == 0) && ((txq_at h i).ps_id == legacy_ps_id)) n h
      (written_Linked h n i t refl refl refl refl w) w

restart_netdev-Linked : (h : Hw) (i : ℕ) → Linked h → Linked (restart_netdev h i)
unfolding restart_netdev
restart_netdev-Linked h i w =
    let t = txq_at h i in
    let n = set_txq h i (flow_off t) in
    let m = emit (netif_wake_subqueue t.ndev t.ndev_idx) n in
    if_Linked (t.status.ndev_flow_ctrl && ltb (length t.sk_list) rwnx_ndev_flow_ctrl_restart)
      (if h.tbusy then n else m) h
      (if_Linked h.tbusy n m (written_Linked h n i (flow_off t) refl refl refl refl w)
        (written_Linked h m i (flow_off t) refl refl refl refl w))
      w

pub serve-Linked : (h : Hw) (k i : ℕ) → Linked h → Linked (serve h k i)
unfolding serve abort_period
serve-Linked h k i w =
    let r = rwnx_txq_get_skb_to_push (txq_at h i) in
    let t : Txq = record (txq_at h i) { sk_list = r.1 } in
    let a = set_txq h i t in
    let b = push_all a i r.0 in
    let c = reschedule b k i r.2 in
    restart_netdev-Linked (abort_period c i) i (
      give_up-Linked c i (txq_at c i).sta (
        reschedule-Linked b k i r.2 (
          SameLinks-Linked a b (push_all-SameLinks a i r.0)
            (written_Linked h a i t refl refl refl refl w))))

pub process_txq-Linked : (h n : Hw) (k i : ℕ) → process_txq h k i ≡ some n → Linked h → Linked n
unfolding process_txq
process_txq-Linked h n k i e w = elim (Bool-cases (is_bug (txq_at h i))) [
  | inl b ↦ absurd (none≢some (rw (b) at e))
  | inr b ↦ elim (Bool-cases ((txq_at h i).idx == txq_inactive)) [
    | inl a ↦
        subst Linked (some_inj (rw (b, a) at e))
          (flush-Linked (rwnx_txq_del_from_hw_list h i) i (del-Linked h i w))
    | inr a ↦ subst Linked (some_inj (rw (b, a) at e)) (serve-Linked h k i w)
  ]
]
