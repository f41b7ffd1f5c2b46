-- ===== src/Txq/Sched/Ops.antt =====
-- Starting, stopping, initialising and releasing queues keep the lists of the hardware queues.
use aic8800_linux_driver.Common.{
  get_or-set_ne, get_or-set_field, ℕ, zero, suc, ◌+◌, ◌<◌, ◌≡◌, ◌≢◌, refl, sym, ap, ◌∙◌, inl, inr,
  Bool, true, false, ◌&&◌, not, Option, none, some, List, [], ◌∷◌, length, length-set, get_or, set,
  arith, Bool-cases, false≢true, ◌==◌, if◌then◌else◌,
}
use native.Mathlib.Decide.{ℕ_discrete}
use aic8800_linux_driver.Txq.{
  Status, Reason, Frame, Txq, Hw, emit, kfree_skb, no_txq, txq_at, set_txq, hwq_at, txq_inactive,
  has, mark, is_stopped, is_nil, full, csa, sta_ps, vif_ps, chan, mu_pos, rwnx_txq_sta_get,
  rwnx_txq_vif_get,
}
use aic8800_linux_driver.Txq.Sched.{
  rwnx_txq_add_to_hw_list, rwnx_txq_del_from_hw_list, rwnx_txq_start, rwnx_txq_stop, rwnx_txq_flush,
  rwnx_txq_deinit, free_all, rwnx_txq_init, each, init_ndev_idx, each_sta, start_chsw,
  rwnx_txq_sta_start, rwnx_txq_sta_stop, rwnx_txq_sta_deinit, rwnx_txq_vif_start, rwnx_txq_vif_stop,
  nb_txq, Peers, peers_of,
}
use aic8800_linux_driver.Txq.Sched.Links.{
  Linked, SameLinks, SameLinks-refl, SameLinks-trans, SameLinks-Linked, set_txq-SameLinks,
  add-Linked, del-Linked, active_in_range, count, one,
}

pub mark_in : (s : Status) (r : Reason) (b : Bool) → (mark s r b).in_hwq_list ≡ s.in_hwq_list
mark_in s full b = refl
mark_in s csa b = refl
mark_in s sta_ps b = refl
mark_in s vif_ps b = refl
mark_in s chan b = refl
mark_in s mu_pos b = refl

pub if_Linked : (b : Bool) (x y : Hw) → Linked x → Linked y → Linked (if b then x else y)
if_Linked true x y p q = p
if_Linked false x y p q = q

marked :
    (h : Hw) (i : ℕ) (r : Reason) (b : Bool)
    → Linked h
    → Linked (set_txq h i (record (txq_at h i) { status = mark (txq_at h i).status r b }))
marked h i r b w =
    let t : Txq = record (txq_at h i) { status = mark (txq_at h i).status r b } in
    SameLinks-Linked h (set_txq h i t)
      (set_txq-SameLinks h i t (mark_in (txq_at h i).status r b) refl) w

in_use : (idx : ℕ) (b : Bool) → not (idx == txq_inactive) && b ≡ true → idx ≢ txq_inactive
in_use idx b e z = absurd (false≢true (rw (z) at e))

pub start-Linked : (h : Hw) (i : ℕ) (r : Reason) → Linked h → Linked (rwnx_txq_start h i r)
unfolding rwnx_txq_start
start-Linked h i r w =
    elim (Bool-cases (not ((txq_at h i).idx == txq_inactive) && has (txq_at h i).status r)) [
      | inr e ↦ rw e w
      | inl e ↦
          let s = mark (txq_at h i).status r false in
          let n = set_txq h i (record (txq_at h i) { status = s }) in
          let m = marked h i r false w in
          rw e (
            if_Linked (not (is_stopped s) && not (is_nil (txq_at h i).sk_list))
              (rwnx_txq_add_to_hw_list n i) n
              (add-Linked n i
                (omega (
                  arith,
                  length-set h.txq i (record (txq_at h i) { status = s }),
                  active_in_range h.txq i (in_use (txq_at h i).idx (has (txq_at h i).status r) e),
                ))
                m)
              m)
    ]

pub stop-Linked : (h : Hw) (i : ℕ) (r : Reason) → Linked h → Linked (rwnx_txq_stop h i r)
unfolding rwnx_txq_stop
stop-Linked h i r w =
    let t : Txq = record (txq_at h i) { status = mark (txq_at h i).status r true } in
    if_Linked ((txq_at h i).idx == txq_inactive) h (rwnx_txq_del_from_hw_list (set_txq h i t) i) w
      (del-Linked (set_txq h i t) i (marked h i r true w))

pub free_all-SameLinks : (fs : List Frame) (h : Hw) → SameLinks h (free_all fs h)
free_all-SameLinks [] h = SameLinks-refl h
free_all-SameLinks (f ∷ fs) h =
    SameLinks-trans h (emit (kfree_skb f.skb) h) (free_all fs (emit (kfree_skb f.skb) h))
      (record { lists = λ k. refl; marks = λ i. refl; homes = λ i. refl; size = refl })
      (free_all-SameLinks fs (emit (kfree_skb f.skb) h))

pub flush-Linked : (h : Hw) (i : ℕ) → Linked h → Linked (rwnx_txq_flush h i)
unfolding rwnx_txq_flush
flush-Linked h i w =
    let t : Txq = record (txq_at h i) { sk_list = [] } in
    SameLinks-Linked h (free_all (txq_at h i).sk_list (set_txq h i t))
      (SameLinks-trans h (set_txq h i t) (free_all (txq_at h i).sk_list (set_txq h i t))
        (set_txq-SameLinks h i t refl refl)
        (free_all-SameLinks (txq_at h i).sk_list (set_txq h i t)))
      w

pub deinit-Linked : (h : Hw) (i : ℕ) → Linked h → Linked (rwnx_txq_deinit h i)
unfolding rwnx_txq_deinit
deinit-Linked h i w =
    let n = rwnx_txq_del_from_hw_list h i in
    let t : Txq = record (txq_at n i) { idx = txq_inactive } in
    if_Linked ((txq_at h i).idx == txq_inactive) h (rwnx_txq_flush (set_txq n i t) i) w (
      flush-Linked (set_txq n i t) i
        (SameLinks-Linked n (set_txq n i t) (set_txq-SameLinks n i t refl refl) (del-Linked h i w)))

-- An operation on a run of queues that keeps the lists for one keeps them for all.
pub each-Linked :
    (f : Hw → ℕ → Hw) (i n : ℕ) (h : Hw)
    → ((a : Hw) (j : ℕ) → Linked a → Linked (f a j))
    → Linked h
    → Linked (each f i n h)
unfolding each
each-Linked f i zero h k w = w
each-Linked f i (suc n) h k w = each-Linked f (i + 1) n (f h i) k (k h i w)

fresh_count :
    (h : Hw) (i j k : ℕ) (t : Txq)
    → (txq_at h i).status.in_hwq_list ≡ false
    → t.status.in_hwq_list ≡ false
    → Linked h
    → count j (hwq_at h k).list
      ≡ one ((txq_at (set_txq h i t) j).status.in_hwq_list && ((txq_at (set_txq h i t) j).hwq == k))
fresh_count h i j k t e f w = elim (ℕ_discrete i j) [
  | yes p ↦ rw (← p) (
      w.lists i k
      ∙ ap (λ b. one (b && ((txq_at h i).hwq == k))) e
      ∙ sym (
          ap (λ b. one (b && ((txq_at (set_txq h i t) i).hwq == k)))
            (get_or-set_field (λ (x : Txq). x.status.in_hwq_list) h.txq i i t no_txq (f ∙ sym e)
              ∙ e)))
  | no p ↦ rw (get_or-set_ne h.txq i j t no_txq p) (w.lists j k)
]

fresh_home :
    (xs : List Txq) (i j : ℕ) (t : Txq) (n : ℕ)
    → t.hwq < n
    → ((a : ℕ) → (get_or xs a no_txq).hwq < n)
    → (get_or (set xs i t) j no_txq).hwq < n
fresh_home [] i j t n l k = k j
fresh_home (x ∷ xs) zero zero t n l k = l
fresh_home (x ∷ xs) zero (suc j) t n l k = k (suc j)
fresh_home (x ∷ xs) (suc i) zero t n l k = k 0
fresh_home (x ∷ xs) (suc i) (suc j) t n l k = fresh_home xs i j t n l (λ a. k (suc a))

-- A queue that is not in a list is initialised.
pub init-Linked :
    (h : Hw) (idx : ℕ) (status : Status) (hwq tid : ℕ) (sta : Option ℕ) (ndev : ℕ)
    → (txq_at h idx).status.in_hwq_list ≡ false
    → status.in_hwq_list ≡ false
    → hwq < length h.hwq
    → Linked h
    → Linked (rwnx_txq_init h idx status hwq tid sta ndev)
unfolding rwnx_txq_init
init-Linked h idx status hwq tid sta ndev e f l w =
    let t : Txq = record {
      idx = idx;
      status = status;
      credits = 64;
      pkt_sent = 0;
      pkt_pushed = 0;
      sk_list = [];
      last_retry_skb = none;
      hwq = hwq;
      nb_retry = 0;
      push_limit = 0;
      tid = tid;
      sta = sta;
      ps_id = 0;
      ndev_idx = init_ndev_idx h idx sta;
      ndev = ndev;
    } in
    record {
      lists = λ j k. fresh_count h idx j k t e f w;
      homes = λ j. fresh_home h.txq idx j t (length h.hwq) l w.homes;
    }

pub sta_start-Linked : (h : Hw) (s : ℕ) (r : Reason) → Linked h → Linked (rwnx_txq_sta_start h s r)
unfolding rwnx_txq_sta_start
sta_start-Linked h s r w =
    each-Linked (λ n i. rwnx_txq_start n i r) (rwnx_txq_sta_get h s 0) (nb_txq h s) h
      (λ a j. start-Linked a j r) w

pub sta_stop-Linked : (h : Hw) (s : ℕ) (r : Reason) → Linked h → Linked (rwnx_txq_sta_stop h s r)
unfolding rwnx_txq_sta_stop
sta_stop-Linked h s r w =
    each-Linked (λ n i. rwnx_txq_stop n i r) (rwnx_txq_sta_get h s 0) (nb_txq h s) h
      (λ a j. stop-Linked a j r) w

pub sta_deinit-Linked : (h : Hw) (s : ℕ) → Linked h → Linked (rwnx_txq_sta_deinit h s)
unfolding rwnx_txq_sta_deinit
sta_deinit-Linked h s w =
    each-Linked rwnx_txq_deinit (rwnx_txq_sta_get h s 0) (nb_txq h s) h deinit-Linked w

pub each_sta-Linked :
    (f : Hw → ℕ → Hw) (ss : List ℕ) (h : Hw)
    → ((a : Hw) (j : ℕ) → Linked a → Linked (f a j))
    → Linked h
    → Linked (each_sta f ss h)
unfolding each_sta
each_sta-Linked f [] h k w = w
each_sta-Linked f (s ∷ ss) h k w = each_sta-Linked f ss (f h s) k (k h s w)

pub vif_stop-Linked :
    (h : Hw) (monitor : Bool) (peers : Peers) (vif : ℕ) (r : Reason)
    → Linked h
    → Linked (rwnx_txq_vif_stop h monitor peers vif r)
unfolding rwnx_txq_vif_stop
vif_stop-Linked h monitor peers vif r w =
    let b = each_sta (λ n s. rwnx_txq_sta_stop n s r) (peers_of peers) h in
    let c = rwnx_txq_stop b (rwnx_txq_vif_get h vif 0) r in
    if_Linked monitor h (rwnx_txq_stop c (rwnx_txq_vif_get h vif 1) r) w (
      stop-Linked c (rwnx_txq_vif_get h vif 1) r (
        stop-Linked b (rwnx_txq_vif_get h vif 0) r (
          each_sta-Linked (λ n s. rwnx_txq_sta_stop n s r) (peers_of peers) h
            (λ a j. sta_stop-Linked a j r) w)))

chsw_Linked : (h : Hw) (r : Reason) (chsw : Option ℕ) → Linked h → Linked (start_chsw h r chsw)
chsw_Linked h r none w = w
chsw_Linked h r (some s) w = sta_start-Linked h s r w

pub vif_start-Linked :
    (h : Hw) (monitor roc : Bool) (chsw : Option ℕ) (peers : Peers) (vif : ℕ) (r : Reason)
    → Linked h
    → Linked (rwnx_txq_vif_start h monitor roc chsw peers vif r)
unfolding rwnx_txq_vif_start
vif_start-Linked h monitor roc chsw peers vif r w =
    let a = start_chsw h r chsw in
    let e = each_sta (λ n s. rwnx_txq_sta_start n s r) (peers_of peers) h in
    let b = if roc then a else e in
    let c = rwnx_txq_start b (rwnx_txq_vif_get h vif 0) r in
    if_Linked monitor h (rwnx_txq_start c (rwnx_txq_vif_get h vif 1) r) w (
      start-Linked c (rwnx_txq_vif_get h vif 1) r (
        start-Linked b (rwnx_txq_vif_get h vif 0) r (
          if_Linked roc a e (chsw_Linked h r chsw w) (
            each_sta-Linked (λ n s. rwnx_txq_sta_start n s r) (peers_of peers) h
              (λ x j. sta_start-Linked x j r) w))))
