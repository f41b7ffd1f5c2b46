-- ===== src/FrameQueue/Enqueue.antt =====
-- aicwf_frame_enq on a valid queue: append, refuse, or replace a frame of a lower priority.
use aic8800_linux_driver.Common.{
  set-set, ℕ, suc, ◌+◌, ◌-◌, ◌%◌, ◌<◌, ◌≤◌, ◌≡◌, ◌≢◌, refl, ap, ◌∙◌, ◌⊎◌, inl, inr, Bool, true,
  false, Option, none, some, List, [], ◌∷◌, ◌++◌, length, set, length-set, get_or-set_ne,
  length-append, get_or-set_self, u16_mod, ==_iff, ◌==◌, arith, Bool-cases, if◌then◌else◌, lt→ltb,
  le→ltb_false, ltb, leb,
}
use aic8800_linux_driver.FrameQueue.{
  FrameQueue, queue_at, lowest_from, last?, but_last, aicwf_frame_queue_penq,
  aicwf_frame_queue_peek_tail, aicwf_skb_dequeue_tail, evict, aicwf_frame_enq,
}
use aic8800_linux_driver.FrameQueue.Total.{total-set}
use aic8800_linux_driver.FrameQueue.Valid.{IsValid}
use aic8800_linux_driver.FrameQueue.Lowest.{
  lowest_from-le, lowest-nonempty, lt_or_le, snoc, length-but_last,
}

-- The list `p` becomes `xs`, with `n` frames counted in all and `h` for the highest priority.
abbrev pub with_list : FrameQueue → ℕ → List ℕ → ℕ → ℕ → FrameQueue
with_list q p xs n h = record q { queuelist = set q.queuelist p xs; qcnt = n; hi_prio = h }

pub with_list-IsValid :
    (q : FrameQueue) (p : ℕ) (xs : List ℕ) (n h : ℕ)
    → p < q.num_prio
    → q.hi_prio ≤ h
    → p ≤ h
    → h < q.num_prio
    → n + length (queue_at q p) ≡ q.qcnt + length xs
    → n ≤ q.qmax
    → IsValid q
    → IsValid (with_list q p xs n h)
with_list-IsValid q p xs n h l a b c e m w = record {
  lists = length-set q.queuelist p xs ∙ w.lists;
  counted = omega (arith, total-set q.queuelist p xs (omega (arith, w.lists)), w.counted, e);
  bounded = m;
  narrow = w.narrow;
  priorities = w.priorities;
  below = c;
  above = λ i k. get_or-set_ne q.queuelist p i xs [] (omega arith) ∙ w.above i (omega arith);
}

abbrev pub lowest : FrameQueue → ℕ
lowest q = lowest_from q 0 q.hi_prio

-- What a call of aicwf_frame_enq did: the frame is the last of its list; or it is refused, because
-- its list is full or the queue is and holds nothing of a lower priority; or the last frame `x` of
-- the lowest list in use, of a lower priority, is freed and the new frame stands in its place there.
pub data Enqueued (q : FrameQueue) (pkt prio : ℕ) (r : Bool × FrameQueue × Option ℕ) : Type 0 where
  appended :
      length (queue_at q prio) < q.qmax
      → q.qcnt < q.qmax
      → r ≡ (
        true,
        with_list q prio
            (queue_at q prio ++ (pkt ∷ []))
            (q.qcnt + 1)
            (if ltb q.hi_prio prio then prio else q.hi_prio),
        none,
      )
      → Enqueued q pkt prio r
  refused :
      (q.qmax ≤ length (queue_at q prio)) ⊎ ((q.qcnt ≡ q.qmax) × (prio ≤ lowest q))
      → r ≡ (false, q, none)
      → Enqueued q pkt prio r
  replaced :
      (x : ℕ)
      → length (queue_at q prio) < q.qmax
      → q.qcnt ≡ q.qmax
      → lowest q < prio
      → last? (queue_at q (lowest q)) ≡ some x
      → r ≡ (
        true,
        with_list q (lowest q) (but_last (queue_at q (lowest q)) ++ (pkt ∷ [])) q.qcnt q.hi_prio,
        some x,
      )
      → Enqueued q pkt prio r

lt→leb_false : (a b : ℕ) → a < b → leb b a ≡ false
lt→leb_false a b h = ground arith

le→leb : (a b : ℕ) → a ≤ b → leb a b ≡ true
le→leb a b h = ground arith

penq_room :
    (q : FrameQueue) (prio pkt : ℕ)
    → length (queue_at q prio) < q.qmax
    → aicwf_frame_queue_penq q prio pkt
      ≡ some (
          with_list q prio
            (queue_at q prio ++ (pkt ∷ []))
            ((q.qcnt + 1) % u16_mod)
            (if ltb q.hi_prio prio then prio % u16_mod else q.hi_prio))
unfolding aicwf_frame_queue_penq
penq_room q prio pkt h = rw (lt→leb_false (length (queue_at q prio)) q.qmax h) refl

enq_append :
    (q : FrameQueue) (pkt prio : ℕ)
    → length (queue_at q prio) < q.qmax
    → q.qcnt < q.qmax
    → prio < u16_mod
    → q.qmax < u16_mod
    → aicwf_frame_enq q pkt prio ≡ (
      true,
      with_list q prio
          (queue_at q prio ++ (pkt ∷ []))
          (q.qcnt + 1)
          (if ltb q.hi_prio prio then prio else q.hi_prio),
      none,
    )
unfolding aicwf_frame_enq
enq_append q pkt prio a b c d =
    let m1 : (q.qcnt + 1) % u16_mod ≡ q.qcnt + 1 = omega arith in
    let m2 : prio % u16_mod ≡ prio = omega arith in
    rw (lt→ltb _ _ a, lt→ltb _ _ b, penq_room q prio pkt a, m1, m2) refl

pub list_le_total :
    (q : FrameQueue) (p : ℕ) → p < q.num_prio → IsValid q → length (queue_at q p) ≤ q.qcnt
list_le_total q p h w =
    omega (arith, total-set q.queuelist p [] (omega (arith, w.lists)), w.counted)

abbrev shrunk : FrameQueue → ℕ → FrameQueue
shrunk q v = record q {
  queuelist = set q.queuelist v (but_last (queue_at q v));
  qcnt = (q.qcnt + (u16_mod - 1)) % u16_mod;
}

dequeue_tail :
    (q : FrameQueue) (v x : ℕ)
    → last? (queue_at q v) ≡ some x
    → aicwf_skb_dequeue_tail q v ≡ (some x, shrunk q v)
unfolding aicwf_skb_dequeue_tail
dequeue_tail q v x e = rw (e, aicwf_skb_dequeue_tail) refl

shrunk-list :
    (q : FrameQueue) (v : ℕ)
    → v < q.num_prio
    → IsValid q
    → queue_at (shrunk q v) v ≡ but_last (queue_at q v)
shrunk-list q v h w =
    get_or-set_self q.queuelist v (but_last (queue_at q v)) [] (omega (arith, w.lists))

evict_lem :
    (q : FrameQueue) (v x pkt : ℕ)
    → v ≤ q.hi_prio
    → last? (queue_at q v) ≡ some x
    → suc (length (but_last (queue_at q v))) ≡ length (queue_at q v)
    → IsValid q
    → evict q v pkt
      ≡ (true, with_list q v (but_last (queue_at q v) ++ (pkt ∷ [])) q.qcnt q.hi_prio, some x)
unfolding evict
evict_lem q v x pkt h e n w =
    let lv : v < q.num_prio = omega (arith, h, w.below) in
    let short = list_le_total q v lv w in
    let same = shrunk-list q v lv w in
    let room : length (queue_at (shrunk q v) v) < q.qmax =
      omega (arith, n, short, w.bounded, ap length same) in
    let hi : ltb q.hi_prio v ≡ false = le→ltb_false _ _ h in
    let back : ((q.qcnt + (u16_mod - 1)) % u16_mod + 1) % u16_mod ≡ q.qcnt =
      omega (arith, n, short, w.bounded, w.narrow) in
    rw
      (
        dequeue_tail q v x e,
        penq_room (shrunk q v) v pkt room,
        same,
        hi,
        back,
        set-set q.queuelist v (but_last (queue_at q v)) (but_last (queue_at q v) ++ (pkt ∷ [])),
        evict,
      )
      (ap (λ r. (true, with_list q v (but_last (queue_at q v) ++ (pkt ∷ [])) q.qcnt q.hi_prio, r.0))
        (dequeue_tail q v x e))

peek_lem :
    (q : FrameQueue)
    → q.qcnt ≢ 0
    → aicwf_frame_queue_peek_tail q ≡ (last? (queue_at q (lowest q)), some (lowest q))
unfolding aicwf_frame_queue_peek_tail
peek_lem q c = elim (Bool-cases (q.qcnt == 0)) [
  | inl e ↦ absurd (c ((==_iff q.qcnt 0).0 e))
  | inr e ↦ rw e refl
]

cons_last :
    (xs : List ℕ)
    → xs ≢ []
    → (x : ℕ) × (last? xs ≡ some x) × (suc (length (but_last xs)) ≡ length xs)
cons_last [] ne = absurd (ne refl)
cons_last (x ∷ xs) ne = let (y, e) = snoc x xs in (y, e, ap suc (length-but_last x xs))

-- Every call of aicwf_frame_enq appends, refuses, or replaces a frame of a lower priority; the new
-- frame then stands in the list of the evicted one, not in that of its own priority.
pub enq_full :
    (q : FrameQueue) (pkt prio : ℕ)
    → length (queue_at q prio) < q.qmax
    → q.qcnt ≡ q.qmax
    → IsValid q
    → Enqueued q pkt prio (aicwf_frame_enq q pkt prio)
unfolding aicwf_frame_enq
enq_full q pkt prio a b w =
    let c : q.qcnt ≢ 0 = λ z. absurd (omega (arith, a, b, z)) in
    let (x, e, n) = cons_last (queue_at q (lowest q)) (lowest-nonempty q w c) in
    let full : ltb q.qcnt q.qmax ≡ false = le→ltb_false _ _ (omega (arith, b)) in
    let low : lowest q ≤ q.hi_prio = omega (arith, lowest_from-le q 0 q.hi_prio) in
    rw (lt→ltb _ _ a, full, lt→leb_false _ _ a, ap (λ r. r.1) (peek_lem q c))
      (elim (lt_or_le (lowest q) prio) [
        | inl l ↦
            rw (lt→leb_false _ _ l, evict_lem q (lowest q) x pkt low e n w)
              (replaced x a b l e refl)
        | inr l ↦ rw (le→leb _ _ l) (refused (inr (b, l)) refl)
      ])

last-length : (xs : List ℕ) (x : ℕ) → last? xs ≡ some x → suc (length (but_last xs)) ≡ length xs
last-length [] x e = absurd cc
last-length (y ∷ ys) x e = ap suc (length-but_last y ys)

enq_no_room :
    (q : FrameQueue) (pkt prio : ℕ)
    → q.qmax ≤ length (queue_at q prio)
    → aicwf_frame_enq q pkt prio ≡ (false, q, none)
unfolding aicwf_frame_enq
enq_no_room q pkt prio a = rw (le→ltb_false _ _ a, le→leb _ _ a) refl

longer : (xs : List ℕ) (y : ℕ) → length (xs ++ (y ∷ [])) ≡ length xs + 1
longer xs y = length-append xs (y ∷ [])

Enqueued-IsValid :
    (q : FrameQueue) (pkt prio : ℕ) (r : Bool × FrameQueue × Option ℕ)
    → prio < q.num_prio
    → IsValid q
    → Enqueued q pkt prio r
    → IsValid r.1
Enqueued-IsValid q pkt prio r l w (appended a b e) =
    let n = longer (queue_at q prio) pkt in
    let put = λ (h : ℕ) (u : q.hi_prio ≤ h) (v : prio ≤ h) (z : h < q.num_prio).
      with_list-IsValid q prio (queue_at q prio ++ (pkt ∷ [])) (q.qcnt + 1) h l u v z
        (omega (arith, n)) (omega (arith, b)) w in
    rw e (elim (lt_or_le q.hi_prio prio) [
      | inl h ↦ rw (lt→ltb q.hi_prio prio h) (put prio (omega (arith, h)) (omega arith) l)
      | inr h ↦ rw (le→ltb_false q.hi_prio prio h) (put q.hi_prio (omega arith) h w.below)
    ])
Enqueued-IsValid q pkt prio r l w (refused a e) = rw e w
Enqueued-IsValid q pkt prio r l w (replaced x a b h d e) =
    let p = lowest q in
    let n = longer (but_last (queue_at q p)) pkt in
    let low = lowest_from-le q 0 q.hi_prio in
    let m = last-length (queue_at q p) x d in
    rw e (
      with_list-IsValid q p (but_last (queue_at q p) ++ (pkt ∷ [])) q.qcnt q.hi_prio
        (omega (arith, h)) (omega arith) (omega (arith, low)) w.below (omega (arith, n, m))
        w.bounded w)

enqueued :
    (q : FrameQueue) (pkt prio : ℕ)
    → prio < q.num_prio
    → IsValid q
    → Enqueued q pkt prio (aicwf_frame_enq q pkt prio)
enqueued q pkt prio l w = elim (lt_or_le (length (queue_at q prio)) q.qmax) [
  | inl a ↦ elim (lt_or_le q.qcnt q.qmax) [
    | inl b ↦ appended a b (enq_append q pkt prio a b (omega (arith, w.priorities)) w.narrow)
    | inr b ↦ enq_full q pkt prio a (omega (arith, b, w.bounded)) w
  ]
  | inr a ↦ refused (inl a) (enq_no_room q pkt prio a)
]

-- Every call of aicwf_frame_enq on a valid queue, with a priority of the queue, does one of three
-- things, and leaves a valid queue. It appends the frame to the list of its priority, where that list
-- and the queue have room. It refuses it and changes nothing, where the list is full, or where the
-- queue is and holds no frame of a lower priority. Or, in a full queue, it frees the last frame of the
-- lowest list in use, and the new frame takes its place there, not in the list of its own priority.
pub aicwf_frame_enq-Enqueued :
    (q : FrameQueue) (pkt prio : ℕ)
    → prio < q.num_prio
    → IsValid q
    → Enqueued q pkt prio (aicwf_frame_enq q pkt prio) × IsValid (aicwf_frame_enq q pkt prio).1
aicwf_frame_enq-Enqueued q pkt prio l w =
    let r = enqueued q pkt prio l w in
    (r, Enqueued-IsValid q pkt prio (aicwf_frame_enq q pkt prio) l w r)
