-- ===== src/FrameQueue.antt =====
-- The frame queues with priorities of aicwf_txrxif.c (struct frame_queue of aicwf_txrxif.h): eight
-- lists of frames, the number of frames in all of them, and an upper bound of the priorities in use.
-- A frame is its address. The lists are those of the kernel (skb_queue_head), in their order.
pub mod Total
pub mod Valid
pub mod Lowest
pub mod Enqueue
pub mod Empty
mod Tests
use aic8800_linux_driver.Common.{
  ℕ, zero, suc, ◌+◌, ◌-◌, ◌*◌, ◌%◌, Bool, true, false, ◌&&◌, not, Option, none, some, List, [], ◌∷◌,
  ◌++◌, length, get_or, set, replicate, ltb, leb, ◌==◌, if◌then◌else◌, u16_mod,
}

pub record FrameQueue : Type 0 where
  num_prio : ℕ
  hi_prio : ℕ
  qmax : ℕ
  qcnt : ℕ
  queuelist : List (List ℕ)

abbrev pub queue_at : FrameQueue → ℕ → List ℕ
queue_at q p = get_or q.queuelist p []

abbrev pub is_nil : List ℕ → Bool
is_nil [] = true
is_nil (x ∷ xs) = false

pub aicwf_frame_queue_init : ℕ → ℕ → FrameQueue
aicwf_frame_queue_init n max_len = record {
  num_prio = n % u16_mod;
  hi_prio = 0;
  qmax = max_len % u16_mod;
  qcnt = 0;
  queuelist = replicate n [];
}

-- The frame at the end of a list of the given priority, counted; `none` when that list is full.
pub aicwf_frame_queue_penq : FrameQueue → ℕ → ℕ → Option FrameQueue
aicwf_frame_queue_penq q prio p =
    if leb q.qmax (length (queue_at q prio))
    then none
    else some (record q {
      queuelist = set q.queuelist prio (queue_at q prio ++ (p ∷ []));
      qcnt = (q.qcnt + 1) % u16_mod;
      hi_prio = if ltb q.hi_prio prio then prio % u16_mod else q.hi_prio;
    })

-- The frames of the first `n` lists, unlinked and freed one by one.
pub flush_lists : ℕ → List (List ℕ) → ℕ → List ℕ × List (List ℕ) × ℕ
flush_lists zero qs c = ([], qs, c)
flush_lists (suc n) [] c = ([], [], c)
flush_lists (suc n) (q ∷ qs) c =
    let (freed, rest, c') = flush_lists n qs ((c + length q * (u16_mod - 1)) % u16_mod) in
    (q ++ freed, [] ∷ rest, c')

pub aicwf_frame_queue_flush : FrameQueue → List ℕ × FrameQueue
unfolding flush_lists
aicwf_frame_queue_flush q =
    let (freed, qs, c) = flush_lists q.num_prio q.queuelist q.qcnt in
    (freed, record q { queuelist = qs; qcnt = c })

-- The loop of aicwf_frame_queue_peek_tail, from the priority `p`, with `n` steps to hi_prio.
pub lowest_from : FrameQueue → ℕ → ℕ → ℕ
lowest_from q p zero = p
lowest_from q p (suc n) =
    let rest = lowest_from q (p + 1) n in if not (is_nil (queue_at q p)) then p else rest

abbrev pub last? : List ℕ → Option ℕ
last? [] = none
last? (x ∷ []) = some x
last? (x ∷ (y ∷ ys)) = last? (y ∷ ys)

abbrev pub but_last : List ℕ → List ℕ
but_last [] = []
but_last (x ∷ []) = []
but_last (x ∷ (y ∷ ys)) = x ∷ but_last (y ∷ ys)

-- The frame, and the priority written to *prio_out: `none` where nothing is written.
pub aicwf_frame_queue_peek_tail : FrameQueue → Option ℕ × Option ℕ
unfolding lowest_from
aicwf_frame_queue_peek_tail q =
    let p = lowest_from q 0 q.hi_prio in
    if q.qcnt == 0 then (none, none) else (last? (queue_at q p), some p)

-- The frames of the priorities from `n` down to 0.
pub sum_to : List (List ℕ) → ℕ → ℕ
sum_to qs zero = length (get_or qs 0 [])
sum_to qs (suc n) = sum_to qs n + length (get_or qs (suc n) [])

pub aicwf_is_framequeue_empty : FrameQueue → Bool
unfolding sum_to
aicwf_is_framequeue_empty q = not (ltb 0 (sum_to q.queuelist q.hi_prio))

-- The loop of aicwf_frame_dequeue: hi_prio is lowered past empty lists.
pub lower : List (List ℕ) → ℕ → ℕ
lower qs zero = zero
lower qs (suc p) = let rest = lower qs p in if is_nil (get_or qs (suc p) []) then rest else suc p

pub take_head : FrameQueue → ℕ → List ℕ → Option ℕ × FrameQueue
take_head q p [] = (none, record q { hi_prio = p })
take_head q p (x ∷ xs) = (
  some x,
  record q {
    hi_prio = p;
    queuelist = set q.queuelist p xs;
    qcnt = (q.qcnt + (u16_mod - 1)) % u16_mod;
  },
)

pub aicwf_frame_dequeue : FrameQueue → Option ℕ × FrameQueue
unfolding lower take_head
aicwf_frame_dequeue q =
    let p = lower q.queuelist q.hi_prio in
    if q.qcnt == 0 then (none, q) else take_head q p (queue_at q p)

pub aicwf_skb_dequeue_tail : FrameQueue → ℕ → Option ℕ × FrameQueue
aicwf_skb_dequeue_tail q prio = elim (last? (queue_at q prio)) [
  | none ↦ (none, q)
  | some p ↦ (
    some p,
    record q {
      queuelist = set q.queuelist prio (but_last (queue_at q prio));
      qcnt = (q.qcnt + (u16_mod - 1)) % u16_mod;
    },
  )
]

-- A frame of `evicted` gives way to the new one, which is queued with the priority of the evicted.
pub evict : FrameQueue → ℕ → ℕ → Bool × FrameQueue × Option ℕ
unfolding aicwf_skb_dequeue_tail aicwf_frame_queue_penq
evict q evicted pkt =
    let (p, q1) = aicwf_skb_dequeue_tail q evicted in
    elim (aicwf_frame_queue_penq q1 evicted pkt) [ none ↦ (false, q1, p) | some q2 ↦ (true, q2, p) ]

abbrev pub or_else {ℓ} : {A : Type ℓ} → A → Option A → A
or_else a none = a
or_else a (some b) = b

-- True when the frame is queued; with the queue, and the frame freed to make place. A full list
-- gives the frame's own priority for the evicted, which refuses; so does a total below the maximum.
pub aicwf_frame_enq : FrameQueue → ℕ → ℕ → Bool × FrameQueue × Option ℕ
unfolding aicwf_frame_queue_peek_tail evict aicwf_frame_queue_penq
aicwf_frame_enq q pkt prio =
    let victim = or_else prio (aicwf_frame_queue_peek_tail q).1 in
    let room = ltb (length (queue_at q prio)) q.qmax in
    let plain = or_else q (aicwf_frame_queue_penq q prio pkt) in
    let replaced = evict q victim pkt in
    if room && ltb q.qcnt q.qmax
    then (true, plain, none)
    else if leb q.qmax (length (queue_at q prio))
    then (false, q, none)
    else if leb prio victim
    then (false, q, none)
    else replaced

pub aicwf_rxframe_enqueue : FrameQueue → ℕ → Bool × FrameQueue × Option ℕ
unfolding aicwf_frame_enq
aicwf_rxframe_enqueue q pkt = aicwf_frame_enq q pkt 0
