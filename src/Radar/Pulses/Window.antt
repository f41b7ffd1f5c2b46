-- ===== src/Radar/Pulses/Window.antt =====
-- What pulse_queue_enqueue keeps: the pulses within the window before the newest, fewer than max_count.
use aic8800_linux_driver.Common.{
  ℕ, zero, suc, ◌+◌, ◌-◌, ◌<◌, ◌≤◌, ◌≡◌, refl, sym, ap, ◌∙◌, inl, inr, Bool, true, false, Option,
  none, some, List, [], ◌∷◌, length, All, arith, ltb, leb, leb→le, leb_false→lt, ltb→lt, Bool-cases,
  if◌then◌else◌, u32_mod, none≢some, false≢true, subst,
}
use aic8800_linux_driver.Radar.{PriDetector, Pools, pool_get_pulse_elem}
use aic8800_linux_driver.Radar.Pulses.{
  get_last?, drop_last, unless_recent, dequeue_some, pulse_queue_dequeue, check_from,
  pulse_queue_check_window, add_pulse_elem, bounded, pulse_queue_enqueue,
}
use aic8800_linux_driver.Radar.Pulses.Memory.{
  HasMemory, SamePools, memory_given, memory_refused, refused-SamePools,
}
use aic8800_linux_driver.Radar.Pulses.Recent.{
  Falling, recent, shorten, length-drop_last, Falling-drop_last, recent_all, recent-drop_last,
  has_last, front, recent_zero, length-recent, Falling-recent, All-recent, keeps_newest,
  All-shorten, Falling-shorten, length-shorten, recent_newest,
}

pub record Queue (d : PriDetector) : Type 0 where
  pub counted : d.count ≡ length d.pulses
  pub room : length d.pulses < d.max_count
  pub small : d.max_count + 1 < u32_mod
  pub order : Falling d.last_ts d.pulses
  pub inside : All (λ p. d.last_ts ≤ p + d.window_size) d.pulses

-- The detector with other pulses, which are counted.
pub record Holds (d e : PriDetector) (ps : List ℕ) : Type 0 where
  pub pulses : e.pulses ≡ ps
  pub count : e.count ≡ length ps
  pub last_ts : e.last_ts ≡ d.last_ts
  pub max_count : e.max_count ≡ d.max_count
  pub window_size : e.window_size ≡ d.window_size
  pub rs : e.rs ≡ d.rs
  pub sequences : e.sequences ≡ d.sequences
  pub freq : e.freq ≡ d.freq

same : (d : PriDetector) → d.count ≡ length d.pulses → Holds d d d.pulses
same d c = record {
  pulses = refl;
  count = c;
  last_ts = refl;
  max_count = refl;
  window_size = refl;
  rs = refl;
  sequences = refl;
  freq = refl;
}

after : {d e f : PriDetector} {ps qs : List ℕ} → Holds d e ps → Holds e f qs → Holds d f qs
after a b = record {
  pulses = b.pulses;
  count = b.count;
  last_ts = b.last_ts ∙ a.last_ts;
  max_count = b.max_count ∙ a.max_count;
  window_size = b.window_size ∙ a.window_size;
  rs = b.rs ∙ a.rs;
  sequences = b.sequences ∙ a.sequences;
  freq = b.freq ∙ a.freq;
}

some-Holds :
    (d : PriDetector) (m : Pools) (o : Option ℕ) (p x : ℕ) (xs : List ℕ)
    → o ≡ some p
    → d.pulses ≡ x ∷ xs
    → d.count ≡ length d.pulses
    → d.count < u32_mod
    → Holds d (dequeue_some d m o).0 (drop_last d.pulses)
some-Holds d m none p x xs o e c l = absurd (none≢some o)
some-Holds d m (some q) p x xs o e c l = record {
  pulses = refl;
  count =
      omega (arith, c, l, ap length e, ap (λ ps. length (drop_last ps)) e, length-drop_last x xs);
  last_ts = refl;
  max_count = refl;
  window_size = refl;
  rs = refl;
  sequences = refl;
  freq = refl;
}

pub dequeue-Holds :
    (d : PriDetector) (m : Pools) (x : ℕ) (xs : List ℕ)
    → d.pulses ≡ x ∷ xs
    → d.count ≡ length d.pulses
    → d.count < u32_mod
    → Holds d (pulse_queue_dequeue d m).0 (drop_last d.pulses)
unfolding pulse_queue_dequeue
dequeue-Holds d m x xs e c l =
    let (p, q) = has_last x xs in
    some-Holds d m (get_last? d.pulses) p x xs (ap get_last? e ∙ q) e c l

pulses_to : {d e : PriDetector} {ps qs : List ℕ} → Holds d e ps → ps ≡ qs → Holds d e qs
pulses_to h e = record {
  pulses = h.pulses ∙ e;
  count = h.count ∙ ap length e;
  last_ts = h.last_ts;
  max_count = h.max_count;
  window_size = h.window_size;
  rs = h.rs;
  sequences = h.sequences;
  freq = h.freq;
}

round-Holds :
    (d : PriDetector) (m : Pools) (min b p : ℕ) (o : Option ℕ) (g : PriDetector)
    (r : PriDetector × Pools)
    → o ≡ some p
    → get_last? d.pulses ≡ some p
    → Falling b d.pulses
    → d.count ≡ length d.pulses
    → Holds d g (drop_last d.pulses)
    → Holds g r.0 (recent min g.pulses)
    → Holds d (unless_recent min (d, m) r o).0 (recent min d.pulses)
round-Holds d m min b p none g r a last f c h rest = absurd (none≢some a)
round-Holds d m min b p (some q) g r a last f c h rest = elim (Bool-cases (leb min q)) [
  | inl t ↦
      rw t
        (pulses_to (same d c) (sym (recent_all min b d.pulses q f (last ∙ sym a) (leb→le min q t))))
  | inr t ↦ rw t (
      pulses_to (after h rest) (
        ap (recent min) h.pulses
        ∙ recent-drop_last min d.pulses q (last ∙ sym a) (leb_false→lt min q t)))
]

check_from-Holds :
    (n min b : ℕ) (d : PriDetector) (m : Pools)
    → length d.pulses ≡ n
    → Falling b d.pulses
    → d.count ≡ length d.pulses
    → d.count < u32_mod
    → Holds d (check_from n min d m).0 (recent min d.pulses)
unfolding check_from
check_from-Holds zero min b d m e f c l = pulses_to (same d c) (empty d.pulses e)
  where
    empty : (xs : List ℕ) → length xs ≡ 0 → xs ≡ recent min xs
    empty [] z = refl
    empty (x ∷ xs) z = absurd (omega (arith, z))
check_from-Holds (suc n) min b d m e f c l =
    let (x, xs, q) = front n d.pulses e in
    let (p, z) = has_last x xs in
    let last : get_last? d.pulses ≡ some p = ap get_last? q ∙ z in
    let (g, k) = pulse_queue_dequeue d m in
    let h = dequeue-Holds d m x xs q c l in
    let shorter = length-drop_last x xs in
    let cut = ap (λ ps. length (drop_last ps)) q in
    let rest =
      check_from-Holds n min b g k (omega (arith, ap length h.pulses, cut, shorter, ap length q, e))
        (subst (Falling b) (sym h.pulses) (Falling-drop_last b d.pulses f))
        (h.count ∙ sym (ap length h.pulses))
        (omega (arith, h.count, cut, shorter, ap length q, c, l)) in
    round-Holds d m min b p (get_last? d.pulses) g (check_from n min g k) last last f c h rest

check_window-Holds :
    (d : PriDetector) (m : Pools) (older : List ℕ)
    → d.pulses ≡ d.last_ts ∷ older
    → Falling d.last_ts d.pulses
    → d.count ≡ length d.pulses
    → d.count < u32_mod
    → Holds d (pulse_queue_check_window d m).0 (recent (d.last_ts - d.window_size) d.pulses)
unfolding pulse_queue_check_window
check_window-Holds d m older e f c l = elim (Bool-cases (ltb d.count 2)) [
  | inl a ↦ rw a (
      pulses_to (same d c) (
        e
        ∙ sym (
            ap (recent (d.last_ts - d.window_size)) e
            ∙ keeps_newest d.last_ts d.window_size older
                (omega (arith, ltb→lt d.count 2 a, c, ap length e)))))
  | inr a ↦ elim (Bool-cases (leb d.last_ts d.window_size)) [
    | inl b ↦
        rw (a, b)
          (pulses_to (same d c) (
            sym (
              ap (λ n. recent n d.pulses)
                (zero_window d.last_ts d.window_size (leb→le d.last_ts d.window_size b))
              ∙ recent_zero d.pulses)))
    | inr b ↦
        rw (a, b)
          (check_from-Holds (length d.pulses) (d.last_ts - d.window_size) d.last_ts d m refl f c l)
  ]
]
  where
    zero_window : (t w : ℕ) → t ≤ w → t - w ≡ 0
    zero_window t w h = omega arith

bounded_by :
    (b c : Bool) (d e : PriDetector) (m : Pools) (x : ℕ) (xs : List ℕ)
    → b ≡ c
    → Holds d e (x ∷ xs)
    → length xs + 1 < u32_mod
    → Holds d
        (if b then pulse_queue_dequeue e m else (e, m)).0
        (if c then drop_last (x ∷ xs) else x ∷ xs)
bounded_by true true d e m x xs z h l =
    pulses_to
      (after h (
        dequeue-Holds e m x xs h.pulses (h.count ∙ sym (ap length h.pulses))
          (omega (arith, h.count, l))))
      (ap drop_last h.pulses)
bounded_by true false d e m x xs z h l = absurd (false≢true (sym z))
bounded_by false true d e m x xs z h l = absurd (false≢true z)
bounded_by false false d e m x xs z h l = h

bounded-Holds :
    (d e : PriDetector) (m : Pools) (x : ℕ) (xs : List ℕ)
    → Holds d e (x ∷ xs)
    → length xs + 1 < u32_mod
    → Holds d (bounded (e, m)).0 (shorten d.max_count (x ∷ xs))
bounded-Holds d e m x xs h l =
    bounded_by (leb e.max_count e.count) (leb d.max_count (length (x ∷ xs))) d e m x xs
      (ap (λ n. leb n e.count) h.max_count ∙ ap (leb d.max_count) h.count) h l

-- What pulse_queue_enqueue returns: without memory nothing changes, and with memory the queue holds the
-- new pulse and, of those before, the ones within the window, without the oldest where there are too many.
pub data Enqueued (d : PriDetector) (ts : ℕ) (m : Pools) : Bool × PriDetector × Pools → Type 0 where
  no_memory : (k : Pools) → (¬ HasMemory m) → SamePools m k → Enqueued d ts m (false, d, k)
  queued :
      (e : PriDetector) (k : Pools)
      → HasMemory m
      → e.last_ts ≡ ts
      → e.pulses ≡ shorten d.max_count (recent (ts - d.window_size) (ts ∷ d.pulses))
      → Queue e
      → e.rs ≡ d.rs
      → e.sequences ≡ d.sequences
      → e.max_count ≡ d.max_count
      → e.window_size ≡ d.window_size
      → e.freq ≡ d.freq
      → Enqueued d ts m (true, e, k)

-- The detector `e` holds the window of `d`.
window-Queue :
    (d e : PriDetector)
    → Holds d e (shorten d.max_count (recent (d.last_ts - d.window_size) d.pulses))
    → Falling d.last_ts d.pulses
    → length d.pulses ≤ d.max_count
    → 0 < d.max_count
    → d.max_count + 1 < u32_mod
    → Queue e
window-Queue d e h f l z s =
    let min = d.last_ts - d.window_size in
    let ps = recent min d.pulses in
    let short = length-shorten d.max_count ps (omega (arith, length-recent min d.pulses, l)) z in
    record {
      counted = h.count ∙ sym (ap length h.pulses);
      room = omega (arith, ap length h.pulses, short, h.max_count);
      small = omega (arith, h.max_count, s);
      order = subst (Falling e.last_ts) (sym h.pulses) (
          subst (λ b. Falling b (shorten d.max_count ps)) (sym h.last_ts)
            (Falling-shorten d.last_ts d.max_count ps (Falling-recent min d.last_ts d.pulses f)));
      inside = subst (All (λ p. e.last_ts ≤ p + e.window_size)) (sym h.pulses) (
          subst (λ b. All (λ p. b ≤ p + e.window_size) (shorten d.max_count ps)) (sym h.last_ts)
            (subst (λ w. All (λ p. d.last_ts ≤ p + w) (shorten d.max_count ps)) (sym h.window_size)
              (All-shorten (λ p. d.last_ts ≤ p + d.window_size) d.max_count ps
                (All-recent min d.window_size d.last_ts d.pulses refl))));
    }

enqueue-Holds :
    (d : PriDetector) (ts : ℕ) (m : Pools)
    → Queue d
    → Falling ts d.pulses
    → Holds
        (add_pulse_elem d ts)
        (bounded (pulse_queue_check_window (add_pulse_elem d ts) m)).0
        (shorten d.max_count (recent (ts - d.window_size) (ts ∷ d.pulses)))
enqueue-Holds d ts m q f =
    let a = add_pulse_elem d ts in
    let (e, k) = pulse_queue_check_window a m in
    let c : a.count ≡ length a.pulses = omega (arith, q.counted, q.room, q.small) in
    let h =
      check_window-Holds a m d.pulses refl (omega arith, f) c (omega (arith, c, q.room, q.small)) in
    let rest = recent (ts - d.window_size) d.pulses in
    let r = recent_newest ts d.window_size d.pulses in
    pulses_to
      (bounded-Holds a e k ts rest (pulses_to h r)
        (omega (arith, length-recent (ts - d.window_size) d.pulses, q.room, q.small)))
      (ap (shorten d.max_count) (sym r))

-- On a valid queue whose pulses are not newer than the new one, where the pool has an element or kmalloc
-- succeeds, pulse_queue_enqueue keeps the pulses of the window and fewer than max_count, in order, with
-- the new one first, and counts them; where there is no memory, and only there, it is refused and changes
-- neither the detector nor the pools.
pub pulse_queue_enqueue-Enqueued :
    (d : PriDetector) (ts : ℕ) (m : Pools)
    → Queue d
    → Falling ts d.pulses
    → Enqueued d ts m (pulse_queue_enqueue d ts m)
unfolding pulse_queue_enqueue
pulse_queue_enqueue-Enqueued d ts m q f =
    let k = (pool_get_pulse_elem m).1 in
    let h = enqueue-Holds d ts k q f in
    let e = bounded (pulse_queue_check_window (add_pulse_elem d ts) k) in
    elim (Bool-cases (pool_get_pulse_elem m).0) [
      | inl ok ↦ rw ok (
          queued e.0 e.1 (memory_given m ok) h.last_ts h.pulses
            (window-Queue (add_pulse_elem d ts) e.0 h (omega arith, f) (omega (arith, q.room))
              (omega (arith, q.room)) q.small)
            h.rs h.sequences h.max_count h.window_size h.freq)
      | inr ok ↦ rw ok (no_memory k (memory_refused m ok) (refused-SamePools m ok))
    ]
