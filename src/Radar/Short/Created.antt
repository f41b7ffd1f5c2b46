-- ===== src/Radar/Short/Created.antt =====
-- The sequences that a pulse starts, against a description of what they count.
use aic8800_linux_driver.Common.{
  ℕ, suc, ◌+◌, ◌-◌, ◌%◌, ◌<◌, ◌≤◌, ◌≡◌, refl, sym, ap, ◌∙◌, inl, inr, Bool, true, false, ◌&&◌, ◌||◌,
  not, List, [], ◌∷◌, ◌++◌, length, All, All-append, arith, ltb, leb, ltb_false→le, leb→le,
  leb_false→lt, lt→ltb, le→ltb_false, Bool-cases, append_assoc, if◌then◌else◌, u16_mod, u32_mod,
  subst,
}
use aic8800_linux_driver.Radar.{
  RadarDetectorSpecs, PriSequence, PriDetector, Pools, pool_get_pseq_elem, sub_u32,
}
use aic8800_linux_driver.Radar.Pulses.Recent.{recent}
use aic8800_linux_driver.Radar.Short.{
  is_hit, matched, match_pulses, start_sequence, build_sequence, create_from,
  pde_short_create_sequences, sequence_dur,
}

abbrev pub hits : ℕ → ℕ → ℕ → List ℕ → ℕ
hits tolerance ts pri [] = 0
hits tolerance ts pri (p ∷ older) =
    let rest = hits tolerance ts pri older in if is_hit tolerance ts pri p then suc rest else rest

-- The sequence `t` has the interval of `s`, and `n` pulses more.
record Grown (s t : PriSequence) (n : ℕ) : Type 0 where
  count : t.count ≡ s.count + n
  pri : t.pri ≡ s.pri
  dur : t.dur ≡ s.dur
  last_ts : t.last_ts ≡ s.last_ts

matched-Grown :
    (b : Bool) (s : PriSequence) (tmp p : ℕ)
    → s.count + 1 < u32_mod
    → Grown s (matched b s tmp p).0 (if b then 1 else 0)
matched-Grown true s tmp p l = record {
  count = omega (arith, l);
  pri = refl;
  dur = refl;
  last_ts = refl;
}
matched-Grown false s tmp p l = record {
  count = omega arith;
  pri = refl;
  dur = refl;
  last_ts = refl;
}

one_hit : (b : Bool) (n : ℕ) → (if b then suc n else n) ≡ (if b then 1 else 0) + n
one_hit true n = omega arith
one_hit false n = omega arith

at_most_one : (b : Bool) → (if b then 1 else 0) ≤ 1
at_most_one true = omega arith
at_most_one false = omega arith

both_Grown : (s t u : PriSequence) (a b : ℕ) → Grown s t a → Grown t u b → Grown s u (a + b)
both_Grown s t u a b g h = record {
  count = omega (arith, g.count, h.count);
  pri = h.pri ∙ g.pri;
  dur = h.dur ∙ g.dur;
  last_ts = h.last_ts ∙ g.last_ts;
}

-- The loop stops at the first pulse that is too old.
stopped_Grown :
    (p min : ℕ) (s t : PriSequence) (n : ℕ) (f : List ℕ → ℕ) (older : List ℕ)
    → f [] ≡ 0
    → f (p ∷ recent min older) ≡ n
    → Grown s t n
    → Grown s (if ltb p min then s else t) (f (recent min (p ∷ older)))
stopped_Grown p min s t n f older z e g = elim (Bool-cases (leb min p)) [
  | inl a ↦ rw (a, le→ltb_false p min (leb→le min p a), e) g
  | inr a ↦
      rw (a, lt→ltb p min (leb_false→lt min p a), z)
        (record { count = omega arith; pri = refl; dur = refl; last_ts = refl })
]

-- The loop counts the pulses that are multiples of the interval, up to the first that is too old.
match_pulses-Grown :
    (tolerance min tmp : ℕ) (s : PriSequence) (older : List ℕ)
    → s.count + length older < u32_mod
    → Grown s
        (match_pulses tolerance min s tmp older)
        (hits tolerance s.last_ts s.pri (recent min older))
unfolding match_pulses
match_pulses-Grown tolerance min tmp s [] l = record {
  count = omega arith;
  pri = refl;
  dur = refl;
  last_ts = refl;
}
match_pulses-Grown tolerance min tmp s (p ∷ older) l =
    let b = is_hit tolerance s.last_ts s.pri p in
    let (t, n) = matched b s tmp p in
    let g = matched-Grown b s tmp p (omega (arith, l)) in
    let rest =
      match_pulses-Grown tolerance min n t older (omega (arith, l, g.count, at_most_one b)) in
    let count = hits tolerance s.last_ts s.pri (recent min older) in
    let same : hits tolerance t.last_ts t.pri (recent min older) ≡ count =
      ap (λ x. hits tolerance x t.pri (recent min older)) g.last_ts
      ∙ ap (λ x. hits tolerance s.last_ts x (recent min older)) g.pri in
    stopped_Grown p min s (match_pulses tolerance min t n older) ((if b then 1 else 0) + count)
      (hits tolerance s.last_ts s.pri) older refl (one_hit b count)
      (both_Grown s t (match_pulses tolerance min t n older) (if b then 1 else 0) count g
        (subst (Grown t (match_pulses tolerance min t n older)) same rest))

-- A sequence that a pulse at `ts` starts on a queue: of a pulse `p` of it, at an allowed interval, and the
-- older pulses that are multiples of that interval before `ts`, as far back as the sequence may last.
pub record Created (rs : RadarDetectorSpecs) (ts min_count : ℕ) (queue : List ℕ) (ps : PriSequence)
    : Type 0 where
  pub newer : List ℕ
  pub p : ℕ
  pub older : List ℕ
  pub place : queue ≡ newer ++ (p ∷ older)
  pub interval : ps.pri ≡ sub_u32 ts p
  pub above : rs.pri_min ≤ ps.pri
  pub below : ps.pri ≤ rs.pri_max
  pub last : ps.last_ts ≡ ts
  pub lasting : ps.dur ≡ sequence_dur rs ps.pri
  pub counted : ps.count ≡ 2 + hits rs.max_pri_tolerance ts ps.pri (recent (ts - ps.dur) older)
  pub longer : min_count < ps.count

min_valid_lem : (ts dur : ℕ) → (if ltb ts dur then 0 else ts - dur) ≡ ts - dur
min_valid_lem ts dur = ground arith

-- What the loop over the older pulses makes of the sequence of two pulses.
build_sequence-Grown :
    (rs : RadarDetectorSpecs) (ts p idx : ℕ) (older : List ℕ)
    → length older + 2 < u32_mod
    → Grown (start_sequence rs ts p idx) (build_sequence rs ts p idx older) (
        hits rs.max_pri_tolerance ts
          (sub_u32 ts p)
          (recent (ts - sequence_dur rs (sub_u32 ts p)) older))
unfolding build_sequence start_sequence
build_sequence-Grown rs ts p idx older l =
    let s = start_sequence rs ts p idx in
    let min = if ltb ts s.dur then 0 else ts - s.dur in
    let g = match_pulses-Grown rs.max_pri_tolerance min 0 s older (omega (arith, l)) in
    record {
      count =
          g.count
          ∙ ap (λ n. 2 + hits rs.max_pri_tolerance ts (sub_u32 ts p) (recent n older))
              (min_valid_lem ts s.dur);
      pri = g.pri;
      dur = g.dur;
      last_ts = g.last_ts;
    }

build-Created :
    (rs : RadarDetectorSpecs) (ts n p idx : ℕ) (newer older queue : List ℕ)
    → queue ≡ newer ++ (p ∷ older)
    → length older + 2 < u32_mod
    → rs.pri_min ≤ sub_u32 ts p
    → sub_u32 ts p ≤ rs.pri_max
    → n < (build_sequence rs ts p idx older).count
    → Created rs ts n queue (build_sequence rs ts p idx older)
unfolding start_sequence
build-Created rs ts n p idx newer older queue e l a b c =
    let ps = build_sequence rs ts p idx older in
    let g = build_sequence-Grown rs ts p idx older l in
    record {
      newer = newer;
      p = p;
      older = older;
      place = e;
      interval = g.pri;
      above = omega (arith, a, g.pri);
      below = omega (arith, b, g.pri);
      last = g.last_ts;
      lasting = g.dur ∙ ap (sequence_dur rs) (sym g.pri);
      counted =
          g.count
          ∙ ap
              (λ x.
                2
                + hits rs.max_pri_tolerance ts x
                    (recent (ts - sequence_dur rs (sub_u32 ts p)) older))
              (sym g.pri)
          ∙ ap (λ x. 2 + hits rs.max_pri_tolerance ts ps.pri (recent (ts - x) older)) (sym g.dur);
      longer = c;
    }

-- New sequences in front of the others.
pub record Added (P : PriSequence → Type 0) (seqs result : List PriSequence) : Type 0 where
  pub news : List PriSequence
  pub front : result ≡ news ++ seqs
  pub each : All P news

nothing_Added : (P : PriSequence → Type 0) (seqs : List PriSequence) → Added P seqs seqs
nothing_Added P seqs = record { news = []; front = refl; each = tt }

one_Added :
    (P : PriSequence → Type 0) (s : PriSequence) (seqs result : List PriSequence)
    → P s
    → Added P (s ∷ seqs) result
    → Added P seqs result
one_Added P s seqs result p a = record {
  news = a.news ++ (s ∷ []);
  front = a.front ∙ sym (append_assoc a.news (s ∷ []) seqs);
  each = All-append P a.news (s ∷ []) a.each (p, tt);
}

-- The five ways that a round of the loop may end.
round-Added :
    (P : PriSequence → Type 0) (small big short ok : Bool) (ps : PriSequence)
    (seqs : List PriSequence) (m k : Pools) (rest : Bool × List PriSequence × Pools)
    → (small ≡ false → big ≡ false → short ≡ false → P ps)
    → Added P (if small || short then seqs else ps ∷ seqs) rest.1
    → Added P seqs
        (if not small && big
          then (true, seqs, m)
          else if not (small || short) && not ok
          then (false, seqs, k)
          else rest).1
round-Added P true big short ok ps seqs m k rest p a = a
round-Added P false true short ok ps seqs m k rest p a = nothing_Added P seqs
round-Added P false false true ok ps seqs m k rest p a = a
round-Added P false false false true ps seqs m k rest p a =
    one_Added P ps seqs rest.1 (p refl refl refl) a
round-Added P false false false false ps seqs m k rest p a = nothing_Added P seqs

create_from-Added :
    (rs : RadarDetectorSpecs) (ts n idx : ℕ) (newer pulses queue : List ℕ) (seqs : List PriSequence)
    (m : Pools)
    → queue ≡ newer ++ pulses
    → length pulses + 2 < u32_mod
    → Added (Created rs ts n queue) seqs (create_from rs ts n idx pulses seqs m).1
unfolding create_from
create_from-Added rs ts n idx newer [] queue seqs m e l = nothing_Added (Created rs ts n queue) seqs
create_from-Added rs ts n idx newer (p ∷ older) queue seqs m e l =
    let delta = sub_u32 ts p in
    let ps = build_sequence rs ts p idx older in
    let skip = ltb delta rs.pri_min || leb ps.count n in
    let (ok, k) = pool_get_pseq_elem m in
    let s = if skip then seqs else ps ∷ seqs in
    let j = (idx + 1) % u16_mod in
    let m1 = if skip then m else k in
    round-Added (Created rs ts n queue) (ltb delta rs.pri_min) (ltb rs.pri_max delta)
      (leb ps.count n) ok ps seqs m k (create_from rs ts n j older s m1)
      (λ a b c.
        build-Created rs ts n p idx newer older queue e (omega (arith, l))
          (ltb_false→le delta rs.pri_min a) (ltb_false→le rs.pri_max delta b)
          (leb_false→lt ps.count n c))
      (create_from-Added rs ts n j (newer ++ (p ∷ [])) older queue s m1
        (e ∙ sym (append_assoc newer (p ∷ []) older)) (omega (arith, l)))

-- pde_short_create_sequences puts in front of the sequences new ones only, and each of these has an
-- interval that the type of radar allows between the pulse and one of the queue, counts these two and
-- every older pulse of the queue that is a multiple of the interval before it, back to the duration of
-- the sequence, and is longer than min_count. The queue is shorter than 2^32 - 2.
pub pde_short_create_sequences-Added :
    (d : PriDetector) (ts n : ℕ) (m : Pools)
    → length d.pulses + 2 < u32_mod
    → Added
        (Created d.rs ts n d.pulses)
        d.sequences
        (pde_short_create_sequences d ts n m).1.sequences
unfolding pde_short_create_sequences
pde_short_create_sequences-Added d ts n m l =
    create_from-Added d.rs ts n 0 [] d.pulses d.pulses d.sequences m refl l
