-- ===== src/Reord/Sorted.antt =====
-- Lists of frames sorted by their distance from a base: the walks of reord_rxframe_enqueue,
-- reord_rxframes_process and reord_rxframes_ind over them.
use aic8800_linux_driver.Common.{
  ℕ, suc, ◌+◌, ◌-◌, ◌%◌, ◌≤◌, ◌<◌, ◌≡◌, refl, ap, ◌∙◌, Bool, true, false, Option, none, some, List,
  [], ◌∷◌, ◌++◌, le→ltb_false, ◌==◌, if◌then◌else◌, arith, ◌⊎◌, inl, inr, not, Bool-cases,
}
use aic8800_linux_driver.Reord.{
  RecvMsdu, sn_less, insert_frame, cons?, process_from, take_ready, is_empty,
}
use aic8800_linux_driver.Reord.Window.{
  off, sn_less-off, off-next, off-rebase, off-injective, off-lt_of_not_less, off-lt_of_less,
  off-le_of_not_less,
}

-- The numbers of the frames are ahead of `b` by distances that increase strictly, from `lo` on and
-- below `hi`.
abbrev pub Between : ℕ → ℕ → ℕ → List RecvMsdu → Type 0
Between b lo hi [] = Unit
Between b lo hi (f ∷ fs) =
    (f.seq_num < 4096)
    × (lo ≤ off b f.seq_num)
    × (off b f.seq_num < hi)
    × Between b (suc (off b f.seq_num)) hi fs

pub Between-lo :
    (b lo lo' hi : ℕ) (fs : List RecvMsdu) → lo' ≤ lo → Between b lo hi fs → Between b lo' hi fs
Between-lo b lo lo' hi [] h s = tt
Between-lo b lo lo' hi (f ∷ fs) h s = (s.0, omega arith, s.2, s.3)

pub Between-hi :
    (b lo hi hi' : ℕ) (fs : List RecvMsdu) → hi ≤ hi' → Between b lo hi fs → Between b lo hi' fs
Between-hi b lo hi hi' [] h s = tt
Between-hi b lo hi hi' (f ∷ fs) h s =
    (s.0, s.1, omega arith, Between-hi b (suc (off b f.seq_num)) hi hi' fs h s.3)

-- Seen from a base that all the frames are ahead of.
pub Between-rebase :
    (b c lo hi k : ℕ) (fs : List RecvMsdu)
    → b < 4096
    → c < 4096
    → off b c ≤ lo
    → hi ≤ off b c + k
    → Between b lo hi fs
    → Between c (lo - off b c) k fs
Between-rebase b c lo hi k [] hb hc h l s = tt
Between-rebase b c lo hi k (f ∷ fs) hb hc h l s =
    let e = off-rebase b c f.seq_num hb hc s.0 (omega arith) in
    (
      s.0,
      omega (arith, e),
      omega (arith, e),
      Between-lo c (suc (off b f.seq_num) - off b c) (suc (off c f.seq_num)) k fs (omega (arith, e))
          (Between-rebase b c (suc (off b f.seq_num)) hi k fs hb hc (omega arith) l s.3),
    )

abbrev pub HasSeq : ℕ → List RecvMsdu → Type 0
HasSeq n [] = ⊥
HasSeq n (x ∷ xs) = (x.seq_num ≡ n) ⊎ HasSeq n xs

-- `ys` is `xs` with `f` put in somewhere.
pub record Inserted (f : RecvMsdu) (xs ys : List RecvMsdu) : Type 0 where
  pub before : List RecvMsdu
  pub after : List RecvMsdu
  pub parted : xs ≡ before ++ after
  pub joined : ys ≡ before ++ (f ∷ after)

Inserted-cons :
    (f x : RecvMsdu) (xs ys : List RecvMsdu) → Inserted f xs ys → Inserted f (x ∷ xs) (x ∷ ys)
Inserted-cons f x xs ys i = record {
  before = x ∷ i.before;
  after = i.after;
  parted = ap (λ l. x ∷ l) i.parted;
  joined = ap (λ l. x ∷ l) i.joined;
}

-- What the walk of reord_rxframe_enqueue makes of a sorted list.
abbrev pub Walked : ℕ → ℕ → ℕ → RecvMsdu → List RecvMsdu → Option (List RecvMsdu) → Type 0
Walked b lo hi f xs none = HasSeq f.seq_num xs
Walked b lo hi f xs (some ys) = Between b lo hi ys × Inserted f xs ys

Walked-cons :
    (b lo hi : ℕ) (f x : RecvMsdu) (xs : List RecvMsdu) (r : Option (List RecvMsdu))
    → x.seq_num < 4096
    → lo ≤ off b x.seq_num
    → off b x.seq_num < hi
    → Walked b (suc (off b x.seq_num)) hi f xs r
    → Walked b lo hi f (x ∷ xs) (cons? x r)
Walked-cons b lo hi f x xs none hx l u w = inr w
Walked-cons b lo hi f x xs (some ys) hx l u w = ((hx, l, u, w.0), Inserted-cons f x xs ys w.1)

-- The walk puts a frame whose distance lies between the bounds where it belongs, and refuses it only
-- if its number is in the list.
pub insert_frame-Walked :
    (b lo hi : ℕ) (f : RecvMsdu) (xs : List RecvMsdu)
    → b < 4096
    → hi ≤ 2048
    → f.seq_num < 4096
    → lo ≤ off b f.seq_num
    → off b f.seq_num < hi
    → Between b lo hi xs
    → Walked b lo hi f xs (insert_frame f xs)
unfolding insert_frame
insert_frame-Walked b lo hi f [] hb hh hf l u s =
    ((hf, l, u, tt), record { before = []; after = []; parted = refl; joined = refl })
insert_frame-Walked b lo hi f (x ∷ xs) hb hh hf l u s =
    elim (Bool-cases (sn_less x.seq_num f.seq_num)) [
      | inl e ↦
          rw (e, insert_frame)
            (Walked-cons b lo hi f x xs (insert_frame f xs) s.0 s.1 s.2 (
              insert_frame-Walked b (suc (off b x.seq_num)) hi f xs hb hh hf
                (off-lt_of_less b x.seq_num f.seq_num hb s.0 hf (omega arith) (omega arith) e) u
                s.3))
      | inr e ↦ elim (Bool-cases (x.seq_num == f.seq_num)) [
        | inl q ↦ rw (e, q, insert_frame) (inl (ground arith))
        | inr q ↦
            rw (e, q, insert_frame)
              (
                (
                  hf,
                  l,
                  u,
                  (
                    s.0,
                    off-lt_of_not_less b x.seq_num f.seq_num hb s.0 hf (omega arith) (omega arith) e
                        q,
                    s.2,
                    s.3,
                  ),
                ),
                record { before = []; after = x ∷ xs; parted = refl; joined = refl },
              )
      ]
    ]

-- What the walks of reord_rxframes_process and reord_rxframes_ind make of a sorted list, from a
-- window that begins at distance `e`; no distance is more than `top`.
pub record Ready (b lo hi top : ℕ) (fs : List RecvMsdu) (e ind' : ℕ) (more : Bool)
    (parts : List RecvMsdu × List RecvMsdu) : Type 0 where
  pub number : ind' < 4096
  pub forward : e ≤ off b ind'
  pub bounded : off b ind' ≤ top
  pub joined : parts.0 ++ parts.1 ≡ fs
  pub before : Between b lo (off b ind') parts.0
  pub after : Between b (suc (off b ind')) hi parts.1
  pub waits : more ≡ not (is_empty parts.1)

abbrev next_sn : ℕ → ℕ → ℕ
next_sn ind n = if ind == n then (ind + 1) % 4096 else ind

next_sn_lem :
    (b top ind n : ℕ)
    → b < 4096
    → top < 4095
    → ind < 4096
    → n < 4096
    → off b ind ≤ top
    → off b n < top
    → off b n ≤ off b ind
    → (next_sn ind n < 4096)
      × (off b (next_sn ind n) ≤ top)
      × (off b n < off b (next_sn ind n))
      × (off b ind ≤ off b (next_sn ind n))
next_sn_lem b top ind n hb ht hi' hn he hn' l =
    ground (arith, off-next b ind hb hi', off-injective b ind n hb hi' hn)

not_less_of_lt :
    (b x y : ℕ)
    → b < 4096
    → x < 4096
    → y < 4096
    → off b x < off b y + 2048
    → off b y < off b x
    → sn_less x y ≡ false
not_less_of_lt b x y hb hx hy h l =
    sn_less-off b x y hb hx hy h (omega arith) ∙ le→ltb_false (off b x) (off b y) (omega arith)

Ready-cons :
    (b lo hi top : ℕ) (x : RecvMsdu) (xs : List RecvMsdu) (e e2 ind' : ℕ) (more : Bool)
    → b < 4096
    → x.seq_num < 4096
    → lo ≤ off b x.seq_num
    → top ≤ lo + 2047
    → off b x.seq_num < e2
    → e ≤ e2
    → Ready b (suc (off b x.seq_num)) hi top xs e2 ind' more (take_ready ind' xs)
    → Ready b lo hi top (x ∷ xs) e ind' more (take_ready ind' (x ∷ xs))
unfolding take_ready
Ready-cons b lo hi top x xs e e2 ind' more hb hx l t u le r =
    rw
      (
        not_less_of_lt b ind' x.seq_num hb r.number hx (omega (arith, r.bounded))
            (omega (arith, r.forward)),
        take_ready,
      )
      (record {
        number = r.number;
        forward = omega (arith, r.forward);
        bounded = r.bounded;
        joined = ap (λ t. x ∷ t) r.joined;
        before = (hx, l, omega (arith, r.forward), r.before);
        after = r.after;
        waits = r.waits;
      })

Ready-stop :
    (b lo hi top ind : ℕ) (x : RecvMsdu) (xs : List RecvMsdu)
    → ind < 4096
    → off b ind ≤ top
    → Between b lo hi (x ∷ xs)
    → off b ind < off b x.seq_num
    → sn_less ind x.seq_num ≡ true
    → Ready b lo hi top (x ∷ xs) (off b ind) ind true (take_ready ind (x ∷ xs))
unfolding take_ready
Ready-stop b lo hi top ind x xs hi' he s l e =
    rw (e, take_ready)
      (record {
        number = hi';
        forward = omega arith;
        bounded = he;
        joined = refl;
        before = tt;
        after = (s.0, l, s.2, s.3);
        waits = refl;
      })

-- The frames that go up are the front part of the list; the window ends up behind all of them and
-- before all that stay, and a frame has to wait exactly if one stays.
pub process_from-Ready :
    (b lo hi top ind : ℕ) (fs : List RecvMsdu)
    → b < 4096
    → hi ≤ top
    → top ≤ 2048
    → top ≤ lo + 2047
    → ind < 4096
    → off b ind ≤ top
    → Between b lo hi fs
    → let (more, ind') = process_from ind fs in
      Ready b lo hi top fs (off b ind) ind' more (take_ready ind' fs)
unfolding process_from
process_from-Ready b lo hi top ind [] hb hh ht hl hi' he s =
    unfold take_ready in
    record {
      number = hi';
      forward = omega arith;
      bounded = he;
      joined = refl;
      before = tt;
      after = tt;
      waits = refl;
    }
process_from-Ready b lo hi top ind (x ∷ xs) hb hh ht hl hi' he s =
    elim (Bool-cases (sn_less ind x.seq_num)) [
      | inl e ↦
          rw (e, process_from)
            (Ready-stop b lo hi top ind x xs hi' he s
              (off-lt_of_less b ind x.seq_num hb hi' s.0 (omega arith) (omega arith) e) e)
      | inr e ↦
          let l = off-le_of_not_less b ind x.seq_num hb hi' s.0 (omega arith) (omega arith) e in
          let (n, a, d, f) =
            next_sn_lem b top ind x.seq_num hb (omega arith) hi' s.0 he (omega arith) l in
          rw (e, process_from)
            (Ready-cons b lo hi top x xs (off b ind) (off b (next_sn ind x.seq_num)) _ _ hb s.0 s.1
              hl d f
              (process_from-Ready b (suc (off b x.seq_num)) hi top (next_sn ind x.seq_num) xs hb hh
                ht (omega arith) n a s.3))
    ]
