-- ===== src/Reord/Receive.antt =====
-- One frame comes in: the window keeps its shape, and the frames go up in order.
use aic8800_linux_driver.Common.{
  ℕ, suc, ◌+◌, ◌-◌, ◌%◌, ◌≤◌, ◌<◌, ◌≡◌, refl, ap, ◌∙◌, Bool, true, false, not, ◌||◌, none, some,
  List, [], ◌∷◌, ◌++◌, ◌==◌, if◌then◌else◌, arith, ◌⊎◌, inl, inr, Option-cases,
}
use aic8800_linux_driver.Reord.{
  RecvMsdu, ReordCtrl, sn_less, insert_frame, reord_rxframe_enqueue, reord_rxframes_process,
  is_empty, reord_rxframes_ind, Outcome, old, duplicate, queued, accept, receive,
}
use aic8800_linux_driver.Reord.Window.{off}
use aic8800_linux_driver.Reord.Sorted.{
  Between, Between-lo, Between-hi, Between-rebase, HasSeq, Inserted, Walked, insert_frame-Walked,
  process_from-Ready,
}
use aic8800_linux_driver.Reord.Check.{
  Moved, Moved-equal, reord_need_check-used, reord_need_check-first,
}

-- What holds of a window between two calls: it is 64 wide; it is not in use and empty, or its frames
-- are between 1 and 63 numbers ahead of it, in order; and while a frame waits the timer or the work
-- item is pending.
pub record InWindow (c : ReordCtrl) : Type 0 where
  pub size : c.wsize_b ≡ 64
  pub place :
      ((c.ind_sn ≡ 0xffff) × (c.reord_list ≡ []))
      ⊎ ((c.ind_sn < 4096) × Between c.ind_sn 1 64 c.reord_list)
  pub served : is_empty c.reord_list || (c.timer_pending || c.work_pending) ≡ true

-- the number from which distances are counted while a frame comes in
abbrev pub base : ReordCtrl → RecvMsdu → ℕ
base c f = if c.ind_sn == 0xffff then f.seq_num else c.ind_sn

-- What each outcome says.
abbrev pub Received : ReordCtrl → RecvMsdu → Outcome → Type 0
Received c f (old d) = (sn_less f.seq_num c.ind_sn ≡ true) × (d ≡ c)
Received c f (duplicate d) = HasSeq f.seq_num c.reord_list × (d ≡ c)
Received c f (queued ready d) =
    InWindow d
    × Inserted f c.reord_list (ready ++ d.reord_list)
    × Between (base c f) 0 (off (base c f) d.ind_sn) ready
    × (d.ind_sn < 4096)

-- The frames that stay, seen from the new start of the window.
pub left-Between :
    (b ind hi : ℕ) (fs : List RecvMsdu)
    → b < 4096
    → ind < 4096
    → hi ≤ off b ind + 64
    → Between b (suc (off b ind)) hi fs
    → Between ind 1 64 fs
left-Between b ind hi fs hb hi' r s =
    Between-lo ind (suc (off b ind) - off b ind) 1 64 fs (omega arith)
      (Between-rebase b ind (suc (off b ind)) hi 64 fs hb hi' (omega arith) r s)

served-not-empty : (e w : Bool) → e || (not e || w) ≡ true
served-not-empty true w = refl
served-not-empty false w = refl

HasSeq-off :
    (b n lo hi : ℕ) (fs : List RecvMsdu)
    → Between b lo hi fs
    → HasSeq n fs
    → (lo ≤ off b n) × (off b n < hi)
HasSeq-off b n lo hi [] s h = absurd h
HasSeq-off b n lo hi (x ∷ xs) s (inl e) = rw (← e) (s.1, s.2)
HasSeq-off b n lo hi (x ∷ xs) s (inr h) =
    let r = HasSeq-off b n (suc (off b x.seq_num)) hi xs s.3 h in (omega arith, r.1)

-- What queueing does, with distances from `b`, after the check has moved the window.
abbrev Accepted : ℕ → ReordCtrl → RecvMsdu → Outcome → Type 0
Accepted b c f (old d) = ⊥
Accepted b c f (duplicate d) = HasSeq f.seq_num c.reord_list × (d ≡ record c { ind_sn = b })
Accepted b c f (queued ready d) =
    InWindow d
    × Inserted f c.reord_list (ready ++ d.reord_list)
    × Between b 0 (off b d.ind_sn) ready
    × (d.ind_sn < 4096)

module _ (b lo hi ind' : ℕ) (c : ReordCtrl) (f : RecvMsdu) (hb : b < 4096) (hf : f.seq_num < 4096)
    (hw : c.wsize_b ≡ 64) (s : Between b 1 64 c.reord_list) (m : Moved b f.seq_num ind' lo hi) where
  widened : Between b lo hi c.reord_list
  widened = Between-hi b lo 64 hi c.reord_list m.wide (Between-lo b 1 lo 64 c.reord_list m.low s)

  accept-queued :
      (ys : List RecvMsdu)
      → insert_frame f c.reord_list ≡ some ys
      → Between b lo hi ys
      → Inserted f c.reord_list ys
      → Accepted b c f (accept (record c { ind_sn = ind' }) f)
  unfolding accept reord_rxframe_enqueue reord_rxframes_process reord_rxframes_ind
  accept-queued ys e t i =
      let r =
        process_from-Ready b lo hi hi ind' ys hb (omega arith) m.half m.apart m.number m.start t in
      rw (e, accept, reord_rxframe_enqueue)
        (
          record {
            size = hw;
            place = inr (
              r.number,
              left-Between b _ hi _ hb r.number (omega (arith, m.reach, r.forward)) r.after,
            );
            served = rw r.waits (served-not-empty _ _);
          },
          rw r.joined i,
          Between-lo b lo 0 _ _ (omega arith) r.before,
          r.number,
        )

  accept-duplicate :
      insert_frame f c.reord_list ≡ none
      → HasSeq f.seq_num c.reord_list
      → Accepted b c f (accept (record c { ind_sn = ind' }) f)
  unfolding accept reord_rxframe_enqueue
  accept-duplicate e h =
      let (l, u) = HasSeq-off b f.seq_num 1 64 c.reord_list s h in
      rw (e, accept, reord_rxframe_enqueue) (h, ap (λ n. record c { ind_sn = n }) (m.inside l u))

  pub accept-Accepted : Accepted b c f (accept (record c { ind_sn = ind' }) f)
  accept-Accepted =
      let w =
        insert_frame-Walked b lo hi f c.reord_list hb m.half hf m.frame_low m.frame_high widened in
      elim (Option-cases (insert_frame f c.reord_list)) [
        | inl e ↦ accept-duplicate e (rw e at w)
        | inr (ys, e) ↦ let (t, i) = walked ys (rw e at w) in accept-queued ys e t i
      ]
    where
      walked :
          (ys : List RecvMsdu)
          → Walked b lo hi f c.reord_list (some ys)
          → Between b lo hi ys × Inserted f c.reord_list ys
      walked ys p = p

Accepted-Received :
    (b : ℕ) (c : ReordCtrl) (f : RecvMsdu) (o : Outcome)
    → base c f ≡ b
    → (HasSeq f.seq_num c.reord_list → b ≡ c.ind_sn)
    → Accepted b c f o
    → Received c f o
Accepted-Received b c f (old d) e k a = absurd a
Accepted-Received b c f (duplicate d) e k a = (a.0, a.1 ∙ ap (λ n. record c { ind_sn = n }) (k a.0))
Accepted-Received b c f (queued ready d) e k a = rw e a

first-Received :
    (c : ReordCtrl) (f : RecvMsdu)
    → c.wsize_b ≡ 64
    → f.seq_num < 4096
    → c.ind_sn ≡ 0xffff
    → c.reord_list ≡ []
    → Received c f (receive c f)
unfolding receive
first-Received c f hw hf e n =
    rw (reord_need_check-first c f.seq_num hw hf e, receive)
      (Accepted-Received f.seq_num c f _ (ground arith) (λ h. absurd (rw n at h))
        (accept-Accepted f.seq_num 0 64 ((f.seq_num + 1) % 4096) c f hf hf hw (rw n tt)
          (Moved-equal f.seq_num hf)))

used-Received :
    (c : ReordCtrl) (f : RecvMsdu)
    → c.wsize_b ≡ 64
    → f.seq_num < 4096
    → c.ind_sn < 4096
    → Between c.ind_sn 1 64 c.reord_list
    → Received c f (receive c f)
unfolding receive
used-Received c f hw hf l s = elim (reord_need_check-used c f.seq_num hw hf l) [
  | inl (e, o) ↦ rw (e, receive) (o, refl)
  | inr (ind', lo, hi, e, m) ↦
      rw (e, receive)
        (Accepted-Received c.ind_sn c f _ (ground arith) (λ h. refl)
          (accept-Accepted c.ind_sn lo hi ind' c f l hf hw s m))
]

-- reord_process_unit on a window that is 64 wide, holds its frames in order between 1 and 63 ahead
-- and has the timer or the work pending while a frame waits, for a frame with a 12-bit number.
-- Either the frame is behind the window, or its number is there already, and the window is
-- unchanged; or it is put among the frames, of which a front part goes up and the rest stays: those
-- that go up have strictly increasing distances, all before the new start of the window, and the
-- window is again as described, so that what stays is after its start.
pub receive-Received :
    (c : ReordCtrl) (f : RecvMsdu) → InWindow c → f.seq_num < 4096 → Received c f (receive c f)
receive-Received c f w hf = elim w.place [
  | inl (e, n) ↦ first-Received c f w.size hf e n
  | inr (l, s) ↦ used-Received c f w.size hf l s
]
