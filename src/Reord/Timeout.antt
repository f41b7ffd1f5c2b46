-- ===== src/Reord/Timeout.antt =====
-- The reorder timer: its handler and its worker.
use aic8800_linux_driver.Common.{
  ℕ, suc, ◌≤◌, ◌<◌, ◌≡◌, ◌≢◌, refl, ap, Bool, true, false, not, ◌||◌, List, [], ◌∷◌, ◌++◌, arith,
  ◌⊎◌, inl, inr,
}
use aic8800_linux_driver.Reord.{
  RecvMsdu, ReordCtrl, process_from, reord_rxframes_process, take_ready, is_empty,
  reord_rxframes_ind, reord_timeout_handler, reord_timeout_worker, first_seq,
}
use aic8800_linux_driver.Reord.Window.{off}
use aic8800_linux_driver.Reord.Sorted.{Between, process_from-Ready}
use aic8800_linux_driver.Reord.Receive.{InWindow, left-Between}

-- The handler of the timer keeps the window as described while the bus is up.
pub reord_timeout_handler-InWindow :
    (c : ReordCtrl) → InWindow c → InWindow (reord_timeout_handler false c)
unfolding reord_timeout_handler
reord_timeout_handler-InWindow c w = record {
  size = w.size;
  place = w.place;
  served = on_work (is_empty c.reord_list);
}
  where
    on_work : (e : Bool) → e || true ≡ true
    on_work true = refl
    on_work false = refl

-- What the worker leaves behind.
pub record Fired (fs : List RecvMsdu) (ready : List RecvMsdu) (d : ReordCtrl) : Type 0 where
  pub window : InWindow d
  pub joined : ready ++ d.reord_list ≡ fs
  pub progress : fs ≢ [] → ready ≢ []

served-more : (e t : Bool) → e || ((t || not e) || false) ≡ true
served-more true t = refl
served-more false true = refl
served-more false false = refl

-- With the window at the first frame, that frame goes up.
head-ready :
    (b n : ℕ) (x : RecvMsdu) (xs ready left : List RecvMsdu)
    → off b x.seq_num ≤ n
    → ready ++ left ≡ x ∷ xs
    → Between b (suc n) 64 left
    → ready ≢ []
head-ready b n x xs [] [] l e s z = cc
head-ready b n x xs [] (y ∷ ys) l e s z =
    let q : y.seq_num ≡ x.seq_num = ground arith in
    let lt = s.1 in absurd (omega (arith, ap (off b) q))
head-ready b n x xs (y ∷ ys) left l e s z = cc

module _ (ind : ℕ) (c : ReordCtrl) (hw : c.wsize_b ≡ 64) (hi : ind < 4096) where
  fired :
      (x : RecvMsdu) (xs : List RecvMsdu)
      → Between ind 1 64 (x ∷ xs)
      → let (more, n) = process_from x.seq_num (x ∷ xs) in
        let (ready, left) = take_ready n (x ∷ xs) in
        Fired (x ∷ xs) ready (record c {
          ind_sn = n;
          reord_list = left;
          timer_pending = c.timer_pending || more;
          work_pending = false;
        })
  fired x xs s =
      let r =
        process_from-Ready ind 1 64 64 x.seq_num (x ∷ xs) hi (omega arith) (omega arith)
          (omega arith) s.0 (omega arith) s in
      record {
        window = record {
          size = hw;
          place = inr (r.number, left-Between ind _ 64 _ hi r.number (omega arith) r.after);
          served = rw r.waits (served-more _ _);
        };
        joined = r.joined;
        progress = λ z. head-ready ind _ x xs _ _ r.forward r.joined r.after;
      }

abbrev FiredOn : ReordCtrl → List RecvMsdu → Type 0
FiredOn c fs =
    let (more, n) = process_from (first_seq c.ind_sn fs) fs in
    Fired fs (take_ready n fs).0 (record c {
      ind_sn = n;
      reord_list = (take_ready n fs).1;
      timer_pending = c.timer_pending || more;
      work_pending = false;
    })

fired-nil :
    (c : ReordCtrl) → c.wsize_b ≡ 64 → (c.ind_sn ≡ 0xffff) ⊎ (c.ind_sn < 4096) → FiredOn c []
unfolding process_from take_ready
fired-nil c hw p = record {
  window = record { size = hw; place = nothing p; served = refl };
  joined = refl;
  progress = λ z. absurd (z refl);
}
  where
    nothing :
        (c.ind_sn ≡ 0xffff) ⊎ (c.ind_sn < 4096)
        → ((c.ind_sn ≡ 0xffff) × (◌≡◌ {A = List RecvMsdu} [] [])) ⊎ ((c.ind_sn < 4096) × Unit {0})
    nothing (inl e) = inl (e, refl)
    nothing (inr l) = inr (l, tt)

fired-any :
    (c : ReordCtrl) (fs : List RecvMsdu)
    → c.wsize_b ≡ 64
    → ((c.ind_sn ≡ 0xffff) × (fs ≡ [])) ⊎ ((c.ind_sn < 4096) × Between c.ind_sn 1 64 fs)
    → FiredOn c fs
fired-any c [] hw (inl p) = fired-nil c hw (inl p.0)
fired-any c [] hw (inr p) = fired-nil c hw (inr p.0)
fired-any c (x ∷ xs) hw (inl p) = absurd (cc (p.1))
fired-any c (x ∷ xs) hw (inr p) = fired c.ind_sn c hw p.0 x xs p.1

-- reord_timeout_worker keeps the window as described; the frames that go up are the front part of
-- those that waited, and if any waited at least one goes up.
pub reord_timeout_worker-Fired :
    (c : ReordCtrl)
    → InWindow c
    → Fired c.reord_list (reord_timeout_worker c).0 (reord_timeout_worker c).1
unfolding reord_timeout_worker reord_rxframes_process reord_rxframes_ind
reord_timeout_worker-Fired c w = fired-any c c.reord_list w.size w.place
