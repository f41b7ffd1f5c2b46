-- ===== src/Txq/Sched/Ndev.antt =====
-- The network queues of the traffic classes of a station.
use aic8800_linux_driver.Common.{
  ℕ, zero, suc, ◌+◌, ◌*◌, ◌-◌, ◌<◌, ◌≤◌, ◌≡◌, refl, sym, ap, ap₂, subst, ◌∙◌, inl, inr, Bool, true,
  false, some, length, ltb→lt, ltb_false→le, length-set, get_or-set_self, get_or-set_ne, arith, ltb,
  lt→ltb, leb, Bool-cases, if◌then◌else◌,
}
use aic8800_linux_driver.Txq.{
  Hw, Status, no_txq, uapsd_id, legacy_ps_id, txq_at, set_txq, nx_remote_sta_max, nx_nb_txq_per_sta,
  nx_nb_tid_per_sta, nx_first_vif_txq_idx, nx_first_unk_txq_idx, ndev_no_txq, is_multicast_sta,
  rwnx_txq_sta_idx, rwnx_txq_sta_get,
}
use aic8800_linux_driver.Txq.Sched.{
  init_ndev_idx, rwnx_txq_init, sta_init_from, rwnx_txq_sta_init, tid2hwq,
}

module _ (sta base : ℕ) (uapsd : ℕ → Bool) (status : Status) (ndev : ℕ) where
  -- One round of the loop.
  round : Hw → ℕ → Hw
  round h tid =
      let a = rwnx_txq_init h (base + tid) status (tid2hwq tid) tid (some sta) ndev in
      let ps = if uapsd tid then uapsd_id else legacy_ps_id in
      set_txq a (base + tid) (record (txq_at a (base + tid)) { ps_id = ps })

  other : (h : Hw) (tid i : ℕ) → ¬ (base + tid ≡ i) → txq_at (round h tid) i ≡ txq_at h i
  unfolding round rwnx_txq_init
  other h tid i ne =
      let a = rwnx_txq_init h (base + tid) status (tid2hwq tid) tid (some sta) ndev in
      get_or-set_ne a.txq (base + tid) i _ no_txq ne
      ∙ get_or-set_ne h.txq (base + tid) i _ no_txq ne

  itself :
      (h : Hw) (tid : ℕ)
      → base + tid < length h.txq
      → (txq_at (round h tid) (base + tid)).ndev_idx ≡ init_ndev_idx h (base + tid) (some sta)
  unfolding round rwnx_txq_init
  itself h tid l =
      let a = rwnx_txq_init h (base + tid) status (tid2hwq tid) tid (some sta) ndev in
      let m : length a.txq ≡ length h.txq = length-set h.txq (base + tid) _ in
      ap (λ t. t.ndev_idx) (get_or-set_self a.txq (base + tid) _ no_txq (omega (arith, l, m)))
      ∙ ap (λ t. t.ndev_idx) (get_or-set_self h.txq (base + tid) _ no_txq l)

  length-round : (h : Hw) (tid : ℕ) → length (round h tid).txq ≡ length h.txq
  unfolding round rwnx_txq_init
  length-round h tid =
      let a = rwnx_txq_init h (base + tid) status (tid2hwq tid) tid (some sta) ndev in
      length-set a.txq (base + tid) _ ∙ length-set h.txq (base + tid) _

  same_idx :
      (h : Hw) (tid i : ℕ) → init_ndev_idx (round h tid) i (some sta) ≡ init_ndev_idx h i (some sta)
  unfolding round rwnx_txq_init init_ndev_idx
  same_idx h tid i = refl

  -- A queue before those that are set up.
  before :
      (n : ℕ) (h : Hw) (tid i : ℕ)
      → i < base + tid
      → txq_at (sta_init_from h sta base tid uapsd status ndev n) i ≡ txq_at h i
  unfolding sta_init_from round
  before zero h tid i l = refl
  before (suc n) h tid i l =
      before n (round h tid) (tid + 1) i (omega (arith, l))
      ∙ other h tid i (λ e. absurd (omega (arith, e, l)))

  within :
      (n : ℕ) (h : Hw) (tid i : ℕ)
      → base + tid ≤ i
      → i < base + tid + n
      → base + tid + n ≤ length h.txq
      → (txq_at (sta_init_from h sta base tid uapsd status ndev n) i).ndev_idx
        ≡ init_ndev_idx h i (some sta)
  unfolding sta_init_from round
  within zero h tid i l m z = absurd (omega (arith, l, m))
  within (suc n) h tid i l m z =
      let r = round h tid in
      elim (Bool-cases (ltb (base + tid) i)) [
        | inl b ↦
            let c = ltb→lt (base + tid) i b in
            within n r (tid + 1) i (omega (arith, c)) (omega (arith, m))
              (omega (arith, z, length-round h tid))
            ∙ same_idx h tid i
        | inr b ↦
            let e : base + tid ≡ i = let c = ltb_false→le (base + tid) i b in omega (arith, c, l) in
            ap (λ t. t.ndev_idx) (before n r (tid + 1) i (omega (arith, e)))
            ∙ ap (λ j. (txq_at r j).ndev_idx) (sym e)
            ∙ itself h tid (omega (arith, z))
            ∙ ap (λ j. init_ndev_idx h j (some sta)) e
      ]

  keeps_ic :
      (n : ℕ) (h : Hw) (tid : ℕ)
      → (sta_init_from h sta base tid uapsd status ndev n).old_ic ≡ h.old_ic
  unfolding sta_init_from round rwnx_txq_init
  keeps_ic zero h tid = refl
  keeps_ic (suc n) h tid = keeps_ic n (round h tid) (tid + 1)

not_multicast : (ic : Bool) (sta : ℕ) → sta < nx_remote_sta_max ic → is_multicast_sta ic sta ≡ false
not_multicast true sta l = ground arith
not_multicast false sta l = ground arith

queue_of :
    (h : Hw) (sta tid : ℕ)
    → sta < nx_remote_sta_max h.old_ic
    → tid < nx_nb_txq_per_sta
    → rwnx_txq_sta_get h sta tid ≡ sta * nx_nb_txq_per_sta + tid
unfolding rwnx_txq_sta_get rwnx_txq_sta_idx
queue_of h sta tid l t = rw (not_multicast h.old_ic sta l, few tid t) refl
  where
    few : (t : ℕ) → t < 9 → leb 9 t ≡ false
    few t l = ground arith

own_idx :
    (h : Hw) (sta tid : ℕ)
    → sta < nx_remote_sta_max h.old_ic
    → tid < nx_nb_tid_per_sta
    → init_ndev_idx h (sta * nx_nb_txq_per_sta + tid) (some sta) ≡ tid + sta * nx_nb_tid_per_sta
unfolding init_ndev_idx
own_idx h sta tid s t = own h.old_ic s
  where
    tid_of : sta * 9 + tid - sta * 9 ≡ tid
    tid_of = omega arith

    own :
        (ic : Bool)
        → sta < nx_remote_sta_max ic
        → (if ltb (sta * 9 + tid) (nx_first_vif_txq_idx ic)
            then (if ltb (sta * 9 + tid - sta * 9) 8
                then sta * 9 + tid - sta * 9 + sta * 8
                else ndev_no_txq)
            else if ltb (sta * 9 + tid) (nx_first_unk_txq_idx ic)
            then 8 * nx_remote_sta_max ic
            else ndev_no_txq)
          ≡ tid + sta * 8
    own true l = rw (lt→ltb (sta * 9 + tid) 72 (omega (arith, l, t)), tid_of, lt→ltb tid 8 t) refl
    own false l = rw (lt→ltb (sta * 9 + tid) 288 (omega (arith, l, t)), tid_of, lt→ltb tid 8 t) refl

-- The network queue of a traffic class of a station that was set up.
pub sta_init-ndev_idx :
    (h : Hw) (sta tid : ℕ) (uapsd : ℕ → Bool) (status : Status) (ndev : ℕ)
    → sta < nx_remote_sta_max h.old_ic
    → tid < nx_nb_tid_per_sta
    → nx_first_vif_txq_idx h.old_ic ≤ length h.txq
    → (txq_at
        (rwnx_txq_sta_init h sta uapsd status ndev)
        (rwnx_txq_sta_get (rwnx_txq_sta_init h sta uapsd status ndev) sta tid)).ndev_idx
      ≡ tid + sta * nx_nb_tid_per_sta
unfolding rwnx_txq_sta_init
sta_init-ndev_idx h sta tid uapsd status ndev s t l =
    let b = sta * nx_nb_txq_per_sta in
    let g = sta_init_from h sta b 0 uapsd status ndev 9 in
    let z : rwnx_txq_sta_get h sta 0 ≡ b = queue_of h sta 0 s (omega arith) ∙ omega arith in
    let e : rwnx_txq_sta_init h sta uapsd status ndev ≡ g =
      ap₂ (λ k n. sta_init_from h sta k 0 uapsd status ndev n) z
        (ap (λ c. if c then 1 else 9) (not_multicast h.old_ic sta s)) in
    let ic = keeps_ic sta b uapsd status ndev 9 h 0 in
    let q =
      queue_of g sta tid (subst (λ c. sta < nx_remote_sta_max c) (sym ic) s) (omega (arith, t)) in
    ap (λ x. (txq_at x (rwnx_txq_sta_get x sta tid)).ndev_idx) e
    ∙ ap (λ i. (txq_at g i).ndev_idx) q
    ∙ within sta b uapsd status ndev 9 h 0 (b + tid) (omega arith) (omega (arith, t))
        (enough h.old_ic s l)
    ∙ own_idx h sta tid s t
  where
    enough :
        (ic : Bool)
        → sta < nx_remote_sta_max ic
        → nx_first_vif_txq_idx ic ≤ length h.txq
        → sta * 9 + 0 + 9 ≤ length h.txq
    enough true s l = omega (arith, s, l)
    enough false s l = omega (arith, s, l)
