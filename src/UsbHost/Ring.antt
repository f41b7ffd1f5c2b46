-- ===== src/UsbHost/Ring.antt =====
-- The slot of a frame in the ring of usb_host.c, while other frames are pushed behind it.
use aic8800_linux_driver.Common.{
  ℕ, ◌+◌, ◌%◌, ◌<◌, ◌≤◌, ◌≡◌, ◌≢◌, refl, sym, ap, ◌∙◌, inl, inr, some, List, [], ◌∷◌, ◌++◌, length,
  length-set, get_or, get_or-set_self, get_or-set_ne, set, arith, Bool-cases, ==_iff, ◌==◌,
  length-replicate,
}
use aic8800_linux_driver.UsbHost.{
  UsbHostEnv, usb_txdesc_cnt, idx_limit, next_idx, aicwf_usb_host_init, aicwf_usb_host_txdesc_push,
  aicwf_usb_host_tx_cfm_handler,
}

pub record IsValid (env : UsbHostEnv) : Type 0 where
  pub slots : length env.tx_host_id ≡ usb_txdesc_cnt
  pub index : env.txdesc_free_idx < idx_limit

pub init-IsValid : IsValid aicwf_usb_host_init
unfolding aicwf_usb_host_init
init-IsValid = record { slots = length-replicate {A = ℕ} usb_txdesc_cnt 0; index = omega arith }

next_idx_lt : (i : ℕ) → i < idx_limit → next_idx i < idx_limit
next_idx_lt i h = ground arith

next_idx_slot : (i : ℕ) → i < idx_limit → next_idx i % usb_txdesc_cnt ≡ (i + 1) % usb_txdesc_cnt
next_idx_slot i h = elim (Bool-cases (i + 1 == idx_limit)) [
  | inl e ↦ let z = (==_iff (i + 1) idx_limit).0 e in rw e (omega (arith, z))
  | inr e ↦ rw e refl
]

pub push-IsValid :
    (env : UsbHostEnv) (id : ℕ) → IsValid env → IsValid (aicwf_usb_host_txdesc_push env id)
unfolding aicwf_usb_host_txdesc_push
push-IsValid env id w = record {
  slots = length-set env.tx_host_id (env.txdesc_free_idx % usb_txdesc_cnt) id ∙ w.slots;
  index = next_idx_lt env.txdesc_free_idx w.index;
}

-- Frames pushed one after the other.
pub pushes : UsbHostEnv → List ℕ → UsbHostEnv
pushes env [] = env
pushes env (id ∷ ids) = pushes (aicwf_usb_host_txdesc_push env id) ids

pub pushes-IsValid : (env : UsbHostEnv) (ids : List ℕ) → IsValid env → IsValid (pushes env ids)
unfolding pushes
pushes-IsValid env [] w = w
pushes-IsValid env (id ∷ ids) w =
    pushes-IsValid (aicwf_usb_host_txdesc_push env id) ids (push-IsValid env id w)

-- A slot that the free index is `d` ahead of is not written by up to `64 - d` pushes.
pushes-keeps :
    (env : UsbHostEnv) (ids : List ℕ) (s d : ℕ)
    → IsValid env
    → s < usb_txdesc_cnt
    → env.txdesc_free_idx % usb_txdesc_cnt ≡ (s + d) % usb_txdesc_cnt
    → 0 < d
    → d + length ids ≤ usb_txdesc_cnt
    → get_or (pushes env ids).tx_host_id s 0 ≡ get_or env.tx_host_id s 0
unfolding pushes aicwf_usb_host_txdesc_push
pushes-keeps env [] s d w a e p q = refl
pushes-keeps env (id ∷ ids) s d w a e p q =
    let n = next_idx_slot env.txdesc_free_idx w.index in
    pushes-keeps (aicwf_usb_host_txdesc_push env id) ids s (d + 1) (push-IsValid env id w) a
      (omega (arith, n, e)) (omega arith) (omega (arith, q))
    ∙ get_or-set_ne env.tx_host_id (env.txdesc_free_idx % usb_txdesc_cnt) s id 0
        (λ z. absurd (omega (arith, z, e, p, q, a)))

cfm_found :
    (env : UsbHostEnv) (used id : ℕ)
    → id ≢ 0
    → get_or env.tx_host_id (used % usb_txdesc_cnt) 0 ≡ id
    → (aicwf_usb_host_tx_cfm_handler env used).0 ≡ some id
unfolding aicwf_usb_host_tx_cfm_handler
cfm_found env used id ne e = elim (Bool-cases (id == 0)) [
  | inl z ↦ absurd (ne ((==_iff id 0).0 z))
  | inr z ↦ rw (e, z) refl
]

-- A frame that is pushed on a valid ring with a buffer that is not null, and then fewer than 64 others:
-- a confirmation with the index that it was pushed at still finds it.
pub cfm_handler-push :
    (env : UsbHostEnv) (id : ℕ) (ids : List ℕ)
    → IsValid env
    → id ≢ 0
    → length ids < usb_txdesc_cnt
    → (aicwf_usb_host_tx_cfm_handler
        (pushes (aicwf_usb_host_txdesc_push env id) ids)
        env.txdesc_free_idx).0
      ≡ some id
unfolding aicwf_usb_host_txdesc_push
cfm_handler-push env id ids w ne l =
    let f = env.txdesc_free_idx in
    let s = f % usb_txdesc_cnt in
    let n = next_idx_slot f w.index in
    let k =
      pushes-keeps (aicwf_usb_host_txdesc_push env id) ids s 1 (push-IsValid env id w) (omega arith)
        (omega (arith, n)) (omega arith) (omega (arith, l)) in
    cfm_found (pushes (aicwf_usb_host_txdesc_push env id) ids) f id ne
      (k ∙ get_or-set_self env.tx_host_id s id 0 (omega (arith, w.slots)))

pub pushes-append :
    (env : UsbHostEnv) (xs : List ℕ) (y : ℕ)
    → pushes env (xs ++ (y ∷ [])) ≡ aicwf_usb_host_txdesc_push (pushes env xs) y
unfolding pushes
pushes-append env [] y = refl
pushes-append env (x ∷ xs) y = pushes-append (aicwf_usb_host_txdesc_push env x) xs y

pushes-index :
    (env : UsbHostEnv) (ids : List ℕ)
    → IsValid env
    → (pushes env ids).txdesc_free_idx % usb_txdesc_cnt
      ≡ (env.txdesc_free_idx + length ids) % usb_txdesc_cnt
unfolding pushes aicwf_usb_host_txdesc_push
pushes-index env [] w = omega arith
pushes-index env (id ∷ ids) w = omega (
  arith,
  pushes-index (aicwf_usb_host_txdesc_push env id) ids (push-IsValid env id w),
  next_idx_slot env.txdesc_free_idx w.index,
)

-- There is no test for a full ring. When 64 frames are pushed behind a frame, on a valid ring, the
-- confirmation with the index of that frame finds the last of them: the frame itself is lost.
pub cfm_handler-overwritten :
    (env : UsbHostEnv) (id : ℕ) (ids : List ℕ) (last : ℕ)
    → IsValid env
    → last ≢ 0
    → length ids + 1 ≡ usb_txdesc_cnt
    → (aicwf_usb_host_tx_cfm_handler
        (pushes (aicwf_usb_host_txdesc_push env id) (ids ++ (last ∷ [])))
        env.txdesc_free_idx).0
      ≡ some last
unfolding aicwf_usb_host_txdesc_push
cfm_handler-overwritten env id ids last w ne l =
    let e1 = aicwf_usb_host_txdesc_push env id in
    let v = push-IsValid env id w in
    let e2 = pushes e1 ids in
    let i = pushes-index e1 ids v in
    let n = next_idx_slot env.txdesc_free_idx w.index in
    let s : e2.txdesc_free_idx % usb_txdesc_cnt ≡ env.txdesc_free_idx % usb_txdesc_cnt =
      omega (arith, i, n, l) in
    let z = pushes-IsValid e1 ids v in
    rw (pushes-append e1 ids last) (
      cfm_found (aicwf_usb_host_txdesc_push e2 last) env.txdesc_free_idx last ne (
        ap (λ j. get_or (set e2.tx_host_id (e2.txdesc_free_idx % usb_txdesc_cnt) last) j 0) (sym s)
        ∙ get_or-set_self e2.tx_host_id (e2.txdesc_free_idx % usb_txdesc_cnt) last 0
            (omega (arith, z.slots))))
