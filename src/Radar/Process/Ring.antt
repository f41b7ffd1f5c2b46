-- ===== src/Radar/Process/Ring.antt =====
-- The ring of pulses against the list of the newest ones.
use aic8800_linux_driver.Common.{
  ℕ, zero, suc, ◌+◌, ◌-◌, ◌%◌, ◌<◌, ◌≤◌, ◌≡◌, refl, sym, ap, ap₂, ◌∙◌, inl, inr, List, [], ◌∷◌,
  ◌++◌, length, set, get_or, length-set, length-append, get_or-set_self, get_or-set_ne,
  append_assoc, append-nil, arith, ltb, ltb→lt, ltb_false→le, Bool-cases, if◌then◌else◌,
}
use aic8800_linux_driver.Radar.Process.{
  rwnx_radar_pulse_max, RwnxRadarPulses, push_pulse, push_pulses, memcpy_from, start_of,
  copy_pulses,
}

pub record IsValid (p : RwnxRadarPulses) : Type 0 where
  pub slots : length p.buffer ≡ rwnx_radar_pulse_max
  pub index : p.index < rwnx_radar_pulse_max
  pub count : p.count ≤ rwnx_radar_pulse_max

-- `n` words of the ring from the index `s` on.
abbrev around : List ℕ → ℕ → ℕ → List ℕ
around buffer s zero = []
around buffer s (suc n) = get_or buffer (s % rwnx_radar_pulse_max) 0 ∷ around buffer (suc s) n

around_straight :
    (b : List ℕ) (s n : ℕ) → s + n ≤ rwnx_radar_pulse_max → memcpy_from b s n ≡ around b s n
around_straight b s zero l = refl
around_straight b s (suc n) l =
    let e : s ≡ s % rwnx_radar_pulse_max = omega (arith, l) in
    ap₂ (λ i r. get_or b i 0 ∷ r) e (around_straight b (suc s) n (omega (arith, l)))

around_shift :
    (b : List ℕ) (s t n : ℕ)
    → s % rwnx_radar_pulse_max ≡ t % rwnx_radar_pulse_max
    → around b s n ≡ around b t n
around_shift b s t zero e = refl
around_shift b s t (suc n) e =
    ap₂ (λ i r. get_or b i 0 ∷ r) e (around_shift b (suc s) (suc t) n (omega (arith, e)))

around_append : (b : List ℕ) (s m n : ℕ) → around b s m ++ around b (s + m) n ≡ around b s (m + n)
around_append b s zero n =
    let e : 0 + n ≡ n = omega arith in
    around_shift b (s + 0) s n (omega arith) ∙ ap (around b s) (sym e)
around_append b s (suc m) n =
    let e : suc m + n ≡ suc (m + n) = omega arith in
    ap (λ r. get_or b (s % rwnx_radar_pulse_max) 0 ∷ r)
      (ap (λ r. around b (suc s) m ++ r) (around_shift b (s + suc m) (suc s + m) n (omega arith))
        ∙ around_append b (suc s) m n)
    ∙ ap (around b s) (sym e)

around-set :
    (b : List ℕ) (s n i v : ℕ)
    → i < rwnx_radar_pulse_max
    → n < rwnx_radar_pulse_max
    → (s + n) % rwnx_radar_pulse_max ≡ i
    → around (set b i v) s n ≡ around b s n
around-set b s zero i v l m e = refl
around-set b s (suc n) i v l m e =
    ap₂ (λ x r. x ∷ r)
      (get_or-set_ne b i (s % rwnx_radar_pulse_max) v 0 (λ z. absurd (omega (arith, z, e, l, m))))
      (around-set b (suc s) n i v l (omega (arith, m)) (omega (arith, e)))

abbrev skip : ℕ → List ℕ → List ℕ
skip zero xs = xs
skip (suc n) [] = []
skip (suc n) (x ∷ xs) = skip n xs

-- The last pulses of a list, as many as the ring has slots.
pub newest : List ℕ → List ℕ
newest xs = skip (length xs - rwnx_radar_pulse_max) xs

contents : RwnxRadarPulses → List ℕ
contents p = around p.buffer (p.index + rwnx_radar_pulse_max - p.count) p.count

copy-contents : (p : RwnxRadarPulses) → IsValid p → copy_pulses p ≡ contents p
unfolding copy_pulses contents
copy-contents p v =
    let s = start_of p in
    let start : s + p.count ≤ p.index + 32 = starts p.index p.count v.count in
    let small : s ≤ 32 = below p.index p.count v.count v.index in
    let shift : s % 32 ≡ (p.index + 32 - p.count) % 32 = shifts p.index p.count v.count in
    elim (Bool-cases (ltb 32 (s + p.count))) [
      | inl e ↦
          let l = ltb→lt 32 (s + p.count) e in
          let n : (32 - s) + (p.count - (32 - s)) ≡ p.count = omega (arith, l, small) in
          rw e (
            ap₂ (λ x y. x ++ y) (around_straight p.buffer s (32 - s) (omega (arith, small)))
              (around_straight p.buffer 0 (p.count - (32 - s)) (omega (arith, v.count))
                ∙ around_shift p.buffer 0 (s + (32 - s)) (p.count - (32 - s))
                    (omega (arith, small)))
            ∙ around_append p.buffer s (32 - s) (p.count - (32 - s))
            ∙ ap (around p.buffer s) n
            ∙ around_shift p.buffer s (p.index + 32 - p.count) p.count shift)
      | inr e ↦ rw e (
          around_straight p.buffer s p.count (ltb_false→le 32 (s + p.count) e)
          ∙ around_shift p.buffer s (p.index + 32 - p.count) p.count shift)
    ]
  where
    starts : (i c : ℕ) → c ≤ 32 → (if ltb i c then i + 32 - c else i - c) + c ≤ i + 32
    starts i c l = ground arith

    below : (i c : ℕ) → c ≤ 32 → i < 32 → (if ltb i c then i + 32 - c else i - c) ≤ 32
    below i c l m = ground arith

    shifts : (i c : ℕ) → c ≤ 32 → (if ltb i c then i + 32 - c else i - c) % 32 ≡ (i + 32 - c) % 32
    shifts i c l = elim (Bool-cases (ltb i c)) [
      | inl e ↦ rw e refl
      | inr e ↦ rw e (let z = ltb_false→le i c e in omega (arith, z, l))
    ]

length-around : (b : List ℕ) (s n : ℕ) → length (around b s n) ≡ n
length-around b s zero = refl
length-around b s (suc n) = ap suc (length-around b (suc s) n)

push-IsValid : (p : RwnxRadarPulses) (v : ℕ) → IsValid p → IsValid (push_pulse p v)
unfolding push_pulse
push-IsValid p v w = record {
  slots = length-set p.buffer p.index v ∙ w.slots;
  index = omega arith;
  count = at_most p.count w.count;
}
  where
    at_most : (c : ℕ) → c ≤ 32 → (if ltb c 32 then c + 1 else c) ≤ 32
    at_most c l = ground arith

-- The new pulse behind those that stay.
set_last :
    (b : List ℕ) (s n i v : ℕ)
    → length b ≡ rwnx_radar_pulse_max
    → i < rwnx_radar_pulse_max
    → n < rwnx_radar_pulse_max
    → (s + n) % rwnx_radar_pulse_max ≡ i
    → around (set b i v) s (n + 1) ≡ around b s n ++ (v ∷ [])
set_last b s n i v w l m e =
    sym (around_append (set b i v) s n 1)
    ∙ ap₂ (λ x y. x ++ (y ∷ [])) (around-set b s n i v l m e)
        (ap (λ k. get_or (set b i v) k 0) e ∙ get_or-set_self b i v 0 (omega (arith, w, l)))

newest_few : (xs : List ℕ) → length xs ≤ rwnx_radar_pulse_max → newest xs ≡ xs
unfolding newest
newest_few xs l = let e : length xs - 32 ≡ 0 = omega (arith, l) in ap (λ n. skip n xs) e

newest_more : (x : ℕ) (xs : List ℕ) → rwnx_radar_pulse_max ≤ length xs → newest (x ∷ xs) ≡ newest xs
unfolding newest
newest_more x xs l =
    let e : suc (length xs) - 32 ≡ suc (length xs - 32) = omega (arith, l) in
    ap (λ n. skip n (x ∷ xs)) e

push-contents :
    (p : RwnxRadarPulses) (v : ℕ)
    → IsValid p
    → contents (push_pulse p v) ≡ newest (contents p ++ (v ∷ []))
unfolding push_pulse contents
push-contents p v w = elim (Bool-cases (ltb p.count 32)) [
  | inl e ↦
      let l = ltb→lt p.count 32 e in
      let s = p.index + 32 - p.count in
      let n = length-append (around p.buffer s p.count) (v ∷ []) in
      let k = length-around p.buffer s p.count in
      rw e (
        around_shift (set p.buffer p.index v) ((p.index + 1) % 32 + 32 - (p.count + 1)) s
          (p.count + 1) (omega (arith, w.index, l))
        ∙ set_last p.buffer s p.count p.index v w.slots w.index l (omega (arith, w.index, l))
        ∙ sym (newest_few (around p.buffer s p.count ++ (v ∷ [])) (omega (arith, n, k, l))))
  | inr e ↦
      let c : p.count ≡ 32 = let z = ltb_false→le p.count 32 e in omega (arith, z, w.count) in
      rw e (full (p.index + 32 - p.count) p.count c (omega (arith, c, w.index)))
]
  where
    full :
        (s n : ℕ)
        → n ≡ 32
        → s % 32 ≡ p.index
        → around (set p.buffer p.index v) ((p.index + 1) % 32 + 32 - n) n
          ≡ newest (around p.buffer s n ++ (v ∷ []))
    full s zero z e = absurd (omega (arith, z))
    full s (suc n) z e =
        let k = length-around p.buffer (suc s) n in
        let m = length-append (around p.buffer (suc s) n) (v ∷ []) in
        let rest = around p.buffer (suc s) n ++ (v ∷ []) in
        let one : n + 1 ≡ suc n = omega arith in
        ap (around (set p.buffer p.index v) ((p.index + 1) % 32 + 32 - suc n)) (sym one)
        ∙ around_shift (set p.buffer p.index v) ((p.index + 1) % 32 + 32 - suc n) (suc s) (n + 1)
            (omega (arith, z, e))
        ∙ set_last p.buffer (suc s) n p.index v w.slots w.index (omega (arith, z))
            (omega (arith, z, e))
        ∙ sym (newest_few rest (omega (arith, z, k, m)))
        ∙ sym (newest_more (get_or p.buffer (s % 32) 0) rest (omega (arith, z, k, m)))

newest-newest :
    (xs ys : List ℕ)
    → length xs ≤ rwnx_radar_pulse_max + 1
    → newest (newest xs ++ ys) ≡ newest (xs ++ ys)
newest-newest [] ys l = ap (λ r. newest (r ++ ys)) (newest_few [] (omega arith))
newest-newest (x ∷ xs) ys l = elim (Bool-cases (ltb (length xs) 32)) [
  | inl e ↦
      ap (λ r. newest (r ++ ys))
        (newest_few (x ∷ xs) (let z = ltb→lt (length xs) 32 e in omega (arith, z)))
  | inr e ↦
      let z = ltb_false→le (length xs) 32 e in
      ap (λ r. newest (r ++ ys)) (newest_more x xs z ∙ newest_few xs (omega (arith, l)))
      ∙ sym (newest_more x (xs ++ ys) (omega (arith, z, length-append xs ys)))
]

-- What the copy of a ring without faults holds, after the pulses of any messages: the last 32 of those
-- that it held before and the new ones, in the order that they came.
pub copy-push_pulses :
    (p : RwnxRadarPulses) (vs : List ℕ)
    → IsValid p
    → copy_pulses (push_pulses p vs) ≡ newest (copy_pulses p ++ vs)
unfolding push_pulses contents
copy-push_pulses p [] w =
    let k = length-around p.buffer (p.index + 32 - p.count) p.count in
    let c = copy-contents p w in
    sym (newest_few (copy_pulses p) (omega (arith, ap length c, k, w.count)))
    ∙ ap newest (sym (append-nil (copy_pulses p)))
copy-push_pulses p (v ∷ vs) w =
    let q = push_pulse p v in
    let k = length-around p.buffer (p.index + 32 - p.count) p.count in
    let c = copy-contents p w in
    let one =
      copy-contents q (push-IsValid p v w)
      ∙ push-contents p v w
      ∙ ap (λ r. newest (r ++ (v ∷ []))) (sym c) in
    copy-push_pulses q vs (push-IsValid p v w)
    ∙ ap (λ r. newest (r ++ vs)) one
    ∙ newest-newest (copy_pulses p ++ (v ∷ [])) vs
        (omega (arith, length-append (copy_pulses p) (v ∷ []), ap length c, k, w.count))
    ∙ ap newest (append_assoc (copy_pulses p) (v ∷ []) vs)
