-- ===== src/Reord/Check.antt =====
-- reord_need_check: where it moves the window for one frame.
use aic8800_linux_driver.Common.{
  ℕ, ◌+◌, ◌-◌, ◌%◌, ◌≤◌, ◌<◌, ◌≡◌, ◌≢◌, ap, ◌∙◌, true, false, ltb, ltb→lt, ltb_false→le, leb, ◌==◌,
  ==_iff, if◌then◌else◌, arith, ◌⊎◌, inl, inr, Bool-cases,
}
use aic8800_linux_driver.Reord.{ReordCtrl, sn_less, reord_need_check}
use aic8800_linux_driver.Reord.Window.{off, sn_less-off}

not_behind : (b s : ℕ) → b < 4096 → s < 4096 → sn_less s b ≡ false → off b s < 2048
unfolding sn_less
not_behind b s hb hs e = ground arith

sn_less_self : (s : ℕ) → sn_less s s ≡ false
unfolding sn_less
sn_less_self s = ground arith

-- The window after the check: it begins at `ind'`, and `hi` bounds the distances from `b` of the
-- frame `s` and of 63 numbers behind the start of the window.
pub record Moved (b s ind' lo hi : ℕ) : Type 0 where
  pub number : ind' < 4096
  pub low : lo ≤ 1
  pub frame_low : lo ≤ off b s
  pub frame_high : off b s < hi
  pub wide : 64 ≤ hi
  pub half : hi ≤ 2048
  pub apart : hi ≤ lo + 2047
  pub start : off b ind' ≤ hi
  pub reach : hi ≤ off b ind' + 64
  pub inside : 0 < off b s → off b s < 64 → ind' ≡ b

abbrev slide : ℕ → ℕ
slide s = if leb 63 s then s - 63 else 4096 - 64 + s + 1

pub Moved-equal : (b : ℕ) → b < 4096 → Moved b b ((b + 1) % 4096) 0 64
Moved-equal b h = omega arith

Moved-inside : (b s : ℕ) → b < 4096 → s < 4096 → s ≢ b → off b s < 64 → Moved b s b 1 64
Moved-inside b s hb hs n l = omega arith

Moved-beyond :
    (b s : ℕ)
    → b < 4096
    → s < 4096
    → 64 ≤ off b s
    → off b s < 2048
    → Moved b s (slide s) 1 (off b s + 1)
Moved-beyond b s hb hs l u = elim (Bool-cases (leb 63 s)) [
  | inl e ↦ let g : 63 ≤ s = ground arith in rw e (omega arith)
  | inr e ↦ let g : s < 63 = ground arith in rw e (omega arith)
]

Moved-eq : (b s : ℕ) → b < 4096 → (s == b) ≡ true → Moved b s ((b + 1) % 4096) 0 64
Moved-eq b s h q = rw ((==_iff s b).0 q) (Moved-equal b h)

ne_of_test : (s b : ℕ) → (s == b) ≡ false → s ≢ b
ne_of_test s b q = ground arith

-- The end of the window of 64 that begins at `b` is 63 ahead.
wend_less :
    (b s w : ℕ)
    → b < 4096
    → s < 4096
    → w ≡ 64
    → off b s < 2048
    → sn_less ((b + w + 4095) % 4096) s ≡ ltb 63 (off b s)
wend_less b s w hb hs hw u =
    let e : off b ((b + w + 4095) % 4096) ≡ 63 = omega arith in
    sn_less-off b ((b + w + 4095) % 4096) s hb (omega arith) hs (omega arith) (omega arith)
    ∙ ap (λ x. ltb x (off b s)) e

module _ (c : ReordCtrl) (s : ℕ) (hw : c.wsize_b ≡ 64) (hs : s < 4096) where
  -- In use: an older frame leaves the window alone, any other moves it.
  pub reord_need_check-used :
      c.ind_sn < 4096
      → ((reord_need_check c s ≡ (true, c)) × (sn_less s c.ind_sn ≡ true))
        ⊎ ((ind' lo hi : ℕ) × (reord_need_check c s ≡ (false, record c { ind_sn = ind' }))
            × Moved c.ind_sn s ind' lo hi)
  unfolding reord_need_check
  reord_need_check-used hi =
      let used : (c.ind_sn == 0xffff) ≡ false = ground arith in
      elim (Bool-cases (sn_less s c.ind_sn)) [
        | inl e ↦ inl (ground arith, e)
        | inr e ↦
            let u = not_behind c.ind_sn s hi hs e in
            let w = wend_less c.ind_sn s c.wsize_b hi hs hw u in
            elim (Bool-cases (s == c.ind_sn)) [
              | inl q ↦ inr ((c.ind_sn + 1) % 4096, 0, 64, ground arith, Moved-eq c.ind_sn s hi q)
              | inr q ↦ elim (Bool-cases (ltb 63 (off c.ind_sn s))) [
                | inl g ↦ inr (
                  slide s,
                  1,
                  off c.ind_sn s + 1,
                  ground arith,
                  Moved-beyond c.ind_sn s hi hs (ltb→lt 63 (off c.ind_sn s) g) u,
                )
                | inr g ↦ inr (
                  c.ind_sn,
                  1,
                  64,
                  ground arith,
                  Moved-inside c.ind_sn s hi hs (ne_of_test s c.ind_sn q)
                      (omega (arith, ltb_false→le 63 (off c.ind_sn s) g)),
                )
              ]
            ]
      ]

  -- Not in use yet: the window begins at the frame.
  pub reord_need_check-first :
      c.ind_sn ≡ 0xffff → reord_need_check c s ≡ (false, record c { ind_sn = (s + 1) % 4096 })
  unfolding reord_need_check
  reord_need_check-first e = ground (arith, sn_less_self s)
