-- ===== src/Radar/Detector/Find.antt =====
-- The search for the detector of a frequency.
use aic8800_linux_driver.Common.{
  ℕ, suc, ◌+◌, ◌<◌, ◌≤◌, ◌≡◌, refl, sym, ◌∙◌, ◌⊎◌, inl, inr, Bool, true, false, ◌&&◌, ◌||◌, Option,
  none, some, List, [], ◌∷◌, length, arith, ltb, ◌==◌, if◌then◌else◌, none≢some, some_inj, ap,
}
use aic8800_linux_driver.Radar.{PriDetector}
use aic8800_linux_driver.Radar.Detector.{find_detector}

-- One of the detectors is of the frequency.
abbrev pub Known : ℕ → List PriDetector → Type 0
Known freq [] = ⊥
Known freq (d ∷ rest) = (d.freq ≡ freq) ⊎ Known freq rest

taken : (b : Bool) (c n : ℕ) → (true || b) && ltb 0 c ≡ false → (true && c == 0) ≡ true
taken b c n e = ground arith

kept : (a : Bool) (c i : ℕ) (cur : Option ℕ) → (if a then some i else cur) ≡ none → a ≡ false
kept true c i cur e = absurd (none≢some (sym e))
kept false c i cur e = refl

unchanged : (a : Bool) (i : ℕ) (cur : Option ℕ) → (if a then some i else cur) ≡ none → cur ≡ none
unchanged true i cur e = absurd (none≢some (sym e))
unchanged false i cur e = e

not_found : (b : Bool) (i : ℕ) (o : Option ℕ) → (if b then some i else o) ≡ none → b ≡ false
not_found true i o e = absurd (none≢some (sym e))
not_found false i o e = refl

not_same :
    (f freq c : ℕ) (near : Bool)
    → (f == freq || near) && ltb 0 c ≡ false
    → f == freq && c == 0 ≡ false
    → ¬ (f ≡ freq)
not_same f freq c near a b e = ground arith

-- The search gives nothing only if there is no detector of the frequency, and no current one.
pub find_none :
    (freq : ℕ) (ds : List PriDetector) (i : ℕ) (cur : Option ℕ)
    → find_detector freq ds i cur ≡ none
    → (cur ≡ none) × (¬ Known freq ds)
unfolding find_detector
find_none freq [] i cur e = (e, λ k. absurd k)
find_none freq (d ∷ rest) i cur e =
    let same = d.freq == freq in
    let near = d.freq == freq + 2 || d.freq + 2 == freq in
    let next = if same && d.count == 0 then some i else cur in
    let later = find_detector freq rest (suc i) next in
    let b = not_found ((same || near) && ltb 0 d.count) i later e in
    let (c, n) =
      find_none freq rest (suc i) next (sym (ap (λ x. if x then some i else later) b) ∙ e) in
    let a = kept (same && d.count == 0) d.count i cur c in
    (
      unchanged (same && d.count == 0) i cur c,
      λ k. elim k [ inl h ↦ not_same d.freq freq d.count near b a h | inr h ↦ n h ],
    )

-- The result is the current one, or the index of a detector.
pub find_some :
    (freq : ℕ) (ds : List PriDetector) (i j : ℕ) (cur : Option ℕ)
    → find_detector freq ds i cur ≡ some j
    → (cur ≡ some j) ⊎ ((i ≤ j) × (j < i + length ds))
unfolding find_detector
find_some freq [] i j cur e = inl e
find_some freq (d ∷ rest) i j cur e =
    let same = d.freq == freq in
    let near = d.freq == freq + 2 || d.freq + 2 == freq in
    let next = if same && d.count == 0 then some i else cur in
    let later = find_detector freq rest (suc i) next in
    chosen ((same || near) && ltb 0 d.count) (same && d.count == 0) later e
      (find_some freq rest (suc i) j next)
  where
    here : (n : ℕ) → some i ≡ some j → (i ≤ j) × (j < i + suc n)
    here n h = let k = some_inj h in (omega (arith, k), omega (arith, k))

    chosen :
        (b a : Bool) (later : Option ℕ)
        → (if b then some i else later) ≡ some j
        → (later ≡ some j
            → ((if a then some i else cur) ≡ some j) ⊎ ((suc i ≤ j) × (j < suc i + length rest)))
        → (cur ≡ some j) ⊎ ((i ≤ j) × (j < i + suc (length rest)))
    chosen true a later h f = inr (here (length rest) h)
    chosen false true later h f = elim (f h) [
      | inl g ↦ inr (here (length rest) g)
      | inr g ↦ inr (omega (arith, g.0), omega (arith, g.1))
    ]
    chosen false false later h f = elim (f h) [
      | inl g ↦ inl g
      | inr g ↦ inr (omega (arith, g.0), omega (arith, g.1))
    ]
