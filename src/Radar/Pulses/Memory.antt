-- ===== src/Radar/Pulses/Memory.antt =====
-- Whether there is memory for a pulse.
use aic8800_linux_driver.Common.{
  ℕ, ◌<◌, ◌≡◌, refl, sym, ◌∙◌, ◌⊎◌, inl, inr, Bool, true, false, List, [], ◌∷◌, arith, ◌==◌,
  Bool-cases, false≢true,
}
use aic8800_linux_driver.Radar.{Pools, kmalloc_one, pool_get_pulse_elem}

-- The coming call of kmalloc succeeds.
abbrev pub Succeeds : List Bool → Type 0
Succeeds [] = ⊥
Succeeds (b ∷ rest) = b ≡ true

-- An element of the pool, or what kmalloc gives.
abbrev pub HasMemory : Pools → Type 0
HasMemory m = (0 < m.pulse_pool) ⊎ Succeeds m.kmalloc

positive : (n : ℕ) → (n == 0) ≡ false → 0 < n
positive n e = ground arith

is_zero : (n : ℕ) → (n == 0) ≡ true → ¬ (0 < n)
is_zero n e l = ground arith

succeeds :
    (m : Pools) (ks : List Bool) → (kmalloc_one (record m { kmalloc = ks })).0 ≡ true → Succeeds ks
succeeds m [] e = absurd (false≢true e)
succeeds m (b ∷ rest) e = e

fails :
    (m : Pools) (ks : List Bool)
    → (kmalloc_one (record m { kmalloc = ks })).0 ≡ false
    → ¬ Succeeds ks
fails m [] e s = s
fails m (b ∷ rest) e s = absurd (false≢true (sym e ∙ s))

pub memory_given : (m : Pools) → (pool_get_pulse_elem m).0 ≡ true → HasMemory m
unfolding pool_get_pulse_elem
memory_given m = elim (Bool-cases (m.pulse_pool == 0)) [
  | inl e ↦ rw e (λ z. inr (succeeds m m.kmalloc z))
  | inr e ↦ rw e (λ z. inl (positive m.pulse_pool e))
]

refused :
    (m : Pools)
    → (pool_get_pulse_elem m).0 ≡ false
    → (¬ (0 < m.pulse_pool)) × (¬ Succeeds m.kmalloc)
unfolding pool_get_pulse_elem
refused m = elim (Bool-cases (m.pulse_pool == 0)) [
  | inl e ↦ rw e (λ z. (is_zero m.pulse_pool e, fails m m.kmalloc z))
  | inr e ↦ rw e (λ z. absurd (false≢true (sym z)))
]

pub memory_refused : (m : Pools) → (pool_get_pulse_elem m).0 ≡ false → ¬ HasMemory m
memory_refused m e h = elim h [ inl l ↦ (refused m e).0 l | inr s ↦ (refused m e).1 s ]

-- The same memory, where kmalloc may have been called.
pub record SamePools (m k : Pools) : Type 0 where
  pub pulse_pool : k.pulse_pool ≡ m.pulse_pool
  pub pseq_pool : k.pseq_pool ≡ m.pseq_pool
  pub references : k.references ≡ m.references
  pub stale_dur : k.stale_dur ≡ m.stale_dur

kmalloc_one-SamePools :
    (m : Pools) (ks : List Bool) → m.kmalloc ≡ ks → SamePools m (kmalloc_one m).1
kmalloc_one-SamePools m [] e =
    rw e (record { pulse_pool = refl; pseq_pool = refl; references = refl; stale_dur = refl })
kmalloc_one-SamePools m (b ∷ rest) e =
    rw e (record { pulse_pool = refl; pseq_pool = refl; references = refl; stale_dur = refl })

pub refused-SamePools :
    (m : Pools) → (pool_get_pulse_elem m).0 ≡ false → SamePools m (pool_get_pulse_elem m).1
unfolding pool_get_pulse_elem
refused-SamePools m = elim (Bool-cases (m.pulse_pool == 0)) [
  | inl e ↦ rw e (λ z. kmalloc_one-SamePools m m.kmalloc refl)
  | inr e ↦ rw e (λ z. absurd (false≢true (sym z)))
]
