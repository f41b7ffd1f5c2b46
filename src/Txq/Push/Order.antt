-- ===== src/Txq/Push/Order.antt =====
-- The order of the frames of a queue: those to be retried stand in front, in the order in which they
-- came back, and the rest in the order in which they were queued.
use aic8800_linux_driver.Common.{
  ℕ, zero, suc, ◌+◌, ◌-◌, ◌<◌, ◌≡◌, ◌≢◌, refl, sym, ap, ◌∙◌, inl, inr, Bool, true, false, none,
  some, List, [], ◌∷◌, ◌++◌, length, length-append, All, append_assoc, ◌==◌, ==_refl, if◌then◌else◌,
  arith, leb, Bool-cases, append-nil, false≢true,
}
use aic8800_linux_driver.Txq.{Frame, Txq, s8_positive}
use aic8800_linux_driver.Txq.Push.{
  insert_after, enqueue, take, drop, rwnx_txq_get_credits, rwnx_txq_get_skb_to_push, count_push,
}

abbrev pub skb_of : Frame → ℕ
skb_of f = f.skb

-- The buffer is none of these.
abbrev pub Absent : ℕ → List Frame → Type 0
Absent l xs = All (λ x. (x.skb == l) ≡ false) xs

-- `retries` in front of `fresh`: none, or `front` and then `x`, the last frame that was retried.
pub data Ordered (t : Txq) (pending : List Frame) : List Frame → List Frame → Type 0 where
  no_retry :
      (retries fresh : List Frame)
      → retries ≡ []
      → pending ++ t.sk_list ≡ fresh
      → t.nb_retry ≡ 0
      → t.last_retry_skb ≡ none
      → Ordered t pending retries fresh
  retried :
      (retries fresh front : List Frame) (x : Frame)
      → retries ≡ front ++ (x ∷ [])
      → pending ++ t.sk_list ≡ retries ++ fresh
      → t.nb_retry ≡ length retries
      → t.last_retry_skb ≡ some x.skb
      → Absent x.skb front
      → Ordered t pending retries fresh

insert_at :
    (front : List Frame) (x f : Frame) (fresh : List Frame)
    → Absent x.skb front
    → insert_after x.skb f ((front ++ (x ∷ [])) ++ fresh) ≡ (front ++ (x ∷ [])) ++ (f ∷ fresh)
unfolding insert_after
insert_at [] x f fresh a = rw (==_refl x.skb) refl
insert_at (y ∷ front) x f fresh a = rw (a.0) (ap (λ l. y ∷ l) (insert_at front x f fresh a.1))

-- A frame put at the end of the queue comes after all others; a frame that is retried, if its buffer is
-- not among those to be retried, comes after them and before the rest.
pub enqueue-Ordered :
    (t : Txq) (f : Frame) (retries fresh : List Frame)
    → Absent f.skb retries
    → Ordered t [] retries fresh
    → Ordered (enqueue t f false) [] retries (fresh ++ (f ∷ []))
      × Ordered (enqueue t f true) [] (retries ++ (f ∷ [])) fresh
unfolding enqueue
enqueue-Ordered t f retries fresh a (no_retry r s e b n l) = (
  no_retry r (fresh ++ (f ∷ [])) e (ap (λ x. x ++ (f ∷ [])) b) n l,
  retried (r ++ (f ∷ [])) s [] f (ap (λ x. x ++ (f ∷ [])) e) (rw (l) (rw e (ap (λ x. f ∷ x) b)))
      (rw (e) (omega (arith, n))) refl tt,
)
enqueue-Ordered t f retries fresh a (retried r s front x e b n l c) = (
  retried r (s ++ (f ∷ [])) front x e (ap (λ y. y ++ (f ∷ [])) b ∙ append_assoc r s (f ∷ [])) n l c,
  retried (r ++ (f ∷ [])) s r f refl
      (rw (l) (
        ap (insert_after x.skb f) (b ∙ ap (λ y. y ++ s) e)
        ∙ insert_at front x f s c
        ∙ ap (λ y. y ++ (f ∷ s)) (sym e)
        ∙ sym (append_assoc r (f ∷ []) s)))
      (omega (arith, n, length-append r (f ∷ []))) refl a,
)

abbrev pub is_empty : List Frame → Bool
is_empty [] = true
is_empty (x ∷ xs) = false

zero_test : (n m : ℕ) → n ≡ m + 1 → (n == 0) ≡ false
zero_test n m e = ground arith

one_left : (n : ℕ) → n ≡ 1 → (n - 1 == 0) ≡ true
one_left n e = ground arith

more_left : (n m : ℕ) → n ≡ m + 2 → (n - 1 == 0) ≡ false
more_left n m e = ground arith

pushed_last :
    (t : Txq) (pending fresh : List Frame)
    → pending ++ t.sk_list ≡ fresh
    → t.nb_retry ≡ 1
    → Ordered (count_push t) pending [] fresh
unfolding count_push
pushed_last t pending fresh b n =
    let e = zero_test t.nb_retry 0 n in
    let z = one_left t.nb_retry n in
    no_retry [] fresh refl (rw (e) b) (rw (e) (omega (arith, n))) (rw (e, z) refl)

pushed_retry :
    (t : Txq) (pending fresh front : List Frame) (x : Frame)
    → pending ++ t.sk_list ≡ (front ++ (x ∷ [])) ++ fresh
    → t.nb_retry ≡ suc (length (front ++ (x ∷ [])))
    → t.last_retry_skb ≡ some x.skb
    → Absent x.skb front
    → Ordered (count_push t) pending (front ++ (x ∷ [])) fresh
unfolding count_push
pushed_retry t pending fresh front x b n l c =
    let k = length-append front (x ∷ []) in
    let e = zero_test t.nb_retry (length (front ++ (x ∷ []))) (omega (arith, n)) in
    let z = more_left t.nb_retry (length front) (omega (arith, n, k)) in
    retried (front ++ (x ∷ [])) fresh front x refl (rw (e) b) (rw (e) (omega (arith, n)))
      (rw (e, z) l) c

-- Pushing the first frame of a queue takes it from those to be retried, in front of which it stands, or
-- from the rest where there are none to be retried.
pub count_push-Ordered :
    (t : Txq) (f : Frame) (pending retries fresh : List Frame)
    → Ordered t (f ∷ pending) retries fresh
    → Ordered
        (count_push t)
        pending
        (drop 1 retries)
        (if is_empty retries then drop 1 fresh else fresh)
unfolding count_push
count_push-Ordered t f pending retries fresh (no_retry r s e b n l) =
    rw (e) (no_retry [] (drop 1 s) refl (rw (n) (ap (drop 1) b)) (rw (n) refl) (rw (n) l))
count_push-Ordered t f pending retries fresh (retried r s [] x e b n l c) =
    rw (e) (pushed_last t pending s (ap (drop 1) (b ∙ ap (λ y. y ++ s) e)) (n ∙ ap length e))
count_push-Ordered t f pending retries fresh (retried r s (y ∷ front) x e b n l c) = rw (e) (
    pushed_retry t pending s front x (ap (drop 1) (b ∙ ap (λ z. z ++ s) e)) (n ∙ ap length e) l c.1)

take-drop : (n : ℕ) (xs : List Frame) → take n xs ++ drop n xs ≡ xs
take-drop zero xs = refl
take-drop (suc n) [] = refl
take-drop (suc n) (x ∷ xs) = ap (λ l. x ∷ l) (take-drop n xs)

length-drop : (n : ℕ) (xs : List Frame) → length (drop n xs) ≡ length xs - n
length-drop zero xs = omega arith
length-drop (suc n) [] = omega arith
length-drop (suc n) (x ∷ xs) = omega (arith, length-drop n xs)

nonempty : (xs : List Frame) → xs ≢ [] → 0 < length xs
nonempty [] ne = absurd (ne refl)
nonempty (x ∷ xs) ne = omega arith

-- The frames that are pushed and those that stay are the frames of the queue, in order, and with
-- credits fewer stay than there were.
pub get_skb_to_push_split :
    (t : Txq)
    → rwnx_txq_get_credits t ≢ 0
    → t.sk_list ≢ []
    → ((rwnx_txq_get_skb_to_push t).0 ++ (rwnx_txq_get_skb_to_push t).1 ≡ t.sk_list)
      × (length (rwnx_txq_get_skb_to_push t).1 < length t.sk_list)
unfolding rwnx_txq_get_skb_to_push
get_skb_to_push_split t c ne =
    let z = nonempty t.sk_list ne in
    elim (Bool-cases (leb (length t.sk_list) (rwnx_txq_get_credits t))) [
      | inl e ↦ rw e (append-nil t.sk_list, z)
      | inr e ↦ rw e (
        take-drop (rwnx_txq_get_credits t) t.sk_list,
        omega (arith, length-drop (rwnx_txq_get_credits t) t.sk_list, z, c),
      )
    ]

-- Positive credits let at least one frame through.
pub get_credits_positive : (t : Txq) → s8_positive t.credits ≡ true → rwnx_txq_get_credits t ≢ 0
unfolding rwnx_txq_get_credits
get_credits_positive t c = ground arith

not_leb : (n m : ℕ) → leb n m ≡ false → m < n
not_leb n m e = ground arith

no_frames : (xs : List Frame) → 0 < length xs → xs ≢ []
no_frames xs l z = absurd (omega (arith, l, ap length z))

-- A queue that is not done with keeps a frame.
pub get_skb_to_push_more :
    (t : Txq) → (rwnx_txq_get_skb_to_push t).2 ≡ false → (rwnx_txq_get_skb_to_push t).1 ≢ []
unfolding rwnx_txq_get_skb_to_push
get_skb_to_push_more t m z = elim (Bool-cases (leb (length t.sk_list) (rwnx_txq_get_credits t))) [
  | inl e ↦ false≢true (sym (rw (e) at m))
  | inr e ↦
      no_frames (drop (rwnx_txq_get_credits t) t.sk_list)
        (omega (
          arith,
          length-drop (rwnx_txq_get_credits t) t.sk_list,
          not_leb (length t.sk_list) (rwnx_txq_get_credits t) e,
        ))
        (rw (e) at z)
]
