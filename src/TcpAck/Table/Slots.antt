-- ===== src/TcpAck/Table/Slots.antt =====
-- The table of flows as slots under an index: how many are busy, what matching, expiry and
-- allocation do to them.
use aic8800_linux_driver.Common.{
  ℕ, zero, suc, ◌+◌, ◌≤◌, ◌<◌, ◌≡◌, refl, Bool, true, false, ◌&&◌, Option, none, some, List, [],
  ◌∷◌, if◌then◌else◌, length, get_or, set, arith, ◌⊎◌, inl, inr, Bool-cases,
}
use aic8800_linux_driver.TcpAck.{Clock, TcpAckMsg, TcpAckInfo}
use aic8800_linux_driver.TcpAck.Table.{flow_eq, tcp_ack_match_from, is_old, expire_from, first_idle}

abbrev pub no_msg : TcpAckMsg
no_msg = record { source = 0; dest = 0; saddr = 0; daddr = 0; seq = 0; win = 0 }

-- what a read outside the table is taken for
abbrev pub idle_slot : TcpAckInfo
idle_slot = record {
  ack_info_num = 0;
  busy = false;
  drop_cnt = 0;
  psh_flag = false;
  psh_seq = 0;
  win_scale = 0;
  last_time = 0;
  timeout = 0;
  timer = none;
  msgbuf = none;
  in_send_msg = none;
  ack_msg = no_msg;
}

abbrev pub slot : List TcpAckInfo → ℕ → TcpAckInfo
slot xs i = get_or xs i idle_slot

abbrev pub one_if : Bool → ℕ
one_if b = if b then 1 else 0

abbrev pub count_busy : List TcpAckInfo → ℕ
count_busy [] = 0
count_busy (x ∷ xs) = one_if x.busy + count_busy xs

pub count_busy-le : (xs : List TcpAckInfo) → count_busy xs ≤ length xs
count_busy-le [] = omega arith
count_busy-le (x ∷ xs) = ground (arith, count_busy-le xs)

pub count_busy-set :
    (xs : List TcpAckInfo) (i : ℕ) (v : TcpAckInfo)
    → i < length xs
    → count_busy (set xs i v) + one_if (slot xs i).busy ≡ count_busy xs + one_if v.busy
count_busy-set [] i v h = absurd (omega arith)
count_busy-set (x ∷ xs) zero v h = omega arith
count_busy-set (x ∷ xs) (suc i) v h = omega (arith, count_busy-set xs i v (omega arith))

-- A slot that is not busy is missing from the count.
pub count_busy-lt :
    (xs : List TcpAckInfo) (i : ℕ)
    → i < length xs
    → (slot xs i).busy ≡ false
    → count_busy xs < length xs
count_busy-lt [] i h e = absurd (omega arith)
count_busy-lt (x ∷ xs) zero h e = rw e (omega (arith, count_busy-le xs))
count_busy-lt (x ∷ xs) (suc i) h e = ground (arith, count_busy-lt xs i (omega arith) e)

-- `i` is the index of an idle slot of `xs`, whose first slot has index `k`.
abbrev pub IdleAt : ℕ → List TcpAckInfo → ℕ → Type 0
IdleAt k xs i = (j : ℕ) × (i ≡ k + j) × (j < length xs) × ((slot xs j).busy ≡ false)

IdleAt-cons :
    (k : ℕ) (x : TcpAckInfo) (xs : List TcpAckInfo) (i : ℕ)
    → IdleAt (k + 1) xs i
    → IdleAt k (x ∷ xs) i
IdleAt-cons k x xs i (j, e, l, b) = (suc j, omega arith, omega arith, b)

pub first_idle_lem :
    (k : ℕ) (xs : List TcpAckInfo) (i : ℕ) → first_idle k xs ≡ some i → IdleAt k xs i
unfolding first_idle
first_idle_lem k [] i e = cc
first_idle_lem k (x ∷ xs) i e = elim (Bool-cases x.busy) [
  | inl b ↦ IdleAt-cons k x xs i (first_idle_lem (k + 1) xs i (rw b at e))
  | inr b ↦ (0, ground arith, omega arith, b)
]

pub first_idle-none :
    (k : ℕ) (xs : List TcpAckInfo) → first_idle k xs ≡ none → count_busy xs ≡ length xs
unfolding first_idle
first_idle-none k [] e = refl
first_idle-none k (x ∷ xs) e = ground (arith, first_idle-none (k + 1) xs)

-- `i` is the index of a busy slot of the flow of `msg`.
abbrev pub MatchAt : ℕ → List TcpAckInfo → TcpAckMsg → ℕ → Type 0
MatchAt k xs msg i =
    (j : ℕ) × (i ≡ k + j)
    × (j < length xs)
    × ((slot xs j).busy ≡ true)
    × (flow_eq (slot xs j).ack_msg msg ≡ true)

MatchAt-cons :
    (k : ℕ) (x : TcpAckInfo) (xs : List TcpAckInfo) (msg : TcpAckMsg) (i : ℕ)
    → MatchAt (k + 1) xs msg i
    → MatchAt k (x ∷ xs) msg i
MatchAt-cons k x xs msg i (j, e, l, b, f) = (suc j, omega arith, omega arith, b, f)

&&_split : (a b : Bool) → a && b ≡ true → (a ≡ true) × (b ≡ true)
&&_split true b e = (refl, e)
&&_split false b e = cc

pub match_from_lem :
    (k : ℕ) (xs : List TcpAckInfo) (msg : TcpAckMsg) (i : ℕ)
    → tcp_ack_match_from k xs msg ≡ some i
    → MatchAt k xs msg i
unfolding tcp_ack_match_from
match_from_lem k [] msg i e = cc
match_from_lem k (x ∷ xs) msg i e = elim (Bool-cases (x.busy && flow_eq x.ack_msg msg)) [
  | inl b ↦
      let bf = &&_split x.busy (flow_eq x.ack_msg msg) b in
      (0, ground arith, omega arith, bf.0, bf.1)
  | inr b ↦ MatchAt-cons k x xs msg i (match_from_lem (k + 1) xs msg i (rw b at e))
]

pub match_from-none :
    (k : ℕ) (xs : List TcpAckInfo) (msg : TcpAckMsg) (j : ℕ)
    → tcp_ack_match_from k xs msg ≡ none
    → (slot xs j).busy ≡ true
    → flow_eq (slot xs j).ack_msg msg ≡ false
unfolding tcp_ack_match_from
match_from-none k [] msg j e b = cc
match_from-none k (x ∷ xs) msg zero e b = ground arith
match_from-none k (x ∷ xs) msg (suc j) e b = elim (Bool-cases (x.busy && flow_eq x.ack_msg msg)) [
  | inl h ↦ absurd (ground arith)
  | inr h ↦ match_from-none (k + 1) xs msg j (rw h at e) b
]

abbrev pub expire : Clock → TcpAckInfo → TcpAckInfo
expire k x = if is_old k x then record x { busy = false } else x

module _ (k : Clock) (f : Option ℕ) (n : ℕ) where
  abbrev pub expired : ℕ → List TcpAckInfo → List TcpAckInfo
  expired i xs = (expire_from k i xs f n).0

  pub length-expire_from : (i : ℕ) (xs : List TcpAckInfo) → length (expired i xs) ≡ length xs
  unfolding expire_from
  length-expire_from i [] = refl
  length-expire_from i (x ∷ xs) = ground (arith, length-expire_from (i + 1) xs)

  pub slot-expire_from :
      (i : ℕ) (xs : List TcpAckInfo) (j : ℕ) → slot (expired i xs) j ≡ expire k (slot xs j)
  unfolding expire_from
  slot-expire_from i [] j = refl
  slot-expire_from i (x ∷ xs) zero = ground arith
  slot-expire_from i (x ∷ xs) (suc j) = ground (arith, slot-expire_from (i + 1) xs j)

  -- the number of busy slots falls as `max_num` does
  pub count-expire_from :
      (i : ℕ) (xs : List TcpAckInfo)
      → count_busy xs ≤ n
      → ((expire_from k i xs f n).2 + count_busy xs ≡ n + count_busy (expired i xs))
  unfolding expire_from
  count-expire_from i [] h = omega arith
  count-expire_from i (x ∷ xs) h = ground (arith, count-expire_from (i + 1) xs)

  pub free-expire_from :
      (i : ℕ) (xs : List TcpAckInfo) (r : ℕ)
      → (expire_from k i xs f n).1 ≡ some r
      → (f ≡ some r) ⊎ IdleAt i (expired i xs) r
  unfolding expire_from
  free-expire_from i [] r e = inl e
  free-expire_from i (x ∷ xs) r e = elim (Bool-cases (is_old k x)) [
    | inl o ↦ rw (o, expired) (inr (0, ground arith, omega arith, refl))
    | inr o ↦ elim (free-expire_from (i + 1) xs r (rw o at e)) [
      | inl g ↦ inl g
      | inr g ↦ rw (o, expired) (inr (IdleAt-cons i x (expired (i + 1) xs) r g))
    ]
  ]
