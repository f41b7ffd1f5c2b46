-- ===== src/Reord/Window.antt =====
-- Sequence numbers as distances from a base.
use aic8800_linux_driver.Common.{
  ℕ, ◌+◌, ◌-◌, ◌/◌, ◌%◌, ◌≤◌, ◌<◌, ◌≡◌, sym, ◌∙◌, true, false, ltb, ltb→lt, ltb_false→le, ◌==◌,
  arith,
}
use native.Mathlib.Decide.{dec_lt}
use aic8800_linux_driver.Reord.{sn_less}

-- how far the number `s` is ahead of `b`, around the 4096 numbers
abbrev pub off : ℕ → ℕ → ℕ
off b s = (s + 4096 - b) % 4096

pub off-lt : (b s : ℕ) → off b s < 4096
off-lt b s = omega arith

-- SN_LESS compares distances, as long as they are less than half the circle apart.
pub sn_less-off :
    (b x y : ℕ)
    → b < 4096
    → x < 4096
    → y < 4096
    → off b x < off b y + 2048
    → off b y ≤ off b x + 2048
    → sn_less x y ≡ ltb (off b x) (off b y)
unfolding sn_less
sn_less-off b x y hb hx hy h k = elim (dec_lt (off b x) (off b y)) [
  | yes l ↦ let e : (x + 65536 - y) / 2048 % 2 ≡ 1 = omega arith in ground arith
  | no l ↦ let e : (x + 65536 - y) / 2048 % 2 ≡ 0 = omega arith in ground arith
]

pub off-next :
    (b x : ℕ) → b < 4096 → x < 4096 → off b x < 4095 → off b ((x + 1) % 4096) ≡ off b x + 1
off-next b x hb hx h = omega arith

pub off-rebase :
    (b c s : ℕ) → b < 4096 → c < 4096 → s < 4096 → off b c ≤ off b s → off c s ≡ off b s - off b c
off-rebase b c s hb hc hs h = omega arith

pub off-injective : (b x y : ℕ) → b < 4096 → x < 4096 → y < 4096 → off b x ≡ off b y → x ≡ y
off-injective b x y hb hx hy h = omega arith

-- Not before, and not the same number: strictly after.
pub off-lt_of_not_less :
    (b x y : ℕ)
    → b < 4096
    → x < 4096
    → y < 4096
    → off b x < 2048
    → off b y < 2048
    → sn_less x y ≡ false
    → (x == y) ≡ false
    → off b y < off b x
off-lt_of_not_less b x y hb hx hy h k e n =
    ground
      (arith, sn_less-off b x y hb hx hy (omega arith) (omega arith), off-injective b x y hb hx hy)

pub off-lt_of_less :
    (b x y : ℕ)
    → b < 4096
    → x < 4096
    → y < 4096
    → off b x < off b y + 2048
    → off b y ≤ off b x + 2048
    → sn_less x y ≡ true
    → off b x < off b y
off-lt_of_less b x y hb hx hy h k e =
    ltb→lt (off b x) (off b y) (sym (sn_less-off b x y hb hx hy h k) ∙ e)

pub off-le_of_not_less :
    (b x y : ℕ)
    → b < 4096
    → x < 4096
    → y < 4096
    → off b x < off b y + 2048
    → off b y ≤ off b x + 2048
    → sn_less x y ≡ false
    → off b y ≤ off b x
off-le_of_not_less b x y hb hx hy h k e =
    ltb_false→le (off b x) (off b y) (sym (sn_less-off b x y hb hx hy h k) ∙ e)
