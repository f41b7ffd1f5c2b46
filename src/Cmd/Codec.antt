-- ===== src/Cmd/Codec.antt =====
-- The frame of aicwf_set_cmd_tx, read back as the firmware reads it.
use aic8800_linux_driver.Common.{
  ℕ, zero, suc, ◌+◌, ◌*◌, ◌/◌, ◌%◌, ◌≤◌, ◌<◌, ◌≡◌, refl, true, some, List, [], ◌∷◌, length, get_or,
  u16_mod, arith,
}
use aic8800_linux_driver.Cmd.{LmacMsg, aicwf_set_cmd_tx}

abbrev pub le16 : ℕ → ℕ → ℕ
le16 lo hi = lo + 256 * hi

abbrev pub drop : ℕ → List ℕ → List ℕ
drop zero xs = xs
drop (suc n) [] = []
drop (suc n) (x ∷ xs) = drop n xs

-- The 16-bit little-endian number at an offset.
abbrev pub at16 : List ℕ → ℕ → ℕ
at16 b i = le16 (get_or b i 0) (get_or b (i + 1) 0)

pub record Decoded (m : LmacMsg) (b : List ℕ) : Type 0 where
  pub size : length b ≡ 16 + length m.param
  pub frame_len : at16 b 0 + 4 ≡ length b
  pub kind : get_or b 2 0 ≡ 17
  pub id : at16 b 8 ≡ m.id
  pub dest_id : at16 b 10 ≡ m.dest_id
  pub src_id : at16 b 12 ≡ m.src_id
  pub param_len : at16 b 14 ≡ length m.param
  pub param : drop 16 b ≡ m.param

pub put_u16-le16 : (x : ℕ) → x < u16_mod → x % 256 + 256 * (x / 256 % 256) ≡ x
put_u16-le16 x h = omega arith

-- A message with fields of 16 bits and a parameter of at most 1520 bytes, for which the command
-- buffer has room, is sent when the device is up, as a frame from which every field can be read back:
-- the length of the frame but its first word in twelve bits, the type, and after a dummy word the three
-- identifiers and the length of the parameter in little-endian order, then the parameter.
pub aicwf_set_cmd_tx-Decoded :
    (m : LmacMsg)
    → m.id < u16_mod
    → m.dest_id < u16_mod
    → m.src_id < u16_mod
    → length m.param ≤ 1520
    → (b : List ℕ) × (aicwf_set_cmd_tx true m ≡ some b) × Decoded m b
unfolding aicwf_set_cmd_tx
aicwf_set_cmd_tx-Decoded m h1 h2 h3 h4 = (
  _,
  refl,
  record {
    size = omega arith;
    frame_len = omega arith;
    kind = refl;
    id = put_u16-le16 m.id h1;
    dest_id = put_u16-le16 m.dest_id h2;
    src_id = put_u16-le16 m.src_id h3;
    param_len = put_u16-le16 (length m.param) (omega arith);
    param = refl;
  },
)
