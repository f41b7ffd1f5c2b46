-- ===== src/TcpAck/Packet/Options.antt =====
-- The loop of is_drop_tcp_ack over the options of a TCP header, against the options as data.
use native.Mathlib.Nat.{add-zero}
use aic8800_linux_driver.Common.{
  ℕ, zero, suc, ◌+◌, ◌-◌, ◌*◌, ◌/◌, ◌^◌, ◌≤◌, ◌<◌, ◌≡◌, ◌≢◌, refl, ap, ◌∙◌, ◌&&◌, none, some, List,
  [], ◌∷◌, ltb, le→ltb_false, ◌==◌, if◌then◌else◌, arith,
}
use aic8800_linux_driver.TcpAck.Packet.{
  Memory, OptLoop, opt_step, opt_loop, is_drop_tcp_ack, tcpopt_window, tcpopt_timestamp,
}

-- An option of a TCP header other than end-of-list: its kind, its size and its third byte.
pub data TcpOpt : Type 0 where
  nop : TcpOpt
  opt : ℕ → ℕ → ℕ → TcpOpt

-- `n` bytes of memory at `p` hold exactly the given options, none of them end-of-list.
abbrev pub Options : Memory → ℕ → ℕ → List TcpOpt → Type 0
Options m p n [] = n ≡ 0
Options m p n (nop ∷ os) = (m p ≡ 1) × (0 < n) × Options m (p + 1) (n - 1) os
Options m p n (opt kind size value ∷ os) =
    (m p ≡ kind)
    × (1 < kind)
    × (m (p + 1) ≡ size)
    × (1 < size)
    × (size ≤ n)
    × (m (p + 2) ≡ value)
    × Options m (p + size) (n - size) os

-- What one option does to the verdict and to the window factor.
abbrev pub drop_with : ℕ → ℕ → ℕ
drop_with kind d = if kind == tcpopt_timestamp then d else if kind == tcpopt_window then d else 2

abbrev pub scale_with : ℕ → ℕ → ℕ → ℕ
scale_with kind value w = if (kind == tcpopt_window) && ltb value 15 then 2 ^ value else w

drop_with-ne-zero : (kind d : ℕ) → d ≢ 0 → drop_with kind d ≢ 0
drop_with-ne-zero kind d h = ground arith

-- The verdict: 2 if an option is neither a timestamp nor a window scale.
abbrev pub drop_of : ℕ → List TcpOpt → ℕ
drop_of d [] = d
drop_of d (nop ∷ os) = drop_of d os
drop_of d (opt kind _ _ ∷ os) = drop_of (drop_with kind d) os

-- The window factor: that of the last window scale below 15.
abbrev pub scale_of : ℕ → List TcpOpt → ℕ
scale_of w [] = w
scale_of w (nop ∷ os) = scale_of w os
scale_of w (opt kind _ value ∷ os) = scale_of (scale_with kind value w) os

abbrev at : ℕ → ℕ → ℕ → ℕ → OptLoop
at p n d w = record { ptr = p; len = n; drop = d; win_scale = w }

step_nop : (m : Memory) (p n d w : ℕ) → m p ≡ 1 → opt_step m (at p n d w) ≡ at (p + 1) (n - 1) d w
unfolding opt_step
step_nop m p n d w e = ground arith

step_opt :
    (m : Memory) (p n d w kind size value : ℕ)
    → m p ≡ kind
    → 1 < kind
    → m (p + 1) ≡ size
    → 1 < size
    → size ≤ n
    → m (p + 2) ≡ value
    → opt_step m (at p n d w)
      ≡ at
          (p + size)
          (n - size)
          (if kind == tcpopt_timestamp then d else if kind == tcpopt_window then d else 2)
          (if (kind == tcpopt_window) && ltb value 15 then 2 ^ value else w)
unfolding opt_step
step_opt m p n d w kind size value e1 e2 e3 e4 e5 e6 = ground arith

step_eol : (m : Memory) (p n d w : ℕ) → m p ≡ 0 → opt_step m (at p n d w) ≡ at (p + 1) n d w
unfolding opt_step
step_eol m p n d w e = ground arith

loop_step :
    (m : Memory) (fuel p n d w : ℕ)
    → 0 < n
    → d ≢ 0
    → opt_loop m (suc fuel) (at p n d w) ≡ opt_loop m fuel (opt_step m (at p n d w))
unfolding opt_loop
loop_step m fuel p n d w h k = ground arith

opt_loop_done :
    (m : Memory) (fuel p d w : ℕ) → opt_loop m (suc fuel) (at p 0 d w) ≡ some (at p 0 d w)
unfolding opt_loop
opt_loop_done m fuel p d w = refl

same_end : (q r d w : ℕ) → q ≡ r → some (at q 0 d w) ≡ some (at r 0 d w)
same_end q r d w e = ap (λ x. some (at x 0 d w)) e

opt_loop_lem :
    (m : Memory) (fuel p n d w : ℕ) (os : List TcpOpt)
    → Options m p n os
    → n < fuel
    → d ≢ 0
    → opt_loop m fuel (at p n d w) ≡ some (at (p + n) 0 (drop_of d os) (scale_of w os))
opt_loop_lem m zero p n d w os h k z = elim k [ ]
opt_loop_lem m (suc fuel) p n d w [] h k z =
    let e : p ≡ p + n = omega arith in rw (h, opt_loop_done, ← h, ← e)
opt_loop_lem m (suc fuel) p n d w (nop ∷ os) h k z =
    rw (loop_step m fuel p n d w h.1 z, step_nop m p n d w h.0)
      (opt_loop_lem m fuel (p + 1) (n - 1) d w os h.2 (omega arith) z
        ∙ same_end _ _ _ _ (omega arith))
opt_loop_lem m (suc fuel) p n d w (opt kind size value ∷ os) h k z =
    rw
      (
        loop_step m fuel p n d w (omega arith) z,
        step_opt m p n d w kind size value h.0 h.1 h.2 h.3 h.4 h.5,
      )
      (opt_loop_lem m fuel (p + size) (n - size) (drop_with kind d) (scale_with kind value w) os h.6
          (omega arith) (drop_with-ne-zero kind d z)
        ∙ same_end _ _ _ _ (omega arith))

-- A header whose option bytes are well formed, with no end-of-list option, on a segment without
-- payload: with more fuel than option bytes the loop of is_drop_tcp_ack ends, the verdict is 2 if an
-- option is neither a timestamp nor a window scale and else 1, and the window factor is that of the
-- last window scale below 15.
pub is_drop_tcp_ack-Options :
    (m : Memory) (fuel tcp tot w n : ℕ) (os : List TcpOpt)
    → m (tcp + 12) / 16 * 4 ≡ 20 + n
    → tot ≤ 20 + n
    → Options m (tcp + 20) n os
    → n < fuel
    → is_drop_tcp_ack m fuel tcp tot w ≡ some (drop_of 1 os, scale_of w os)
unfolding is_drop_tcp_ack
is_drop_tcp_ack-Options m fuel tcp tot w n os e h o k =
    let e' : m (tcp + 12) / 16 * 4 - 20 ≡ n = omega arith in
    rw (
      le→ltb_false (m (tcp + 12) / 16 * 4) tot (omega arith),
      e',
      opt_loop_lem m fuel (tcp + 20) n 1 w os o k (λ z. cc),
    )

opt_loop-eol :
    (m : Memory) (fuel p n d w : ℕ)
    → 0 < n
    → d ≢ 0
    → ((i : ℕ) → i < fuel → m (p + i) ≡ 0)
    → opt_loop m fuel (at p n d w) ≡ none
opt_loop-eol m zero p n d w h k z = unfold opt_loop in refl
opt_loop-eol m (suc fuel) p n d w h k z =
    rw (loop_step m fuel p n d w h k, step_eol m p n d w (rw add-zero at (z 0 (omega arith))))
      (opt_loop-eol m fuel (p + 1) n d w h k
        (λ i lt. let e : p + 1 + i ≡ p + (i + 1) = omega arith in rw e (z (i + 1) (omega arith))))

-- A header that has options, the first of them end-of-list, followed by zero bytes: after as many
-- rounds as there are zero bytes is_drop_tcp_ack is still reading, however long the header is.
pub is_drop_tcp_ack-eol :
    (m : Memory) (fuel tcp tot w : ℕ)
    → 20 < m (tcp + 12) / 16 * 4
    → tot ≤ m (tcp + 12) / 16 * 4
    → ((i : ℕ) → i < fuel → m (tcp + 20 + i) ≡ 0)
    → is_drop_tcp_ack m fuel tcp tot w ≡ none
unfolding is_drop_tcp_ack
is_drop_tcp_ack-eol m fuel tcp tot w h k z = rw (
  le→ltb_false (m (tcp + 12) / 16 * 4) tot k,
  opt_loop-eol m fuel (tcp + 20) (m (tcp + 12) / 16 * 4 - 20) 1 w (omega arith) (λ e. cc) z,
)
