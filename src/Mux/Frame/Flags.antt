-- ===== src/Mux/Frame/Flags.antt =====
-- What `validateFrame` of frame.go accepts, told by the bits of the flag byte.
use toppa.Base.{ℕ, ◌/◌, ◌%◌, ◌^◌, ◌<◌, ◌≡◌, ◌↔◌, refl, Bool, true, false, ◌||◌, arith}
use toppa.Base.Tests.{◌==◌}
use toppa.Base.Lists.{length}
use toppa.Base.Tables.{all_below, all_below_sound}
use toppa.Base.Results.{ok}
use toppa.Mux.Frame.{Frame, has, has_other, validate_frame}

abbrev same : Bool → Bool → Bool
same true b = b
same false true = false
same false false = true

same_eq : (a b : Bool) → same a b ≡ true → a ≡ b
same_eq a b h = ground arith

-- Bit `k` of a byte.
abbrev pub bit : ℕ → ℕ → Bool
bit k x = x / 2 ^ k % 2 == 1

-- The masks of the code read the bits that they stand for; no flag byte has other bits.
pub record Bits (x : ℕ) : Type 0 where
  pub syn : has x 0x01 ≡ bit 0 x
  pub fin : has x 0x02 ≡ bit 1 x
  pub rst : has x 0x04 ≡ bit 2 x
  pub win : has x 0x08 ≡ bit 3 x
  pub dat : has x 0x10 ≡ bit 4 x
  pub goaway : has x 0x80 ≡ bit 7 x
  pub control : has x 0xe0 ≡ (bit 5 x || (bit 6 x || bit 7 x))
  pub none_other : has_other x 0xff ≡ false

on_bytes :
    (p q : ℕ → Bool) → all_below 256 (λ x. same (p x) (q x)) ≡ true → (x : ℕ) → x < 256 → p x ≡ q x
on_bytes p q table x h = same_eq _ _ (all_below_sound 256 (λ x. same (p x) (q x)) x table h)

pub byte-Bits : (x : ℕ) → x < 256 → Bits x
unfolding all_below has has_other
byte-Bits x h = record {
  syn = on_bytes (λ x. has x 0x01) (bit 0) refl x h;
  fin = on_bytes (λ x. has x 0x02) (bit 1) refl x h;
  rst = on_bytes (λ x. has x 0x04) (bit 2) refl x h;
  win = on_bytes (λ x. has x 0x08) (bit 3) refl x h;
  dat = on_bytes (λ x. has x 0x10) (bit 4) refl x h;
  goaway = on_bytes (λ x. has x 0x80) (bit 7) refl x h;
  control = on_bytes (λ x. has x 0xe0) (λ x. bit 5 x || (bit 6 x || bit 7 x)) refl x h;
  none_other = on_bytes (λ x. has_other x 0xff) (λ _. false) refl x h;
}

-- The rules that `validateFrame` enforces, read off the bits: an opening frame carries no data, a control frame names no stream,
-- and the frames with a fixed payload have exactly that many bytes.
pub record IsLegal (f : Frame) : Type 0 where
  pub no_data_on_open : ¬ ((bit 0 f.flags ≡ true) × (bit 4 f.flags ≡ true))
  pub control_on_zero : (bit 5 f.flags || (bit 6 f.flags || bit 7 f.flags)) ≡ true → f.stream_id ≡ 0
  pub win_four : bit 3 f.flags ≡ true → length f.payload ≡ 4
  pub rst_one : bit 2 f.flags ≡ true → length f.payload ≡ 1
  pub goaway_one : bit 7 f.flags ≡ true → length f.payload ≡ 1

validate_frame-IsLegal : (f : Frame) → f.flags < 256 → validate_frame f ≡ ok tt → IsLegal f
unfolding validate_frame
validate_frame-IsLegal f h e =
    let b = byte-Bits f.flags h in
    record {
      no_data_on_open = λ p. ground (arith, b.syn, b.dat);
      control_on_zero = λ p. ground (arith, b.control);
      win_four = λ p. ground (arith, b.win);
      rst_one = λ p. ground (arith, b.rst);
      goaway_one = λ p. ground (arith, b.goaway);
    }

IsLegal-validate_frame : (f : Frame) → f.flags < 256 → IsLegal f → validate_frame f ≡ ok tt
unfolding validate_frame
IsLegal-validate_frame f h l =
    let b = byte-Bits f.flags h in
    rw (b.syn, b.dat, b.control, b.win, b.rst, b.goaway, b.none_other)
      (ground (arith, l.no_data_on_open, l.control_on_zero, l.win_four, l.rst_one, l.goaway_one))

-- On a flag byte, `validateFrame` returns nil exactly on the frames that the bit rules allow.
pub validate_frame-iff-IsLegal :
    (f : Frame) → f.flags < 256 → (validate_frame f ≡ ok tt) ↔ IsLegal f
validate_frame-iff-IsLegal f h = (validate_frame-IsLegal f h, IsLegal-validate_frame f h)
