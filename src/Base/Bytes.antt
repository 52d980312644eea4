-- ===== src/Base/Bytes.antt =====
-- Byte strings, the big-endian integers of `encoding/binary`, and the readers and writers of `io`.
use Prim.Native.Nat.{ℕ, ◌+◌, ◌-◌, ◌*◌, ◌/◌, ◌%◌, ◌^◌, ◌<◌}
use Prim.Native.Char.{code}
use Prim.Native.String.{String}
use mathlib.Core.Path.{◌≡◌}
use mathlib.Core.List.{List, [], ◌∷◌, ◌++◌}
use mathlib.Core.Option.{Option, none, some}
use native.Mathlib.Omega.{arith}
use toppa.Base.Tests.{ltb, leb, if◌then◌else◌, ltb_of_le}
use toppa.Base.Lists.{length, take, drop, is_empty, All, length-append, take-append, drop-append}
use toppa.Base.Results.{Result, ok, err}

abbrev pub Bytes : Type 0
Bytes = List ℕ

abbrev pub IsByte : ℕ → Type 0
IsByte b = b < 256

abbrev pub AreBytes : Bytes → Type 0
AreBytes = All IsByte

abbrev pub u32_mod : ℕ
u32_mod = 2 ^ 32

-- The bytes of an ASCII literal.
abbrev pub codes : String → Bytes
codes String.[] = []
codes (String.◌∷◌ c s) = code c ∷ codes s

-- `b[lo:hi]`
abbrev pub slice : ℕ → ℕ → Bytes → Bytes
slice lo hi b = take (hi - lo) (drop lo b)

abbrev pub be_from : ℕ → Bytes → ℕ
be_from acc [] = acc
be_from acc (b ∷ bs) = be_from (acc * 256 + b) bs

-- `binary.BigEndian.Uint16`, `Uint24`, `Uint32` of 2, 3, 4 bytes. (On bytes, `a<<8 | b` is `a*256 + b`.)
abbrev pub be : Bytes → ℕ
be = be_from 0

-- `binary.BigEndian.PutUint16`, a 24-bit length, and `PutUint32`.
abbrev pub put_u16 : ℕ → Bytes
put_u16 v = (v / 256 % 256) ∷ (v % 256) ∷ []

abbrev pub put_u24 : ℕ → Bytes
put_u24 v = (v / 65536 % 256) ∷ (v / 256 % 256) ∷ (v % 256) ∷ []

abbrev pub put_u32 : ℕ → Bytes
put_u32 v = (v / 16777216 % 256) ∷ (v / 65536 % 256) ∷ (v / 256 % 256) ∷ (v % 256) ∷ []

pub be-put_u16 : (v : ℕ) → v < 65536 → be (put_u16 v) ≡ v
be-put_u16 v h = omega arith

pub be-put_u24 : (v : ℕ) → v < 16777216 → be (put_u24 v) ≡ v
be-put_u24 v h = omega arith

pub be-put_u32 : (v : ℕ) → v < u32_mod → be (put_u32 v) ≡ v
be-put_u32 v h = omega arith

pub data IoError : Type 0 where
  eof unexpected_eof broken : IoError

-- A reader is the bytes that it will still yield before its end. `io.ReadFull` of `n` bytes:
-- no byte at all is EOF, some but too few is ErrUnexpectedEOF.
unfoldable pub read_full : ℕ → Bytes → Result IoError (Bytes × Bytes)
read_full n s =
    if ltb (length s) n
    then (if is_empty s then err eof else err unexpected_eof)
    else ok (take n s, drop n s)

pub read_full-append : (xs ys : Bytes) → read_full (length xs) (xs ++ ys) ≡ ok (xs, ys)
unfolding read_full
read_full-append xs ys = rw (
  ltb_of_le (length (xs ++ ys)) (length xs) (omega (arith, length-append xs ys)),
  take-append xs ys,
  drop-append xs ys,
)

-- A writer is what it has sent, and how many bytes it still takes before it breaks.
pub record Writer : Type 0 where
  pub sent : Bytes
  pub room : ℕ

-- A write that does not fit sends what fits and breaks.
unfoldable pub write : Writer → Bytes → Writer × Option IoError
write w p =
    if leb (length p) w.room
    then (record { sent = w.sent ++ p; room = w.room - length p }, none)
    else (record { sent = w.sent ++ take w.room p; room = 0 }, some broken)
