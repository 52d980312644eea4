-- ===== src/Base/Ints.antt =====
-- Go's `int`, where the code tests it for negative values.
use Prim.Native.Nat.{ℕ, ◌≤◌}
use mathlib.Core.Path.{◌≡◌, refl}
use mathlib.Core.Bool.{Bool, true, false, ◌||◌}
use native.Mathlib.Omega.{arith}
use toppa.Base.Tests.{ltb}

pub data ℤ : Type 0 where
  pos negsuc : ℕ → ℤ

abbrev pub ltz : ℤ → ℤ → Bool
ltz (pos m) (pos n) = ltb m n
ltz (pos m) (negsuc n) = false
ltz (negsuc m) (pos n) = true
ltz (negsuc m) (negsuc n) = ltb n m

-- `v < lo || v > hi`
abbrev pub outside : ℕ → ℕ → ℤ → Bool
outside lo hi v = ltz v (pos lo) || ltz (pos hi) v

-- The integer is one of the naturals from `lo` to `hi`.
pub record Within (lo hi : ℕ) (v : ℤ) : Type 0 where
  pub value : ℕ
  pub is : v ≡ pos value
  pub low : lo ≤ value
  pub high : value ≤ hi

pub outside-Within : (lo hi : ℕ) (v : ℤ) → outside lo hi v ≡ false → Within lo hi v
outside-Within lo hi (pos n) h = record {
  value = n;
  is = refl;
  low = ground (arith, h);
  high = ground (arith, h);
}
outside-Within lo hi (negsuc n) h = absurd cc

pub Within-outside : (lo hi : ℕ) (v : ℤ) → Within lo hi v → outside lo hi v ≡ false
Within-outside lo hi v w = rw w.is (ground (arith, w.low, w.high))
