-- ===== src/Obfuscation/Reach.antt =====
-- How much padding desktop/internal/obfuscation can send.
use native.Mathlib.Nat.{mod-lt, mod-le}
use toppa.Base.{ℕ, ◌%◌, ◌<◌, ◌≡◌, refl, false, Option, none, some, List, [], ◌∷◌, arith}
use toppa.Base.Tests.{◌==◌, if_split}
use toppa.Base.Lists.{length, All}
use toppa.Base.Bytes.{Bytes}
use toppa.Obfuscation.Padding.{settings_for, random_padding, Tick, inject_loop, start}

-- A payload shorter than both bounds, and never empty.
abbrev pub Short : ℕ → Option Bytes → Type 0
Short most none = Unit
Short most (some b) = (0 < length b) × ((length b < 256) × (length b < most))

-- What the random source gives: a byte, and as many bytes as it is asked for.
pub record Draws (t : Tick) : Type 0 where
  pub is_byte : (b : ℕ) → t.size_byte ≡ some b → b < 256
  pub fills : (n : ℕ) (b : Bytes) → t.random n ≡ some b → length b ≡ n

drawn-Short :
    (most n : ℕ) (o : Option Bytes)
    → 0 < n
    → n < 256
    → n < most
    → ((b : Bytes) → o ≡ some b → length b ≡ n)
    → Short most o
drawn-Short most n none z h m f = tt
drawn-Short most n (some b) z h m f =
    let e = f b refl in (omega (arith, e), (omega (arith, e), omega (arith, e)))

positive_rest : (s most : ℕ) → (s % most == 0) ≡ false → 0 < s % most
positive_rest s most e = ground (arith, e)

rest_below : (s most : ℕ) → (most == 0) ≡ false → s % most < most
rest_below s most e = mod-lt s (ground (arith, e))

rest_small : (s most : ℕ) → s < 256 → s % most < 256
rest_small s most h = omega (arith, mod-le s most)

random_padding-Short :
    (most : ℕ) (s : Option ℕ) (random : ℕ → Option Bytes)
    → ((b : ℕ) → s ≡ some b → b < 256)
    → ((n : ℕ) (b : Bytes) → random n ≡ some b → length b ≡ n)
    → Short most (random_padding most s random)
unfolding random_padding
random_padding-Short most none random h f = tt
random_padding-Short most (some s) random h f =
    if_split (Short most) (most == 0) (λ _. tt)
      (λ m.
        if_split (Short most) (s % most == 0) (λ _. tt)
          (λ e.
            drawn-Short most (s % most) (random (s % most)) (positive_rest s most e)
              (rest_small s most (h s refl)) (rest_below s most m) (f (s % most))))

inject_loop-Short :
    (most : ℕ) (ts : List Tick) → All Draws ts → All (Short most) (inject_loop most ts)
unfolding inject_loop
inject_loop-Short most [] h = tt
inject_loop-Short most (t ∷ ts) (d, h) =
    if_split (All (Short most)) t.stopped (λ _. tt)
      (λ _. (
        random_padding-Short most t.size_byte t.random d.is_byte d.fills,
        if_split (All (Short most)) t.sent (λ _. inject_loop-Short most ts h) (λ _. tt),
      ))

-- Where the random source gives bytes and as many as it is asked for, every payload that the injector sends, in any
-- profile, is nil or has at least one byte, fewer than the profile's bound, and fewer than 256.
pub start-Short :
    (profile : Bytes) (ts : List Tick)
    → All Draws ts
    → All (Short (settings_for profile).padding_max_bytes) (start (settings_for profile) ts)
unfolding start
start-Short profile ts h =
    if_split (All (Short (settings_for profile).padding_max_bytes))
      ((settings_for profile).padding_interval == 0) (λ _. tt)
      (λ _. inject_loop-Short (settings_for profile).padding_max_bytes ts h)
