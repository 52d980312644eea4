-- ===== src/Obfuscation/Examples.antt =====
-- The theorem on the padding at two ticks of the paranoid profile.
use toppa.Base.{ℕ, zero, suc, ◌≡◌, refl, sym, ap, ◌∙◌, true, false, some, [], ◌∷◌, arith}
use toppa.Base.Lists.{length, All}
use toppa.Base.Bytes.{Bytes, codes}
use toppa.Base.Results.{some_eq}
use toppa.Obfuscation.Padding.{settings_for, Tick, start}
use toppa.Obfuscation.Reach.{Short, Draws, start-Short}

abbrev zeros : ℕ → Bytes
zeros zero = []
zeros (suc n) = 0 ∷ zeros n

length-zeros : (n : ℕ) → length (zeros n) ≡ n
length-zeros zero = refl
length-zeros (suc n) = ap suc (length-zeros n)

abbrev tick : Tick
tick = record { stopped = false; size_byte = some 200; random = λ n. some (zeros n); sent = true }

tick-Draws : Draws tick
tick-Draws = record {
  is_byte = λ b e. rw (sym (some_eq e)) (omega arith);
  fills = λ n b e. ap length (sym (some_eq e)) ∙ length-zeros n;
}

start-Short_example :
    All
      (Short (settings_for (codes "paranoid")).padding_max_bytes)
      (start (settings_for (codes "paranoid")) (tick ∷ tick ∷ []))
start-Short_example =
    start-Short (codes "paranoid") (tick ∷ tick ∷ []) (tick-Draws, (tick-Draws, tt))
