-- ===== src/Base/Texts.antt =====
-- Strings as byte strings: comparison, the functions of `strings` that the program calls, and `%d`.
use Prim.Native.Nat.{ℕ, zero, suc, ◌+◌, ◌/◌, ◌%◌}
use mathlib.Core.Path.{◌≡◌, refl, sym, ap, ◌∙◌}
use mathlib.Core.Bool.{Bool, true, false, ◌&&◌, ◌||◌}
use mathlib.Core.List.{List, [], ◌∷◌, ◌++◌, append-nil, append_assoc}
use native.Mathlib.Omega.{arith}
use toppa.Base.Tests.{ltb, leb, ◌==◌, if◌then◌else◌}
use toppa.Base.Lists.{is_empty, All}
use toppa.Base.Bytes.{Bytes}
use toppa.Base.Ints.{ℤ, pos, negsuc}

-- `==` on strings.
unfoldable pub same_text : Bytes → Bytes → Bool
same_text [] [] = true
same_text [] (y ∷ b) = false
same_text (x ∷ a) [] = false
same_text (x ∷ a) (y ∷ b) = x == y && same_text a b

pub same_text_eq : (a b : Bytes) → same_text a b ≡ true → a ≡ b
unfolding same_text
same_text_eq [] [] h = refl
same_text_eq [] (y ∷ b) h = absurd cc
same_text_eq (x ∷ a) [] h = absurd cc
same_text_eq (x ∷ a) (y ∷ b) h = ground (arith, h, same_text_eq a b)

pub same_text_refl : (a : Bytes) → same_text a a ≡ true
unfolding same_text
same_text_refl [] = refl
same_text_refl (x ∷ a) = ground (arith, same_text_refl a)

-- `unicode.IsSpace` on ASCII.
abbrev pub is_blank : ℕ → Bool
is_blank c = c == 32 || (leb 9 c && leb c 13)

-- A word that has been read, if there is one, and the words behind it.
abbrev pub close_word : Bytes → List Bytes → List Bytes
close_word [] ws = ws
close_word (c ∷ w) ws = (c ∷ w) ∷ ws

unfoldable pub fields_from : Bytes → Bytes → List Bytes
fields_from w [] = close_word w []
fields_from w (c ∷ s) = elim (is_blank c) [
  | true ↦ close_word w (fields_from [] s)
  | false ↦ fields_from (w ++ c ∷ []) s
]

-- `strings.Fields`
unfoldable pub fields : Bytes → List Bytes
unfolding fields_from
fields = fields_from []

-- `strings.Join(ws, " ")`
unfoldable pub joined_by_blank : List Bytes → Bytes
joined_by_blank [] = []
joined_by_blank (w ∷ []) = w
joined_by_blank (w ∷ v ∷ ws) = w ++ 32 ∷ joined_by_blank (v ∷ ws)

unfoldable pub digits_from : ℕ → ℕ → Bytes → Bytes
digits_from zero n acc = acc
digits_from (suc fuel) n acc =
    let more = digits_from fuel (n / 10) ((48 + n % 10) ∷ acc) in
    if ltb n 10 then (48 + n) ∷ acc else more

-- `%d` of an integer; as many rounds as the number suffice.
unfoldable pub decimal : ℤ → Bytes
unfolding digits_from
decimal (pos n) = digits_from (suc n) n []
decimal (negsuc n) = 45 ∷ digits_from (suc (suc n)) (suc n) []

-- A text with no blank in it, which is not empty.
abbrev pub IsWord : Bytes → Type 0
IsWord w = (is_empty w ≡ false) × All (λ c. is_blank c ≡ false) w

fields_from-word :
    (w s : Bytes) → All (λ c. is_blank c ≡ false) s → fields_from w s ≡ close_word (w ++ s) []
unfolding fields_from
fields_from-word w [] h = ap (λ t. close_word t []) (sym (append-nil w))
fields_from-word w (c ∷ s) (plain, h) =
    rw (plain, fields_from)
      (fields_from-word (w ++ c ∷ []) s h ∙ ap (λ t. close_word t []) (append_assoc w (c ∷ []) s))

-- A word is its only field.
pub fields-word : (w : Bytes) → IsWord w → fields w ≡ w ∷ []
unfolding fields
fields-word [] (some_, h) = absurd cc
fields-word (c ∷ w) (some_, h) = fields_from-word [] (c ∷ w) h
