-- ===== src/Resolver/Truncation.antt =====
-- The flags of `truncatedResponse` of desktop/internal/resolver/resolver.go.
use toppa.Base.{
  ℕ, ◌+◌, ◌*◌, ◌/◌, ◌%◌, ◌≤◌, ◌<◌, ◌≡◌, refl, sym, ap, subst, ◌∙◌, Bool, true, [], ◌∷◌, arith,
}
use toppa.Base.Tests.{◌==◌, ==_iff}
use toppa.Base.Lists.{length, take}
use toppa.Base.Tables.{all_below, all_below_sound}
use toppa.Base.Bytes.{Bytes, AreBytes, be, put_u16, be-put_u16, slice}
use toppa.Resolver.Udp.{answer_flags, truncated_response}

-- QR and TC set, the opcode and RD of the query, and nothing else.
abbrev pub expected_flags : ℕ → ℕ
expected_flags q = 33280 + q / 2048 % 16 * 2048 + q / 256 % 2 * 256

abbrev agrees : ℕ → ℕ → Bool
agrees a b = answer_flags (a * 256 + b) == expected_flags (a * 256 + b)

table : all_below 256 (λ a. all_below 256 (agrees a)) ≡ true
unfolding all_below answer_flags
table = refl

pub answer_flags_expected :
    (a b : ℕ) → a < 256 → b < 256 → answer_flags (a * 256 + b) ≡ expected_flags (a * 256 + b)
answer_flags_expected a b ha hb =
    let row = all_below_sound 256 (λ a. all_below 256 (agrees a)) a table ha in
    (==_iff (answer_flags (a * 256 + b)) (expected_flags (a * 256 + b))).0
      (all_below_sound 256 (agrees a) b row hb)

-- The flags, told by the bits of the header: QR and TC are set, the opcode and RD are those of the query, and AA, RA,
-- Z and the response code are clear.
pub record FlagsFor (q h : ℕ) : Type 0 where
  qr : h / 32768 ≡ 1
  opcode : h / 2048 % 16 ≡ q / 2048 % 16
  aa : h / 1024 % 2 ≡ 0
  tc : h / 512 % 2 ≡ 1
  rd : h / 256 % 2 ≡ q / 256 % 2
  low : h % 256 ≡ 0

expected_flags-FlagsFor : (q : ℕ) → FlagsFor q (expected_flags q)
expected_flags-FlagsFor q = record {
  qr = omega arith;
  opcode = omega arith;
  aa = omega arith;
  tc = omega arith;
  rd = omega arith;
  low = omega arith;
}

expected_flags-small : (q : ℕ) → expected_flags q < 65536
expected_flags-small q = omega arith

-- An answer that makes a resolver repeat the query over TCP.
pub record Truncates (query answer : Bytes) : Type 0 where
  size : length answer ≡ 12
  id : take 2 answer ≡ take 2 query
  flags : FlagsFor (be (slice 2 4 query)) (be (slice 2 4 answer))
  questions : slice 4 6 answer ≡ slice 4 6 query
  records : slice 6 12 answer ≡ 0 ∷ 0 ∷ 0 ∷ 0 ∷ 0 ∷ 0 ∷ []

bytes_again : (a b : ℕ) → a < 256 → b < 256 → put_u16 (a * 256 + b) ≡ a ∷ b ∷ []
bytes_again a b ha hb = pair (omega arith) (omega arith)
  where
    pair :
        (a * 256 + b) / 256 % 256 ≡ a → (a * 256 + b) % 256 ≡ b → put_u16 (a * 256 + b) ≡ a ∷ b ∷ []
    pair e f = rw (e, f) refl

be_pair : (a b : ℕ) → be (a ∷ b ∷ []) ≡ a * 256 + b
be_pair a b = omega arith

-- The answer to a query of at least twelve bytes has twelve bytes: the identifier of the query, flags that say that the
-- answer is truncated with the query's opcode and RD and no other bit, the query's count of
-- questions, and no records.
pub truncated_response-Truncates :
    (query : Bytes)
    → AreBytes query
    → 12 ≤ length query
    → Truncates query (truncated_response query)
unfolding truncated_response
truncated_response-Truncates [] hb h = absurd (omega arith)
truncated_response-Truncates (a ∷ []) hb h = absurd (omega arith)
truncated_response-Truncates (a ∷ b ∷ []) hb h = absurd (omega arith)
truncated_response-Truncates (a ∷ b ∷ c ∷ []) hb h = absurd (omega arith)
truncated_response-Truncates (a ∷ b ∷ c ∷ d ∷ []) hb h = absurd (omega arith)
truncated_response-Truncates (a ∷ b ∷ c ∷ d ∷ e ∷ []) hb h = absurd (omega arith)
truncated_response-Truncates (a ∷ b ∷ c ∷ d ∷ e ∷ f ∷ rest) (_, (_, (hc, (hd, (he, (hf, _)))))) h =
    record {
      size = refl;
      id = refl;
      flags =
          subst (λ q. FlagsFor q (be (put_u16 (answer_flags q)))) (sym (be_pair c d))
            (subst (FlagsFor (c * 256 + d)) (sym same) (expected_flags-FlagsFor (c * 256 + d)));
      questions = ap put_u16 (be_pair e f) ∙ bytes_again e f he hf;
      records = refl;
    }
  where
    same : be (put_u16 (answer_flags (c * 256 + d))) ≡ expected_flags (c * 256 + d)
    same =
        ap (λ x. be (put_u16 x)) (answer_flags_expected c d hc hd)
        ∙ be-put_u16 (expected_flags (c * 256 + d)) (expected_flags-small (c * 256 + d))
