-- ===== src/Relay/Sanitize/Holding.antt =====
-- What `SanitizedConn.Write` holds back.
use toppa.Base.{
  ℕ, ◌<◌, ◌≡◌, refl, sym, ap, Bool, true, false, ◌&&◌, Option, none, some, List, [], ◌∷◌, ◌++◌,
  append_assoc, append-nil, subst, inl, inr, arith,
}
use toppa.Base.Tests.{lt→ltb, Bool-cases, ==_refl, ◌==◌, if◌then◌else◌}
use toppa.Base.Lists.{length, length-append}
use toppa.Base.Bytes.{Bytes, IoError, Writer}
use toppa.Relay.Sanitize.{
  SanitizedConn, max_head_hold, crlf, has_prefix, head_end, further, SanitizeConfig, flush,
  sanitized_write,
}

-- A run of writes, and whether each one reported all of its bytes and no error.
unfoldable pub all_taken : Bytes → SanitizedConn × ℕ × Option IoError → Bool
all_taken b (c, n, none) = n == length b
all_taken b (c, n, some e) = false

unfoldable pub write_each : SanitizedConn → List Bytes → SanitizedConn × Bool
unfolding all_taken sanitized_write
write_each c [] = (c, true)
write_each c (b ∷ bs) =
    let rest = write_each (sanitized_write c b).0 bs in
    (rest.0, all_taken b (sanitized_write c b) && rest.1)

abbrev pub concat : List Bytes → Bytes
concat [] = []
concat (b ∷ bs) = b ++ concat bs

has_prefix-append : (p s t : Bytes) → has_prefix p s ≡ true → has_prefix p (s ++ t) ≡ true
unfolding has_prefix
has_prefix-append [] s t h = refl
has_prefix-append (p ∷ ps) [] t h = absurd cc
has_prefix-append (p ∷ ps) (x ∷ s) t h = ground (arith, h, has_prefix-append ps s t)

head_end-none :
    (b : Bool) (r : Option ℕ) → (if b then some 0 else further r) ≡ none → (b ≡ false) × (r ≡ none)
unfolding further
head_end-none true r h = absurd cc
head_end-none false none h = (refl, refl)
head_end-none false (some n) h = absurd cc

not_prefix : (p s t : Bytes) → has_prefix p (s ++ t) ≡ false → has_prefix p s ≡ false
not_prefix p s t h = elim (Bool-cases (has_prefix p s)) [
  | inl starts ↦ absurd (ground (arith, h, has_prefix-append p s t starts))
  | inr differs ↦ differs
]

-- What has no head end has no beginning with one.
head_end-append : (s t : Bytes) → head_end (s ++ t) ≡ none → head_end s ≡ none
unfolding head_end
head_end-append [] t h = refl
head_end-append (x ∷ s) t h =
    let (before, behind) =
      head_end-none (has_prefix (crlf ++ crlf) (x ∷ (s ++ t))) (head_end (s ++ t)) h in
    rw (not_prefix (crlf ++ crlf) (x ∷ s) t before, head_end-append s t behind) refl

sanitized_write-holds :
    (c : SanitizedConn) (b : Bytes)
    → c.done ≡ false
    → head_end (c.buf ++ b) ≡ none
    → length (c.buf ++ b) < max_head_hold
    → sanitized_write c b ≡ (record c { buf = c.buf ++ b }, length b, none)
unfolding sanitized_write flush
sanitized_write-holds c b d e h = rw (d, e, lt→ltb _ _ h) refl

write_each-holds :
    (c : SanitizedConn) (bs : List Bytes)
    → c.done ≡ false
    → head_end (c.buf ++ concat bs) ≡ none
    → length (c.buf ++ concat bs) < max_head_hold
    → write_each c bs ≡ (record c { buf = c.buf ++ concat bs }, true)
unfolding write_each all_taken
write_each-holds c [] d e h = rw (append-nil c.buf) refl
write_each-holds c (b ∷ bs) d e h =
    let apart = append_assoc c.buf b (concat bs) in
    let e' = subst (λ t. head_end t ≡ none) (sym apart) e in
    let h' = subst (λ t. length t < max_head_hold) (sym apart) h in
    let one =
      sanitized_write-holds c b d (head_end-append (c.buf ++ b) (concat bs) e')
        (omega (arith, h', length-append (c.buf ++ b) (concat bs))) in
    let rest = write_each-holds (record c { buf = c.buf ++ b }) bs d e' h' in
    rw (one, rest, ==_refl (length b), apart) refl

-- Bytes that hold no blank line and are fewer than 16 KiB in all, such as the first flight of a TLS
-- client, are never sent, in however many writes they come: each write reports success, and the
-- connection below has seen nothing.
pub unfinished_head_is_held :
    (conn : Writer) (cfg : SanitizeConfig) (bs : List Bytes)
    → head_end (concat bs) ≡ none
    → length (concat bs) < max_head_hold
    → let c = write_each (record { conn = conn; cfg = cfg; buf = []; done = false }) bs in
      (c.0.conn ≡ conn) × (c.0.buf ≡ concat bs) × (c.1 ≡ true)
unfinished_head_is_held conn cfg bs e h =
    let all =
      write_each-holds (record { conn = conn; cfg = cfg; buf = []; done = false }) bs refl e h in
    (ap (λ r. r.0.conn) all, ap (λ r. r.0.buf) all, ap (λ r. r.1) all)
