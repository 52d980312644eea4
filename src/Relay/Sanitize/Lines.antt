-- ===== src/Relay/Sanitize/Lines.antt =====
-- `SanitizeRequestHead` and the line ends of a head.
use toppa.Base.{
  ℕ, ◌≡◌, refl, ap, ◌∙◌, Bool, true, false, ◌&&◌, ◌||◌, inl, inr, List, [], ◌∷◌, ◌++◌, arith,
}
use toppa.Base.Tests.{◌==◌, if◌then◌else◌, Bool-cases}
use toppa.Base.Bytes.{Bytes, codes}
use toppa.Relay.Sanitize.{
  SanitizeConfig, http_methods, crlf, any_prefix, has_prefix, to_lower, forwarded_headers,
  user_agent_of, cons_first, split_lines, rewrite_line, rewrite_lines, sanitize_request_head,
}

-- The lines, each with a line end behind it.
abbrev pub joined : List Bytes → Bytes
joined [] = []
joined (l ∷ ls) = (l ++ crlf) ++ joined ls

joined-cons_first :
    (x : ℕ) (y : ℕ) (s : Bytes) (ls : List Bytes)
    → joined ls ≡ (y ∷ s) ++ crlf
    → joined (cons_first x ls) ≡ (x ∷ y ∷ s) ++ crlf
unfolding cons_first
joined-cons_first x y s [] e = absurd cc
joined-cons_first x y s (l ∷ ls) e = ap (λ t. x ∷ t) e

split_lines-end :
    (x y : ℕ) (s : Bytes)
    → (x == 13 && y == 10) ≡ true
    → split_lines (x ∷ y ∷ s) ≡ [] ∷ split_lines s
unfolding split_lines
split_lines-end x y s h = rw (split_lines, h) refl

split_lines-within :
    (x y : ℕ) (s : Bytes)
    → (x == 13 && y == 10) ≡ false
    → split_lines (x ∷ y ∷ s) ≡ cons_first x (split_lines (y ∷ s))
unfolding split_lines
split_lines-within x y s h = rw (split_lines, h) refl

line_end :
    (x y : ℕ) (s : Bytes)
    → (x == 13 && y == 10) ≡ true
    → 13 ∷ 10 ∷ (s ++ crlf) ≡ (x ∷ y ∷ s) ++ crlf
line_end x y s h = ground (arith, h)

joined-split_lines : (s : Bytes) → joined (split_lines s) ≡ s ++ crlf
unfolding split_lines
joined-split_lines [] = refl
joined-split_lines (x ∷ []) = refl
joined-split_lines (x ∷ y ∷ s) = elim (Bool-cases (x == 13 && y == 10)) [
  | inl h ↦
      ap joined (split_lines-end x y s h)
      ∙ ap (λ t. 13 ∷ 10 ∷ t) (joined-split_lines s)
      ∙ line_end x y s h
  | inr h ↦
      ap joined (split_lines-within x y s h)
      ∙ joined-cons_first x y s (split_lines (y ∷ s)) (joined-split_lines (y ∷ s))
]

abbrev choice : Bool → Bool → Bytes → Bytes → Bytes × Bool
choice a b u l = if a then (u, true) else if b then ([], true) else (l, false)

choice-kept : (a b : Bool) (u l : Bytes) → (choice a b u l).1 ≡ false → (choice a b u l).0 ≡ l
choice-kept true b u l h = absurd cc
choice-kept false true u l h = absurd cc
choice-kept false false u l h = refl

rewrite_line-unchanged :
    (cfg : SanitizeConfig) (l : Bytes)
    → (rewrite_line cfg l).1 ≡ false
    → (rewrite_line cfg l).0 ≡ l ++ crlf
unfolding rewrite_line
rewrite_line-unchanged cfg l h =
    choice-kept (has_prefix (codes "user-agent:") (to_lower l))
      (cfg.strip_forwarded && any_prefix forwarded_headers (to_lower l))
      (codes "User-Agent: " ++ user_agent_of cfg ++ crlf) (l ++ crlf) h

both : (a b : Bool) → (a || b) ≡ false → (a ≡ false) × (b ≡ false)
both true b h = absurd cc
both false b h = (refl, h)

rewrite_lines-unchanged :
    (cfg : SanitizeConfig) (ls : List Bytes)
    → (rewrite_lines cfg ls).1 ≡ false
    → (rewrite_lines cfg ls).0 ≡ joined ls
unfolding rewrite_lines
rewrite_lines-unchanged cfg [] h = refl
rewrite_lines-unchanged cfg (l ∷ ls) h =
    let (this, rest) = both _ _ h in
    rw (rewrite_line-unchanged cfg l this, rewrite_lines-unchanged cfg ls rest) refl

-- A head that starts with an HTTP method and in which no line is replaced or stripped still comes
-- out changed: it has one more line end behind it.
pub unchanged_head_grows :
    (head : Bytes) (cfg : SanitizeConfig)
    → any_prefix http_methods head ≡ true
    → (sanitize_request_head head cfg).1 ≡ false
    → (sanitize_request_head head cfg).0 ≡ head ++ crlf
unfolding sanitize_request_head
unchanged_head_grows head cfg http h =
    let e : (rewrite_lines cfg (split_lines head)).1 ≡ false = ground (arith, http, h) in
    rw http (rewrite_lines-unchanged cfg (split_lines head) e ∙ joined-split_lines head)
