-- ===== src/Mux/Target/RoundTrip.antt =====
-- `AppendTarget` against `ParseTarget` of target.go.
use toppa.Base.{
  ℕ, suc, ◌+◌, ◌-◌, ◌/◌, ◌%◌, ◌≤◌, ◌<◌, ◌≡◌, refl, ◌⊎◌, inl, inr, [], ◌∷◌, ◌++◌, append_assoc,
  arith,
}
use toppa.Base.Lists.{length, length-append, take-append, drop-append}
use toppa.Base.Results.{ok}
use toppa.Base.Bytes.{Bytes, slice}
use toppa.Mux.Target.{Target, IsTarget, append_target, parse_target, be16}

-- The port, and then what follows the block.
abbrev pub port_then : ℕ → Bytes → Bytes
port_then p rest = (p / 256 % 256) ∷ (p % 256) ∷ rest

-- An address with no length of its own: IPv4 and IPv6.
pub raw_block :
    (t : Target) (rest : Bytes)
    → (t.atyp ≡ 1) ⊎ (t.atyp ≡ 4)
    → append_target [] t ++ rest ≡ t.network ∷ t.atyp ∷ (t.address ++ port_then t.port rest)
unfolding append_target
raw_block t rest h = ground (arith, h, append_assoc t.address (port_then t.port []) rest)

pub fqdn_block :
    (t : Target) (rest : Bytes)
    → t.atyp ≡ 3
    → length t.address ≤ 255
    → append_target [] t ++ rest
      ≡ t.network ∷ t.atyp ∷ length t.address ∷ (t.address ++ port_then t.port rest)
unfolding append_target
fqdn_block t rest h k = ground (arith, h, k, append_assoc t.address (port_then t.port []) rest)

-- Slices behind a length byte.
name_slice : (n : ℕ) (a x : Bytes) → length a ≡ n → slice 1 (1 + n) (n ∷ (a ++ x)) ≡ a
name_slice n a x h = let k : 1 + n - 1 ≡ length a = omega (arith, h) in rw k (take-append a x)

port_slice :
    (n p : ℕ) (a rest : Bytes)
    → length a ≡ n
    → p < 65536
    → be16 (slice (1 + n) (3 + n) (n ∷ (a ++ port_then p rest))) ≡ p
port_slice n p a rest h lt =
    let k : 1 + n ≡ suc (length a) = omega (arith, h) in
    let d : (3 + n) - suc (length a) ≡ 2 = omega (arith, h) in
    rw (k, d, drop-append a (port_then p rest)) (omega arith)

module _ (t : Target) (rest : Bytes) (h : IsTarget t) where
  parse_v4 :
      t.atyp ≡ 1
      → length t.address ≡ 4
      → parse_target (t.network ∷ t.atyp ∷ (t.address ++ port_then t.port rest)) ≡ ok t
  unfolding parse_target
  parse_v4 a l =
      let x = port_then t.port rest in
      ground (arith, take-append t.address x, drop-append t.address x, length-append t.address x)

  parse_v6 :
      t.atyp ≡ 4
      → length t.address ≡ 16
      → parse_target (t.network ∷ t.atyp ∷ (t.address ++ port_then t.port rest)) ≡ ok t
  unfolding parse_target
  parse_v6 a l =
      let x = port_then t.port rest in
      ground (arith, take-append t.address x, drop-append t.address x, length-append t.address x)

  parse_fqdn :
      t.atyp ≡ 3
      → 0 < length t.address
      → parse_target (t.network ∷ t.atyp ∷ length t.address ∷ (t.address ++ port_then t.port rest))
        ≡ ok t
  unfolding parse_target
  parse_fqdn a l =
      let x = port_then t.port rest in
      rw
        (
          name_slice (length t.address) t.address x refl,
          port_slice (length t.address) t.port t.address rest refl h.port_u16,
        )
        (ground (arith, length-append t.address x, h.known_network))

-- Parsing the block of a well-formed target gives the target back, whatever follows the block.
pub parse_target-append_target :
    (t : Target) (rest : Bytes) → IsTarget t → parse_target (append_target [] t ++ rest) ≡ ok t
parse_target-append_target t rest h = elim h.sized [
  | inl (a, l) ↦ rw (raw_block t rest (inl a)) (parse_v4 t rest h a l)
  | inr (inl (a, l)) ↦ rw (raw_block t rest (inr a)) (parse_v6 t rest h a l)
  | inr (inr (a, lo, hi)) ↦ rw (fqdn_block t rest a hi) (parse_fqdn t rest h a lo)
]
