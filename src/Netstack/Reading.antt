-- ===== src/Netstack/Reading.antt =====
-- The packets that the read loop of desktop/internal/netstack/engine.go hands to the stack.
use toppa.Base.{
  ℕ, ◌/◌, ◌≡◌, ◌≢◌, refl, Bool, true, false, Option, none, some, List, [], ◌∷◌, ◌++◌, arith,
}
use toppa.Base.Tests.{if◌then◌else◌}
use toppa.Base.Bytes.{Bytes}
use toppa.Netstack.Link.{Protocol, ipv4, ipv6, inject}
use toppa.Netstack.Engine.{protocol_number, ReadTurn, injected, read_turn, read_loop}

-- The packets that are read before the loop is stopped or a read fails.
abbrev pub packets_read : List ReadTurn → List Bytes
packets_read [] = []
packets_read (t ∷ ts) =
    let later = packets_read ts in
    if t.stopped then [] else elim t.packet [ none ↦ [] | some packet ↦ packet ∷ later ]

-- What is delivered for the packets that are read: a packet whose first byte has 4 in its upper half whole under IPv4, one
-- with 6 there whole under IPv6, and nothing for an empty packet or one of another version.
pub data Delivers : List Bytes → List (Protocol × Bytes) → Type 0 where
  nothing : Delivers [] []
  of_ipv4 :
      (b : ℕ) (bs : Bytes) (ps : List Bytes) (out : List (Protocol × Bytes))
      → b / 16 ≡ 4
      → Delivers ps out
      → Delivers ((b ∷ bs) ∷ ps) ((ipv4, b ∷ bs) ∷ out)
  of_ipv6 :
      (b : ℕ) (bs : Bytes) (ps : List Bytes) (out : List (Protocol × Bytes))
      → b / 16 ≡ 6
      → Delivers ps out
      → Delivers ((b ∷ bs) ∷ ps) ((ipv6, b ∷ bs) ∷ out)
  of_another :
      (b : ℕ) (bs : Bytes) (ps : List Bytes) (out : List (Protocol × Bytes))
      → b / 16 ≢ 4
      → b / 16 ≢ 6
      → Delivers ps out
      → Delivers ((b ∷ bs) ∷ ps) out
  of_no_byte :
      (ps : List Bytes) (out : List (Protocol × Bytes)) → Delivers ps out → Delivers ([] ∷ ps) out

-- The three answers of `protocolNumber`.
abbrev Version : ℕ → Option Protocol → Type 0
Version b none = (b / 16 ≢ 4) × (b / 16 ≢ 6)
Version b (some ipv4) = b / 16 ≡ 4
Version b (some ipv6) = b / 16 ≡ 6

protocol_number-Version : (b : ℕ) (o : Option Protocol) → protocol_number b ≡ o → Version b o
unfolding protocol_number
protocol_number-Version b none h =
    (λ e. absurd (ground (arith, h, e)), λ e. absurd (ground (arith, h, e)))
protocol_number-Version b (some ipv4) h = ground (arith, h)
protocol_number-Version b (some ipv6) h = ground (arith, h)

injected-Delivers :
    (packet : Bytes) (ps : List Bytes) (out : List (Protocol × Bytes))
    → Delivers ps out
    → Delivers (packet ∷ ps) (injected true packet ++ out)
unfolding injected inject
injected-Delivers [] ps out h = of_no_byte ps out h
injected-Delivers (b ∷ bs) ps out h = of_protocol (protocol_number b) refl
  where
    of_protocol :
        (o : Option Protocol)
        → protocol_number b ≡ o
        → Delivers ((b ∷ bs) ∷ ps) (
            (elim o as (λ x. List (Protocol × Bytes)) [
              | none ↦ []
              | some proto ↦ inject true proto (b ∷ bs)
            ])
            ++ out)
    of_protocol none e =
        let (not4, not6) = protocol_number-Version b none e in of_another b bs ps out not4 not6 h
    of_protocol (some ipv4) e = of_ipv4 b bs ps out (protocol_number-Version b (some ipv4) e) h
    of_protocol (some ipv6) e = of_ipv6 b bs ps out (protocol_number-Version b (some ipv6) e) h

read_turn-Delivers :
    (o : Option Bytes) (ps : List Bytes) (out : List (Protocol × Bytes))
    → Delivers ps out
    → Delivers
        (elim o as (λ x. List Bytes) [ none ↦ [] | some packet ↦ packet ∷ ps ])
        (read_turn true o out)
unfolding read_turn
read_turn-Delivers none ps out h = nothing
read_turn-Delivers (some packet) ps out h = injected-Delivers packet ps out h

-- With a dispatcher attached, the loop hands each packet that is read before it is stopped or a read fails to the stack, once, whole and in
-- order: under IPv4 or IPv6 by the 4 or 6 in the upper half of its first byte. Packets of no byte or of another
-- version are passed over, and nothing else is handed on.
pub read_loop-Delivers : (ts : List ReadTurn) → Delivers (packets_read ts) (read_loop true ts)
unfolding read_loop
read_loop-Delivers [] = nothing
read_loop-Delivers (t ∷ ts) = by_stop (read_loop-Delivers ts) t.stopped
  where
    by_stop :
        Delivers (packets_read ts) (read_loop true ts)
        → (b : Bool)
        → Delivers
            (if b then [] else elim t.packet as (λ x. List Bytes) [
              | none ↦ []
              | some packet ↦ packet ∷ packets_read ts
            ])
            (if b then [] else read_turn true t.packet (read_loop true ts))
    by_stop h true = nothing
    by_stop h false = read_turn-Delivers t.packet (packets_read ts) (read_loop true ts) h
