-- ===== src/Resolver/Udp.antt =====
-- The UDP side of desktop/internal/resolver/resolver.go.
use toppa.Base.{ℕ, Bool, false, bit_and, bit_or, Option, none, some, List, [], ◌∷◌, ◌++◌}
use toppa.Base.Tests.{ltb, if◌then◌else◌}
use toppa.Base.Lists.{length, take}
use toppa.Base.Bytes.{Bytes, be, put_u16, slice}

abbrev pub flag_qr : ℕ
flag_qr = 0x8000

abbrev pub flag_tc : ℕ
flag_tc = 0x0200

-- The flags of the answer to a query with flags `q`.
unfoldable pub answer_flags : ℕ → ℕ
answer_flags q = bit_or (bit_or (bit_and q 0x7900) flag_qr) flag_tc

-- `truncatedResponse`, on a query of at least six bytes.
unfoldable pub truncated_response : Bytes → Bytes
unfolding answer_flags
truncated_response query =
    take 2 query
    ++ put_u16 (answer_flags (be (slice 2 4 query)))
    ++ put_u16 (be (slice 4 6 query))
    ++ 0 ∷ 0 ∷ 0 ∷ 0 ∷ 0 ∷ 0 ∷ []

-- One turn of `ServeUDP`: whether the responder is closed before the read and after it, and the datagram with its
-- sender, or none where the read fails.
pub record UdpTurn : Type 0 where
  pub closed_before : Bool
  pub closed_after : Bool
  pub received : Option (ℕ × Bytes)

abbrev pub udp_buffer : ℕ
udp_buffer = 4096

-- The answers to one datagram, which the buffer cuts.
unfoldable pub answered : Option (ℕ × Bytes) → List (ℕ × Bytes)
unfolding truncated_response
answered none = []
answered (some (client, datagram)) =
    let query = take udp_buffer datagram in
    if ltb (length query) 12 then [] else (client, truncated_response query) ∷ []

-- A failed read ends the loop only where the responder was closed.
unfoldable pub ends_after : UdpTurn → Bool
ends_after t = elim t.received [ none ↦ t.closed_after | some d ↦ false ]

-- `ServeUDP` behind the bind: what is sent to whom. A failing send changes nothing.
unfoldable pub serve_udp : List UdpTurn → List (ℕ × Bytes)
unfolding answered ends_after
serve_udp [] = []
serve_udp (t ∷ ts) =
    let rest = serve_udp ts in
    if t.closed_before then [] else answered t.received ++ (if ends_after t then [] else rest)
