-- ===== src/Netstack/Engine.antt =====
-- desktop/internal/netstack/engine.go: the dispatch of flows, and the loop that reads the adapter.
use toppa.Base.{
  ℕ, ◌/◌, ◌%◌, ◌^◌, Bool, true, false, not, ◌&&◌, Option, none, some, List, [], ◌∷◌, ◌++◌,
}
use toppa.Base.Tests.{◌==◌, if◌then◌else◌}
use toppa.Base.Lists.{take}
use toppa.Base.Bytes.{Bytes}
use toppa.Base.Results.{Result, ok, err}
use toppa.Netstack.Link.{Protocol, ipv4, ipv6, inject}
use toppa.Resolver.Tcp.{Upstream, Error}

abbrev pub dns_port : ℕ
dns_port = 53

-- `protocolNumber`; `firstByte >> 4` is a division.
unfoldable pub protocol_number : ℕ → Option Protocol
protocol_number first_byte =
    let version = first_byte / 16 in
    if version == 4 then some ipv4 else if version == 6 then some ipv6 else none

-- One turn of `readLoop`: whether the engine is stopped, and what `Read` of the adapter returns, none where it fails.
pub record ReadTurn : Type 0 where
  pub stopped : Bool
  pub packet : Option Bytes

-- What one packet comes to; an empty read is passed over.
unfoldable pub injected : Bool → Bytes → List (Protocol × Bytes)
unfolding protocol_number inject
injected attached [] = []
injected attached (b ∷ bs) = elim (protocol_number b) [
  | none ↦ []
  | some proto ↦ inject attached proto (b ∷ bs)
]

unfoldable pub read_turn : Bool → Option Bytes → List (Protocol × Bytes) → List (Protocol × Bytes)
unfolding injected
read_turn attached none later = []
read_turn attached (some packet) later = injected attached packet ++ later

-- `readLoop`, with the packets that it delivers to the stack.
unfoldable pub read_loop : Bool → List ReadTurn → List (Protocol × Bytes)
unfolding read_turn
read_loop attached [] = []
read_loop attached (t ∷ ts) =
    let later = read_loop attached ts in if t.stopped then [] else read_turn attached t.packet later

-- What becomes of a TCP flow: a reset, nothing, an answer by the resolver, or a dial and the copying both ways.
pub data TcpAction : Type 0 where
  reset drop_ answer_dns : TcpAction
  relay : Bytes → ℕ → TcpAction

-- `handleTCP`: whether the endpoint is created, the address that its connection calls remote if it is one of TCP, the
-- local port of the flow, and whether there is a resolver.
unfoldable pub handle_tcp_flow : Bool → Option Bytes → ℕ → Bool → TcpAction
handle_tcp_flow created none port dns = if created then drop_ else reset
handle_tcp_flow created (some ip) port dns =
    if not created then reset else if port == dns_port && dns then answer_dns else relay ip port

abbrev pub udp_buffer : ℕ
udp_buffer = 4096

unfoldable pub replied : Result Error Bytes → Option Bytes
replied (ok response) = some response
replied (err e) = none

unfoldable pub resolved : Upstream → Option Bytes → Option Bytes
unfolding replied
resolved upstream none = none
resolved upstream (some datagram) = replied (upstream (take udp_buffer datagram))

-- `handleUDP`: whether the packet counts as handled, and the reply that is sent; the resolver, if there is one, and the
-- first datagram of the flow, if it can be read.
unfoldable pub handle_udp_flow : Bool → ℕ → Option Upstream → Option Bytes → Bool × Option Bytes
unfolding resolved
handle_udp_flow created port none datagram = (created, none)
handle_udp_flow created port (some upstream) datagram =
    if not created
    then (false, none)
    else if not (port % 2 ^ 16 == dns_port)
    then (true, none)
    else (true, resolved upstream datagram)
