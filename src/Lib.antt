-- ===== src/Lib.antt =====
-- A model of the desktop side of toppa: a multiplexed, encrypted link from a PC to a phone that relays
-- its flows, with theorems about it.
--
-- Parts, and how they interact. A transport connection carries a Noise handshake and then encrypted
-- records (desktop/internal/tunnel); over the records runs the TLMP multiplexer, whose frames open, feed
-- and close streams (desktop/internal/mux); the relay dials flows as streams, under a pacing gate and
-- through a sanitizer of plain HTTP (desktop/internal/relay). The journal (desktop/internal/failsafe)
-- lists the mutations of the host so that they can be undone, the route manager
-- (desktop/internal/sysroute) makes these mutations and journals them, the key store
-- (desktop/internal/keys) holds the identity and the pinned peers, the resolver
-- (desktop/internal/resolver) answers DNS, the daemon (desktop/internal/daemon) runs one session after
-- the other out of these parts, and the configuration (desktop/internal/config) feeds them all. The
-- packets of the adapter (desktop/internal/adapter) reach the relay through a TCP/IP stack
-- (desktop/internal/netstack), and PING frames of random size pad the session
-- (desktop/internal/obfuscation). desktop/cmd/toppactl pairs two ends on its own, and
-- desktop/cmd/vectorgen writes the test vectors of the protocol.
--
-- Files.
-- Base and its children: tests, lists, results, byte strings with the readers and writers of `io`,
--   Go's `int`, and facts about all values of a byte by evaluation.
-- Mux/Frame: frame.go. Mux/Target: target.go. Mux/Stream: the methods of stream.go on one stream, and in
--   Mux/Stream/Credit the flow control between the two ends of a stream. Mux/Session: session.go; State
--   holds the record of a session, Calls what its users call, Inbound what frames and ticks do, and
--   Histories every sequence of these.
-- Tunnel/Record: secure.go. Tunnel/Framing and Tunnel/Handshake: handshake.go. Tunnel/Noise and
--   Tunnel/Honest: what both take from the Noise library. Tunnel/Runs and Tunnel/Agreement: two ends that
--   run handshake.go with each other. Channel: frame.go over the connection of secure.go.
-- Failsafe/Journal: journal.go, with lemmas in Failsafe/Marking. Config: config.go. Relay/Sanitize,
--   Relay/Flow and Relay/Dialer: dialer.go and pacing.go, and in Relay/Dialer/Reaching a flow from its
--   dial to the session of the peer.
-- Sysroute/Netsh and Sysroute/Manager: manager.go. Keys/Disk and Keys/Store: store.go. Resolver/Udp,
--   Resolver/Tcp and Resolver/Doh: resolver.go. Daemon, Daemon/Connect, Daemon/Run, Daemon/Parts and
--   Daemon/Doh: daemon.go. Daemon/Link: transport.go. Daemon/Control: the server.go of
--   desktop/internal/api.
-- Adapter/Loopback: loopback.go. Adapter/Wintun: tun_windows.go. Netstack/Link: link.go and reader.go.
--   Netstack/Engine, Netstack/Pump and Netstack/Start: engine.go. Obfuscation/Padding: obfuscation.go.
--   Toppactl/Pairing, Toppactl/Serve, Toppactl/Echo and Toppactl/Ping: the main.go of
--   desktop/cmd/toppactl.
--   Vectorgen/Frames and Vectorgen/Targets: the main.go of desktop/cmd/vectorgen.
-- The files called Examples and AgreementExamples apply the theorems to concrete values.
--
-- Correspondence. A definition has the name of the function it models, in snake case, and the fields
-- and constructors those of the struct or constants. A struct that is shared by pointers, the stream,
-- lies in a store and is named by its address. An operation takes the state and returns the new one with
-- its result; what would block returns an outcome that says so. Bytes are naturals below 256 where a
-- theorem needs it; uint32 and int64 arithmetic keeps its wrap-around. A connection is the bytes that it
-- took and how many more it takes before it breaks.
--
-- The loops of the daemon, of the resolver, of the padding and of the netstack take the list of what
-- each of their turns meets; the theorems hold for every such list.
--
-- Fuel. `write_loop` of Mux/Session/Calls and of Tunnel/Record have as many rounds as bytes, of which each
-- round takes one or more; `read_loop` needs more rounds than bytes of input, and `echo` of
-- Toppactl/Echo more than pieces that it reads.
--
-- Not modelled: the insides of the Wintun driver and of gVisor; the tray window and the entry of the
-- service; of toppactl the flags and the output; and the interleaving of goroutines inside one
-- call, save in the loopback device and in the copying of a flow, since a call runs under its mutex or is
-- taken whole. The ciphers, the Noise state machine, the JSON codecs, the file system, the HTTP client,
-- the commands of the operating system and the drawing of random numbers are parameters.
pub mod Adapter
pub mod Base
pub mod Channel
pub mod Config
pub mod Daemon
pub mod Failsafe
pub mod Keys
pub mod Mux
pub mod Netstack
pub mod Obfuscation
pub mod Relay
pub mod Resolver
pub mod Sysroute
pub mod Toppactl
pub mod Tunnel
pub mod Vectorgen
