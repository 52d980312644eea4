-- ===== src/Relay/Dialer/Reaching.antt =====
-- A flow that `TunnelDialer` (desktop/internal/relay/dialer.go) has dialled, from the caller to the session at the other end of
-- the tunnel.
use toppa.Base.{ℕ, ◌≤◌, ◌<◌, ◌≡◌, ap, ◌∙◌, none, some, [], ◌∷◌, ◌++◌, append_assoc, arith}
use toppa.Base.Lists.{length}
use toppa.Base.Results.{ok, ◌>>=◌}
use toppa.Base.Bytes.{Bytes, u32_mod}
use toppa.Mux.Frame.{read_frame, has, header}
use toppa.Mux.Frame.RoundTrip.{read_frame-encode}
use toppa.Mux.Target.{Target, append_target}
use toppa.Mux.Session.State.{Session, stream}
use toppa.Mux.Session.Calls.{register}
use toppa.Mux.Session.Inbound.{handle_frame}
use toppa.Mux.Session.Peers.{open_stream_replaces}
use toppa.Relay.Dialer.{Dialer, Ip, Conn, dial_tcp}
use toppa.Relay.Dialer.Opening.{
  opening, Opens, IsIp, open_stream-ok, opening-IsWire, opening_valid, target_of-IsTarget,
  block_bytes, dial_tcp-Opens, arrives, AsksFor,
}

-- What a dial at the session `s` has brought about: the session afterwards, the bytes that it sent, and the frame in which the
-- peer's session `p` finds them.
pub record Reached (d' : Dialer) (s p : Session) (ip : Ip) (port : ℕ) (c : Conn) (rest : Bytes)
    (m : ℕ) : Type 0 where
  pub target : Target
  pub s' : Session
  pub bytes : Bytes
  pub asked_for : AsksFor ip port target
  pub kept : d'.session ≡ some s'
  pub in_table : stream s' s.next_id ≡ some c.stream
  pub sent : s'.conn.sent ≡ s.conn.sent ++ bytes
  pub read : read_frame (bytes ++ rest) m ≡ ok (opening s target, rest)
  pub offered : handle_frame p (opening s target) ≡ (
    record (register p s.next_id target) { accept_ch = p.accept_ch ++ length p.objs ∷ [] },
    none,
  )

-- While the next id is below 2^32, a dial of an IPv4 or IPv6 address that succeeds, with or without a pacer, has opened a stream under the session's next id and sent one frame;
-- a peer that reads what was sent, with a payload cap of 20 or more, gets the SYN of a TCP target with the address, of type 1 (IPv4) or 4 (IPv6), and
-- the port modulo 2^16, whatever follows, and a session of the peer that has no stream of that id and room in its accept queue registers a
-- stream of exactly this target and offers it.
pub dialed_flow_reaches :
    (d d' : Dialer) (s p : Session) (ip : Ip) (port : ℕ) (c : Conn) (rest : Bytes) (m : ℕ)
    → d.session ≡ some s
    → IsIp ip
    → s.next_id < u32_mod
    → 20 ≤ m
    → stream p s.next_id ≡ none
    → length p.accept_ch < p.cfg.accept_queue_depth
    → dial_tcp d ip port ≡ (d', ok c)
    → Reached d' s p ip port c rest m
unfolding Opens handle_frame has
dialed_flow_reaches d d' s p ip port c rest m live address id cap free room h =
    let (t, is, asked, good, atyp, net, size, bytes) = target_of-IsTarget ip port address in
    let (s', opens, kept) = dial_tcp-Opens d d' s t ip port c live is h in
    let (block, small) = block_bytes t atyp net size bytes in
    let whole = append_assoc (header (opening s t)) (append_target [] t) rest in
    record {
      target = t;
      s' = s';
      bytes = header (opening s t) ++ append_target [] t;
      asked_for = asked;
      kept = kept;
      in_table = (open_stream_replaces s s' t c.stream opens).1;
      sent = open_stream-ok s s' t c.stream opens;
      read =
          ap (λ x. read_frame x m) whole
          ∙ (read_frame-encode (opening s t) m rest (opening-IsWire s t id block small)
                (omega (arith, small, cap))
              ∙ ap (λ r. r >>= λ _. ok (opening s t, rest)) (opening_valid s t));
      offered = ap (λ x. (x, none)) (arrives p s t good free room);
    }
