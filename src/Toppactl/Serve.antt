-- ===== src/Toppactl/Serve.antt =====
-- `runServe` and `handleServeConn` of desktop/cmd/toppactl/main.go, up to the multiplexer.
use toppa.Base.{Bool, Option, List, [], ◌∷◌, ◌++◌}
use toppa.Base.Tests.{if◌then◌else◌}
use toppa.Base.Bytes.{Bytes}
use toppa.Base.Results.{Result, ok, err}
use toppa.Tunnel.Noise.{Cipher, Handshaking}
use toppa.Tunnel.Handshake.{HandshakeResult, role_responder}
use toppa.Keys.Disk.{Disk}
use toppa.Keys.Store
use toppa.Keys.Store.{Identity, PinnedPeer, Codec, Store, Outcome, identity, pinned_peer}
use toppa.Toppactl.Pairing.{Session, default_name, authenticate}

pub data ServeError : Type 0 where
  key_store : toppa.Keys.Store.Error → ServeError
  listen_failed : ServeError

-- What the process holds for all of its connections: they share the pin that was found before the first one.
pub record Server : Type 0 where
  pub store : Store
  pub id : Identity
  pub pinned : Option Bytes
  pub has : Bool

module _ (C : Cipher) (N : Handshaking C) (sha256 : Bytes → Bytes) (join : Bytes → Bytes → Bytes)
    (pins : Codec PinnedPeer) where
  abbrev pub served :
      {E : Type 0} → Result E (HandshakeResult C N sha256) → List (HandshakeResult C N sha256)
  served (ok r) = r ∷ []
  served (err e) = []

  -- `handleServeConn`: the disk afterwards, and the session that is served if the peer was authenticated.
  unfoldable pub serve_conn : Server → Disk → Session → Disk × List (HandshakeResult C N sha256)
  unfolding authenticate
  serve_conn v disk l =
      let r =
        authenticate C N sha256 join pins (record l { role = role_responder }) v.store disk v.id
          v.pinned v.has in
      (r.0, served r.1)

  -- The loop of `runServe`, with the connections in the order in which they come to pin their peers.
  unfoldable pub serve_conns :
      Server → Disk → List Session → Disk × List (HandshakeResult C N sha256)
  unfolding serve_conn
  serve_conns v disk [] = (disk, [])
  serve_conns v disk (l ∷ ls) =
      let first = serve_conn v disk l in
      let rest = serve_conns v first.0 ls in (rest.0, first.1 ++ rest.1)

  abbrev pub ServeOutcome : Type 0
  ServeOutcome = Disk × Result ServeError (List (HandshakeResult C N sha256))

  unfoldable pub serve_pinned :
      Bool
      → List Session
      → Store
      → Disk
      → Identity
      → Result toppa.Keys.Store.Error (Option Bytes × Bool)
      → ServeOutcome
  unfolding serve_conns
  serve_pinned listens ls s disk id (err e) = (disk, err (key_store e))
  serve_pinned listens ls s disk id (ok (pinned, has)) =
      let r = serve_conns (record { store = s; id = id; pinned = pinned; has = has }) disk ls in
      if listens then (r.0, ok r.1) else (disk, err listen_failed)

  unfoldable pub serve_as : Bool → List Session → Store → Outcome Identity → ServeOutcome
  unfolding serve_pinned
  serve_as listens ls s (disk, err e) = (disk, err (key_store e))
  serve_as listens ls s (disk, ok id) =
      serve_pinned listens ls s disk id (pinned_peer join pins s disk default_name)

  -- `runServe` on the store, until the listener fails: whether it listens, and the connections that come.
  unfoldable pub run_serve :
      Codec Identity → Store → Disk → Option Identity → Bool → List Session → ServeOutcome
  unfolding serve_as
  run_serve ids s disk fresh listens ls = serve_as listens ls s (identity join ids s disk fresh)
