-- ===== src/Toppactl/Serving.antt =====
-- What one process of `toppactl serve` (desktop/cmd/toppactl/main.go) makes of the pin.
use toppa.Base.{◌≡◌, refl, sym, ap, ◌∙◌, subst, Bool, true, false, some, List, [], ◌∷◌, ◌++◌}
use toppa.Base.Lists.{All, All-append}
use toppa.Base.Bytes.{Bytes}
use toppa.Base.Results.{Result, ok, err}
use toppa.Tunnel.Noise.{Cipher, Handshaking}
use toppa.Tunnel.Record
use toppa.Tunnel.Framing.{pinned_equal}
use toppa.Tunnel.Handshake.{
  HandshakeConfig, HandshakeResult, role_responder, handshake, handshake_agrees,
}
use toppa.Keys.Disk.{Disk}
use toppa.Keys.Store.{PinnedPeer, Codec, Store}
use toppa.Toppactl.Pairing.{pinned_if, bytes_of, Session, with_result, authenticate}
use toppa.Toppactl.Serve.{Server, served, serve_conn, serve_conns}

module _ (C : Cipher) (N : Handshaking C) (sha256 : Bytes → Bytes) (join : Bytes → Bytes → Bytes)
    (pins : Codec PinnedPeer) where
  abbrev pub serving : Server → Session → HandshakeConfig
  serving v l = record {
    role = role_responder;
    static_private = bytes_of v.id.private_key;
    pinned_peer = pinned_if v.has v.pinned;
    max_payload = 0;
  }

  -- The handshake of each connection with what the process has as its pin, and nothing else.
  abbrev pub answered : Server → List Session → List (HandshakeResult C N sha256)
  answered v [] = []
  answered v (l ∷ ls) =
      served C N sha256 join pins (handshake C N sha256 l.deadline_set l.out l.input (serving v l))
      ++ answered v ls

  pub with_result-served :
      (l : Session) (s : Store) (disk : Disk) (has : Bool)
      (o : Result toppa.Tunnel.Record.Error (HandshakeResult C N sha256))
      → served C N sha256 join pins (with_result C N sha256 join pins l s disk has o).1
        ≡ served C N sha256 join pins o
  unfolding with_result
  with_result-served l s disk has (err e) = refl
  with_result-served l s disk true (ok r) = refl
  with_result-served l s disk false (ok r) = refl

  pub serve_conns-answered :
      (v : Server) (disk : Disk) (ls : List Session)
      → (serve_conns C N sha256 join pins v disk ls).1 ≡ answered v ls
  unfolding serve_conns serve_conn authenticate
  serve_conns-answered v disk [] = refl
  serve_conns-answered v disk (l ∷ ls) =
      ap
        (λ x.
          x
          ++ (serve_conns C N sha256 join pins v (serve_conn C N sha256 join pins v disk l).0 ls).1)
        (with_result-served (record l { role = role_responder }) v.store disk v.has
          (handshake C N sha256 l.deadline_set l.out l.input (serving v l)))
      ∙ ap
          (λ y.
            served C N sha256 join pins
              (handshake C N sha256 l.deadline_set l.out l.input (serving v l))
            ++ y)
          (serve_conns-answered v (serve_conn C N sha256 join pins v disk l).0 ls)

  abbrev IsPinned : Bytes → HandshakeResult C N sha256 → Type 0
  IsPinned key r = pinned_equal r.peer_static key ≡ true

  served-IsPinned :
      (key : Bytes) (v : Server) (l : Session)
      (o : Result toppa.Tunnel.Record.Error (HandshakeResult C N sha256))
      → v.has ≡ true
      → v.pinned ≡ some key
      → handshake C N sha256 l.deadline_set l.out l.input (serving v l) ≡ o
      → All (IsPinned key) (served C N sha256 join pins o)
  unfolding pinned_if
  served-IsPinned key v l (err e) has pin h = tt
  served-IsPinned key v l (ok r) has pin h =
      let a = handshake_agrees C N sha256 l.deadline_set l.out l.input (serving v l) r h in
      (a.2 key (ap (λ b. pinned_if b v.pinned) has ∙ pin), tt)

  answered-IsPinned :
      (key : Bytes) (v : Server) (ls : List Session)
      → v.has ≡ true
      → v.pinned ≡ some key
      → All (IsPinned key) (answered v ls)
  answered-IsPinned key v [] has pin = tt
  answered-IsPinned key v (l ∷ ls) has pin =
      All-append (IsPinned key)
        (served C N sha256 join pins
          (handshake C N sha256 l.deadline_set l.out l.input (serving v l)))
        (answered v ls) (served-IsPinned key v l _ has pin refl)
        (answered-IsPinned key v ls has pin)

  with_result_kept :
      (l : Session) (s : Store) (disk : Disk)
      (o : Result toppa.Tunnel.Record.Error (HandshakeResult C N sha256))
      → (with_result C N sha256 join pins l s disk true o).0 ≡ disk
  unfolding with_result
  with_result_kept l s disk (err e) = refl
  with_result_kept l s disk (ok r) = refl

  serve_conns_kept :
      (v : Server) (disk : Disk) (ls : List Session)
      → v.has ≡ true
      → (serve_conns C N sha256 join pins v disk ls).0 ≡ disk
  unfolding serve_conns serve_conn authenticate
  serve_conns_kept v disk [] has = refl
  serve_conns_kept v disk (l ∷ ls) has =
      serve_conns_kept v (serve_conn C N sha256 join pins v disk l).0 ls has
      ∙ (ap
            (λ b.
              (with_result C N sha256 join pins (record l { role = role_responder }) v.store disk b
                (handshake C N sha256 l.deadline_set l.out l.input (serving v l))).0)
            has
          ∙ with_result_kept (record l { role = role_responder }) v.store disk
              (handshake C N sha256 l.deadline_set l.out l.input (serving v l)))

  -- A process that has found a pin serves, of all the connections that come, only those of peers whose key compares equal to
  -- it, and leaves the disk as it is.
  pub serve_enforces_pin :
      (key : Bytes) (v : Server) (disk : Disk) (ls : List Session)
      → v.has ≡ true
      → v.pinned ≡ some key
      → All
          (λ r. pinned_equal r.peer_static key ≡ true)
          (serve_conns C N sha256 join pins v disk ls).1
        × ((serve_conns C N sha256 join pins v disk ls).0 ≡ disk)
  serve_enforces_pin key v disk ls has pin = (
    subst (All (IsPinned key)) (sym (serve_conns-answered v disk ls))
        (answered-IsPinned key v ls has pin),
    serve_conns_kept v disk ls has,
  )
