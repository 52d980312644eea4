-- ===== src/Toppactl/Trust.antt =====
-- A pin holds in every later session of desktop/cmd/toppactl/main.go.
use toppa.Base.{ℕ, ◌≡◌, refl, sym, ap, ◌∙◌, subst, true, false, some, List, [], ◌∷◌}
use toppa.Base.Tests.{if_split}
use toppa.Base.Lists.{All, All-append}
use toppa.Base.Bytes.{Bytes}
use toppa.Base.Texts.{same_text}
use toppa.Base.Results.{Result, ok, err}
use toppa.Tunnel.Noise.{Cipher, Handshaking}
use toppa.Tunnel.Record
use toppa.Tunnel.Framing.{pinned_equal}
use toppa.Tunnel.Handshake.{HandshakeConfig, HandshakeResult, handshake, handshake_agrees}
use toppa.Keys.Disk.{Disk}
use toppa.Keys.Store.{
  Identity, PinnedPeer, Codec, Store, Outcome, identity_file, peer_file, identity, pin_loaded,
  pin_peer, pinned_peer,
}
use toppa.Keys.Stable.{Decodes}
use toppa.Keys.Pinning.{identity_others, pinned_peer_self}
use toppa.Toppactl.Pairing.{
  Error, default_name, pinned_if, bytes_of, Session, with_result, authenticate, with_pin,
  with_identity, pair, peers_of, authenticated,
}

module _ (C : Cipher) (N : Handshaking C) (sha256 : Bytes → Bytes) (join : Bytes → Bytes → Bytes)
    (pins : Codec PinnedPeer) where
  abbrev Pinned : Store → Bytes → Disk → Type 0
  Pinned s key disk = pinned_peer join pins s disk default_name ≡ ok (some key, true)

  -- The pin is still there, and the peer, if one was authenticated, has its key.
  abbrev Trusts : Store → Bytes → Disk × Result Error (HandshakeResult C N sha256) → Type 0
  Trusts s key (disk, o) =
      Pinned s key disk
      × ((r : HandshakeResult C N sha256) → o ≡ ok r → pinned_equal r.peer_static key ≡ true)

  with_result-Trusts :
      (l : Session) (s : Store) (key : Bytes) (disk : Disk)
      (o : Result toppa.Tunnel.Record.Error (HandshakeResult C N sha256))
      → Pinned s key disk
      → ((r : HandshakeResult C N sha256) → o ≡ ok r → pinned_equal r.peer_static key ≡ true)
      → Trusts s key (with_result C N sha256 join pins l s disk true o)
  unfolding with_result
  with_result-Trusts l s key disk (err e) p h = (p, λ r c. cc)
  with_result-Trusts l s key disk (ok q) p h = (p, λ r e. h r (let c : q ≡ r = cc in ap ok c))

  authenticate-Trusts :
      (l : Session) (s : Store) (key : Bytes) (disk : Disk) (id : Identity)
      → Pinned s key disk
      → Trusts s key (authenticate C N sha256 join pins l s disk id (some key) true)
  unfolding authenticate pinned_if
  authenticate-Trusts l s key disk id p =
      let cfg : HandshakeConfig = record {
        role = l.role;
        static_private = bytes_of id.private_key;
        pinned_peer = some key;
        max_payload = 0;
      } in
      with_result-Trusts l s key disk (handshake C N sha256 l.deadline_set l.out l.input cfg) p
        (λ r e.
          let a = handshake_agrees C N sha256 l.deadline_set l.out l.input cfg r e in a.2 key refl)

  with_pin-Trusts :
      (l : Session) (s : Store) (key : Bytes) (disk : Disk) (id : Identity)
      → Pinned s key disk
      → Trusts s key (with_pin C N sha256 join pins l s disk id (ok (some key, true)))
  unfolding with_pin
  with_pin-Trusts l s key disk id p =
      if_split (Trusts s key) l.dialled (λ _. authenticate-Trusts l s key disk id p)
        (λ _. (p, λ r c. cc))

  with_identity-Trusts :
      (l : Session) (s : Store) (key : Bytes) (o : Outcome Identity)
      → Pinned s key o.0
      → Trusts s key (with_identity C N sha256 join pins l s o)
  unfolding with_identity
  with_identity-Trusts l s key (disk, err e) p = (p, λ r c. cc)
  with_identity-Trusts l s key (disk, ok id) p =
      subst (λ x. Trusts s key (with_pin C N sha256 join pins l s disk id x)) (sym p)
        (with_pin-Trusts l s key disk id p)

  module _ (ids : Codec Identity) where
    -- The file of the peer is not that of the identity.
    abbrev pub Apart : Store → Type 0
    Apart s = same_text (join s.dir identity_file) (join s.dir (peer_file default_name)) ≡ false

    pair-Trusts :
        (s : Store) (key : Bytes) (disk : Disk) (l : Session)
        → Apart s
        → Pinned s key disk
        → Trusts s key (pair C N sha256 join pins ids s disk l)
    unfolding pair pinned_peer
    pair-Trusts s key disk l apart p =
        with_identity-Trusts l s key (identity join ids s disk l.fresh) (
          ap (pin_loaded join pins)
            (identity_others join ids s disk l.fresh (join s.dir (peer_file default_name)) apart)
          ∙ p)

    peers_of-Trusts :
        (s : Store) (key : Bytes) (p : Disk × Result Error (HandshakeResult C N sha256))
        → Trusts s key p
        → All (λ k. pinned_equal k key ≡ true) (peers_of C N sha256 join pins ids p.1)
    peers_of-Trusts s key (disk, err e) t = tt
    peers_of-Trusts s key (disk, ok r) t = (t.1 r refl, tt)

    authenticated-Pinned :
        (s : Store) (key : Bytes) (disk : Disk) (ls : List Session)
        → Apart s
        → Pinned s key disk
        → All (λ k. pinned_equal k key ≡ true) (authenticated C N sha256 join pins ids s disk ls)
    unfolding authenticated
    authenticated-Pinned s key disk [] apart p = tt
    authenticated-Pinned s key disk (l ∷ ls) apart p =
        let r = pair C N sha256 join pins ids s disk l in
        let t : Trusts s key r = pair-Trusts s key disk l apart p in
        All-append (λ k. pinned_equal k key ≡ true) (peers_of C N sha256 join pins ids r.1)
          (authenticated C N sha256 join pins ids s r.0 ls) (peers_of-Trusts s key r t)
          (authenticated-Pinned s key r.0 ls apart t.0)

    -- Once a peer's key is pinned, on a store whose file for the peer can be read and is not that of the identity, and
    -- where marshalled pins can be parsed again: in every later series of sessions, of whatever roles, transports
    -- and outcomes, each peer that is authenticated compares equal to the pinned key.
    pub pinned_peers_only :
        (s : Store) (disk disk' : Disk) (key : Bytes) (now : ℕ) (ls : List Session)
        → Decodes pins
        → disk.readable (join s.dir (peer_file default_name)) ≡ true
        → Apart s
        → pin_peer join pins s disk default_name (some key) now ≡ (disk', ok tt)
        → All (λ k. pinned_equal k key ≡ true) (authenticated C N sha256 join pins ids s disk' ls)
    pinned_peers_only s disk disk' key now ls dec readable apart h =
        authenticated-Pinned s key disk' ls apart
          (pinned_peer_self join pins s disk disk' default_name (some key) now dec readable h)
