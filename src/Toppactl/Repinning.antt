-- ===== src/Toppactl/Repinning.antt =====
-- What one process of `toppactl serve` (desktop/cmd/toppactl/main.go) that has found no pin makes of its peers' keys.
use toppa.Base.{
  ℕ, ◌≡◌, refl, sym, ap, ◌∙◌, subst, Bool, true, false, Option, none, some, List, [], ◌∷◌, ◌++◌,
  arith,
}
use toppa.Base.Lists.{length, All}
use toppa.Base.Bytes.{Bytes}
use toppa.Base.Results.{Result, ok, err, fst_eq}
use toppa.Tunnel.Noise.{Cipher, Handshaking}
use toppa.Tunnel.Record
use toppa.Tunnel.Handshake.{HandshakeResult, role_responder, handshake, handshake_agrees}
use toppa.Keys.Disk.{Disk, whole, with_file, write_file}
use toppa.Keys.Store
use toppa.Keys.Store.{
  Identity, PinnedPeer, Codec, Store, Outcome, key_length, write_end, write_encoded, write_json,
  peer_file, pin_peer, pinned_peer,
}
use toppa.Keys.Stable.{Decodes}
use toppa.Keys.Pinning.{pinned_peer_self}
use toppa.Toppactl.Pairing.{pinned_if, Session, default_name, with_result, authenticate}
use toppa.Toppactl.Serving.{serving, answered, with_result-served, serve_conns-answered}
use toppa.Toppactl.Serve.{Server, served, serve_conn, serve_conns}

module _ (C : Cipher) (N : Handshaking C) (sha256 : Bytes → Bytes) (join : Bytes → Bytes → Bytes)
    (pins : Codec PinnedPeer) where
  abbrev Found : Type 0
  Found = Result toppa.Keys.Store.Error (Option Bytes × Bool)

  -- What is found as the pin after these peers were pinned, one after the other.
  abbrev pub pinned_after : Found → List (HandshakeResult C N sha256) → Found
  pinned_after p [] = p
  pinned_after p (r ∷ rs) = pinned_after (ok (some r.peer_static, true)) rs

  abbrev pin_path : Store → Bytes
  pin_path s = join s.dir (peer_file default_name)

  -- The file of the pin can be read and written.
  abbrev pub Works : Store → Disk → Type 0
  Works s disk = (disk.readable (pin_path s) ≡ true) × (disk.writes (pin_path s) ≡ whole)

  pin_peer-writes :
      (s : Store) (disk : Disk) (key raw : Bytes) (now : ℕ)
      → length key ≡ 32
      → Works s disk
      → pins.marshal (record { public_key = some key; pinned_at = now }) ≡ some raw
      → pin_peer join pins s disk default_name (some key) now
        ≡ (with_file disk (pin_path s) raw, ok tt)
  unfolding pin_peer write_json write_encoded write_end write_file key_length
  pin_peer-writes s disk key raw now size (_, w) m = rw (m, w) (ground (arith, size))

  abbrev Encodes : Type 0
  Encodes = (p : PinnedPeer) → (raw : Bytes) × (pins.marshal p ≡ some raw)

  -- One connection leaves the disk working, and the pin as its peer's if one was authenticated.
  abbrev PinsOf : Store → Disk → Disk → List (HandshakeResult C N sha256) → Type 0
  PinsOf s disk disk' rs =
      Works s disk'
      × (pinned_peer join pins s disk' default_name
          ≡ pinned_after (pinned_peer join pins s disk default_name) rs)

  with_result-PinsOf :
      (l : Session) (s : Store) (disk : Disk)
      (o : Result toppa.Tunnel.Record.Error (HandshakeResult C N sha256))
      → Decodes pins
      → Encodes
      → Works s disk
      → ((r : HandshakeResult C N sha256) → o ≡ ok r → length r.peer_static ≡ 32)
      → PinsOf s disk
          (with_result C N sha256 join pins l s disk false o).0
          (served C N sha256 join pins o)
  unfolding with_result
  with_result-PinsOf l s disk (err e) dec enc w size = (w, refl)
  with_result-PinsOf l s disk (ok r) dec enc w size =
      let (raw, m) = enc (record { public_key = some r.peer_static; pinned_at = l.now }) in
      let h = pin_peer-writes s disk r.peer_static raw l.now (size r refl) w m in
      (
        subst (Works s) (sym (fst_eq h)) w,
        ap (λ d. pinned_peer join pins s d default_name) (fst_eq h)
            ∙ pinned_peer_self join pins s disk _ default_name (some r.peer_static) l.now dec w.0 h,
      )

  pinned_after-append :
      (p : Found) (rs qs : List (HandshakeResult C N sha256))
      → pinned_after p (rs ++ qs) ≡ pinned_after (pinned_after p rs) qs
  pinned_after-append p [] qs = refl
  pinned_after-append p (r ∷ rs) qs = pinned_after-append (ok (some r.peer_static, true)) rs qs

  serve_conn-PinsOf :
      (v : Server) (disk : Disk) (l : Session)
      → Decodes pins
      → Encodes
      → Works v.store disk
      → v.has ≡ false
      → PinsOf v.store disk
          (serve_conn C N sha256 join pins v disk l).0
          (serve_conn C N sha256 join pins v disk l).1
  unfolding serve_conn authenticate
  serve_conn-PinsOf v disk l dec enc w has =
      let o =
        handshake C N sha256 l.deadline_set l.out l.input (serving C N sha256 join pins v l) in
      let k = record l { role = role_responder } in
      let agreed =
        handshake_agrees C N sha256 l.deadline_set l.out l.input
          (serving C N sha256 join pins v l) in
      subst
        (λ b.
          PinsOf v.store disk (with_result C N sha256 join pins k v.store disk b o).0
            (served C N sha256 join pins (with_result C N sha256 join pins k v.store disk b o).1))
        (sym has)
        (subst
          (λ rs. PinsOf v.store disk (with_result C N sha256 join pins k v.store disk false o).0 rs)
          (sym (with_result-served C N sha256 join pins k v.store disk false o))
          (with_result-PinsOf k v.store disk o dec enc w (λ r e. (agreed r e).1)))

  serve_conns-PinsOf :
      (v : Server) (disk : Disk) (ls : List Session)
      → Decodes pins
      → Encodes
      → Works v.store disk
      → v.has ≡ false
      → PinsOf v.store disk
          (serve_conns C N sha256 join pins v disk ls).0
          (serve_conns C N sha256 join pins v disk ls).1
  unfolding serve_conns
  serve_conns-PinsOf v disk [] dec enc w has = (w, refl)
  serve_conns-PinsOf v disk (l ∷ ls) dec enc w has =
      let c = serve_conn C N sha256 join pins v disk l in
      let rest = serve_conns C N sha256 join pins v c.0 ls in
      let (w1, p1) = serve_conn-PinsOf v disk l dec enc w has in
      let (w2, p2) = serve_conns-PinsOf v c.0 ls dec enc w1 has in
      (w2, p2 ∙ (ap (λ p. pinned_after p rest.1) p1 ∙ sym (pinned_after-append _ c.1 rest.1)))

  -- A process that has found no pin, on a store whose pin can be written, read and parsed again, asks no peer for a pinned key,
  -- also after it has pinned one: it serves each connection whose handshake succeeds without a pin, whatever its key,
  -- and what is pinned afterwards is the key of the last peer that was served, or what was pinned before if there was none.
  pub serve_repins :
      (v : Server) (disk : Disk) (ls : List Session)
      → Decodes pins
      → ((p : PinnedPeer) → (raw : Bytes) × (pins.marshal p ≡ some raw))
      → (disk.readable (join v.store.dir (peer_file default_name)) ≡ true)
      → (disk.writes (join v.store.dir (peer_file default_name)) ≡ whole)
      → v.has ≡ false
      → ((serve_conns C N sha256 join pins v disk ls).1 ≡ answered C N sha256 join pins v ls)
        × (All (λ l. (serving C N sha256 join pins v l).pinned_peer ≡ none) ls)
        × (pinned_peer join pins v.store (serve_conns C N sha256 join pins v disk ls).0 default_name
            ≡ pinned_after
                (pinned_peer join pins v.store disk default_name)
                (answered C N sha256 join pins v ls))
  unfolding pinned_if
  serve_repins v disk ls dec enc readable writes has =
      let same = serve_conns-answered C N sha256 join pins v disk ls in
      (
        same,
        asks_none v has ls,
        (serve_conns-PinsOf v disk ls dec enc (readable, writes) has).1
            ∙ ap (pinned_after (pinned_peer join pins v.store disk default_name)) same,
      )
    where
      asks_none :
          (v : Server)
          → v.has ≡ false
          → (ls : List Session)
          → All (λ l. (serving C N sha256 join pins v l).pinned_peer ≡ none) ls
      asks_none v has [] = tt
      asks_none v has (l ∷ ls) = (ap (λ b. pinned_if b v.pinned) has, asks_none v has ls)
