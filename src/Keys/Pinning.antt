-- ===== src/Keys/Pinning.antt =====
-- The pinned peers of desktop/internal/keys/store.go.
use toppa.Base.{ℕ, ◌≡◌, refl, sym, ap, subst, Bool, true, false, not, Option, none, some, arith}
use toppa.Base.Tests.{◌==◌, if_split}
use toppa.Base.Bytes.{Bytes}
use toppa.Base.Texts.{same_text}
use toppa.Base.Results.{Result, ok, err, fst_eq}
use toppa.Keys.Disk.{
  Disk, ReadError, not_exist, unreadable, read_file, write_file, read_file-with_file,
  read_file-write_file,
}
use toppa.Keys.Store.{
  Identity, PinnedPeer, Codec, Store, Outcome, key_length, identity_file, peer_file, write_end,
  write_encoded, write_json, save_identity, saved, generated, loaded, identity, pin_peer,
  pin_parsed, pin_loaded, pinned_peer,
}
use toppa.Keys.Stable.{Decodes, refused_pair, write_encoded-ok}

module _ (join : Bytes → Bytes → Bytes) where
  write_end_disk : (r : Disk × Bool) → (write_end join r).0 ≡ r.0
  unfolding write_end
  write_end_disk (d, true) = refl
  write_end_disk (d, false) = refl

  -- A write leaves the files of the other paths.
  write_encoded_others :
      (s : Store) (disk : Disk) (name path : Bytes) (o : Option Bytes)
      → same_text (join s.dir name) path ≡ false
      → read_file (write_encoded join s disk name o).0 path ≡ read_file disk path
  unfolding write_encoded
  write_encoded_others s disk name path none h = refl
  write_encoded_others s disk name path (some raw) h =
      rw (write_end_disk (write_file disk (join s.dir name) raw))
        (read_file-write_file disk path (join s.dir name) raw h)

  module _ (codec : Codec PinnedPeer) where
    -- What a pin that was accepted has written.
    pin_peer-ok :
        (s : Store) (disk disk' : Disk) (name : Bytes) (public : Option Bytes) (now : ℕ)
        → pin_peer join codec s disk name public now ≡ (disk', ok tt)
        → (key_length public ≡ 32)
          × (write_json join codec s disk
                (peer_file name)
                (record { public_key = public; pinned_at = now })
              ≡ (disk', ok tt))
    unfolding pin_peer
    pin_peer-ok s disk disk' name public now =
        if_split
          (λ x.
            x ≡ (disk', ok tt)
            → (key_length public ≡ 32)
              × (write_json join codec s disk (peer_file name)
                    (record { public_key = public; pinned_at = now })
                  ≡ (disk', ok tt)))
          (not (key_length public == 32)) (λ _ h. refused_pair _ _ _ _ h)
          (λ e h. (ground (arith, e), h))

    -- A pin touches no other file than its own, whether it is accepted or not.
    pin_peer_others :
        (s : Store) (disk : Disk) (name path : Bytes) (public : Option Bytes) (now : ℕ)
        → same_text (join s.dir (peer_file name)) path ≡ false
        → read_file (pin_peer join codec s disk name public now).0 path ≡ read_file disk path
    unfolding pin_peer write_json
    pin_peer_others s disk name path public now h =
        if_split (λ (x : Outcome (Unit {0})). read_file x.0 path ≡ read_file disk path)
          (not (key_length public == 32)) (λ _. refl)
          (λ _.
            write_encoded_others s disk (peer_file name) path
              (codec.marshal (record { public_key = public; pinned_at = now })) h)

    -- The pin that was accepted is the one that is found.
    pub pinned_peer_self :
        (s : Store) (disk disk' : Disk) (name : Bytes) (public : Option Bytes) (now : ℕ)
        → Decodes codec
        → disk.readable (join s.dir (peer_file name)) ≡ true
        → pin_peer join codec s disk name public now ≡ (disk', ok tt)
        → pinned_peer join codec s disk' name ≡ ok (public, true)
    unfolding pinned_peer pin_loaded pin_parsed write_json
    pinned_peer_self s disk disk' name public now dec r h =
        let p : PinnedPeer = record { public_key = public; pinned_at = now } in
        let (_, wrote) = pin_peer-ok s disk disk' name public now h in
        let (raw, enc, left) =
          write_encoded-ok join s disk disk' (peer_file name) (codec.marshal p) wrote in
        let reads : read_file disk' (join s.dir (peer_file name)) ≡ ok raw =
          subst (λ x. read_file x (join s.dir (peer_file name)) ≡ ok raw) (sym left)
            (read_file-with_file disk (join s.dir (peer_file name)) raw r) in
        rw (reads, dec p raw enc) refl

    -- Where marshalled pins can be parsed again and the file of the peer can be read: a pin that is accepted is of a
    -- key of 32 bytes, and the peer's pinned key is from then on that key; what is pinned for a peer with another file
    -- is as before.
    pub pinned_peer-pin_peer :
        (s : Store) (disk disk' : Disk) (name other : Bytes) (public : Option Bytes) (now : ℕ)
        → Decodes codec
        → disk.readable (join s.dir (peer_file name)) ≡ true
        → same_text (join s.dir (peer_file name)) (join s.dir (peer_file other)) ≡ false
        → pin_peer join codec s disk name public now ≡ (disk', ok tt)
        → (key_length public ≡ 32)
          × (pinned_peer join codec s disk' name ≡ ok (public, true))
          × (pinned_peer join codec s disk' other ≡ pinned_peer join codec s disk other)
    unfolding pinned_peer
    pinned_peer-pin_peer s disk disk' name other public now dec r apart h =
        let kept : read_file disk' (join s.dir (peer_file other))
            ≡ read_file disk (join s.dir (peer_file other)) =
          subst
            (λ x.
              read_file x (join s.dir (peer_file other))
              ≡ read_file disk (join s.dir (peer_file other)))
            (fst_eq h)
            (pin_peer_others s disk name (join s.dir (peer_file other)) public now apart) in
        (
          (pin_peer-ok s disk disk' name public now h).0,
          pinned_peer_self s disk disk' name public now dec r h,
          ap (pin_loaded join codec) kept,
        )

  module _ (codec : Codec Identity) where
    saved_disk : (id : Identity) (o : Outcome (Unit {0})) → (saved join codec id o).0 ≡ o.0
    unfolding saved
    saved_disk id (d, ok x) = refl
    saved_disk id (d, err e) = refl

    loaded_others :
        (s : Store) (disk : Disk) (fresh : Option Identity) (path : Bytes)
        (got : Result ReadError Bytes)
        → same_text (join s.dir identity_file) path ≡ false
        → read_file (loaded join codec s disk fresh got).0 path ≡ read_file disk path
    unfolding loaded generated save_identity write_json
    loaded_others s disk fresh path (ok raw) h = refl
    loaded_others s disk none path (err not_exist) h = refl
    loaded_others s disk (some id) path (err not_exist) h =
        rw (saved_disk id (write_encoded join s disk identity_file (codec.marshal id)))
          (write_encoded_others s disk identity_file path (codec.marshal id) h)
    loaded_others s disk fresh path (err unreadable) h = refl

    -- `Identity` touches no other file than that of the identity.
    pub identity_others :
        (s : Store) (disk : Disk) (fresh : Option Identity) (path : Bytes)
        → same_text (join s.dir identity_file) path ≡ false
        → read_file (identity join codec s disk fresh).0 path ≡ read_file disk path
    unfolding identity
    identity_others s disk fresh path h =
        loaded_others s disk fresh path (read_file disk (join s.dir identity_file)) h
