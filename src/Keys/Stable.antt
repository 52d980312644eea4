-- ===== src/Keys/Stable.antt =====
-- The identity of desktop/internal/keys/store.go.
use toppa.Base.{◌≡◌, refl, sym, ap, subst, Bool, true, false, Option, none, some, arith}
use toppa.Base.Bytes.{Bytes}
use toppa.Base.Results.{Result, ok, err, fst_eq, snd_eq}
use toppa.Keys.Disk.{
  Disk, ReadError, not_exist, unreadable, read_file, write_file, with_file, read_file_missing,
  read_file-with_file, write_file-done,
}
use toppa.Keys.Store.{
  Identity, Codec, Store, Error, Outcome, key_length, identity_file, write_end, write_encoded,
  write_json, save_identity, parsed, saved, generated, loaded, identity,
}

-- Both keys have 32 bytes.
abbrev pub IsWhole : Identity → Type 0
IsWhole id = (key_length id.private_key ≡ 32) × (key_length id.public_key ≡ 32)

-- What is marshalled can be read again.
abbrev pub Decodes : {A : Type 0} → Codec A → Type 0
Decodes codec = (v : _) (raw : Bytes) → codec.marshal v ≡ some raw → codec.unmarshal raw ≡ some v

-- No pair with an error is a pair with a result.
pub refused_pair {ℓ} :
    {A : Type 0} {X : Type ℓ} (d d' : Disk) (e : Error) (a : A)
    → ◌≡◌ {A = Outcome A} (d, err e) (d', ok a)
    → X
refused_pair d d' e a h = absurd (apart (snd_eq h))
  where
    apart : err e ≡ ok a → ⊥
    apart q = cc

module _ (join : Bytes → Bytes → Bytes) where
  write_end-ok :
      (r : Disk × Bool) (disk' : Disk) → write_end join r ≡ (disk', ok tt) → r ≡ (disk', true)
  unfolding write_end
  write_end-ok (d, true) disk' h = ap (λ x. (x, true)) (fst_eq h)
  write_end-ok (d, false) disk' h = refused_pair _ _ _ _ h

  pub write_encoded-ok :
      (s : Store) (disk disk' : Disk) (name : Bytes) (o : Option Bytes)
      → write_encoded join s disk name o ≡ (disk', ok tt)
      → (raw : Bytes) × (o ≡ some raw) × (disk' ≡ with_file disk (join s.dir name) raw)
  unfolding write_encoded
  write_encoded-ok s disk disk' name none h = refused_pair _ _ _ _ h
  write_encoded-ok s disk disk' name (some raw) h = (
    raw,
    refl,
    write_file-done disk disk' (join s.dir name) raw
        (write_end-ok (write_file disk (join s.dir name) raw) disk' h),
  )

  module _ (codec : Codec Identity) where
    parsed-ok : (o : Option Identity) (id : Identity) → parsed join codec o ≡ ok id → IsWhole id
    unfolding parsed
    parsed-ok none id h = cc
    parsed-ok (some k) id h = ground (arith, h)

    parsed-IsWhole : (id : Identity) → IsWhole id → parsed join codec (some id) ≡ ok id
    unfolding parsed
    parsed-IsWhole id h = ground (arith, h)

    saved-ok :
        (id id' : Identity) (disk' : Disk) (o : Outcome (Unit {0}))
        → saved join codec id o ≡ (disk', ok id')
        → (id ≡ id') × (o ≡ (disk', ok tt))
    unfolding saved
    saved-ok id id' disk' (d, ok _) h = (let q = snd_eq h in cc, ap (λ x. (x, ok tt)) (fst_eq h))
    saved-ok id id' disk' (d, err e) h = refused_pair _ _ _ _ h

    -- What a successful load leaves: a whole identity that the file holds.
    record Kept (s : Store) (disk' : Disk) (id : Identity) : Type 0 where
      whole : IsWhole id
      again : (fresh : Option Identity) → identity join codec s disk' fresh ≡ (disk', ok id)

    generated-Kept :
        (s : Store) (disk disk' : Disk) (fresh : Option Identity) (id : Identity)
        → Decodes codec
        → ((k : Identity) → fresh ≡ some k → IsWhole k)
        → disk.readable (join s.dir identity_file) ≡ true
        → generated join codec s disk fresh ≡ (disk', ok id)
        → Kept s disk' id
    unfolding generated save_identity write_json identity loaded
    generated-Kept s disk disk' none id dec w r h = refused_pair _ _ _ _ h
    generated-Kept s disk disk' (some k) id dec w r h =
        let (same, wrote) = saved-ok k id disk' (save_identity join codec s disk k) h in
        let (raw, enc, left) =
          write_encoded-ok s disk disk' identity_file (codec.marshal k) wrote in
        let whole : IsWhole id = subst IsWhole same (w k refl) in
        let reads : read_file disk' (join s.dir identity_file) ≡ ok raw =
          subst (λ x. read_file x (join s.dir identity_file) ≡ ok raw) (sym left)
            (read_file-with_file disk (join s.dir identity_file) raw r) in
        record {
          whole = whole;
          again = λ fresh.
              rw (reads, dec k raw enc, same) (ap (λ x. (disk', x)) (parsed-IsWhole id whole));
        }

    loaded-Kept :
        (s : Store) (disk disk' : Disk) (fresh : Option Identity) (id : Identity)
        (got : Result ReadError Bytes)
        → Decodes codec
        → ((k : Identity) → fresh ≡ some k → IsWhole k)
        → read_file disk (join s.dir identity_file) ≡ got
        → loaded join codec s disk fresh got ≡ (disk', ok id)
        → Kept s disk' id
    unfolding loaded identity
    loaded-Kept s disk disk' fresh id (ok raw) dec w r h =
        let p : parsed join codec (codec.unmarshal raw) ≡ ok id = snd_eq h in
        let left : disk ≡ disk' = fst_eq h in
        record {
          whole = parsed-ok (codec.unmarshal raw) id p;
          again = λ fresh. rw (sym left, r, p) refl;
        }
    loaded-Kept s disk disk' fresh id (err not_exist) dec w r h =
        generated-Kept s disk disk' fresh id dec w
          (read_file_missing disk (join s.dir identity_file) r) h
    loaded-Kept s disk disk' fresh id (err unreadable) dec w r h = refused_pair _ _ _ _ h

    -- Where marshalled identities can be parsed again and generated keys have 32 bytes, a call of `Identity` that succeeds,
    -- whether it loads or generates, returns two keys of 32 bytes, and every later call on
    -- the disk that it leaves returns the same identity and writes nothing, whatever a generation would give.
    pub identity_is_stable :
        (s : Store) (disk disk' : Disk) (fresh again : Option Identity) (id : Identity)
        → Decodes codec
        → ((k : Identity) → fresh ≡ some k → IsWhole k)
        → identity join codec s disk fresh ≡ (disk', ok id)
        → IsWhole id × (identity join codec s disk' again ≡ (disk', ok id))
    unfolding identity
    identity_is_stable s disk disk' fresh again id dec w h =
        let k =
          loaded-Kept s disk disk' fresh id (read_file disk (join s.dir identity_file)) dec w refl
            h in
        (k.whole, k.again again)
