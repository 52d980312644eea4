-- ===== src/Tunnel/Record/Caps.antt =====
-- Neither side of a connection (secure.go) changes its cap.
use toppa.Base.{
  ℕ, zero, suc, ◌+◌, ◌≡◌, refl, sym, ap, ◌∙◌, not, ◌||◌, ◌-◌, Option, none, some, [], ◌∷◌,
}
use toppa.Base.Tests.{ltb, if_split, ◌==◌}
use toppa.Base.Lists.{length, take, drop, is_empty}
use toppa.Base.Results.{Result, ok, err}
use toppa.Base.Bytes.{Bytes, IoError, write, put_u24, be, read_full}
use toppa.Tunnel.Noise.{Cipher}
use toppa.Tunnel.Record.{
  SecureConn, Error, cipher, send_ciphertext, record_header_size, record_overhead, write_record,
  record_size, after_record, write_loop, secure_write, deliver, read_body, read_header, secure_read,
  got_some, read_exact,
}

module _ (C : Cipher) where
  write_record_cap :
      (c : SecureConn C) (n : ℕ) (p : Bytes) → (write_record c n p).0.max_payload ≡ c.max_payload
  unfolding write_record
  write_record_cap c n p = by_cipher (C.encrypt c.write_cs (take n p))
    where
      by_cipher :
          (o : Option (C.State × Bytes))
          → (elim o as (λ _. SecureConn C × Option Error) [
            | none ↦ (c, some cipher)
            | some (cs, ct) ↦ (
              record c {
                write_cs = cs;
                out = (send_ciphertext ct (write c.out (put_u24 (length ct)))).0;
              },
              (send_ciphertext ct (write c.out (put_u24 (length ct)))).1,
            )
          ]).0.max_payload
            ≡ c.max_payload
      by_cipher none = refl
      by_cipher (some (cs, ct)) = refl

  after_record_cap :
      (next_record : SecureConn C → ℕ → Bytes → SecureConn C × ℕ × Option Error) (total n : ℕ)
      (p : Bytes) (r : SecureConn C × Option Error)
      → ((d : SecureConn C) (t : ℕ) (q : Bytes) → (next_record d t q).0.max_payload ≡ d.max_payload)
      → (after_record next_record total n p r).0.max_payload ≡ r.0.max_payload
  unfolding after_record
  after_record_cap k total n p (c, some e) h = refl
  after_record_cap k total n p (c, none) h = h c (total + n) (drop n p)

  write_loop_cap :
      (fuel : ℕ) (c : SecureConn C) (total : ℕ) (p : Bytes)
      → (write_loop fuel c total p).0.max_payload ≡ c.max_payload
  unfolding write_loop
  write_loop_cap fuel c total [] = refl
  write_loop_cap zero c total (b ∷ p) = refl
  write_loop_cap (suc fuel) c total (b ∷ p) =
      let n = record_size (length (b ∷ p)) c.max_payload in
      after_record_cap (λ d t q. write_loop fuel d t q) total n (b ∷ p) (write_record c n (b ∷ p))
        (write_loop_cap fuel)
      ∙ write_record_cap c n (b ∷ p)

  pub secure_write_cap :
      (c : SecureConn C) (p : Bytes) → (secure_write c p).0.max_payload ≡ c.max_payload
  unfolding secure_write
  secure_write_cap c p = write_loop_cap (length p) c 0 p

  deliver_cap :
      (c : SecureConn C) (n : ℕ) (o : Option (C.State × Bytes))
      → (deliver c n o).0.max_payload ≡ c.max_payload
  unfolding deliver
  deliver_cap c n none = refl
  deliver_cap c n (some (cs, pt)) = refl

  read_body_cap :
      (c : SecureConn C) (n : ℕ) (r : Result IoError (Bytes × Bytes))
      → (read_body c n r).0.max_payload ≡ c.max_payload
  unfolding read_body
  read_body_cap c n (err e) = refl
  read_body_cap c n (ok (ct, rest)) =
      deliver_cap (record c { input = rest }) n (C.decrypt c.read_cs ct)

  read_header_cap :
      (c : SecureConn C) (n : ℕ) (r : Result IoError (Bytes × Bytes))
      → (read_header c n r).0.max_payload ≡ c.max_payload
  unfolding read_header
  read_header_cap c n (err e) = refl
  read_header_cap c n (ok (hdr, rest)) =
      if_split (λ (x : SecureConn C × Result Error Bytes). x.0.max_payload ≡ c.max_payload)
        (ltb (be hdr) record_overhead || ltb (c.max_payload + record_overhead) (be hdr)) (λ _. refl)
        (λ _. read_body_cap (record c { input = rest }) n (read_full (be hdr) rest))

  secure_read_cap : (c : SecureConn C) (n : ℕ) → (secure_read c n).0.max_payload ≡ c.max_payload
  unfolding secure_read
  secure_read_cap c n =
      if_split Kept (not (is_empty c.rbuf)) (λ _. refl)
        (λ _.
          if_split Kept (n == 0) (λ _. refl)
            (λ _. read_header_cap c n (read_full record_header_size c.input)))
    where
      Kept : SecureConn C × Result Error Bytes → Type 0
      Kept x = x.0.max_payload ≡ c.max_payload

  got_some_cap :
      (more : ℕ → SecureConn C → SecureConn C × Result Error Bytes) (n : ℕ)
      (r : SecureConn C × Result Error Bytes)
      → ((m : ℕ) (d : SecureConn C) → (more m d).0.max_payload ≡ d.max_payload)
      → (got_some more n r).0.max_payload ≡ r.0.max_payload
  unfolding got_some
  got_some_cap more n (c, err e) h = refl
  got_some_cap more n (c, ok out) h = by_rest (more (n - length out) c) refl
    where
      by_rest :
          (x : SecureConn C × Result Error Bytes)
          → more (n - length out) c ≡ x
          → (got_some more n (c, ok out)).0.max_payload ≡ c.max_payload
      by_rest (d, err e) q = rw q (
          ap (λ (y : SecureConn C × Result Error Bytes). y.0.max_payload) (sym q)
          ∙ h (n - length out) c)
      by_rest (d, ok rest) q = rw q (
          ap (λ (y : SecureConn C × Result Error Bytes). y.0.max_payload) (sym q)
          ∙ h (n - length out) c)

  pub read_exact_cap :
      (fuel n : ℕ) (c : SecureConn C) → (read_exact fuel n c).0.max_payload ≡ c.max_payload
  unfolding read_exact
  read_exact_cap fuel zero c = refl
  read_exact_cap zero (suc n) c = refl
  read_exact_cap (suc fuel) (suc n) c =
      got_some_cap (λ m d. read_exact fuel m d) (suc n) (secure_read c (suc n))
        (read_exact_cap fuel)
      ∙ secure_read_cap c (suc n)
