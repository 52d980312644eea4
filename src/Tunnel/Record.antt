-- ===== src/Tunnel/Record.antt =====
-- desktop/internal/tunnel/secure.go: the record layer, over the cipher of Tunnel/Noise.
pub mod Reading
pub mod RoundTrip
pub mod Caps
use toppa.Base.{
  ℕ, zero, suc, ◌+◌, ◌-◌, ◌%◌, Bool, true, false, Option, none, some, [], ◌∷◌, ◌++◌, ◌||◌, not,
}
use toppa.Base.Tests.{ltb, ◌==◌, if◌then◌else◌}
use toppa.Base.Lists.{length, take, drop, is_empty}
use toppa.Base.Results.{Result, ok, err}
use toppa.Base.Bytes.{Bytes, u32_mod, be, put_u24, read_full, Writer, write, IoError}
use toppa.Tunnel.Noise.{Cipher}

pub data Error : Type 0 where
  err_peer_mismatch err_bad_key err_handshake_failed err_record_too_large : Error
  -- an error of the cipher, passed on
  cipher : Error
  io : IoError → Error

abbrev pub record_header_size : ℕ
record_header_size = 3

abbrev pub record_overhead : ℕ
record_overhead = 16

module _ (C : Cipher) where
  -- The transport below is what has been sent on it and what is still to be received.
  pub record SecureConn : Type 0 where
    pub out : Writer
    pub input : Bytes
    pub read_cs : C.State
    pub write_cs : C.State
    pub max_payload : ℕ
    pub rbuf : Bytes

-- The header and then the ciphertext go out, and a failed write ends the call.
send_ciphertext : Bytes → Writer × Option IoError → Writer × Option Error
send_ciphertext ct (w, some e) = (w, some (io e))
send_ciphertext ct (w, none) = lift_error (write w ct)
  where
    lift_error : Writer × Option IoError → Writer × Option Error
    lift_error (v, none) = (v, none)
    lift_error (v, some e) = (v, some (io e))

-- `n` of a round: `uint32(n) > maxPayload` cuts it to the cap.
abbrev pub record_size : ℕ → ℕ → ℕ
record_size left max_payload = if ltb max_payload (left % u32_mod) then max_payload else left

module _ {C : Cipher} where
  -- One round of `Write`: a record of the first `n` bytes of `p`.
  unfoldable pub write_record : SecureConn C → ℕ → Bytes → SecureConn C × Option Error
  unfolding send_ciphertext write
  write_record c n p = elim (C.encrypt c.write_cs (take n p)) [
    | none ↦ (c, some cipher)
    | some (cs, ct) ↦ (
      record c { write_cs = cs; out = (send_ciphertext ct (write c.out (put_u24 (length ct)))).0 },
      (send_ciphertext ct (write c.out (put_u24 (length ct)))).1,
    )
  ]

  unfoldable pub after_record :
      (SecureConn C → ℕ → Bytes → SecureConn C × ℕ × Option Error)
      → ℕ
      → ℕ
      → Bytes
      → SecureConn C × Option Error
      → SecureConn C × ℕ × Option Error
  after_record next_record total n p (c, some e) = (c, total, some e)
  after_record next_record total n p (c, none) = next_record c (total + n) (drop n p)

  -- `Write` of the bytes `p` with `total` written before. A round takes one byte or more, so as many
  -- rounds as bytes are enough.
  unfoldable pub write_loop : ℕ → SecureConn C → ℕ → Bytes → SecureConn C × ℕ × Option Error
  unfolding write_record after_record
  write_loop fuel c total [] = (c, total, none)
  write_loop zero c total (b ∷ p) = (c, total, none)
  write_loop (suc fuel) c total (b ∷ p) =
      let n = record_size (length (b ∷ p)) c.max_payload in
      after_record (λ c' t q. write_loop fuel c' t q) total n (b ∷ p) (write_record c n (b ∷ p))

  unfoldable pub secure_write : SecureConn C → Bytes → SecureConn C × ℕ × Option Error
  unfolding write_loop
  secure_write c p = write_loop (length p) c 0 p

  -- `copy(p, pt)` into `n` bytes, and the rest kept for later.
  deliver : SecureConn C → ℕ → Option (C.State × Bytes) → SecureConn C × Result Error Bytes
  deliver c n none = (c, err cipher)
  deliver c n (some (cs, pt)) =
      (record c { read_cs = cs; rbuf = c.rbuf ++ drop n pt }, ok (take n pt))

  read_body : SecureConn C → ℕ → Result IoError (Bytes × Bytes) → SecureConn C × Result Error Bytes
  unfolding deliver
  read_body c n (err e) = (c, err (io e))
  read_body c n (ok (ct, rest)) = deliver (record c { input = rest }) n (C.decrypt c.read_cs ct)

  read_header :
      SecureConn C → ℕ → Result IoError (Bytes × Bytes) → SecureConn C × Result Error Bytes
  unfolding read_body
  read_header c n (err e) = (c, err (io e))
  read_header c n (ok (hdr, rest)) =
      let size = be hdr in
      if ltb size record_overhead || ltb (c.max_payload + record_overhead) size
      then (record c { input = rest }, err err_record_too_large)
      else read_body (record c { input = rest }) n (read_full size rest)

  -- `Read` into `n` bytes. On an error the input is no longer used.
  pub secure_read : SecureConn C → ℕ → SecureConn C × Result Error Bytes
  unfolding read_header
  secure_read c n =
      if not (is_empty c.rbuf)
      then (record c { rbuf = drop n c.rbuf }, ok (take n c.rbuf))
      else if n == 0
      then (c, ok [])
      else read_header c n (read_full record_header_size c.input)

  got_some :
      (ℕ → SecureConn C → SecureConn C × Result Error Bytes)
      → ℕ
      → SecureConn C × Result Error Bytes
      → SecureConn C × Result Error Bytes
  got_some more n (c, err e) = (c, err e)
  got_some more n (c, ok out) = prefix out (more (n - length out) c)
    where
      prefix : Bytes → SecureConn C × Result Error Bytes → SecureConn C × Result Error Bytes
      prefix out (c, err e) = (c, err e)
      prefix out (c, ok rest) = (c, ok (out ++ rest))

  -- `io.ReadFull` of `n` bytes over the connection, as the frame reader of package mux calls it; a read
  -- that gives no byte would go on for ever, and runs out of fuel here.
  pub read_exact : ℕ → ℕ → SecureConn C → SecureConn C × Result Error Bytes
  unfolding secure_read got_some
  read_exact fuel zero c = (c, ok [])
  read_exact zero (suc n) c = (c, err (io IoError.unexpected_eof))
  read_exact (suc fuel) (suc n) c =
      got_some (λ m d. read_exact fuel m d) (suc n) (secure_read c (suc n))
