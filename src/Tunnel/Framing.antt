-- ===== src/Tunnel/Framing.antt =====
-- The two-byte framing of handshake messages, and the comparison of pinned keys
-- (desktop/internal/tunnel/handshake.go).
use toppa.Base.{
  ℕ, ◌+◌, ◌*◌, ◌%◌, ◌^◌, ◌≤◌, ◌<◌, ◌≡◌, ◌↔◌, refl, ap, ◌∙◌, Bool, true, false, not, Option, none,
  some, [], ◌∷◌, ◌++◌, append_assoc, bit_or, bit_xor, arith,
}
use toppa.Base.Tests.{ltb, ltb→lt, ◌==◌, if◌then◌else◌, ==_iff, ==_refl}
use toppa.Base.Lists.{length}
use toppa.Base.Results.{Result, ok, err}
use toppa.Base.Bytes.{
  Bytes, AreBytes, be, put_u16, be-put_u16, read_full, read_full-append, Writer, write, IoError,
}
use toppa.Base.Tables.{all_below, all_below_sound}
use toppa.Tunnel.Record.{Error, err_handshake_failed, io}

abbrev pub handshake_header_size : ℕ
handshake_header_size = 2

abbrev pub handshake_max_message : ℕ
handshake_max_message = 64 * 1024

unfoldable pub send_message : Bytes → Writer × Option IoError → Writer × Option Error
send_message msg (w, some e) = (w, some (io e))
send_message msg (w, none) = lift_error (write w msg)
  where
    lift_error : Writer × Option IoError → Writer × Option Error
    lift_error (v, none) = (v, none)
    lift_error (v, some e) = (v, some (io e))

-- `sendFrame`; the length goes through `uint16`.
unfoldable pub send_frame : Writer → Bytes → Writer × Option Error
unfolding send_message write
send_frame w msg =
    if ltb handshake_max_message (length msg)
    then (w, some err_handshake_failed)
    else send_message msg (write w (put_u16 (length msg % 2 ^ 16)))

unfoldable pub recv_body : Result IoError (Bytes × Bytes) → Result Error (Bytes × Bytes)
recv_body (err e) = err (io e)
recv_body (ok (msg, rest)) = ok (msg, rest)

unfoldable pub recv_header : Result IoError (Bytes × Bytes) → Result Error (Bytes × Bytes)
unfolding recv_body
recv_header (err e) = err (io e)
recv_header (ok (hdr, rest)) =
    let size = be hdr in
    if size == 0 then err err_handshake_failed else recv_body (read_full size rest)

-- `recvFrame`: the message and the bytes behind it. `readFull` of this file reads as `io.ReadFull`.
unfoldable pub recv_frame : Bytes → Result Error (Bytes × Bytes)
unfolding recv_header
recv_frame s = recv_header (read_full handshake_header_size s)

-- A message of 1 to 65535 bytes that was sent whole is received, whatever follows it.
pub recv_frame-send_frame :
    (w w' : Writer) (msg rest : Bytes)
    → 0 < length msg
    → length msg < 2 ^ 16
    → send_frame w msg ≡ (w', none)
    → (bs : Bytes) × (w'.sent ≡ w.sent ++ bs) × (recv_frame (bs ++ rest) ≡ ok (msg, rest))
unfolding send_frame recv_frame recv_header recv_body
recv_frame-send_frame w w' msg rest hp hl e = (
  put_u16 (length msg) ++ msg,
  ground (arith, e, append_assoc w.sent (put_u16 (length msg)) msg),
  ground (
    arith,
    be-put_u16 (length msg) hl,
    read_full-append (put_u16 (length msg)) (msg ++ rest),
    read_full-append msg rest,
  ),
)

-- A message of exactly 65536 bytes, on a connection with room for it, passes the sender's check,
-- and its length field says 0, which the receiver refuses.
pub send_frame_64k :
    (w w' : Writer) (msg rest : Bytes)
    → length msg ≡ 2 ^ 16
    → length msg + 2 ≤ w.room
    → send_frame w msg ≡ (w', none)
    → (bs : Bytes) × (w'.sent ≡ w.sent ++ bs) × (recv_frame (bs ++ rest) ≡ err err_handshake_failed)
unfolding send_frame recv_frame recv_header
send_frame_64k w w' msg rest hl room e = (
  put_u16 0 ++ msg,
  ground (arith, e, append_assoc w.sent (put_u16 0) msg),
  ground (arith, read_full-append (put_u16 0) (msg ++ rest)),
)

-- The loop of `pinnedEqual` over the bytes of two keys of one length, with the bits that differed so
-- far.
unfoldable pub differing : ℕ → Bytes → Bytes → ℕ
differing v [] b = v
differing v (x ∷ a) [] = v
differing v (x ∷ a) (y ∷ b) = differing (bit_or v (bit_xor x y)) a b

unfoldable pub pinned_equal : Bytes → Bytes → Bool
unfolding differing
pinned_equal a b = if not (length a == length b) then false else differing 0 a b == 0

abbrev same : Bool → Bool → Bool
same true b = b
same false true = false
same false false = true

same_eq : (a b : Bool) → same a b ≡ true → a ≡ b
same_eq a b h = ground arith

both_zero : ℕ → ℕ → Bool
both_zero v d = if v == 0 then d == 0 else false

or_table : all_below 256 (λ v. all_below 256 (λ d. same (bit_or v d == 0) (both_zero v d))) ≡ true
unfolding all_below both_zero
or_table = refl

xor_table : all_below 256 (λ x. all_below 256 (λ y. same (bit_xor x y == 0) (x == y))) ≡ true
unfolding all_below
xor_table = refl

or_bytes : all_below 256 (λ v. all_below 256 (λ d. ltb (bit_or v d) 256)) ≡ true
unfolding all_below
or_bytes = refl

xor_bytes : all_below 256 (λ x. all_below 256 (λ y. ltb (bit_xor x y) 256)) ≡ true
unfolding all_below
xor_bytes = refl

at :
    (p : ℕ → ℕ → Bool)
    → all_below 256 (λ x. all_below 256 (p x)) ≡ true
    → (x y : ℕ) → x < 256
    → y < 256
    → p x y ≡ true
at p table x y hx hy =
    all_below_sound 256 (p x) y (all_below_sound 256 (λ x. all_below 256 (p x)) x table hx) hy

or_zero : (v d : ℕ) → v < 256 → d < 256 → (bit_or v d == 0) ≡ both_zero v d
or_zero v d hv hd =
    same_eq _ _ (at (λ v d. same (bit_or v d == 0) (both_zero v d)) or_table v d hv hd)

xor_zero : (x y : ℕ) → x < 256 → y < 256 → (bit_xor x y == 0) ≡ (x == y)
xor_zero x y hx hy = same_eq _ _ (at (λ x y. same (bit_xor x y == 0) (x == y)) xor_table x y hx hy)

or_byte : (v d : ℕ) → v < 256 → d < 256 → ltb (bit_or v d) 256 ≡ true
or_byte v d hv hd = at (λ v d. ltb (bit_or v d) 256) or_bytes v d hv hd

xor_byte : (x y : ℕ) → x < 256 → y < 256 → ltb (bit_xor x y) 256 ≡ true
xor_byte x y hx hy = at (λ x y. ltb (bit_xor x y) 256) xor_bytes x y hx hy

or_zero_parts : (v d : ℕ) → v < 256 → d < 256 → bit_or v d ≡ 0 → (v ≡ 0) × (d ≡ 0)
unfolding both_zero
or_zero_parts v d hv hd e = ground (arith, or_zero v d hv hd, ap (λ n. n == 0) e)

cons_eq : {x y : ℕ} {a b : Bytes} → x ≡ y → a ≡ b → (x ∷ a) ≡ (y ∷ b)
cons_eq p q = cc

differing_zero :
    (v : ℕ) (a b : Bytes)
    → v < 256
    → AreBytes a
    → AreBytes b
    → length a ≡ length b
    → differing v a b ≡ 0
    → (v ≡ 0) × (a ≡ b)
unfolding differing
differing_zero v [] [] hv ha hb el e = (e, refl)
differing_zero v [] (y ∷ b) hv ha hb el e = absurd (omega arith)
differing_zero v (x ∷ a) [] hv ha hb el e = absurd (omega arith)
differing_zero v (x ∷ a) (y ∷ b) hv (hx, ha) (hy, hb) el e =
    let d = xor_byte x y hx hy in
    let rest =
      differing_zero (bit_or v (bit_xor x y)) a b
        (ltb→lt _ _ (or_byte v (bit_xor x y) hv (ltb→lt _ _ d))) ha hb (omega arith) e in
    let parts = or_zero_parts v (bit_xor x y) hv (ltb→lt _ _ d) rest.0 in
    (parts.0, cons_eq (ground (arith, xor_zero x y hx hy, parts.1)) rest.1)

differing_same : (a : Bytes) → AreBytes a → differing 0 a a ≡ 0
unfolding differing
differing_same [] h = refl
differing_same (x ∷ a) (hx, h) =
    let z : bit_xor x x ≡ 0 = (==_iff _ _).0 (xor_zero x x hx hx ∙ ==_refl x) in
    rw z (differing_same a h)

-- Pinned keys of bytes compare equal exactly when they are the same key.
pub pinned_equal_iff : (a b : Bytes) → AreBytes a → AreBytes b → (pinned_equal a b ≡ true) ↔ (a ≡ b)
unfolding pinned_equal
pinned_equal_iff a b ha hb = (
  λ e. (differing_zero 0 a b (omega arith) ha hb (ground (arith, e)) (ground (arith, e))).1,
  λ e. ground (arith, e, differing_same a ha),
)
