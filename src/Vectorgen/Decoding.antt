-- ===== src/Vectorgen/Decoding.antt =====
-- What the vectors of desktop/cmd/vectorgen/main.go say of the frames.
use toppa.Base.{
  ℕ, ◌+◌, ◌*◌, ◌/◌, ◌%◌, ◌≤◌, ◌<◌, ◌≡◌, refl, sym, ap, ◌∙◌, some, [], ◌∷◌, ◌++◌, append-nil, arith,
}
use toppa.Base.Lists.{length, All-append}
use toppa.Base.Bytes.{Bytes, AreBytes, put_u32, u32_mod}
use toppa.Base.Results.{ok, ◌>>=◌}
use toppa.Mux.Frame.{Frame, header, append_frame, validate_frame, read_frame, IsWire}
use toppa.Mux.Frame.RoundTrip.{read_frame-encode}
use toppa.Vectorgen.Frames
use toppa.Vectorgen.Frames.{
  FrameCase, hex_digit, digit_of, joined, to_hex, from_hex, encoded_case, valid_frame,
}

digit_of-hex_digit : (d : ℕ) → d < 16 → digit_of (hex_digit d) ≡ some d
digit_of-hex_digit d h = ground (arith, h)

joined-digits :
    (b : ℕ) (bs : Bytes)
    → b < 256
    → joined (digit_of (hex_digit (b / 16))) (digit_of (hex_digit (b % 16))) (some bs)
      ≡ some (b ∷ bs)
joined-digits b bs h =
    rw (digit_of-hex_digit (b / 16) (omega (arith, h)), digit_of-hex_digit (b % 16) (omega arith))
      (ap (λ x. some (x ∷ bs)) (let q : b / 16 * 16 + b % 16 ≡ b = omega arith in q))

-- Hex digits stand for the bytes that they were made of.
pub from_hex-to_hex : (bs : Bytes) → AreBytes bs → from_hex (to_hex bs) ≡ some bs
unfolding from_hex to_hex
from_hex-to_hex [] h = refl
from_hex-to_hex (b ∷ bs) (hb, h) = rw (from_hex-to_hex bs h) (joined-digits b bs hb)

put_u32-AreBytes : (v : ℕ) → AreBytes (put_u32 v)
put_u32-AreBytes v = (omega arith, (omega arith, (omega arith, (omega arith, tt))))

frame-AreBytes : (f : Frame) → IsWire f → AreBytes (header f ++ f.payload)
frame-AreBytes f w =
    All-append (λ b. b < 256) (header f) f.payload
      (
        omega arith,
        (
          w.flags_byte,
          All-append (λ b. b < 256) (put_u32 f.stream_id) (put_u32 (length f.payload % u32_mod))
              (put_u32-AreBytes f.stream_id) (put_u32-AreBytes (length f.payload % u32_mod)),
        ),
      )
      w.payload_bytes

append_frame-IsWire :
    (f : Frame) (most : ℕ)
    → IsWire f
    → length f.payload ≤ most
    → append_frame [] f most ≡ ok (header f ++ f.payload)
unfolding append_frame
append_frame-IsWire f most w h = ground (arith, w.version_one, w.size_u32, h)

-- A vector for a frame: its hex digits are those of the frame's bytes, which the reader takes back to the frame.
pub record Describes (name : Bytes) (f : Frame) (most : ℕ) : Type 0 where
  pub row : FrameCase
  pub made : valid_frame name f most ≡ some row
  pub encoded : from_hex row.encoded_hex ≡ some (header f ++ f.payload)
  pub payload : from_hex row.payload_hex ≡ some f.payload
  pub fields : (row.version ≡ f.version) × (row.flags ≡ f.flags) × (row.stream_id ≡ f.stream_id)
  pub reads : read_frame (header f ++ f.payload) most ≡ ok (f, [])

-- For every frame whose fields fit the header, that `validateFrame` accepts and whose payload is within the cap,
-- `validFrame` succeeds, the hex digits of its row decode to the bytes of the frame and to its payload, its fields are
-- those of the frame, and `ReadFrame` with the same cap reads the frame back from these bytes and nothing is left.
pub valid_frame-Describes :
    (name : Bytes) (f : Frame) (most : ℕ)
    → IsWire f
    → length f.payload ≤ most
    → validate_frame f ≡ ok tt
    → Describes name f most
unfolding valid_frame
valid_frame-Describes name f most w h v = record {
  row = record {
    name = name;
    kind = toppa.Vectorgen.Frames.Kind.valid;
    reason = [];
    max_payload = most;
    version = f.version;
    flags = f.flags;
    stream_id = f.stream_id;
    payload_hex = to_hex f.payload;
    encoded_hex = to_hex (header f ++ f.payload);
  };
  made = ap (encoded_case name f most) (append_frame-IsWire f most w h);
  encoded = from_hex-to_hex (header f ++ f.payload) (frame-AreBytes f w);
  payload = from_hex-to_hex f.payload w.payload_bytes;
  fields = (refl, refl, refl);
  reads =
      ap (λ b. read_frame b most) (ap (λ p. header f ++ p) (sym (append-nil f.payload)))
      ∙ read_frame-encode f most [] w h
      ∙ ap (λ x. x >>= λ _. ok (f, [])) v;
}
