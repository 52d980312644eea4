-- ===== src/Mux/Frame.antt =====
-- desktop/internal/mux/frame.go: the TLMP frame codec. A byte is a number below 256, a reader and a
-- writer are those of Base/Bytes, and a returned `(nil, err)` is `err`.
pub mod Flags
pub mod RoundTrip
pub mod Bijection
pub mod Writing
use toppa.Base.{
  ℕ, ◌%◌, ◌<◌, ◌≡◌, Bool, true, false, ◌&&◌, not, Option, none, some, [], ◌∷◌, ◌++◌, bit_and,
  bit_xor,
}
use toppa.Base.Tests.{ltb, ◌==◌, if◌then◌else◌}
use toppa.Base.Lists.{length, get_or, is_empty}
use toppa.Base.Results.{Result, ok, err, ◌>>=◌, ◌>>◌, refuse_if, map_err}
use toppa.Base.Bytes.{
  Bytes, AreBytes, u32_mod, slice, be, put_u32, read_full, Writer, write, IoError,
}
use toppa.Mux.Errors.{Error, err_version, err_frame_too_large, err_protocol, io}

abbrev pub protocol_version : ℕ
protocol_version = 1

abbrev pub header_size : ℕ
header_size = 10

abbrev pub flag_syn : ℕ
flag_syn = 0x01

abbrev pub flag_fin : ℕ
flag_fin = 0x02

abbrev pub flag_rst : ℕ
flag_rst = 0x04

abbrev pub flag_win : ℕ
flag_win = 0x08

abbrev pub flag_data : ℕ
flag_data = 0x10

abbrev pub flag_ping : ℕ
flag_ping = 0x20

abbrev pub flag_pong : ℕ
flag_pong = 0x40

abbrev pub flag_goaway : ℕ
flag_goaway = 0x80

abbrev pub reason_normal : ℕ
reason_normal = 0

abbrev pub reason_protocol : ℕ
reason_protocol = 1

abbrev pub reason_busy : ℕ
reason_busy = 2

abbrev pub reason_dup_stream : ℕ
reason_dup_stream = 2

pub record Frame : Type 0 where
  pub version : ℕ
  pub flags : ℕ
  pub stream_id : ℕ
  pub payload : Bytes

-- `flags & mask != 0`
unfoldable pub has : ℕ → ℕ → Bool
has flags mask = not (bit_and flags mask == 0)

-- `flags &^ mask != 0`, on a byte.
unfoldable pub has_other : ℕ → ℕ → Bool
has_other flags mask = not (bit_and flags (bit_xor mask 0xff) == 0)

abbrev pub header : Frame → Bytes
header f =
    protocol_version ∷ f.flags ∷ (put_u32 f.stream_id ++ put_u32 (length f.payload % u32_mod))

-- The payload is written only after the whole header was, and only if there is one.
write_payload : Bytes → Writer × Option IoError → Writer × Option Error
write_payload payload (w, some e) = (w, some (io e))
write_payload payload (w, none) =
    if is_empty payload then (w, none) else lift_error (write w payload)
  where
    lift_error : Writer × Option IoError → Writer × Option Error
    lift_error (v, none) = (v, none)
    lift_error (v, some e) = (v, some (io e))

unfoldable pub write_frame : Writer → Frame → ℕ → Writer × Option Error
unfolding write_payload write
write_frame w f max_payload =
    if not (f.version == protocol_version)
    then (w, some err_version)
    else if ltb max_payload (length f.payload % u32_mod)
    then (w, some err_frame_too_large)
    else write_payload f.payload (write w (header f))

unfoldable pub append_frame : Bytes → Frame → ℕ → Result Error Bytes
append_frame dst f max_payload =
    if not (f.version == protocol_version)
    then err err_version
    else if ltb max_payload (length f.payload % u32_mod)
    then err err_frame_too_large
    else ok ((dst ++ header f) ++ f.payload)

unfoldable pub validate_frame : Frame → Result Error (Unit {0})
validate_frame f =
    if has f.flags flag_syn && has f.flags flag_data
    then err err_protocol
    else if has f.flags 0xe0 && not (f.stream_id == 0)
    then err err_protocol
    else if has f.flags flag_win && not (length f.payload == 4)
    then err err_protocol
    else if has f.flags flag_rst && not (length f.payload == 1)
    then err err_protocol
    else if has f.flags flag_goaway && not (length f.payload == 1)
    then err err_protocol
    else if has_other f.flags 0xff
    then err err_protocol
    else ok tt

unfoldable pub read_payload : ℕ → Bytes → Result Error (Bytes × Bytes)
read_payload size s = if ltb 0 size then map_err io (read_full size s) else ok ([], s)

unfoldable pub read_frame : Bytes → ℕ → Result Error (Frame × Bytes)
read_frame s max_payload = do
  (hdr, body) ← map_err io (read_full header_size s)
  refuse_if (not (get_or hdr 0 0 == protocol_version)) err_version
  let size = be (slice 6 10 hdr)
  refuse_if (ltb max_payload size) err_frame_too_large
  (payload, rest) ← read_payload size body
  let f : Frame = record {
    version = get_or hdr 0 0;
    flags = get_or hdr 1 0;
    stream_id = be (slice 2 6 hdr);
    payload = payload;
  }
  validate_frame f
  ok (f, rest)

-- The values that the struct's fields can hold, and the version that the package writes.
pub record IsWire (f : Frame) : Type 0 where
  pub version_one : f.version ≡ protocol_version
  pub flags_byte : f.flags < 256
  pub id_u32 : f.stream_id < u32_mod
  pub size_u32 : length f.payload < u32_mod
  pub payload_bytes : AreBytes f.payload
