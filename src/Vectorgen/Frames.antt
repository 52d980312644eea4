-- ===== src/Vectorgen/Frames.antt =====
-- The frame vectors of desktop/cmd/vectorgen/main.go. A fatal error is none.
use toppa.Base.{ℕ, ◌+◌, ◌-◌, ◌*◌, ◌/◌, ◌%◌, bit_or, ◌&&◌, Option, none, some, List, [], ◌∷◌, ◌++◌}
use toppa.Base.Tests.{ltb, leb, if◌then◌else◌}
use toppa.Base.Lists.{length}
use toppa.Base.Bytes.{Bytes, codes, put_u32}
use toppa.Base.Results.{Result, ok, err}
use toppa.Mux.Errors.{Error}
use toppa.Mux.Frame.{
  Frame, append_frame, flag_syn, flag_fin, flag_rst, flag_win, flag_data, flag_ping, flag_pong,
  flag_goaway, reason_busy, reason_normal,
}
use toppa.Mux.Target.{Target, append_target, tcp_fqdn, tcp_v4, net_tcp, atyp_ipv6}

pub data Kind : Type 0 where
  valid error : Kind

pub record FrameCase : Type 0 where
  pub name : Bytes
  pub kind : Kind
  pub reason : Bytes
  pub max_payload : ℕ
  pub version : ℕ
  pub flags : ℕ
  pub stream_id : ℕ
  pub payload_hex : Bytes
  pub encoded_hex : Bytes

abbrev pub hex_digit : ℕ → ℕ
hex_digit d = if ltb d 10 then 48 + d else 87 + d

-- `hex.EncodeToString`
unfoldable pub to_hex : Bytes → Bytes
to_hex [] = []
to_hex (b ∷ bs) = hex_digit (b / 16) ∷ hex_digit (b % 16) ∷ to_hex bs

abbrev pub digit_of : ℕ → Option ℕ
digit_of c =
    if leb 48 c && leb c 57
    then some (c - 48)
    else if leb 97 c && leb c 102
    then some (c - 87)
    else if leb 65 c && leb c 70
    then some (c - 55)
    else none

abbrev pub joined : Option ℕ → Option ℕ → Option Bytes → Option Bytes
joined (some h) (some l) (some rest) = some ((h * 16 + l) ∷ rest)
joined none l rest = none
joined (some h) none rest = none
joined (some h) (some l) none = none

-- `hex.DecodeString`
unfoldable pub from_hex : Bytes → Option Bytes
from_hex [] = some []
from_hex (c ∷ []) = none
from_hex (c ∷ d ∷ s) = joined (digit_of c) (digit_of d) (from_hex s)

abbrev pub encoded_case : Bytes → Frame → ℕ → Result Error Bytes → Option FrameCase
encoded_case name f max_payload (err e) = none
encoded_case name f max_payload (ok encoded) = some (record {
  name = name;
  kind = valid;
  reason = [];
  max_payload = max_payload;
  version = f.version;
  flags = f.flags;
  stream_id = f.stream_id;
  payload_hex = to_hex f.payload;
  encoded_hex = to_hex encoded;
})

-- `validFrame`
unfoldable pub valid_frame : Bytes → Frame → ℕ → Option FrameCase
unfolding append_frame
valid_frame name f max_payload = encoded_case name f max_payload (append_frame [] f max_payload)

abbrev pub raw_case : Bytes → Bytes → ℕ → ℕ → ℕ → ℕ → Option Bytes → Option FrameCase
raw_case name reason max_payload version flags stream_id none = none
raw_case name reason max_payload version flags stream_id (some payload) = some (record {
  name = name;
  kind = error;
  reason = reason;
  max_payload = max_payload;
  version = 0;
  flags = 0;
  stream_id = 0;
  payload_hex = [];
  encoded_hex = to_hex (
      (version % 256) ∷ (flags % 256) ∷ (put_u32 stream_id ++ put_u32 (length payload) ++ payload));
})

-- `rawErrorFrame`
unfoldable pub raw_error_frame : Bytes → Bytes → ℕ → ℕ → ℕ → ℕ → Bytes → Option FrameCase
unfolding from_hex to_hex
raw_error_frame name reason max_payload version flags stream_id payload_hex =
    raw_case name reason max_payload version flags stream_id (from_hex payload_hex)

abbrev pub collected : {A : Type 0} → List (Option A) → Option (List A)
collected [] = some []
collected (none ∷ cs) = none
collected (some c ∷ cs) = elim (collected cs) [ none ↦ none | some ds ↦ some (c ∷ ds) ]

unfoldable pub frame_of : ℕ → ℕ → Bytes → Frame
frame_of flags stream_id payload = record {
  version = 1;
  flags = flags;
  stream_id = stream_id;
  payload = payload;
}

-- `fd00One`
abbrev pub fd00_one : Bytes
fd00_one = 0xfd ∷ 0 ∷ 0 ∷ 0 ∷ 0 ∷ 0 ∷ 0 ∷ 0 ∷ 0 ∷ 0 ∷ 0 ∷ 0 ∷ 0 ∷ 0 ∷ 0 ∷ 1 ∷ []

-- The block of a target that may be refused.
abbrev pub block_of : Result Error Target → Bytes
block_of (ok t) = append_target [] t
block_of (err e) = []

abbrev pub max_frame : ℕ
max_frame = 65536

-- `buildFrames`
unfoldable pub build_frames : Option (List FrameCase)
unfolding valid_frame raw_error_frame frame_of append_target tcp_fqdn
build_frames =
    let one = 1 ∷ 2 ∷ 3 ∷ 4 ∷ 5 ∷ 6 ∷ 7 ∷ 8 ∷ [] in
    collected (
      valid_frame (codes "data_simple") (frame_of flag_data 1 (codes "hello tlmp")) max_frame
      ∷ valid_frame (codes "syn_fqdn")
          (frame_of flag_syn 3 (block_of (tcp_fqdn (codes "example.com") 443))) max_frame
      ∷ valid_frame (codes "syn_ipv4")
          (frame_of flag_syn 5 (append_target [] (tcp_v4 (192 ∷ 168 ∷ 1 ∷ 1 ∷ []) 8080))) max_frame
      ∷ valid_frame (codes "syn_ipv6")
          (frame_of flag_syn 7 (
            append_target []
              (record { network = net_tcp; atyp = atyp_ipv6; address = fd00_one; port = 53 })))
          max_frame
      ∷ valid_frame (codes "win_update") (frame_of flag_win 9 (0 ∷ 1 ∷ 0 ∷ 0 ∷ [])) max_frame
      ∷ valid_frame (codes "fin") (frame_of flag_fin 11 []) max_frame
      ∷ valid_frame (codes "rst") (frame_of flag_rst 13 (reason_busy ∷ [])) max_frame
      ∷ valid_frame (codes "ping") (frame_of flag_ping 0 one) max_frame
      ∷ valid_frame (codes "pong") (frame_of flag_pong 0 one) max_frame
      ∷ valid_frame (codes "goaway") (frame_of flag_goaway 0 (reason_normal ∷ [])) max_frame
      ∷ valid_frame (codes "data_high_stream_id") (frame_of flag_data 65535 (0xaa ∷ [])) max_frame
      ∷ raw_error_frame (codes "reject_unsupported_version") (codes "unsupported_version") max_frame
          2 flag_data 1 []
      ∷ raw_error_frame (codes "reject_frame_too_large") (codes "frame_too_large") 4 1 flag_data 1
          (codes "aabbccddee")
      ∷ raw_error_frame (codes "reject_ping_with_stream_id") (codes "control_stream_id") max_frame 1
          flag_ping 4 (codes "0000000000000000")
      ∷ raw_error_frame (codes "reject_win_short_payload") (codes "win_payload_size") max_frame 1
          flag_win 1 (codes "0001")
      ∷ raw_error_frame (codes "reject_rst_short_payload") (codes "rst_payload_size") max_frame 1
          flag_rst 1 (codes "0001")
      ∷ raw_error_frame (codes "reject_goaway_with_stream_id") (codes "control_stream_id") max_frame
          1 flag_goaway 7 (codes "00")
      ∷ raw_error_frame (codes "reject_syn_combined_with_data") (codes "syn_with_data") max_frame 1
          (bit_or flag_syn flag_data) 1 []
      ∷ [])
