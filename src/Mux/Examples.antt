-- ===== src/Mux/Examples.antt =====
-- The theorems on package mux at concrete frames, targets, streams and sessions.
use std.Equiv.{IsEquiv}
use toppa.Mux.Frame.Bijection.{encoded, encoded-IsEquiv}
use toppa.Base.{◌≤◌, ◌≡◌, ◌↔◌, refl, [], ◌∷◌, ◌++◌, inl, arith}
use toppa.Base.Lists.{length}
use toppa.Base.Results.{ok}
use toppa.Base.Bytes.{Bytes, read_full, Writer}
use toppa.Mux.Frame.{
  Frame, header, validate_frame, has, has_other, read_payload, read_frame, IsWire,
}
use toppa.Mux.Frame.Flags.{IsLegal, validate_frame-iff-IsLegal}
use toppa.Mux.Frame.RoundTrip.{read_frame_sound}
use toppa.Mux.Target.{tcp_v4, Target, IsTarget, append_target, parse_target}
use toppa.Mux.Target.RoundTrip.{parse_target-append_target}
use toppa.Mux.Target.Parsing.{Accepted, parse_target_sound}

abbrev ping : Frame
ping = record { version = 1; flags = 32; stream_id = 0; payload = 7 ∷ [] }

ping-IsWire : IsWire ping
ping-IsWire = record {
  version_one = refl;
  flags_byte = omega arith;
  id_u32 = omega arith;
  size_u32 = omega arith;
  payload_bytes = (omega arith, tt);
}

abbrev ping_bytes : Bytes
ping_bytes = 1 ∷ 32 ∷ 0 ∷ 0 ∷ 0 ∷ 0 ∷ 0 ∷ 0 ∷ 0 ∷ 1 ∷ 7 ∷ 9 ∷ []

read_frame_sound_example :
    (ping_bytes ≡ header ping ++ (ping.payload ++ (9 ∷ [])))
    × IsWire ping
    × (length ping.payload ≤ 64)
    × (validate_frame ping ≡ ok tt)
unfolding read_frame read_payload validate_frame has has_other read_full
read_frame_sound_example = read_frame_sound ping_bytes 64 ping (9 ∷ []) (ground arith) refl

validate_frame-iff-IsLegal_example : (validate_frame ping ≡ ok tt) ↔ IsLegal ping
validate_frame-iff-IsLegal_example = validate_frame-iff-IsLegal ping (omega arith)

abbrev wide : Writer
wide = record { sent = []; room = 100 }

abbrev host : Target
host = tcp_v4 (10 ∷ 0 ∷ 0 ∷ 1 ∷ []) 80

host-IsTarget : IsTarget host
host-IsTarget = record {
  known_network = inl refl;
  sized = inl (refl, refl);
  address_bytes = (omega arith, (omega arith, (omega arith, (omega arith, tt))));
  port_u16 = omega arith;
}

parse_target-append_target_example : parse_target (append_target [] host ++ (5 ∷ [])) ≡ ok host
parse_target-append_target_example = parse_target-append_target host (5 ∷ []) host-IsTarget

abbrev host_bytes : Bytes
host_bytes = 1 ∷ 1 ∷ 10 ∷ 0 ∷ 0 ∷ 1 ∷ 0 ∷ 80 ∷ []

parse_target_sound_example : Accepted host_bytes host
unfolding parse_target
parse_target_sound_example = parse_target_sound host_bytes host (ground arith) refl

abbrev named : Target
named = record { network = 1; atyp = 3; address = 97 ∷ []; port = 443 }

encoded-IsEquiv_example : IsEquiv (encoded 16384)
encoded-IsEquiv_example = encoded-IsEquiv 16384
