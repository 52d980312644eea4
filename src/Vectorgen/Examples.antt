-- ===== src/Vectorgen/Examples.antt =====
-- The theorem on the frame vectors at a ping, and the generated vectors put to the readers.
use toppa.Base.{◌≡◌, refl, Bool, true, false, ◌&&◌, Option, none, some, List, [], ◌∷◌, arith}
use toppa.Base.Bytes.{Bytes, codes, read_full}
use toppa.Base.Results.{Result, ok, err}
use toppa.Mux.Frame.{Frame, IsWire, validate_frame, read_frame, read_payload, has, has_other}
use toppa.Mux.Target.{parse_target}
use toppa.Vectorgen.Frames.{FrameCase, Kind, valid, error, from_hex, build_frames}
use toppa.Vectorgen.Targets.{TargetCase, build_targets}
use toppa.Vectorgen.Decoding.{Describes, valid_frame-Describes}

abbrev ping : Frame
ping = record { version = 1; flags = 32; stream_id = 0; payload = 7 ∷ [] }

ping-IsWire : IsWire ping
ping-IsWire = record {
  version_one = refl;
  flags_byte = omega arith;
  id_u32 = omega arith;
  size_u32 = omega arith;
  payload_bytes = (omega arith, tt);
}

ping_accepted : validate_frame ping ≡ ok tt
unfolding validate_frame has has_other
ping_accepted = refl

valid_frame-Describes_example : Describes (codes "ping") ping 64
valid_frame-Describes_example =
    valid_frame-Describes (codes "ping") ping 64 ping-IsWire (omega arith) ping_accepted

abbrev read_back : {A E : Type 0} → Kind → Result E A → Bool
read_back valid (ok a) = true
read_back valid (err e) = false
read_back error (ok a) = false
read_back error (err e) = true

abbrev frame_holds : FrameCase → Option Bytes → Bool
frame_holds c none = false
frame_holds c (some b) = read_back c.kind (read_frame b c.max_payload)

abbrev all_hold : {A : Type 0} → (A → Bool) → List A → Bool
all_hold test [] = true
all_hold test (c ∷ cs) = test c && all_hold test cs

abbrev made_and_hold : {A : Type 0} → (A → Bool) → Option (List A) → Bool
made_and_hold test none = false
made_and_hold test (some cs) = all_hold test cs

-- Every valid vector is read, and every other one refused.
frame_vectors : made_and_hold (λ c. frame_holds c (from_hex c.encoded_hex)) build_frames ≡ true
unfolding build_frames from_hex read_frame read_payload read_full validate_frame has has_other
frame_vectors = refl

abbrev target_holds : TargetCase → Option Bytes → Bool
target_holds c none = false
target_holds c (some b) = read_back c.kind (parse_target b)

target_vectors :
    made_and_hold (λ c. target_holds c (from_hex c.encoded_hex)) (build_targets (λ ip. ip)) ≡ true
unfolding build_targets from_hex parse_target
target_vectors = refl
