-- ===== src/Mux/Frame/Bijection.antt =====
-- The frames of frame.go as a type, and the bytes on the wire as another.
use std.Equiv.{Iso, IsEquiv, iso_to_equiv}
use std.HLevel.{Σ_prop_path}
use native.Mathlib.Bridge.{le_prop}
use toppa.Base.{ℕ, ◌%◌, ◌≤◌, ◌<◌, ◌≡◌, refl, sym, ap, ◌∙◌, [], ◌∷◌, ◌++◌, append-nil, arith}
use toppa.Base.Lists.{length, All-append}
use toppa.Base.Results.{Result, ok, ◌>>=◌}
use toppa.Base.Bytes.{Bytes, IsByte, AreBytes}
use toppa.Mux.Errors.{Error}
use toppa.Mux.Frame.{Frame, IsWire, header, validate_frame, read_frame}
use toppa.Mux.Frame.Flags.{IsLegal, validate_frame-iff-IsLegal}
use toppa.Mux.Frame.RoundTrip.{encode, read_frame-encode, read_frame_sound}

-- A frame that fits its types and the cap and that keeps to the rules of `validateFrame`.
abbrev pub IsSendable : ℕ → Frame → Type 0
IsSendable m f = IsWire f × (length f.payload ≤ m) × IsLegal f

-- Bytes that the reader takes as one frame, with nothing left.
abbrev pub IsAccepted : ℕ → Bytes → Type 0
IsAccepted m s = AreBytes s × ((f : Frame) × (read_frame s m ≡ ok (f, [])))

header_bytes : (f : Frame) → IsWire f → AreBytes (header f)
header_bytes f w = (
  omega arith,
  (
    w.flags_byte,
    (byte _, (byte _, (byte _, (byte _, (byte _, (byte _, (byte _, (byte _, tt)))))))),
  ),
)
  where
    byte : (n : ℕ) → n % 256 < 256
    byte n = omega arith

AreBytes-prop : (b : Bytes) → IsProp (AreBytes b)
AreBytes-prop [] = hlevel
AreBytes-prop (x ∷ b) = hlevel (le_prop, AreBytes-prop b)

frame_set : IsSet Frame
frame_set = hlevel

IsWire-prop : (f : Frame) → IsProp (IsWire f)
IsWire-prop f = hlevel (le_prop, AreBytes-prop)

IsLegal-prop : (f : Frame) → IsProp (IsLegal f)
IsLegal-prop f = hlevel

IsSendable-prop : (m : ℕ) (f : Frame) → IsProp (IsSendable m f)
IsSendable-prop m f = hlevel (le_prop, IsWire-prop, IsLegal-prop)

results_set : IsSet (Result Error (Frame × Bytes))
results_set = hlevel

ok_frame : {f g : Frame} → ◌≡◌ {A = Result Error (Frame × Bytes)} (ok (f, [])) (ok (g, [])) → f ≡ g
ok_frame e = cc

IsAccepted-prop : (m : ℕ) (s : Bytes) → IsProp (IsAccepted m s)
IsAccepted-prop m s = hlevel (AreBytes-prop s, one_frame)
  where
    one_frame : IsProp ((f : Frame) × (read_frame s m ≡ ok (f, [])))
    one_frame u v = Σ_prop_path (λ f. results_set _ _) (ok_frame (sym u.1 ∙ v.1))

legal : (f : Frame) → IsWire f → IsLegal f → validate_frame f ≡ ok tt
legal f w l = (validate_frame-iff-IsLegal f w.flags_byte).1 l

encode_bytes : (m : ℕ) (f : Frame) → IsSendable m f → AreBytes (encode f)
encode_bytes m f (w, c, l) =
    All-append IsByte (header f) f.payload (header_bytes f w) w.payload_bytes

read_frame_whole : (m : ℕ) (f : Frame) → IsSendable m f → read_frame (encode f) m ≡ ok (f, [])
read_frame_whole m f (w, c, l) =
    ap (λ x. read_frame (header f ++ x) m) (sym (append-nil f.payload))
    ∙ read_frame-encode f m [] w c
    ∙ ap (λ r. r >>= λ _. ok (f, [])) (legal f w l)

accepted-IsSendable :
    (m : ℕ) (s : Bytes) (a : IsAccepted m s) → IsSendable m a.1.0 × (encode a.1.0 ≡ s)
accepted-IsSendable m s (b, (f, e)) =
    let (split, w, c, v) = read_frame_sound s m f [] b e in
    (
      (w, c, (validate_frame-iff-IsLegal f w.flags_byte).0 v),
      ap (λ x. header f ++ x) (sym (append-nil f.payload)) ∙ sym split,
    )

-- The encoding of a frame that may be sent, as bytes that are accepted.
pub encoded : (m : ℕ) → (f : Frame) × IsSendable m f → (s : Bytes) × IsAccepted m s
encoded m (f, h) = (encode f, (encode_bytes m f h, (f, read_frame_whole m f h)))

-- Encoding is an equivalence between the frames that fit their types and the cap and that keep to the rules of `validateFrame` (no SYN with
-- DATA, control frames on stream 0, and WIN, RST and GOAWAY payloads of four, one and one bytes), and the sequences of bytes that
-- the reader takes as one frame with nothing left: each frame has one such sequence, and each such sequence one frame.
pub encoded-IsEquiv : (m : ℕ) → IsEquiv (encoded m)
unfolding encoded
encoded-IsEquiv m = (iso_to_equiv frames).1
  where
    frames : Iso ((f : Frame) × IsSendable m f) ((s : Bytes) × IsAccepted m s)
    frames = record {
      fun = encoded m;
      inv = λ (s, a). (a.1.0, (accepted-IsSendable m s a).0);
      rinv = λ y. Σ_prop_path (IsAccepted-prop m) {v = y} (accepted-IsSendable m y.0 y.1).1;
      linv = λ x. Σ_prop_path (IsSendable-prop m) {v = x} refl;
    }
