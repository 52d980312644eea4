-- ===== src/Mux/Frame/RoundTrip.antt =====
-- `AppendFrame` against `ReadFrame` of frame.go.
use toppa.Base.{
  ◌+◌, ◌∙◌, subst, zero, suc, inl, inr, ℕ, ◌≤◌, ◌≡◌, refl, sym, ap, [], ◌∷◌, ◌++◌, arith,
}
use toppa.Base.Tests.{ltb, ltb_of_le, Bool-cases}
use toppa.Base.Lists.{length-append, length, take-append-drop, length-take, All-append_left}
use toppa.Base.Results.{ok, ◌>>=◌}
use toppa.Base.Bytes.{
  Bytes, IsByte, AreBytes, slice, be, put_u32, be-put_u32, read_full, read_full-append,
}
use toppa.Mux.Frame.{Frame, IsWire, header, append_frame, validate_frame, read_payload, read_frame}

-- The bytes of a frame.
abbrev pub encode : Frame → Bytes
encode f = header f ++ f.payload

pub append_frame-encode :
    (dst : Bytes) (f : Frame) (max_payload : ℕ)
    → IsWire f
    → length f.payload ≤ max_payload
    → append_frame dst f max_payload ≡ ok ((dst ++ header f) ++ f.payload)
unfolding append_frame
append_frame-encode dst f m w h = ground (arith, w.version_one, w.size_u32)

read_payload-append : (p rest : Bytes) → read_payload (length p) (p ++ rest) ≡ ok (p, rest)
unfolding read_payload
read_payload-append [] rest = refl
read_payload-append (b ∷ p) rest = rw (read_full-append (b ∷ p) rest) (ground arith)

pub size_field : (f : Frame) → IsWire f → be (slice 6 10 (header f)) ≡ length f.payload
size_field f w = omega (arith, w.size_u32)

pub id_field : (f : Frame) → IsWire f → be (slice 2 6 (header f)) ≡ f.stream_id
id_field f w = be-put_u32 f.stream_id w.id_u32

-- Reading back the bytes of a frame that fits its types and whose payload is within the cap,
-- whatever follows them, gives that frame and what follows, or the error of its validation.
pub read_frame-encode :
    (f : Frame) (max_payload : ℕ) (rest : Bytes)
    → IsWire f
    → length f.payload ≤ max_payload
    → read_frame (header f ++ (f.payload ++ rest)) max_payload
      ≡ (validate_frame f >>= λ _. ok (f, rest))
unfolding read_frame
read_frame-encode f m rest w h =
    rw
      (
        read_full-append (header f) (f.payload ++ rest),
        size_field f w,
        id_field f w,
        ltb_of_le m (length f.payload) h,
        read_payload-append f.payload rest,
      )
      (ap {A = Frame} (λ g. validate_frame g >>= λ _. ok (g, rest))
        (λ i. record f { version = sym w.version_one i }))

pub read_full-eq-ok :
    (n : ℕ) (s p rest : Bytes) → read_full n s ≡ ok (p, rest) → (s ≡ p ++ rest) × (length p ≡ n)
unfolding read_full
read_full-eq-ok n s p rest e = elim (Bool-cases (ltb (length s) n)) [
  | inl short ↦ ground (arith, e)
  | inr enough ↦ ground (arith, e, take-append-drop n s, length-take n s)
]

read_payload-eq-ok :
    (n : ℕ) (s p rest : Bytes) → read_payload n s ≡ ok (p, rest) → (s ≡ p ++ rest) × (length p ≡ n)
unfolding read_payload
read_payload-eq-ok zero s p rest e = ground (arith, e)
read_payload-eq-ok (suc n) s p rest e = read_full-eq-ok (suc n) s p rest (ground (arith, e))

-- What the reader takes from a header of ten bytes.
header_inversion :
    (v x i0 i1 i2 i3 s0 s1 s2 s3 m : ℕ) (body rest : Bytes) (f : Frame)
    → read_frame (v ∷ x ∷ i0 ∷ i1 ∷ i2 ∷ i3 ∷ s0 ∷ s1 ∷ s2 ∷ s3 ∷ body) m ≡ ok (f, rest)
    → (v ≡ 1)
      × (be (s0 ∷ s1 ∷ s2 ∷ s3 ∷ []) ≤ m)
      × (body ≡ f.payload ++ rest)
      × (length f.payload ≡ be (s0 ∷ s1 ∷ s2 ∷ s3 ∷ []))
      × (f ≡ record {
        version = v;
        flags = x;
        stream_id = be (i0 ∷ i1 ∷ i2 ∷ i3 ∷ []);
        payload = f.payload;
      })
      × (validate_frame f ≡ ok tt)
unfolding read_frame
header_inversion v x i0 i1 i2 i3 s0 s1 s2 s3 m body rest f e =
    let e' = rw (read_full-append (v ∷ x ∷ i0 ∷ i1 ∷ i2 ∷ i3 ∷ s0 ∷ s1 ∷ s2 ∷ s3 ∷ []) body) at e in
    ground (arith, e', read_payload-eq-ok (be (s0 ∷ s1 ∷ s2 ∷ s3 ∷ [])) body f.payload rest)

put_u32-be :
    (a b c d : ℕ)
    → IsByte a
    → IsByte b
    → IsByte c
    → IsByte d
    → put_u32 (be (a ∷ b ∷ c ∷ d ∷ [])) ≡ a ∷ b ∷ c ∷ d ∷ []
put_u32-be a b c d ha hb hc hd = ground arith

-- A frame that was read from a sequence of bytes is the only one with its bytes: the input is the
-- encoding of the frame and then the bytes that are left, the frame fits its types and the cap,
-- and it has passed validation.
pub read_frame_sound :
    (s : Bytes) (max_payload : ℕ) (f : Frame) (rest : Bytes)
    → AreBytes s
    → read_frame s max_payload ≡ ok (f, rest)
    → (s ≡ header f ++ (f.payload ++ rest))
      × IsWire f
      × (length f.payload ≤ max_payload)
      × (validate_frame f ≡ ok tt)
read_frame_sound (v ∷ x ∷ i0 ∷ i1 ∷ i2 ∷ i3 ∷ s0 ∷ s1 ∷ s2 ∷ s3 ∷ body) m f rest
      (hv, (hx, (a0, (a1, (a2, (a3, (b0, (b1, (b2, (b3, hb)))))))))) e =
    let (v1, cap, split, len, shape, good) =
      header_inversion v x i0 i1 i2 i3 s0 s1 s2 s3 m body rest f e in
    let fx = ap Frame.flags shape in
    let fi = ap Frame.stream_id shape in
    let body_bytes = subst AreBytes split hb in
    (
      ground (arith, v1, split, fx, fi, len, a0, a1, a2, a3, b0, b1, b2, b3),
      record {
        version_one = ap Frame.version shape ∙ v1;
        flags_byte = omega (arith, fx);
        id_u32 = omega (arith, fi);
        size_u32 = omega arith;
        payload_bytes = All-append_left IsByte f.payload rest body_bytes;
      },
      omega arith,
      good,
    )
read_frame_sound _ m f rest _ e = unfold read_frame read_full in ground (arith, e)

-- A frame that was read took ten bytes or more.
pub read_frame-shrinks :
    (s : Bytes) (m : ℕ) (f : Frame) (rest : Bytes)
    → read_frame s m ≡ ok (f, rest)
    → length rest + 10 ≤ length s
read_frame-shrinks (v ∷ x ∷ i0 ∷ i1 ∷ i2 ∷ i3 ∷ s0 ∷ s1 ∷ s2 ∷ s3 ∷ body) m f rest e =
    let (_, _, split, _, _, _) = header_inversion v x i0 i1 i2 i3 s0 s1 s2 s3 m body rest f e in
    omega (arith, ap length split, length-append f.payload rest)
read_frame-shrinks _ m f rest e = unfold read_frame read_full in ground (arith, e)
