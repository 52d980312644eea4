-- ===== src/Channel/Crossing.antt =====
-- Frames of desktop/internal/mux that cross the connection of desktop/internal/tunnel.
use toppa.Base.{
  append_cancel_left, ℕ, ◌+◌, ◌^◌, ◌<◌, ◌≡◌, refl, sym, ap, ◌∙◌, subst, Option, none, some, List,
  [], ◌∷◌, ◌++◌, append_assoc, append-nil, arith,
}
use toppa.Base.Tests.{ltb_of_le}
use toppa.Base.Lists.{length, All}
use toppa.Base.Results.{Result, ok, fst_eq, snd_eq}
use toppa.Base.Bytes.{Bytes, u32_mod}
use toppa.Mux.Frame.{Frame, header, header_size, validate_frame}
use toppa.Mux.Frame.Flags.{validate_frame-iff-IsLegal}
use toppa.Mux.Frame.RoundTrip.{size_field, id_field}
use toppa.Mux.Frame.Bijection.{IsSendable}
use toppa.Tunnel.Noise.{Cipher, Paired}
use toppa.Tunnel.Record
use toppa.Tunnel.Record.{SecureConn, secure_write, read_exact}
use toppa.Tunnel.Record.RoundTrip.{read_exact-secure_write}
use toppa.Tunnel.Record.Caps.{secure_write_cap, read_exact_cap}
use toppa.Channel.{
  Error, written, write_rest, write_frame, validated, framed, read_rest, read_frame, next_frames,
  write_frames,
}

module _ (C : Cipher) (P : Paired C) where
  -- A writer and a reader that belong together: the same cap in range, nothing buffered, and states that are a pair.
  pub record Joined (c d : SecureConn C) : Type 0 where
    pub positive : 0 < c.max_payload
    pub small : c.max_payload + 16 < 2 ^ 24
    pub same_cap : d.max_payload ≡ c.max_payload
    pub fresh : d.rbuf ≡ []
    pub pair : P.Pair c.write_cs d.read_cs

  -- Bytes that were written by `c`, which is then `c'`, and that `d` reads, which is then `d'`.
  pub record Passed (c d c' : SecureConn C) (p tail : Bytes) : Type 0 where
    pub wire : Bytes
    pub d' : SecureConn C
    pub on_wire : c'.out.sent ≡ c.out.sent ++ wire
    pub got : read_exact (length p) (length p) (record d { input = wire ++ tail }) ≡ (d', ok p)
    pub input : d'.input ≡ tail
    pub joined : Joined c' d'

  written-none :
      (r : SecureConn C × ℕ × Option toppa.Tunnel.Record.Error) (c' : SecureConn C)
      → written r ≡ (c', none)
      → (r.2 ≡ none) × (r.0 ≡ c')
  unfolding written
  written-none (c, n, none) c' h = (refl, fst_eq h)
  written-none (c, n, some e) c' h = absurd (ground (arith, snd_eq h))

  bytes_pass :
      (c d c' : SecureConn C) (p tail : Bytes)
      → Joined c d
      → length p < u32_mod
      → written (secure_write c p) ≡ (c', none)
      → Passed c d c' p tail
  bytes_pass c d c' p tail j hl e =
      let done = written-none (secure_write c p) c' e in
      let (_, (wire, d', sent, got, (fresh, input, pair))) =
        read_exact-secure_write C P c d p tail hl j.positive j.small j.same_cap j.fresh j.pair
          done.0 in
      let cap : c'.max_payload ≡ c.max_payload =
        ap (λ (x : SecureConn C). x.max_payload) (sym done.1) ∙ secure_write_cap C c p in
      let reader : d'.max_payload ≡ d.max_payload =
        ap (λ (x : SecureConn C × Result toppa.Tunnel.Record.Error Bytes). x.0.max_payload)
          (sym got)
        ∙ read_exact_cap C (length p) (length p) (record d { input = wire ++ tail }) in
      record {
        wire = wire;
        d' = d';
        on_wire = ap (λ (x : SecureConn C). x.out.sent) (sym done.1) ∙ sent;
        got = got;
        input = input;
        joined = record {
          positive = omega (arith, cap, j.positive);
          small = omega (arith, cap, j.small);
          same_cap = reader ∙ (j.same_cap ∙ sym cap);
          fresh = fresh;
          pair = subst (λ (x : SecureConn C). P.Pair x.write_cs d'.read_cs) done.1 pair;
        };
      }

  -- A frame that went out without an error: its header, and then its payload if it has one.
  write_rest-none :
      (payload : Bytes) (r : SecureConn C × Option Error) (c' : SecureConn C)
      → write_rest payload r ≡ (c', none)
      → (c1 : SecureConn C) × (r ≡ (c1, none)) × (written (secure_write c1 payload) ≡ (c', none))
  unfolding write_rest written secure_write
  write_rest-none payload (c, some e) c' h = absurd (ground (arith, snd_eq h))
  write_rest-none [] (c, none) c' h = (c, refl, h)
  write_rest-none (b ∷ payload) (c, none) c' h = (c, refl, h)

  write_frame-none :
      (c c' : SecureConn C) (f : Frame) (m : ℕ)
      → write_frame c f m ≡ (c', none)
      → IsSendable m f
      → (c1 : SecureConn C) × (written (secure_write c (header f)) ≡ (c1, none))
        × (written (secure_write c1 f.payload) ≡ (c', none))
  unfolding write_frame
  write_frame-none c c' f m h (w, small, l) =
      write_rest-none f.payload (written (secure_write c (header f))) c' (sent ∙ h)
    where
      sent : write_rest f.payload (written (secure_write c (header f))) ≡ write_frame c f m
      sent = ground (arith, w.version_one, w.size_u32, small)

  framed_back :
      (f : Frame) (m : ℕ) (d1 d2 : SecureConn C)
      → IsSendable m f
      → read_exact (length f.payload) (length f.payload) d1 ≡ (d2, ok f.payload)
      → read_rest m (d1, ok (header f)) ≡ (d2, ok f)
  unfolding read_rest framed validated
  framed_back f m d1 d2 (w, small, l) h =
      rw (size_field f w, ltb_of_le m (length f.payload) small, h, id_field f w)
        (ap {A = Frame} (λ g. (d2, validated g (validate_frame g)))
            (λ i. record f { version = sym w.version_one i })
          ∙ ap (λ r. (d2, validated f r)) ((validate_frame-iff-IsLegal f w.flags_byte).1 l))

  -- The reader has taken these frames, one after the other.
  pub data Received (m : ℕ) : SecureConn C → List Frame → SecureConn C → Type 0 where
    nothing : (d : SecureConn C) → Received m d [] d
    one_more :
        (d d1 d' : SecureConn C) (f : Frame) (fs : List Frame)
        → read_frame d m ≡ (d1, ok f)
        → Received m d1 fs d'
        → Received m d (f ∷ fs) d'

  -- What frames that were written by `c`, which is then `c'`, come to on the other end.
  pub record Crossed (c d c' : SecureConn C) (fs : List Frame) (m : ℕ) (tail : Bytes) : Type 0 where
    pub wire : Bytes
    pub d' : SecureConn C
    pub on_wire : c'.out.sent ≡ c.out.sent ++ wire
    pub got : Received m (record d { input = wire ++ tail }) fs d'
    pub input : d'.input ≡ tail
    pub joined : Joined c' d'

  with_input : (d : SecureConn C) (s : Bytes) → d.input ≡ s → record d { input = s } ≡ d
  with_input d s e = λ i. record d { input = sym e i }

  two_parts : (a b b' x y : Bytes) → b ≡ a ++ x → b' ≡ b ++ y → b' ≡ a ++ (x ++ y)
  two_parts a b b' x y p q = q ∙ (ap (λ z. z ++ y) p ∙ append_assoc a x y)

  -- What the writer sends does not depend on what will follow it.
  same_wire :
      {c d1 d2 c' : SecureConn C} {p t1 t2 : Bytes} (A : Passed c d1 c' p t1)
      (B : Passed c d2 c' p t2)
      → A.wire ≡ B.wire
  same_wire {c = c} A B = append_cancel_left c.out.sent A.wire B.wire (sym A.on_wire ∙ B.on_wire)

  one_frame :
      (c d c' : SecureConn C) (f : Frame) (m : ℕ) (tail : Bytes)
      → Joined c d
      → IsSendable m f
      → write_frame c f m ≡ (c', none)
      → (wire : Bytes) × (d' : SecureConn C) × (c'.out.sent ≡ c.out.sent ++ wire)
        × (read_frame (record d { input = wire ++ tail }) m ≡ (d', ok f))
        × (d'.input ≡ tail)
        × Joined c' d'
  unfolding read_frame
  one_frame c d c' f m tail j h e =
      let (c1, h1, h2) = write_frame-none c c' f m e h in
      let size : length f.payload < u32_mod = h.0.size_u32 in
      let A0 = bytes_pass c d c1 (header f) [] j (omega arith) h1 in
      let B0 = bytes_pass c1 A0.d' c' f.payload tail A0.joined size h2 in
      let A = bytes_pass c d c1 (header f) (B0.wire ++ tail) j (omega arith) h1 in
      let B = bytes_pass c1 A.d' c' f.payload tail A.joined size h2 in
      let whole = append_assoc A.wire B0.wire tail in
      let rest : record A.d' { input = B.wire ++ tail } ≡ A.d' =
        with_input A.d' (B.wire ++ tail) (A.input ∙ ap (λ x. x ++ tail) (same_wire B0 B)) in
      (
        A.wire ++ B0.wire,
        B.d',
        two_parts c.out.sent c1.out.sent c'.out.sent A.wire B0.wire A.on_wire B0.on_wire,
        ap (λ s. read_rest m (read_exact header_size header_size (record d { input = s }))) whole
            ∙ (ap (read_rest m) A.got
                ∙ framed_back f m A.d' B.d' h
                    (ap (read_exact (length f.payload) (length f.payload)) (sym rest) ∙ B.got)),
        B.input,
        B.joined,
      )

  write_frames-none :
      (c c' : SecureConn C) (f : Frame) (fs : List Frame) (m : ℕ)
      → write_frames c (f ∷ fs) m ≡ (c', none)
      → (c1 : SecureConn C) × (write_frame c f m ≡ (c1, none)) × (write_frames c1 fs m ≡ (c', none))
  unfolding write_frames next_frames
  write_frames-none c c' f fs m h = by_first (write_frame c f m) refl h
    where
      later : SecureConn C → SecureConn C × Option Error
      later d = write_frames d fs m

      by_first :
          (r : SecureConn C × Option Error)
          → write_frame c f m ≡ r
          → next_frames fs later r ≡ (c', none)
          → (c1 : SecureConn C) × (write_frame c f m ≡ (c1, none))
            × (write_frames c1 fs m ≡ (c', none))
      by_first (c1, some e) q k = absurd (ground (arith, snd_eq k))
      by_first (c1, none) q k = (c1, q, k)

  -- Between a writer and a reader that belong together, frames that fit their types and the cap, that `validateFrame` accepts, and that
  -- were all written without an error, are read back in order, each as it was, whatever follows them on the transport;
  -- writer and reader still belong together then.
  pub frames_cross :
      (c d c' : SecureConn C) (fs : List Frame) (m : ℕ) (tail : Bytes)
      → Joined c d
      → All (IsSendable m) fs
      → write_frames c fs m ≡ (c', none)
      → Crossed c d c' fs m tail
  unfolding write_frames
  frames_cross c d c' [] m tail j h e = record {
    wire = [];
    d' = record d { input = tail };
    on_wire = ap (λ (x : SecureConn C). x.out.sent) (sym (fst_eq e)) ∙ sym (append-nil c.out.sent);
    got = nothing (record d { input = tail });
    input = refl;
    joined =
        subst (λ x. Joined x (record d { input = tail })) (fst_eq e)
          (record {
            positive = j.positive;
            small = j.small;
            same_cap = j.same_cap;
            fresh = j.fresh;
            pair = j.pair;
          });
  }
  frames_cross c d c' (f ∷ fs) m tail j (h, hs) e =
      let (c1, e1, e2) = write_frames-none c c' f fs m e in
      let (w0, d0, sent0, _, _, joined0) = one_frame c d c1 f m [] j h e1 in
      let B0 = frames_cross c1 d0 c' fs m tail joined0 hs e2 in
      let (w, d1, sent, got, input, joined) = one_frame c d c1 f m (B0.wire ++ tail) j h e1 in
      let B = frames_cross c1 d1 c' fs m tail joined hs e2 in
      let same : B0.wire ≡ B.wire =
        append_cancel_left c1.out.sent B0.wire B.wire (sym B0.on_wire ∙ B.on_wire) in
      record {
        wire = w ++ B0.wire;
        d' = B.d';
        on_wire = two_parts c.out.sent c1.out.sent c'.out.sent w B0.wire sent B0.on_wire;
        got =
            one_more _ d1 B.d' f fs
              (ap (λ s. read_frame (record d { input = s }) m) (append_assoc w B0.wire tail) ∙ got)
              (subst (λ x. Received m x fs B.d')
                (with_input d1 (B.wire ++ tail) (input ∙ ap (λ x. x ++ tail) same)) B.got);
        input = B.input;
        joined = B.joined;
      }
