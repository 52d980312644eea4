-- ===== src/Tunnel/Record/RoundTrip.antt =====
-- What is written on one end of a tunnel (secure.go) is read on the other.
use toppa.Base.{
  ℕ, zero, suc, ◌+◌, ◌-◌, ◌^◌, ◌≤◌, ◌<◌, ◌≡◌, refl, sym, ap, ◌∙◌, subst, Option, none, some, [],
  ◌∷◌, ◌++◌, append-nil, append_assoc, arith,
}
use toppa.Base.Lists.{length, take, drop, length-append, length-take, length-drop, take-append-drop}
use toppa.Base.Results.{Result, ok, fst_eq, snd_eq}
use toppa.Base.Bytes.{Bytes, u32_mod, put_u24, Writer, write}
use toppa.Tunnel.Noise.{Cipher, Paired}
use toppa.Tunnel.Record.{
  SecureConn, Error, cipher, write_record, record_size, send_ciphertext, after_record, write_loop,
  secure_write, secure_read, read_exact, got_some,
}
use toppa.Tunnel.Record.Reading.{
  Carries, nothing_left, one_record, Carries-empty, Pending, read_Reads,
}

module _ (C : Cipher) (cap : ℕ) (small : cap + 16 < 2 ^ 24) where
  got_some-ok :
      (more : ℕ → SecureConn C → SecureConn C × Result Error Bytes) (n : ℕ) (r d : SecureConn C)
      (out rest : Bytes)
      → more (n - length out) r ≡ (d, ok rest)
      → got_some more n (r, ok out) ≡ (d, ok (out ++ rest))
  unfolding got_some
  got_some-ok more n r d out rest e = ground (arith, e)

  -- A full read of all that is pending gives it, and leaves what follows on the transport.
  read_exact_all :
      (fuel : ℕ) (c : SecureConn C) (p tail : Bytes) (r' : C.State)
      → length p ≤ fuel
      → Pending C cap small c p tail r'
      → (d : SecureConn C) × (read_exact fuel (length p) c ≡ (d, ok p))
        × Pending C cap small d [] tail r'
  unfolding read_exact
  read_exact_all fuel c [] tail r' enough h = (c, refl, h)
  read_exact_all zero c (b ∷ p) tail r' enough h = absurd (omega arith)
  read_exact_all (suc fuel) c (b ∷ p) tail r' enough h =
      let r =
        read_Reads C cap small c (length (b ∷ p)) (b ∷ p) tail r' c.rbuf (omega arith) (omega arith)
          refl h in
      let len = ap length r.front in
      let (d, e, after) =
        read_exact_all fuel (secure_read c (length (b ∷ p))).0 r.left tail r'
          (omega (arith, len, length-append r.out r.left, r.some_out)) r.pending in
      let c1 = (secure_read c (length (b ∷ p))).0 in
      let first : secure_read c (length (b ∷ p)) ≡ (c1, ok r.out) = λ i. (c1, r.result i) in
      let count : length (b ∷ p) - length r.out ≡ length r.left =
        omega (arith, len, length-append r.out r.left) in
      (
        d,
        ap (got_some (λ m d. read_exact fuel m d) (length (b ∷ p))) first
            ∙ (got_some-ok (λ m d. read_exact fuel m d) (length (b ∷ p)) c1 d r.out r.left
                  (ap (λ m. read_exact fuel m c1) count ∙ e)
                ∙ λ i. (d, ok (sym r.front i))),
        after,
      )

-- A record that was written: its ciphertext is on the transport behind its length.
record Sent (C : Cipher) (c c' : SecureConn C) (n : ℕ) (p : Bytes) : Type 0 where
  ct : Bytes
  encrypted : C.encrypt c.write_cs (take n p) ≡ some (c'.write_cs, ct)
  on_wire : c'.out.sent ≡ c.out.sent ++ (put_u24 (length ct) ++ ct)
  same_cap : c'.max_payload ≡ c.max_payload

module _ (C : Cipher) where
  send_ciphertext-ok :
      (ct h : Bytes) (w w' : Writer)
      → send_ciphertext ct (write w h) ≡ (w', none)
      → w'.sent ≡ w.sent ++ (h ++ ct)
  unfolding send_ciphertext write
  send_ciphertext-ok ct h w w' e = ground (arith, e, append_assoc w.sent h ct)

  write_record-Sent :
      (c c' : SecureConn C) (n : ℕ) (p : Bytes) → write_record c n p ≡ (c', none) → Sent C c c' n p
  unfolding write_record
  write_record-Sent c c' n p = by_cipher (C.encrypt c.write_cs (take n p)) refl
    where
      by_cipher :
          (o : Option (C.State × Bytes))
          → C.encrypt c.write_cs (take n p) ≡ o
          → (elim o as (λ _. SecureConn C × Option Error) [
            | none ↦ (c, some cipher)
            | some (cs, ct) ↦ (
              record c {
                write_cs = cs;
                out = (send_ciphertext ct (write c.out (put_u24 (length ct)))).0;
              },
              (send_ciphertext ct (write c.out (put_u24 (length ct)))).1,
            )
          ])
            ≡ (c', none)
          → Sent C c c' n p
      by_cipher none q h = absurd (ground (arith, snd_eq h))
      by_cipher (some (cs, ct)) q h =
          let sent = send_ciphertext ct (write c.out (put_u24 (length ct))) in
          let ok_sent : sent ≡ (sent.0, none) = λ i. (sent.0, snd_eq h i) in
          record {
            ct = ct;
            encrypted = q ∙ ap (λ (x : SecureConn C). some (x.write_cs, ct)) (fst_eq h);
            on_wire =
                ap (λ (x : SecureConn C). x.out.sent) (sym (fst_eq h))
                ∙ send_ciphertext-ok ct (put_u24 (length ct)) c.out sent.0 ok_sent;
            same_cap = ap (λ (x : SecureConn C). x.max_payload) (sym (fst_eq h));
          }

empty_of_length : (x : Bytes) → length x ≡ 0 → x ≡ []
empty_of_length [] h = refl
empty_of_length (b ∷ x) h = absurd (omega arith)

-- What a loop of records has put on the transport, for a reader in state `r`.
record Wrote (C : Cipher) (P : Paired C) (c : SecureConn C) (p : Bytes) (total : ℕ) (r : C.State)
    (res : SecureConn C × ℕ × Option Error) : Type 0 where
  wire : Bytes
  r' : C.State
  on_wire : res.0.out.sent ≡ c.out.sent ++ wire
  carries : Carries C c.max_payload r wire p r'
  in_step : P.Pair res.0.write_cs r'
  counted : res.1 ≡ total + length p

module _ (C : Cipher) (P : Paired C) where
  record_size_lem :
      (left cap : ℕ)
      → 0 < left
      → left < u32_mod
      → 0 < cap
      → (0 < record_size left cap) × (record_size left cap ≤ left) × (record_size left cap ≤ cap)
  record_size_lem left cap hl hl' hc = ground arith

  after_record-none :
      (k : SecureConn C → ℕ → Bytes → SecureConn C × ℕ × Option Error) (total n : ℕ) (p : Bytes)
      (x : SecureConn C × Option Error)
      → (after_record k total n p x).2 ≡ none
      → (x.1 ≡ none) × (after_record k total n p x ≡ k x.0 (total + n) (drop n p))
  unfolding after_record
  after_record-none k total n p (c, none) e = (refl, refl)
  after_record-none k total n p (c, some x) e = absurd (ground (arith, e))

  write_loop-Wrote :
      (fuel : ℕ) (c : SecureConn C) (total : ℕ) (p : Bytes) (r : C.State)
      → length p ≤ fuel
      → length p < u32_mod
      → 0 < c.max_payload
      → P.Pair c.write_cs r
      → (write_loop fuel c total p).2 ≡ none
      → Wrote C P c p total r (write_loop fuel c total p)
  unfolding write_loop
  write_loop-Wrote fuel c total [] r enough hl hc w e = record {
    wire = [];
    r' = r;
    on_wire = sym (append-nil c.out.sent);
    carries = nothing_left r;
    in_step = w;
    counted = omega arith;
  }
  write_loop-Wrote zero c total (b ∷ p) r enough hl hc w e = absurd (omega arith)
  write_loop-Wrote (suc fuel) c total (b ∷ p) r enough hl hc w e =
      let q = b ∷ p in
      let n = record_size (length q) c.max_payload in
      let k = λ (c' : SecureConn C) (t : ℕ) (x : Bytes). write_loop fuel c' t x in
      let x = write_record c n q in
      let (pos, le, cap) = record_size_lem (length q) c.max_payload (omega arith) hl hc in
      let (none_yet, step) = after_record-none k total n q x e in
      let s = write_record-Sent C c x.0 n q (λ i. (x.0, none_yet i)) in
      let (r1, opened, paired) = P.opens c.write_cs r x.0.write_cs (take n q) s.ct w s.encrypted in
      let tag = P.overhead c.write_cs x.0.write_cs (take n q) s.ct s.encrypted in
      let more =
        write_loop-Wrote fuel x.0 (total + n) (drop n q) r1 (omega (arith, length-drop n q, pos))
          (omega (arith, length-drop n q)) (omega (arith, s.same_cap)) paired
          (ap (λ (y : SecureConn C × ℕ × Option Error). y.2) (sym step) ∙ e) in
      let size = length-take n q in
      subst (Wrote C P c q total r) (sym step) (record {
        wire = put_u24 (length s.ct) ++ (s.ct ++ more.wire);
        r' = more.r';
        on_wire = more.on_wire ∙ rw s.on_wire (simp append_assoc);
        carries =
            one_record r r1 more.r' s.ct (take n q) more.wire (drop n q) _ q opened
              (omega (arith, size, pos, le)) (omega (arith, tag))
              (omega (arith, tag, size, cap, le))
              (subst (λ m. Carries C m r1 more.wire (drop n q) more.r') s.same_cap more.carries)
              refl (sym (take-append-drop n q));
        in_step = more.in_step;
        counted = omega (arith, more.counted, length-drop n q, le);
      })

  -- For less than 2^32 bytes, and two connections of the same record cap, which is above 0 and more than 16 bytes below
  -- 2^24, the writer's cipher state belonging to the reader's and the reader having nothing buffered: a write that returns no error
  -- has written all of its bytes, and the reader reads exactly these bytes back from what was sent, whatever follows it on the
  -- transport, and has nothing buffered then; the two states still belong together afterwards.
  pub read_exact-secure_write :
      (c d : SecureConn C) (p tail : Bytes)
      → length p < u32_mod
      → 0 < c.max_payload
      → c.max_payload + 16 < 2 ^ 24
      → d.max_payload ≡ c.max_payload
      → d.rbuf ≡ []
      → P.Pair c.write_cs d.read_cs
      → (secure_write c p).2 ≡ none
      → ((secure_write c p).1 ≡ length p)
        × ((wire : Bytes) × (d' : SecureConn C) × ((secure_write c p).0.out.sent
              ≡ c.out.sent ++ wire)
            × (read_exact (length p) (length p) (record d { input = wire ++ tail }) ≡ (d', ok p))
            × ((d'.rbuf ≡ [])
                × (d'.input ≡ tail)
                × P.Pair (secure_write c p).0.write_cs d'.read_cs))
  unfolding secure_write
  read_exact-secure_write c d p tail hl hc small same empty pair e =
      let t = write_loop-Wrote (length p) c 0 p d.read_cs (omega arith) hl hc pair e in
      let (d', got, rest) =
        read_exact_all C c.max_payload small (length p) (record d { input = t.wire ++ tail }) p tail
          t.r' (omega arith)
          (record {
            wire = t.wire;
            rest = p;
            capped = same;
            carries = t.carries;
            split = ap (λ x. x ++ p) (sym empty);
            at = refl;
          }) in
      let len = ap length rest.split in
      let both = length-append d'.rbuf rest.rest in
      let (no_wire, state) = Carries-empty rest.carries (omega (arith, len, both)) in
      (
        t.counted ∙ omega arith,
        (
          t.wire,
          d',
          t.on_wire,
          got,
          (
            empty_of_length d'.rbuf (omega (arith, len, both)),
            rest.at ∙ ap (λ x. x ++ tail) no_wire,
            subst (P.Pair (secure_write c p).0.write_cs) (sym state) t.in_step,
          ),
        ),
      )
