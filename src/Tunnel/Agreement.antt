-- ===== src/Tunnel/Agreement.antt =====
-- Two ends that run desktop/internal/tunnel/handshake.go with each other.
use toppa.Base.{
  ◌^◌, ◌≤◌, ◌≡◌, refl, ap, ◌∙◌, true, false, Option, none, some, [], ◌++◌, append_assoc, arith,
}
use toppa.Base.Lists.{length}
use toppa.Base.Results.{ok, ◌>>=◌}
use toppa.Base.Bytes.{Bytes, Writer}
use toppa.Tunnel.Noise.{Cipher, Paired, Handshaking}
use toppa.Tunnel.Framing.{recv_frame}
use toppa.Tunnel.Handshake.{
  HandshakeConfig, HandshakeResult, Agreed, role_initiator, role_responder, with_defaults, received,
  short_auth_string, responder, handshake,
}
use toppa.Tunnel.Honest.{BothStates, ready, not_yet, Honest, framed, framed-Sent, recv_frame-framed}
use toppa.Tunnel.Runs.{
  Capped, Pinned, concluded, initiator_runs, responder_runs, initiates, responds,
}

no_states :
    {C : Cipher} {P : Paired C} {o t : Option (C.State × C.State)}
    → BothStates P o t false
    → (o ≡ none) × (t ≡ none)
no_states not_yet = (refl, refl)

with_states :
    {S M K : Type 0} {f : Option (S × M × Option K)} {s : S} {m : M} {o o' : Option K}
    → f ≡ some (s, m, o)
    → o ≡ o'
    → f ≡ some (s, m, o')
with_states e e' = cc

both_states :
    {C : Cipher} {P : Paired C} {o t : Option (C.State × C.State)}
    → BothStates P o t true
    → (a0 : C.State) × (a1 : C.State) × (b0 : C.State) × (b1 : C.State) × (o ≡ some (a0, a1))
      × (t ≡ some (b0, b1))
      × P.Pair a0 b0
      × P.Pair b1 a1
both_states (ready a0 a1 b0 b1 p q) = (a0, a1, b0, b1, refl, refl, p, q)

module _ (C : Cipher) (N : Handshaking C) (sha256 : Bytes → Bytes) where
  -- What two handshakes leave: `to_initiator` and `to_responder` are the bytes of the messages between them.
  pub record Agreement (P : Paired C) (pa pb more_i more_r : Bytes) (wi wr : Writer)
      (ci cr : HandshakeConfig) : Type 0 where
    pub to_responder : Bytes
    pub to_initiator : Bytes
    pub at_i : HandshakeResult C N sha256
    pub at_r : HandshakeResult C N sha256
    pub initiator_ok : handshake C N sha256 true wi (to_initiator ++ more_i) ci ≡ ok at_i
    pub responder_ok : handshake C N sha256 true wr (to_responder ++ more_r) cr ≡ ok at_r
    pub knows_responder : at_i.peer_static ≡ pb
    pub knows_initiator : at_r.peer_static ≡ pa
    pub same_sas : at_i.sas ≡ at_r.sas
    pub out_pair : P.Pair at_i.conn.write_cs at_r.conn.read_cs
    pub in_pair : P.Pair at_r.conn.write_cs at_i.conn.read_cs
    pub sent_i : at_i.conn.out.sent ≡ wi.sent ++ to_responder
    pub sent_r : at_r.conn.out.sent ≡ wr.sent ++ to_initiator
    pub cap_i : at_i.conn.max_payload ≡ (with_defaults ci).max_payload
    pub cap_r : at_r.conn.max_payload ≡ (with_defaults cr).max_payload
    pub fresh_i : at_i.conn.rbuf ≡ []
    pub fresh_r : at_r.conn.rbuf ≡ []
    pub left_i : at_i.conn.input ≡ more_i
    pub left_r : at_r.conn.input ≡ more_r

  -- Two ends in the two roles, with private keys of 32 bytes, record caps that are 0 or in range, and no pinned key or the
  -- other end's, whose Noise states follow one XX handshake and whose transports take 256 KiB and deliver what the other end
  -- sent: both handshakes succeed, each result names the other end's public key, the two authentication strings are the
  -- same, each end writes with the state that belongs to the one the other end reads with, and each has consumed exactly
  -- the other end's messages and starts with its own cap and nothing buffered.
  pub handshakes_agree :
      (P : Paired C) (H : Honest P N) (pa pb more_i more_r : Bytes) (wi wr : Writer)
      (ci cr : HandshakeConfig)
      → ci.role ≡ role_initiator
      → cr.role ≡ role_responder
      → length ci.static_private ≡ 32
      → length cr.static_private ≡ 32
      → N.public_from_private ci.static_private ≡ some pa
      → N.public_from_private cr.static_private ≡ some pb
      → Pinned pb ci.pinned_peer
      → Pinned pa cr.pinned_peer
      → Capped ci.max_payload
      → Capped cr.max_payload
      → 2 ^ 18 ≤ wi.room
      → 2 ^ 18 ≤ wr.room
      → Agreement P pa pb more_i more_r wi wr ci cr
  unfolding concluded
  handshakes_agree P H pa pb more_i more_r wi wr ci cr ri rr li lr ki kr pini pinr capi capr roomi
        roomr =
      let (s, t, si, sr, f0) = H.starts ci.static_private cr.static_private pa pb ki kr in
      let M1 = H.first s t [] f0 (omega arith) in
      let M2 = H.second M1.t' M1.s' pb M1.next (omega (arith, H.public_size _ _ kr)) in
      let M3 = H.third M2.t' M2.s' pa M2.next (omega (arith, H.public_size _ _ ki)) in
      let n1 = no_states M1.states in
      let n2 = no_states M2.states in
      let (a0, a1, b0, b1, ours, theirs, p, q) = both_states M3.states in
      let S1 = framed-Sent wi M1.msg M1.bounded (omega (arith, M1.bounded, roomi)) in
      let S2 = framed-Sent wr M2.msg M2.bounded (omega (arith, M2.bounded, roomr)) in
      let S3 =
        framed-Sent S1.after M3.msg M3.bounded
          (omega (arith, M3.bounded, M1.bounded, S1.room, roomi)) in
      let we =
        initiator_runs C N sha256 pa pb M1.msg M2.msg M3.msg more_i S1.after S3.after wi s M1.s'
          M2.t' M3.s' a0 a1 (with_states M1.writes n1.0) S1.done
          (recv_frame-framed M2.msg more_i M2.some_byte M2.bounded) (with_states M2.reads n2.1)
          (with_states M3.writes ours) S3.done in
      let you =
        responder_runs C N sha256 pb pa M1.msg M2.msg M3.msg more_r S2.after wr t M1.t' M2.s' M3.t'
          b0 b1 (recv_frame-framed M1.msg (framed M3.msg ++ more_r) M1.some_byte M1.bounded)
          (with_states M1.reads n1.1) (with_states M2.writes n2.0) S2.done
          (recv_frame-framed M3.msg more_r M3.some_byte M3.bounded) (with_states M3.reads theirs) in
      let ai : Agreed C N sha256 = record {
        out = S3.after;
        input = more_i;
        noise = M3.s';
        peer = pb;
        cs_read = a1;
        cs_write = a0;
      } in
      let ar : Agreed C N sha256 = record {
        out = S2.after;
        input = more_r;
        noise = M3.t';
        peer = pa;
        cs_read = b0;
        cs_write = b1;
      } in
      record {
        to_responder = framed M1.msg ++ framed M3.msg;
        to_initiator = framed M2.msg;
        at_i = concluded C N sha256 (with_defaults ci) ai;
        at_r = concluded C N sha256 (with_defaults cr) ar;
        initiator_ok =
            initiates C N sha256 wi _ ci pa s ai ri li capi ki si we (H.public_size _ _ kr) pini;
        responder_ok =
            responds C N sha256 wr _ cr pb t ar rr lr capr kr sr
              (ap (λ i. received (recv_frame i) >>= responder C N sha256 pb t wr)
                  (append_assoc (framed M1.msg) (framed M3.msg) more_r)
                ∙ you)
              (H.public_size _ _ ki) pinr;
        knows_responder = refl;
        knows_initiator = refl;
        same_sas = ap (short_auth_string sha256) M3.next;
        out_pair = p;
        in_pair = q;
        sent_i =
            S3.sent
            ∙ ap (λ x. x ++ framed M3.msg) S1.sent
            ∙ append_assoc wi.sent (framed M1.msg) (framed M3.msg);
        sent_r = S2.sent;
        cap_i = refl;
        cap_r = refl;
        fresh_i = refl;
        fresh_r = refl;
        left_i = refl;
        left_r = refl;
      }
