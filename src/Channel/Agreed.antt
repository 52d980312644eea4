-- ===== src/Channel/Agreed.antt =====
-- Two ends that have run desktop/internal/tunnel/handshake.go with each other, and the frames of desktop/internal/mux between them.
use toppa.Base.{ℕ, ◌+◌, ◌^◌, ◌≤◌, ◌<◌, ◌≡◌, sym, ◌∙◌, true, none, List, ◌++◌, arith}
use toppa.Base.Lists.{All}
use toppa.Base.Bytes.{Bytes, Writer}
use toppa.Mux.Frame.{Frame}
use toppa.Mux.Frame.Bijection.{IsSendable}
use toppa.Tunnel.Noise.{Cipher, Paired, Handshaking}
use toppa.Tunnel.Record.{SecureConn}
use toppa.Tunnel.Handshake.{HandshakeConfig, min_max_payload, with_defaults, handshake_agrees}
use toppa.Tunnel.Agreement.{Agreement}
use toppa.Channel.{write_frames}
use toppa.Channel.Crossing.{Crossed, frames_cross}

module _ (C : Cipher) (N : Handshaking C) (sha256 : Bytes → Bytes) (P : Paired C) where
  -- After two handshakes that agreed, with the same record cap on both ends and that cap more than 16 bytes below 16 MiB: the frames
  -- that either end writes first, if they fit their types and the payload cap of the session, `validateFrame` accepts them and none of the writes fails, are read
  -- back on the other end in order, each as it was, whatever follows them.
  pub agreed_frames_cross :
      (pa pb more_i more_r : Bytes) (wi wr : Writer) (ci cr : HandshakeConfig)
      (A : Agreement C N sha256 P pa pb more_i more_r wi wr ci cr) (fi fr : List Frame) (m : ℕ)
      (c_i c_r : SecureConn C) (tail_i tail_r : Bytes)
      → (with_defaults ci).max_payload ≡ (with_defaults cr).max_payload
      → (with_defaults ci).max_payload + 16 < 2 ^ 24
      → All (IsSendable m) fi
      → All (IsSendable m) fr
      → write_frames A.at_i.conn fi m ≡ (c_i, none)
      → write_frames A.at_r.conn fr m ≡ (c_r, none)
      → Crossed C P A.at_i.conn A.at_r.conn c_i fi m tail_i
        × Crossed C P A.at_r.conn A.at_i.conn c_r fr m tail_r
  agreed_frames_cross pa pb more_i more_r wi wr ci cr A fi fr m c_i c_r tail_i tail_r same small hi
        hr ei er =
      (
        frames_cross C P A.at_i.conn A.at_r.conn c_i fi m tail_i
            (record {
              positive = omega (arith, low_i);
              small = omega (arith, A.cap_i, small);
              same_cap = A.cap_r ∙ sym same ∙ sym A.cap_i;
              fresh = A.fresh_r;
              pair = A.out_pair;
            })
            hi ei,
        frames_cross C P A.at_r.conn A.at_i.conn c_r fr m tail_r
            (record {
              positive = omega (arith, low_r);
              small = omega (arith, A.cap_r, small, same);
              same_cap = A.cap_i ∙ same ∙ sym A.cap_r;
              fresh = A.fresh_i;
              pair = A.in_pair;
            })
            hr er,
      )
    where
      low_i : min_max_payload ≤ A.at_i.conn.max_payload
      low_i =
          (handshake_agrees C N sha256 true wi (A.to_initiator ++ more_i) ci A.at_i
            A.initiator_ok).3

      low_r : min_max_payload ≤ A.at_r.conn.max_payload
      low_r =
          (handshake_agrees C N sha256 true wr (A.to_responder ++ more_r) cr A.at_r
            A.responder_ok).3
