-- ===== src/Tunnel/Runs.antt =====
-- Runs of desktop/internal/tunnel/handshake.go whose messages all go through, in either role.
use toppa.Base.{ℕ, ◌≤◌, ◌≡◌, refl, ◌⊎◌, inl, inr, true, false, Option, none, some, [], ◌++◌, arith}
use toppa.Base.Tests.{◌==◌}
use toppa.Base.Lists.{length}
use toppa.Base.Results.{ok, ◌>>=◌}
use toppa.Base.Bytes.{Bytes, AreBytes, Writer}
use toppa.Tunnel.Noise.{Cipher, Handshaking}
use toppa.Tunnel.Framing.{send_frame, recv_frame, pinned_equal_iff}
use toppa.Tunnel.Handshake.{
  HandshakeConfig, HandshakeResult, Agreed, role_initiator, role_responder, min_max_payload,
  max_max_payload, with_defaults, sent, received, crypted, short_auth_string, initiator_end,
  initiator_reply, initiator_second, initiator, responder_end, responder_third, responder_reply,
  responder_second, responder, exchange, mismatch, conclude, bad_key, check_config, open_messages,
  handshake,
}
use toppa.Tunnel.Honest.{framed}

-- A record cap that the configuration may name: 0 for the default, or one in range.
unfoldable pub Capped : ℕ → Type 0
Capped cap = (cap ≡ 0) ⊎ ((min_max_payload ≤ cap) × (cap ≤ max_max_payload))

-- No pinned key, or the peer's.
pub data Pinned (key : Bytes) : Option Bytes → Type 0 where
  unpinned : Pinned key none
  pinned : AreBytes key → Pinned key (some key)

module _ (C : Cipher) (N : Handshaking C) (sha256 : Bytes → Bytes) where
  -- The initiator's three messages.
  pub initiator_runs :
      (public peer m1 m2 m3 more : Bytes) (w1 w3 w : Writer) (s0 s1 s2 s3 : N.State)
      (k0 k1 : C.State)
      → N.write_message s0 [] ≡ some (s1, m1, none)
      → send_frame w m1 ≡ (w1, none)
      → recv_frame (framed m2 ++ more) ≡ ok (m2, more)
      → N.read_message s1 m2 ≡ some (s2, peer, none)
      → N.write_message s2 public ≡ some (s3, m3, some (k0, k1))
      → send_frame w1 m3 ≡ (w3, none)
      → (crypted (N.write_message s0 []) >>= initiator C N sha256 public w (framed m2 ++ more))
        ≡ ok (record {
          out = w3;
          input = more;
          noise = s3;
          peer = peer;
          cs_read = k1;
          cs_write = k0;
        })
  unfolding initiator initiator_second initiator_reply initiator_end sent received crypted
  initiator_runs public peer m1 m2 m3 more w1 w3 w s0 s1 s2 s3 k0 k1 e1 f1 g r e3 f3 =
      rw (e1, f1, g, r, e3, f3) refl

  pub responder_runs :
      (public peer m1 m2 m3 more : Bytes) (w2 w : Writer) (s0 s1 s2 s3 : N.State) (k0 k1 : C.State)
      → recv_frame (framed m1 ++ (framed m3 ++ more)) ≡ ok (m1, framed m3 ++ more)
      → N.read_message s0 m1 ≡ some (s1, [], none)
      → N.write_message s1 public ≡ some (s2, m2, none)
      → send_frame w m2 ≡ (w2, none)
      → recv_frame (framed m3 ++ more) ≡ ok (m3, more)
      → N.read_message s2 m3 ≡ some (s3, peer, some (k0, k1))
      → (received (recv_frame (framed m1 ++ (framed m3 ++ more)))
          >>= responder C N sha256 public s0 w)
        ≡ ok (record {
          out = w2;
          input = more;
          noise = s3;
          peer = peer;
          cs_read = k0;
          cs_write = k1;
        })
  unfolding responder responder_second responder_reply responder_third responder_end sent received
      crypted
  responder_runs public peer m1 m2 m3 more w2 w s0 s1 s2 s3 k0 k1 g1 r1 e f g3 r3 =
      rw (g1, r1, e, f, g3, r3) refl

  -- What `conclude` makes of messages that agreed on a peer's key of 32 bytes that its pin allows.
  unfoldable pub concluded : HandshakeConfig → Agreed C N sha256 → HandshakeResult C N sha256
  concluded cfg a = record {
    conn = record {
      out = a.out;
      input = a.input;
      read_cs = a.cs_read;
      write_cs = a.cs_write;
      max_payload = cfg.max_payload;
      rbuf = [];
    };
    sas = short_auth_string sha256 (N.channel_binding a.noise);
    peer_static = a.peer;
  }

  handshake_runs :
      (w : Writer) (input : Bytes) (cfg : HandshakeConfig) (public : Bytes) (s : N.State)
      (a : Agreed C N sha256)
      → check_config C N sha256 (with_defaults cfg) ≡ ok tt
      → N.public_from_private cfg.static_private ≡ some public
      → N.start (cfg.role == role_initiator) cfg.static_private public ≡ some s
      → exchange C N sha256 (with_defaults cfg) public w input s ≡ ok a
      → length a.peer ≡ 32
      → mismatch C N sha256 cfg.pinned_peer a.peer ≡ false
      → handshake C N sha256 true w input cfg ≡ ok (concluded (with_defaults cfg) a)
  unfolding handshake open_messages conclude with_defaults concluded bad_key crypted
  handshake_runs w input cfg public s a checked key begins ran size allowed =
      rw (checked, key, begins, ran) (ground (arith, size, allowed))

  checked :
      (cfg : HandshakeConfig)
      → (cfg.role ≡ role_initiator) ⊎ (cfg.role ≡ role_responder)
      → length cfg.static_private ≡ 32
      → Capped cfg.max_payload
      → check_config C N sha256 (with_defaults cfg) ≡ ok tt
  unfolding check_config with_defaults Capped
  checked cfg (inl i) l (inl c) = ground (arith, i, l, c)
  checked cfg (inr r) l (inl c) = ground (arith, r, l, c)
  checked cfg (inl i) l (inr c) = ground (arith, i, l, c)
  checked cfg (inr r) l (inr c) = ground (arith, r, l, c)

  allowed :
      (pin : Option Bytes) (key peer : Bytes)
      → Pinned key pin
      → peer ≡ key
      → mismatch C N sha256 pin peer ≡ false
  unfolding mismatch
  allowed none key peer unpinned e = refl
  allowed (some k) key peer (pinned bytes) e =
      rw (e, (pinned_equal_iff key key bytes bytes).1 refl) refl

  pub initiates :
      (w : Writer) (input : Bytes) (cfg : HandshakeConfig) (public : Bytes) (s : N.State)
      (a : Agreed C N sha256)
      → cfg.role ≡ role_initiator
      → length cfg.static_private ≡ 32
      → Capped cfg.max_payload
      → N.public_from_private cfg.static_private ≡ some public
      → N.start true cfg.static_private public ≡ some s
      → (crypted (N.write_message s []) >>= initiator C N sha256 public w input) ≡ ok a
      → length a.peer ≡ 32
      → Pinned a.peer cfg.pinned_peer
      → handshake C N sha256 true w input cfg ≡ ok (concluded (with_defaults cfg) a)
  unfolding exchange with_defaults
  initiates w input cfg public s a role l cap key begins ran size pin =
      handshake_runs w input cfg public s a (checked cfg (inl role) l cap) key (rw role begins)
        (rw role ran) size (allowed cfg.pinned_peer a.peer a.peer pin refl)

  pub responds :
      (w : Writer) (input : Bytes) (cfg : HandshakeConfig) (public : Bytes) (s : N.State)
      (a : Agreed C N sha256)
      → cfg.role ≡ role_responder
      → length cfg.static_private ≡ 32
      → Capped cfg.max_payload
      → N.public_from_private cfg.static_private ≡ some public
      → N.start false cfg.static_private public ≡ some s
      → (received (recv_frame input) >>= responder C N sha256 public s w) ≡ ok a
      → length a.peer ≡ 32
      → Pinned a.peer cfg.pinned_peer
      → handshake C N sha256 true w input cfg ≡ ok (concluded (with_defaults cfg) a)
  unfolding exchange with_defaults
  responds w input cfg public s a role l cap key begins ran size pin =
      handshake_runs w input cfg public s a (checked cfg (inr role) l cap) key (rw role begins)
        (rw role ran) size (allowed cfg.pinned_peer a.peer a.peer pin refl)
