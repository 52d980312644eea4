-- ===== src/Tunnel/Handshake.antt =====
-- desktop/internal/tunnel/handshake.go: the three messages of Noise XX, in either role.
use toppa.Base.{
  ℕ, ◌*◌, ◌/◌, ◌%◌, ◌≤◌, ◌≡◌, sym, ap, ◌∙◌, Bool, true, false, ◌&&◌, ◌||◌, not, Option, none, some,
  [], ◌∷◌, ◌++◌, ◌⊎◌, arith,
}
use toppa.Base.Tests.{ltb, ◌==◌, if◌then◌else◌}
use toppa.Base.Lists.{length, take}
use toppa.Base.Results.{Result, ok, err, ◌>>=◌, ◌>>◌, refuse_if, >>=-eq-ok, some_eq}
use toppa.Base.Bytes.{Bytes, be, codes, Writer}
use toppa.Tunnel.Noise.{Cipher, Handshaking}
use toppa.Tunnel.Record.{
  Error, err_peer_mismatch, err_bad_key, err_handshake_failed, err_record_too_large, SecureConn,
}
use toppa.Tunnel.Framing.{send_frame, recv_frame, pinned_equal}

-- A `Role` is any integer of the caller's; these are its two names.
abbrev pub role_initiator : ℕ
role_initiator = 1

abbrev pub role_responder : ℕ
role_responder = 2

abbrev pub default_max_payload : ℕ
default_max_payload = 256 * 1024

abbrev pub min_max_payload : ℕ
min_max_payload = 4 * 1024

abbrev pub max_max_payload : ℕ
max_max_payload = 16 * 1024 * 1024

-- `pinned_peer` is `none` where the code has nil. The timeout only sets the deadline of the transport.
pub record HandshakeConfig : Type 0 where
  pub role : ℕ
  pub static_private : Bytes
  pub pinned_peer : Option Bytes
  pub max_payload : ℕ

unfoldable pub with_defaults : HandshakeConfig → HandshakeConfig
with_defaults c = record c {
  max_payload = if c.max_payload == 0 then default_max_payload else c.max_payload;
}

-- Every error of the messages is wrapped in `ErrHandshakeFailed`.
unfoldable pub sent : Writer × Option Error → Result Error Writer
sent (w, none) = ok w
sent (w, some e) = err err_handshake_failed

unfoldable pub received : Result Error (Bytes × Bytes) → Result Error (Bytes × Bytes)
received (ok r) = ok r
received (err e) = err err_handshake_failed

unfoldable pub crypted {ℓ} : {A : Type ℓ} → Option A → Result Error A
crypted none = err err_handshake_failed
crypted (some a) = ok a

-- The digits of `%06d` of the first four bytes of the hash.
unfoldable pub six_digits : ℕ → Bytes
six_digits n =
    (n / 100000 % 10)
    ∷ (n / 10000 % 10)
    ∷ (n / 1000 % 10)
    ∷ (n / 100 % 10)
    ∷ (n / 10 % 10)
    ∷ (n % 10)
    ∷ []

unfoldable pub short_auth_string : (Bytes → Bytes) → Bytes → Bytes
unfolding six_digits
short_auth_string sha256 handshake_hash =
    six_digits (be (take 4 (sha256 (codes "toppa-sas-v1" ++ handshake_hash))) % 1000000)

-- `sha256`, the cipher and the Noise state machine are arguments.
module _ (C : Cipher) (N : Handshaking C) (sha256 : Bytes → Bytes) where
  pub record HandshakeResult : Type 0 where
    pub conn : SecureConn C
    pub sas : Bytes
    pub peer_static : Bytes

  -- The transport after the last message, the Noise state, and what the messages agreed on.
  pub record Agreed : Type 0 where
    pub out : Writer
    pub input : Bytes
    pub noise : N.State
    pub peer : Bytes
    pub cs_read : C.State
    pub cs_write : C.State

  -- The third message always comes with the two cipher states.
  unfoldable pub initiator_end :
      Bytes → Bytes → Writer → N.State × Bytes × Option (C.State × C.State) → Result Error Agreed
  unfolding sent crypted
  initiator_end peer rest w (hs, m3, cs) = crypted cs >>= λ k. sent (send_frame w m3) >>= λ v.
      ok (record { out = v; input = rest; noise = hs; peer = peer; cs_read = k.1; cs_write = k.0 })

  unfoldable pub initiator_reply :
      Bytes → Bytes → Writer → N.State × Bytes × Option (C.State × C.State) → Result Error Agreed
  unfolding initiator_end
  initiator_reply public rest w (hs, peer, _) =
      crypted (N.write_message hs public) >>= initiator_end peer rest w

  unfoldable pub initiator_second : Bytes → N.State → Writer → Bytes × Bytes → Result Error Agreed
  unfolding initiator_reply
  initiator_second public hs w (m2, rest) =
      crypted (N.read_message hs m2) >>= initiator_reply public rest w

  -- -> e, <- e ee s es, -> s se
  unfoldable pub initiator :
      Bytes → Writer → Bytes → N.State × Bytes × Option (C.State × C.State) → Result Error Agreed
  unfolding initiator_second received
  initiator public w input (hs, m1, _) =
      sent (send_frame w m1) >>= λ v. received (recv_frame input) >>= initiator_second public hs v

  unfoldable pub responder_end :
      Writer → Bytes → N.State × Bytes × Option (C.State × C.State) → Result Error Agreed
  unfolding crypted
  responder_end w rest (hs, peer, cs) = crypted cs >>= λ k.
      ok (record { out = w; input = rest; noise = hs; peer = peer; cs_read = k.0; cs_write = k.1 })

  unfoldable pub responder_third : N.State → Writer → Bytes × Bytes → Result Error Agreed
  unfolding responder_end
  responder_third hs w (m3, rest) = crypted (N.read_message hs m3) >>= responder_end w rest

  unfoldable pub responder_reply :
      Writer → Bytes → N.State × Bytes × Option (C.State × C.State) → Result Error Agreed
  unfolding responder_third sent received
  responder_reply w rest (hs, m2, _) =
      sent (send_frame w m2) >>= λ v. received (recv_frame rest) >>= responder_third hs v

  unfoldable pub responder_second :
      Bytes → Writer → Bytes → N.State × Bytes × Option (C.State × C.State) → Result Error Agreed
  unfolding responder_reply
  responder_second public w rest (hs, _, _) =
      crypted (N.write_message hs public) >>= responder_reply w rest

  -- <- e, -> e ee s es, <- s se
  unfoldable pub responder : Bytes → N.State → Writer → Bytes × Bytes → Result Error Agreed
  unfolding responder_second
  responder public hs w (m1, rest) =
      crypted (N.read_message hs m1) >>= responder_second public w rest

  unfoldable pub exchange : HandshakeConfig → Bytes → Writer → Bytes → N.State → Result Error Agreed
  unfolding initiator responder
  exchange cfg public w input hs =
      if cfg.role == role_initiator
      then crypted (N.write_message hs []) >>= initiator public w input
      else received (recv_frame input) >>= responder public hs w

  unfoldable pub mismatch : Option Bytes → Bytes → Bool
  mismatch none peer = false
  mismatch (some key) peer = not (pinned_equal peer key)

  -- The checks on the peer's key, and the result.
  unfoldable pub conclude : HandshakeConfig → Agreed → Result Error HandshakeResult
  unfolding mismatch short_auth_string
  conclude cfg a =
      refuse_if (not (length a.peer == 32)) err_handshake_failed
      >> refuse_if (mismatch cfg.pinned_peer a.peer) err_peer_mismatch
      >> ok (record {
        conn = record {
          out = a.out;
          input = a.input;
          read_cs = a.cs_read;
          write_cs = a.cs_write;
          max_payload = cfg.max_payload;
          rbuf = [];
        };
        sas = short_auth_string sha256 (N.channel_binding a.noise);
        peer_static = a.peer;
      })

  unfoldable pub bad_key : Option Bytes → Result Error Bytes
  bad_key none = err err_bad_key
  bad_key (some public) = ok public

  unfoldable pub check_config : HandshakeConfig → Result Error (Unit {0})
  check_config cfg =
      refuse_if (not (cfg.role == role_initiator) && not (cfg.role == role_responder)) err_bad_key
      >> refuse_if (not (length cfg.static_private == 32)) err_bad_key
      >> refuse_if (ltb cfg.max_payload min_max_payload || ltb max_max_payload cfg.max_payload)
          err_record_too_large

  unfoldable pub open_messages : Bool → Writer → Bytes → HandshakeConfig → Result Error Agreed
  unfolding bad_key exchange
  open_messages deadline_set w input cfg =
      refuse_if (not deadline_set) err_handshake_failed
      >> bad_key (N.public_from_private cfg.static_private)
      >>= λ public.
          crypted (N.start (cfg.role == role_initiator) cfg.static_private public) >>= λ hs.
          exchange cfg public w input hs

  -- `Handshake` on a transport with what was sent on it and what is still to be received;
  -- `deadline_set` is whether `SetDeadline` succeeded. A failed call leaves the transport to its caller.
  unfoldable pub handshake : Bool → Writer → Bytes → HandshakeConfig → Result Error HandshakeResult
  unfolding check_config open_messages conclude
  handshake deadline_set w input config =
      let cfg = with_defaults config in
      check_config cfg >>= λ _. open_messages deadline_set w input cfg >>= conclude cfg

  conclude-eq-ok :
      (cfg : HandshakeConfig) (a : Agreed) (r : HandshakeResult)
      → conclude cfg a ≡ ok r
      → (r.peer_static ≡ a.peer)
        × (length a.peer ≡ 32)
        × (mismatch cfg.pinned_peer a.peer ≡ false)
        × (r.conn.max_payload ≡ cfg.max_payload)
        × (r.conn.rbuf ≡ [])
  unfolding conclude
  conclude-eq-ok cfg a r e = ground (arith, e)

  check_config-eq-ok :
      (cfg : HandshakeConfig)
      → check_config cfg ≡ ok tt
      → (length cfg.static_private ≡ 32)
        × (min_max_payload ≤ cfg.max_payload)
        × (cfg.max_payload ≤ max_max_payload)
        × ((cfg.role ≡ role_initiator) ⊎ (cfg.role ≡ role_responder))
  unfolding check_config
  check_config-eq-ok cfg e = ground (arith, e)

  mismatch_key :
      (pin : Option Bytes) (peer peer' key : Bytes)
      → peer' ≡ peer
      → pin ≡ some key
      → mismatch pin peer ≡ false
      → pinned_equal peer' key ≡ true
  unfolding mismatch
  mismatch_key none peer peer' key same e h = cc
  mismatch_key (some k) peer peer' key same e h = rw (same, some_eq (sym e)) (ground (arith, h))

  defaults_cap :
      (cfg : HandshakeConfig) (n : ℕ)
      → n ≡ (with_defaults cfg).max_payload
      → ((cfg.max_payload ≡ 0) × (n ≡ default_max_payload)) ⊎ (n ≡ cfg.max_payload)
  unfolding with_defaults
  defaults_cap cfg n e = ground (arith, e)

  -- A handshake that succeeds was asked for one of the two roles with a private key of 32 bytes; its peer's key has 32 bytes and
  -- compares equal with a pinned one; its connection starts with no buffered bytes, and with the record cap that was asked for or
  -- the default one, between 4 KiB and 16 MiB.
  pub handshake_agrees :
      (deadline_set : Bool) (w : Writer) (input : Bytes) (config : HandshakeConfig)
      (r : HandshakeResult)
      → handshake deadline_set w input config ≡ ok r
      → (length config.static_private ≡ 32)
        × (length r.peer_static ≡ 32)
        × ((key : Bytes) → config.pinned_peer ≡ some key → pinned_equal r.peer_static key ≡ true)
        × (min_max_payload ≤ r.conn.max_payload)
        × (r.conn.max_payload ≤ max_max_payload)
        × (r.conn.rbuf ≡ [])
        × ((config.role ≡ role_initiator) ⊎ (config.role ≡ role_responder))
        × (((config.max_payload ≡ 0) × (r.conn.max_payload ≡ default_max_payload))
            ⊎ (r.conn.max_payload ≡ config.max_payload))
  unfolding handshake with_defaults
  handshake_agrees deadline_set w input config r e =
      let cfg = with_defaults config in
      let (_, checked, rest) =
        >>=-eq-ok (check_config cfg) (λ _. open_messages deadline_set w input cfg >>= conclude cfg)
          e in
      let (a, _, last) = >>=-eq-ok (open_messages deadline_set w input cfg) (conclude cfg) rest in
      let (same, size, agrees, cap, empty) = conclude-eq-ok cfg a r last in
      let (key, low, high, role) = check_config-eq-ok cfg checked in
      (
        key,
        ap length same ∙ size,
        λ k pinned. mismatch_key config.pinned_peer a.peer r.peer_static k same pinned agrees,
        ground (arith, cap, low),
        ground (arith, cap, high),
        empty,
        role,
        defaults_cap config r.conn.max_payload cap,
      )
