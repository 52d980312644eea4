-- ===== src/Tunnel/Admission.antt =====
-- The peer and the connection that a handshake of desktop/internal/tunnel/handshake.go lets through.
use toppa.Base.{◌≤◌, ◌≡◌, refl, ◌⊎◌, Bool, true, Option, none, some, []}
use toppa.Base.Lists.{length}
use toppa.Base.Results.{ok}
use toppa.Base.Bytes.{Bytes, AreBytes, Writer}
use toppa.Tunnel.Noise.{Cipher, Handshaking}
use toppa.Tunnel.Framing.{pinned_equal, pinned_equal_iff}
use toppa.Tunnel.Handshake.{HandshakeConfig, HandshakeResult, handshake, handshake_agrees}

-- The pinned key, if there is one, consists of bytes.
abbrev pub PinBytes : Option Bytes → Type 0
PinBytes none = Unit
PinBytes (some key) = AreBytes key

-- The peer's key is the pinned one, if there is one.
abbrev pub IsPinned : Option Bytes → Bytes → Type 0
IsPinned none peer = Unit
IsPinned (some key) peer = peer ≡ key

IsPinned-of_equal :
    (pin : Option Bytes) (peer : Bytes)
    → PinBytes pin
    → AreBytes peer
    → ((key : Bytes) → pin ≡ some key → pinned_equal peer key ≡ true)
    → IsPinned pin peer
IsPinned-of_equal none peer hp hb h = tt
IsPinned-of_equal (some key) peer hp hb h = (pinned_equal_iff peer key hb hp).0 (h key refl)

module _ (C : Cipher) (N : Handshaking C) (sha256 : Bytes → Bytes) where
  pub record Admits (config : HandshakeConfig) (r : HandshakeResult C N sha256) : Type 0 where
    pub role : (config.role ≡ 1) ⊎ (config.role ≡ 2)
    pub private_size : length config.static_private ≡ 32
    pub peer_size : length r.peer_static ≡ 32
    pub pinned : IsPinned config.pinned_peer r.peer_static
    pub cap :
        ((config.max_payload ≡ 0) × (r.conn.max_payload ≡ 262144))
        ⊎ (r.conn.max_payload ≡ config.max_payload)
    pub cap_from : 4096 ≤ r.conn.max_payload
    pub cap_to : r.conn.max_payload ≤ 16777216
    pub nothing_buffered : r.conn.rbuf ≡ []

  -- If a handshake succeeds, then, where the peer's key and the pinned key, if there is one, consist of bytes: it was asked for
  -- the role 1 or 2 with a private key of 32 bytes; the peer's key has 32 bytes and equals the pinned key, if there is
  -- one; and the connection starts with nothing buffered and a record cap between 4 KiB and 16 MiB, which is the one that
  -- was asked for, or 256 KiB where 0 was.
  pub handshake-Admits :
      (deadline_set : Bool) (w : Writer) (input : Bytes) (config : HandshakeConfig)
      (r : HandshakeResult C N sha256)
      → PinBytes config.pinned_peer
      → AreBytes r.peer_static
      → handshake C N sha256 deadline_set w input config ≡ ok r
      → Admits config r
  handshake-Admits deadline_set w input config r pin peer e =
      let (key, size, agrees, low, high, empty, role, cap) =
        handshake_agrees C N sha256 deadline_set w input config r e in
      record {
        role = role;
        private_size = key;
        peer_size = size;
        pinned = IsPinned-of_equal config.pinned_peer r.peer_static pin peer agrees;
        cap = cap;
        cap_from = low;
        cap_to = high;
        nothing_buffered = empty;
      }
