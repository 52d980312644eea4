-- ===== src/Toppactl/Pairing.antt =====
-- The authentication of `runPing` and `handleServeConn` of desktop/cmd/toppactl/main.go, with the key store.
use toppa.Base.{ℕ, Bool, true, false, Option, none, some, List, [], ◌∷◌, ◌++◌}
use toppa.Base.Tests.{if◌then◌else◌}
use toppa.Base.Bytes.{Bytes, codes, Writer}
use toppa.Base.Results.{Result, ok, err}
use toppa.Tunnel.Noise.{Cipher, Handshaking}
use toppa.Tunnel.Record
use toppa.Tunnel.Handshake.{HandshakeResult, handshake}
use toppa.Keys.Disk.{Disk}
use toppa.Keys.Store
use toppa.Keys.Store.{Identity, PinnedPeer, Codec, Store, Outcome, identity, pin_peer, pinned_peer}

pub data Error : Type 0 where
  key_store : toppa.Keys.Store.Error → Error
  handshake_failed : toppa.Tunnel.Record.Error → Error
  dial_failed : Error

-- The name under which the one peer is pinned.
abbrev pub default_name : Bytes
default_name = codes "default"

unfoldable pub pinned_if : Bool → Option Bytes → Option Bytes
pinned_if true pinned = pinned
pinned_if false pinned = none

-- A nil slice has no bytes.
abbrev pub bytes_of : Option Bytes → Bytes
bytes_of none = []
bytes_of (some b) = b

-- What one session meets: the identity that a generation would give, whether the dial succeeds and the deadline is set,
-- the transport, and the time.
pub record Session : Type 0 where
  pub role : ℕ
  pub fresh : Option Identity
  pub dialled : Bool
  pub deadline_set : Bool
  pub out : Writer
  pub input : Bytes
  pub now : ℕ

module _ (C : Cipher) (N : Handshaking C) (sha256 : Bytes → Bytes) (join : Bytes → Bytes → Bytes)
    (pins : Codec PinnedPeer) where
  -- The peer is pinned where none was; that the pinning fails is only printed.
  unfoldable pub with_result :
      Session
      → Store
      → Disk
      → Bool
      → Result toppa.Tunnel.Record.Error (HandshakeResult C N sha256)
      → Disk × Result Error (HandshakeResult C N sha256)
  with_result l s disk has (err e) = (disk, err (handshake_failed e))
  with_result l s disk true (ok r) = (disk, ok r)
  with_result l s disk false (ok r) =
      ((pin_peer join pins s disk default_name (some r.peer_static) l.now).0, ok r)

  unfoldable pub authenticate :
      Session
      → Store
      → Disk
      → Identity
      → Option Bytes
      → Bool
      → Disk × Result Error (HandshakeResult C N sha256)
  unfolding with_result pinned_if
  authenticate l s disk id pinned has = with_result l s disk has (
      handshake C N sha256 l.deadline_set l.out l.input (record {
        role = l.role;
        static_private = bytes_of id.private_key;
        pinned_peer = pinned_if has pinned;
        max_payload = 0;
      }))

  unfoldable pub with_pin :
      Session
      → Store
      → Disk
      → Identity
      → Result toppa.Keys.Store.Error (Option Bytes × Bool)
      → Disk × Result Error (HandshakeResult C N sha256)
  unfolding authenticate
  with_pin l s disk id (err e) = (disk, err (key_store e))
  with_pin l s disk id (ok (pinned, has)) =
      if l.dialled then authenticate l s disk id pinned has else (disk, err dial_failed)

  unfoldable pub with_identity :
      Session → Store → Outcome Identity → Disk × Result Error (HandshakeResult C N sha256)
  unfolding with_pin
  with_identity l s (disk, err e) = (disk, err (key_store e))
  with_identity l s (disk, ok id) = with_pin l s disk id (pinned_peer join pins s disk default_name)

  module _ (ids : Codec Identity) where
    -- `runPing` up to the multiplexer, and `runServe` with one connection.
    unfoldable pub pair : Store → Disk → Session → Disk × Result Error (HandshakeResult C N sha256)
    unfolding with_identity
    pair s disk l = with_identity l s (identity join ids s disk l.fresh)

    abbrev pub peers_of : Result Error (HandshakeResult C N sha256) → List Bytes
    peers_of (ok r) = r.peer_static ∷ []
    peers_of (err e) = []

    -- The keys of the peers that were authenticated, one session after the other.
    unfoldable pub authenticated : Store → Disk → List Session → List Bytes
    unfolding pair
    authenticated s disk [] = []
    authenticated s disk (l ∷ ls) =
        peers_of (pair s disk l).1 ++ authenticated s (pair s disk l).0 ls
