-- ===== src/Tunnel/Noise.antt =====
-- What package tunnel takes from github.com/flynn/noise and crypto/ecdh: a cipher state for each
-- direction, and the handshake state machine. Both are parameters of the models.
use toppa.Base.{◌+◌, ◌≡◌, Bool, Option, some}
use toppa.Base.Lists.{length}
use toppa.Base.Bytes.{Bytes}

-- `CipherState.Encrypt` and `Decrypt`; `none` is an error.
pub record Cipher : Type 1 where
  pub State : Type 0
  pub encrypt : State → Bytes → Option (State × Bytes)
  pub decrypt : State → Bytes → Option (State × Bytes)

-- What a writing and a reading state that belong together do: each record is opened to its plaintext
-- and the states go on in step, and the tag adds 16 bytes. `live` states still have nonces.
pub record Paired (C : Cipher) : Type 1 where
  pub Pair : C.State → C.State → Type 0
  pub opens :
      (w r w' : C.State) (p ct : Bytes)
      → Pair w r
      → C.encrypt w p ≡ some (w', ct)
      → (r' : C.State) × (C.decrypt r ct ≡ some (r', p)) × Pair w' r'
  pub overhead :
      (w w' : C.State) (p ct : Bytes) → C.encrypt w p ≡ some (w', ct) → length ct ≡ length p + 16

-- `noise.HandshakeState`: `write_message` and `read_message` give the message or payload, and the two
-- cipher states after the last message.
pub record Handshaking (C : Cipher) : Type 1 where
  pub State : Type 0
  pub public_from_private : Bytes → Option Bytes
  pub start : Bool → Bytes → Bytes → Option State
  pub write_message : State → Bytes → Option (State × Bytes × Option (C.State × C.State))
  pub read_message : State → Bytes → Option (State × Bytes × Option (C.State × C.State))
  pub channel_binding : State → Bytes
