-- ===== src/Keys/Store.antt =====
-- `Store` of desktop/internal/keys/store.go.
use toppa.Base.{ℕ, Bool, true, false, not, ◌||◌, Option, none, some, ◌++◌}
use toppa.Base.Tests.{◌==◌, if◌then◌else◌}
use toppa.Base.Lists.{length}
use toppa.Base.Bytes.{Bytes, codes}
use toppa.Base.Results.{Result, ok, err}
use toppa.Keys.Disk.{Disk, ReadError, not_exist, unreadable, read_file, write_file}

pub data Error : Type 0 where
  mkdir_failed parse_failed corrupt_lengths read_failed encode_failed write_failed : Error
  bad_public_key generate_failed : Error

-- A key that is missing in the file is nil, of length 0.
pub record Identity : Type 0 where
  pub private_key : Option Bytes
  pub public_key : Option Bytes

pub record PinnedPeer : Type 0 where
  pub public_key : Option Bytes
  pub pinned_at : ℕ

unfoldable pub key_length : Option Bytes → ℕ
key_length none = 0
key_length (some key) = length key

-- `json.MarshalIndent` and `json.Unmarshal` at one type.
pub record Codec (A : Type 0) : Type 0 where
  pub marshal : A → Option Bytes
  pub unmarshal : Bytes → Option A

abbrev pub identity_file : Bytes
identity_file = codes "identity.json"

abbrev pub peer_file : Bytes → Bytes
peer_file name = codes "peer-" ++ name ++ codes ".json"

-- `Store`, rooted at `dir`. `filepath.Join` and the JSON codecs are arguments.
pub record Store : Type 0 where
  pub dir : Bytes

unfoldable pub new_store : Disk → Bytes → Result Error Store
new_store disk dir = if disk.makes dir then ok (record { dir = dir }) else err mkdir_failed

-- What a call that writes returns with the disk as it leaves it.
abbrev pub Outcome : Type 0 → Type 0
Outcome A = Disk × Result Error A

module _ (join : Bytes → Bytes → Bytes) where
  unfoldable pub write_end : Disk × Bool → Outcome (Unit {0})
  write_end (disk, true) = (disk, ok tt)
  write_end (disk, false) = (disk, err write_failed)

  unfoldable pub write_encoded : Store → Disk → Bytes → Option Bytes → Outcome (Unit {0})
  unfolding write_end
  write_encoded s disk name none = (disk, err encode_failed)
  write_encoded s disk name (some raw) = write_end (write_file disk (join s.dir name) raw)

  module _ {A : Type 0} (codec : Codec A) where
    unfoldable pub write_json : Store → Disk → Bytes → A → Outcome (Unit {0})
    unfolding write_encoded
    write_json s disk name v = write_encoded s disk name (codec.marshal v)

  module _ (codec : Codec Identity) where
    unfoldable pub save_identity : Store → Disk → Identity → Outcome (Unit {0})
    unfolding write_json
    save_identity s disk id = write_json codec s disk identity_file id

    unfoldable pub parsed : Option Identity → Result Error Identity
    unfolding key_length
    parsed none = err parse_failed
    parsed (some id) =
        if not (key_length id.private_key == 32) || not (key_length id.public_key == 32)
        then err corrupt_lengths
        else ok id

    unfoldable pub saved : Identity → Outcome (Unit {0}) → Outcome Identity
    saved id (disk, ok _) = (disk, ok id)
    saved id (disk, err e) = (disk, err e)

    unfoldable pub generated : Store → Disk → Option Identity → Outcome Identity
    unfolding save_identity saved
    generated s disk none = (disk, err generate_failed)
    generated s disk (some id) = saved id (save_identity s disk id)

    unfoldable pub loaded :
        Store → Disk → Option Identity → Result ReadError Bytes → Outcome Identity
    unfolding parsed generated
    loaded s disk fresh (ok raw) = (disk, parsed (codec.unmarshal raw))
    loaded s disk fresh (err not_exist) = generated s disk fresh
    loaded s disk fresh (err unreadable) = (disk, err read_failed)

    -- `Identity`: `fresh` is what `generate` returns where it is called.
    unfoldable pub identity : Store → Disk → Option Identity → Outcome Identity
    unfolding loaded
    identity s disk fresh = loaded s disk fresh (read_file disk (join s.dir identity_file))

  module _ (codec : Codec PinnedPeer) where
    unfoldable pub pin_peer : Store → Disk → Bytes → Option Bytes → ℕ → Outcome (Unit {0})
    unfolding write_json key_length
    pin_peer s disk name public now =
        if not (key_length public == 32)
        then (disk, err bad_public_key)
        else write_json codec s disk (peer_file name)
            (record { public_key = public; pinned_at = now })

    unfoldable pub pin_parsed : Option PinnedPeer → Result Error (Option Bytes × Bool)
    pin_parsed none = err parse_failed
    pin_parsed (some p) = ok (p.public_key, true)

    unfoldable pub pin_loaded : Result ReadError Bytes → Result Error (Option Bytes × Bool)
    unfolding pin_parsed
    pin_loaded (ok raw) = pin_parsed (codec.unmarshal raw)
    pin_loaded (err not_exist) = ok (none, false)
    pin_loaded (err unreadable) = err read_failed

    unfoldable pub pinned_peer : Store → Disk → Bytes → Result Error (Option Bytes × Bool)
    unfolding pin_loaded
    pinned_peer s disk name = pin_loaded (read_file disk (join s.dir (peer_file name)))
