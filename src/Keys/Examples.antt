-- ===== src/Keys/Examples.antt =====
-- The theorems on the key store at codecs that put the keys one behind the other.
use toppa.Base.{ℕ, ◌≡◌, refl, sym, ap, true, Option, none, some, [], ◌∷◌, ◌++◌}
use toppa.Base.Lists.{length, take, drop, take-append, drop-append}
use toppa.Base.Texts.{same_text}
use toppa.Base.Bytes.{Bytes, codes}
use toppa.Base.Results.{ok, some_eq}
use toppa.Keys.Disk.{Disk, whole, read_file, write_file, look_up}
use toppa.Keys.Store.{
  Identity, PinnedPeer, Codec, Store, key_length, identity, pin_peer, pinned_peer,
}
use toppa.Keys.Stable.{IsWhole, Decodes, identity_is_stable}
use toppa.Keys.Pinning.{pinned_peer-pin_peer}

abbrev pub slashed : Bytes → Bytes → Bytes
slashed dir name = dir ++ 47 ∷ name

abbrev key : ℕ → Bytes
key n =
    n ∷ 1 ∷ 2 ∷ 3 ∷ 4 ∷ 5 ∷ 6 ∷ 7 ∷ 8 ∷ 9 ∷ 10 ∷ 11 ∷ 12 ∷ 13 ∷ 14 ∷ 15 ∷ 16 ∷ 17 ∷ 18 ∷ 19 ∷ 20
    ∷ 21 ∷ 22 ∷ 23 ∷ 24 ∷ 25 ∷ 26 ∷ 27 ∷ 28 ∷ 29 ∷ 30 ∷ 31 ∷ []

abbrev pub fresh_identity : Identity
fresh_identity = record { private_key = some (key 0); public_key = some (key 9) }

abbrev packed : Option Bytes → Option Bytes → Option Bytes
packed none b = none
packed (some a) none = none
packed (some a) (some b) = some (length a ∷ (a ++ b))

abbrev unpacked : Bytes → Option Identity
unpacked [] = none
unpacked (n ∷ rest) =
    some (record { private_key = some (take n rest); public_key = some (drop n rest) })

-- Two keys one behind the other, the length of the first in front.
abbrev pub two_keys : Codec Identity
two_keys = record { marshal = λ id. packed id.private_key id.public_key; unmarshal = unpacked }

unpacked-packed :
    (a b : Option Bytes) (raw : Bytes)
    → packed a b ≡ some raw
    → unpacked raw ≡ some (record { private_key = a; public_key = b })
unpacked-packed none b raw h = absurd cc
unpacked-packed (some a) none raw h = absurd cc
unpacked-packed (some a) (some b) raw h =
    rw (sym (some_eq h), take-append a b, drop-append a b) refl

two_keys-Decodes : Decodes two_keys
two_keys-Decodes id raw h = unpacked-packed id.private_key id.public_key raw h

abbrev pin_bytes : Option Bytes → Bytes
pin_bytes none = []
pin_bytes (some k) = 1 ∷ k

abbrev pin_of : ℕ → Bytes → PinnedPeer
pin_of t [] = record { public_key = none; pinned_at = t }
pin_of t (n ∷ k) = record { public_key = some k; pinned_at = t }

abbrev pin_read : Bytes → Option PinnedPeer
pin_read [] = none
pin_read (t ∷ k) = some (pin_of t k)

-- The time, and behind it the key.
abbrev pub timed_pin : Codec PinnedPeer
timed_pin = record {
  marshal = λ p. some (p.pinned_at ∷ pin_bytes p.public_key);
  unmarshal = pin_read;
}

pin_of-pin_bytes :
    (t : ℕ) (k : Option Bytes) → pin_of t (pin_bytes k) ≡ record { public_key = k; pinned_at = t }
pin_of-pin_bytes t none = refl
pin_of-pin_bytes t (some k) = refl

pub timed_pin-Decodes : Decodes timed_pin
timed_pin-Decodes p raw h =
    rw (sym (some_eq h)) (ap some (pin_of-pin_bytes p.pinned_at p.public_key))

abbrev pub empty_disk : Disk
empty_disk = record { files = []; readable = λ p. true; writes = λ p. whole; makes = λ p. true }

abbrev pub store : Store
store = record { dir = codes "keys" }

abbrev after_first : Disk
after_first = (identity slashed two_keys store empty_disk (some fresh_identity)).0

generates-IsWhole : (k : Identity) → some fresh_identity ≡ some k → IsWhole k
unfolding key_length
generates-IsWhole k h = rw (sym (some_eq h)) (refl, refl)

identity_is_stable_example :
    IsWhole fresh_identity
    × (identity slashed two_keys store after_first none ≡ (after_first, ok fresh_identity))
unfolding identity write_file look_up read_file
identity_is_stable_example =
    identity_is_stable slashed two_keys store empty_disk after_first (some fresh_identity) none
      fresh_identity two_keys-Decodes generates-IsWhole refl

abbrev after_pin : Disk
after_pin = (pin_peer slashed timed_pin store empty_disk (codes "default") (some (key 3)) 5).0

pinned_peer-pin_peer_example :
    (key_length (some (key 3)) ≡ 32)
    × (pinned_peer slashed timed_pin store after_pin (codes "default") ≡ ok (some (key 3), true))
    × (pinned_peer slashed timed_pin store after_pin (codes "spare")
        ≡ pinned_peer slashed timed_pin store empty_disk (codes "spare"))
unfolding pin_peer same_text write_file
pinned_peer-pin_peer_example =
    pinned_peer-pin_peer slashed timed_pin store empty_disk after_pin (codes "default")
      (codes "spare") (some (key 3)) 5 timed_pin-Decodes refl refl refl
