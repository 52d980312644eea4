-- ===== src/Netstack/Link.antt =====
-- desktop/internal/netstack/link.go and reader.go.
use toppa.Base.{ℕ, ◌+◌, Bool, true, false, Option, none, some, List, [], ◌∷◌}
use toppa.Base.Tests.{leb, if◌then◌else◌}
use toppa.Base.Lists.{length, take, drop}
use toppa.Base.Bytes.{Bytes}

-- `byteSliceReader`
pub record ByteSliceReader : Type 0 where
  pub data_ : Bytes
  pub pos : ℕ

-- `Read` into a slice of `size` bytes: the bytes copied, or the end.
unfoldable pub read : ByteSliceReader → ℕ → ByteSliceReader × Option Bytes
read r size =
    let copied = take size (drop r.pos r.data_) in
    if leb (length r.data_) r.pos
    then (r, none)
    else (record r { pos = r.pos + length copied }, some copied)

unfoldable pub bytes_reader : Bytes → ByteSliceReader
bytes_reader d = record { data_ = d; pos = 0 }

pub data Protocol : Type 0 where
  ipv4 ipv6 : Protocol

-- `inject`: what it hands to the dispatcher, if one is attached.
unfoldable pub inject : Bool → Protocol → Bytes → List (Protocol × Bytes)
inject false proto payload = []
inject true proto payload = (proto, payload) ∷ []

-- `WritePackets`: the device after the writes, how many packets it took, and whether all went through.
module _ {T : Type 0} (write : T → Bytes → T × Bool) where
  unfoldable pub after_write : (T → ℕ → T × ℕ × Bool) → ℕ → T × Bool → T × ℕ × Bool
  after_write more n (tun, true) = more tun (n + 1)
  after_write more n (tun, false) = (tun, n, false)

  unfoldable pub write_from : List Bytes → T → ℕ → T × ℕ × Bool
  unfolding after_write
  write_from [] tun n = (tun, n, true)
  write_from (pkt ∷ pkts) tun n = after_write (write_from pkts) n (write tun pkt)

  unfoldable pub write_packets : T → List Bytes → T × ℕ × Bool
  unfolding write_from
  write_packets tun pkts = write_from pkts tun 0
