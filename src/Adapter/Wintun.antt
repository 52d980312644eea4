-- ===== src/Adapter/Wintun.antt =====
-- desktop/internal/adapter/tun_windows.go, over the driver by what its calls return.
use toppa.Base.{ℕ, suc, Bool, false, Option, none, some, List, [], ◌∷◌}
use toppa.Base.Tests.{ltb, ◌==◌, if◌then◌else◌}
use toppa.Base.Lists.{length, is_empty}
use toppa.Base.Bytes.{Bytes}
use toppa.Base.Ints.{ℤ, pos, negsuc}
use toppa.Base.Results.{Result, ok, err}

-- What `Open` is asked for; the logger has no part in what follows.
pub record Config : Type 0 where
  pub name : Bytes
  pub mtu : ℤ
  pub ring_capacity : ℕ

abbrev pub default_ring_capacity : ℕ
default_ring_capacity = 0x800000

pub data OpenError : Type 0 where
  name_required mtu_not_positive open_failed session_failed : OpenError

unfoldable pub is_positive : ℤ → Bool
is_positive (pos n) = ltb 0 n
is_positive (negsuc n) = false

unfoldable pub ring_of : Config → ℕ
ring_of c = if c.ring_capacity == 0 then default_ring_capacity else c.ring_capacity

-- Adapters and sessions are the driver's.
pub record Wintun (A S : Type 0) : Type 0 where
  pub name : Bytes
  pub mtu : ℤ
  pub adapter : A
  pub session : S

-- The handles that the driver gives out and takes back, in order.
pub data Event (A : Type 0) : Type 0 where
  acquired released : A → Event A

module _ {A S : Type 0} (create_adapter open_adapter : Bytes → Option A)
    (start_session : A → ℕ → Option S) where
  -- An adapter that is left over is opened again.
  unfoldable pub adapter_of : Bytes → Option A → Option A
  adapter_of name (some a) = some a
  adapter_of name none = open_adapter name

  unfoldable pub with_session :
      Config → A → Option S → List (Event A) × Result OpenError (Wintun A S)
  with_session c a none = (acquired a ∷ released a ∷ [], err session_failed)
  with_session c a (some s) =
      (acquired a ∷ [], ok (record { name = c.name; mtu = c.mtu; adapter = a; session = s }))

  unfoldable pub with_adapter : Config → Option A → List (Event A) × Result OpenError (Wintun A S)
  unfolding with_session ring_of
  with_adapter c none = ([], err open_failed)
  with_adapter c (some a) = with_session c a (start_session a (ring_of c))

  -- `NewWintun`
  unfoldable pub new_wintun : Config → List (Event A) × Result OpenError (Wintun A S)
  unfolding with_adapter adapter_of is_positive
  new_wintun c =
      if is_empty c.name
      then ([], err name_required)
      else if is_positive c.mtu
      then with_adapter c (adapter_of c.name (create_adapter c.name))
      else ([], err mtu_not_positive)

-- What `ReceivePacket` returns.
pub data Received : Type 0 where
  packet : Bytes → Received
  no_more_items failed : Received

pub data ReadError : Type 0 where
  too_long receive_failed : ReadError

-- How a read has gone: the pauses it made, the packets it gave back to the ring, and what it returned, none where it still
-- polls.
pub record Polling : Type 0 where
  pub pauses : ℕ
  pub given_back : List Bytes
  pub result : Option (Result ReadError Bytes)

-- A packet that was received, for a buffer of so many bytes.
unfoldable pub copied : ℕ → Bytes → Result ReadError Bytes
copied size pkt = if ltb size (length pkt) then err too_long else ok pkt

unfoldable pub paused : Polling → Polling
paused p = record p { pauses = suc p.pauses }

-- `Read`, by what the driver returns on each turn.
unfoldable pub read : ℕ → List Received → Polling
unfolding copied paused
read size [] = record { pauses = 0; given_back = []; result = none }
read size (packet pkt ∷ rs) = record {
  pauses = 0;
  given_back = pkt ∷ [];
  result = some (copied size pkt);
}
read size (no_more_items ∷ rs) = paused (read size rs)
read size (failed ∷ rs) = record { pauses = 0; given_back = []; result = some (err receive_failed) }

-- `Write`: the packets that go to the driver, and the count that is returned; the driver reports nothing.
unfoldable pub write : Bytes → List Bytes × ℕ
write pkt = (pkt ∷ [], length pkt)

-- `Close`: the session ends, and the adapter is given back; whether that succeeds.
unfoldable pub close : {A S : Type 0} → (A → Bool) → Wintun A S → List (Event A) × Bool
close closes w = (released w.adapter ∷ [], closes w.adapter)
