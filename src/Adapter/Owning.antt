-- ===== src/Adapter/Owning.antt =====
-- The handles and packets of desktop/internal/adapter/tun_windows.go.
use toppa.Base.{
  ℕ, zero, suc, ◌<◌, ◌≡◌, refl, ap, ◌∙◌, ◌⊎◌, inl, inr, true, false, Option, none, some, List, [],
  ◌∷◌, ◌++◌, arith,
}
use toppa.Base.Tests.{ltb→lt, ◌==◌, ==_iff, Bool-cases, if_split}
use toppa.Base.Lists.{length, is_empty}
use toppa.Base.Ints.{ℤ, pos, negsuc}
use toppa.Base.Bytes.{Bytes}
use toppa.Base.Results.{Result, ok, err}
use toppa.Adapter.Wintun.{
  Config, OpenError, name_required, mtu_not_positive, open_failed, session_failed, is_positive,
  ring_of, Wintun, Event, acquired, released, adapter_of, with_session, with_adapter, new_wintun,
  Received, packet, no_more_items, failed, ReadError, receive_failed, Polling, copied, paused, read,
}

-- A positive number, and one that is not.
abbrev pub Positive : ℤ → Type 0
Positive (pos n) = 0 < n
Positive (negsuc n) = ⊥

abbrev pub NotPositive : ℤ → Type 0
NotPositive (pos n) = n ≡ 0
NotPositive (negsuc n) = Unit

-- The ring that was asked for, or 8 MiB where none was.
abbrev pub IsRing : ℕ → ℕ → Type 0
IsRing asked ring = ((asked ≡ 0) × (ring ≡ 8388608)) ⊎ ((0 < asked) × (ring ≡ asked))

is_positive-Positive : (z : ℤ) → is_positive z ≡ true → Positive z
unfolding is_positive
is_positive-Positive (pos n) h = ltb→lt 0 n h
is_positive-Positive (negsuc n) h = absurd (ground (arith, h))

is_positive-NotPositive : (z : ℤ) → is_positive z ≡ false → NotPositive z
unfolding is_positive
is_positive-NotPositive (pos n) h = ground (arith, h)
is_positive-NotPositive (negsuc n) h = tt

ring_of-IsRing : (c : Config) → IsRing c.ring_capacity (ring_of c)
unfolding ring_of
ring_of-IsRing c = elim (Bool-cases (c.ring_capacity == 0)) [
  | inl e ↦ rw e (inl ((==_iff c.ring_capacity 0).0 e, refl))
  | inr e ↦ rw e (inr (ground (arith, e), refl))
]

is_empty-length : (b : Bytes) → is_empty b ≡ false → 0 < length b
is_empty-length [] h = absurd (ground (arith, h))
is_empty-length (x ∷ xs) h = omega arith

is_empty-eq : (b : Bytes) → is_empty b ≡ true → b ≡ []
is_empty-eq [] h = refl
is_empty-eq (x ∷ xs) h = absurd (ground (arith, h))

module _ {A S : Type 0} (create_adapter open_adapter : Bytes → Option A)
    (start_session : A → ℕ → Option S) where
  -- What a call leaves: a device that holds the one adapter that was acquired, with a session on it, or an error and nothing
  -- that is still held.
  pub data Owns (c : Config) : List (Event A) → Result OpenError (Wintun A S) → Type 0 where
    owned :
        (a : A) (s : S) (ring : ℕ)
        → (create_adapter c.name ≡ some a)
          ⊎ ((create_adapter c.name ≡ none) × (open_adapter c.name ≡ some a))
        → IsRing c.ring_capacity ring
        → start_session a ring ≡ some s
        → Positive c.mtu
        → 0 < length c.name
        → Owns c
            (acquired a ∷ [])
            (ok (record { name = c.name; mtu = c.mtu; adapter = a; session = s }))
    given_up :
        (a : A) (ring : ℕ)
        → (create_adapter c.name ≡ some a)
          ⊎ ((create_adapter c.name ≡ none) × (open_adapter c.name ≡ some a))
        → IsRing c.ring_capacity ring
        → start_session a ring ≡ none
        → Positive c.mtu
        → 0 < length c.name
        → Owns c (acquired a ∷ released a ∷ []) (err session_failed)
    unnamed : c.name ≡ [] → Owns c [] (err name_required)
    no_mtu : 0 < length c.name → NotPositive c.mtu → Owns c [] (err mtu_not_positive)
    no_adapter :
        create_adapter c.name ≡ none
        → open_adapter c.name ≡ none
        → Positive c.mtu
        → 0 < length c.name
        → Owns c [] (err open_failed)

  adapter_of-some :
      (c : Config) (o : Option A) (a : A)
      → create_adapter c.name ≡ o
      → adapter_of create_adapter open_adapter start_session c.name o ≡ some a
      → (create_adapter c.name ≡ some a)
        ⊎ ((create_adapter c.name ≡ none) × (open_adapter c.name ≡ some a))
  unfolding adapter_of
  adapter_of-some c (some b) a made h = inl (made ∙ h)
  adapter_of-some c none a made h = inr (made, h)

  adapter_of-none :
      (c : Config) (o : Option A)
      → create_adapter c.name ≡ o
      → adapter_of create_adapter open_adapter start_session c.name o ≡ none
      → (create_adapter c.name ≡ none) × (open_adapter c.name ≡ none)
  unfolding adapter_of
  adapter_of-none c (some b) made h = absurd (some_none h)
    where
      some_none : some b ≡ none → ⊥
      some_none q = cc
  adapter_of-none c none made h = (made, h)

  with_session-Owns :
      (c : Config) (a : A) (o : Option S)
      → (create_adapter c.name ≡ some a)
        ⊎ ((create_adapter c.name ≡ none) × (open_adapter c.name ≡ some a))
      → Positive c.mtu
      → 0 < length c.name
      → start_session a (ring_of c) ≡ o
      → Owns c
          (with_session create_adapter open_adapter start_session c a o).0
          (with_session create_adapter open_adapter start_session c a o).1
  unfolding with_session
  with_session-Owns c a none from mtu name started =
      given_up a (ring_of c) from (ring_of-IsRing c) started mtu name
  with_session-Owns c a (some s) from mtu name started =
      owned a s (ring_of c) from (ring_of-IsRing c) started mtu name

  with_adapter-Owns :
      (c : Config) (o : Option A)
      → Positive c.mtu
      → 0 < length c.name
      → adapter_of create_adapter open_adapter start_session c.name (create_adapter c.name) ≡ o
      → Owns c
          (with_adapter create_adapter open_adapter start_session c o).0
          (with_adapter create_adapter open_adapter start_session c o).1
  unfolding with_adapter
  with_adapter-Owns c none mtu name from =
      let (made, opened) = adapter_of-none c (create_adapter c.name) refl from in
      no_adapter made opened mtu name
  with_adapter-Owns c (some a) mtu name from =
      with_session-Owns c a (start_session a (ring_of c))
        (adapter_of-some c (create_adapter c.name) a refl from) mtu name refl

  -- A device that is opened has a name and a positive MTU and holds the one adapter that the driver created, or opened again where
  -- it could not create it, with a session on the ring that was asked for, or on one of 8 MiB where 0 was; a call that fails says which of
  -- these it lacked and holds no adapter any more, that of a session that could not be started included.
  pub new_wintun-Owns :
      (c : Config)
      → Owns c
          (new_wintun create_adapter open_adapter start_session c).0
          (new_wintun create_adapter open_adapter start_session c).1
  unfolding new_wintun
  new_wintun-Owns c =
      if_split Holds (is_empty c.name) (λ name. unnamed (is_empty-eq c.name name))
        (λ name.
          if_split Holds (is_positive c.mtu)
            (λ mtu.
              with_adapter-Owns c
                (adapter_of create_adapter open_adapter start_session c.name
                  (create_adapter c.name))
                (is_positive-Positive c.mtu mtu) (is_empty-length c.name name) refl)
            (λ mtu. no_mtu (is_empty-length c.name name) (is_positive-NotPositive c.mtu mtu)))
    where
      Holds : List (Event A) × Result OpenError (Wintun A S) → Type 0
      Holds r = Owns c r.0 r.1

-- The packets among what was received.
abbrev packets_of : Received → List Bytes
packets_of (packet pkt) = pkt ∷ []
packets_of no_more_items = []
packets_of failed = []

abbrev answer : ℕ → Received → Option (Result ReadError Bytes)
answer size (packet pkt) = some (copied size pkt)
answer size no_more_items = none
answer size failed = some (err receive_failed)

abbrev pub empties : ℕ → List Received
empties zero = []
empties (suc n) = no_more_items ∷ empties n

-- A read polls while the ring is empty, with a pause each time; the first other answer of the driver ends it, and the packet
-- that it took, if it took one, goes back to the ring, also where it does not fit the buffer.
pub data Polls (size : ℕ) (rs : List Received) (p : Polling) : Type 0 where
  still : rs ≡ empties p.pauses → p.result ≡ none → p.given_back ≡ [] → Polls size rs p
  ended :
      (x : Received) (rest : List Received)
      → rs ≡ empties p.pauses ++ x ∷ rest
      → p.result ≡ answer size x
      → p.given_back ≡ packets_of x
      → Polls size rs p

paused-Polls :
    (size : ℕ) (rs : List Received) (p : Polling)
    → Polls size rs p
    → Polls size (no_more_items ∷ rs) (paused p)
unfolding paused
paused-Polls size rs p (still e r g) = still (ap (λ l. no_more_items ∷ l) e) r g
paused-Polls size rs p (ended x rest e r g) = ended x rest (ap (λ l. no_more_items ∷ l) e) r g

pub read-Polls : (size : ℕ) (rs : List Received) → Polls size rs (read size rs)
unfolding read
read-Polls size [] = still refl refl refl
read-Polls size (packet pkt ∷ rs) = ended (packet pkt) rs refl refl refl
read-Polls size (no_more_items ∷ rs) = paused-Polls size rs (read size rs) (read-Polls size rs)
read-Polls size (failed ∷ rs) = ended failed rs refl refl refl
