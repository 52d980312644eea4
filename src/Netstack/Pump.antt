-- ===== src/Netstack/Pump.antt =====
-- desktop/internal/netstack/engine.go: the copying both ways between two connections.
use toppa.Base.{ℕ, suc, ◌+◌, ◌<◌, ◌≡◌, Bool, true, false, [], ◌++◌, ◌≤◌}
use toppa.Base.Lists.{length, take, drop}
use toppa.Base.Bytes.{Bytes}

-- Where a goroutine of `copyOne` is: in `io.Copy`, behind it, behind `CloseWrite`, and behind its signal.
pub data Phase : Type 0 where
  copying copied shut finished : Phase

-- One `copyOne`: which bytes of its source are not written yet, which are, and whether the destination was
-- told that no more comes.
pub record Copy : Type 0 where
  pub phase : Phase
  pub left : Bytes
  pub moved : Bytes
  pub write_closed : Bool

-- Both copies, the signals in the channel and those taken out of it, and the two connections.
pub record Pump : Type 0 where
  pub to_a : Copy
  pub to_b : Copy
  pub signals : ℕ
  pub received : ℕ
  pub closed_a : Bool
  pub closed_b : Bool

unfoldable pub new_copy : Bytes → Copy
new_copy source = record { phase = copying; left = source; moved = []; write_closed = false }

-- `pumpBidirectional` of two connections that will give these bytes.
unfoldable pub new_pump : Bytes → Bytes → Pump
unfolding new_copy
new_pump from_a from_b = record {
  to_a = new_copy from_b;
  to_b = new_copy from_a;
  signals = 0;
  received = 0;
  closed_a = false;
  closed_b = false;
}

-- The bytes of one round of `io.Copy`.
unfoldable pub move : ℕ → Copy → Copy
move n c = record c { left = drop n c.left; moved = c.moved ++ take n c.left }

-- Behind `io.Copy`: `CloseWrite` where the destination is a `*net.TCPConn`.
unfoldable pub close_write : Bool → Copy → Copy
close_write is_tcp c = record c { phase = shut; write_closed = is_tcp }

-- The steps of one `copyOne`, and how many signals they send.
pub data CopyStep (is_tcp : Bool) : Copy → Copy → ℕ → Type 0 where
  moves :
      (c : Copy) (n : ℕ)
      → c.phase ≡ copying
      → 0 < n
      → n ≤ length c.left
      → CopyStep is_tcp c (move n c) 0
  -- The source has ended, or a read or a write has failed: the code does not look. A read or a write that blocks for ever is
  -- not modelled: each returns, and may have failed.
  ends : (c : Copy) → c.phase ≡ copying → CopyStep is_tcp c (record c { phase = copied }) 0
  shuts : (c : Copy) → c.phase ≡ copied → CopyStep is_tcp c (close_write is_tcp c) 0
  signals : (c : Copy) → c.phase ≡ shut → CopyStep is_tcp c (record c { phase = finished }) 1

-- The steps of the two goroutines and of `pumpBidirectional` itself; `tcp_a` and `tcp_b` are whether the connections are
-- `*net.TCPConn`.
pub data Step (tcp_a tcp_b : Bool) : Pump → Pump → Type 0 where
  copies_to_a :
      (p : Pump) (c : Copy) (n : ℕ)
      → CopyStep tcp_a p.to_a c n
      → Step tcp_a tcp_b p (record p { to_a = c; signals = p.signals + n })
  copies_to_b :
      (p : Pump) (c : Copy) (n : ℕ)
      → CopyStep tcp_b p.to_b c n
      → Step tcp_a tcp_b p (record p { to_b = c; signals = p.signals + n })
  receives :
      (p : Pump) (left : ℕ)
      → p.signals ≡ suc left
      → p.received < 2
      → Step tcp_a tcp_b p (record p { signals = left; received = p.received + 1 })
  closes_a :
      (p : Pump)
      → p.received ≡ 2
      → p.closed_a ≡ false
      → Step tcp_a tcp_b p (record p { closed_a = true })
  closes_b :
      (p : Pump)
      → p.closed_a ≡ true
      → p.closed_b ≡ false
      → Step tcp_a tcp_b p (record p { closed_b = true })

pub data Steps (tcp_a tcp_b : Bool) : Pump → Pump → Type 0 where
  begins : (p : Pump) → Steps tcp_a tcp_b p p
  next : (p q r : Pump) → Steps tcp_a tcp_b p q → Step tcp_a tcp_b q r → Steps tcp_a tcp_b p r
