-- ===== src/Adapter/Loopback.antt =====
-- desktop/internal/adapter/loopback.go: one of the two devices of a pair, as its reader and the writers of its peer
-- see it. The steps are as fine as the locks: what stands between two of them can be interleaved.
use toppa.Base.{ℕ, ◌+◌, Bool, true, false, Option, none, some, List, [], ◌∷◌, ◌++◌}
use toppa.Base.Tests.{ltb, if◌then◌else◌}
use toppa.Base.Lists.{length}
use toppa.Base.Bytes.{Bytes}

-- The capacity of the channel `signal`.
abbrev pub capacity : ℕ
capacity = 1024

-- `waiting`: the reader has found the queue empty and waits for the signal. `pending`: the writers that have appended a
-- packet and not yet sent their signal. `closing`: the calls of `Close` that have set the flag and not yet closed the channel;
-- `signal_closed`: the channel is closed.
pub record Device : Type 0 where
  pub queue : List Bytes
  pub signals : ℕ
  pub closed : Bool
  pub waiting : Bool
  pub pending : ℕ
  pub closing : ℕ
  pub signal_closed : Bool

-- One device of `NewLoopbackPair`.
unfoldable pub new_device : Device
new_device = record {
  queue = [];
  signals = 0;
  closed = false;
  waiting = false;
  pending = 0;
  closing = 0;
  signal_closed = false;
}

-- `Write` on the peer, under the lock: whether the packet is taken. The caller's slice is copied.
unfoldable pub append_packet : Bytes → Device → Device × Bool
append_packet packet l =
    if l.closed
    then (l, false)
    else (record l { queue = l.queue ++ packet ∷ []; pending = l.pending + 1 }, true)

-- The `select` of `Write` on a channel that is open.
unfoldable pub send_signal : Device → ℕ → Device
send_signal l left = record l {
  pending = left;
  signals = if ltb l.signals capacity then l.signals + 1 else l.signals;
}

-- What a round of the loop of `Read` comes to: a packet, an error with the packet that it drops, if any, or the wait.
pub data Polled : Type 0 where
  packet : Bytes → Polled
  err_closed : Option Bytes → Polled
  waits : Polled

unfoldable pub popped : ℕ → Bytes → Polled
popped size pkt = if ltb size (length pkt) then err_closed (some pkt) else packet pkt

unfoldable pub poll_queue : ℕ → Device → List Bytes → Device × Polled
unfolding popped
poll_queue size l [] = (record l { waiting = true }, waits)
poll_queue size l (pkt ∷ rest) = (record l { queue = rest }, popped size pkt)

-- A round of `Read`, into a buffer of the given size, under the lock.
unfoldable pub poll : ℕ → Device → Device × Polled
unfolding poll_queue
poll size l = if l.closed then (l, err_closed none) else poll_queue size l l.queue

-- `Close`, under the lock; that it closes the channel comes behind the lock.
unfoldable pub close : Device → Device
close l = record l { closed = true; closing = l.closing + 1 }

-- Behind the lock of `Close`: the channel is closed, or, where it is closed already, the close panics and there is no device.
unfoldable pub close_signal : Device → ℕ → Option Device
close_signal l left =
    if l.signal_closed then none else some (record l { signal_closed = true; closing = left })
