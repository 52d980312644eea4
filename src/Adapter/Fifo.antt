-- ===== src/Adapter/Fifo.antt =====
-- Every run of desktop/internal/adapter/loopback.go is one of a queue, and no reader sleeps over a packet.
use toppa.Base.{
  ℕ, suc, ◌+◌, ◌<◌, ◌≡◌, refl, sym, subst, ap, ◌∙◌, ◌⊎◌, inl, inr, Bool, true, false, none, some,
  List, [], ◌∷◌, ◌++◌, append-nil, append_assoc, arith,
}
use toppa.Base.Tests.{ltb, if◌then◌else◌, if_split}
use toppa.Base.Lists.{length}
use toppa.Base.Bytes.{Bytes}
use toppa.Adapter.Loopback.{
  Device, capacity, new_device, append_packet, send_signal, Polled, packet, err_closed, waits,
  popped, poll_queue, poll, close, close_signal,
}

-- The device with its history: the packets that `Write` has accepted and those that `Read` has taken out of the queue.
pub record Run : Type 0 where
  pub device : Device
  pub written : List Bytes
  pub taken : List Bytes

abbrev pub accepted : Bytes → Bool → List Bytes
accepted p true = p ∷ []
accepted p false = []

abbrev pub taken_of : Polled → List Bytes
taken_of (packet p) = p ∷ []
taken_of (err_closed none) = []
taken_of (err_closed (some p)) = p ∷ []
taken_of waits = []

-- The steps of any number of writers, of one reader, and of any number of calls of `Close`. A writer that sends on the closed channel
-- panics and a `Close` that closes it again does too: there are no such steps.
pub data Step : Run → Run → Type 0 where
  appends :
      (r : Run) (p : Bytes)
      → Step r (record r {
        device = (append_packet p r.device).0;
        written = r.written ++ accepted p (append_packet p r.device).1;
      })
  signals :
      (r : Run) (left : ℕ)
      → r.device.pending ≡ suc left
      → r.device.signal_closed ≡ false
      → Step r (record r { device = send_signal r.device left })
  polls :
      (r : Run) (size : ℕ)
      → r.device.waiting ≡ false
      → Step r (record r {
        device = (poll size r.device).0;
        taken = r.taken ++ taken_of (poll size r.device).1;
      })
  wakes :
      (r : Run) (left : ℕ)
      → r.device.waiting ≡ true
      → r.device.signals ≡ suc left
      → Step r (record r { device = record r.device { waiting = false; signals = left } })
  wakes_closed :
      (r : Run)
      → r.device.waiting ≡ true
      → r.device.signal_closed ≡ true
      → r.device.signals ≡ 0
      → Step r (record r { device = record r.device { waiting = false } })
  closes : (r : Run) → Step r (record r { device = close r.device })
  closes_signal :
      (r : Run) (left : ℕ) (l : Device)
      → r.device.closing ≡ suc left
      → close_signal r.device left ≡ some l
      → Step r (record r { device = l })

pub data Steps : Run → Run → Type 0 where
  start : (r : Run) → Steps r r
  next : (r s t : Run) → Steps r s → Step s t → Steps r t

-- The specification, a queue: what was put in, what was got out, and what it holds.
pub data Fifo : List Bytes → List Bytes → List Bytes → Type 0 where
  empty : Fifo [] [] []
  put : (w t q : List Bytes) (p : Bytes) → Fifo w t q → Fifo (w ++ p ∷ []) t (q ++ p ∷ [])
  get : (w t q : List Bytes) (p : Bytes) → Fifo w t (p ∷ q) → Fifo w (t ++ p ∷ []) q

-- What was put in is what was got out and behind it what it holds.
pub Fifo-ordered : (w t q : List Bytes) → Fifo w t q → w ≡ t ++ q
Fifo-ordered _ _ _ empty = refl
Fifo-ordered _ _ _ (put w t q p f) =
    ap (λ x. x ++ p ∷ []) (Fifo-ordered w t q f) ∙ append_assoc t q (p ∷ [])
Fifo-ordered _ _ _ (get w t q p f) = Fifo-ordered w t (p ∷ q) f ∙ sym (append_assoc t (p ∷ []) q)

-- The run is one of the specification. A reader that waits while the queue holds a packet has a signal to wake it, or a
-- writer about to send one, or a `Close` about to close the channel, or the channel is closed.
pub record IsFifo (r : Run) : Type 0 where
  pub refines : Fifo r.written r.taken r.device.queue
  pub woken :
      r.device.waiting ≡ true
      → (r.device.queue ≡ [])
        ⊎ ((0 < r.device.signals)
            ⊎ ((0 < r.device.pending) ⊎ ((0 < r.device.closing) ⊎ (r.device.signal_closed ≡ true))))

abbrev pub fresh : Run
fresh = record { device = new_device; written = []; taken = [] }

fresh-IsFifo : IsFifo fresh
unfolding new_device
fresh-IsFifo = record { refines = empty; woken = λ _. inl refl }

none_put : (w t q : List Bytes) → Fifo w t q → Fifo (w ++ []) t q
none_put w t q f = subst (λ x. Fifo x t q) (sym (append-nil w)) f

none_got : (w t q : List Bytes) → Fifo w t q → Fifo w (t ++ []) q
none_got w t q f = subst (λ x. Fifo w x q) (sym (append-nil t)) f

appends-IsFifo :
    (r : Run) (p : Bytes)
    → IsFifo r
    → IsFifo (record r {
      device = (append_packet p r.device).0;
      written = r.written ++ accepted p (append_packet p r.device).1;
    })
unfolding append_packet
appends-IsFifo r p f =
    if_split
      (λ (x : Device × Bool).
        IsFifo (record r { device = x.0; written = r.written ++ accepted p x.1 }))
      r.device.closed
      (λ _. record {
        refines = none_put r.written r.taken r.device.queue f.refines;
        woken = f.woken;
      })
      (λ _. record {
        refines = put r.written r.taken r.device.queue p f.refines;
        woken = λ _. inr (inr (inl (omega arith)));
      })

has_signal : (n : ℕ) → 0 < (if ltb n capacity then n + 1 else n)
has_signal n = ground arith

signals-IsFifo :
    (r : Run) (left : ℕ) → IsFifo r → IsFifo (record r { device = send_signal r.device left })
unfolding send_signal
signals-IsFifo r left f = record {
  refines = f.refines;
  woken = λ _. inr (inl (has_signal r.device.signals));
}

-- What a round takes is the head of the queue, whether the buffer holds it or not.
taken_of-popped : (size : ℕ) (p : Bytes) → taken_of (popped size p) ≡ p ∷ []
unfolding popped
taken_of-popped size p =
    if_split (λ x. taken_of x ≡ p ∷ []) (ltb size (length p)) (λ _. refl) (λ _. refl)

poll_queue-IsFifo :
    (r : Run) (size : ℕ) (q : List Bytes)
    → r.device.queue ≡ q
    → r.device.waiting ≡ false
    → IsFifo r
    → IsFifo (record r {
      device = (poll_queue size r.device q).0;
      taken = r.taken ++ taken_of (poll_queue size r.device q).1;
    })
unfolding poll_queue
poll_queue-IsFifo r size [] e w f = record {
  refines = none_got r.written r.taken r.device.queue f.refines;
  woken = λ _. inl e;
}
poll_queue-IsFifo r size (p ∷ rest) e w f = record {
  refines =
      subst (λ t. Fifo r.written (r.taken ++ t) rest) (sym (taken_of-popped size p))
        (get r.written r.taken rest p (subst (Fifo r.written r.taken) e f.refines));
  woken = λ c. absurd (ground (arith, c, w));
}

polls-IsFifo :
    (r : Run) (size : ℕ)
    → r.device.waiting ≡ false
    → IsFifo r
    → IsFifo (record r {
      device = (poll size r.device).0;
      taken = r.taken ++ taken_of (poll size r.device).1;
    })
unfolding poll
polls-IsFifo r size w f =
    if_split
      (λ (x : Device × Polled). IsFifo (record r { device = x.0; taken = r.taken ++ taken_of x.1 }))
      r.device.closed
      (λ _. record {
        refines = none_got r.written r.taken r.device.queue f.refines;
        woken = f.woken;
      })
      (λ _. poll_queue-IsFifo r size r.device.queue refl w f)

no_waiter :
    (r : Run) (n : ℕ)
    → IsFifo r
    → IsFifo (record r { device = record r.device { waiting = false; signals = n } })
no_waiter r n f = record {
  refines = f.refines;
  woken = λ c. absurd (let q : false ≡ true = c in cc);
}

close-IsFifo : (r : Run) → IsFifo r → IsFifo (record r { device = close r.device })
unfolding close
close-IsFifo r f = record { refines = f.refines; woken = λ _. inr (inr (inr (inl (omega arith)))) }

close_signal-closed :
    (l m : Device) (left : ℕ)
    → close_signal l left ≡ some m
    → (m.queue ≡ l.queue) × (m.signal_closed ≡ true)
unfolding close_signal
close_signal-closed l m left h = ground (arith, h)

close_signal-IsFifo :
    (r : Run) (left : ℕ) (l : Device)
    → close_signal r.device left ≡ some l
    → IsFifo r
    → IsFifo (record r { device = l })
close_signal-IsFifo r left l h f =
    let (same, shut) = close_signal-closed r.device l left h in
    record {
      refines = subst (Fifo r.written r.taken) (sym same) f.refines;
      woken = λ _. inr (inr (inr (inr shut)));
    }

Step-IsFifo : (r s : Run) → Step r s → IsFifo r → IsFifo s
Step-IsFifo r _ (appends _ p) f = appends-IsFifo r p f
Step-IsFifo r _ (signals _ left _ _) f = signals-IsFifo r left f
Step-IsFifo r _ (polls _ size w) f = polls-IsFifo r size w f
Step-IsFifo r _ (wakes _ left _ _) f = no_waiter r left f
Step-IsFifo r _ (wakes_closed _ _ _ _) f = no_waiter r r.device.signals f
Step-IsFifo r _ (closes _) f = close-IsFifo r f
Step-IsFifo r _ (closes_signal _ left l _ h) f = close_signal-IsFifo r left l h f

Steps-IsFifo : (r s : Run) → IsFifo r → Steps r s → IsFifo s
Steps-IsFifo r _ f (start _) = f
Steps-IsFifo r t f (next _ s _ steps step) = Step-IsFifo s t step (Steps-IsFifo r s f steps)

-- However the steps of the writers, of the one reader and of the calls of `Close` interleave, as long as none panics from a new device on: the packets that
-- `Write` accepts and `Read` takes out are those put into and got out of a first-in first-out queue, and
-- while the reader waits, this queue is empty, or there is a signal to wake it, a writer that has yet to send one, a
-- `Close` that has yet to close the channel, or the channel is closed.
pub loopback-IsFifo : (s : Run) → Steps fresh s → IsFifo s
loopback-IsFifo s steps = Steps-IsFifo fresh s fresh-IsFifo steps
