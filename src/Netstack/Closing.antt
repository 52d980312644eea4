-- ===== src/Netstack/Closing.antt =====
-- The end of the pump of desktop/internal/netstack/engine.go, and what it makes of a half-close.
use toppa.Base.{
  ℕ, zero, suc, ◌+◌, ◌-◌, ◌≤◌, ◌<◌, ◌≡◌, refl, sym, ap, ◌∙◌, ◌⊎◌, inl, inr, Bool, true, false,
  arith,
}
use toppa.Base.Lists.{length, length-drop}
use toppa.Base.Bytes.{Bytes}
use toppa.Netstack.Pump.{
  Phase, copying, copied, shut, finished, Copy, Pump, new_pump, move, close_write, CopyStep, moves,
  ends, shuts, signals, Step, copies_to_a, copies_to_b, receives, closes_a, closes_b, Steps,
}
use toppa.Netstack.Relaying.{sent, may_be_closed, IsPumping, pump-IsPumping}

weight : Phase → ℕ
weight copying = 3
weight copied = 2
weight shut = 1
weight finished = 0

-- How many steps a copy and the pump have left at most.
copy_left : Copy → ℕ
copy_left c = length c.left + weight c.phase

open_ : Bool → ℕ
open_ true = 0
open_ false = 1

pub steps_left : Pump → ℕ
steps_left p =
    copy_left p.to_a + copy_left p.to_b + (2 - p.received) + open_ p.closed_a + open_ p.closed_b

CopyStep-less :
    (is_tcp : Bool) (c d : Copy) (n : ℕ) → CopyStep is_tcp c d n → copy_left d < copy_left c
unfolding copy_left weight close_write move
CopyStep-less is_tcp _ _ _ (moves c n e h l) = omega (arith, length-drop n c.left, h, l)
CopyStep-less is_tcp _ _ _ (ends c e) = omega (arith, ap weight e)
CopyStep-less is_tcp _ _ _ (shuts c e) = omega (arith, ap weight e)
CopyStep-less is_tcp _ _ _ (signals c e) = omega (arith, ap weight e)

Step-less : (tcp_a tcp_b : Bool) (p q : Pump) → Step tcp_a tcp_b p q → steps_left q < steps_left p
unfolding steps_left open_
Step-less tcp_a tcp_b _ _ (copies_to_a p c n s) = omega (arith, CopyStep-less tcp_a p.to_a c n s)
Step-less tcp_a tcp_b _ _ (copies_to_b p c n s) = omega (arith, CopyStep-less tcp_b p.to_b c n s)
Step-less tcp_a tcp_b _ _ (receives p left e h) = omega (arith, h)
Step-less tcp_a tcp_b _ _ (closes_a p e h) = omega (arith, ap open_ h)
Step-less tcp_a tcp_b _ _ (closes_b p e h) = omega (arith, ap open_ h)

-- A copy that has not signalled has a step.
copy_goes_on :
    (is_tcp : Bool) (c : Copy)
    → (c.phase ≡ finished) ⊎ ((d : Copy) × (n : ℕ) × CopyStep is_tcp c d n)
copy_goes_on is_tcp c = by_phase c.phase refl
  where
    by_phase :
        (h : Phase)
        → c.phase ≡ h
        → (c.phase ≡ finished) ⊎ ((d : Copy) × (n : ℕ) × CopyStep is_tcp c d n)
    by_phase copying e = inr (_, 0, ends c e)
    by_phase copied e = inr (_, 0, shuts c e)
    by_phase shut e = inr (_, 1, signals c e)
    by_phase finished e = inl e

sent-le : (h : Phase) → (sent h ≤ 1) × (sent h ≡ 1 → h ≡ finished)
unfolding sent
sent-le copying = (omega arith, λ e. absurd (omega (arith, e)))
sent-le copied = (omega arith, λ e. absurd (omega (arith, e)))
sent-le shut = (omega arith, λ e. absurd (omega (arith, e)))
sent-le finished = (omega arith, λ e. refl)

sent_once : (h : Phase) → h ≡ finished → sent h ≡ 1
unfolding sent
sent_once h e = ap sent e

-- Who has received both signals has them from both copies.
both_finished :
    (p : Pump)
    → p.signals + p.received ≡ sent p.to_a.phase + sent p.to_b.phase
    → p.received ≡ 2
    → (p.to_a.phase ≡ finished) × (p.to_b.phase ≡ finished)
both_finished p e r =
    let (la, fa) = sent-le p.to_a.phase in
    let (lb, fb) = sent-le p.to_b.phase in
    (fa (omega (arith, e, r, la, lb)), fb (omega (arith, e, r, la, lb)))

-- A pump that has not received both signals has a step.
receives_on :
    (tcp_a tcp_b : Bool) (p : Pump)
    → p.signals + p.received ≡ sent p.to_a.phase + sent p.to_b.phase
    → p.received < 2
    → (q : Pump) × Step tcp_a tcp_b p q
receives_on tcp_a tcp_b p e h = by_signals p.signals refl
  where
    with_b :
        p.signals ≡ 0
        → p.to_a.phase ≡ finished
        → (p.to_b.phase ≡ finished) ⊎ ((d : Copy) × (n : ℕ) × CopyStep tcp_b p.to_b d n)
        → (q : Pump) × Step tcp_a tcp_b p q
    with_b z fa (inl fb) = absurd (omega (arith, z, e, h, sent_once _ fa, sent_once _ fb))
    with_b z fa (inr (d, n, s)) = (_, copies_to_b p d n s)

    with_a :
        p.signals ≡ 0
        → (p.to_a.phase ≡ finished) ⊎ ((d : Copy) × (n : ℕ) × CopyStep tcp_a p.to_a d n)
        → (q : Pump) × Step tcp_a tcp_b p q
    with_a z (inl fa) = with_b z fa (copy_goes_on tcp_b p.to_b)
    with_a z (inr (d, n, s)) = (_, copies_to_a p d n s)

    by_signals : (n : ℕ) → p.signals ≡ n → (q : Pump) × Step tcp_a tcp_b p q
    by_signals zero z = with_a z (copy_goes_on tcp_a p.to_a)
    by_signals (suc n) z = (_, receives p n z h)

pub Returned : Pump → Type 0
Returned p =
    (p.closed_a ≡ true)
    × (p.closed_b ≡ true)
    × (p.to_a.phase ≡ finished)
    × (p.to_b.phase ≡ finished)

goes_on :
    (tcp_a tcp_b : Bool) (from_a from_b : Bytes) (p : Pump)
    → IsPumping tcp_a tcp_b from_a from_b p
    → Returned p ⊎ ((q : Pump) × Step tcp_a tcp_b p q)
unfolding Returned
goes_on tcp_a tcp_b from_a from_b p i = by_closed p.closed_a p.closed_b refl refl
  where
    by_received :
        p.closed_a ≡ false
        → (p.received < 2) ⊎ (2 ≤ p.received)
        → Returned p ⊎ ((q : Pump) × Step tcp_a tcp_b p q)
    by_received ca (inl h) = inr (receives_on tcp_a tcp_b p i.counted h)
    by_received ca (inr h) = inr (
      _,
      closes_a p (omega (arith, h, i.counted, (sent-le p.to_a.phase).0, (sent-le p.to_b.phase).0))
          ca,
    )

    by_closed :
        (a b : Bool)
        → p.closed_a ≡ a
        → p.closed_b ≡ b
        → Returned p ⊎ ((q : Pump) × Step tcp_a tcp_b p q)
    by_closed true true ca cb =
        let (fa, fb) = both_finished p i.counted (i.waits_a ca) in inl (ca, cb, fa, fb)
    by_closed true false ca cb = inr (_, closes_b p ca cb)
    by_closed false b ca cb = by_received ca (omega arith)

-- At every point of a run, whatever the connections are, the pump has returned, with both copies ended and both
-- connections closed, or there is a step to take; and every step leaves fewer steps, so that the pump returns once its
-- reads and writes do.
pub pump_returns :
    (tcp_a tcp_b : Bool) (from_a from_b : Bytes) (p : Pump)
    → Steps tcp_a tcp_b (new_pump from_a from_b) p
    → (Returned p ⊎ ((q : Pump) × Step tcp_a tcp_b p q))
      × ((q : Pump) → Step tcp_a tcp_b p q → steps_left q < steps_left p)
pump_returns tcp_a tcp_b from_a from_b p run = (
  goes_on tcp_a tcp_b from_a from_b p (pump-IsPumping tcp_a tcp_b from_a from_b p run),
  λ q s. Step-less tcp_a tcp_b p q s,
)

untold : (h : Phase) → may_be_closed false h ≡ false
unfolding may_be_closed
untold copying = refl
untold copied = refl
untold shut = refl
untold finished = refl

no_truth : (b : Bool) → (b ≡ true → ⊥) → b ≡ false
no_truth true h = absurd (h refl)
no_truth false h = refl

-- Between the connections of a flow, of which neither is a `*net.TCPConn`, no connection is ever told that no more comes:
-- while one copy still runs, and the other one has ended because its source has shut down its side, the destination of the
-- ended one is neither told nor closed.
pub half_close_is_lost :
    (from_a from_b : Bytes) (p : Pump)
    → Steps false false (new_pump from_a from_b) p
    → p.to_a.phase ≡ copying
    → (p.to_b.write_closed ≡ false) × (p.closed_a ≡ false) × (p.closed_b ≡ false)
unfolding weight
half_close_is_lost from_a from_b p run running =
    let i = pump-IsPumping false false from_a from_b p run in
    let not_a = no_truth p.closed_a (λ c. still (both_finished p i.counted (i.waits_a c)).0) in
    (
      i.relays_b.told ∙ untold p.to_b.phase,
      not_a,
      no_truth p.closed_b (λ c. still (both_finished p i.counted (i.waits_a (i.waits_b c))).0),
    )
  where
    still : p.to_a.phase ≡ finished → ⊥
    still f = omega (arith, ap weight (sym running ∙ f))
