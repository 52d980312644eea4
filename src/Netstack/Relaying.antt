-- ===== src/Netstack/Relaying.antt =====
-- What the pump of desktop/internal/netstack/engine.go relays, and when it closes the connections.
use toppa.Base.{ℕ, ◌+◌, ◌≡◌, refl, sym, ap, ◌∙◌, Bool, true, false, ◌++◌, append_assoc, arith}
use toppa.Base.Lists.{take, drop, take-append-drop}
use toppa.Base.Bytes.{Bytes}
use toppa.Netstack.Pump.{
  Phase, copying, copied, shut, finished, Copy, Pump, new_copy, new_pump, move, close_write,
  CopyStep, moves, ends, shuts, signals, Step, copies_to_a, copies_to_b, receives, closes_a,
  closes_b, Steps, begins, next,
}

-- How often a copy in this phase has signalled.
unfoldable pub sent : Phase → ℕ
sent copying = 0
sent copied = 0
sent shut = 0
sent finished = 1

-- Whether the destination may have been told that no more comes.
unfoldable pub may_be_closed : Bool → Phase → Bool
may_be_closed is_tcp copying = false
may_be_closed is_tcp copied = false
may_be_closed is_tcp shut = is_tcp
may_be_closed is_tcp finished = is_tcp

pub record Relays (is_tcp : Bool) (source : Bytes) (c : Copy) : Type 0 where
  pub in_order : c.moved ++ c.left ≡ source
  pub told : c.write_closed ≡ may_be_closed is_tcp c.phase

-- The invariant of `pumpBidirectional`.
pub record IsPumping (tcp_a tcp_b : Bool) (from_a from_b : Bytes) (p : Pump) : Type 0 where
  pub relays_a : Relays tcp_a from_b p.to_a
  pub relays_b : Relays tcp_b from_a p.to_b
  pub counted : p.signals + p.received ≡ sent p.to_a.phase + sent p.to_b.phase
  pub waits_a : p.closed_a ≡ true → p.received ≡ 2
  pub waits_b : p.closed_b ≡ true → p.closed_a ≡ true

move-Relays :
    (is_tcp : Bool) (source : Bytes) (c : Copy) (n : ℕ)
    → Relays is_tcp source c
    → Relays is_tcp source (move n c)
unfolding move
move-Relays is_tcp source c n r = record {
  in_order =
      append_assoc c.moved (take n c.left) (drop n c.left)
      ∙ ap (λ x. c.moved ++ x) (take-append-drop n c.left)
      ∙ r.in_order;
  told = r.told;
}

CopyStep-Relays :
    (is_tcp : Bool) (source : Bytes) (c d : Copy) (n : ℕ)
    → CopyStep is_tcp c d n
    → Relays is_tcp source c
    → Relays is_tcp source d × (sent d.phase ≡ sent c.phase + n)
unfolding sent may_be_closed close_write move
CopyStep-Relays is_tcp source _ _ _ (moves c n e h l) r =
    (move-Relays is_tcp source c n r, omega arith)
CopyStep-Relays is_tcp source _ _ _ (ends c e) r = (
  record { in_order = r.in_order; told = r.told ∙ ap (may_be_closed is_tcp) e },
  ap sent (sym e) ∙ omega arith,
)
CopyStep-Relays is_tcp source _ _ _ (shuts c e) r =
    (record { in_order = r.in_order; told = refl }, ap sent (sym e) ∙ omega arith)
CopyStep-Relays is_tcp source _ _ _ (signals c e) r = (
  record { in_order = r.in_order; told = r.told ∙ ap (may_be_closed is_tcp) e },
  ap (λ x. sent x + 1) (sym e),
)

new-Relays : (is_tcp : Bool) (source : Bytes) → Relays is_tcp source (new_copy source)
unfolding new_copy may_be_closed
new-Relays is_tcp source = record { in_order = refl; told = refl }

Step-IsPumping :
    (tcp_a tcp_b : Bool) (from_a from_b : Bytes) (p q : Pump)
    → Step tcp_a tcp_b p q
    → IsPumping tcp_a tcp_b from_a from_b p
    → IsPumping tcp_a tcp_b from_a from_b q
Step-IsPumping tcp_a tcp_b from_a from_b _ _ (copies_to_a p c n s) i =
    let (r, e) = CopyStep-Relays tcp_a from_b p.to_a c n s i.relays_a in
    record {
      relays_a = r;
      relays_b = i.relays_b;
      counted = omega (arith, i.counted, e);
      waits_a = i.waits_a;
      waits_b = i.waits_b;
    }
Step-IsPumping tcp_a tcp_b from_a from_b _ _ (copies_to_b p c n s) i =
    let (r, e) = CopyStep-Relays tcp_b from_a p.to_b c n s i.relays_b in
    record {
      relays_a = i.relays_a;
      relays_b = r;
      counted = omega (arith, i.counted, e);
      waits_a = i.waits_a;
      waits_b = i.waits_b;
    }
Step-IsPumping tcp_a tcp_b from_a from_b _ _ (receives p left e h) i = record {
  relays_a = i.relays_a;
  relays_b = i.relays_b;
  counted = omega (arith, i.counted, e);
  waits_a = λ c. absurd (omega (arith, i.waits_a c, h));
  waits_b = i.waits_b;
}
Step-IsPumping tcp_a tcp_b from_a from_b _ _ (closes_a p e h) i = record {
  relays_a = i.relays_a;
  relays_b = i.relays_b;
  counted = i.counted;
  waits_a = λ _. e;
  waits_b = λ _. refl;
}
Step-IsPumping tcp_a tcp_b from_a from_b _ _ (closes_b p e h) i = record {
  relays_a = i.relays_a;
  relays_b = i.relays_b;
  counted = i.counted;
  waits_a = i.waits_a;
  waits_b = λ _. e;
}

new_pump-IsPumping :
    (tcp_a tcp_b : Bool) (from_a from_b : Bytes)
    → IsPumping tcp_a tcp_b from_a from_b (new_pump from_a from_b)
unfolding new_pump new_copy sent
new_pump-IsPumping tcp_a tcp_b from_a from_b = record {
  relays_a = new-Relays tcp_a from_b;
  relays_b = new-Relays tcp_b from_a;
  counted = refl;
  waits_a = λ e. absurd (ground (arith, e));
  waits_b = λ e. absurd (ground (arith, e));
}

Steps-IsPumping :
    (tcp_a tcp_b : Bool) (from_a from_b : Bytes) (p q : Pump)
    → Steps tcp_a tcp_b p q
    → IsPumping tcp_a tcp_b from_a from_b p
    → IsPumping tcp_a tcp_b from_a from_b q
Steps-IsPumping tcp_a tcp_b from_a from_b _ _ (begins p) i = i
Steps-IsPumping tcp_a tcp_b from_a from_b _ _ (next p q r before s) i =
    Step-IsPumping tcp_a tcp_b from_a from_b q r s
      (Steps-IsPumping tcp_a tcp_b from_a from_b p q before i)

-- However the two copies and the pump interleave, what was written to either connection is a prefix of what the other one
-- gives, in order; a connection is told that no more comes only if it is a `*net.TCPConn`, and then once the copy to it has
-- ended; and neither is closed before both copies have signalled.
pub pump-IsPumping :
    (tcp_a tcp_b : Bool) (from_a from_b : Bytes) (p : Pump)
    → Steps tcp_a tcp_b (new_pump from_a from_b) p
    → IsPumping tcp_a tcp_b from_a from_b p
pump-IsPumping tcp_a tcp_b from_a from_b p run =
    Steps-IsPumping tcp_a tcp_b from_a from_b _ p run (new_pump-IsPumping tcp_a tcp_b from_a from_b)
