-- ===== src/Netstack/Delivery.antt =====
-- What desktop/internal/netstack delivers.
use toppa.Base.{
  ℕ, ◌+◌, ◌≡◌, refl, sym, subst, ap, ◌∙◌, Bool, true, false, List, [], ◌∷◌, ◌++◌, arith,
}
use toppa.Base.Lists.{length}
use toppa.Base.Bytes.{Bytes}
use toppa.Base.Results.{fst_eq, snd_eq}
use toppa.Netstack.Link.{after_write, write_from, write_packets}

module _ {T : Type 0} (write : T → Bytes → T × Bool) where
  -- The device after a list of writes.
  abbrev pub after_all : List Bytes → T → T
  after_all [] tun = tun
  after_all (p ∷ ps) tun = after_all ps (write tun p).0

  -- Every write of the list succeeds.
  abbrev pub Takes : List Bytes → T → Type 0
  Takes [] tun = Unit
  Takes (p ∷ ps) tun = ((write tun p).1 ≡ true) × Takes ps (write tun p).0

  -- The list ended, or the packet behind `taken` was refused and none was tried after it.
  abbrev pub Ended : List Bytes → List Bytes → T → T × ℕ × Bool → Type 0
  Ended taken [] tun r = (r.2 ≡ true) × (r.0 ≡ after_all taken tun)
  Ended taken (p ∷ rest) tun r =
      (r.2 ≡ false)
      × ((write (after_all taken tun) p).1 ≡ false)
      × (r.0 ≡ (write (after_all taken tun) p).0)

  -- From a count of `n` on: the packets that went through are counted.
  pub record Written (pkts : List Bytes) (tun : T) (n : ℕ) (r : T × ℕ × Bool) : Type 0 where
    taken : List Bytes
    left : List Bytes
    split : pkts ≡ taken ++ left
    count : r.1 ≡ n + length taken
    accepted : Takes taken tun
    ended : Ended taken left tun r

  Ended-cons :
      (p : Bytes) (taken left : List Bytes) (tun : T) (r : T × ℕ × Bool)
      → Ended taken left (write tun p).0 r
      → Ended (p ∷ taken) left tun r
  Ended-cons p taken [] tun r h = h
  Ended-cons p taken (q ∷ rest) tun r h = h

  Written-cons :
      (p : Bytes) (ps : List Bytes) (tun u : T) (n : ℕ) (r : T × ℕ × Bool)
      → write tun p ≡ (u, true)
      → Written ps u (n + 1) r
      → Written (p ∷ ps) tun n r
  Written-cons p ps tun u n r e w = record {
    taken = p ∷ w.taken;
    left = w.left;
    split = ap (λ l. p ∷ l) w.split;
    count = w.count ∙ (omega arith);
    accepted = (snd_eq e, subst (Takes w.taken) (sym (fst_eq e)) w.accepted);
    ended =
        Ended-cons p w.taken w.left tun r
          (subst (λ t. Ended w.taken w.left t r) (sym (fst_eq e)) w.ended);
  }

  first_write :
      (p : Bytes) (ps : List Bytes) (tun : T) (n : ℕ) (o : T × Bool)
      → write tun p ≡ o
      → ((u : T) → Written ps u (n + 1) (write_from write ps u (n + 1)))
      → Written (p ∷ ps) tun n (after_write write (write_from write ps) n o)
  unfolding after_write
  first_write p ps tun n (u, true) e later =
      Written-cons p ps tun u n (write_from write ps u (n + 1)) e (later u)
  first_write p ps tun n (u, false) e later = record {
    taken = [];
    left = p ∷ ps;
    split = refl;
    count = omega arith;
    accepted = tt;
    ended = (refl, snd_eq e, sym (fst_eq e));
  }

  write_from-Written :
      (pkts : List Bytes) (tun : T) (n : ℕ) → Written pkts tun n (write_from write pkts tun n)
  unfolding write_from
  write_from-Written [] tun n = record {
    taken = [];
    left = [];
    split = refl;
    count = omega arith;
    accepted = tt;
    ended = (refl, refl);
  }
  write_from-Written (p ∷ ps) tun n =
      first_write p ps tun n (write tun p) refl (λ u. write_from-Written ps u (n + 1))

  -- `WritePackets` writes the packets in order up to the first that the device refuses: the count that it returns is the
  -- number of those that went through, the device is as these writes and the refused one leave it, and the
  -- error comes exactly where a packet was refused.
  pub write_packets-Written :
      (pkts : List Bytes) (tun : T) → Written pkts tun 0 (write_packets write tun pkts)
  unfolding write_packets
  write_packets-Written pkts tun = write_from-Written pkts tun 0
