-- ===== src/Daemon/Backoff.antt =====
-- The waits of `Run` of desktop/internal/daemon/daemon.go.
use native.Mathlib.Nat.{pow-suc, mul_assoc, mod-lt}
use toppa.Base.{
  ℕ, zero, suc, ◌+◌, ◌*◌, ◌/◌, ◌%◌, ◌^◌, ◌≤◌, ◌<◌, ◌≡◌, ◌≢◌, refl, sym, ap, ◌∙◌, Bool, true, false,
  not, ◌||◌, Option, none, some, List, [], ◌∷◌, ◌++◌, append-nil, append_assoc, arith,
}
use toppa.Base.Tests.{if◌then◌else◌, if_split, ltb}
use toppa.Base.Lists.{length, All}
use toppa.Config
use toppa.Daemon.{connecting, Transport, transport_id, Daemon, pick_transport}
use toppa.Daemon.Connect.{
  Attempt, Ran, Error, key_store, handshake, fails, with_conn, with_transport, connect,
}
use toppa.Daemon.Run.{
  jitter, doubled, Turn, Loop, wait, after_connect, turn, turns, initial, max_backoff,
}

abbrev pub smaller : ℕ → ℕ → ℕ
smaller a b = if ltb b a then b else a

-- The backoff after `k` failures in a row.
abbrev pub expected : ℕ → ℕ → ℕ → ℕ
expected first most zero = first
expected first most (suc k) = smaller (first * 2 ^ suc k) most

add_zero : (k : ℕ) → k + 0 ≡ k
add_zero k = omega arith

add_suc : (k n : ℕ) → k + suc n ≡ suc k + n
add_suc k n = omega arith

pow_suc : (a k : ℕ) → a * 2 ^ suc k ≡ a * 2 ^ k * 2
pow_suc a k = ap (λ p. a * p) (pow-suc 2 k) ∙ sym (mul_assoc a (2 ^ k) 2)

doubled_small : (b most : ℕ) → b < 2 ^ 62 → most < 2 ^ 62 → doubled b most ≡ smaller (b * 2) most
unfolding doubled
doubled_small b most hb hm = ground arith

expected-small :
    (first most k : ℕ) → first < 2 ^ 62 → most < 2 ^ 62 → expected first most k < 2 ^ 62
expected-small first most zero hf hm = hf
expected-small first most (suc k) hf hm = ground arith

doubled-expected :
    (first most k : ℕ)
    → first < 2 ^ 62
    → most < 2 ^ 62
    → doubled (expected first most k) most ≡ expected first most (suc k)
doubled-expected first most zero hf hm = doubled_small first most hf hm
doubled-expected first most (suc k) hf hm =
    doubled_small (smaller (first * 2 ^ suc k) most) most (expected-small first most (suc k) hf hm)
      hm
    ∙ ground (arith, pow_suc first (suc k))

jitter_bounds : (b random : ℕ) → b < 2 ^ 62 → (b ≤ jitter b random) × (jitter b random ≤ b + b / 4)
unfolding jitter
jitter_bounds b random h =
    let r : random % (b / 4 + 1) < b / 4 + 1 = mod-lt random (omega arith) in ground (arith, r)

-- The waits from the `k`th failure in a row on.
abbrev pub Follows : ℕ → ℕ → ℕ → List ℕ → Type 0
Follows first most k [] = Unit
Follows first most k (w ∷ ws) =
    ((expected first most k ≤ w) × (w ≤ expected first most k + expected first most k / 4))
    × Follows first most (suc k) ws

-- A turn in which nothing is cancelled, no signal comes, and no handshake succeeds, because the phone is
-- out of reach or does not agree.
pub record Fails (t : Turn) : Type 0 where
  pub going : t.cancelled_first ≡ false
  pub still : t.cancelled_then ≡ false
  pub waiting : t.cancelled_waiting ≡ false
  pub quiet : t.signalled ≡ false
  pub refused : t.attempt.handshaken ≡ false

module _ {R : Type 0} (apply : R → R × Bool) (rollback : R → R) (cfg : toppa.Config.Config) where
  record Refused (d : Daemon) (ran : Ran R) : Type 0 where
    error : ran.result ≢ none
    quiet : ran.daemon.reconnect ≡ d.reconnect

  fails-Refused : (d : Daemon) (r : R) (e : Error) → Refused d (fails apply rollback d r e)
  fails-Refused d r e = record { error = λ c. cc; quiet = refl }

  with_conn-Refused :
      (a : Attempt) (d : Daemon) (r : R)
      → a.handshaken ≡ false
      → Refused d (with_conn apply rollback a d r)
  unfolding with_conn
  with_conn-Refused a d r h =
      if_split (Refused d) (not a.store_opened) (λ _. fails-Refused d r key_store)
        (λ _.
          if_split (Refused d) (not a.identity_read) (λ _. fails-Refused d r key_store)
            (λ _.
              if_split (Refused d) (not a.pin_read) (λ _. fails-Refused d r key_store)
                (λ _.
                  if_split (Refused d) (not a.handshaken) (λ _. fails-Refused d r handshake)
                    (λ e. absurd (ground (arith, e, h))))))

  with_transport-Refused :
      (a : Attempt) (d : Daemon) (r : R) (o : Option Transport)
      → a.handshaken ≡ false
      → Refused d (with_transport apply rollback a d r o)
  unfolding with_transport
  with_transport-Refused a d r none h = record { error = λ c. cc; quiet = refl }
  with_transport-Refused a d r (some t) h =
      let e : Daemon = record d { transport = transport_id t } in
      let c = with_conn-Refused a e r h in
      if_split (Refused d) (not a.prepared) (λ _. record { error = λ c. cc; quiet = refl })
        (λ _.
          if_split (Refused d) (not a.dialled) (λ _. record { error = λ c. cc; quiet = refl })
            (λ _. record { error = c.error; quiet = c.quiet }))

  -- A turn that ends in a wait for the timer.
  record Waited (t : Turn) (l m : Loop R) : Type 0 where
    waits : m.waits ≡ l.waits ++ jitter l.backoff t.random ∷ []
    backoff : m.backoff ≡ doubled l.backoff (max_backoff apply rollback cfg)
    going : m.returned ≡ l.returned
    quiet : m.daemon.reconnect ≡ false

  wait-Waited :
      (t : Turn) (l m : Loop R)
      → Fails t
      → m.daemon.reconnect ≡ false
      → m.waits ≡ l.waits
      → m.backoff ≡ l.backoff
      → m.returned ≡ l.returned
      → Waited t l (wait (initial apply rollback cfg) (max_backoff apply rollback cfg) t m)
  unfolding wait
  wait-Waited t l m f quiet w b r =
      let cw = f.waiting in
      let cs = f.quiet in
      if_split (Waited t l) t.cancelled_waiting (λ e. absurd (ground (arith, e, cw)))
        (λ _.
          if_split (Waited t l) (m.daemon.reconnect || t.signalled)
            (λ e. absurd (ground (arith, e, cs, quiet)))
            (λ _. record {
              waits = rw (w, b);
              backoff = ap (λ x. doubled x (max_backoff apply rollback cfg)) b;
              going = r;
              quiet = quiet;
            }))

  after_connect-Waited :
      (t : Turn) (l : Loop R) (d : Daemon) (ran : Ran R)
      → Fails t
      → Refused d ran
      → d.reconnect ≡ false
      → Waited t l
          (after_connect (initial apply rollback cfg) (max_backoff apply rollback cfg) t l ran)
  unfolding after_connect
  after_connect-Waited t l d ran f q quiet = chosen ran.result q.error
    where
      chosen :
          (o : Option Error)
          → o ≢ none
          → Waited t l (elim o [
            | none ↦
                wait (initial apply rollback cfg) (max_backoff apply rollback cfg) t (record l {
                  daemon = ran.daemon;
                  routes = ran.routes;
                  backoff = initial apply rollback cfg;
                })
            | some e ↦
                if t.cancelled_then
                then record l { daemon = ran.daemon; routes = ran.routes; returned = true }
                else wait
                    (initial apply rollback cfg)
                    (max_backoff apply rollback cfg)
                    t
                    (record l { daemon = ran.daemon; routes = ran.routes })
          ])
      chosen none n = absurd (n refl)
      chosen (some e) n =
          if_split (Waited t l) t.cancelled_then (λ c. absurd (ground (arith, c, f.still)))
            (λ _.
              wait-Waited t l (record l { daemon = ran.daemon; routes = ran.routes }) f
                (q.quiet ∙ quiet) refl refl refl)

  turn-Waited :
      (t : Turn) (l : Loop R)
      → Fails t
      → l.daemon.reconnect ≡ false
      → Waited t l (turn apply rollback cfg t l)
  unfolding turn connect
  turn-Waited t l f quiet =
      if_split (Waited t l) t.cancelled_first (λ e. absurd (ground (arith, e, f.going)))
        (λ _.
          let d : Daemon = record l.daemon { state = connecting } in
          after_connect-Waited t l d
            (with_transport apply rollback t.attempt d l.routes
              (pick_transport cfg t.attempt.available cfg.transport.priority))
            f
            (with_transport-Refused t.attempt d l.routes
              (pick_transport cfg t.attempt.available cfg.transport.priority) f.refused)
            quiet)

  -- The loop after some turns that failed: it goes on, it waited once a turn, and the waits follow the backoff.
  pub record Retried (ts : List Turn) (l m : Loop R) (k : ℕ) : Type 0 where
    pub ws : List ℕ
    pub counted : length ws ≡ length ts
    pub waits : m.waits ≡ l.waits ++ ws
    pub bounded : Follows (initial apply rollback cfg) (max_backoff apply rollback cfg) k ws
    pub backoff :
        m.backoff
        ≡ expected (initial apply rollback cfg) (max_backoff apply rollback cfg) (k + length ts)
    pub going : m.returned ≡ false

  turns_step :
      (t : Turn) (ts : List Turn) (l : Loop R)
      → l.returned ≡ false
      → turns apply rollback cfg (t ∷ ts) l
        ≡ turns apply rollback cfg ts (turn apply rollback cfg t l)
  unfolding turns
  turns_step t ts l g = rw g

  jittered :
      (b b0 random : ℕ)
      → b ≡ b0
      → b0 < 2 ^ 62
      → (b0 ≤ jitter b random) × (jitter b random ≤ b0 + b0 / 4)
  jittered b b0 random e h = rw e (jitter_bounds b0 random h)

  Retried-cons :
      (t : Turn) (ts : List Turn) (l m n : Loop R) (k : ℕ)
      → initial apply rollback cfg < 2 ^ 62
      → max_backoff apply rollback cfg < 2 ^ 62
      → l.backoff ≡ expected (initial apply rollback cfg) (max_backoff apply rollback cfg) k
      → Waited t l m
      → Retried ts m n (suc k)
      → Retried (t ∷ ts) l n k
  Retried-cons t ts l m n k hi hm b w r = record {
    ws = jitter l.backoff t.random ∷ r.ws;
    counted = ap suc r.counted;
    waits =
        r.waits
        ∙ ap (λ x. x ++ r.ws) w.waits
        ∙ append_assoc l.waits (jitter l.backoff t.random ∷ []) r.ws;
    bounded = (
      jittered l.backoff (expected (initial apply rollback cfg) (max_backoff apply rollback cfg) k)
          t.random b
          (expected-small (initial apply rollback cfg) (max_backoff apply rollback cfg) k hi hm),
      r.bounded,
    );
    backoff =
        r.backoff
        ∙ ap (expected (initial apply rollback cfg) (max_backoff apply rollback cfg))
            (sym (add_suc k (length ts)));
    going = r.going;
  }

  -- Where the configured delays are below 2^62 ns, the loop goes on, and no signal is waiting, turns in a row
  -- that fail before a tunnel stands each end in one wait: the k-th backoff is the
  -- initial delay times 2^k, capped by the greatest delay from the first doubling on, and a wait is the
  -- backoff lengthened by at most a quarter.
  pub retries_back_off :
      (ts : List Turn) (l : Loop R) (k : ℕ)
      → initial apply rollback cfg < 2 ^ 62
      → max_backoff apply rollback cfg < 2 ^ 62
      → All Fails ts
      → l.returned ≡ false
      → l.daemon.reconnect ≡ false
      → l.backoff ≡ expected (initial apply rollback cfg) (max_backoff apply rollback cfg) k
      → Retried ts l (turns apply rollback cfg ts l) k
  unfolding turns
  retries_back_off [] l k hi hm fs g q b = record {
    ws = [];
    counted = refl;
    waits = sym (append-nil l.waits);
    bounded = tt;
    backoff =
        b
        ∙ ap (expected (initial apply rollback cfg) (max_backoff apply rollback cfg))
            (sym (add_zero k));
    going = g;
  }
  retries_back_off (t ∷ ts) l k hi hm (f, fs) g q b =
      let m : Loop R = turn apply rollback cfg t l in
      let w : Waited t l m = turn-Waited t l f q in
      let c =
        ap (λ x. doubled x (max_backoff apply rollback cfg)) b
        ∙ doubled-expected (initial apply rollback cfg) (max_backoff apply rollback cfg) k hi hm in
      let r = retries_back_off ts m (suc k) hi hm fs (w.going ∙ g) w.quiet (w.backoff ∙ c) in
      rw (turns_step t ts l g) (Retried-cons t ts l m (turns apply rollback cfg ts m) k hi hm b w r)
