-- ===== src/Daemon/Run.antt =====
-- `Run` of desktop/internal/daemon/daemon.go: reconnecting with a bounded exponential backoff.
use toppa.Base.{
  ℕ, ◌+◌, ◌*◌, ◌/◌, ◌%◌, ◌^◌, Bool, true, false, ◌||◌, ◌&&◌, not, ◌-◌, none, some, List, [], ◌∷◌,
  ◌++◌,
}
use toppa.Base.Tests.{◌==◌, leb, if◌then◌else◌}
use toppa.Base.Ints.{ℤ, pos, negsuc}
use toppa.Config
use toppa.Mux.Stream.{i64_mod, slt}
use toppa.Daemon.{connecting, Daemon}
use toppa.Daemon.Connect.{Attempt, Ran, connect}

-- `jitter`: durations are 64-bit patterns of nanoseconds, and `rand.Int63n n` is the rest by `n` of a random number.
unfoldable pub jitter : ℕ → ℕ → ℕ
jitter base random =
    if base == 0 || leb (2 ^ 63) base then 0 else (base + random % (base / 4 + 1)) % i64_mod

-- One turn of the loop, as far as it comes from outside: whether the context is cancelled at its start, after
-- `connect`, or in the wait, how `connect` goes, whether `Reconnect` is called in the wait, and the random number.
pub record Turn : Type 0 where
  pub cancelled_first : Bool
  pub attempt : Attempt
  pub cancelled_then : Bool
  pub cancelled_waiting : Bool
  pub signalled : Bool
  pub random : ℕ

-- How the loop stands: it has returned, or goes on. `waits` are the durations of the timers that ran out.
pub record Loop (R : Type 0) : Type 0 where
  pub daemon : Daemon
  pub routes : R
  pub backoff : ℕ
  pub waits : List ℕ
  pub returned : Bool

-- `time.Duration(ms) * time.Millisecond`
unfoldable pub millis : ℤ → ℕ
millis (pos n) = n * 1000000 % i64_mod
millis (negsuc n) = (i64_mod - (n + 1) * 1000000 % i64_mod) % i64_mod

unfoldable pub doubled : ℕ → ℕ → ℕ
doubled backoff max_backoff =
    let b = backoff * 2 % i64_mod in if slt max_backoff b then max_backoff else b

module _ {R : Type 0} (initial max_backoff : ℕ) where
  -- The `select`, and the doubling behind it. A signal that is waiting is taken before the timer runs out.
  unfoldable pub wait : Turn → Loop R → Loop R
  unfolding doubled jitter
  wait t l =
      if t.cancelled_waiting
      then record l { returned = true }
      else if l.daemon.reconnect || t.signalled
      then record l {
        daemon = record l.daemon { reconnect = false };
        backoff = doubled l.backoff max_backoff;
      }
      else record l {
        waits = l.waits ++ jitter l.backoff t.random ∷ [];
        backoff = doubled l.backoff max_backoff;
      }

  unfoldable pub after_connect : Turn → Loop R → Ran R → Loop R
  unfolding wait
  after_connect t l ran =
      let m = record l { daemon = ran.daemon; routes = ran.routes } in
      elim ran.result [
        | none ↦ wait t (record m { backoff = initial })
        | some e ↦ if t.cancelled_then then record m { returned = true } else wait t m
      ]

module _ {R : Type 0} (apply : R → R × Bool) (rollback : R → R) (cfg : toppa.Config.Config) where
  abbrev pub initial : ℕ
  initial = millis cfg.daemon.reconnect_initial_ms

  abbrev pub max_backoff : ℕ
  max_backoff = millis cfg.daemon.reconnect_max_ms

  unfoldable pub turn : Turn → Loop R → Loop R
  unfolding after_connect connect
  turn t l =
      if t.cancelled_first
      then record l { returned = true }
      else after_connect initial max_backoff t l
          (connect apply rollback cfg t.attempt (record l.daemon { state = connecting }) l.routes)

  unfoldable pub turns : List Turn → Loop R → Loop R
  unfolding turn
  turns [] l = l
  turns (t ∷ ts) l = elim l.returned [ true ↦ l | false ↦ turns ts (turn t l) ]

  -- `Run`: it returns where the reconciliation or the listening of the control interface fails.
  unfoldable pub run : (R → R × Bool) → Bool → List Turn → Daemon → R → Loop R
  unfolding turns
  run reconcile listens ts d r = turns ts (record {
    daemon = d;
    routes = (reconcile r).0;
    backoff = initial;
    waits = [];
    returned = not ((reconcile r).1 && listens);
  })
