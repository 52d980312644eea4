-- ===== src/Relay/Dialer/Pacing.antt =====
-- How many flows the pacing gate lets through.
use toppa.Base.{ℕ, ◌+◌, ◌<◌, ◌≡◌, ◌≢◌, refl, ap, Option, none, some, List, [], ◌∷◌, arith}
use toppa.Base.Lists.{All}
use toppa.Base.Results.{Result, ok, err}
use toppa.Base.Ints.{pos}
use toppa.Mux.Errors
use toppa.Mux.Target.{Target}
use toppa.Mux.Session.State.{Session}
use toppa.Mux.Session.Calls.{open_stream}
use toppa.Relay.Dialer.{
  Pacer, Error, pacing_cap, acquire, acquire_below, release, Dialer, Ip, Conn, connected,
  dial_target, release_pacer, dial_paced, dial_session, dial_with, target_of, dial_tcp,
}

-- What a dial leaves of the pacer, and that it was not the cap that refused it.
abbrev Frees : Option Pacer → Dialer × Result Error Conn → Type 0
Frees p r = (r.0.pacer ≡ p) × (r.1 ≢ err pacing_cap)

connected-Frees :
    (d : Dialer) (r : Session × Result toppa.Mux.Errors.Error ℕ) → Frees d.pacer (connected d r)
unfolding connected
connected-Frees d (s, err e) = (refl, λ c. absurd cc)
connected-Frees d (s, ok a) = (refl, λ c. absurd cc)

dial_target-Frees :
    (d : Dialer) (s : Session) (t : Option Target) → Frees d.pacer (dial_target d s t)
unfolding dial_target
dial_target-Frees d s none = (refl, λ c. absurd cc)
dial_target-Frees d s (some t) = connected-Frees d (open_stream s t)

back : (p : Pacer) → release (record p { active = p.active + 1 }) ≡ p
unfolding release
back p = ap (λ n. record p { active = n }) (omega arith)

release_pacer-Frees :
    (p : Pacer) (r : Dialer × Result Error Conn)
    → Frees (some (record p { active = p.active + 1 })) r
    → Frees (some p) (release_pacer r)
unfolding release_pacer
release_pacer-Frees p (d, r) (same, free) = (rw same (ap some (back p)), free)

acquire-below :
    (p : Pacer) (cap : ℕ)
    → p.max_streams ≡ pos cap
    → p.active < cap
    → acquire p ≡ (record p { active = p.active + 1 }, none)
unfolding acquire acquire_below
acquire-below p cap e h = rw e (ground (arith, h))

dial_session-Frees :
    (d : Dialer) (t : Option Target) (s : Session) (o : Option Pacer) (p : Pacer) (cap : ℕ)
    → o ≡ some p
    → p.max_streams ≡ pos cap
    → p.active < cap
    → Frees (some p) (dial_session d t s o)
unfolding dial_session dial_paced
dial_session-Frees d t s o p cap e m h =
    let counted : Dialer = record d { pacer = some (record p { active = p.active + 1 }) } in
    rw (e, acquire-below p cap m h)
      (release_pacer-Frees p (dial_target counted s t) (dial_target-Frees counted s t))

dial_with-Frees :
    (d : Dialer) (t : Option Target) (o : Option Session) (p : Pacer) (cap : ℕ)
    → d.pacer ≡ some p
    → p.max_streams ≡ pos cap
    → p.active < cap
    → Frees (some p) (dial_with d t o)
unfolding dial_with
dial_with-Frees d t none p cap e m h = (e, λ c. absurd cc)
dial_with-Frees d t (some s) p cap e m h = dial_session-Frees d t s d.pacer p cap e m h

dial_tcp-Frees :
    (d : Dialer) (ip : Ip) (port : ℕ) (p : Pacer) (cap : ℕ)
    → d.pacer ≡ some p
    → p.max_streams ≡ pos cap
    → p.active < cap
    → Frees (some p) (dial_tcp d ip port)
unfolding dial_tcp
dial_tcp-Frees d ip port = dial_with-Frees d (target_of ip port) d.session

-- A run of dials, none of whose flows is closed in between, and their results.
unfoldable pub dial_each : Dialer → List (Ip × ℕ) → Dialer × List (Result Error Conn)
unfolding dial_tcp
dial_each d [] = (d, [])
dial_each d ((ip, port) ∷ addrs) =
    let r = dial_tcp d ip port in let rest = dial_each r.0 addrs in (rest.0, r.1 ∷ rest.1)

-- Under a cap above the count at the start, no dial of any run is refused by the cap, however
-- many flows the run opens and leaves open, and the count at the end is the one at the start.
pub pacing_cap_never_reached :
    (addrs : List (Ip × ℕ)) (d : Dialer) (p : Pacer) (cap : ℕ)
    → d.pacer ≡ some p
    → p.max_streams ≡ pos cap
    → p.active < cap
    → ((dial_each d addrs).0.pacer ≡ some p) × All (λ r. r ≢ err pacing_cap) (dial_each d addrs).1
unfolding dial_each
pacing_cap_never_reached [] d p cap e m h = (e, tt)
pacing_cap_never_reached ((ip, port) ∷ addrs) d p cap e m h =
    let (freed, free) = dial_tcp-Frees d ip port p cap e m h in
    let (same, rest) = pacing_cap_never_reached addrs (dial_tcp d ip port).0 p cap freed m h in
    (same, (free, rest))
