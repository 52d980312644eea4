-- ===== src/Relay/Dialer.antt =====
-- desktop/internal/relay/pacing.go and `TunnelDialer` of desktop/internal/relay/dialer.go.
pub mod Pacing
pub mod Opening
pub mod Reaching
use toppa.Base.{
  ℕ, ◌+◌, ◌-◌, ◌%◌, ◌^◌, ◌≢◌, ◌∙◌, sym, ◌≤◌, ◌<◌, ◌≡◌, refl, ap, Bool, true, false, ◌&&◌, Option,
  none, some, List, [], ◌∷◌, arith,
}
use toppa.Base.Tests.{ltb, leb, ◌==◌, if◌then◌else◌}
use toppa.Base.Bytes.{Bytes}
use toppa.Base.Results.{Result, ok, err}
use toppa.Base.Ints.{ℤ, pos, negsuc}
use toppa.Mux.Target.{Target, net_tcp, atyp_ipv4, atyp_ipv6}
use toppa.Mux.Session.State.{Session}
use toppa.Mux.Session.Calls.{open_stream}
use toppa.Relay.Sanitize.{SanitizeConfig}
use toppa.Mux.Errors.{err_session_closed}

pub record Pacer : Type 0 where
  pub max_streams : ℤ
  pub jitter_millis : ℤ
  pub active : ℕ

pub data Error : Type 0 where
  no_session pacing_cap bad_address : Error
  open_failed : toppa.Mux.Errors.Error → Error

unfoldable pub acquire_below : ℕ → Pacer → Pacer × Option Error
acquire_below cap p =
    if leb cap p.active then (p, some pacing_cap) else (record p { active = p.active + 1 }, none)

-- `acquire` of a pacer; the code's nil pacer is `none` below.
unfoldable pub acquire : Pacer → Pacer × Option Error
unfolding acquire_below
acquire p = elim p.max_streams [
  | pos cap ↦ if cap == 0 then (p, none) else acquire_below cap p
  | negsuc _ ↦ (p, none)
]

unfoldable pub release : Pacer → Pacer
release p = record p { active = p.active - 1 }

-- A `net.IP` by what `To4` and `To16` make of it.
pub data Ip : Type 0 where
  v4 v6 : Bytes → Ip
  neither : Ip

pub record Dialer : Type 0 where
  pub session : Option Session
  pub sanitizer : Option SanitizeConfig
  pub pacer : Option Pacer

-- A stream of the session, behind a sanitizer or not.
pub record Conn : Type 0 where
  pub stream : ℕ
  pub sanitized : Option SanitizeConfig

unfoldable pub target_of : Ip → ℕ → Option Target
target_of (v4 a) port =
    some (record { network = net_tcp; atyp = atyp_ipv4; address = a; port = port % 2 ^ 16 })
target_of (v6 a) port =
    some (record { network = net_tcp; atyp = atyp_ipv6; address = a; port = port % 2 ^ 16 })
target_of neither port = none

unfoldable pub enabled : Option SanitizeConfig → Option SanitizeConfig
enabled none = none
enabled (some c) = if c.enabled then some c else none

unfoldable pub connected :
    Dialer → Session × Result toppa.Mux.Errors.Error ℕ → Dialer × Result Error Conn
unfolding enabled
connected d (s, err e) = (record d { session = some s }, err (open_failed e))
connected d (s, ok a) =
    (record d { session = some s }, ok (record { stream = a; sanitized = enabled d.sanitizer }))

unfoldable pub dial_target : Dialer → Session → Option Target → Dialer × Result Error Conn
unfolding connected open_stream
dial_target d s none = (d, err bad_address)
dial_target d s (some target) = connected d (open_stream s target)

-- The deferred `release` runs when `DialTCP` returns.
unfoldable pub release_pacer : Dialer × Result Error Conn → Dialer × Result Error Conn
unfolding release
release_pacer (d, r) =
    (record d { pacer = elim d.pacer [ none ↦ none | some p ↦ some (release p) ] }, r)

unfoldable pub dial_paced :
    Dialer → Session → Option Target → Pacer × Option Error → Dialer × Result Error Conn
unfolding dial_target release_pacer
dial_paced d s target (p, some e) = (d, err e)
dial_paced d s target (p, none) = release_pacer (dial_target (record d { pacer = some p }) s target)

unfoldable pub dial_session :
    Dialer → Option Target → Session → Option Pacer → Dialer × Result Error Conn
unfolding dial_paced acquire
dial_session d target s none = dial_target d s target
dial_session d target s (some p) = dial_paced d s target (acquire p)

unfoldable pub dial_with : Dialer → Option Target → Option Session → Dialer × Result Error Conn
unfolding dial_session
dial_with d target none = (d, err no_session)
dial_with d target (some s) = dial_session d target s d.pacer

-- `DialTCP`
unfoldable pub dial_tcp : Dialer → Ip → ℕ → Dialer × Result Error Conn
unfolding dial_with target_of
dial_tcp d ip port = dial_with d (target_of ip port) d.session

unfoldable pub new_tunnel_dialer : Option Session → Option SanitizeConfig → Option Pacer → Dialer
new_tunnel_dialer session sanitizer pacer = record {
  session = session;
  sanitizer = sanitizer;
  pacer = pacer;
}

-- `SetSession`; a nil session is `none`.
unfoldable pub set_session : Dialer → Option Session → Dialer
set_session d session = record d { session = session }
