-- ===== src/Daemon/Examples.antt =====
-- The theorems on the daemon at the default configuration.
use toppa.Base.{
  ℕ, ◌+◌, ◌^◌, ◌<◌, ◌≡◌, refl, Bool, true, false, Option, none, some, List, [], ◌∷◌, arith,
}
use toppa.Base.Lists.{All}
use toppa.Base.Bytes.{Bytes, codes}
use toppa.Base.Ints.{ℤ, pos}
use toppa.Base.Results.{err}
use toppa.Config.{default_config, validate}
use toppa.Config.Valid.{IsValid, validate-iff-IsValid}
use toppa.Mux.Session.State.{new}
use toppa.Relay.Dialer.{Dialer, Ip, neither}
use toppa.Resolver.Tcp.{all_failed}
use toppa.Resolver.Doh.{Reply, query_wire}
use toppa.Daemon.Doh.{Refused, doh_dial, named_servers_fail}
use toppa.Daemon.Parts.{mux_config}
use toppa.Daemon.Fitting.{Fits, valid_config-Fits}
use toppa.Daemon.{connecting, offline, Daemon, pick_transport}
use toppa.Daemon.Connect.{Attempt, signalled, connect}
use toppa.Daemon.Run.{Turn, Loop, millis, initial, max_backoff, turns}
use toppa.Daemon.Teardown.{nested, TornDown, connect_tears_down}
use toppa.Daemon.Backoff.{Fails, Retried, retries_back_off}

abbrev applying : ℕ → ℕ × Bool
applying r = (r + 1, true)

abbrev back : ℕ → ℕ
back r = 0

abbrev succeeding : Attempt
succeeding = record {
  available = λ t. true;
  prepared = true;
  dialled = true;
  store_opened = true;
  identity_read = true;
  pin_read = true;
  handshaken = true;
  adapter_opened = true;
  engine_started = true;
  ending = signalled;
  started = 7;
}

abbrev idle : Daemon
idle = record { state = offline; transport = []; since = 0; reconnect = false }

connect_tears_down_example :
    (nested [] (connect applying back default_config succeeding idle 3).effects ≡ some [])
    × TornDown applying back 3 (connect applying back default_config succeeding idle 3)
connect_tears_down_example = connect_tears_down applying back default_config succeeding idle 3

abbrev failing_turn : Turn
failing_turn = record {
  cancelled_first = false;
  attempt = record succeeding { handshaken = false };
  cancelled_then = false;
  cancelled_waiting = false;
  signalled = false;
  random = 5;
}

failing_turn-Fails : Fails failing_turn
failing_turn-Fails = record {
  going = refl;
  still = refl;
  waiting = refl;
  quiet = refl;
  refused = refl;
}

abbrev started : Loop ℕ
started = record { daemon = idle; routes = 0; backoff = 1000000000; waits = []; returned = false }

first_small : initial applying back default_config < 2 ^ 62
unfolding millis
first_small = omega arith

most_small : max_backoff applying back default_config < 2 ^ 62
unfolding millis
most_small = omega arith

started_first : 1000000000 ≡ initial applying back default_config
unfolding millis
started_first = refl

retries_back_off_example :
    Retried applying back default_config
      (failing_turn ∷ failing_turn ∷ [])
      started
      (turns applying back default_config (failing_turn ∷ failing_turn ∷ []) started)
      0
retries_back_off_example =
    retries_back_off applying back default_config (failing_turn ∷ failing_turn ∷ []) started 0
      first_small most_small (failing_turn-Fails, (failing_turn-Fails, tt)) refl refl started_first

abbrev signalled_turn : Turn
signalled_turn = record failing_turn { attempt = succeeding }

session_ended :
    (connect applying back default_config succeeding (record idle { state = connecting }) 0).result
    ≡ none
unfolding connect pick_transport
session_ended = refl

default-IsValid : IsValid default_config
unfolding validate
default-IsValid = (validate-iff-IsValid default_config).0 refl

valid_config-Fits_example :
    Fits default_config (new (record { sent = []; room = 100 }) (mux_config default_config true) 7)
valid_config-Fits_example =
    valid_config-Fits default_config (record { sent = []; room = 100 }) true 7 262144
      default-IsValid refl (omega arith)

-- The two servers of the built-in configuration, by names.
abbrev server_names : List Bytes
server_names = codes "cloudflare-dns.com:443" ∷ codes "dns.google:443" ∷ []

abbrev ports_apart : Bytes → Option (Bytes × Bytes)
ports_apart addr = some (addr, codes "443")

abbrev scan_443 : Bytes → Option ℤ
scan_443 text = some (pos 443)

abbrev no_ip : Bytes → Ip
no_ip host = neither

abbrev post_fails : Bytes → Bytes → Option Reply
post_fails server query = none

named_servers_fail_example :
    All
      (λ s.
        (d : Dialer)
        → Refused ports_apart scan_443 no_ip d (doh_dial ports_apart scan_443 no_ip d s))
      server_names
    × (query_wire post_fails server_names (1 ∷ 2 ∷ []) ≡ err all_failed)
named_servers_fail_example =
    named_servers_fail ports_apart scan_443 no_ip post_fails (λ s. s) server_names (1 ∷ 2 ∷ [])
      (λ s h. refl) (refl, (refl, tt))
