-- ===== src/Daemon/Parts.antt =====
-- What `connect` of desktop/internal/daemon/daemon.go makes of the configuration for the parts that it starts. The
-- configuration of the session is also that of `muxConfig` of desktop/cmd/toppactl/main.go.
use toppa.Base.{ℕ, ◌+◌, ◌-◌, ◌*◌, ◌%◌, Bool, true, Option, none, some, [], ◌∷◌}
use toppa.Base.Tests.{if◌then◌else◌}
use toppa.Base.Bytes.{Bytes, u32_mod}
use toppa.Base.Ints.{ℤ, pos, negsuc, ltz}
use toppa.Config
use toppa.Mux.Stream.{i64_mod}
use toppa.Mux.Session.State
use toppa.Mux.Session.State.{Session}
use toppa.Relay.Sanitize.{SanitizeConfig}
use toppa.Relay.Dialer.{Pacer, Dialer}
use toppa.Sysroute.Manager.{Desired}

-- The conversion `uint32(v)` of an `int`.
unfoldable pub to_u32 : ℤ → ℕ
to_u32 (pos n) = n % u32_mod
to_u32 (negsuc n) = (u32_mod - (n + 1) % u32_mod) % u32_mod

-- `time.Duration(v) * time.Second`, as a 64-bit pattern of nanoseconds.
unfoldable pub seconds : ℤ → ℕ
seconds (pos n) = n * 1000000000 % i64_mod
seconds (negsuc n) = (i64_mod - (n + 1) * 1000000000 % i64_mod) % i64_mod

unfoldable pub mux_config : toppa.Config.Config → Bool → toppa.Mux.Session.State.Config
unfolding to_u32 seconds
mux_config c initiator = record {
  max_frame_payload = to_u32 c.tunnel.max_frame_payload;
  initial_window = to_u32 c.tunnel.initial_stream_window;
  keep_alive = seconds c.tunnel.keep_alive_secs;
  ping_timeout = 0;
  is_initiator = initiator;
  accept_queue_depth = 0;
}

unfoldable pub pacer_of : toppa.Config.Config → Option Pacer
pacer_of c =
    if ltz (pos 0) c.obfuscation.max_concurrent
    then some (record {
      max_streams = c.obfuscation.max_concurrent;
      jitter_millis = c.obfuscation.jitter_ms;
      active = 0;
    })
    else none

unfoldable pub sanitizer_of : toppa.Config.Config → Option SanitizeConfig
sanitizer_of c =
    if c.obfuscation.sanitize_http
    then some
        (record { enabled = true; user_agent = c.obfuscation.user_agent; strip_forwarded = true })
    else none

unfoldable pub dialer_of : toppa.Config.Config → Session → Dialer
unfolding pacer_of sanitizer_of
dialer_of c session = record {
  session = some session;
  sanitizer = sanitizer_of c;
  pacer = pacer_of c;
}

-- `tunnel_ip` is what `net.ParseIP` makes of the configured address.
unfoldable pub desired_of : toppa.Config.Config → Bytes → Desired
desired_of c tunnel_ip = record {
  adapter_name = c.netstack.adapter_name;
  tunnel_ip = tunnel_ip;
  tunnel_prefix_len = pos 32;
  default_route_metric = c.netstack.route_metric;
  dns = tunnel_ip ∷ [];
  rewrite_physical_dns = c.netstack.rewrite_physical_dns;
}

-- `split` is `net.SplitHostPort`, and `scan` is `fmt.Sscanf` of a decimal number.
module _ (split : Bytes → Option (Bytes × Bytes)) where
  unfoldable pub host_of : Bytes → Bytes
  host_of addr = elim (split addr) [ none ↦ addr | some p ↦ p.0 ]

  module _ (scan : Bytes → Option ℤ) where
    unfoldable pub scanned : Option ℤ → ℤ
    scanned none = pos 0
    scanned (some port) = port

    unfoldable pub port_of : Bytes → ℤ
    unfolding scanned
    port_of addr = elim (split addr) [ none ↦ pos 443 | some p ↦ scanned (scan p.1) ]
