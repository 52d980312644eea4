-- ===== src/Config.antt =====
-- desktop/internal/config/config.go: the configuration, its defaults, loading and validation.
pub mod Examples
pub mod Valid
use toppa.Base.{ℕ, ◌*◌, Bool, true, false, ◌&&◌, ◌||◌, not, Option, none, some, List, [], ◌∷◌}
use toppa.Base.Tests.{◌==◌, if◌then◌else◌}
use toppa.Base.Lists.{is_empty}
use toppa.Base.Bytes.{Bytes, codes}
use toppa.Base.Results.{Result, ok, err, ◌>>=◌, ◌>>◌, refuse_if}
use toppa.Base.Texts.{same_text}
use toppa.Base.Ints.{ℤ, pos, ltz, outside}

pub record Tunnel : Type 0 where
  pub mtu : ℤ
  pub max_frame_payload : ℤ
  pub initial_stream_window : ℤ
  pub keep_alive_secs : ℤ
  pub handshake_timeout_ms : ℤ
  pub listen_port : ℤ

pub record Adb : Type 0 where
  pub binary : Bytes
  pub host_port : ℤ

pub record Transport : Type 0 where
  pub priority : List Bytes
  pub adb : Adb
  pub hotspot_addr : Bytes

pub record Relay : Type 0 where
  pub max_streams : ℤ
  pub buffer_kb : ℤ
  pub expose_socks : Bool
  pub socks_bind : Bytes

pub record Dns : Type 0 where
  pub mode : Bytes
  pub doh_servers : List Bytes
  pub bootstrap_ips : List Bytes

pub record Log : Type 0 where
  pub level : Bytes
  pub format : Bytes

pub record Netstack : Type 0 where
  pub adapter_name : Bytes
  pub tunnel_ip : Bytes
  pub route_metric : ℤ
  pub rewrite_physical_dns : Bool

pub record Obfuscation : Type 0 where
  pub profile : Bytes
  pub max_concurrent : ℤ
  pub jitter_ms : ℤ
  pub sanitize_http : Bool
  pub user_agent : Bytes

pub record Api : Type 0 where
  pub enabled : Bool
  pub listen : Bytes

pub record Daemon : Type 0 where
  pub journal_path : Bytes
  pub reconnect_initial_ms : ℤ
  pub reconnect_max_ms : ℤ
  pub dns_mode_override : Bytes

pub record Config : Type 0 where
  pub tunnel : Tunnel
  pub transport : Transport
  pub relay : Relay
  pub dns : Dns
  pub log : Log
  pub netstack : Netstack
  pub obfuscation : Obfuscation
  pub api : Api
  pub daemon : Daemon
  pub keys_dir : Bytes

-- `Default`
abbrev pub default_config : Config
default_config = record {
  tunnel = record {
    mtu = pos 1380;
    max_frame_payload = pos (64 * 1024);
    initial_stream_window = pos (256 * 1024);
    keep_alive_secs = pos 15;
    handshake_timeout_ms = pos 5000;
    listen_port = pos 47471;
  };
  transport = record {
    priority = codes "usb" ∷ codes "hotspot" ∷ codes "wfd" ∷ [];
    adb = record { binary = codes "adb"; host_port = pos 47472 };
    hotspot_addr = [];
  };
  relay = record {
    max_streams = pos 256;
    buffer_kb = pos 256;
    expose_socks = false;
    socks_bind = codes "127.0.0.1:47473";
  };
  dns = record {
    mode = codes "phone_doh";
    doh_servers =
        codes "https://cloudflare-dns.com/dns-query" ∷ codes "https://dns.google/dns-query" ∷ [];
    bootstrap_ips = codes "1.1.1.1" ∷ codes "8.8.8.8" ∷ [];
  };
  log = record { level = codes "info"; format = codes "text" };
  netstack = record {
    adapter_name = codes "Toppa";
    tunnel_ip = codes "10.111.0.1";
    route_metric = pos 5;
    rewrite_physical_dns = true;
  };
  obfuscation = record {
    profile = codes "light";
    max_concurrent = pos 0;
    jitter_ms = pos 0;
    sanitize_http = true;
    user_agent = [];
  };
  api = record { enabled = true; listen = codes "127.0.0.1:47474" };
  daemon = record {
    journal_path = [];
    reconnect_initial_ms = pos 1000;
    reconnect_max_ms = pos 30000;
    dns_mode_override = [];
  };
  keys_dir = [];
}

-- The errors of `Validate` in the order of its tests, and those of `Load`.
pub data Error : Type 0 where
  mtu max_frame_payload initial_stream_window keep_alive_secs handshake_timeout_ms listen_port :
      Error
  max_streams buffer_kb dns_mode log_level log_format : Error
  read parse : Error

unfoldable pub one_of : List Bytes → Bytes → Bool
unfolding same_text
one_of [] s = false
one_of (x ∷ xs) s = same_text s x || one_of xs s

abbrev pub dns_modes : List Bytes
dns_modes = codes "phone_doh" ∷ codes "pc_doh" ∷ codes "phone_system" ∷ []

abbrev pub log_levels : List Bytes
log_levels = codes "debug" ∷ codes "info" ∷ codes "warn" ∷ codes "error" ∷ []

abbrev pub log_formats : List Bytes
log_formats = codes "text" ∷ codes "json" ∷ []

unfoldable pub validate : Config → Result Error (Unit {0})
unfolding one_of
validate c =
    refuse_if (outside 576 65535 c.tunnel.mtu) mtu
    >> (refuse_if (outside 1024 262144 c.tunnel.max_frame_payload) max_frame_payload
        >> (refuse_if (ltz c.tunnel.initial_stream_window c.tunnel.max_frame_payload)
              initial_stream_window
            >> (refuse_if (outside 0 600 c.tunnel.keep_alive_secs) keep_alive_secs
                >> (refuse_if (outside 500 60000 c.tunnel.handshake_timeout_ms) handshake_timeout_ms
                    >> (refuse_if (outside 1024 65535 c.tunnel.listen_port) listen_port
                        >> (refuse_if (outside 1 65535 c.relay.max_streams) max_streams
                            >> (refuse_if (outside 4 8192 c.relay.buffer_kb) buffer_kb
                                >> (refuse_if (not (one_of dns_modes c.dns.mode)) dns_mode
                                    >> (refuse_if (not (one_of log_levels c.log.level)) log_level
                                        >> refuse_if (not (one_of log_formats c.log.format))
                                            log_format)))))))))

unfoldable pub validated : Config → Result Error Config
unfolding validate
validated c = validate c >> ok c

unfoldable pub decoded : Option Config → Result Error Config
decoded none = err parse
decoded (some c) = ok c

unfoldable pub contents : Option Bytes → Result Error Bytes
contents none = err read
contents (some raw) = ok raw

-- `Load`: `read_file` is the file system and `decode` the strict JSON decoder, which overlays a document on
-- a configuration.
unfoldable pub load :
    (Bytes → Option Bytes) → (Bytes → Config → Option Config) → Bytes → Result Error Config
unfolding validated decoded contents
load read_file decode path =
    if is_empty path
    then validated default_config
    else contents (read_file path) >>= λ raw. decoded (decode raw default_config) >>= validated
