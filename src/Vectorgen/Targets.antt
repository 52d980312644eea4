-- ===== src/Vectorgen/Targets.antt =====
-- The target and SAS vectors of desktop/cmd/vectorgen/main.go.
use toppa.Base.{ℕ, zero, suc, ◌%◌, Option, none, some, List, [], ◌∷◌}
use toppa.Base.Tests.{◌==◌, if◌then◌else◌}
use toppa.Base.Bytes.{Bytes, codes}
use toppa.Base.Results.{Result, ok, err}
use toppa.Mux.Errors.{Error}
use toppa.Mux.Target.{
  Target, append_target, tcp_fqdn, net_tcp, net_udp, atyp_ipv4, atyp_ipv6, atyp_fqdn,
}
use toppa.Tunnel.Handshake.{short_auth_string}
use toppa.Vectorgen.Frames.{Kind, valid, error, to_hex, fd00_one}

pub record TargetCase : Type 0 where
  pub name : Bytes
  pub kind : Kind
  pub network : Bytes
  pub atyp : Bytes
  pub host : Bytes
  pub port : ℕ
  pub encoded_hex : Bytes

unfoldable pub network_name : ℕ → Bytes
network_name n = if n == net_udp then codes "udp" else codes "tcp"

unfoldable pub atyp_name : ℕ → Bytes
atyp_name a =
    if a == atyp_ipv4 then codes "ipv4" else if a == atyp_ipv6 then codes "ipv6" else codes "fqdn"

-- `ip_text` is `net.IP.String`.
module _ (ip_text : Bytes → Bytes) where
  unfoldable pub host_string : Target → Bytes
  host_string t = if t.atyp == atyp_fqdn then t.address else ip_text t.address

  unfoldable pub must_target : Bytes → Target → TargetCase
  unfolding network_name atyp_name host_string to_hex append_target
  must_target name t = record {
    name = name;
    kind = valid;
    network = network_name t.network;
    atyp = atyp_name t.atyp;
    host = host_string t;
    port = t.port;
    encoded_hex = to_hex (append_target [] t);
  }

  unfoldable pub raw_error_target : Bytes → Bytes → TargetCase
  raw_error_target name encoded_hex = record {
    name = name;
    kind = error;
    network = [];
    atyp = [];
    host = [];
    port = 0;
    encoded_hex = encoded_hex;
  }

  abbrev pub targets_with : Result Error Target → Option (List TargetCase)
  targets_with (err e) = none
  targets_with (ok fqdn) = some (
      must_target (codes "tcp_ipv4") (record {
        network = net_tcp;
        atyp = atyp_ipv4;
        address = 192 ∷ 168 ∷ 1 ∷ 1 ∷ [];
        port = 8080;
      })
      ∷ must_target (codes "tcp_fqdn") fqdn
      ∷ must_target (codes "udp_ipv6")
          (record { network = net_udp; atyp = atyp_ipv6; address = fd00_one; port = 53 })
      ∷ raw_error_target (codes "reject_truncated") (codes "0101")
      ∷ raw_error_target (codes "reject_bad_network") (codes "0901c0a801011f90")
      ∷ raw_error_target (codes "reject_bad_atyp") (codes "0107c0a801011f90")
      ∷ raw_error_target (codes "reject_empty_fqdn") (codes "010300")
      ∷ raw_error_target (codes "reject_fqdn_length_lie") (codes "01030561626301bb")
      ∷ raw_error_target (codes "reject_short_ipv4") (codes "0101c0a801")
      ∷ [])

  -- `buildTargets`
  unfoldable pub build_targets : Option (List TargetCase)
  unfolding tcp_fqdn must_target raw_error_target
  build_targets = targets_with (tcp_fqdn (codes "example.com") 443)

pub record SasCase : Type 0 where
  pub name : Bytes
  pub handshake_hash_hex : Bytes
  pub sas : Bytes

-- The bytes `i`, `i + 1`, and so on.
unfoldable pub counting : ℕ → ℕ → Bytes
counting zero i = []
counting (suc n) i = (i % 256) ∷ counting n (suc i)

unfoldable pub repeated : ℕ → ℕ → Bytes
repeated zero b = []
repeated (suc n) b = b ∷ repeated n b

module _ (sha256 : Bytes → Bytes) where
  unfoldable pub sas_case : Bytes → Bytes → SasCase
  unfolding to_hex short_auth_string
  sas_case name hash = record {
    name = name;
    handshake_hash_hex = to_hex hash;
    sas = short_auth_string sha256 hash;
  }

  -- `buildSAS`
  unfoldable pub build_sas : List SasCase
  unfolding sas_case counting repeated
  build_sas =
      sas_case (codes "zero_hash") (repeated 32 0)
      ∷ sas_case (codes "counting_hash") (counting 32 0)
      ∷ sas_case (codes "ff_hash") (repeated 32 255)
      ∷ []
