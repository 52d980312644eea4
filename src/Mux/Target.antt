-- ===== src/Mux/Target.antt =====
-- desktop/internal/mux/target.go: the address block of an opening frame. `String` is not modelled.
pub mod RoundTrip
pub mod Parsing
use toppa.Base.{
  ℕ, ◌+◌, ◌*◌, ◌/◌, ◌%◌, ◌≤◌, ◌<◌, ◌≡◌, ◌⊎◌, Bool, true, false, ◌&&◌, ◌||◌, not, [], ◌∷◌, ◌++◌,
}
use toppa.Base.Tests.{ltb, ◌==◌, if◌then◌else◌}
use toppa.Base.Lists.{length, get_or, take, drop}
use toppa.Base.Results.{Result, ok, err}
use toppa.Base.Bytes.{Bytes, AreBytes, slice}
use toppa.Mux.Errors.{Error, err_bad_target}

abbrev pub net_tcp : ℕ
net_tcp = 1

abbrev pub net_udp : ℕ
net_udp = 2

abbrev pub atyp_ipv4 : ℕ
atyp_ipv4 = 1

abbrev pub atyp_fqdn : ℕ
atyp_fqdn = 3

abbrev pub atyp_ipv6 : ℕ
atyp_ipv6 = 4

abbrev pub max_fqdn_length : ℕ
max_fqdn_length = 255

pub record Target : Type 0 where
  pub network : ℕ
  pub atyp : ℕ
  pub address : Bytes
  pub port : ℕ

-- The argument is the array `[4]byte`.
abbrev pub tcp_v4 : Bytes → ℕ → Target
tcp_v4 ip port = record { network = net_tcp; atyp = atyp_ipv4; address = ip; port = port }

unfoldable pub tcp_fqdn : Bytes → ℕ → Result Error Target
tcp_fqdn host port =
    if length host == 0 || ltb max_fqdn_length (length host)
    then err err_bad_target
    else ok (record { network = net_tcp; atyp = atyp_fqdn; address = host; port = port })

unfoldable pub append_target : Bytes → Target → Bytes
append_target dst t =
    let start = dst ++ t.network ∷ t.atyp ∷ [] in
    let block =
      if t.atyp == atyp_fqdn
      then (start ++ (length t.address % 256) ∷ []) ++ t.address
      else if t.atyp == atyp_ipv4 || t.atyp == atyp_ipv6
      then start ++ t.address
      else start in
    block ++ (t.port / 256 % 256) ∷ (t.port % 256) ∷ []

abbrev pub be16 : Bytes → ℕ
be16 b = get_or b 0 0 * 256 + get_or b 1 0

unfoldable pub parse_target : Bytes → Result Error Target
parse_target b =
    let network = get_or b 0 0 in
    let atyp = get_or b 1 0 in
    let rest = drop 2 b in
    let n = get_or rest 0 0 in
    if ltb (length b) 4
    then err err_bad_target
    else if not (network == net_tcp) && not (network == net_udp)
    then err err_bad_target
    else if atyp == atyp_ipv4
    then (if ltb (length rest) 6
        then err err_bad_target
        else ok (record {
          network = network;
          atyp = atyp;
          address = take 4 rest;
          port = be16 (slice 4 6 rest);
        }))
    else if atyp == atyp_ipv6
    then (if ltb (length rest) 18
        then err err_bad_target
        else ok (record {
          network = network;
          atyp = atyp;
          address = take 16 rest;
          port = be16 (slice 16 18 rest);
        }))
    else if atyp == atyp_fqdn
    then (if ltb (length rest) 1
        then err err_bad_target
        else if n == 0 || ltb (length rest) (1 + n + 2)
        then err err_bad_target
        else ok (record {
          network = network;
          atyp = atyp;
          address = slice 1 (1 + n) rest;
          port = be16 (slice (1 + n) (3 + n) rest);
        }))
    else err err_bad_target

-- The blocks that SPEC 4.4 describes: a known network, and an address of the length of its kind.
pub record IsTarget (t : Target) : Type 0 where
  pub known_network : (t.network ≡ net_tcp) ⊎ (t.network ≡ net_udp)
  pub sized :
      ((t.atyp ≡ atyp_ipv4) × (length t.address ≡ 4))
      ⊎ ((t.atyp ≡ atyp_ipv6) × (length t.address ≡ 16))
      ⊎ ((t.atyp ≡ atyp_fqdn) × (0 < length t.address) × (length t.address ≤ 255))
  pub address_bytes : AreBytes t.address
  pub port_u16 : t.port < 65536
