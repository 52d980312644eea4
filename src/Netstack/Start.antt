-- ===== src/Netstack/Start.antt =====
-- desktop/internal/netstack/engine.go: what `Start` sets up in the stack, and `Stop`.
use toppa.Base.{
  ℕ, ◌%◌, ◌^◌, ◌≡◌, refl, ap, subst, sym, ◌⊎◌, Bool, true, false, not, ◌&&◌, Option, none, some,
  List, [], ◌∷◌, ◌++◌, arith,
}
use toppa.Base.Tests.{if_split, ◌==◌, if◌then◌else◌}
use toppa.Base.Lists.{length, take, drop}
use toppa.Base.Bytes.{Bytes}
use toppa.Base.Results.{Result, ok, err}
use toppa.Netstack.Link.{Protocol, ipv4, ipv6}

-- The first twelve bytes of an IPv4 address in 16 bytes.
abbrev pub v4_prefix : Bytes
v4_prefix = 0 ∷ 0 ∷ 0 ∷ 0 ∷ 0 ∷ 0 ∷ 0 ∷ 0 ∷ 0 ∷ 0 ∷ 255 ∷ 255 ∷ []

same_bytes : Bytes → Bytes → Bool
same_bytes [] [] = true
same_bytes [] (y ∷ b) = false
same_bytes (x ∷ a) [] = false
same_bytes (x ∷ a) (y ∷ b) = if x == y then same_bytes a b else false

-- `To4` and `To16` of `net.IP`; `none` is nil.
unfoldable pub to4 : Bytes → Option Bytes
unfolding same_bytes
to4 ip =
    if length ip == 4
    then some ip
    else if length ip == 16 && same_bytes (take 12 ip) v4_prefix
    then some (drop 12 ip)
    else none

unfoldable pub to16 : Bytes → Option Bytes
to16 ip =
    if length ip == 4 then some (v4_prefix ++ ip) else if length ip == 16 then some ip else none

unfoldable pub protocol_of : Option Bytes → Protocol
protocol_of none = ipv6
protocol_of (some _) = ipv4

unfoldable pub slice_of : Option Bytes → Bytes
slice_of none = []
slice_of (some ip) = ip

-- `tcpip.ProtocolAddress`
pub record ProtocolAddress : Type 0 where
  pub protocol : Protocol
  pub address : Bytes

-- The stack by what was set up in it: the link's MTU, the address, the protocols with a default route through the NIC,
-- whether the forwarders of TCP and UDP are set, and whether it was closed.
pub record Stack : Type 0 where
  pub mtu : ℕ
  pub address : Option ProtocolAddress
  pub default_routes : List Protocol
  pub forwards : Bool
  pub closed : Bool

pub record Engine : Type 0 where
  pub tunnel_ip : Bytes
  pub stack : Stack
  pub stop_read : Bool

pub data StartError : Type 0 where
  create_nic add_address : StartError

abbrev pub linked : ℕ → Stack
linked mtu = record {
  mtu = mtu % 2 ^ 32;
  address = none;
  default_routes = [];
  forwards = false;
  closed = false;
}

unfoldable pub tunnel_address : Bytes → ProtocolAddress
unfolding protocol_of slice_of to4 to16
tunnel_address ip = record { protocol = protocol_of (to4 ip); address = slice_of (to16 ip) }

ok_engine : {a b : Engine} → ◌≡◌ {A = Result StartError Engine} (ok a) (ok b) → a ≡ b
ok_engine e = cc

-- Whether the stack creates the NIC, and which addresses it takes, are arguments. The stack of a failed start comes with
-- the error.
module _ (nic_created : Bool) (takes : ProtocolAddress → Bool) where
  unfoldable pub with_address : Bytes → ProtocolAddress → Stack → Stack × Result StartError Engine
  with_address tunnel_ip a s =
      let up = record s { address = some a; default_routes = ipv4 ∷ ipv6 ∷ []; forwards = true } in
      if takes a
      then (up, ok (record { tunnel_ip = tunnel_ip; stack = up; stop_read = false }))
      else (s, err add_address)

  -- `Start`
  unfoldable pub start : ℕ → Bytes → Stack × Result StartError Engine
  unfolding with_address
  start mtu tunnel_ip =
      if not nic_created
      then (linked mtu, err create_nic)
      else with_address tunnel_ip (tunnel_address tunnel_ip) (linked mtu)

  -- What a successful start has set up.
  pub record Started (mtu : ℕ) (tunnel_ip : Bytes) (s : Stack) (e : Engine) : Type 0 where
    pub its_stack : e.stack ≡ s
    pub registered :
        (a : ProtocolAddress) × (s.address ≡ some a)
        × (a.protocol ≡ protocol_of (to4 tunnel_ip))
        × (length a.address ≡ 16)
        × (takes a ≡ true)
    pub routed : s.default_routes ≡ ipv4 ∷ ipv6 ∷ []
    pub running : (s.forwards ≡ true) × (s.closed ≡ false) × (e.stop_read ≡ false)

  to16_size : (ip : Bytes) → (length ip ≡ 4) ⊎ (length ip ≡ 16) → length (slice_of (to16 ip)) ≡ 16
  unfolding to16 slice_of
  to16_size ip h = ground (arith, h)

  with_address-Started :
      (mtu : ℕ) (ip : Bytes) (e : Engine) (x : Stack × Result StartError Engine)
      → (length ip ≡ 4) ⊎ (length ip ≡ 16)
      → with_address ip (tunnel_address ip) (linked mtu) ≡ x
      → x.1 ≡ ok e
      → Started mtu ip x.0 e
  unfolding with_address tunnel_address
  with_address-Started mtu ip e x size r h =
      subst (λ y. (y.1 ≡ ok e → Started mtu ip y.0 e)) r
        (if_split (λ (y : Stack × Result StartError Engine). y.1 ≡ ok e → Started mtu ip y.0 e)
          (takes (tunnel_address ip))
          (λ taken o. record {
            its_stack = sym (ap (λ (g : Engine). g.stack) (ok_engine o));
            registered = (tunnel_address ip, refl, refl, to16_size ip size, taken);
            routed = refl;
            running = (refl, refl, sym (ap (λ (g : Engine). g.stop_read) (ok_engine o)));
          })
          (λ _ o. absurd (ground (arith, o))))
        h

  -- A start that succeeds with an IP address of 4 or 16 bytes has set both default routes and both forwarders, and has
  -- registered one address that the stack took: under IPv4 exactly where the IP is one of IPv4, and in either case with 16 bytes.
  pub start-Started :
      (mtu : ℕ) (ip : Bytes) (e : Engine)
      → (length ip ≡ 4) ⊎ (length ip ≡ 16)
      → (start mtu ip).1 ≡ ok e
      → Started mtu ip (start mtu ip).0 e
  unfolding start
  start-Started mtu ip e size h =
      if_split (λ (y : Stack × Result StartError Engine). y.1 ≡ ok e → Started mtu ip y.0 e)
        (not nic_created) (λ _ o. absurd (ground (arith, o)))
        (λ _ o. with_address-Started mtu ip e _ size refl o) h

-- `Stop`: a second call would close a closed channel, which panics.
unfoldable pub stop : Engine → Option Engine
stop e =
    if e.stop_read
    then none
    else some (record e { stop_read = true; stack = record e.stack { closed = true } })
