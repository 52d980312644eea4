-- ===== src/Sysroute/Netsh.antt =====
-- The operating system's boundary of desktop/internal/sysroute/manager.go: `NetConfigurer`, and its
-- implementation by netsh and route.
use toppa.Base.{ℕ, ◌+◌, Bool, true, false, ◌&&◌, ◌||◌, not, List, [], ◌∷◌, ◌++◌}
use toppa.Base.Tests.{ltb, ◌==◌, if◌then◌else◌}
use toppa.Base.Lists.{length, drop, get_or}
use toppa.Base.Bytes.{Bytes, codes}
use toppa.Base.Results.{Result, ok, err}
use toppa.Base.Ints.{ℤ, pos}
use toppa.Base.Texts.{same_text, fields, joined_by_blank, decimal}
use toppa.Failsafe.Journal

pub record InterfaceInfo : Type 0 where
  pub name : Bytes
  pub description : Bytes

-- A `net.IPNet`.
pub record IpNet : Type 0 where
  pub ip : Bytes
  pub mask : Bytes

-- The errors of the operating system's commands, those of the journal, and a missing configurer.
pub data Error : Type 0 where
  command_failed nil_configurer : Error
  journal : toppa.Failsafe.Journal.Error → Error

-- What an operation did, and the command lists `apply` and `undo` that it returns.
pub record Commands : Type 0 where
  pub apply : List Bytes
  pub undo : List Bytes

-- An implementation, on the states of the host. A failed operation returns its error only: the callers
-- use nothing else of it.
pub record NetConfigurer (W : Type 0) : Type 0 where
  pub set_interface_ip : W → Bytes → Bytes → ℤ → W × Result Error Commands
  pub add_route : W → IpNet → Bytes → ℤ → W × Result Error Commands
  pub set_dns : W → Bytes → List Bytes → W × Result Error Commands
  pub list_interfaces : W → W × Result Error (List InterfaceInfo)

-- `%q` of a text of printable ASCII.
unfoldable pub escaped : Bytes → Bytes
escaped [] = []
escaped (c ∷ s) = let rest = escaped s in if c == 34 || c == 92 then 92 ∷ c ∷ rest else c ∷ rest

unfoldable pub quoted : Bytes → Bytes
unfolding escaped
quoted s = 34 ∷ (escaped s ++ 34 ∷ [])

-- `exec` runs a command with its arguments and tells whether it succeeded, with its output; `ip_text` is
-- `net.IP.String`.
module _ {W : Type 0} (exec : W → Bytes → List Bytes → W × Bool × Bytes)
    (ip_text : Bytes → Bytes) where
  -- `run` of a command line, by the list of its words.
  unfoldable pub run : W → List Bytes → W × Bool
  run w [] = (w, false)
  run w (cmd ∷ args) = ((exec w cmd args).0, (exec w cmd args).1)

  abbrev pub interface_ip : List Bytes
  interface_ip = codes "netsh" ∷ codes "interface" ∷ codes "ip" ∷ []

  abbrev pub named : Bytes → Bytes
  named iface = codes "name=" ++ quoted iface

  unfoldable pub gave : W × Bool → Commands → W × Result Error Commands
  gave (w, true) c = (w, ok c)
  gave (w, false) c = (w, err command_failed)

  -- `SetInterfaceIP`, which returns no list of what it applied.
  unfoldable pub netsh_set_interface_ip : W → Bytes → Bytes → ℤ → W × Result Error Commands
  unfolding gave run quoted
  netsh_set_interface_ip w iface ip prefix_len =
      gave
        (run w (
          interface_ip
          ++ (codes "set"
              ∷ codes "address"
              ∷ named iface
              ∷ codes "source=static"
              ∷ (codes "addr=" ++ ip_text ip)
              ∷ codes "mask=255.255.255.255"
              ∷ [])))
        (record {
          apply = [];
          undo =
              interface_ip
              ++ (codes "set" ∷ codes "address" ∷ named iface ∷ codes "source=dhcp" ∷ []);
        })

  abbrev pub route_undo : IpNet → List Bytes
  route_undo dst = codes "route" ∷ codes "delete" ∷ ip_text dst.ip ∷ []

  -- `AddRoute`
  unfoldable pub netsh_add_route : W → IpNet → Bytes → ℤ → W × Result Error Commands
  unfolding gave run decimal
  netsh_add_route w dst iface metric =
      let line =
        codes "route"
        ∷ codes "add"
        ∷ ip_text dst.ip
        ∷ codes "mask"
        ∷ ip_text dst.mask
        ∷ ip_text dst.ip
        ∷ codes "metric"
        ∷ decimal metric
        ∷ codes "if"
        ∷ iface
        ∷ [] in
      gave (run w line) (record { apply = line; undo = route_undo dst })

  abbrev pub dns_command : Bytes → ℕ → Bytes → List Bytes
  dns_command iface i s =
      if i == 0
      then interface_ip
        ++ (codes "set"
            ∷ codes "dns"
            ∷ named iface
            ∷ codes "static"
            ∷ ip_text s
            ∷ codes "primary"
            ∷ [])
      else interface_ip
        ++ (codes "add"
            ∷ codes "dns"
            ∷ named iface
            ∷ ip_text s
            ∷ (codes "index=" ++ decimal (pos (i + 1)))
            ∷ [])

  unfoldable pub after_dns :
      (W → ℕ → List Bytes → W × Result Error (List Bytes))
      → ℕ
      → List Bytes
      → W × Bool
      → W × Result Error (List Bytes)
  after_dns more i apply (w, true) = more w (i + 1) apply
  after_dns more i apply (w, false) = (w, err command_failed)

  unfoldable pub dns_loop : Bytes → List Bytes → W → ℕ → List Bytes → W × Result Error (List Bytes)
  unfolding after_dns run joined_by_blank quoted decimal
  dns_loop iface [] w i apply = (w, ok apply)
  dns_loop iface (s ∷ servers) w i apply =
      after_dns (λ v j a. dns_loop iface servers v j a) i
        (apply ++ joined_by_blank (dns_command iface i s) ∷ []) (run w (dns_command iface i s))

  unfoldable pub with_dns_undo : Bytes → W × Result Error (List Bytes) → W × Result Error Commands
  unfolding quoted
  with_dns_undo iface (w, err e) = (w, err e)
  with_dns_undo iface (w, ok apply) = (
    w,
    ok (record {
      apply = apply;
      undo = interface_ip ++ (codes "set" ∷ codes "dns" ∷ named iface ∷ codes "source=dhcp" ∷ []);
    }),
  )

  -- `SetDNS`
  unfoldable pub netsh_set_dns : W → Bytes → List Bytes → W × Result Error Commands
  unfolding dns_loop with_dns_undo
  netsh_set_dns w iface servers = with_dns_undo iface (dns_loop iface servers w 0 [])

  -- `strings.Split(s, "\n")`
  unfoldable pub lines_from : Bytes → Bytes → List Bytes
  lines_from l [] = l ∷ []
  lines_from l (c ∷ s) = elim (c == 10) [
    | true ↦ l ∷ lines_from [] s
    | false ↦ lines_from (l ++ c ∷ []) s
  ]

  -- A row of the table, if the line is one: its name is what stands behind the first four fields.
  unfoldable pub row : List Bytes → List InterfaceInfo
  unfolding same_text joined_by_blank
  row fs =
      if ltb (length fs) 5
      then []
      else if not (same_text (get_or fs 0 []) (codes "connected"))
          && not (same_text (get_or fs 0 []) (codes "disconnected"))
      then []
      else record { name = joined_by_blank (drop 4 fs); description = [] } ∷ []

  unfoldable pub rows : List Bytes → List InterfaceInfo
  unfolding row fields
  rows [] = []
  rows (l ∷ ls) = row (fields l) ++ rows ls

  unfoldable pub listed : W × Bool × Bytes → W × Result Error (List InterfaceInfo)
  unfolding rows lines_from
  listed (w, true, out) = (w, ok (rows (lines_from [] out)))
  listed (w, false, out) = (w, err command_failed)

  -- `ListInterfaces`
  unfoldable pub netsh_list_interfaces : W → W × Result Error (List InterfaceInfo)
  unfolding listed
  netsh_list_interfaces w = listed (
      exec w (codes "netsh")
        (codes "interface" ∷ codes "ipv4" ∷ codes "show" ∷ codes "interfaces" ∷ []))

  -- `NetshConfigurer`
  abbrev pub netsh : NetConfigurer W
  netsh = record {
    set_interface_ip = netsh_set_interface_ip;
    add_route = netsh_add_route;
    set_dns = netsh_set_dns;
    list_interfaces = netsh_list_interfaces;
  }
