-- ===== src/Sysroute/Manager.antt =====
-- `Manager` of desktop/internal/sysroute/manager.go: applying a network state, and rolling it back.
use toppa.Base.{ℕ, ◌+◌, Bool, true, false, Option, none, some, List, [], ◌∷◌, ◌++◌}
use toppa.Base.Tests.{if◌then◌else◌}
use toppa.Base.Lists.{is_empty}
use toppa.Base.Bytes.{Bytes, codes}
use toppa.Base.Results.{Result, ok, err}
use toppa.Base.Ints.{ℤ}
use toppa.Base.Texts.{same_text, fields}
use toppa.Failsafe.Journal
use toppa.Failsafe.Journal.{Entry, Journal, add, Outcome, rollback_all}
use toppa.Sysroute.Netsh.{
  InterfaceInfo, IpNet, Error, nil_configurer, journal, Commands, NetConfigurer,
}

pub record Desired : Type 0 where
  pub adapter_name : Bytes
  pub tunnel_ip : Bytes
  pub tunnel_prefix_len : ℤ
  pub default_route_metric : ℤ
  pub dns : List Bytes
  pub rewrite_physical_dns : Bool

-- The host, the journal of the manager, and how many ids and times `Add` has drawn.
pub record Host (W : Type 0) : Type 0 where
  pub world : W
  pub journal : Journal
  pub drawn : ℕ

-- `defaultNet`, whose `net.IPv4zero` has 16 bytes, and its counterpart of IPv6.
abbrev pub default_v4 : IpNet
default_v4 = record {
  ip = 0 ∷ 0 ∷ 0 ∷ 0 ∷ 0 ∷ 0 ∷ 0 ∷ 0 ∷ 0 ∷ 0 ∷ 255 ∷ 255 ∷ 0 ∷ 0 ∷ 0 ∷ 0 ∷ [];
  mask = 0 ∷ 0 ∷ 0 ∷ 0 ∷ [];
}

abbrev pub default_v6 : IpNet
default_v6 = record {
  ip = 0 ∷ 0 ∷ 0 ∷ 0 ∷ 0 ∷ 0 ∷ 0 ∷ 0 ∷ 0 ∷ 0 ∷ 0 ∷ 0 ∷ 0 ∷ 0 ∷ 0 ∷ 0 ∷ [];
  mask = 0 ∷ 0 ∷ 0 ∷ 0 ∷ 0 ∷ 0 ∷ 0 ∷ 0 ∷ 0 ∷ 0 ∷ 0 ∷ 0 ∷ 0 ∷ 0 ∷ 0 ∷ 0 ∷ [];
}

module _ {W : Type 0} where
  unfoldable pub noted :
      Host W → Journal × Result toppa.Failsafe.Journal.Error Entry → Host W × Option Error
  noted h (j, ok e) = (record h { journal = j }, none)
  noted h (j, err e) = (record h { journal = j }, some (journal e))

  unfoldable pub then_ :
      (Host W → Host W × Option Error) → Host W × Option Error → Host W × Option Error
  then_ next (h, none) = next h
  then_ next (h, some e) = (h, some e)

  abbrev pub with_address : W × Result Error Commands → W × Result Error Commands
  with_address (w, err e) = (w, err e)
  with_address (w, ok c) = (w, ok (record c { apply = codes "netsh set address" ∷ [] }))

-- `draw` gives the id and the time of an entry, by how many were drawn before.
module _ {W : Type 0} (draw : ℕ → ℕ × ℕ) where
  -- The operation has run; its entry is added where it succeeded.
  unfoldable pub recorded : Bytes → Host W → W × Result Error Commands → Host W × Option Error
  unfolding noted add
  recorded description h (w, err e) = (record h { world = w }, some e)
  recorded description h (w, ok c) =
      noted (record h { world = w; drawn = h.drawn + 1 })
        (add h.journal (draw h.drawn).0 (draw h.drawn).1 description c.apply c.undo)

  module _ (c : NetConfigurer W) (d : Desired) where
    unfoldable pub tunnel_dns_step : Host W → Host W × Option Error
    unfolding recorded
    tunnel_dns_step h =
        if is_empty d.dns
        then (h, none)
        else recorded (codes "tunnel dns") h (c.set_dns h.world d.adapter_name d.dns)

    unfoldable pub physical_step : InterfaceInfo → Host W → Host W × Option Error
    unfolding same_text recorded
    physical_step iface h =
        if same_text iface.name d.adapter_name
        then (h, none)
        else recorded (codes "physical dns " ++ iface.name) h (c.set_dns h.world iface.name d.dns)

    unfoldable pub physical_steps : List InterfaceInfo → Host W → Host W × Option Error
    unfolding physical_step then_
    physical_steps [] h = (h, none)
    physical_steps (iface ∷ ifaces) h = then_ (λ k. physical_steps ifaces k) (physical_step iface h)

    unfoldable pub rewrite_listed :
        Host W → W × Result Error (List InterfaceInfo) → Host W × Option Error
    unfolding physical_steps
    rewrite_listed h (w, err e) = (record h { world = w }, some e)
    rewrite_listed h (w, ok ifaces) = physical_steps ifaces (record h { world = w })

    unfoldable pub physical_dns_step : Host W → Host W × Option Error
    unfolding rewrite_listed
    physical_dns_step h =
        if d.rewrite_physical_dns then rewrite_listed h (c.list_interfaces h.world) else (h, none)

-- `ip_text` and `net_text` are the `String` methods of addresses and networks.
module _ {W : Type 0} (draw : ℕ → ℕ × ℕ) (ip_text : Bytes → Bytes) (net_text : IpNet → Bytes) where
  module _ (c : NetConfigurer W) (d : Desired) where
    unfoldable pub address_step : Host W → Host W × Option Error
    unfolding recorded
    address_step h =
        recorded draw (codes "interface address " ++ ip_text d.tunnel_ip) h
          (with_address (c.set_interface_ip h.world d.adapter_name d.tunnel_ip d.tunnel_prefix_len))

    unfoldable pub route_step : IpNet → Host W → Host W × Option Error
    unfolding recorded
    route_step dst h =
        recorded draw (codes "route " ++ net_text dst) h
          (c.add_route h.world dst d.adapter_name d.default_route_metric)

    unfoldable pub apply_with : Host W → Host W × Option Error
    unfolding address_step route_step then_ tunnel_dns_step physical_dns_step
    apply_with h = then_ (physical_dns_step draw c d) (
        then_ (tunnel_dns_step draw c d)
          (then_ (route_step default_v6) (then_ (route_step default_v4) (address_step h))))

  -- `Apply`; the code's nil configurer is `none`.
  unfoldable pub apply : Option (NetConfigurer W) → Desired → Host W → Host W × Option Error
  unfolding apply_with
  apply none d h = (h, some nil_configurer)
  apply (some c) d h = apply_with c d h

-- `run_fn` runs a command with its arguments and tells whether it succeeded.
module _ {W : Type 0} (run_fn : W → Bytes → List Bytes → W × Bool) where
  unfoldable pub after_command : (W → W × Bool) → W × Bool → W × Bool
  after_command next (w, true) = next w
  after_command next (w, false) = (w, false)

  unfoldable pub run_fields : W → List Bytes → W × Bool
  run_fields w [] = (w, true)
  run_fields w (cmd ∷ args) = run_fn w cmd args

  unfoldable pub undo_commands : W → List Bytes → W × Bool
  unfolding after_command run_fields fields
  undo_commands w [] = (w, true)
  undo_commands w (cmd ∷ cmds) =
      after_command (λ v. undo_commands v cmds) (run_fields w (fields cmd))

  unfoldable pub undo_entry : W → Entry → W × Bool
  unfolding undo_commands
  undo_entry w e = undo_commands w e.undo

  -- `Rollback`, and `Reconcile`, which has the same body.
  unfoldable pub rollback : W → Journal → Outcome W
  unfolding undo_entry rollback_all
  rollback w j = rollback_all undo_entry w j
