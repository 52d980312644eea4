-- ===== src/Sysroute/Applying.antt =====
-- What `Apply` of desktop/internal/sysroute/manager.go leaves in the journal, on every path.
use toppa.Base.{
  ℕ, ◌+◌, ◌≡◌, refl, sym, ap, ◌∙◌, ◌⊎◌, inl, inr, Bool, true, false, Option, none, some, List, [],
  ◌∷◌, ◌++◌,
}
use toppa.Base.Tests.{Bool-cases}
use toppa.Base.Lists.{is_empty}
use toppa.Base.Bytes.{Bytes}
use toppa.Base.Results.{Result, ok, err}
use toppa.Base.Texts.{same_text}
use toppa.Failsafe.Journal
use toppa.Failsafe.Journal.{Entry, Journal, write, add, new_entry, persist, returned}
use toppa.Sysroute.Netsh.{InterfaceInfo, IpNet, Error, journal, Commands, NetConfigurer}
use toppa.Sysroute.Manager.{
  Desired, Host, noted, recorded, then_, with_address, address_step, route_step, tunnel_dns_step,
  physical_step, physical_steps, rewrite_listed, physical_dns_step, apply_with, apply, default_v4,
  default_v6,
}

-- The undo lists of the operations that have succeeded, oldest first.
abbrev pub Log : Type 0
Log = List (List Bytes)

abbrev pub undos : List Entry → Log
undos [] = []
undos (e ∷ es) = e.undo ∷ undos es

undos-append : (es fs : List Entry) → undos (es ++ fs) ≡ undos es ++ undos fs
undos-append [] fs = refl
undos-append (e ∷ es) fs = ap (λ l. e.undo ∷ l) (undos-append es fs)

-- `Add` has succeeded and the file lists the entry, or its write has failed and the file is the old one.
record Added (j : Journal) (e : Entry) (r : Journal × Result toppa.Failsafe.Journal.Error Entry)
    : Type 0 where
  outcome :
      ((r.1 ≡ ok e) × (r.0.file ≡ j.entries ++ e ∷ []) × (r.0.entries ≡ r.0.file))
      ⊎ ((r.1 ≡ err write) × (r.0.file ≡ j.file))

returned-Added :
    (es file : List Entry) (disk : List Bool) (e : Entry)
    → Added
        (record { entries = es; file = file; disk = disk })
        e
        (returned e (persist (record { entries = es ++ e ∷ []; file = file; disk = disk })))
unfolding returned persist
returned-Added es file [] e = record { outcome = inl (refl, refl, refl) }
returned-Added es file (true ∷ disk) e = record { outcome = inl (refl, refl, refl) }
returned-Added es file (false ∷ disk) e = record { outcome = inr (refl, refl) }

module _ {W : Type 0} where
  abbrev pub log_commands : Log → W × Result Error Commands → (W × Log) × Result Error Commands
  log_commands log (w, ok c) = ((w, log ++ c.undo ∷ []), ok c)
  log_commands log (w, err e) = ((w, log), err e)

  abbrev pub log_list :
      Log → W × Result Error (List InterfaceInfo) → (W × Log) × Result Error (List InterfaceInfo)
  log_list log (w, r) = ((w, log), r)

  -- A configurer that does what another does, and keeps the log.
  abbrev pub logging : NetConfigurer W → NetConfigurer (W × Log)
  logging c = record {
    set_interface_ip = λ w i ip n. log_commands w.1 (c.set_interface_ip w.0 i ip n);
    add_route = λ w dst i m. log_commands w.1 (c.add_route w.0 dst i m);
    set_dns = λ w i s. log_commands w.1 (c.set_dns w.0 i s);
    list_interfaces = λ w. log_list w.1 (c.list_interfaces w.0);
  }

  -- The journal's file lists the undos of exactly the operations that have succeeded.
  pub record Listed (h : Host (W × Log)) : Type 0 where
    pub listed : h.world.1 ≡ undos h.journal.file
    pub synced : h.journal.entries ≡ h.journal.file

  -- So it is, or the write for the last of them has failed, with that error.
  abbrev pub AllButLast : Host (W × Log) × Option Error → Type 0
  AllButLast r =
      Listed r.0
      ⊎ ((r.1 ≡ some (journal write))
          × (last : List Bytes) × (r.0.world.1 ≡ undos r.0.journal.file ++ last ∷ []))

  noted-AllButLast :
      (h : Host (W × Log)) (j : Journal) (e : Entry)
      (r : Journal × Result toppa.Failsafe.Journal.Error Entry)
      → Added j e r
      → j.entries ≡ j.file
      → h.world.1 ≡ undos j.file ++ e.undo ∷ []
      → AllButLast (noted h r)
  unfolding noted
  noted-AllButLast h j e (k, ok d) a synced l = elim a.outcome [
    | inl (_, file, same) ↦ inl (record {
      listed =
          l
          ∙ sym (
              ap undos file
              ∙ undos-append j.entries (e ∷ [])
              ∙ ap (λ es. undos es ++ e.undo ∷ []) synced);
      synced = same;
    })
    | inr (differs, _) ↦ absurd cc
  ]
  noted-AllButLast h j e (k, err d) a synced l = elim a.outcome [
    | inl (differs, _, _) ↦ absurd cc
    | inr (is_write, file) ↦ inr (cc, e.undo, l ∙ ap (λ es. undos es ++ e.undo ∷ []) (sym file))
  ]

  recorded-AllButLast :
      (draw : ℕ → ℕ × ℕ) (description : Bytes) (h : Host (W × Log)) (r : W × Result Error Commands)
      → Listed h
      → AllButLast (recorded draw description h (log_commands h.world.1 r))
  unfolding recorded add
  recorded-AllButLast draw description h (w, err e) l =
      inl (record { listed = l.listed; synced = l.synced })
  recorded-AllButLast draw description h (w, ok c) l =
      let e = new_entry (draw h.drawn).0 (draw h.drawn).1 description c.apply c.undo in
      noted-AllButLast (record h { world = (w, h.world.1 ++ c.undo ∷ []); drawn = h.drawn + 1 })
        h.journal e (add h.journal (draw h.drawn).0 (draw h.drawn).1 description c.apply c.undo)
        (returned-Added h.journal.entries h.journal.file h.journal.disk e) l.synced
        (ap (λ u. u ++ c.undo ∷ []) l.listed)

  then_-AllButLast :
      (next : Host (W × Log) → Host (W × Log) × Option Error) (r : Host (W × Log) × Option Error)
      → ((h : Host (W × Log)) → Listed h → AllButLast (next h))
      → AllButLast r
      → AllButLast (then_ next r)
  unfolding then_
  then_-AllButLast next (h, none) f (inl l) = f h l
  then_-AllButLast next (h, none) f (inr (e, _, _)) = absurd cc
  then_-AllButLast next (h, some e) f b = b

  module _ (draw : ℕ → ℕ × ℕ) (c : NetConfigurer W) (d : Desired) where
    physical_step-AllButLast :
        (iface : InterfaceInfo) (h : Host (W × Log))
        → Listed h
        → AllButLast (physical_step draw (logging c) d iface h)
    unfolding physical_step
    physical_step-AllButLast iface h l = elim (Bool-cases (same_text iface.name d.adapter_name)) [
      | inl e ↦ rw e (inl l)
      | inr e ↦ rw e (recorded-AllButLast draw _ h (c.set_dns h.world.0 iface.name d.dns) l)
    ]

    physical_steps-AllButLast :
        (ifaces : List InterfaceInfo) (h : Host (W × Log))
        → Listed h
        → AllButLast (physical_steps draw (logging c) d ifaces h)
    unfolding physical_steps
    physical_steps-AllButLast [] h l = inl l
    physical_steps-AllButLast (iface ∷ ifaces) h l =
        then_-AllButLast (λ k. physical_steps draw (logging c) d ifaces k)
          (physical_step draw (logging c) d iface h) (λ k. physical_steps-AllButLast ifaces k)
          (physical_step-AllButLast iface h l)

    rewrite_listed-AllButLast :
        (h : Host (W × Log)) (r : W × Result Error (List InterfaceInfo))
        → Listed h
        → AllButLast (rewrite_listed draw (logging c) d h (log_list h.world.1 r))
    unfolding rewrite_listed
    rewrite_listed-AllButLast h (w, err e) l = inl (record { listed = l.listed; synced = l.synced })
    rewrite_listed-AllButLast h (w, ok ifaces) l =
        physical_steps-AllButLast ifaces (record h { world = (w, h.world.1) })
          (record { listed = l.listed; synced = l.synced })

    physical_dns_step-AllButLast :
        (h : Host (W × Log)) → Listed h → AllButLast (physical_dns_step draw (logging c) d h)
    unfolding physical_dns_step
    physical_dns_step-AllButLast h l = elim (Bool-cases d.rewrite_physical_dns) [
      | inl e ↦ rw e (rewrite_listed-AllButLast h (c.list_interfaces h.world.0) l)
      | inr e ↦ rw e (inl l)
    ]

    tunnel_dns_step-AllButLast :
        (h : Host (W × Log)) → Listed h → AllButLast (tunnel_dns_step draw (logging c) d h)
    unfolding tunnel_dns_step
    tunnel_dns_step-AllButLast h l = elim (Bool-cases (is_empty d.dns)) [
      | inl e ↦ rw e (inl l)
      | inr e ↦ rw e (recorded-AllButLast draw _ h (c.set_dns h.world.0 d.adapter_name d.dns) l)
    ]

  with_address-log :
      (log : Log) (r : W × Result Error Commands)
      → with_address (log_commands log r) ≡ log_commands log (with_address r)
  with_address-log log (w, ok c) = refl
  with_address-log log (w, err e) = refl

  module _ (draw : ℕ → ℕ × ℕ) (ip_text : Bytes → Bytes) (net_text : IpNet → Bytes)
      (c : NetConfigurer W) (d : Desired) where
    address_step-AllButLast :
        (h : Host (W × Log))
        → Listed h
        → AllButLast (address_step draw ip_text net_text (logging c) d h)
    unfolding address_step
    address_step-AllButLast h l =
        let r = c.set_interface_ip h.world.0 d.adapter_name d.tunnel_ip d.tunnel_prefix_len in
        rw (with_address-log h.world.1 r) (recorded-AllButLast draw _ h (with_address r) l)

    route_step-AllButLast :
        (dst : IpNet) (h : Host (W × Log))
        → Listed h
        → AllButLast (route_step draw ip_text net_text (logging c) d dst h)
    unfolding route_step
    route_step-AllButLast dst h l =
        recorded-AllButLast draw _ h
          (c.add_route h.world.0 dst d.adapter_name d.default_route_metric) l

    -- Where the journal's file lists the undos of exactly the operations that have succeeded, it does so
    -- again after any `Apply`, whatever fails on the way, save that the write for the last operation may
    -- have failed: then `Apply` returns that error, and the file lists all operations but the last.
    pub apply_journals :
        (h : Host (W × Log))
        → Listed h
        → AllButLast (apply draw ip_text net_text (some (logging c)) d h)
    unfolding apply apply_with
    apply_journals h l =
        let k = logging c in
        let r0 = address_step draw ip_text net_text k d h in
        let r1 = then_ (route_step draw ip_text net_text k d default_v4) r0 in
        let r2 = then_ (route_step draw ip_text net_text k d default_v6) r1 in
        let r3 = then_ (tunnel_dns_step draw k d) r2 in
        then_-AllButLast (physical_dns_step draw k d) r3 (physical_dns_step-AllButLast draw c d) (
          then_-AllButLast (tunnel_dns_step draw k d) r2 (tunnel_dns_step-AllButLast draw c d) (
            then_-AllButLast (route_step draw ip_text net_text k d default_v6) r1
              (route_step-AllButLast default_v6)
              (then_-AllButLast (route_step draw ip_text net_text k d default_v4) r0
                (route_step-AllButLast default_v4) (address_step-AllButLast h l))))
