-- ===== src/Daemon/Teardown.antt =====
-- What `connect` of desktop/internal/daemon/daemon.go leaves behind on every path.
use toppa.Base.{
  ◌≡◌, ◌≢◌, refl, sym, ap, ◌∙◌, Bool, true, false, not, Option, none, some, List, [], ◌∷◌, ◌++◌,
}
use toppa.Base.Tests.{if◌then◌else◌, if_split}
use toppa.Config
use toppa.Daemon.{connecting, offline, Transport, transport_id, Daemon, pick_transport}
use toppa.Daemon.Connect.{
  Resource, conn, session, injector, tun, engine, Effect, opened, released, applied_routes,
  rolled_back, deleted_adapter, Error, no_transport, prepare, dial, key_store, handshake,
  open_adapter, routes, Attempt, Ran, fails, deferring, online_until, with_adapter, with_conn,
  with_transport, connect,
}

abbrev pub same : Resource → Resource → Bool
same conn conn = true
same session session = true
same injector injector = true
same tun tun = true
same engine engine = true
same x y = false

-- The resources that are open, the last one first, once the last one, which has to be `x`, is released.
abbrev pub pop : Resource → List Resource → Option (List Resource)
pop x [] = none
pop x (y ∷ held) = if same x y then some held else none

-- The resources that are open after the effects, if each release was that of the last one opened.
abbrev pub nested : List Resource → List Effect → Option (List Resource)
nested held [] = some held
nested held (opened x ∷ es) = nested (x ∷ held) es
nested held (released x ∷ es) = elim (pop x held) [ none ↦ none | some rest ↦ nested rest es ]
nested held (applied_routes ∷ es) = nested held es
nested held (rolled_back ∷ es) = nested held es
nested held (deleted_adapter ∷ es) = nested held es

pop-same : (x : Resource) (held : List Resource) → pop x (x ∷ held) ≡ some held
pop-same conn held = refl
pop-same session held = refl
pop-same injector held = refl
pop-same tun held = refl
pop-same engine held = refl

released-append :
    (o : Option (List Resource)) (rest : List Resource) (es fs : List Effect)
    → ((held : List Resource)
        → nested held es ≡ some rest
        → nested held (es ++ fs) ≡ nested rest fs)
    → (elim o as (λ x. Option (List Resource)) [ none ↦ none | some t ↦ nested t es ]) ≡ some rest
    → (elim o as (λ x. Option (List Resource)) [ none ↦ none | some t ↦ nested t (es ++ fs) ])
      ≡ nested rest fs
released-append none rest es fs ih h = absurd cc
released-append (some t) rest es fs ih h = ih t h

nested-append :
    (held rest : List Resource) (es fs : List Effect)
    → nested held es ≡ some rest
    → nested held (es ++ fs) ≡ nested rest fs
nested-append held rest [] fs h =
    ap (λ o. elim o [ none ↦ nested held fs | some t ↦ nested t fs ]) h
nested-append held rest (opened x ∷ es) fs h = nested-append (x ∷ held) rest es fs h
nested-append held rest (released x ∷ es) fs h =
    released-append (pop x held) rest es fs (λ t. nested-append t rest es fs) h
nested-append held rest (applied_routes ∷ es) fs h = nested-append held rest es fs h
nested-append held rest (rolled_back ∷ es) fs h = nested-append held rest es fs h
nested-append held rest (deleted_adapter ∷ es) fs h = nested-append held rest es fs h

-- The routes after a `connect`: applied and rolled back, or left as a failed application left them, or not
-- touched. Everything that was opened is released, the last opened first.
pub data TornDown {R : Type 0} (apply : R → R × Bool) (rollback : R → R) (r : R) (ran : Ran R)
    : Type 0 where
  ended :
      ran.result ≡ none
      → (apply r).1 ≡ true
      → ran.routes ≡ rollback (apply r).0
      → ran.daemon.state ≡ offline
      → TornDown apply rollback r ran
  apply_failed :
      ran.result ≡ some routes
      → (apply r).1 ≡ false
      → ran.routes ≡ (apply r).0
      → TornDown apply rollback r ran
  not_applied :
      ran.result ≢ none → ran.result ≢ some routes → ran.routes ≡ r → TornDown apply rollback r ran

module _ {R : Type 0} (apply : R → R × Bool) (rollback : R → R) where
  -- Within the resources that are open at the time.
  record Clean (r : R) (ran : Ran R) : Type 0 where
    balanced : (held : List Resource) → nested held ran.effects ≡ some held
    routes_left : TornDown apply rollback r ran

  deferring-TornDown :
      (x : Resource) (r : R) (ran : Ran R)
      → TornDown apply rollback r ran
      → TornDown apply rollback r (deferring apply rollback x ran)
  deferring-TornDown x r ran (ended a b c d) = ended a b c d
  deferring-TornDown x r ran (apply_failed a b c) = apply_failed a b c
  deferring-TornDown x r ran (not_applied a b c) = not_applied a b c

  deferring-Clean :
      (x : Resource) (r : R) (ran : Ran R) → Clean r ran → Clean r (deferring apply rollback x ran)
  deferring-Clean x r ran c = record {
    balanced = λ held.
        nested-append (x ∷ held) (x ∷ held) ran.effects (released x ∷ []) (c.balanced (x ∷ held))
        ∙ ap (λ o. elim o as (λ y. Option (List Resource)) [ none ↦ none | some t ↦ some t ])
            (pop-same x held);
    routes_left = deferring-TornDown x r ran c.routes_left;
  }

  fails-Clean : (d : Daemon) (r : R) (e : Error) → e ≢ routes → Clean r (fails apply rollback d r e)
  fails-Clean d r e h = record {
    balanced = λ held. refl;
    routes_left = not_applied (λ c. cc) (λ c. h (cc)) refl;
  }

  online_until-Clean :
      (a : Attempt) (d : Daemon) (r : R) (q : R × Bool)
      → apply r ≡ q
      → Clean r (online_until apply rollback a d q)
  unfolding online_until
  online_until-Clean a d r (s, true) e = record {
    balanced = λ held. refl;
    routes_left = ended refl (ap (λ p. p.1) e) (ap rollback (sym (ap (λ p. p.0) e))) refl;
  }
  online_until-Clean a d r (s, false) e = record {
    balanced = λ held. refl;
    routes_left = apply_failed refl (ap (λ p. p.1) e) (sym (ap (λ p. p.0) e));
  }

  with_adapter-Clean :
      (a : Attempt) (d : Daemon) (r : R) → Clean r (with_adapter apply rollback a d r)
  unfolding with_adapter
  with_adapter-Clean a d r =
      if_split (Clean r) (not a.adapter_opened) (λ _. fails-Clean d r open_adapter (λ c. cc))
        (λ _.
          if_split (Clean r) (not a.engine_started)
            (λ _. record {
              balanced = λ held. refl;
              routes_left = not_applied (λ c. cc) (λ c. cc) refl;
            })
            (λ _. online_until-Clean a d r (apply r) refl))

  with_conn-Clean : (a : Attempt) (d : Daemon) (r : R) → Clean r (with_conn apply rollback a d r)
  unfolding with_conn
  with_conn-Clean a d r =
      if_split (Clean r) (not a.store_opened) (λ _. fails-Clean d r key_store (λ c. cc))
        (λ _.
          if_split (Clean r) (not a.identity_read) (λ _. fails-Clean d r key_store (λ c. cc))
            (λ _.
              if_split (Clean r) (not a.pin_read) (λ _. fails-Clean d r key_store (λ c. cc))
                (λ _.
                  if_split (Clean r) (not a.handshaken) (λ _. fails-Clean d r handshake (λ c. cc))
                    (λ _.
                      deferring-Clean session r _
                        (deferring-Clean injector r _ (with_adapter-Clean a d r))))))

  with_transport-Clean :
      (a : Attempt) (d : Daemon) (r : R) (o : Option Transport)
      → Clean r (with_transport apply rollback a d r o)
  unfolding with_transport
  with_transport-Clean a d r none =
      fails-Clean (record d { state = offline }) r no_transport (λ c. cc)
  with_transport-Clean a d r (some t) =
      let e : Daemon = record d { transport = transport_id t } in
      if_split (Clean r) (not a.prepared) (λ _. fails-Clean e r prepare (λ c. cc))
        (λ _.
          if_split (Clean r) (not a.dialled) (λ _. fails-Clean e r dial (λ c. cc))
            (λ _. deferring-Clean conn r _ (with_conn-Clean a e r)))

  -- On every path through `connect`, whatever fails, each resource that was opened is released before those
  -- opened earlier, and none stays open. The routes are rolled back where the session has ended without an
  -- error, with the daemon offline, whether it was stopped, was asked to reconnect or has lost its link; they are as they were
  -- where `Apply` was not reached; and where `Apply` itself has failed, they stay as it left them.
  pub connect_tears_down :
      (cfg : toppa.Config.Config) (a : Attempt) (d : Daemon) (r : R)
      → (nested [] (connect apply rollback cfg a d r).effects ≡ some [])
        × TornDown apply rollback r (connect apply rollback cfg a d r)
  unfolding connect
  connect_tears_down cfg a d r =
      let c =
        with_transport-Clean a (record d { state = connecting }) r
          (pick_transport cfg a.available cfg.transport.priority) in
      (c.balanced [], c.routes_left)
