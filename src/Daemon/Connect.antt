-- ===== src/Daemon/Connect.antt =====
-- `connect` of desktop/internal/daemon/daemon.go. The parts that it calls are given by how their calls end.
use toppa.Base.{ℕ, Bool, true, false, not, Option, none, some, List, [], ◌∷◌, ◌++◌}
use toppa.Base.Tests.{if◌then◌else◌}
use toppa.Config
use toppa.Daemon.{online, connecting, offline, Transport, transport_id, Daemon, pick_transport}

pub data Resource : Type 0 where
  conn session injector tun engine : Resource

-- What is opened and released, in order, `defer`s included.
pub data Effect : Type 0 where
  opened released : Resource → Effect
  applied_routes rolled_back deleted_adapter : Effect

pub data Error : Type 0 where
  no_transport prepare dial key_store handshake open_adapter netstack routes : Error

-- How a session ends: the context is cancelled, the session is down, or a signal to reconnect is taken.
pub data Ending : Type 0 where
  cancelled down signalled : Ending

-- How the calls of one `connect` end: `true` is success.
pub record Attempt : Type 0 where
  pub available : Transport → Bool
  pub prepared : Bool
  pub dialled : Bool
  pub store_opened : Bool
  pub identity_read : Bool
  pub pin_read : Bool
  pub handshaken : Bool
  pub adapter_opened : Bool
  pub engine_started : Bool
  pub ending : Ending
  pub started : ℕ

pub record Ran (R : Type 0) : Type 0 where
  pub daemon : Daemon
  pub routes : R
  pub effects : List Effect
  pub result : Option Error

-- `apply` and `rollback` are those of the route manager; the first tells whether it succeeded, and the
-- error of the second is only printed.
module _ {R : Type 0} (apply : R → R × Bool) (rollback : R → R) where
  -- An early return.
  abbrev pub fails : Daemon → R → Error → Ran R
  fails d r e = record { daemon = d; routes = r; effects = []; result = some e }

  -- What follows the opening of a resource whose release is deferred.
  abbrev pub deferring : Resource → Ran R → Ran R
  deferring x ran = record ran { effects = opened x ∷ (ran.effects ++ released x ∷ []) }

  unfoldable pub taken : Ending → Daemon → Daemon
  taken cancelled d = d
  taken down d = d
  taken signalled d = record d { reconnect = false }

  -- From the application of the routes on: the session online, and its teardown.
  unfoldable pub online_until : Attempt → Daemon → R × Bool → Ran R
  unfolding taken
  online_until a d (r, true) = record {
    daemon = record (taken a.ending (record d { state = online; since = a.started })) {
      state = offline;
    };
    routes = rollback r;
    effects =
        opened tun
        ∷ opened engine
        ∷ applied_routes
        ∷ released engine
        ∷ rolled_back
        ∷ released tun
        ∷ deleted_adapter
        ∷ [];
    result = none;
  }
  online_until a d (r, false) = record {
    daemon = d;
    routes = r;
    effects = opened tun ∷ opened engine ∷ applied_routes ∷ released engine ∷ released tun ∷ [];
    result = some routes;
  }

  unfoldable pub with_adapter : Attempt → Daemon → R → Ran R
  unfolding online_until
  with_adapter a d r =
      if not a.adapter_opened
      then fails d r open_adapter
      else if not a.engine_started
      then record {
        daemon = d;
        routes = r;
        effects = opened tun ∷ released tun ∷ [];
        result = some netstack;
      }
      else online_until a d (apply r)

  unfoldable pub with_conn : Attempt → Daemon → R → Ran R
  unfolding with_adapter
  with_conn a d r =
      if not a.store_opened
      then fails d r key_store
      else if not a.identity_read
      then fails d r key_store
      else if not a.pin_read
      then fails d r key_store
      else if not a.handshaken
      then fails d r handshake
      else deferring session (deferring injector (with_adapter a d r))

  unfoldable pub with_transport : Attempt → Daemon → R → Option Transport → Ran R
  unfolding with_conn
  with_transport a d r none = fails (record d { state = offline }) r no_transport
  with_transport a d r (some t) =
      let e = record d { transport = transport_id t } in
      if not a.prepared
      then fails e r prepare
      else if not a.dialled
      then fails e r dial
      else deferring conn (with_conn a e r)

  -- `connect`
  unfoldable pub connect : toppa.Config.Config → Attempt → Daemon → R → Ran R
  unfolding with_transport
  connect cfg a d r =
      with_transport a (record d { state = connecting }) r
        (pick_transport cfg a.available cfg.transport.priority)
