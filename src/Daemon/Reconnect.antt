-- ===== src/Daemon/Reconnect.antt =====
-- A session that a signal to reconnect ends, in desktop/internal/daemon/daemon.go.
use toppa.Base.{◌≡◌, refl, Bool, true, false, not, Option, none, some, [], ◌∷◌, ◌++◌}
use toppa.Base.Tests.{if_split}
use toppa.Config
use toppa.Daemon.{
  State, connecting, online, offline, Transport, transport_id, Daemon, pick_transport,
}
use toppa.Daemon.Connect.{
  Attempt, Ran, Error, Ending, signalled, prepare, dial, key_store, handshake, open_adapter,
  netstack, no_transport, fails, online_until, with_adapter, with_conn, with_transport, connect,
}
use toppa.Daemon.Run.{jitter, Turn, Loop, wait, after_connect, turn, initial, max_backoff}

module _ {R : Type 0} (apply : R → R × Bool) (rollback : R → R) where
  -- A run that ends a session has left no signal.
  Emptied : Ran R → Type 0
  Emptied ran = ran.result ≡ none → ran.daemon.reconnect ≡ false

  fails-Emptied : (d : Daemon) (r : R) (e : Error) → Emptied (fails apply rollback d r e)
  unfolding Emptied
  fails-Emptied d r e = λ c. absurd (let q : some e ≡ none = c in cc)

  online_until-Emptied :
      (a : Attempt) (d : Daemon) (x : R × Bool)
      → a.ending ≡ signalled
      → Emptied (online_until apply rollback a d x)
  unfolding Emptied online_until
  online_until-Emptied a d (r, true) h = λ _. rw h refl
  online_until-Emptied a d (r, false) h =
      λ c. absurd (let q : some toppa.Daemon.Connect.routes ≡ none = c in cc)

  with_adapter-Emptied :
      (a : Attempt) (d : Daemon) (r : R)
      → a.ending ≡ signalled
      → Emptied (with_adapter apply rollback a d r)
  unfolding with_adapter Emptied
  with_adapter-Emptied a d r h =
      if_split Emptied (not a.adapter_opened) (λ _. fails-Emptied d r open_adapter)
        (λ _.
          if_split Emptied (not a.engine_started)
            (λ _ c. absurd (let q : some netstack ≡ none = c in cc))
            (λ _. online_until-Emptied a d (apply r) h))

  with_conn-Emptied :
      (a : Attempt) (d : Daemon) (r : R)
      → a.ending ≡ signalled
      → Emptied (with_conn apply rollback a d r)
  unfolding with_conn Emptied
  with_conn-Emptied a d r h =
      if_split Emptied (not a.store_opened) (λ _. fails-Emptied d r key_store)
        (λ _.
          if_split Emptied (not a.identity_read) (λ _. fails-Emptied d r key_store)
            (λ _.
              if_split Emptied (not a.pin_read) (λ _. fails-Emptied d r key_store)
                (λ _.
                  if_split Emptied (not a.handshaken) (λ _. fails-Emptied d r handshake)
                    (λ _. with_adapter-Emptied a d r h))))

  with_transport-Emptied :
      (a : Attempt) (d : Daemon) (r : R) (o : Option Transport)
      → a.ending ≡ signalled
      → Emptied (with_transport apply rollback a d r o)
  unfolding with_transport Emptied
  with_transport-Emptied a d r none h = fails-Emptied (record d { state = offline }) r no_transport
  with_transport-Emptied a d r (some t) h =
      let e : Daemon = record d { transport = transport_id t } in
      if_split Emptied (not a.prepared) (λ _. fails-Emptied e r prepare)
        (λ _.
          if_split Emptied (not a.dialled) (λ _. fails-Emptied e r dial)
            (λ _. with_conn-Emptied a e r h))

  module _ (cfg : toppa.Config.Config) where
    after_session :
        (t : Turn) (l : Loop R) (ran : Ran R)
        → t.cancelled_then ≡ false
        → t.cancelled_waiting ≡ false
        → t.signalled ≡ false
        → ran.result ≡ none
        → ran.daemon.reconnect ≡ false
        → (after_connect
            (initial apply rollback cfg)
            (max_backoff apply rollback cfg)
            t
            l
            ran).waits
          ≡ l.waits ++ jitter (initial apply rollback cfg) t.random ∷ []
    unfolding after_connect wait
    after_session t l ran ct cw s e q = rw (e, cw, s, q) refl

    -- Where the daemon is not cancelled and no signal comes during the wait, a turn whose session has ended because a
    -- signal to reconnect was taken still waits, for the initial delay with its jitter, before the
    -- next turn: the signal is used up with the session.
    pub reconnect_waits :
        (t : Turn) (l : Loop R)
        → t.cancelled_first ≡ false
        → t.cancelled_then ≡ false
        → t.cancelled_waiting ≡ false
        → t.signalled ≡ false
        → t.attempt.ending ≡ signalled
        → (connect apply rollback cfg t.attempt
            (record l.daemon { state = connecting })
            l.routes).result
          ≡ none
        → (turn apply rollback cfg t l).waits
          ≡ l.waits ++ jitter (initial apply rollback cfg) t.random ∷ []
    unfolding turn connect Emptied
    reconnect_waits t l cf ct cw s h e =
        let d : Daemon = record l.daemon { state = connecting } in
        rw cf (
          after_session t l (connect apply rollback cfg t.attempt d l.routes) ct cw s e (
            with_transport-Emptied t.attempt d l.routes
              (pick_transport cfg t.attempt.available cfg.transport.priority) h e))
