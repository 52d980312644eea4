-- ===== src/Daemon/Control.antt =====
-- desktop/internal/api/server.go: the control interface over the daemon. Routing and JSON are the library's.
use toppa.Base.{ℕ, not}
use toppa.Base.Tests.{if◌then◌else◌}
use toppa.Base.Bytes.{Bytes, codes}
use toppa.Base.Texts.{same_text}
use toppa.Daemon.{State, Daemon, signal}

pub record Status : Type 0 where
  pub state : State
  pub transport : Bytes
  pub since : ℕ

-- `Status` of the daemon.
unfoldable pub status_of : Daemon → Status
status_of d = record { state = d.state; transport = d.transport; since = d.since }

pub data Reply : Type 0 where
  status : Status → Reply
  done method_not_allowed not_found : Reply

-- A request to the server, by its path and its method.
unfoldable pub serve : Bytes → Bytes → Daemon → Daemon × Reply
unfolding status_of signal same_text
serve path method d =
    if same_text path (codes "/status")
    then (d, status (status_of d))
    else if not (same_text path (codes "/reconnect"))
    then (d, not_found)
    else if not (same_text method (codes "POST"))
    then (d, method_not_allowed)
    else (signal d, done)
