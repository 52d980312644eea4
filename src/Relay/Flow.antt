-- ===== src/Relay/Flow.antt =====
-- `StreamConn` of desktop/internal/relay/dialer.go: a stream as a connection. Deadlines are accepted and ignored.
use toppa.Base.{ℕ, Option, none, some}
use toppa.Base.Bytes.{Bytes}
use toppa.Mux.Errors
use toppa.Mux.Errors.{err_stream_reset, err_session_closed}
use toppa.Mux.Stream.{ReadOutcome, blocked, failed, got, nothing}
use toppa.Mux.Session.State.{Session}
use toppa.Mux.Session.Calls.{Progress, all, waiting, crashed, stopped, read, write}

-- An error of the network: a closed connection, or the error of the stream.
pub data Error : Type 0 where
  closed : Error
  other : toppa.Mux.Errors.Error → Error

unfoldable pub map_err : toppa.Mux.Errors.Error → Error
map_err err_stream_reset = closed
map_err err_session_closed = closed
map_err e = other e

pub data FlowRead : Type 0 where
  waits no_bytes : FlowRead
  bytes : Bytes → FlowRead
  fails : Error → FlowRead

unfoldable pub read_result : ReadOutcome → FlowRead
unfolding map_err
read_result blocked = waits
read_result nothing = no_bytes
read_result (got b credit) = bytes b
read_result (failed e) = fails (map_err e)

unfoldable pub flow_read : Session → ℕ → ℕ → Option (Session × FlowRead)
unfolding read_result read
flow_read s a n = elim (read s a n) [ none ↦ none | some r ↦ some (r.0, read_result r.1) ]

pub data FlowWrite : Type 0 where
  written in_progress panics : FlowWrite
  refused : Error → FlowWrite

unfoldable pub write_result : Progress → FlowWrite
unfolding map_err
write_result all = written
write_result waiting = in_progress
write_result crashed = panics
write_result (stopped e) = refused (map_err e)

-- With how many bytes were written.
unfoldable pub flow_write : Session → ℕ → Bytes → Session × ℕ × FlowWrite
unfolding write_result write
flow_write s a b = ((write s a b).0, (write s a b).1, write_result (write s a b).2)
