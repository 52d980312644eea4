-- ===== src/Mux/Session/State.antt =====
-- The state of a session (session.go): the streams are objects of a store, which the table of the
-- session, the accept queue and the users of a stream name by address.
use toppa.Base.{ℕ, ◌*◌, Bool, false, Option, none, some, List, [], ◌∷◌}
use toppa.Base.Tests.{◌==◌, if◌then◌else◌}
use toppa.Base.Lists.{get_elem?, set}
use toppa.Base.Bytes.{Bytes, Writer}
use toppa.Mux.Errors.{Error, err_session_closed}
use toppa.Mux.Frame.{Frame, write_frame, protocol_version}
use toppa.Mux.Stream.{Stream}

-- Durations are in nanoseconds.
pub record Config : Type 0 where
  pub max_frame_payload : ℕ
  pub initial_window : ℕ
  pub keep_alive : ℕ
  pub ping_timeout : ℕ
  pub is_initiator : Bool
  pub accept_queue_depth : ℕ

abbrev or_default : ℕ → ℕ → ℕ
or_default v d = if v == 0 then d else v

unfoldable pub with_defaults : Config → Config
with_defaults c = record c {
  max_frame_payload = or_default c.max_frame_payload (64 * 1024);
  initial_window = or_default c.initial_window (256 * 1024);
  ping_timeout = or_default c.ping_timeout (45 * 1000000000);
  accept_queue_depth = or_default c.accept_queue_depth 64;
}

-- `table` is the map from stream ids, and `accept_ch` the channel of pending streams, oldest first;
-- both hold addresses in `objs`. `close_once` says that `closeOnce` has run.
pub record Session : Type 0 where
  pub conn : Writer
  pub conn_closed : Bool
  pub cfg : Config
  pub objs : List Stream
  pub table : List (ℕ × ℕ)
  pub next_id : ℕ
  pub accept_ch : List ℕ
  pub closed : Bool
  pub last_recv : ℕ
  pub close_once : Bool
  pub done : Bool

-- `New`, up to the start of its goroutines; `now` is the time of the call.
unfoldable pub new : Writer → Config → ℕ → Session
unfolding with_defaults
new conn cfg now = record {
  conn = conn;
  conn_closed = false;
  cfg = with_defaults cfg;
  objs = [];
  table = [];
  next_id = if cfg.is_initiator then 1 else 2;
  accept_ch = [];
  closed = false;
  last_recv = now;
  close_once = false;
  done = false;
}

unfoldable pub find_id : ℕ → List (ℕ × ℕ) → Option ℕ
find_id id [] = none
find_id id ((k, a) ∷ m) = if k == id then some a else find_id id m

-- `delete(m, id)`
unfoldable pub delete_id : ℕ → List (ℕ × ℕ) → List (ℕ × ℕ)
delete_id id [] = []
delete_id id ((k, a) ∷ m) = let rest = delete_id id m in if k == id then rest else (k, a) ∷ rest

-- `m[id] = a`
unfoldable pub put_id : ℕ → ℕ → List (ℕ × ℕ) → List (ℕ × ℕ)
put_id id a m = (id, a) ∷ delete_id id m

-- `s.stream(id)`
unfoldable pub stream : Session → ℕ → Option ℕ
unfolding find_id
stream s id = find_id id s.table

-- The stream at an address, changed in place.
unfoldable pub update : Session → ℕ → (Stream → Stream) → Session
update s a f = elim (get_elem? s.objs a) [
  | none ↦ s
  | some st ↦ record s { objs = set s.objs a (f st) }
]

-- `s.writeFrame`
unfoldable pub session_write_frame : Session → Frame → Session × Option Error
session_write_frame s f = if s.closed then (s, some err_session_closed) else (
  record s { conn = (write_frame s.conn f s.cfg.max_frame_payload).0 },
  (write_frame s.conn f s.cfg.max_frame_payload).1,
)

-- A frame of this version.
abbrev pub frame : ℕ → ℕ → Bytes → Frame
frame flags id payload = record {
  version = protocol_version;
  flags = flags;
  stream_id = id;
  payload = payload;
}
