-- ===== src/Mux/Session/Examples.antt =====
-- The theorems on sessions at concrete histories.
use toppa.Base.{◌≡◌, ◌≢◌, ◌⊎◌, refl, true, false, [], ◌∷◌, arith}
use toppa.Base.Bytes.{Bytes, Writer}
use toppa.Mux.Frame.{Frame}
use toppa.Mux.Target.{Target}
use toppa.Mux.Stream.{Stream}
use toppa.Mux.Session.State.{Session, Config, new}
use toppa.Mux.Session.Calls.{open_stream, write, crashed, all}
use toppa.Mux.Session.Inbound.{read_loop}
use toppa.Mux.Session.Invariant.{Inv}
use toppa.Mux.Session.Histories.{here, next, opens, Reach-new-Inv}
use toppa.Mux.Session.Gates.{gates, AllShut}
use toppa.Mux.Session.Ending.{read_loop_ends}
use toppa.Mux.Session.Writing.{write_total}

abbrev host : Target
host = record { network = 1; atyp = 1; address = 10 ∷ 0 ∷ 0 ∷ 1 ∷ []; port = 80 }

abbrev wide : Writer
wide = record { sent = []; room = 1000 }

abbrev small : Config
small = record {
  max_frame_payload = 16;
  initial_window = 8;
  keep_alive = 0;
  ping_timeout = 1;
  is_initiator = true;
  accept_queue_depth = 2;
}

abbrev start : Session
start = new wide small 0

Reach-new-Inv_example : Inv (open_stream start host).0
Reach-new-Inv_example = Reach-new-Inv wide small 0 (next here (opens start host))

abbrev held : Stream
held = record {
  id = 1;
  target = host;
  buf = 1 ∷ 2 ∷ 3 ∷ 4 ∷ 5 ∷ [];
  send_win = 8;
  recv_unacked = 0;
  fin_recv = false;
  fin_sent = false;
  reset = false;
  sclosed = false;
}

-- A session with one stream, whose id is 1.
abbrev busy : Session
busy = record {
  conn = wide;
  conn_closed = false;
  cfg = small;
  objs = held ∷ [];
  table = (1, 0) ∷ [];
  next_id = 3;
  accept_ch = [];
  closed = false;
  last_recv = 0;
  close_once = false;
  done = false;
}

abbrev too_much : Frame
too_much = record { version = 1; flags = 16; stream_id = 1; payload = 9 ∷ 9 ∷ 9 ∷ 9 ∷ [] }

abbrev too_much_bytes : Bytes
too_much_bytes = 1 ∷ 16 ∷ 0 ∷ 0 ∷ 0 ∷ 1 ∷ 0 ∷ 0 ∷ 0 ∷ 4 ∷ 9 ∷ 9 ∷ 9 ∷ 9 ∷ []

read_loop_ends_example :
    ((read_loop 20 (λ n. n) busy too_much_bytes).1 ≡ true)
    × AllShut (gates (read_loop 20 (λ n. n) busy too_much_bytes).0)
    × ((busy.close_once ≡ true) ⊎ ((read_loop 20 (λ n. n) busy too_much_bytes).0.table ≡ []))
read_loop_ends_example =
    read_loop_ends 20 (λ n. n) busy too_much_bytes (λ h. absurd (ground (arith, h))) (omega arith)

abbrev again : Frame
again = record {
  version = 1;
  flags = 1;
  stream_id = 1;
  payload = 1 ∷ 1 ∷ 10 ∷ 0 ∷ 0 ∷ 1 ∷ 0 ∷ 80 ∷ [];
}

write_total_example :
    ((write busy 0 (1 ∷ 2 ∷ [])).2 ≢ crashed)
    × ((write busy 0 (1 ∷ 2 ∷ [])).2 ≡ all → (write busy 0 (1 ∷ 2 ∷ [])).1 ≡ 2)
write_total_example =
    write_total busy 0 (1 ∷ 2 ∷ []) (omega arith)
      ((held, refl, omega arith), omega arith, omega arith)
