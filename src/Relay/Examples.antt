-- ===== src/Relay/Examples.antt =====
-- The theorems on package relay at a request head, a start of a TLS flow, and a dialer with a cap of one.
use toppa.Base.{◌≡◌, refl, true, false, none, some, List, [], ◌∷◌, ◌++◌, arith}
use toppa.Base.Bytes.{Bytes, Writer, write, codes}
use toppa.Base.Results.{ok}
use toppa.Base.Ints.{pos}
use toppa.Mux.Session.State.{Session, Config, new, stream}
use toppa.Mux.Session.Calls.{open_stream}
use toppa.Mux.Frame.{write_frame}
use toppa.Mux.Target.{append_target}
use toppa.Relay.Sanitize.{SanitizeConfig, crlf, head_end}
use toppa.Relay.Sanitize.Holding.{concat, write_each, unfinished_head_is_held}
use toppa.Relay.Dialer.{Pacer, Dialer, Conn, v4, acquire, dial_tcp}
use toppa.Relay.Dialer.Opening.{IsIp}
use toppa.Relay.Dialer.Reaching.{Reached, dialed_flow_reaches}

abbrev strict : SanitizeConfig
strict = record { enabled = true; user_agent = []; strip_forwarded = true }

abbrev request : Bytes
request = codes "GET / HTTP/1.1" ++ (crlf ++ (codes "Host: a" ++ (crlf ++ crlf)))

abbrev wide : Writer
wide = record { sent = []; room = 100000 }

abbrev hello : List Bytes
hello = (22 ∷ 3 ∷ 1 ∷ []) ∷ (0 ∷ 13 ∷ 10 ∷ []) ∷ []

unfinished_head_is_held_example :
    let c = write_each (record { conn = wide; cfg = strict; buf = []; done = false }) hello in
    (c.0.conn ≡ wide) × (c.0.buf ≡ concat hello) × (c.1 ≡ true)
unfolding head_end
unfinished_head_is_held_example = unfinished_head_is_held wide strict hello refl (omega arith)

abbrev gate : Pacer
gate = record { max_streams = pos 1; jitter_millis = pos 0; active = 0 }

abbrev small : Config
small = record {
  max_frame_payload = 16;
  initial_window = 8;
  keep_alive = 0;
  ping_timeout = 1;
  is_initiator = true;
  accept_queue_depth = 2;
}

abbrev dialer : Dialer
dialer = record { session = some (new wide small 0); sanitizer = none; pacer = some gate }

abbrev asked : Bytes
asked = 93 ∷ 184 ∷ 216 ∷ 34 ∷ []

abbrev dialled : Dialer
dialled = (dial_tcp dialer (v4 asked) 443).0

abbrev dialled_conn : Conn
dialled_conn = record { stream = 0; sanitized = none }

dialled_ok : dial_tcp dialer (v4 asked) 443 ≡ (dialled, ok dialled_conn)
unfolding dial_tcp open_stream write_frame write new append_target acquire
dialled_ok = refl

-- The session of the phone, new.
abbrev phone : Session
phone = new wide (record small { is_initiator = false }) 0

dialed_flow_reaches_example :
    Reached dialled (new wide small 0) phone (v4 asked) 443 dialled_conn (9 ∷ []) 20
unfolding IsIp new stream
dialed_flow_reaches_example =
    dialed_flow_reaches dialer dialled (new wide small 0) phone (v4 asked) 443 dialled_conn (9 ∷ [])
      20 refl (refl, (omega arith, (omega arith, (omega arith, (omega arith, tt))))) (omega arith)
      (omega arith) refl (omega arith) dialled_ok
