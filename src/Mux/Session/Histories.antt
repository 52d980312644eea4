-- ===== src/Mux/Session/Histories.antt =====
-- Every history of a session: the calls of its users, frames from the peer, and keepalive ticks
-- (session.go, stream.go), each taken whole, in any order.
use toppa.Base.{ℕ, ◌≡◌, Bool, Option, some}
use toppa.Base.Lists.{length}
use toppa.Base.Bytes.{Bytes, Writer}
use toppa.Mux.Errors.{Error}
use toppa.Mux.Stream.{ReadOutcome}
use toppa.Mux.Target.{Target}
use toppa.Mux.Session.State.{Session, Config, new}
use toppa.Mux.Session.Calls.{
  open_stream, ping_payload, accept, close_with_error, read, write, close_write,
}
use toppa.Mux.Session.Inbound.{read_round, keep_alive_round}
use toppa.Mux.Session.Invariant.{Inv, new-Inv, session_write_frame-Inv}
use toppa.Mux.Session.CallsInv.{
  open_stream-Inv, accept-Inv, close_with_error-Inv, read-Inv, write_loop-Inv, close_write-Inv,
}
use toppa.Mux.Session.InboundInv.{read_round-Inv, keep_alive_round-Inv}

-- One call of a user, one frame (or the end of the input), or one tick.
pub data Step : Session → Session → Type 0 where
  opens : (s : Session) (t : Target) → Step s (open_stream s t).0
  pings : (s : Session) (p : Bytes) → Step s (ping_payload s p).0
  accepts : (s : Session) (prefer_done : Bool) → Step s (accept s prefer_done).1
  closes : (s : Session) (failed_with : Bool) → Step s (close_with_error s failed_with)
  reads : (s s' : Session) (a n : ℕ) (o : ReadOutcome) → read s a n ≡ some (s', o) → Step s s'
  writes : (s : Session) (a : ℕ) (p : Bytes) → Step s (write s a p).0
  closes_write :
      (s s' : Session) (a : ℕ) (e : Option Error) → close_write s a ≡ some (s', e) → Step s s'
  receives : (s : Session) (now : ℕ) (input : Bytes) → Step s (read_round s now input).0
  ticks : (s : Session) (now : ℕ) (nonce : Bytes) → Step s (keep_alive_round s now nonce).0

pub data Reach (s : Session) : Session → Type 0 where
  here : Reach s s
  next : {t u : Session} → Reach s t → Step t u → Reach s u

pub Step-Inv : {s t : Session} → Step s t → Inv s → Inv t
Step-Inv (opens s t) v = open_stream-Inv s t v
Step-Inv (pings s p) v = unfold ping_payload in session_write_frame-Inv s _ v
Step-Inv (accepts s b) v = accept-Inv s b v
Step-Inv (closes s b) v = close_with_error-Inv s b v
Step-Inv (reads s s' a n o e) v = read-Inv s s' a n o e v
Step-Inv (writes s a p) v = unfold write in write_loop-Inv (length p) s a 0 p v
Step-Inv (closes_write s s' a e h) v = close_write-Inv s s' a e h v
Step-Inv (receives s now input) v = read_round-Inv s now input v
Step-Inv (ticks s now nonce) v = keep_alive_round-Inv s now nonce v

Reach-Inv : {s t : Session} → Inv s → Reach s t → Inv t
Reach-Inv v here = v
Reach-Inv v (next r st) = Step-Inv st (Reach-Inv v r)

-- After any history of a new session every buffer is within the initial window, the table names each
-- id once and by the stream of that id, the accept queue is within its depth and holds streams that
-- exist, and the next id fits 32 bits and is odd exactly for the initiator.
pub Reach-new-Inv :
    (conn : Writer) (cfg : Config) (now : ℕ) {t : Session} → Reach (new conn cfg now) t → Inv t
Reach-new-Inv conn cfg now r = Reach-Inv (new-Inv conn cfg now) r
