-- ===== src/Mux/Session/Calls.antt =====
-- The calls that users of a session and of its streams make (session.go, and stream.go's methods with
-- the frames that they send).
use toppa.Base.{
  ◌&&◌, ℕ, suc, zero, ◌+◌, ◌%◌, Bool, true, false, Option, none, some, List, [], ◌∷◌, ◌++◌,
}
use toppa.Base.Tests.{if◌then◌else◌}
use toppa.Base.Lists.{length, get_elem?, set, take, drop}
use toppa.Base.Results.{Result, ok, err}
use toppa.Base.Bytes.{Bytes, u32_mod, put_u32}
use toppa.Mux.Errors.{Error, err_session_closed}
use toppa.Mux.Frame.{
  flag_syn, flag_fin, flag_win, flag_data, flag_ping, flag_goaway, reason_normal, reason_protocol,
}
use toppa.Mux.Stream.{
  Stream, new_stream, ReadOutcome, blocked, failed, got, nothing, read_stream, WriteOutcome,
  stalled, refused, panics, chunk, reserve, close_stream, session_closed, remote_reset,
}
use toppa.Mux.Target.{Target, append_target}
use toppa.Mux.Session.State.{Session, put_id, delete_id, stream, update, session_write_frame, frame}

-- A stream that is made and entered in the table under `id`; its address is the number of streams
-- made before.
unfoldable pub register : Session → ℕ → Target → Session
unfolding put_id new_stream
register s id target = record s {
  objs = s.objs ++ new_stream id target s.cfg.initial_window ∷ [];
  table = put_id id (length s.objs) s.table;
}

-- `removeStream`
unfoldable pub remove_stream : Session → ℕ → Session
unfolding delete_id
remove_stream s id = record s { table = delete_id id s.table }

-- `resetStream`
unfoldable pub reset_stream : Session → ℕ → Session
unfolding remove_stream stream update remote_reset
reset_stream s id = elim (stream s id) [
  | none ↦ remove_stream s id
  | some a ↦ update (remove_stream s id) a remote_reset
]

unfoldable pub opened : ℕ → ℕ → Session × Option Error → Session × Result Error ℕ
opened id a (s, none) = (s, ok a)
opened id a (s, some e) = (remove_stream s id, err e)

-- `Open`: the address of the new stream.
unfoldable pub open_stream : Session → Target → Session × Result Error ℕ
unfolding register session_write_frame opened
open_stream s target =
    let id = s.next_id in
    let s1 = record (register s id target) { next_id = (id + 2) % u32_mod } in
    if s.closed
    then (s, err err_session_closed)
    else opened id (length s.objs)
        (session_write_frame s1 (frame flag_syn id (append_target [] target)))

unfoldable pub ping_payload : Session → Bytes → Session × Option Error
unfolding session_write_frame
ping_payload s payload = session_write_frame s (frame flag_ping 0 payload)

pub data AcceptOutcome : Type 0 where
  waits closed_now : AcceptOutcome
  accepted : ℕ → AcceptOutcome

unfoldable pub accept_pending : Session → List ℕ → AcceptOutcome × Session
accept_pending s [] = (if s.done then closed_now else waits, s)
accept_pending s (a ∷ rest) = (accepted a, record s { accept_ch = rest })

-- `Accept`. Where a stream is pending and the session is done, the runtime may take either case: it
-- takes the second if `prefer_done`.
unfoldable pub accept : Session → Bool → AcceptOutcome × Session
unfolding accept_pending
accept s prefer_done =
    if prefer_done && s.done then (closed_now, s) else accept_pending s s.accept_ch

unfoldable pub close_at : Option Stream → ℕ → List Stream → List Stream
close_at none a objs = objs
close_at (some st) a objs = set objs a (session_closed st)

-- `for _, st := range s.streams { st.sessionClosed() }`
unfoldable pub close_all : List (ℕ × ℕ) → List Stream → List Stream
unfolding close_at session_closed
close_all [] objs = objs
close_all ((k, a) ∷ m) objs = close_all m (close_at (get_elem? objs a) a objs)

-- `closeWithError`: `failed_with` says that the cause is not nil. GOAWAY is sent as far as it can be.
unfoldable pub close_with_error : Session → Bool → Session
unfolding session_write_frame session_closed
close_with_error s failed_with =
    let reason = if failed_with then reason_protocol else reason_normal in
    let s1 = (session_write_frame s (frame flag_goaway 0 (reason ∷ []))).0 in
    if s.close_once then s else record s1 {
      close_once = true;
      closed = true;
      done = true;
      conn_closed = true;
      objs = close_all s1.table s1.objs;
      table = [];
    }

-- `Close`
abbrev pub close : Session → Session
close s = close_with_error s false

-- `Stream.Read` into `n` bytes; a returned credit is sent, and an error of that is dropped.
unfoldable pub return_credit : Session → ℕ → ReadOutcome → Session
unfolding session_write_frame
return_credit s id blocked = s
return_credit s id (failed e) = s
return_credit s id nothing = s
return_credit s id (got b credit) = (session_write_frame s (frame flag_win id (put_u32 credit))).0

unfoldable pub read : Session → ℕ → ℕ → Option (Session × ReadOutcome)
unfolding return_credit read_stream update
read s a n = elim (get_elem? s.objs a) [
  | none ↦ none
  | some st ↦ some (
    return_credit (update s a (λ st. (read_stream st n).0)) st.id (read_stream st n).1,
    (read_stream st n).1,
  )
]

-- How far `Stream.Write` came: `all` bytes written, the error that stopped it, or a wait for credit,
-- after which it goes on with the bytes that are left.
pub data Progress : Type 0 where
  all waiting crashed : Progress
  stopped : Error → Progress

unfoldable pub sent_chunk : ℕ → Session × Option Error → Session × ℕ × Progress
sent_chunk n (s, none) = (s, n, all)
sent_chunk n (s, some e) = (s, 0, stopped e)

unfoldable pub frame_chunk : Session → ℕ → Bytes → WriteOutcome → Session × ℕ × Progress
unfolding session_write_frame sent_chunk
frame_chunk s id p stalled = (s, 0, waiting)
frame_chunk s id p (refused e) = (s, 0, stopped e)
frame_chunk s id p panics = (s, 0, crashed)
frame_chunk s id p (chunk n) = sent_chunk n (session_write_frame s (frame flag_data id (take n p)))

-- One round of the loop of `Stream.Write` with the bytes `p` left: how many it wrote.
unfoldable pub write_round : Session → ℕ → Stream → Bytes → Session × ℕ × Progress
unfolding frame_chunk reserve update
write_round s a st p =
    let r = reserve st (length p) s.cfg.max_frame_payload in
    frame_chunk (update s a (λ _. r.0)) st.id p r.1

-- What follows a round: the next one, by `next_round`, or the return.
unfoldable pub after_round :
    (Session → ℕ → Bytes → Session × ℕ × Progress)
    → ℕ
    → Bytes
    → Session × ℕ × Progress
    → Session × ℕ × Progress
after_round next_round total p (s, n, all) = next_round s (total + n) (drop n p)
after_round next_round total p (s, n, waiting) = (s, total, waiting)
after_round next_round total p (s, n, crashed) = (s, total, crashed)
after_round next_round total p (s, n, stopped e) = (s, total, stopped e)

-- `Stream.Write` of the bytes `p`; `total` of them are written already. A round that goes on writes
-- at least one byte, so as many rounds as bytes are enough fuel.
unfoldable pub write_loop : ℕ → Session → ℕ → ℕ → Bytes → Session × ℕ × Progress
unfolding write_round after_round
write_loop fuel s a total [] = (s, total, all)
write_loop zero s a total (b ∷ p) = (s, total, crashed)
write_loop (suc fuel) s a total (b ∷ p) = elim (get_elem? s.objs a) [
  | none ↦ (s, total, crashed)
  | some st ↦
      after_round (λ s' t q. write_loop fuel s' a t q) total (b ∷ p) (write_round s a st (b ∷ p))
]

unfoldable pub write : Session → ℕ → Bytes → Session × ℕ × Progress
unfolding write_loop
write s a p = write_loop (length p) s a 0 p

-- `Stream.Close`
unfoldable pub send_fin : Session → ℕ → Option Bool → Session × Option Error
unfolding session_write_frame remove_stream
send_fin s id none = (s, none)
send_fin s id (some both) =
    session_write_frame (if both then remove_stream s id else s) (frame flag_fin id [])

unfoldable pub close_write : Session → ℕ → Option (Session × Option Error)
unfolding send_fin close_stream update
close_write s a = elim (get_elem? s.objs a) [
  | none ↦ none
  | some st ↦ some (send_fin (update s a (λ st. (close_stream st).0)) st.id (close_stream st).1)
]
