-- ===== src/Mux/Session/Inbound.antt =====
-- The receive side of a session (session.go): the handlers of the frame kinds, the loop that reads
-- frames, and the rounds of the keepalive loop.
use toppa.Base.{ℕ, zero, suc, ◌-◌, Bool, true, false, Option, none, some, [], ◌∷◌, ◌++◌}
use toppa.Base.Tests.{ltb, if◌then◌else◌}
use toppa.Base.Lists.{length, get_elem?}
use toppa.Base.Results.{Result, ok, err}
use toppa.Base.Bytes.{Bytes, be}
use toppa.Mux.Errors.{Error, err_session_closed, err_protocol}
use toppa.Mux.Frame.{
  Frame, has, read_frame, flag_syn, flag_fin, flag_rst, flag_win, flag_data, flag_ping, flag_pong,
  flag_goaway, reason_protocol, reason_busy, reason_dup_stream,
}
use toppa.Mux.Stream.{Stream, push_data, remote_closed, add_send_window}
use toppa.Mux.Target.{Target, parse_target}
use toppa.Mux.Session.State.{Session, stream, update, session_write_frame, frame}
use toppa.Mux.Session.Calls.{register, remove_stream, reset_stream, close_with_error}

-- `abortStream`
unfoldable pub abort_stream : Session → ℕ → ℕ → Session
unfolding session_write_frame
abort_stream s id reason = (session_write_frame s (frame flag_rst id (reason ∷ []))).0

-- The new stream is offered to the accept queue, and refused where the queue is full.
unfoldable pub offer : Session → ℕ → ℕ → Session
unfolding abort_stream reset_stream
offer s id a =
    if ltb (length s.accept_ch) s.cfg.accept_queue_depth
    then record s { accept_ch = s.accept_ch ++ a ∷ [] }
    else abort_stream (reset_stream s id) id reason_busy

unfoldable pub syn_for : Session → ℕ → Target → Option ℕ → Session
unfolding offer register abort_stream
syn_for s id target (some _) = abort_stream s id reason_dup_stream
syn_for s id target none = offer (register s id target) id (length s.objs)

-- `handleSYN`, which returns no error.
unfoldable pub handle_syn : Session → Frame → Session
unfolding syn_for abort_stream stream
handle_syn s f = elim (parse_target f.payload) [
  | err _ ↦ abort_stream s f.stream_id reason_protocol
  | ok target ↦ syn_for s f.stream_id target (stream s f.stream_id)
]

unfoldable pub pushed : Session → ℕ → Result Error Stream → Session × Option Error
unfolding update
pushed s a (err e) = (s, some e)
pushed s a (ok st) = (update s a (λ _. st), none)

-- The DATA case of `handleFrame`; a table entry always has its stream.
unfoldable pub data_for : Session → Frame → Option ℕ → Session × Option Error
unfolding pushed abort_stream push_data
data_for s f none = (abort_stream s f.stream_id reason_busy, none)
data_for s f (some a) = elim (get_elem? s.objs a) [
  | none ↦ (s, none)
  | some st ↦ pushed s a (push_data st s.cfg.initial_window f.payload)
]

-- The FIN case: `remoteClosed` retires the stream if both ends have closed.
unfoldable pub fin_for : Session → Option ℕ → Session
unfolding update remote_closed remove_stream
fin_for s none = s
fin_for s (some a) = elim (get_elem? s.objs a) [
  | none ↦ s
  | some st ↦
      let s1 = update s a (λ st. (remote_closed st).0) in
      if (remote_closed st).1 then remove_stream s1 st.id else s1
]

-- The WIN case.
unfoldable pub win_for : Session → ℕ → Option ℕ → Session
unfolding update add_send_window
win_for s credit none = s
win_for s credit (some a) = update s a (λ st. add_send_window st credit)

-- `handleFrame`. A SYN may carry other flags than DATA, and a DATA frame any others: the first case
-- that fits is the only one.
unfoldable pub handle_frame : Session → Frame → Session × Option Error
unfolding handle_syn data_for fin_for win_for reset_stream session_write_frame stream
handle_frame s f =
    if has f.flags flag_syn
    then (handle_syn s f, none)
    else if has f.flags flag_data
    then data_for s f (stream s f.stream_id)
    else if has f.flags flag_fin
    then (fin_for s (stream s f.stream_id), none)
    else if has f.flags flag_rst
    then (reset_stream s f.stream_id, none)
    else if has f.flags flag_win
    then (win_for s (be f.payload) (stream s f.stream_id), none)
    else if has f.flags flag_ping
    then session_write_frame s (frame flag_pong 0 f.payload)
    else if has f.flags flag_pong
    then (s, none)
    else if has f.flags flag_goaway
    then (s, some err_session_closed)
    else (s, some err_protocol)

-- One round of `readLoop` at time `now`: `none` says that the loop has returned and the deferred
-- close has run; or else the bytes that are left. A failed read closes for `io.EOF`.
unfoldable pub after_frame : Bytes → Session × Option Error → Session × Option Bytes
unfolding close_with_error
after_frame rest (s, none) = (s, some rest)
after_frame rest (s, some e) = (close_with_error s true, none)

unfoldable pub after_read : Session → ℕ → Result Error (Frame × Bytes) → Session × Option Bytes
unfolding after_frame handle_frame close_with_error
after_read s now (err e) = (close_with_error s true, none)
after_read s now (ok (f, rest)) = after_frame rest (handle_frame (record s { last_recv = now }) f)

unfoldable pub read_round : Session → ℕ → Bytes → Session × Option Bytes
unfolding after_read
read_round s now input = after_read s now (read_frame input s.cfg.max_frame_payload)

-- `readLoop` over all the bytes that the connection yields before its end; `clock k` is the time at
-- which the k-th frame has come. A frame has ten bytes or more, so more rounds than bytes suffice.
-- The flag says that the loop returned.
unfoldable pub read_loop : ℕ → (ℕ → ℕ) → Session → Bytes → Session × Bool
unfolding read_round
read_loop zero clock s input = (s, false)
read_loop (suc fuel) clock s input =
    let r = read_round s (clock fuel) input in
    elim r.1 [ none ↦ (r.0, true) | some rest ↦ read_loop fuel clock r.0 rest ]

unfoldable pub after_ping : Session × Option Error → Session × Bool
unfolding close_with_error
after_ping (s, none) = (s, true)
after_ping (s, some e) = (close_with_error s true, false)

-- One tick of `keepAliveLoop` at time `now`: the new session, and whether the loop goes on. `nonce` is
-- the eight bytes of the time.
unfoldable pub keep_alive_round : Session → ℕ → Bytes → Session × Bool
unfolding after_ping close_with_error session_write_frame
keep_alive_round s now nonce =
    if s.done
    then (s, false)
    else if ltb s.cfg.ping_timeout (now - s.last_recv)
    then (close_with_error s true, false)
    else after_ping (session_write_frame s (frame flag_ping 0 nonce))
