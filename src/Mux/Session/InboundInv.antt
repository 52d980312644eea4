-- ===== src/Mux/Session/InboundInv.antt =====
-- The receive side of Mux/Session/Inbound keeps the invariant of a session.
use toppa.Base.{
  ℕ, ◌-◌, ◌≤◌, ◌<◌, ◌≡◌, refl, sym, ap, ◌∙◌, inl, inr, Bool, true, Option, none, some, [], ◌∷◌,
  arith,
}
use toppa.Base.Tests.{ltb, ltb→lt, if◌then◌else◌, Bool-cases, if_cases}
use toppa.Base.Lists.{length, get_elem?, All-append, length-append}
use toppa.Base.Results.{Result, ok, err, some_eq}
use toppa.Base.Bytes.{Bytes, be}
use toppa.Mux.Errors.{Error}
use toppa.Mux.Frame.{Frame, has, read_frame}
use toppa.Mux.Stream.{Stream, push_data, remote_closed, add_send_window, new_stream}
use toppa.Mux.Target.{Target, parse_target}
use toppa.Mux.Session.State.{Session, stream, update, session_write_frame, frame}
use toppa.Mux.Session.Calls.{register, remove_stream, reset_stream}
use toppa.Mux.Session.Inbound.{
  abort_stream, offer, syn_for, handle_syn, pushed, data_for, fin_for, win_for, handle_frame,
  read_round, after_read, after_frame, keep_alive_round, after_ping,
}
use toppa.Mux.Session.Invariant.{
  Inv, session_write_frame-Inv, update-Inv, remove_stream-Inv, register-Inv, reset_stream-Inv,
}
use toppa.Mux.Session.CallsInv.{buffer_bound, close_with_error-Inv}

abort_stream-Inv : (s : Session) (id reason : ℕ) → Inv s → Inv (abort_stream s id reason)
unfolding abort_stream
abort_stream-Inv s id reason v = session_write_frame-Inv s _ v

offer-Inv : (s : Session) (id a : ℕ) → a < length s.objs → Inv s → Inv (offer s id a)
unfolding offer
offer-Inv s id a lt v = elim (Bool-cases (ltb (length s.accept_ch) s.cfg.accept_queue_depth)) [
  | inl e ↦
      rw (e, offer)
        (record {
          buffered = v.buffered;
          distinct = v.distinct;
          named = v.named;
          queue = omega (arith, ltb→lt _ _ e, length-append s.accept_ch (a ∷ []));
          queued = All-append (λ a. a < length s.objs) s.accept_ch (a ∷ []) v.queued (lt, tt);
          parity = v.parity;
          id_u32 = v.id_u32;
        })
  | inr e ↦ rw (e, offer) (abort_stream-Inv (reset_stream s id) id _ (reset_stream-Inv s id v))
]

syn_for-Inv : (s : Session) (id : ℕ) (t : Target) (o : Option ℕ) → Inv s → Inv (syn_for s id t o)
unfolding syn_for
syn_for-Inv s id t (some a) v = abort_stream-Inv s id _ v
syn_for-Inv s id t none v =
    offer-Inv (register s id t) id (length s.objs)
      (unfold register in
        omega (arith, length-append s.objs (new_stream id t s.cfg.initial_window ∷ [])))
      (register-Inv s id t v)

handle_syn-Inv : (s : Session) (f : Frame) → Inv s → Inv (handle_syn s f)
unfolding handle_syn
handle_syn-Inv s f v = by_target (parse_target f.payload)
  where
    by_target :
        (r : Result Error Target)
        → Inv (elim r as (λ _. Session) [
          | err _ ↦ abort_stream s f.stream_id 1
          | ok target ↦ syn_for s f.stream_id target (stream s f.stream_id)
        ])
    by_target (err e) = abort_stream-Inv s f.stream_id 1 v
    by_target (ok t) = syn_for-Inv s f.stream_id t (stream s f.stream_id) v

push_data-keeps :
    (st st' : Stream) (w : ℕ) (b : Bytes)
    → push_data st w b ≡ ok st'
    → (st'.id ≡ st.id) × (length st'.buf ≤ w)
unfolding push_data
push_data-keeps st st' w b e = ground (arith, e, length-append st.buf b)

pushed-Inv :
    (s : Session) (a : ℕ) (st : Stream) (b : Bytes) (r : Result Error Stream)
    → get_elem? s.objs a ≡ some st
    → push_data st s.cfg.initial_window b ≡ r
    → Inv s
    → Inv (pushed s a r).0
unfolding pushed
pushed-Inv s a st b (err e) g h v = v
pushed-Inv s a st b (ok st') g h v =
    let (same, fits) = push_data-keeps st st' s.cfg.initial_window b h in
    update-Inv s a (λ _. st') (λ x gx. (same ∙ ap Stream.id (some_eq (sym g ∙ gx)), fits)) v

data_for-Inv : (s : Session) (f : Frame) (o : Option ℕ) → Inv s → Inv (data_for s f o).0
unfolding data_for
data_for-Inv s f none v = abort_stream-Inv s f.stream_id _ v
data_for-Inv s f (some a) v = by_stream (get_elem? s.objs a) refl
  where
    by_stream :
        (o : Option Stream)
        → get_elem? s.objs a ≡ o
        → Inv
            (elim o as (λ _. Session × Option Error) [
              | none ↦ (s, none)
              | some st ↦ pushed s a (push_data st s.cfg.initial_window f.payload)
            ]).0
    by_stream none g = v
    by_stream (some st) g = pushed-Inv s a st f.payload _ g refl v

fin_for-Inv : (s : Session) (o : Option ℕ) → Inv s → Inv (fin_for s o)
unfolding fin_for
fin_for-Inv s none v = v
fin_for-Inv s (some a) v = by_stream (get_elem? s.objs a)
  where
    s1 : Session
    s1 = update s a (λ st. (remote_closed st).0)

    v1 : Inv s1
    v1 =
        update-Inv s a (λ st. (remote_closed st).0)
          (λ st g. (unfold remote_closed in refl, unfold remote_closed in buffer_bound s a st v g))
          v

    by_stream :
        (o : Option Stream)
        → Inv (elim o as (λ _. Session) [
          | none ↦ s
          | some st ↦ if (remote_closed st).1 then remove_stream s1 st.id else s1
        ])
    by_stream none = v
    by_stream (some st) = if_cases Inv (remote_closed st).1 (remove_stream-Inv s1 st.id v1) v1

win_for-Inv : (s : Session) (credit : ℕ) (o : Option ℕ) → Inv s → Inv (win_for s credit o)
unfolding win_for
win_for-Inv s credit none v = v
win_for-Inv s credit (some a) v =
    update-Inv s a (λ st. add_send_window st credit)
      (λ st g. (unfold add_send_window in refl, unfold add_send_window in buffer_bound s a st v g))
      v

handle_frame-Inv : (s : Session) (f : Frame) → Inv s → Inv (handle_frame s f).0
unfolding handle_frame
handle_frame-Inv s f v =
    let P = λ (r : Session × Option Error). Inv r.0 in
    if_cases P (has f.flags 0x01) (handle_syn-Inv s f v) (
      if_cases P (has f.flags 0x10) (data_for-Inv s f (stream s f.stream_id) v) (
        if_cases P (has f.flags 0x02) (fin_for-Inv s (stream s f.stream_id) v) (
          if_cases P (has f.flags 0x04) (reset_stream-Inv s f.stream_id v) (
            if_cases P (has f.flags 0x08) (win_for-Inv s (be f.payload) (stream s f.stream_id) v) (
              if_cases P (has f.flags 0x20) (session_write_frame-Inv s _ v)
                (if_cases P (has f.flags 0x40) v (if_cases P (has f.flags 0x80) v v)))))))

after_frame-Inv : (rest : Bytes) (r : Session × Option Error) → Inv r.0 → Inv (after_frame rest r).0
unfolding after_frame
after_frame-Inv rest (s, none) v = v
after_frame-Inv rest (s, some e) v = close_with_error-Inv s true v

after_read-Inv :
    (s : Session) (now : ℕ) (r : Result Error (Frame × Bytes)) → Inv s → Inv (after_read s now r).0
unfolding after_read
after_read-Inv s now (err e) v = close_with_error-Inv s true v
after_read-Inv s now (ok (f, rest)) v =
    after_frame-Inv rest (handle_frame (record s { last_recv = now }) f)
      (handle_frame-Inv (record s { last_recv = now }) f v)

pub read_round-Inv :
    (s : Session) (now : ℕ) (input : Bytes) → Inv s → Inv (read_round s now input).0
unfolding read_round
read_round-Inv s now input v = after_read-Inv s now (read_frame input s.cfg.max_frame_payload) v

after_ping-Inv : (r : Session × Option Error) → Inv r.0 → Inv (after_ping r).0
unfolding after_ping
after_ping-Inv (s, none) v = v
after_ping-Inv (s, some e) v = close_with_error-Inv s true v

pub keep_alive_round-Inv :
    (s : Session) (now : ℕ) (nonce : Bytes) → Inv s → Inv (keep_alive_round s now nonce).0
unfolding keep_alive_round
keep_alive_round-Inv s now nonce v =
    let P = λ (r : Session × Bool). Inv r.0 in
    if_cases P s.done v (
      if_cases P (ltb s.cfg.ping_timeout (now - s.last_recv)) (close_with_error-Inv s true v) (
        after_ping-Inv (session_write_frame s (frame 0x20 0 nonce))
          (session_write_frame-Inv s _ v)))
