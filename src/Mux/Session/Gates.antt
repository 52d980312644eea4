-- ===== src/Mux/Session/Gates.antt =====
-- The flags by which a session is closed (session.go), which no handler of a frame changes.
use toppa.Base.{ℕ, ◌≡◌, refl, ◌∙◌, ◌⊎◌, inl, inr, Bool, true, Option, none, some, []}
use toppa.Base.Tests.{ltb, if◌then◌else◌, if_cases, if_split}
use toppa.Base.Lists.{length, get_elem?, set}
use toppa.Base.Results.{Result, ok, err}
use toppa.Base.Bytes.{be}
use toppa.Mux.Errors.{Error}
use toppa.Mux.Frame.{Frame, has}
use toppa.Mux.Stream.{Stream, push_data, remote_closed, add_send_window, remote_reset}
use toppa.Mux.Target.{Target, parse_target}
use toppa.Mux.Session.State.{Session, stream, update, session_write_frame}
use toppa.Mux.Session.Calls.{register, remove_stream, reset_stream, close_with_error}
use toppa.Mux.Session.Inbound.{
  abort_stream, offer, syn_for, handle_syn, pushed, data_for, fin_for, win_for, handle_frame,
}

pub record Gates : Type 0 where
  pub close_once : Bool
  pub closed : Bool
  pub done : Bool
  pub conn_closed : Bool

abbrev pub gates : Session → Gates
gates s = record {
  close_once = s.close_once;
  closed = s.closed;
  done = s.done;
  conn_closed = s.conn_closed;
}

-- The close has run, the session takes no more frames, its waiters are told, and its connection is closed.
abbrev pub AllShut : Gates → Type 0
AllShut g = (g.close_once ≡ true) × (g.closed ≡ true) × (g.done ≡ true) × (g.conn_closed ≡ true)

-- A session whose close has run has everything shut.
abbrev pub Settled : Gates → Type 0
Settled g = g.close_once ≡ true → AllShut g

-- A close of a settled session shuts everything, and the first one forgets the streams.
pub close_with_error-AllShut :
    (s : Session) (b : Bool)
    → Settled (gates s)
    → AllShut (gates (close_with_error s b))
      × ((s.close_once ≡ true) ⊎ ((close_with_error s b).table ≡ []))
unfolding close_with_error
close_with_error-AllShut s b h =
    if_split (λ (t : Session). AllShut (gates t) × ((s.close_once ≡ true) ⊎ (t.table ≡ [])))
      s.close_once (λ e. (h e, inl e)) (λ _. ((refl, refl, refl, refl), inr refl))

session_write_frame-gates : (s : Session) (f : Frame) → gates (session_write_frame s f).0 ≡ gates s
unfolding session_write_frame
session_write_frame-gates s f =
    if_cases (λ (r : Session × Option Error). gates r.0 ≡ gates s) s.closed refl refl

update-gates : (s : Session) (a : ℕ) (g : Stream → Stream) → gates (update s a g) ≡ gates s
unfolding update
update-gates s a g = by_stream (get_elem? s.objs a)
  where
    by_stream :
        (o : Option Stream)
        → gates (elim o as (λ _. Session) [
          | none ↦ s
          | some st ↦ record s { objs = set s.objs a (g st) }
        ])
          ≡ gates s
    by_stream none = refl
    by_stream (some st) = refl

reset_stream-gates : (s : Session) (id : ℕ) → gates (reset_stream s id) ≡ gates s
unfolding reset_stream remove_stream
reset_stream-gates s id = by_stream (stream s id)
  where
    by_stream :
        (o : Option ℕ)
        → gates (elim o as (λ _. Session) [
          | none ↦ remove_stream s id
          | some a ↦ update (remove_stream s id) a remote_reset
        ])
          ≡ gates s
    by_stream none = refl
    by_stream (some a) = update-gates (remove_stream s id) a remote_reset

abort_stream-gates : (s : Session) (id reason : ℕ) → gates (abort_stream s id reason) ≡ gates s
unfolding abort_stream
abort_stream-gates s id reason = session_write_frame-gates s _

offer-gates : (s : Session) (id a : ℕ) → gates (offer s id a) ≡ gates s
unfolding offer
offer-gates s id a =
    if_cases (λ t. gates t ≡ gates s) (ltb (length s.accept_ch) s.cfg.accept_queue_depth) refl
      (abort_stream-gates (reset_stream s id) id _ ∙ reset_stream-gates s id)

syn_for-gates :
    (s : Session) (id : ℕ) (t : Target) (o : Option ℕ) → gates (syn_for s id t o) ≡ gates s
unfolding syn_for register
syn_for-gates s id t (some a) = abort_stream-gates s id _
syn_for-gates s id t none = offer-gates (register s id t) id (length s.objs)

handle_syn-gates : (s : Session) (f : Frame) → gates (handle_syn s f) ≡ gates s
unfolding handle_syn
handle_syn-gates s f = by_target (parse_target f.payload)
  where
    by_target :
        (r : Result Error Target)
        → gates (elim r as (λ _. Session) [
          | err _ ↦ abort_stream s f.stream_id 1
          | ok target ↦ syn_for s f.stream_id target (stream s f.stream_id)
        ])
          ≡ gates s
    by_target (err e) = abort_stream-gates s f.stream_id 1
    by_target (ok t) = syn_for-gates s f.stream_id t (stream s f.stream_id)

pushed-gates : (s : Session) (a : ℕ) (r : Result Error Stream) → gates (pushed s a r).0 ≡ gates s
unfolding pushed
pushed-gates s a (err e) = refl
pushed-gates s a (ok st) = update-gates s a (λ _. st)

data_for-gates : (s : Session) (f : Frame) (o : Option ℕ) → gates (data_for s f o).0 ≡ gates s
unfolding data_for
data_for-gates s f none = abort_stream-gates s f.stream_id _
data_for-gates s f (some a) = by_stream (get_elem? s.objs a)
  where
    by_stream :
        (o : Option Stream)
        → gates
            (elim o as (λ _. Session × Option Error) [
              | none ↦ (s, none)
              | some st ↦ pushed s a (push_data st s.cfg.initial_window f.payload)
            ]).0
          ≡ gates s
    by_stream none = refl
    by_stream (some st) = pushed-gates s a _

fin_for-gates : (s : Session) (o : Option ℕ) → gates (fin_for s o) ≡ gates s
unfolding fin_for remove_stream
fin_for-gates s none = refl
fin_for-gates s (some a) = by_stream (get_elem? s.objs a)
  where
    s1 : Session
    s1 = update s a (λ st. (remote_closed st).0)

    same : gates s1 ≡ gates s
    same = update-gates s a (λ st. (remote_closed st).0)

    by_stream :
        (o : Option Stream)
        → gates (elim o as (λ _. Session) [
          | none ↦ s
          | some st ↦ if (remote_closed st).1 then remove_stream s1 st.id else s1
        ])
          ≡ gates s
    by_stream none = refl
    by_stream (some st) = if_cases (λ t. gates t ≡ gates s) (remote_closed st).1 same same

win_for-gates : (s : Session) (credit : ℕ) (o : Option ℕ) → gates (win_for s credit o) ≡ gates s
unfolding win_for
win_for-gates s credit none = refl
win_for-gates s credit (some a) = update-gates s a (λ st. add_send_window st credit)

pub handle_frame-gates : (s : Session) (f : Frame) → gates (handle_frame s f).0 ≡ gates s
unfolding handle_frame
handle_frame-gates s f =
    let P = λ (r : Session × Option Error). gates r.0 ≡ gates s in
    if_cases P (has f.flags 0x01) (handle_syn-gates s f) (
      if_cases P (has f.flags 0x10) (data_for-gates s f (stream s f.stream_id)) (
        if_cases P (has f.flags 0x02) (fin_for-gates s (stream s f.stream_id)) (
          if_cases P (has f.flags 0x04) (reset_stream-gates s f.stream_id) (
            if_cases P (has f.flags 0x08) (win_for-gates s (be f.payload) (stream s f.stream_id)) (
              if_cases P (has f.flags 0x20) (session_write_frame-gates s _)
                (if_cases P (has f.flags 0x40) refl (if_cases P (has f.flags 0x80) refl refl)))))))
