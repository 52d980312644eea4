-- ===== src/Mux/Session/Ending.antt =====
-- How a session ends (session.go): closing, fatal frames, and the end of the read loop.
use toppa.Base.{
  ℕ, zero, suc, ◌+◌, ◌<◌, ◌≡◌, refl, sym, ap, ◌∙◌, subst, ◌⊎◌, inl, inr, Bool, true, false, Option,
  none, some, [], arith,
}
use toppa.Base.Tests.{lt→ltb, if_true, if_split}
use toppa.Base.Lists.{length, get_elem?}
use toppa.Base.Results.{Result, ok, err}
use toppa.Base.Bytes.{Bytes}
use toppa.Mux.Errors.{Error, err_protocol}
use toppa.Mux.Frame.{Frame, has, read_frame}
use toppa.Mux.Frame.RoundTrip.{read_frame-shrinks}
use toppa.Mux.Stream.{Stream, push_data}
use toppa.Mux.Session.State.{Session, stream}
use toppa.Mux.Session.Calls.{close_with_error}
use toppa.Mux.Session.Gates.{
  Gates, gates, AllShut, Settled, close_with_error-AllShut, handle_frame-gates,
}
use toppa.Mux.Session.Inbound.{
  handle_frame, data_for, pushed, read_round, after_frame, after_read, read_loop,
}

pub close_with_error-close_once :
    (s : Session) (b : Bool) → (close_with_error s b).close_once ≡ true
unfolding close_with_error
close_with_error-close_once s b =
    if_split (λ (t : Session). t.close_once ≡ true) s.close_once (λ e. e) (λ _. refl)

close_with_error_again : (s : Session) (b : Bool) → s.close_once ≡ true → close_with_error s b ≡ s
unfolding close_with_error
close_with_error_again s b h = if_true s.close_once _ _ h

-- A second close changes nothing, whatever the causes of the two.
pub close_with_error_twice :
    (s : Session) (b c : Bool) → close_with_error (close_with_error s b) c ≡ close_with_error s b
close_with_error_twice s b c =
    close_with_error_again (close_with_error s b) c (close_with_error-close_once s b)

-- A DATA frame that would overfill the receive window is a protocol error and changes nothing.
data_overflow :
    (s : Session) (f : Frame) (a : ℕ) (st : Stream)
    → has f.flags 0x01 ≡ false
    → has f.flags 0x10 ≡ true
    → stream s f.stream_id ≡ some a
    → get_elem? s.objs a ≡ some st
    → s.cfg.initial_window < length st.buf + length f.payload
    → handle_frame s f ≡ (s, some err_protocol)
unfolding handle_frame
data_overflow s f a st no_syn dat at g over =
    rw (handle_frame, no_syn, dat, at, data_for, g, push_data)
      (rw (lt→ltb s.cfg.initial_window (length st.buf + length f.payload) over)
        (unfold pushed in refl))

-- A DATA frame that would exceed the window of its stream ends the session: when a frame that is
-- DATA and not SYN, names a live stream and overflows its buffer is next in the input, the round
-- of the read loop closes the session with a cause, which sends GOAWAY with the protocol reason,
-- and the loop returns.
pub overflow_is_fatal :
    (s : Session) (now : ℕ) (input rest : Bytes) (f : Frame) (a : ℕ) (st : Stream)
    → read_frame input s.cfg.max_frame_payload ≡ ok (f, rest)
    → has f.flags 0x01 ≡ false
    → has f.flags 0x10 ≡ true
    → stream s f.stream_id ≡ some a
    → get_elem? s.objs a ≡ some st
    → s.cfg.initial_window < length st.buf + length f.payload
    → read_round s now input ≡ (close_with_error (record s { last_recv = now }) true, none)
unfolding read_round after_read after_frame
overflow_is_fatal s now input rest f a st r no_syn dat at g over =
    rw (read_round, r)
      (ap (after_frame rest)
        (data_overflow (record s { last_recv = now }) f a st no_syn dat at g over))

-- A round of the read loop either ends it with everything shut, or has read a frame and opened or shut nothing.
abbrev EndsOr : Session → Bytes → Session × Option Bytes → Type 0
EndsOr s input r =
    ((r.1 ≡ none) × AllShut (gates r.0) × ((s.close_once ≡ true) ⊎ (r.0.table ≡ [])))
    ⊎ ((rest : Bytes) × (r.1 ≡ some rest) × (length rest < length input) × (gates r.0 ≡ gates s))

after_frame-EndsOr :
    (s : Session) (input rest : Bytes) (r : Session × Option Error)
    → Settled (gates s)
    → length rest < length input
    → gates r.0 ≡ gates s
    → EndsOr s input (after_frame rest r)
unfolding after_frame
after_frame-EndsOr s input rest (t, none) h lt same = inr (rest, refl, lt, same)
after_frame-EndsOr s input rest (t, some e) h lt same =
    let (shut, first) = close_with_error-AllShut t true (subst Settled (sym same) h) in
    inl (
      refl,
      shut,
      elim first [ inl c ↦ inl (sym (ap Gates.close_once same) ∙ c) | inr forgot ↦ inr forgot ],
    )

after_read-EndsOr :
    (s : Session) (now : ℕ) (input : Bytes) (r : Result Error (Frame × Bytes))
    → Settled (gates s)
    → read_frame input s.cfg.max_frame_payload ≡ r
    → EndsOr s input (after_read s now r)
unfolding after_read
after_read-EndsOr s now input (err e) h read =
    let (shut, first) = close_with_error-AllShut s true h in inl (refl, shut, first)
after_read-EndsOr s now input (ok (f, rest)) h read =
    after_frame-EndsOr s input rest (handle_frame (record s { last_recv = now }) f) h
      (omega (arith, read_frame-shrinks input s.cfg.max_frame_payload f rest read))
      (handle_frame-gates (record s { last_recv = now }) f)

round-EndsOr_shrinks :
    (s : Session) (now : ℕ) (input : Bytes)
    → Settled (gates s)
    → EndsOr s input (read_round s now input)
unfolding read_round
round-EndsOr_shrinks s now input h = after_read-EndsOr s now input _ h refl

-- With more rounds than bytes of input the read loop returns. If a session whose close has already run has everything shut, then
-- after the loop the close has run, the session refuses frames, it is done and its connection is closed; and where the
-- close had not run before the loop, no stream is left in the table.
pub read_loop_ends :
    (fuel : ℕ) (clock : ℕ → ℕ) (s : Session) (input : Bytes)
    → (s.close_once ≡ true → AllShut (gates s))
    → length input < fuel
    → ((read_loop fuel clock s input).1 ≡ true)
      × AllShut (gates (read_loop fuel clock s input).0)
      × ((s.close_once ≡ true) ⊎ ((read_loop fuel clock s input).0.table ≡ []))
unfolding read_loop
read_loop_ends zero clock s input settled h = absurd (omega arith)
read_loop_ends (suc fuel) clock s input settled h =
    elim (round-EndsOr_shrinks s (clock fuel) input settled) [
      | inl (e, shut, first) ↦ rw (e, read_loop) (refl, shut, first)
      | inr (rest, e, lt, same) ↦
          let later =
            read_loop_ends fuel clock (read_round s (clock fuel) input).0 rest
              (subst Settled (sym same) settled) (omega arith) in
          rw (e, read_loop)
            (
              later.0,
              later.1,
              elim later.2 [
                | inl c ↦ inl (sym (ap Gates.close_once same) ∙ c)
                | inr forgot ↦ inr forgot
              ],
            )
    ]
