-- ===== src/Mux/Session/CallsInv.antt =====
-- The calls of Mux/Session/Calls keep the invariant of a session.
use native.Mathlib.Nat.{le_trans}
use toppa.Base.{
  ◌&&◌, ℕ, zero, suc, ◌+◌, ◌%◌, ◌≤◌, ◌<◌, ◌≡◌, refl, sym, ap, ◌∙◌, subst, inl, inr, Bool, true,
  false, Option, none, some, List, [], ◌∷◌, arith,
}
use toppa.Base.Tests.{if◌then◌else◌, Option-cases, if_cases}
use toppa.Base.Lists.{
  length, get_elem?, set, drop, All, All-set, All-get_elem?, length-drop, length-set,
}
use toppa.Base.Results.{Result, some_eq, fst_eq}
use toppa.Base.Bytes.{Bytes, u32_mod}
use toppa.Mux.Errors.{Error}
use toppa.Mux.Stream.{
  Stream, read_stream, reserve, close_stream, session_closed, ReadOutcome, WriteOutcome, blocked,
  failed, got, nothing, stalled, refused, panics, chunk,
}
use toppa.Mux.Target.{Target}
use toppa.Mux.Session.State.{Session, update, session_write_frame, frame}
use toppa.Mux.Session.Calls.{
  register, remove_stream, open_stream, opened, accept, accept_pending, AcceptOutcome,
  close_with_error, close_all, close_at, read, return_credit, write_loop, write_round, after_round,
  Progress, all, waiting, crashed, stopped, frame_chunk, sent_chunk, close_write, send_fin,
}
use toppa.Mux.Session.Invariant.{
  Inv, session_write_frame-Inv, update-Inv, remove_stream-Inv, register-Inv,
}

pub buffer_bound :
    (s : Session) (a : ℕ) (st : Stream)
    → Inv s
    → get_elem? s.objs a ≡ some st
    → length st.buf ≤ s.cfg.initial_window
buffer_bound s a st v g =
    All-get_elem? (λ st. length st.buf ≤ s.cfg.initial_window) s.objs a st v.buffered g

opened-Inv : (id a : ℕ) (r : Session × Option Error) → Inv r.0 → Inv (opened id a r).0
unfolding opened
opened-Inv id a (s, none) v = v
opened-Inv id a (s, some e) v = remove_stream-Inv s id v

pub open_stream-Inv : (s : Session) (t : Target) → Inv s → Inv (open_stream s t).0
unfolding open_stream
open_stream-Inv s t v =
    let s1 = record (register s s.next_id t) { next_id = (s.next_id + 2) % u32_mod } in
    let v1 = register-Inv s s.next_id t v in
    if_cases (λ (r : Session × Result Error ℕ). Inv r.0) s.closed v
      (opened-Inv s.next_id (length s.objs) (session_write_frame s1 _) (
        session_write_frame-Inv s1 _ (record {
          buffered = v1.buffered;
          distinct = v1.distinct;
          named = v1.named;
          queue = v1.queue;
          queued = v1.queued;
          parity = omega (arith, v1.parity);
          id_u32 = omega arith;
        })))

pub accept-Inv : (s : Session) (b : Bool) → Inv s → Inv (accept s b).1
unfolding accept accept_pending
accept-Inv s b v =
    if_cases (λ (r : AcceptOutcome × Session). Inv r.1) (b && s.done) v (pending s.accept_ch refl)
  where
    pending : (q : List ℕ) → s.accept_ch ≡ q → Inv (accept_pending s q).1
    pending [] e = v
    pending (a ∷ rest) e = record {
      buffered = v.buffered;
      distinct = v.distinct;
      named = v.named;
      queue = omega (arith, v.queue, ap length e);
      queued = (subst (All (λ a. a < length s.objs)) e v.queued).1;
      parity = v.parity;
      id_u32 = v.id_u32;
    }

-- Closing changes no buffer and no id, and drops the table.
close_all-buffered :
    (w : ℕ) (m : List (ℕ × ℕ)) (objs : List Stream)
    → All (λ st. length st.buf ≤ w) objs
    → All (λ st. length st.buf ≤ w) (close_all m objs) × (length (close_all m objs) ≡ length objs)
unfolding close_all close_at session_closed
close_all-buffered w [] objs h = (h, refl)
close_all-buffered w ((k, a) ∷ m) objs h = elim (Option-cases (get_elem? objs a)) [
  | inl e ↦ rw (e, close_all) (close_all-buffered w m objs h)
  | inr (st, e) ↦
      let st' = session_closed st in
      let ih = close_all-buffered w m (set objs a st') (
        All-set (λ st. length st.buf ≤ w) objs a st'
          (All-get_elem? (λ st. length st.buf ≤ w) objs a st h e) h) in
      rw (e, close_all) (ih.0, ih.1 ∙ length-set objs a st')
]

pub close_with_error-Inv : (s : Session) (b : Bool) → Inv s → Inv (close_with_error s b)
unfolding close_with_error
close_with_error-Inv s b v =
    let reason = if b then 1 else 0 in
    let s1 = (session_write_frame s (frame 0x80 0 (reason ∷ []))).0 in
    let v1 = session_write_frame-Inv s (frame 0x80 0 (reason ∷ [])) v in
    let (buffered, len) = close_all-buffered s1.cfg.initial_window s1.table s1.objs v1.buffered in
    if_cases Inv s.close_once v (record {
      buffered = buffered;
      distinct = tt;
      named = tt;
      queue = v1.queue;
      queued = rw len v1.queued;
      parity = v1.parity;
      id_u32 = v1.id_u32;
    })

return_credit-Inv : (s : Session) (id : ℕ) (o : ReadOutcome) → Inv s → Inv (return_credit s id o)
unfolding return_credit
return_credit-Inv s id blocked v = v
return_credit-Inv s id (failed e) v = v
return_credit-Inv s id nothing v = v
return_credit-Inv s id (got b c) v = session_write_frame-Inv s _ v

read_stream-keeps :
    (st : Stream) (n : ℕ)
    → ((read_stream st n).0.id ≡ st.id) × (length (read_stream st n).0.buf ≤ length st.buf)
unfolding read_stream
read_stream-keeps st n = ground (arith, length-drop n st.buf)

pub read-Inv :
    (s s' : Session) (a n : ℕ) (o : ReadOutcome) → read s a n ≡ some (s', o) → Inv s → Inv s'
unfolding read
read-Inv s s' a n o e v = elim (Option-cases (get_elem? s.objs a)) [
  | inl g ↦ absurd (let q = rw (g, read) at e in cc)
  | inr (st, g) ↦
      let q = rw (g, read) at e in
      subst Inv (fst_eq (some_eq q)) (
        return_credit-Inv _ st.id (read_stream st n).1 (
          update-Inv s a (λ st. (read_stream st n).0)
            (λ st' g'. (
              (read_stream-keeps st' n).0,
              le_trans (read_stream-keeps st' n).1 (buffer_bound s a st' v g'),
            ))
            v))
]

frame_chunk-Inv :
    (s : Session) (id : ℕ) (p : Bytes) (o : WriteOutcome) → Inv s → Inv (frame_chunk s id p o).0
unfolding frame_chunk sent_chunk
frame_chunk-Inv s id p stalled v = v
frame_chunk-Inv s id p (refused e) v = v
frame_chunk-Inv s id p panics v = v
frame_chunk-Inv s id p (chunk n) v = after _ (session_write_frame-Inv s _ v)
  where
    after : (r : Session × Option Error) → Inv r.0 → Inv (sent_chunk n r).0
    after (s', none) w = w
    after (s', some e) w = w

reserve-keeps :
    (st : Stream) (left cap : ℕ)
    → ((reserve st left cap).0.id ≡ st.id) × ((reserve st left cap).0.buf ≡ st.buf)
unfolding reserve
reserve-keeps st left cap = ground arith

write_round-Inv :
    (s : Session) (a : ℕ) (st : Stream) (p : Bytes)
    → get_elem? s.objs a ≡ some st
    → Inv s
    → Inv (write_round s a st p).0
unfolding write_round
write_round-Inv s a st p g v =
    let r = reserve st (length p) s.cfg.max_frame_payload in
    let (same_id, same_buf) = reserve-keeps st (length p) s.cfg.max_frame_payload in
    frame_chunk-Inv _ st.id p r.1 (
      update-Inv s a (λ _. r.0)
        (λ st' g'.
          let same : st ≡ st' = some_eq (sym g ∙ g') in
          (same_id ∙ ap Stream.id same, rw same_buf (buffer_bound s a st v g)))
        v)

after_round-Inv :
    (k : Session → ℕ → Bytes → Session × ℕ × Progress) (total : ℕ) (p : Bytes)
    (r : Session × ℕ × Progress)
    → ((s : Session) (t : ℕ) (q : Bytes) → Inv s → Inv (k s t q).0)
    → Inv r.0
    → Inv (after_round k total p r).0
unfolding after_round
after_round-Inv k total p (s, n, all) ih v = ih s (total + n) (drop n p) v
after_round-Inv k total p (s, n, waiting) ih v = v
after_round-Inv k total p (s, n, crashed) ih v = v
after_round-Inv k total p (s, n, stopped e) ih v = v

pub write_loop-Inv :
    (fuel : ℕ) (s : Session) (a total : ℕ) (p : Bytes) → Inv s → Inv (write_loop fuel s a total p).0
unfolding write_loop
write_loop-Inv fuel s a total [] v = v
write_loop-Inv zero s a total (b ∷ p) v = v
write_loop-Inv (suc fuel) s a total (b ∷ p) v =
    by_stream (λ s' t q. write_loop-Inv fuel s' a t q) (get_elem? s.objs a) refl
  where
    k : Session → ℕ → Bytes → Session × ℕ × Progress
    k s' t q = write_loop fuel s' a t q

    by_stream :
        ((s' : Session) (t : ℕ) (q : Bytes) → Inv s' → Inv (k s' t q).0)
        → (o : Option Stream) → get_elem? s.objs a ≡ o
        → Inv
            (elim o as (λ _. Session × ℕ × Progress) [
              | none ↦ (s, total, crashed)
              | some st ↦ after_round k total (b ∷ p) (write_round s a st (b ∷ p))
            ]).0
    by_stream ih none g = v
    by_stream ih (some st) g =
        after_round-Inv k total (b ∷ p) (write_round s a st (b ∷ p)) ih
          (write_round-Inv s a st (b ∷ p) g v)

send_fin-Inv : (s : Session) (id : ℕ) (o : Option Bool) → Inv s → Inv (send_fin s id o).0
unfolding send_fin
send_fin-Inv s id none v = v
send_fin-Inv s id (some true) v =
    session_write_frame-Inv (remove_stream s id) _ (remove_stream-Inv s id v)
send_fin-Inv s id (some false) v = session_write_frame-Inv s _ v

close_stream-keeps :
    (st : Stream) → ((close_stream st).0.id ≡ st.id) × ((close_stream st).0.buf ≡ st.buf)
unfolding close_stream
close_stream-keeps st = ground arith

pub close_write-Inv :
    (s s' : Session) (a : ℕ) (e : Option Error) → close_write s a ≡ some (s', e) → Inv s → Inv s'
unfolding close_write
close_write-Inv s s' a e h v = by_stream (get_elem? s.objs a) refl h
  where
    by_stream :
        (o : Option Stream)
        → get_elem? s.objs a ≡ o
        → (elim o as (λ _. Option (Session × Option Error)) [
          | none ↦ none
          | some st ↦
              some (send_fin (update s a (λ st. (close_stream st).0)) st.id (close_stream st).1)
        ])
          ≡ some (s', e)
        → Inv s'
    by_stream none g q = cc
    by_stream (some st) g q = subst Inv (fst_eq (some_eq q)) (
        send_fin-Inv _ st.id (close_stream st).1 (
          update-Inv s a (λ st. (close_stream st).0)
            (λ st' g'. (
              (close_stream-keeps st').0,
              rw ((close_stream-keeps st').1) (buffer_bound s a st' v g'),
            ))
            v))
