-- ===== src/Mux/Session/Peers.antt =====
-- What a session does about streams (session.go, stream.go): opening, refusing, writing.
use toppa.Base.{ℕ, ◌+◌, ◌%◌, ◌≡◌, ◌≢◌, refl, sym, ap, ◌∙◌, Option, none, some, [], ◌∷◌, arith}
use toppa.Base.Tests.{==_refl, if_split}
use toppa.Base.Lists.{length}
use toppa.Base.Results.{Result, ok, fst_eq, snd_eq}
use toppa.Base.Bytes.{u32_mod}
use toppa.Mux.Errors.{Error}
use toppa.Mux.Frame.{Frame}
use toppa.Mux.Stream.{Stream, reserve, close_stream}
use toppa.Mux.Target.{Target, parse_target, append_target}
use toppa.Mux.Session.State.{Session, stream, session_write_frame, frame, find_id}
use toppa.Mux.Session.Table.{find_id-put_id}
use toppa.Mux.Session.Calls.{register, open_stream, opened}
use toppa.Mux.Session.Inbound.{handle_syn, syn_for, abort_stream}

-- A SYN with a well-formed target, for an id that is live, changes nothing but the connection, on
-- which RST with the reason for a duplicate goes out.
pub duplicate_syn :
    (s : Session) (f : Frame) (t : Target) (a : ℕ)
    → parse_target f.payload ≡ ok t
    → stream s f.stream_id ≡ some a
    → handle_syn s f ≡ (session_write_frame s (frame 0x04 f.stream_id (2 ∷ []))).0
unfolding handle_syn syn_for abort_stream
duplicate_syn s f t a p live = rw (handle_syn, p, live, syn_for) refl

pub session_write_frame-keeps :
    (s : Session) (f : Frame)
    → ((session_write_frame s f).0.table ≡ s.table)
      × ((session_write_frame s f).0.next_id ≡ s.next_id)
      × ((session_write_frame s f).0.objs ≡ s.objs)
      × ((session_write_frame s f).0.cfg ≡ s.cfg)
unfolding session_write_frame
session_write_frame-keeps s f =
    if_split
      (λ (r : Session × Option Error).
        (r.0.table ≡ s.table) × (r.0.next_id ≡ s.next_id) × (r.0.objs ≡ s.objs) × (r.0.cfg ≡ s.cfg))
      s.closed (λ _. (refl, refl, refl, refl)) (λ _. (refl, refl, refl, refl))

opened-ok :
    (id b a : ℕ) (r : Session × Option Error) (s' : Session)
    → opened id b r ≡ (s', ok a)
    → (r.0 ≡ s') × (b ≡ a)
unfolding opened
opened-ok id b a (s, none) s' h = (fst_eq h, ground (arith, snd_eq h))
opened-ok id b a (s, some e) s' h = absurd (ground (arith, snd_eq h))

-- An opening call that succeeds takes the next id, also where the table has a live stream of that
-- id (which a peer can bring about by a SYN of the wrong parity): the table then holds the new
-- stream in its place, and the next id is two further, in 32 bits.
pub open_stream_replaces :
    (s s' : Session) (t : Target) (a : ℕ)
    → open_stream s t ≡ (s', ok a)
    → (a ≡ length s.objs)
      × (stream s' s.next_id ≡ some a)
      × (s'.next_id ≡ (s.next_id + 2) % u32_mod)
unfolding open_stream stream find_id
open_stream_replaces s s' t a =
    let s1 = record (register s s.next_id t) { next_id = (s.next_id + 2) % u32_mod } in
    let f = frame 0x01 s.next_id (append_target [] t) in
    let (table, next_id, _, _) = session_write_frame-keeps s1 f in
    if_split
      (λ (r : Session × Result Error ℕ).
        r ≡ (s', ok a)
        → (a ≡ length s.objs)
          × (stream s' s.next_id ≡ some a)
          × (s'.next_id ≡ (s.next_id + 2) % u32_mod))
      s.closed (λ _ h. absurd (ground (arith, snd_eq h)))
      (λ _ h.
        let (end, addr) = opened-ok s.next_id (length s.objs) a (session_write_frame s1 f) s' h in
        (
          sym addr,
          ap (λ (x : Session). find_id s.next_id x.table) (sym end)
              ∙ rw table (
                  find_id-put_id s.next_id s.next_id (length s.objs) s.table
                  ∙ rw (==_refl s.next_id, addr)),
          ap Session.next_id (sym end) ∙ next_id,
        ))

-- `Close` does not stop `Write` while there is credit: the next round frames the same chunk of data as
-- on the stream that was not closed, behind the FIN that the close has sent.
pub write_after_close :
    (st : Stream) (left cap : ℕ)
    → st.send_win ≢ 0
    → (reserve (close_stream st).0 left cap).1 ≡ (reserve st left cap).1
unfolding reserve close_stream
write_after_close st left cap h = ground (arith, h)
