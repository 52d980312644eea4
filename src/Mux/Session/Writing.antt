-- ===== src/Mux/Session/Writing.antt =====
-- `Stream.Write` of stream.go to its end: every round that goes on writes something, so the loop
-- returns, blocks for credit or fails.
use toppa.Base.{
  ℕ, zero, suc, ◌+◌, ◌^◌, ◌≤◌, ◌<◌, ◌≡◌, ◌≢◌, refl, sym, ap, ◌∙◌, Option, none, some, List, [], ◌∷◌,
  arith,
}
use toppa.Base.Lists.{length, get_elem?, set, take, drop, length-drop, get_elem?-set_self}
use toppa.Base.Results.{fst_eq}
use toppa.Base.Bytes.{Bytes}
use toppa.Mux.Errors.{Error}
use toppa.Mux.Frame.{Frame}
use toppa.Mux.Stream.{Stream, reserve, chunk, stalled, refused, panics, WriteOutcome}
use toppa.Mux.Stream.Sending.{reserve-chunk_pos, chunk_size_lem, reserve-chunk}
use toppa.Mux.Session.State.{Config, Session, session_write_frame, frame, update}
use toppa.Mux.Session.Table.{get_elem?-lt}
use toppa.Mux.Session.Calls.{
  write, write_loop, write_round, after_round, frame_chunk, sent_chunk, Progress, all, waiting,
  crashed, stopped,
}
use toppa.Mux.Session.Peers.{session_write_frame-keeps}

-- A stream of the store with a window that is not negative, in a session whose frames carry data.
abbrev pub Writable : Session → ℕ → Type 0
Writable s a =
    ((st : Stream) × (get_elem? s.objs a ≡ some st) × (st.send_win < 2 ^ 63))
    × (0 < s.cfg.max_frame_payload)
    × (s.cfg.max_frame_payload < 2 ^ 63)

frame_chunk-all :
    (s s' : Session) (id n : ℕ) (p : Bytes) (o : WriteOutcome)
    → frame_chunk s id p o ≡ (s', n, all)
    → (o ≡ chunk n) × (s'.objs ≡ s.objs) × (s'.cfg ≡ s.cfg)
unfolding frame_chunk sent_chunk
frame_chunk-all s s' id n p stalled h = absurd (ground (arith, h))
frame_chunk-all s s' id n p (refused e) h = absurd (ground (arith, h))
frame_chunk-all s s' id n p panics h = absurd (ground (arith, h))
frame_chunk-all s s' id n p (chunk m) h = after (session_write_frame s f) refl h
  where
    f : Frame
    f = frame 0x10 id (take m p)

    after :
        (r : Session × Option Error)
        → session_write_frame s f ≡ r
        → sent_chunk m r ≡ (s', n, all)
        → (chunk m ≡ chunk n) × (s'.objs ≡ s.objs) × (s'.cfg ≡ s.cfg)
    after (t, none) q g =
        let (_, _, objs, cfg) = session_write_frame-keeps s f in
        let back : s' ≡ t = λ i. (sym g i).0 in
        let same : t ≡ (session_write_frame s f).0 = fst_eq (sym q) in
        (
          ap chunk (λ i. (g i).1),
          ap Session.objs (back ∙ same) ∙ objs,
          ap Session.cfg (back ∙ same) ∙ cfg,
        )
    after (t, some e) q g = absurd (ground (arith, g))

frame_chunk-crashed :
    (s : Session) (id : ℕ) (p : Bytes) (o : WriteOutcome)
    → o ≢ panics
    → (frame_chunk s id p o).2 ≢ crashed
unfolding frame_chunk sent_chunk
frame_chunk-crashed s id p stalled h = λ e. cc
frame_chunk-crashed s id p (refused e) h = λ e. cc
frame_chunk-crashed s id p panics h = absurd (h refl)
frame_chunk-crashed s id p (chunk m) h = after _
  where
    after : (r : Session × Option Error) → (sent_chunk m r).2 ≢ crashed
    after (t, none) = λ e. cc
    after (t, some x) = λ e. cc

reserve-panics :
    (st : Stream) (left cap : ℕ)
    → left < 2 ^ 63
    → st.send_win < 2 ^ 63
    → cap < 2 ^ 63
    → (reserve st left cap).1 ≢ panics
unfolding reserve
reserve-panics st left cap hl hw hc = ground (arith, chunk_size_lem left st.send_win cap hl hw hc)

round_safe :
    (s : Session) (a : ℕ) (st : Stream) (p : Bytes)
    → length p < 2 ^ 63
    → st.send_win < 2 ^ 63
    → s.cfg.max_frame_payload < 2 ^ 63
    → (write_round s a st p).2 ≢ crashed
unfolding write_round
round_safe s a st p hl hw hc =
    frame_chunk-crashed _ st.id p (reserve st (length p) s.cfg.max_frame_payload).1
      (reserve-panics st (length p) s.cfg.max_frame_payload hl hw hc)

-- What a round that goes on has done.
round-all :
    (s s' : Session) (a n : ℕ) (st : Stream) (p : Bytes)
    → get_elem? s.objs a ≡ some st
    → 0 < length p
    → length p < 2 ^ 63
    → st.send_win < 2 ^ 63
    → 0 < s.cfg.max_frame_payload
    → s.cfg.max_frame_payload < 2 ^ 63
    → write_round s a st p ≡ (s', n, all)
    → (0 < n) × (n ≤ length p) × Writable s' a
unfolding write_round update
round-all s s' a n st p g hp hl hw hc hc' h =
    let cap = s.cfg.max_frame_payload in
    let r = reserve st (length p) cap in
    let (e, objs, cfg) = frame_chunk-all (update s a (λ _. r.0)) s' st.id n p r.1 h in
    let q : r ≡ (r.0, chunk n) = λ i. (r.0, e i) in
    let (le, _, win) = reserve-chunk st r.0 (length p) cap n hl hw hc' q in
    let put : (update s a (λ _. r.0)).objs ≡ set s.objs a r.0 = rw (g, update) in
    let same_cfg : (update s a (λ _. r.0)).cfg ≡ s.cfg = rw (g, update) in
    (
      reserve-chunk_pos st r.0 (length p) cap n hp hl hw hc hc' q,
      le,
      (
        (
          r.0,
          ap (λ (l : List Stream). get_elem? l a) (objs ∙ put)
              ∙ get_elem?-set_self s.objs a r.0 (get_elem?-lt s.objs a st g),
          omega arith,
        ),
        omega (arith, ap Config.max_frame_payload (cfg ∙ same_cfg)),
        omega (arith, ap Config.max_frame_payload (cfg ∙ same_cfg)),
      ),
    )

-- The loop's result: it does not crash, and it ends well only with every byte written.
abbrev Done : ℕ → ℕ → Session × ℕ × Progress → Type 0
Done total left r = (r.2 ≢ crashed) × (r.2 ≡ all → r.1 ≡ total + left)

after_round-Done :
    (k : Session → ℕ → Bytes → Session × ℕ × Progress) (total : ℕ) (p : Bytes)
    (r : Session × ℕ × Progress)
    → r.2 ≢ crashed
    → (r.2 ≡ all
        → (r.1 ≤ length p)
          × Done (total + r.1) (length (drop r.1 p)) (k r.0 (total + r.1) (drop r.1 p)))
    → Done total (length p) (after_round k total p r)
unfolding after_round
after_round-Done k total p (s, n, all) live ih =
    let (le, (safe, exact)) = ih refl in (safe, λ e. omega (arith, exact e, le, length-drop n p))
after_round-Done k total p (s, n, waiting) live ih = (λ e. cc, λ e. cc)
after_round-Done k total p (s, n, crashed) live ih = absurd (live refl)
after_round-Done k total p (s, n, stopped x) live ih = (λ e. cc, λ e. cc)

write_loop-Done :
    (fuel : ℕ) (s : Session) (a total : ℕ) (p : Bytes)
    → length p ≤ fuel
    → length p < 2 ^ 63
    → Writable s a
    → Done total (length p) (write_loop fuel s a total p)
unfolding write_loop
write_loop-Done fuel s a total [] enough hl w = (λ e. cc, λ e. omega arith)
write_loop-Done zero s a total (b ∷ p) enough hl w = absurd (omega arith)
write_loop-Done (suc fuel) s a total (b ∷ p) enough hl ((st, g, win), c, c') =
    let k = λ (s' : Session) (t : ℕ) (q : Bytes). write_loop fuel s' a t q in
    let r = write_round s a st (b ∷ p) in
    rw (g, write_loop)
      (after_round-Done k total (b ∷ p) r (round_safe s a st (b ∷ p) hl win c') (λ e.
        let (pos, le, w') =
          round-all s r.0 a r.1 st (b ∷ p) g (omega arith) hl win c c' (λ i. (r.0, r.1, e i)) in
        (
          le,
          write_loop-Done fuel r.0 a (total + r.1) (drop r.1 (b ∷ p))
              (omega (arith, length-drop r.1 (b ∷ p), pos)) (omega (arith, length-drop r.1 (b ∷ p)))
              w',
        )))

-- `Write` of fewer than 2^63 bytes on a stream of the session, where the send window is not
-- negative and the payload cap is positive, both below 2^63, comes to an end that the code
-- provides for: it never slices out of range, its loop needs no more rounds than there are bytes,
-- and where it returns without an error it has written every byte.
pub write_total :
    (s : Session) (a : ℕ) (p : Bytes)
    → length p < 2 ^ 63
    → Writable s a
    → ((write s a p).2 ≢ crashed) × ((write s a p).2 ≡ all → (write s a p).1 ≡ length p)
unfolding write
write_total s a p hl w =
    let (safe, exact) = write_loop-Done (length p) s a 0 p (omega arith) hl w in
    (safe, λ e. omega (arith, exact e))
