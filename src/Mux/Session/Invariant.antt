-- ===== src/Mux/Session/Invariant.antt =====
-- What holds of a session (session.go, stream.go) after any calls, frames and ticks, in any order.
use toppa.Base.{ℕ, ◌%◌, ◌≤◌, ◌<◌, ◌≡◌, refl, inl, inr, some, List, [], ◌∷◌, ◌++◌, arith}
use toppa.Base.Tests.{if◌then◌else◌, Bool-cases, Option-cases}
use toppa.Base.Lists.{
  length, get_elem?, All, All-imp, All-append, All-set, All-get_elem?, length-append, length-set,
}
use toppa.Base.Bytes.{Writer, u32_mod}
use toppa.Mux.Frame.{Frame}
use toppa.Mux.Stream.{Stream, remote_reset, new_stream}
use toppa.Mux.Target.{Target}
use toppa.Mux.Session.State.{Session, Config, new, put_id, stream, update, session_write_frame}
use toppa.Mux.Session.Table.{
  Distinct, Distinct-delete_id, Distinct-put_id, Named, Named-append, Named-set, All-delete_id,
  get_elem?-append_end, Holds,
}
use toppa.Mux.Session.Calls.{register, remove_stream, reset_stream}

-- Buffers stay in the window, the table names each id once and by the stream of that id, the accept
-- queue stays within its depth and holds streams of the store, and ids keep the parity of the role.
pub record Sound (cfg : Config) (objs : List Stream) (table : List (ℕ × ℕ)) (next_id : ℕ)
    (accept_ch : List ℕ) : Type 0 where
  pub buffered : All (λ st. length st.buf ≤ cfg.initial_window) objs
  pub distinct : Distinct table
  pub named : Named objs table
  pub queue : length accept_ch ≤ cfg.accept_queue_depth
  pub queued : All (λ a. a < length objs) accept_ch
  pub parity : next_id % 2 ≡ (if cfg.is_initiator then 1 else 0)
  pub id_u32 : next_id < u32_mod

abbrev pub Inv : Session → Type 0
Inv s = Sound s.cfg s.objs s.table s.next_id s.accept_ch

pub new-Inv : (conn : Writer) (cfg : Config) (now : ℕ) → Inv (new conn cfg now)
unfolding new
new-Inv conn cfg now = record {
  buffered = tt;
  distinct = tt;
  named = tt;
  queue = omega arith;
  queued = tt;
  parity = elim (Bool-cases cfg.is_initiator) [ inl e ↦ rw e | inr e ↦ rw e ];
  id_u32 = elim (Bool-cases cfg.is_initiator) [
    | inl e ↦ rw e (omega arith)
    | inr e ↦ rw e (omega arith)
  ];
}

pub session_write_frame-Inv : (s : Session) (f : Frame) → Inv s → Inv (session_write_frame s f).0
unfolding session_write_frame
session_write_frame-Inv s f v = elim (Bool-cases s.closed) [ inl e ↦ rw e v | inr e ↦ rw e v ]

-- A stream that is written back with its id, and with its buffer in the window.
pub update-Inv :
    (s : Session) (a : ℕ) (f : Stream → Stream)
    → ((st : Stream)
        → get_elem? s.objs a ≡ some st
        → ((f st).id ≡ st.id) × (length (f st).buf ≤ s.cfg.initial_window))
    → Inv s
    → Inv (update s a f)
unfolding update
update-Inv s a f keeps v = elim (Option-cases (get_elem? s.objs a)) [
  | inl e ↦ rw (e, update) v
  | inr (st, e) ↦
      rw (e, update)
        (record {
          buffered =
              All-set (λ st. length st.buf ≤ s.cfg.initial_window) s.objs a (f st) (keeps st e).1
                v.buffered;
          distinct = v.distinct;
          named = Named-set s.objs a st (f st) s.table e (keeps st e).0 v.named;
          queue = v.queue;
          queued = rw (length-set s.objs a (f st)) v.queued;
          parity = v.parity;
          id_u32 = v.id_u32;
        })
]

pub remove_stream-Inv : (s : Session) (id : ℕ) → Inv s → Inv (remove_stream s id)
unfolding remove_stream
remove_stream-Inv s id v = record {
  buffered = v.buffered;
  distinct = Distinct-delete_id id s.table v.distinct;
  named = All-delete_id (Holds s.objs) id s.table v.named;
  queue = v.queue;
  queued = v.queued;
  parity = v.parity;
  id_u32 = v.id_u32;
}

Holds-new :
    (objs : List Stream) (id : ℕ) (t : Target) (w : ℕ)
    → Holds (objs ++ new_stream id t w ∷ []) (id, length objs)
unfolding new_stream
Holds-new objs id t w = (new_stream id t w, get_elem?-append_end objs (new_stream id t w), refl)

-- A new stream in the table, whatever the next id becomes, as long as it keeps the parity.
pub register-Inv : (s : Session) (id : ℕ) (t : Target) → Inv s → Inv (register s id t)
unfolding register
register-Inv s id t v =
    let st = new_stream id t s.cfg.initial_window in
    let grows = length-append s.objs (st ∷ []) in
    record {
      buffered =
          All-append (λ st. length st.buf ≤ s.cfg.initial_window) s.objs (st ∷ []) v.buffered
            (unfold new_stream in omega arith, tt);
      distinct = Distinct-put_id id (length s.objs) s.table v.distinct;
      named =
          unfold put_id in
          (
            Holds-new s.objs id t s.cfg.initial_window,
            All-delete_id (Holds (s.objs ++ st ∷ [])) id s.table
                (Named-append s.objs st s.table v.named),
          );
      queue = v.queue;
      queued =
          All-imp (λ a. a < length s.objs) (λ a. a < length (s.objs ++ st ∷ [])) s.accept_ch
            (λ a h. omega (arith, grows)) v.queued;
      parity = v.parity;
      id_u32 = v.id_u32;
    }

pub reset_stream-Inv : (s : Session) (id : ℕ) → Inv s → Inv (reset_stream s id)
unfolding reset_stream remote_reset
reset_stream-Inv s id v = elim (Option-cases (stream s id)) [
  | inl e ↦ rw (e, reset_stream) (remove_stream-Inv s id v)
  | inr (a, e) ↦
      rw (e, reset_stream)
        (update-Inv (remove_stream s id) a remote_reset
          (λ st g. (
            refl,
            All-get_elem? (λ st. length st.buf ≤ s.cfg.initial_window) s.objs a st v.buffered g,
          ))
          (remove_stream-Inv s id v))
]
