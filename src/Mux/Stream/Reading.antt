-- ===== src/Mux/Stream/Reading.antt =====
-- What `Read` of stream.go returns: the bytes of the peer in order, and then how the stream ended.
use toppa.Base.{
  ℕ, ◌<◌, ◌≡◌, ◌≢◌, ◌⊎◌, refl, sym, ◌∙◌, true, false, List, [], ◌∷◌, ◌++◌, append-nil, append_assoc,
  arith,
}
use toppa.Base.Lists.{take-append-drop}
use toppa.Base.Bytes.{Bytes, IoError}
use toppa.Mux.Errors.{Error, err_stream_reset, err_session_closed, io}
use toppa.Mux.Stream.{Stream, new_stream, read_stream, got, failed, remote_reset}
use toppa.Mux.Stream.Credit.{
  Link, Flow, sends, arrives, reads, credited, Flows, here, next, fresh, push_data-ok,
}
use toppa.Mux.Target.{Target}

abbrev pub concat : List Bytes → Bytes
concat [] = []
concat (b ∷ bs) = b ++ concat bs

concat-append : (xs ys : List Bytes) → concat (xs ++ ys) ≡ concat xs ++ concat ys
concat-append [] ys = refl
concat-append (x ∷ xs) ys = rw (concat-append xs ys) (sym (append_assoc x (concat xs) (concat ys)))

-- The bytes that were framed are those that reads returned, those in the buffer, those under way.
abbrev InOrder : Link → Type 0
InOrder l = l.written ≡ l.delivered ++ (l.reader.buf ++ concat l.sending)

read_stream-buf :
    (st st' : Stream) (n : ℕ) (b : Bytes) (credit : ℕ)
    → read_stream st n ≡ (st', got b credit)
    → b ++ st'.buf ≡ st.buf
unfolding read_stream
read_stream-buf st st' n b credit e = ground (arith, e, take-append-drop n st.buf)

Flow-InOrder : {cap window : ℕ} {l m : Link} → Flow cap window l m → InOrder l → InOrder m
Flow-InOrder (sends l st p n small e) h = rw h (simp (concat-append, append_assoc, append-nil))
Flow-InOrder (arrives l d rest st e q) h =
    let (buf, _) = push_data-ok l.reader st _ d q in h ∙ rw (buf, e) (simp append_assoc)
Flow-InOrder (reads l st n d credit e) h =
    h ∙ rw (sym (read_stream-buf l.reader st n d credit e)) (simp append_assoc)
Flow-InOrder (credited l c rest e) h = h

-- In every run from two fresh ends the bytes that reads have returned are a prefix of the bytes that
-- were written: nothing is lost, made up or reordered, and what is missing is in the reader's buffer
-- and then under way.
pub delivered_in_order :
    {cap window : ℕ} (id : ℕ) (t : Target) {l : Link}
    → Flows cap window (fresh id t window) l
    → l.written ≡ l.delivered ++ (l.reader.buf ++ concat l.sending)
unfolding new_stream
delivered_in_order id t here = refl
delivered_in_order id t (next fs f) = Flow-InOrder f (delivered_in_order id t fs)

-- A read that asks for bytes reports the end of the stream, by FIN, RST or a closed session, only
-- when every buffered byte has been read.
pub read_stream-failed :
    (st st' : Stream) (n : ℕ) (e : Error)
    → read_stream st n ≡ (st', failed e)
    → (st.buf ≡ [])
      × (st' ≡ st)
      × (((st.reset ≡ true) × (e ≡ err_stream_reset))
          ⊎ ((st.reset ≡ false) × (st.fin_recv ≡ true) × (e ≡ io IoError.eof))
          ⊎ ((st.reset ≡ false)
              × (st.fin_recv ≡ false)
              × (st.sclosed ≡ true)
              × (e ≡ err_session_closed)))
unfolding read_stream
read_stream-failed st st' n e h = ground (arith, h)

-- A reset does not discard what is buffered: where the buffer is not empty, a read of at least
-- one byte still returns the bytes of the stream, as it does without the reset.
pub read_after_reset :
    (st : Stream) (n : ℕ)
    → 0 < n
    → st.buf ≢ []
    → (read_stream (remote_reset st) n).1 ≡ (read_stream st n).1
unfolding read_stream remote_reset
read_after_reset st n h nonempty = ground (arith, h, nonempty)
