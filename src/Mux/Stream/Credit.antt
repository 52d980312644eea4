-- ===== src/Mux/Stream/Credit.antt =====
-- Flow control between the two ends of a stream (stream.go, SPEC 4.5): one direction of it, from the
-- writing end to the reading end, over a connection that keeps the order of frames.
use toppa.Base.{ℕ, ◌+◌, ◌^◌, ◌<◌, ◌≡◌, ap, ◌∙◌, List, [], ◌∷◌, ◌++◌, arith}
use toppa.Base.Lists.{length, length-append, length-take, length-drop, take}
use toppa.Base.Results.{ok}
use toppa.Base.Bytes.{Bytes, u32_mod}
use toppa.Mux.Stream.{
  Stream, new_stream, read_stream, got, reserve, chunk, push_data, add_send_window,
}
use toppa.Mux.Stream.Sending.{reserve-chunk}
use toppa.Mux.Target.{Target}

-- The two ends, and what is under way: payloads of DATA frames, and credits of WIN frames. The last
-- two fields only record the run: the bytes that were framed, and the bytes that reads returned.
pub record Link : Type 0 where
  pub writer : Stream
  pub sending : List Bytes
  pub reader : Stream
  pub credits : List ℕ
  pub written : Bytes
  pub delivered : Bytes

abbrev pub sum : List ℕ → ℕ
sum [] = 0
sum (x ∷ xs) = x + sum xs

abbrev pub total : List Bytes → ℕ
total [] = 0
total (b ∷ bs) = length b + total bs

sum-append : (xs ys : List ℕ) → sum (xs ++ ys) ≡ sum xs + sum ys
sum-append [] ys = omega arith
sum-append (x ∷ xs) ys = omega (arith, sum-append xs ys)

total-append : (xs ys : List Bytes) → total (xs ++ ys) ≡ total xs + total ys
total-append [] ys = omega arith
total-append (x ∷ xs) ys = omega (arith, total-append xs ys)

-- The calls of the two ends: `cap` is MaxFramePayload, `window` is InitialWindow.
pub data Flow (cap window : ℕ) : Link → Link → Type 0 where
  -- a round of `Write` frames a chunk of what it has left
  sends :
      (l : Link) (st : Stream) (p : Bytes) (n : ℕ)
      → length p < 2 ^ 63
      → reserve l.writer (length p) cap ≡ (st, chunk n)
      → Flow cap window l (record l {
        writer = st;
        sending = l.sending ++ take n p ∷ [];
        written = l.written ++ take n p;
      })
  -- the oldest DATA frame arrives and is taken
  arrives :
      (l : Link) (b : Bytes) (rest : List Bytes) (st : Stream)
      → l.sending ≡ b ∷ rest
      → push_data l.reader window b ≡ ok st
      → Flow cap window l (record l { reader = st; sending = rest })
  -- `Read` takes bytes and returns credit
  reads :
      (l : Link) (st : Stream) (n : ℕ) (b : Bytes) (credit : ℕ)
      → read_stream l.reader n ≡ (st, got b credit)
      → Flow cap window l (record l {
        reader = st;
        credits = l.credits ++ credit ∷ [];
        delivered = l.delivered ++ b;
      })
  -- the oldest WIN frame arrives
  credited :
      (l : Link) (c : ℕ) (rest : List ℕ)
      → l.credits ≡ c ∷ rest
      → Flow cap window l (record l { writer = add_send_window l.writer c; credits = rest })

pub data Flows (cap window : ℕ) (l : Link) : Link → Type 0 where
  here : Flows cap window l l
  next : {m n : Link} → Flows cap window l m → Flow cap window m n → Flows cap window l n

-- Every byte of the window is with the writer, under way, in the reader's buffer, or on its way back.
pub record Balanced (window : ℕ) (l : Link) : Type 0 where
  pub balance : l.writer.send_win + total l.sending + length l.reader.buf + sum l.credits ≡ window
  pub nothing_held : l.reader.recv_unacked ≡ 0

pub push_data-ok :
    (st st' : Stream) (window : ℕ) (b : Bytes)
    → push_data st window b ≡ ok st'
    → (st'.buf ≡ st.buf ++ b) × (st'.recv_unacked ≡ st.recv_unacked)
unfolding push_data
push_data-ok st st' window b e = (ground (arith, e), ground (arith, e))

-- What a read takes leaves the buffer and comes back as credit.
read_stream-got :
    (st st' : Stream) (n : ℕ) (b : Bytes) (credit : ℕ)
    → st.recv_unacked ≡ 0
    → length st.buf < u32_mod
    → read_stream st n ≡ (st', got b credit)
    → (st'.recv_unacked ≡ 0) × (credit ≡ length b) × (length st'.buf + credit ≡ length st.buf)
unfolding read_stream
read_stream-got st st' n b credit h lt e =
    ground (arith, e, length-take n st.buf, length-drop n st.buf)

-- Two ends of a stream that was just opened.
abbrev pub fresh : ℕ → Target → ℕ → Link
fresh id t window = record {
  writer = new_stream id t window;
  sending = [];
  reader = new_stream id t window;
  credits = [];
  written = [];
  delivered = [];
}

fresh-Balanced : (id : ℕ) (t : Target) (window : ℕ) → Balanced window (fresh id t window)
unfolding new_stream
fresh-Balanced id t window = omega arith

module _ (cap window : ℕ) (hc : cap < 2 ^ 63) (hw : window < u32_mod) where
  Flow-Balanced : {l m : Link} → Flow cap window l m → Balanced window l → Balanced window m
  Flow-Balanced (sends l st p n small e) b =
      let (le, _, win) = reserve-chunk l.writer st (length p) cap n small (omega arith) hc e in
      record {
        balance = omega (arith, win, le, total-append l.sending (take n p ∷ []), length-take n p);
        nothing_held = b.nothing_held;
      }
  Flow-Balanced (arrives l d rest st e q) b =
      let (buf, held) = push_data-ok l.reader st window d q in
      record {
        balance = omega (arith, ap total e, ap length buf, length-append l.reader.buf d);
        nothing_held = held ∙ b.nothing_held;
      }
  Flow-Balanced (reads l st n d credit e) b =
      let (held, exact, len) =
        read_stream-got l.reader st n d credit b.nothing_held (omega arith) e in
      record {
        balance = omega (arith, len, sum-append l.credits (credit ∷ []));
        nothing_held = held;
      }
  Flow-Balanced (credited l c rest e) b = record {
    balance = unfold add_send_window in omega (arith, ap sum e);
    nothing_held = b.nothing_held;
  }

  Flows-Balanced : {l m : Link} → Flows cap window l m → Balanced window l → Balanced window m
  Flows-Balanced here b = b
  Flows-Balanced (next fs f) b = Flow-Balanced f (Flows-Balanced fs b)

  -- Between two ends that follow the code, with a payload cap below 2^63 and a window of 32 bits,
  -- the receive window is never exceeded: whatever DATA frame arrives next after any run from two
  -- fresh ends, `pushData` accepts it.
  pub push_data_never_refuses :
      (id : ℕ) (t : Target) (l : Link) (b : Bytes) (rest : List Bytes)
      → Flows cap window (fresh id t window) l
      → l.sending ≡ b ∷ rest
      → push_data l.reader window b ≡ ok (record l.reader { buf = l.reader.buf ++ b })
  unfolding push_data
  push_data_never_refuses id t l b rest fs e =
      let g = Flows-Balanced fs (fresh-Balanced id t window) in
      ground (arith, g.balance, ap total e)
