-- ===== src/Mux/Stream.antt =====
-- desktop/internal/mux/stream.go: one stream's state, and what each call does to it under its lock.
-- The frames that a call sends are sent by its caller in Mux/Session. An `int64` is its pattern
-- below 2 ^ 64; `cond.Wait` is the outcome `blocked`, after which the call starts again.
pub mod Examples
pub mod Credit
pub mod Sending
pub mod Reading
use toppa.Base.{ℕ, ◌+◌, ◌-◌, ◌%◌, ◌^◌, ◌≡◌, Bool, true, false, Option, none, some, [], ◌++◌}
use toppa.Base.Tests.{ltb, leb, ◌==◌, if◌then◌else◌}
use toppa.Base.Lists.{length, take, drop, is_empty}
use toppa.Base.Results.{Result, ok, err}
use toppa.Base.Bytes.{Bytes, u32_mod, IoError}
use toppa.Mux.Errors.{
  Error, err_stream_reset, err_session_closed, err_stream_write_closed, err_protocol, io,
}
use toppa.Mux.Target.{Target}

abbrev pub i64_mod : ℕ
i64_mod = 2 ^ 64

-- `a < b` on `int64`
abbrev pub slt : ℕ → ℕ → Bool
slt a b = ltb ((a + 2 ^ 63) % 2 ^ 64) ((b + 2 ^ 63) % 2 ^ 64)

pub record Stream : Type 0 where
  pub id : ℕ
  pub target : Target
  pub buf : Bytes
  pub send_win : ℕ
  pub recv_unacked : ℕ
  pub fin_recv : Bool
  pub fin_sent : Bool
  pub reset : Bool
  pub sclosed : Bool

unfoldable pub new_stream : ℕ → Target → ℕ → Stream
new_stream id target window = record {
  id = id;
  target = target;
  buf = [];
  send_win = window;
  recv_unacked = 0;
  fin_recv = false;
  fin_sent = false;
  reset = false;
  sclosed = false;
}

pub data ReadOutcome : Type 0 where
  blocked : ReadOutcome
  failed : Error → ReadOutcome
  -- the bytes copied out, and the credit to return in a WIN frame
  got : Bytes → ℕ → ReadOutcome
  -- `Read` into no bytes, which returns before it takes the lock
  nothing : ReadOutcome

-- `Read` into `n` bytes, up to the return of credit.
unfoldable pub read_stream : Stream → ℕ → Stream × ReadOutcome
read_stream st n =
    if n == 0
    then (st, nothing)
    else if is_empty st.buf
    then (if st.reset
        then (st, failed err_stream_reset)
        else if st.fin_recv
        then (st, failed (io IoError.eof))
        else if st.sclosed
        then (st, failed err_session_closed)
        else (st, blocked))
    else (
      record st { buf = drop n st.buf; recv_unacked = 0 },
      got (take n st.buf) ((st.recv_unacked + length (take n st.buf)) % u32_mod),
    )

pub data WriteOutcome : Type 0 where
  stalled : WriteOutcome
  refused : Error → WriteOutcome
  -- slicing by a negative length
  panics : WriteOutcome
  -- the number of bytes to frame
  chunk : ℕ → WriteOutcome

-- `n = min(len(p) - total, sendWin, MaxFramePayload)`, by signed comparisons.
abbrev pub chunk_size : ℕ → ℕ → ℕ → ℕ
chunk_size left win max_payload =
    let n = if slt win left then win else left in if slt max_payload n then max_payload else n

-- One round of `Write` with `left` bytes to go, up to the sending of the frame.
unfoldable pub reserve : Stream → ℕ → ℕ → Stream × WriteOutcome
reserve st left max_payload =
    let n = chunk_size left st.send_win max_payload in
    if st.send_win == 0
    then (if st.reset
        then (st, refused err_stream_reset)
        else if st.sclosed
        then (st, refused err_session_closed)
        else if st.fin_sent
        then (st, refused err_stream_write_closed)
        else (st, stalled))
    else if st.reset
    then (st, refused err_stream_reset)
    else (
      record st { send_win = (st.send_win + i64_mod - n) % i64_mod },
      if leb (2 ^ 63) n then panics else chunk n,
    )

-- `Close`, up to the sending of FIN: `none` if FIN was sent before, or else whether both ends are
-- closed now.
unfoldable pub close_stream : Stream → Stream × Option Bool
close_stream st =
    if st.fin_sent then (st, none) else (record st { fin_sent = true }, some st.fin_recv)

unfoldable pub push_data : Stream → ℕ → Bytes → Result Error Stream
push_data st initial_window b =
    if ltb initial_window (length st.buf + length b)
    then err err_protocol
    else ok (record st { buf = st.buf ++ b })

-- `remoteClosed`: the new state, and whether both ends are closed now.
unfoldable pub remote_closed : Stream → Stream × Bool
remote_closed st = (record st { fin_recv = true }, st.fin_sent)

unfoldable pub add_send_window : Stream → ℕ → Stream
add_send_window st n = record st { send_win = (st.send_win + n) % i64_mod }

unfoldable pub session_closed : Stream → Stream
session_closed st = record st { sclosed = true }

unfoldable pub remote_reset : Stream → Stream
remote_reset st = record st { reset = true }
