-- ===== src/Mux/Frame/Writing.antt =====
-- `WriteFrame` against `AppendFrame` of frame.go.
use toppa.Base.{ℕ, ◌+◌, ◌-◌, ◌≤◌, ◌≡◌, refl, none, some, Option, [], ◌∷◌, ◌++◌, append-nil, arith}
use toppa.Base.Lists.{length}
use toppa.Base.Results.{Result, ok, err}
use toppa.Base.Bytes.{Bytes, Writer, write}
use toppa.Mux.Errors.{Error}
use toppa.Mux.Frame.{Frame, header, write_frame, append_frame}

-- A writer that took all of `bs`, or refused with an error and took nothing.
abbrev pub written : Writer → ℕ → Result Error Bytes → Writer × Option Error
written w used (ok bs) = (record { sent = bs; room = w.room - used }, none)
written w used (err e) = (w, some e)

-- On a connection with room for the header and the payload, `WriteFrame` sends what `AppendFrame`
-- appends, and it refuses the same frames with the same error and sends none of them.
pub write_frame-append_frame :
    (w : Writer) (f : Frame) (max_payload : ℕ)
    → length (header f) + length f.payload ≤ w.room
    → write_frame w f max_payload
      ≡ written w (length (header f) + length f.payload) (append_frame w.sent f max_payload)
unfolding write_frame append_frame write
write_frame-append_frame w f m h = go f.payload refl
  where
    go :
        (p : Bytes)
        → f.payload ≡ p
        → write_frame w f m
          ≡ written w (length (header f) + length f.payload) (append_frame w.sent f m)
    go [] e = ground (arith, h, append-nil (w.sent ++ header f))
    go (b ∷ p) e = ground (arith, h)
