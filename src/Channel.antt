-- ===== src/Channel.antt =====
-- `WriteFrame` and `ReadFrame` of desktop/internal/mux/frame.go over the connection of desktop/internal/tunnel/secure.go, as
-- the session of package mux calls them.
pub mod Crossing
pub mod Agreed
pub mod Examples
use toppa.Base.{ℕ, ◌+◌, ◌%◌, ◌≡◌, Bool, true, false, not, Option, none, some, List, [], ◌∷◌}
use toppa.Base.Tests.{ltb, ◌==◌, if◌then◌else◌}
use toppa.Base.Lists.{length, get_or, is_empty}
use toppa.Base.Bytes.{Bytes, u32_mod, be, slice}
use toppa.Base.Results.{Result, ok, err}
use toppa.Mux.Errors
use toppa.Mux.Errors.{err_version, err_frame_too_large}
use toppa.Mux.Frame.{Frame, protocol_version, header_size, header, validate_frame}
use toppa.Tunnel.Noise.{Cipher}
use toppa.Tunnel.Record
use toppa.Tunnel.Record.{SecureConn, secure_write, read_exact}

-- An error of the frame codec, or of the connection.
pub data Error : Type 0 where
  frame : toppa.Mux.Errors.Error → Error
  conn : toppa.Tunnel.Record.Error → Error

unfoldable pub validated : Frame → Result toppa.Mux.Errors.Error (Unit {0}) → Result Error Frame
validated f (ok _) = ok f
validated f (err e) = err (frame e)

module _ {C : Cipher} where
  unfoldable pub written :
      SecureConn C × ℕ × Option toppa.Tunnel.Record.Error → SecureConn C × Option Error
  written (c, n, none) = (c, none)
  written (c, n, some e) = (c, some (conn e))

  -- The payload goes out in a call of `Write` of its own, if the first one succeeded and there is a payload.
  unfoldable pub write_rest : Bytes → SecureConn C × Option Error → SecureConn C × Option Error
  unfolding written
  write_rest payload (c, some e) = (c, some e)
  write_rest payload (c, none) =
      if is_empty payload then (c, none) else written (secure_write c payload)

  unfoldable pub write_frame : SecureConn C → Frame → ℕ → SecureConn C × Option Error
  unfolding write_rest
  write_frame c f max_payload =
      if not (f.version == protocol_version)
      then (c, some (frame err_version))
      else if ltb max_payload (length f.payload % u32_mod)
      then (c, some (frame err_frame_too_large))
      else write_rest f.payload (written (secure_write c (header f)))

  unfoldable pub framed :
      Bytes
      → SecureConn C × Result toppa.Tunnel.Record.Error Bytes
      → SecureConn C × Result Error Frame
  unfolding validated
  framed hdr (c, err e) = (c, err (conn e))
  framed hdr (c, ok payload) =
      let f : Frame = record {
        version = get_or hdr 0 0;
        flags = get_or hdr 1 0;
        stream_id = be (slice 2 6 hdr);
        payload = payload;
      } in
      (c, validated f (validate_frame f))

  -- `io.ReadFull` of nothing returns at once, as the code does that makes no call for an empty payload.
  unfoldable pub read_rest :
      ℕ → SecureConn C × Result toppa.Tunnel.Record.Error Bytes → SecureConn C × Result Error Frame
  unfolding framed
  read_rest max_payload (c, err e) = (c, err (conn e))
  read_rest max_payload (c, ok hdr) =
      let size = be (slice 6 10 hdr) in
      if not (get_or hdr 0 0 == protocol_version)
      then (c, err (frame err_version))
      else if ltb max_payload size
      then (c, err (frame err_frame_too_large))
      else framed hdr (read_exact size size c)

  unfoldable pub read_frame : SecureConn C → ℕ → SecureConn C × Result Error Frame
  unfolding read_rest
  read_frame c max_payload = read_rest max_payload (read_exact header_size header_size c)

  unfoldable pub next_frames :
      List Frame
      → (SecureConn C → SecureConn C × Option Error)
      → SecureConn C × Option Error
      → SecureConn C × Option Error
  next_frames fs later (c, some e) = (c, some e)
  next_frames fs later (c, none) = later c

  -- One frame after the other, up to the first error.
  unfoldable pub write_frames : SecureConn C → List Frame → ℕ → SecureConn C × Option Error
  unfolding write_frame next_frames
  write_frames c [] max_payload = (c, none)
  write_frames c (f ∷ fs) max_payload =
      next_frames fs (λ d. write_frames d fs max_payload) (write_frame c f max_payload)
