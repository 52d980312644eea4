-- ===== src/Mux/Errors.antt =====
-- The errors of package mux (session.go, frame.go, target.go). `io` wraps an error of the transport.
use toppa.Base.Bytes.{IoError}

pub data Error : Type 0 where
  err_version err_frame_too_large err_session_closed err_stream_reset : Error
  err_stream_write_closed err_protocol err_bad_target err_keepalive_timeout : Error
  io : IoError → Error
