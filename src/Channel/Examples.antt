-- ===== src/Channel/Examples.antt =====
-- Two frames between the two ends of the tests of the handshake.
use toppa.Base.{◌≡◌, refl, none, List, [], ◌∷◌, arith}
use toppa.Base.Bytes.{write}
use toppa.Mux.Frame.{Frame, has, has_other, validate_frame}
use toppa.Mux.Frame.Flags.{validate_frame-iff-IsLegal}
use toppa.Mux.Frame.Bijection.{IsSendable}
use toppa.Tunnel.Record.{SecureConn, secure_write}
use toppa.Tunnel.Handshake.{with_defaults}
use toppa.Tunnel.AgreementExamples.{
  numbered, phased, pairs, first_four, ours, theirs, open_wide, initiates, responds, at_i, at_r,
  agreed,
}
use toppa.Channel.{write_frames}
use toppa.Channel.Crossing.{Crossed}
use toppa.Channel.Agreed.{agreed_frames_cross}

-- A DATA frame and a FIN of stream 1.
abbrev data_frame : Frame
data_frame = record { version = 1; flags = 16; stream_id = 1; payload = 7 ∷ 8 ∷ [] }

abbrev fin_frame : Frame
fin_frame = record { version = 1; flags = 2; stream_id = 1; payload = [] }

data-IsSendable : IsSendable 16384 data_frame
unfolding validate_frame has has_other
data-IsSendable = (
  record {
    version_one = refl;
    flags_byte = omega arith;
    id_u32 = omega arith;
    size_u32 = omega arith;
    payload_bytes = (omega arith, (omega arith, tt));
  },
  omega arith,
  (validate_frame-iff-IsLegal data_frame (omega arith)).0 refl,
)

fin-IsSendable : IsSendable 16384 fin_frame
unfolding validate_frame has has_other
fin-IsSendable = (
  record {
    version_one = refl;
    flags_byte = omega arith;
    id_u32 = omega arith;
    size_u32 = omega arith;
    payload_bytes = tt;
  },
  omega arith,
  (validate_frame-iff-IsLegal fin_frame (omega arith)).0 refl,
)

abbrev both : List Frame
both = data_frame ∷ fin_frame ∷ []

abbrev after_both : SecureConn numbered
after_both = (write_frames at_i.conn both 16384).0

abbrev after_fin : SecureConn numbered
after_fin = (write_frames at_r.conn (fin_frame ∷ []) 16384).0

both_written : write_frames at_i.conn both 16384 ≡ (after_both, none)
unfolding write_frames secure_write write
both_written = refl

fin_written : write_frames at_r.conn (fin_frame ∷ []) 16384 ≡ (after_fin, none)
unfolding write_frames secure_write write
fin_written = refl

agreed_frames_cross_example :
    Crossed numbered pairs at_i.conn at_r.conn after_both both 16384 []
    × Crossed numbered pairs at_r.conn at_i.conn after_fin (fin_frame ∷ []) 16384 (5 ∷ [])
unfolding agreed with_defaults
agreed_frames_cross_example =
    agreed_frames_cross numbered phased first_four pairs ours theirs [] (9 ∷ []) open_wide open_wide
      initiates responds agreed both (fin_frame ∷ []) 16384 after_both after_fin [] (5 ∷ []) refl
      (omega arith) (data-IsSendable, (fin-IsSendable, tt)) (fin-IsSendable, tt) both_written
      fin_written
