-- ===== src/Mux/Stream/Examples.antt =====
-- The theorems on streams at concrete runs.
use toppa.Base.{ℕ, ◌≡◌, refl, false, [], ◌∷◌, ◌++◌, arith}
use toppa.Base.Results.{ok}
use toppa.Base.Bytes.{Bytes}
use toppa.Mux.Target.{Target}
use toppa.Mux.Stream.{Stream, new_stream, read_stream, reserve, push_data}
use toppa.Mux.Stream.Credit.{
  Link, sends, arrives, reads, Flows, here, next, fresh, push_data_never_refuses,
}
use toppa.Mux.Stream.Reading.{concat, delivered_in_order}

abbrev host : Target
host = record { network = 1; atyp = 1; address = 10 ∷ 0 ∷ 0 ∷ 1 ∷ []; port = 80 }

abbrev open_with : ℕ → Bytes → Stream
open_with credit buf = record {
  id = 1;
  target = host;
  buf = buf;
  send_win = credit;
  recv_unacked = 0;
  fin_recv = false;
  fin_sent = false;
  reset = false;
  sclosed = false;
}

-- Three bytes are framed by two, the first frame arrives, and one of its bytes is read.
abbrev one_sent : Link
one_sent = record {
  writer = open_with 6 [];
  sending = (7 ∷ 8 ∷ []) ∷ [];
  reader = open_with 8 [];
  credits = [];
  written = 7 ∷ 8 ∷ [];
  delivered = [];
}

first_send : Flows 2 8 (fresh 1 host 8) one_sent
unfolding new_stream reserve
first_send =
    next here (sends (fresh 1 host 8) (open_with 6 []) (7 ∷ 8 ∷ 9 ∷ []) 2 (omega arith) refl)

push_data_never_refuses_example :
    push_data one_sent.reader 8 (7 ∷ 8 ∷ []) ≡ ok (open_with 8 (7 ∷ 8 ∷ []))
push_data_never_refuses_example =
    push_data_never_refuses 2 8 (omega arith) (omega arith) 1 host one_sent (7 ∷ 8 ∷ []) []
      first_send refl

abbrev arrived : Link
arrived = record {
  writer = open_with 6 [];
  sending = [];
  reader = open_with 8 (7 ∷ 8 ∷ []);
  credits = [];
  written = 7 ∷ 8 ∷ [];
  delivered = [];
}

abbrev one_read : Link
one_read = record {
  writer = open_with 6 [];
  sending = [];
  reader = open_with 8 (8 ∷ []);
  credits = 1 ∷ [];
  written = 7 ∷ 8 ∷ [];
  delivered = 7 ∷ [];
}

then_read : Flows 2 8 (fresh 1 host 8) one_read
unfolding push_data read_stream
then_read =
    next (next first_send (arrives one_sent (7 ∷ 8 ∷ []) [] (open_with 8 (7 ∷ 8 ∷ [])) refl refl))
      (reads arrived (open_with 8 (8 ∷ [])) 1 (7 ∷ []) 1 refl)

delivered_in_order_example :
    one_read.written ≡ one_read.delivered ++ (one_read.reader.buf ++ concat one_read.sending)
delivered_in_order_example = delivered_in_order 1 host then_read
