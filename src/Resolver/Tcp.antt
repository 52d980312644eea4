-- ===== src/Resolver/Tcp.antt =====
-- The TCP side of desktop/internal/resolver/resolver.go.
use toppa.Base.{ℕ, Bool, true, false, ◌||◌, ◌-◌, Option, none, some, List, [], ◌∷◌, ◌++◌}
use toppa.Base.Tests.{ltb, ◌==◌, if◌then◌else◌}
use toppa.Base.Lists.{length, take, drop}
use toppa.Base.Bytes.{Bytes, be, put_u16}
use toppa.Base.Results.{Result, ok, err}

pub data Error : Type 0 where
  connection_failed bad_size upstream_failed write_failed : Error
  http_failed http_status doh_too_large doh_truncated all_failed : Error

-- `Upstream`
abbrev pub Upstream : Type 0
Upstream = Bytes → Result Error Bytes

-- What a connection still delivers: pieces, each of which may come with an error at its end. A `Read` of fewer bytes
-- than a piece has leaves its rest.
pub record Piece : Type 0 where
  pub bytes : Bytes
  pub failed : Bool

-- How `readFull` ends. It is blocked where the connection delivers nothing more.
pub data Filled : Type 0 where
  filled : Bytes → List Piece → Filled
  failing blocked : Filled

abbrev pub prepended : Bytes → Filled → Filled
prepended b (filled c rest) = filled (b ++ c) rest
prepended b failing = failing
prepended b blocked = blocked

-- `readFull`, for `want` bytes.
unfoldable pub read_full : ℕ → List Piece → Filled
read_full want [] = if want == 0 then filled [] [] else blocked
read_full want (p ∷ ps) =
    let rest = read_full (want - length p.bytes) ps in
    if want == 0
    then filled [] (p ∷ ps)
    else if ltb want (length p.bytes)
    then filled (take want p.bytes) (record { bytes = drop want p.bytes; failed = p.failed } ∷ ps)
    else if p.failed
    then failing
    else prepended p.bytes rest

abbrev pub max_message : ℕ
max_message = 4096

abbrev pub max_answer : ℕ
max_answer = 0xffff

-- What is written on the connection, and the error.
abbrev pub Written : Type 0
Written = Bytes × Option Error

unfoldable pub framed_answer : Bytes → Bytes
framed_answer response =
    let r = if ltb max_answer (length response) then take max_answer response else response in
    put_u16 (length r) ++ r

-- `writes` is whether the last write succeeds; what a failed one has sent is not told.
unfoldable pub send_answer : Bool → Result Error Bytes → Written
unfolding framed_answer
send_answer writes (err e) = ([], some e)
send_answer true (ok response) = (framed_answer response, none)
send_answer false (ok response) = ([], some write_failed)

unfoldable pub with_query : Upstream → Bool → Filled → Written
unfolding send_answer
with_query upstream writes (filled query rest) = send_answer writes (upstream query)
with_query upstream writes failing = ([], some connection_failed)
with_query upstream writes blocked = ([], none)

unfoldable pub with_size : Upstream → Bool → Filled → Written
unfolding with_query read_full
with_size upstream writes (filled size rest) =
    if ltb (be size) 12 || ltb max_message (be size)
    then ([], some bad_size)
    else with_query upstream writes (read_full (be size) rest)
with_size upstream writes failing = ([], some connection_failed)
with_size upstream writes blocked = ([], none)

-- `HandleTCP`; a call that is blocked has written nothing.
unfoldable pub handle_tcp : Upstream → Bool → List Piece → Written
unfolding with_size
handle_tcp upstream writes conn = with_size upstream writes (read_full 2 conn)
