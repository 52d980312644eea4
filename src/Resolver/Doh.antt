-- ===== src/Resolver/Doh.antt =====
-- The DoH upstream of desktop/internal/resolver/resolver.go. Posting to a server is the HTTP library's.
use toppa.Base.{ℕ, ◌*◌, not, ◌||◌, Option, none, some, List, [], ◌∷◌, ◌++◌}
use toppa.Base.Tests.{ltb, ◌==◌, if◌then◌else◌}
use toppa.Base.Lists.{length}
use toppa.Base.Bytes.{Bytes}
use toppa.Base.Results.{Result, ok, err}
use toppa.Resolver.Tcp.{
  Error, http_failed, http_status, doh_too_large, doh_truncated, all_failed, Piece,
}

-- What a server replies: its status, and the calls of `Read` on the body in order.
pub record Reply : Type 0 where
  pub status : ℕ
  pub body : List Piece

abbrev pub max_body : ℕ
max_body = 64 * 1024

abbrev pub read_buffer : ℕ
read_buffer = 4096

-- The loop that reads the body: an error ends it like the end of the body.
unfoldable pub read_body : Bytes → List Piece → Result Error Bytes
read_body body [] = ok body
read_body body (p ∷ ps) =
    let next = body ++ p.bytes in
    let rest = read_body next ps in
    if length p.bytes == 0 || p.failed
    then ok next
    else if ltb max_body (length next)
    then err doh_too_large
    else rest

unfoldable pub long_enough : Result Error Bytes → Result Error Bytes
long_enough (ok body) = if ltb (length body) 12 then err doh_truncated else ok body
long_enough (err e) = err e

-- `dohPost`, from the outcome of `Post` on.
unfoldable pub doh_post : Option Reply → Result Error Bytes
unfolding read_body long_enough
doh_post none = err http_failed
doh_post (some reply) =
    if not (reply.status == 200) then err http_status else long_enough (read_body [] reply.body)

abbrev pub or_else : Result Error Bytes → Result Error Bytes → Result Error Bytes
or_else (ok body) later = ok body
or_else (err e) later = later

-- `DohUpstream.QueryWire`: `post` is the outcome of posting a query to a server.
module _ {Server : Type 0} (post : Server → Bytes → Option Reply) where
  unfoldable pub query_wire : List Server → Bytes → Result Error Bytes
  unfolding doh_post
  query_wire [] query = err all_failed
  query_wire (server ∷ rest) query = or_else (doh_post (post server query)) (query_wire rest query)
