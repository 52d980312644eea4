-- ===== src/Resolver/Examples.antt =====
-- The theorems on the resolver at a query of twelve bytes.
use toppa.Base.{◌≡◌, refl, sym, Bool, true, false, Option, none, some, List, [], ◌∷◌, arith}
use toppa.Base.Lists.{All}
use toppa.Base.Bytes.{Bytes, AreBytes}
use toppa.Base.Results.{ok, some_eq}
use toppa.Resolver.Udp.{truncated_response}
use toppa.Resolver.Tcp.{Piece, Upstream, handle_tcp}
use toppa.Resolver.Doh.{Reply, query_wire}
use toppa.Resolver.Truncation.{Truncates, truncated_response-Truncates}
use toppa.Resolver.Exchange.{Answers, handle_tcp-Answers}
use toppa.Resolver.Limits.{Fits, AnsweredBy, query_wire-AnsweredBy}

abbrev query : Bytes
query = 18 ∷ 52 ∷ 1 ∷ 0 ∷ 0 ∷ 1 ∷ 0 ∷ 0 ∷ 0 ∷ 0 ∷ 0 ∷ 0 ∷ []

query-AreBytes : AreBytes query
query-AreBytes = omega arith

truncated_response-Truncates_example : Truncates query (truncated_response query)
truncated_response-Truncates_example =
    truncated_response-Truncates query query-AreBytes (omega arith)

abbrev echoing : Upstream
echoing q = ok q

-- The length and the query in three pieces, and one byte more.
abbrev conn : List Piece
conn =
    record { bytes = 0 ∷ []; failed = false }
    ∷ record { bytes = 12 ∷ 18 ∷ 52 ∷ 1 ∷ 0 ∷ 0 ∷ 1 ∷ []; failed = false }
    ∷ record { bytes = 0 ∷ 0 ∷ 0 ∷ 0 ∷ 0 ∷ 0 ∷ 9 ∷ []; failed = false }
    ∷ []

handle_tcp-Answers_example : Answers (echoing query) (handle_tcp echoing true conn)
handle_tcp-Answers_example =
    handle_tcp-Answers echoing query (9 ∷ []) conn (omega arith) (omega arith) refl
      (refl, (refl, (refl, tt)))

abbrev reply : Reply
reply = record { status = 200; body = record { bytes = query; failed = true } ∷ [] }

-- The first of two servers is out of reach.
abbrev post : Bool → Bytes → Option Reply
post false q = none
post true q = some reply

post-Fits : (s : Bool) (r : Reply) → post s query ≡ some r → All Fits r.body
post-Fits false r h = absurd cc
post-Fits true r h = rw (sym (some_eq h)) (omega arith, tt)

query_wire-AnsweredBy_example : AnsweredBy post (false ∷ true ∷ []) query query
unfolding query_wire
query_wire-AnsweredBy_example =
    query_wire-AnsweredBy post (false ∷ true ∷ []) query query post-Fits refl
