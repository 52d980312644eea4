-- ===== src/Resolver/Limits.antt =====
-- The body of a DoH answer in desktop/internal/resolver/resolver.go.
use toppa.Base.{
  ◌+◌, ◌≤◌, ◌≡◌, refl, sym, ap, ◌∙◌, not, ◌||◌, Option, none, some, List, [], ◌∷◌, ◌++◌, arith,
}
use toppa.Base.Tests.{ltb, ◌==◌, if_split}
use toppa.Base.Lists.{length, All, length-append}
use toppa.Base.Bytes.{Bytes}
use toppa.Base.Results.{Result, ok, err}
use toppa.Resolver.Tcp.{Error, http_status, doh_too_large, doh_truncated, Piece}
use toppa.Resolver.Doh.{
  Reply, max_body, read_buffer, read_body, long_enough, doh_post, or_else, query_wire,
}

-- One call of `Read` fills at most the buffer.
abbrev pub Fits : Piece → Type 0
Fits p = length p.bytes ≤ read_buffer

-- A result of at most the limit and one more buffer.
abbrev Bounded : Result Error Bytes → Type 0
Bounded r = (body : Bytes) → r ≡ ok body → length body ≤ max_body + read_buffer

ok-Bounded : (body : Bytes) → length body ≤ max_body + read_buffer → Bounded (ok body)
ok-Bounded body h other e = ground (arith, h, e)

err-Bounded : (e : Error) → Bounded (err e)
err-Bounded e body c = cc

read_body-Bounded :
    (body : Bytes) (ps : List Piece)
    → length body ≤ max_body
    → All Fits ps
    → Bounded (read_body body ps)
unfolding read_body
read_body-Bounded body [] h fs = ok-Bounded body (omega (arith, h))
read_body-Bounded body (p ∷ ps) h (f, fs) =
    let next = body ++ p.bytes in
    let size : length next ≤ max_body + read_buffer =
      omega (arith, length-append body p.bytes, h, f) in
    if_split Bounded (length p.bytes == 0 || p.failed) (λ _. ok-Bounded next size)
      (λ _.
        if_split Bounded (ltb max_body (length next)) (λ _. err-Bounded doh_too_large)
          (λ e. read_body-Bounded next ps (ground (arith, e)) fs))

-- What an accepted answer satisfies.
abbrev pub Accepted : Bytes → Type 0
Accepted body = (12 ≤ length body) × (length body ≤ max_body + read_buffer)

long_enough-Accepted :
    (r : Result Error Bytes) → Bounded r → (body : Bytes) → long_enough r ≡ ok body → Accepted body
unfolding long_enough
long_enough-Accepted (err e) b body = λ h. cc
long_enough-Accepted (ok got) b body =
    if_split (λ r. r ≡ ok body → Accepted body) (ltb (length got) 12)
      (λ _ c. absurd (let q : err doh_truncated ≡ ok body = c in cc))
      (λ e h.
        let same : ◌≡◌ {A = Result Error Bytes} (ok got) (ok body) = h in
        let most = b body same in ground (arith, e, same, most))

doh_post-Accepted :
    (reply : Option Reply)
    → ((r : Reply) → reply ≡ some r → All Fits r.body)
    → (body : Bytes) → doh_post reply ≡ ok body
    → Accepted body
unfolding doh_post
doh_post-Accepted none fit body = λ h. cc
doh_post-Accepted (some reply) fit body =
    if_split (λ r. r ≡ ok body → Accepted body) (not (reply.status == 200))
      (λ _ c. absurd (let q : err http_status ≡ ok body = c in cc))
      (λ _ h.
        long_enough-Accepted (read_body [] reply.body)
          (read_body-Bounded [] reply.body (omega arith) (fit reply refl)) body h)

module _ {Server : Type 0} (post : Server → Bytes → Option Reply) where
  -- The servers before `s` all failed, and `s` answered `body`.
  pub record AnsweredBy (servers : List Server) (query body : Bytes) : Type 0 where
    before : List Server
    server : Server
    after : List Server
    split : servers ≡ before ++ server ∷ after
    failed : All (λ s. ¬ ((b : Bytes) × (doh_post (post s query) ≡ ok b))) before
    answer : doh_post (post server query) ≡ ok body
    accepted : Accepted body

  AnsweredBy-cons :
      (s : Server) (rest : List Server) (query body : Bytes) (e : Error)
      → doh_post (post s query) ≡ err e
      → AnsweredBy rest query body
      → AnsweredBy (s ∷ rest) query body
  AnsweredBy-cons s rest query body e h a = record {
    before = s ∷ a.before;
    server = a.server;
    after = a.after;
    split = ap (◌∷◌ s) a.split;
    failed = (λ w. let q : err e ≡ ok w.0 = sym h ∙ w.1 in cc, a.failed);
    answer = a.answer;
    accepted = a.accepted;
  }

  first_answer :
      (s : Server) (rest : List Server) (query body : Bytes) (o : Result Error Bytes)
      → ((r : Reply) → post s query ≡ some r → All Fits r.body)
      → (query_wire post rest query ≡ ok body → AnsweredBy rest query body)
      → doh_post (post s query) ≡ o
      → or_else o (query_wire post rest query) ≡ ok body
      → AnsweredBy (s ∷ rest) query body
  first_answer s rest query body (ok got) fit later d h = record {
    before = [];
    server = s;
    after = rest;
    split = refl;
    failed = tt;
    answer = d ∙ h;
    accepted = doh_post-Accepted (post s query) fit body (d ∙ h);
  }
  first_answer s rest query body (err e) fit later d h =
      AnsweredBy-cons s rest query body e d (later h)

  -- Where no `Read` gives more than the buffer: a DoH query that succeeds has the answer of the first server that gave one,
  -- all the servers before it having failed, and the answer has between 12 bytes and
  -- 64 KiB and one buffer of 4096 bytes.
  pub query_wire-AnsweredBy :
      (servers : List Server) (query body : Bytes)
      → ((s : Server) (r : Reply) → post s query ≡ some r → All Fits r.body)
      → query_wire post servers query ≡ ok body
      → AnsweredBy servers query body
  unfolding query_wire
  query_wire-AnsweredBy [] query body fit h = cc
  query_wire-AnsweredBy (s ∷ rest) query body fit h =
      first_answer s rest query body (doh_post (post s query)) (fit s)
        (query_wire-AnsweredBy rest query body fit) refl h
