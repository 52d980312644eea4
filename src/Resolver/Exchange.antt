-- ===== src/Resolver/Exchange.antt =====
-- One DNS exchange over TCP in desktop/internal/resolver/resolver.go.
use toppa.Base.{
  ℕ, zero, suc, ◌-◌, ◌≤◌, ◌<◌, ◌≡◌, refl, sym, ap, ◌∙◌, true, false, ◌||◌, none, some, List, [],
  ◌∷◌, ◌++◌, append-nil, arith,
}
use toppa.Base.Tests.{ltb, ◌==◌, if◌then◌else◌, if_split}
use toppa.Base.Lists.{
  length, take, drop, All, length-append, length-take, take_all, drop_all, take-append,
  take_of_append, drop_of_append,
}
use toppa.Base.Bytes.{Bytes, be, put_u16, be-put_u16}
use toppa.Base.Results.{Result, ok, err}
use toppa.Resolver.Tcp.{
  Error, bad_size, Piece, Filled, filled, prepended, read_full, max_message, max_answer, Upstream,
  Written, framed_answer, send_answer, with_query, with_size, handle_tcp,
}

-- The bytes of a connection, however they are cut into pieces.
abbrev pub joined : List Piece → Bytes
joined [] = []
joined (p ∷ ps) = p.bytes ++ joined ps

abbrev pub Unfailing : Piece → Type 0
Unfailing p = p.failed ≡ false

-- The first `n` bytes were read, and what is left is the rest of the stream.
pub record FilledWith (n : ℕ) (ps : List Piece) (f : Filled) : Type 0 where
  pub rest : List Piece
  pub done : f ≡ filled (take n (joined ps)) rest
  pub left : joined rest ≡ drop n (joined ps)
  pub unfailing : All Unfailing rest

FilledWith-zero : (ps : List Piece) → All Unfailing ps → FilledWith 0 ps (filled [] ps)
FilledWith-zero ps u = record { rest = ps; done = refl; left = refl; unfailing = u }

-- A piece that is longer than what is wanted.
FilledWith-long :
    (n : ℕ) (p : Piece) (ps : List Piece)
    → n < length p.bytes
    → All Unfailing (p ∷ ps)
    → FilledWith n
        (p ∷ ps)
        (filled (take n p.bytes) (record { bytes = drop n p.bytes; failed = p.failed } ∷ ps))
FilledWith-long n p ps h u = record {
  rest = record { bytes = drop n p.bytes; failed = p.failed } ∷ ps;
  done =
      ap (λ b. filled b (record { bytes = drop n p.bytes; failed = p.failed } ∷ ps))
        (sym (
          take_of_append n p.bytes (joined ps)
          ∙ ap (λ k. take n p.bytes ++ take k (joined ps)) none_left
          ∙ append-nil (take n p.bytes)));
  left = sym (
      drop_of_append n p.bytes (joined ps)
      ∙ ap (λ k. drop n p.bytes ++ drop k (joined ps)) none_left);
  unfailing = u;
}
  where
    none_left : n - length p.bytes ≡ 0
    none_left = omega (arith, h)

-- A piece that is taken whole.
FilledWith-whole :
    (n : ℕ) (p : Piece) (ps : List Piece) (f : Filled)
    → length p.bytes ≤ n
    → FilledWith (n - length p.bytes) ps f
    → FilledWith n (p ∷ ps) (prepended p.bytes f)
FilledWith-whole n p ps f h w = record {
  rest = w.rest;
  done =
      ap (prepended p.bytes) w.done
      ∙ ap (λ b. filled b w.rest)
          (sym (
            take_of_append n p.bytes (joined ps)
            ∙ ap (λ b. b ++ take (n - length p.bytes) (joined ps)) (take_all n p.bytes h)));
  left =
      w.left
      ∙ sym (
          drop_of_append n p.bytes (joined ps)
          ∙ ap (λ b. b ++ drop (n - length p.bytes) (joined ps)) (drop_all n p.bytes h));
  unfailing = w.unfailing;
}

-- A read of no more bytes than the stream has takes them, wherever the pieces end.
pub read_full-FilledWith :
    (n : ℕ) (ps : List Piece)
    → All Unfailing ps
    → n ≤ length (joined ps)
    → FilledWith n ps (read_full n ps)
unfolding read_full
read_full-FilledWith zero [] u h = FilledWith-zero [] tt
read_full-FilledWith (suc n) [] u h = absurd (omega arith)
read_full-FilledWith zero (p ∷ ps) u h = FilledWith-zero (p ∷ ps) u
read_full-FilledWith (suc n) (p ∷ ps) (sound, u) h =
    if_split (FilledWith (suc n) (p ∷ ps)) (suc n == 0) (λ e. absurd (ground (arith, e)))
      (λ _.
        if_split (FilledWith (suc n) (p ∷ ps)) (ltb (suc n) (length p.bytes))
          (λ e. FilledWith-long (suc n) p ps (ground (arith, e)) (sound, u))
          (λ e.
            if_split (FilledWith (suc n) (p ∷ ps)) p.failed (λ c. absurd (ground (arith, c, sound)))
              (λ _.
                FilledWith-whole (suc n) p ps (read_full (suc n - length p.bytes) ps)
                  (ground (arith, e))
                  (read_full-FilledWith (suc n - length p.bytes) ps u
                    (omega (arith, length-append p.bytes (joined ps), h))))))

-- What is written for a result of the upstream: its error, or the message with its length in front, cut at the greatest
-- length that two bytes can say.
abbrev pub Answers : Result Error Bytes → Written → Type 0
Answers (err e) w = w ≡ ([], some e)
Answers (ok response) w =
    (be (take 2 w.0) ≡ length (drop 2 w.0)) × (drop 2 w.0 ≡ take max_answer response) × (w.1 ≡ none)

framed : (r : Bytes) → length r ≤ max_answer → be (take 2 (put_u16 (length r) ++ r)) ≡ length r
framed r h = be-put_u16 (length r) (omega (arith, h))

framed_answer-Answers : (response : Bytes) → Answers (ok response) (framed_answer response, none)
unfolding framed_answer
framed_answer-Answers response =
    let short = take max_answer response in (framed cut (small), exact, refl)
  where
    cut : Bytes
    cut = if ltb max_answer (length response) then take max_answer response else response

    exact : cut ≡ take max_answer response
    exact =
        if_split (λ r. r ≡ take max_answer response) (ltb max_answer (length response)) (λ _. refl)
          (λ e. sym (take_all max_answer response (ground (arith, e))))

    small : length cut ≤ max_answer
    small = ground (arith, ap length exact, length-take max_answer response)

send_answer-Answers : (r : Result Error Bytes) → Answers r (send_answer true r)
unfolding send_answer
send_answer-Answers (ok response) = framed_answer-Answers response
send_answer-Answers (err e) = refl

module _ (upstream : Upstream) (query more : Bytes) where
  with_query-Answers :
      (f : Filled) (rest : List Piece)
      → f ≡ filled query rest
      → Answers (upstream query) (with_query upstream true f)
  unfolding with_query
  with_query-Answers f rest e = rw e (send_answer-Answers (upstream query))

  with_size-Answers :
      (f : Filled) (rest : List Piece)
      → 12 ≤ length query
      → length query ≤ max_message
      → f ≡ filled (put_u16 (length query)) rest
      → joined rest ≡ query ++ more
      → All Unfailing rest
      → Answers (upstream query) (with_size upstream true f)
  unfolding with_size
  with_size-Answers f rest low high e left u = rw e sized
    where
      says : be (put_u16 (length query)) ≡ length query
      says = be-put_u16 (length query) (omega (arith, high))

      body : FilledWith (length query) rest (read_full (length query) rest)
      body =
          read_full-FilledWith (length query) rest u
            (omega (arith, ap length left, length-append query more))

      whole : read_full (length query) rest ≡ filled query body.rest
      whole =
          body.done
          ∙ ap (λ b. filled b body.rest) (ap (take (length query)) left ∙ take-append query more)

      sized : Answers (upstream query) (
          if ltb (be (put_u16 (length query))) 12 || ltb max_message (be (put_u16 (length query)))
          then ([], some bad_size)
          else with_query upstream true (read_full (be (put_u16 (length query))) rest))
      sized =
          if_split (Answers (upstream query))
            (ltb (be (put_u16 (length query))) 12 || ltb max_message (be (put_u16 (length query))))
            (λ c. absurd (ground (arith, c, says)))
            (λ _.
              with_query-Answers (read_full (be (put_u16 (length query))) rest) body.rest
                (ap (λ k. read_full k rest) says ∙ whole))

  -- On a connection whose bytes, in whatever pieces they come and with no read that fails, start with a query of 12 to 4096 bytes behind its length,
  -- and where the writing succeeds, the upstream is asked exactly that query and its result is
  -- what is written: its error and no byte, or its answer, cut at 65535 bytes, behind the length of what follows.
  pub handle_tcp-Answers :
      (conn : List Piece)
      → 12 ≤ length query
      → length query ≤ max_message
      → joined conn ≡ put_u16 (length query) ++ query ++ more
      → All Unfailing conn
      → Answers (upstream query) (handle_tcp upstream true conn)
  unfolding handle_tcp
  handle_tcp-Answers conn low high bytes u =
      let size = read_full-FilledWith 2 conn u (rw bytes (omega arith)) in
      with_size-Answers (read_full 2 conn) size.rest low high
        (size.done ∙ ap (λ b. filled (take 2 b) size.rest) bytes) (size.left ∙ ap (drop 2) bytes)
        size.unfailing
