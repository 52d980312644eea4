-- ===== src/Toppactl/Echoing.antt =====
-- What `toppactl ping` (desktop/cmd/toppactl/main.go) has seen where it succeeds.
use toppa.Base.{
  ℕ, zero, suc, ◌+◌, ◌<◌, ◌≡◌, ◌↔◌, refl, sym, ap, ◌∙◌, subst, true, not, ◌||◌, Option, none, some,
  [], ◌∷◌, arith,
}
use toppa.Base.Tests.{ltb, ==_refl, if_split}
use toppa.Base.Lists.{length}
use toppa.Base.Bytes.{Bytes}
use toppa.Base.Results.{Result, ok, err, fst_eq, snd_eq}
use toppa.Toppactl.Ping.{
  PingError, bad_flags, write_failed, read_failed, mismatch, payload, same_from, bytes_equal,
  compared, written, rounds, ping, Echoed, done, round,
}

same_from_sound : (a b : Bytes) → length a ≡ length b → same_from a b ≡ true → a ≡ b
unfolding same_from
same_from_sound [] [] l e = refl
same_from_sound [] (y ∷ b) l e = absurd (omega (arith, l))
same_from_sound (x ∷ a) [] l e = absurd (omega (arith, l))
same_from_sound (x ∷ a) (y ∷ b) l e =
    let rest : same_from a b ≡ true → a ≡ b = same_from_sound a b (omega (arith, l)) in
    let both : (x ≡ y) × (same_from a b ≡ true) = ground (arith, e) in cons_eq both.0 (rest both.1)
  where
    cons_eq : x ≡ y → a ≡ b → (x ∷ a) ≡ (y ∷ b)
    cons_eq p q = cc

same_from_refl : (a : Bytes) → same_from a a ≡ true
unfolding same_from
same_from_refl [] = refl
same_from_refl (x ∷ a) = ground (arith, ==_refl x, same_from_refl a)

bytes_equal_sound : (a b : Bytes) → bytes_equal a b ≡ true → a ≡ b
unfolding bytes_equal
bytes_equal_sound a b e = same_from_sound a b (ground (arith, e)) (ground (arith, e))

bytes_equal_refl : (a : Bytes) → bytes_equal a a ≡ true
unfolding bytes_equal
bytes_equal_refl a = ground (arith, same_from_refl a, ==_refl (length a))

module _ {T E : Type 0} (write : T → Bytes → T × Option E)
    (read_full : T → ℕ → T × Result E Bytes) where
  some_error {ℓ} :
      {X : Type ℓ} (t t' : T) (e : PingError E)
      → ◌≡◌ {A = T × Option (PingError E)} (t, some e) (t', none)
      → X
  some_error t t' e h = absurd (apart (snd_eq h))
    where
      apart : some e ≡ none → ⊥
      apart q = cc

  -- A round that does not fail has written the payload and read it back.
  round_done :
      (later : T → T × Option (PingError E)) (i size : ℕ) (t t' : T)
      → written write read_full later i size (write t (payload size)) ≡ (t', none)
      → (t1 : T) × (t2 : T) × (write t (payload size) ≡ (t1, none))
        × (read_full t1 size ≡ (t2, ok (payload size)))
        × (later t2 ≡ (t', none))
  unfolding written compared
  round_done later i size t t' h = after_write (write t (payload size)) refl h
    where
      Seen : Type 0
      Seen =
          (t1 : T) × (t2 : T) × (write t (payload size) ≡ (t1, none))
          × (read_full t1 size ≡ (t2, ok (payload size)))
          × (later t2 ≡ (t', none))

      after_read :
          (t1 : T) (o : T × Result E Bytes)
          → write t (payload size) ≡ (t1, none)
          → read_full t1 size ≡ o
          → compared write read_full later i size o ≡ (t', none)
          → Seen
      after_read t1 (t2, err e) w r k = some_error t2 t' (read_failed e) k
      after_read t1 (t2, ok echo) w r k =
          if_split (λ (x : T × Option (PingError E)). x ≡ (t', none) → Seen)
            (not (bytes_equal (payload size) echo)) (λ _ q. some_error t2 t' (mismatch i) q)
            (λ same q. (
              t1,
              t2,
              w,
              r
                  ∙ ap (λ b. (t2, ok b))
                      (sym (bytes_equal_sound (payload size) echo (ground (arith, same)))),
              q,
            ))
            k

      after_write :
          (o : T × Option E)
          → write t (payload size) ≡ o
          → written write read_full later i size o ≡ (t', none)
          → Seen
      after_write (t1, some e) w k = some_error t1 t' (write_failed e) k
      after_write (t1, none) w k = after_read t1 (read_full t1 size) w refl k

  rounds-Echoed :
      (left i size : ℕ) (t t' : T)
      → rounds write read_full left i size t ≡ (t', none)
      → Echoed write read_full size left t t'
  unfolding rounds
  rounds-Echoed zero i size t t' h = subst (Echoed write read_full size 0 t) (fst_eq h) (done t)
  rounds-Echoed (suc left) i size t t' h =
      let (t1, t2, w, r, k) = round_done (rounds write read_full left (i + 1) size) i size t t' h in
      round left t t1 t2 t' w r (rounds-Echoed left (i + 1) size t2 t' k)

  Echoed-rounds :
      (size left i : ℕ) (t t' : T)
      → Echoed write read_full size left t t'
      → rounds write read_full left i size t ≡ (t', none)
  unfolding rounds written compared
  Echoed-rounds size _ i _ _ (done t) = refl
  Echoed-rounds size _ i _ _ (round n t t1 t2 t' w r more) =
      rw (w, r, bytes_equal_refl (payload size)) (Echoed-rounds size n (i + 1) t2 t' more)

  -- `ping` succeeds exactly where both flags are positive and, in as many rounds as were asked for, the payload was written
  -- whole and the bytes read back were the payload.
  pub ping_succeeds_iff :
      (count size : ℕ) (t t' : T)
      → (ping write read_full count size t ≡ (t', none))
        ↔ ((0 < count) × (0 < size) × Echoed write read_full size count t t')
  unfolding ping
  ping_succeeds_iff count size t t' = (
    if_split
        (λ (x : T × Option (PingError E)).
          x ≡ (t', none) → (0 < count) × (0 < size) × Echoed write read_full size count t t')
        (ltb count 1 || ltb size 1) (λ _ h. some_error t t' bad_flags h)
        (λ flags h.
          (ground (arith, flags), ground (arith, flags), rounds-Echoed count 1 size t t' h)),
    λ (c, s, e). ground (arith, c, s, Echoed-rounds size count 1 t t' e),
  )
