-- ===== src/Mux/Session/Table.antt =====
-- The table of a session's streams and the store behind it (session.go): lookups, and the parts of
-- the session's invariant.
use toppa.Base.{
  ℕ, zero, suc, ◌<◌, ◌≡◌, ◌≢◌, refl, ◌∙◌, subst, inl, inr, none, some, List, [], ◌∷◌, ◌++◌, arith,
}
use toppa.Base.Tests.{◌==◌, if◌then◌else◌, Bool-cases}
use toppa.Base.Lists.{length, get_elem?, set, All, get_elem?-set_self, get_elem?-set_ne}
use toppa.Mux.Stream.{Stream}
use toppa.Mux.Session.State.{find_id, delete_id, put_id}

pub find_id-delete_id :
    (i j : ℕ) (m : List (ℕ × ℕ))
    → find_id i (delete_id j m) ≡ (if i == j then none else find_id i m)
unfolding find_id delete_id
find_id-delete_id i j [] = ground arith
find_id-delete_id i j ((k, a) ∷ m) = ground (arith, find_id-delete_id i j m)

pub find_id-put_id :
    (i j a : ℕ) (m : List (ℕ × ℕ))
    → find_id i (put_id j a m) ≡ (if i == j then some a else find_id i m)
unfolding find_id put_id
find_id-put_id i j a m = ground (arith, find_id-delete_id i j m)

module _ {κ} (P : ℕ × ℕ → Type κ) where
  pub All-delete_id : (j : ℕ) (m : List (ℕ × ℕ)) → All P m → All P (delete_id j m)
  unfolding delete_id
  All-delete_id j [] h = tt
  All-delete_id j ((k, a) ∷ m) (p, h) = elim (Bool-cases (k == j)) [
    | inl e ↦ rw e (All-delete_id j m h)
    | inr e ↦ rw e (p, All-delete_id j m h)
  ]

-- No two entries of a table have one id.
abbrev pub Distinct : List (ℕ × ℕ) → Type 0
Distinct [] = Unit {0}
Distinct ((k, a) ∷ m) = All (λ e. e.0 ≢ k) m × Distinct m

delete_id-All_ne : (j : ℕ) (m : List (ℕ × ℕ)) → All (λ e. e.0 ≢ j) (delete_id j m)
unfolding delete_id
delete_id-All_ne j [] = tt
delete_id-All_ne j ((k, a) ∷ m) = elim (Bool-cases (k == j)) [
  | inl e ↦ rw e (delete_id-All_ne j m)
  | inr e ↦ rw e (ground (arith, e), delete_id-All_ne j m)
]

pub Distinct-delete_id : (j : ℕ) (m : List (ℕ × ℕ)) → Distinct m → Distinct (delete_id j m)
unfolding delete_id
Distinct-delete_id j [] h = tt
Distinct-delete_id j ((k, a) ∷ m) (p, h) = elim (Bool-cases (k == j)) [
  | inl e ↦ rw e (Distinct-delete_id j m h)
  | inr e ↦ rw e (All-delete_id (λ e. e.0 ≢ k) j m p, Distinct-delete_id j m h)
]

pub Distinct-put_id : (j a : ℕ) (m : List (ℕ × ℕ)) → Distinct m → Distinct (put_id j a m)
unfolding put_id
Distinct-put_id j a m h = (delete_id-All_ne j m, Distinct-delete_id j m h)

-- The entry's address holds the stream of its id.
abbrev pub Holds : List Stream → ℕ × ℕ → Type 0
Holds objs e = (st : Stream) × (get_elem? objs e.1 ≡ some st) × (st.id ≡ e.0)

abbrev pub Named : List Stream → List (ℕ × ℕ) → Type 0
Named objs = All (Holds objs)

get_elem?-append_left :
    {A : Type 0} (xs ys : List A) (i : ℕ) (a : A)
    → get_elem? xs i ≡ some a
    → get_elem? (xs ++ ys) i ≡ some a
get_elem?-append_left [] ys i a h = cc
get_elem?-append_left (x ∷ xs) ys zero a h = h
get_elem?-append_left (x ∷ xs) ys (suc i) a h = get_elem?-append_left xs ys i a h

pub get_elem?-append_end :
    {A : Type 0} (xs : List A) (a : A) → get_elem? (xs ++ a ∷ []) (length xs) ≡ some a
get_elem?-append_end [] a = refl
get_elem?-append_end (x ∷ xs) a = get_elem?-append_end xs a

pub get_elem?-lt :
    {A : Type 0} (xs : List A) (i : ℕ) (a : A) → get_elem? xs i ≡ some a → i < length xs
get_elem?-lt [] i a h = cc
get_elem?-lt (x ∷ xs) zero a h = omega arith
get_elem?-lt (x ∷ xs) (suc i) a h = omega (arith, get_elem?-lt xs i a h)

pub Named-append :
    (objs : List Stream) (st : Stream) (m : List (ℕ × ℕ)) → Named objs m → Named (objs ++ st ∷ []) m
Named-append objs st [] h = tt
Named-append objs st (e ∷ m) ((st', g, q), h) =
    ((st', get_elem?-append_left objs (st ∷ []) e.1 st' g, q), Named-append objs st m h)

Holds-set :
    (objs : List Stream) (a : ℕ) (old st : Stream) (e : ℕ × ℕ)
    → get_elem? objs a ≡ some old
    → st.id ≡ old.id
    → Holds objs e
    → Holds (set objs a st) e
Holds-set objs a old st (k, b) g same (x, gx, q) = elim (Bool-cases (a == b)) [
  | inl hit ↦
      let ab : a ≡ b = ground (arith, hit) in
      (
        st,
        subst (λ i. get_elem? (set objs a st) i ≡ some st) ab
            (get_elem?-set_self objs a st (get_elem?-lt objs a old g)),
        ground (arith, same, q, gx, subst (λ i. get_elem? objs i ≡ some old) ab g),
      )
  | inr miss ↦ (x, get_elem?-set_ne objs {i = a} {j = b} st (ground (arith, miss)) ∙ gx, q)
]

-- Writing a stream back with its id unchanged keeps every name.
pub Named-set :
    (objs : List Stream) (a : ℕ) (old st : Stream) (m : List (ℕ × ℕ))
    → get_elem? objs a ≡ some old
    → st.id ≡ old.id
    → Named objs m
    → Named (set objs a st) m
Named-set objs a old st [] g same h = tt
Named-set objs a old st (e ∷ m) g same (p, h) =
    (Holds-set objs a old st e g same p, Named-set objs a old st m g same h)

pub Named-find_id :
    (objs : List Stream) (id : ℕ) (m : List (ℕ × ℕ)) (a : ℕ)
    → Named objs m
    → find_id id m ≡ some a
    → (st : Stream) × (get_elem? objs a ≡ some st) × (st.id ≡ id)
unfolding find_id
Named-find_id objs id [] a h e = cc
Named-find_id objs id ((k, b) ∷ m) a ((st, g, q), h) e = elim (Bool-cases (k == id)) [
  | inl hit ↦
      let ba : b ≡ a = ground (arith, hit, e) in
      (st, subst (λ i. get_elem? objs i ≡ some st) ba g, ground (arith, q, hit))
  | inr miss ↦ Named-find_id objs id m a h (rw miss at e)
]
