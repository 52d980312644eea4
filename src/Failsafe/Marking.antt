-- ===== src/Failsafe/Marking.antt =====
-- What marking an entry of desktop/internal/failsafe/journal.go does to the outstanding ones.
use toppa.Base.{inl, inr, ℕ, ◌≡◌, ◌≢◌, sym, some, List, [], ◌∷◌, ◌++◌, arith}
use toppa.Base.Tests.{Bool-cases}
use toppa.Base.Lists.{All}
use toppa.Failsafe.Journal.{rolledback, Entry, marked, behind, is_live, outstanding}

-- No two entries have the same id.
abbrev pub Distinct : List Entry → Type 0
Distinct [] = Unit
Distinct (e ∷ es) = All (λ x. x.id ≢ e.id) es × Distinct es

abbrev NotId : ℕ → List Entry → Type 0
NotId k = All (λ x. x.id ≢ k)

NotId-outstanding :
    (k : ℕ) (es xs ys : List Entry) (e : Entry)
    → NotId k es
    → outstanding es ≡ xs ++ (e ∷ ys)
    → e.id ≢ k
unfolding outstanding
NotId-outstanding k [] [] ys e h eq = cc
NotId-outstanding k [] (z ∷ xs) ys e h eq = cc
NotId-outstanding k (x ∷ es) [] ys e (px, h) eq = elim (Bool-cases (is_live x.state)) [
  | inl live ↦ ground (arith, eq, live, px)
  | inr dead ↦ NotId-outstanding k es [] ys e h (ground (arith, eq, dead))
]
NotId-outstanding k (x ∷ es) (z ∷ xs) ys e (px, h) eq = elim (Bool-cases (is_live x.state)) [
  | inl live ↦ NotId-outstanding k es xs ys e h (ground (arith, eq, live))
  | inr dead ↦ NotId-outstanding k es (z ∷ xs) ys e h (ground (arith, eq, dead))
]

pub record Marked (id : ℕ) (es left : List Entry) : Type 0 where
  pub now : List Entry
  pub found : marked id rolledback es ≡ some now
  pub leaves : outstanding now ≡ left
  pub ids : (k : ℕ) → NotId k es → NotId k now
  pub distinct : Distinct es → Distinct now

here-Marked :
    (x : Entry) (es left : List Entry) (id : ℕ)
    → x.id ≡ id
    → outstanding es ≡ left
    → Marked id (x ∷ es) left
unfolding marked outstanding is_live
here-Marked x es left id e l = record {
  now = record x { state = rolledback } ∷ es;
  found = ground (arith, e);
  leaves = l;
  ids = λ k h. h;
  distinct = λ d. d;
}

later-Marked :
    (x : Entry) (es left left' : List Entry) (id : ℕ)
    → x.id ≢ id
    → ((es' : List Entry) → outstanding es' ≡ left → outstanding (x ∷ es') ≡ left')
    → Marked id es left
    → Marked id (x ∷ es) left'
unfolding marked behind
later-Marked x es left left' id ne out m = record {
  now = x ∷ m.now;
  found = ground (arith, ne, m.found);
  leaves = out m.now m.leaves;
  ids = λ k h. (h.0, m.ids k h.1);
  distinct = λ d. (m.ids x.id d.0, m.distinct d.1);
}

-- Marking an outstanding entry takes that one, and no other, out of what is outstanding.
pub outstanding-Marked :
    (es xs ys : List Entry) (e : Entry)
    → Distinct es
    → outstanding es ≡ xs ++ (e ∷ ys)
    → Marked e.id es (xs ++ ys)
unfolding outstanding
outstanding-Marked [] [] ys e d eq = absurd cc
outstanding-Marked [] (z ∷ xs) ys e d eq = absurd cc
outstanding-Marked (x ∷ es) [] ys e (px, d) eq = elim (Bool-cases (is_live x.state)) [
  | inl live ↦ here-Marked x es ys e.id (ground (arith, eq, live)) (ground (arith, eq, live))
  | inr dead ↦
      let rest : outstanding es ≡ e ∷ ys = ground (arith, eq, dead) in
      later-Marked x es ys ys e.id (λ c. NotId-outstanding x.id es [] ys e px rest (sym c))
        (λ es' h. ground (arith, dead, h)) (outstanding-Marked es [] ys e d rest)
]
outstanding-Marked (x ∷ es) (z ∷ xs) ys e (px, d) eq = elim (Bool-cases (is_live x.state)) [
  | inl live ↦
      let rest : outstanding es ≡ xs ++ (e ∷ ys) = ground (arith, eq, live) in
      later-Marked x es (xs ++ ys) (z ∷ (xs ++ ys)) e.id
        (λ c. NotId-outstanding x.id es xs ys e px rest (sym c))
        (λ es' h. ground (arith, live, h, eq)) (outstanding-Marked es xs ys e d rest)
  | inr dead ↦
      let rest : outstanding es ≡ (z ∷ xs) ++ (e ∷ ys) = ground (arith, eq, dead) in
      later-Marked x es (z ∷ (xs ++ ys)) (z ∷ (xs ++ ys)) e.id
        (λ c. NotId-outstanding x.id es (z ∷ xs) ys e px rest (sym c))
        (λ es' h. ground (arith, dead, h)) (outstanding-Marked es (z ∷ xs) ys e d rest)
]
