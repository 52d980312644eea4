-- ===== src/Failsafe/Rollback.antt =====
-- What `Add` and `RollbackAll` of desktop/internal/failsafe/journal.go do to the outstanding entries.
use mathlib.Core.List.{reverse, reverse-cons, reverse-append, reverse-reverse}
use toppa.Base.{
  inl, inr, ◌⊎◌, ℕ, ◌+◌, ◌≡◌, ◌≢◌, refl, sym, ap, ◌∙◌, Bool, true, false, none, some, List, [], ◌∷◌,
  ◌++◌, append_assoc, append-nil, arith,
}
use toppa.Base.Tests.{Option-cases}
use toppa.Base.Lists.{length, length-append}
use toppa.Base.Bytes.{Bytes}
use toppa.Base.Results.{ok}
use toppa.Failsafe.Journal.{
  rolledback, Entry, Journal, persist, returned, new_entry, add, reopen, store_marked, mark_state,
  is_live, outstanding, Outcome, after_run, keep_first, rollback_loop, rollback_all,
}
use toppa.Failsafe.Marking.{Distinct, outstanding-Marked}

outstanding-append :
    (xs ys : List Entry) → outstanding (xs ++ ys) ≡ outstanding xs ++ outstanding ys
unfolding outstanding
outstanding-append [] ys = refl
outstanding-append (x ∷ xs) ys = ground (arith, outstanding-append xs ys)

persist-ok :
    (k j' : Journal) (entry e : Entry)
    → returned entry (persist k) ≡ (j', ok e)
    → (j'.file ≡ k.entries) × (entry ≡ e)
unfolding persist returned
persist-ok k j' entry e h = ground (arith, h)

-- When `Add` returns an entry, a journal opened after a crash lists it behind what was outstanding,
-- whatever happens to the mutation itself.
pub add_is_durable :
    (j j' : Journal) (id now : ℕ) (description : Bytes) (apply undo : List Bytes) (e : Entry)
    → add j id now description apply undo ≡ (j', ok e)
    → (outstanding (reopen j').entries ≡ outstanding j.entries ++ (e ∷ [])) × (e.undo ≡ undo)
unfolding add reopen new_entry is_live outstanding
add_is_durable j j' id now description apply undo e h =
    let entry = new_entry id now description apply undo in
    let p = persist-ok (record j { entries = j.entries ++ (entry ∷ []) }) j' entry e h in
    (
      ap outstanding p.0
          ∙ outstanding-append j.entries (entry ∷ [])
          ∙ ap (λ x. outstanding j.entries ++ (x ∷ [])) p.1,
      sym (ap (λ x. x.undo) p.1),
    )

-- A journal whose disk works, whose file is up to date and whose ids are distinct.
pub record Healthy (j : Journal) : Type 0 where
  pub distinct : Distinct j.entries
  pub works : j.disk ≡ []
  pub synced : j.file ≡ j.entries

record Taken (j : Journal) (id : ℕ) (left : List Entry) : Type 0 where
  after : Journal
  result : mark_state j id rolledback ≡ (after, none)
  healthy : Healthy after
  leaves : outstanding after.entries ≡ left

persist-works : (k : Journal) → k.disk ≡ [] → persist k ≡ (record k { file = k.entries }, none)
unfolding persist
persist-works k h = ground (arith, h)

mark_state-Taken :
    (j : Journal) (xs ys : List Entry) (e : Entry)
    → Healthy j
    → outstanding j.entries ≡ xs ++ (e ∷ ys)
    → Taken j e.id (xs ++ ys)
unfolding mark_state store_marked
mark_state-Taken j xs ys e h eq =
    let m = outstanding-Marked j.entries xs ys e h.distinct eq in
    record {
      after = record { entries = m.now; file = m.now; disk = j.disk };
      result = ap (store_marked j) m.found ∙ persist-works (record j { entries = m.now }) h.works;
      healthy = record { distinct = m.distinct h.distinct; works = h.works; synced = refl };
      leaves = m.leaves;
    }

length-reverse : (es : List Entry) → length (reverse es) ≡ length es
length-reverse [] = refl
length-reverse (e ∷ es) =
    ap length (reverse-cons e es)
    ∙ length-append (reverse es) (e ∷ [])
    ∙ omega (arith, length-reverse es)

module _ {W : Type 0} where
  -- What the undos do to the world, in the order of the list.
  abbrev pub replay : (W → Entry → W × Bool) → W → List Entry → W
  replay run w [] = w
  replay run w (e ∷ es) = replay run (run w e).0 es

  after_run-world : (o : Outcome W) (e : Entry) (r : W × Bool) → (after_run o e r).world ≡ r.0
  unfolding after_run
  after_run-world o e (w, true) = refl
  after_run-world o e (w, false) = elim (Option-cases o.first_err) [
    | inl h ↦ rw (h, after_run) refl
    | inr (first, h) ↦ rw (h, after_run) refl
  ]

  -- Whether undos fail or not, and whatever the journal can store, each entry is undone once.
  pub rollback_loop-world :
      (run : W → Entry → W × Bool) (es : List Entry) (o : Outcome W)
      → (rollback_loop run es o).world ≡ replay run o.world es
  unfolding rollback_loop
  rollback_loop-world run [] o = refl
  rollback_loop-world run (e ∷ es) o =
      rollback_loop-world run es (after_run o e (run o.world e))
      ∙ ap (λ w. replay run w es) (after_run-world o e (run o.world e))

  after_run-marks :
      (o : Outcome W) (e : Entry) (r : W × Bool) (j : Journal)
      → mark_state o.journal e.id rolledback ≡ (j, none)
      → (r.1 ≡ true) ⊎ (o.first_err ≢ none)
      → after_run o e r
        ≡ record { world = r.0; journal = j; rolled = o.rolled + 1; first_err = o.first_err }
  unfolding after_run keep_first
  after_run-marks o e (w, true) j m h = ground (arith, m)
  after_run-marks o e (w, false) j m h = ground (arith, m, h)

  after_run-fails :
      (j : Journal) (w : W) (e : Entry) (r : W × Bool)
      → r.1 ≡ false
      → after_run (record { world = w; journal = j; rolled = 0; first_err = none }) e r
        ≡ record { world = r.0; journal = j; rolled = 0; first_err = some none }
  unfolding after_run
  after_run-fails j w e (v, true) h = cc
  after_run-fails j w e (v, false) h = refl

  record Drained (run : W → Entry → W × Bool) (es ys : List Entry) (o p : Outcome W) : Type 0 where
    world : p.world ≡ replay run o.world es
    rolled : p.rolled ≡ o.rolled + length es
    leaves : outstanding p.journal.entries ≡ ys
    healthy : Healthy p.journal
    first : p.first_err ≡ o.first_err

  rollback_loop-Drained :
      (run : W → Entry → W × Bool) (es ys : List Entry) (o : Outcome W)
      → Healthy o.journal
      → outstanding o.journal.entries ≡ reverse es ++ ys
      → ((w : W) (e : Entry) → ((run w e).1 ≡ true) ⊎ (o.first_err ≢ none))
      → Drained run es ys o (rollback_loop run es o)
  unfolding rollback_loop
  rollback_loop-Drained run [] ys o h eq marks = record {
    world = refl;
    rolled = omega arith;
    leaves = eq;
    healthy = h;
    first = refl;
  }
  rollback_loop-Drained run (e ∷ es) ys o h eq marks =
      let t =
        mark_state-Taken o.journal (reverse es) ys e h
          (eq ∙ ap (λ l. l ++ ys) (reverse-cons e es) ∙ append_assoc (reverse es) (e ∷ []) ys) in
      let next : Outcome W = record {
        world = (run o.world e).0;
        journal = t.after;
        rolled = o.rolled + 1;
        first_err = o.first_err;
      } in
      let step = after_run-marks o e (run o.world e) t.after t.result (marks o.world e) in
      let d = rollback_loop-Drained run es ys next t.healthy t.leaves marks in
      rw step (record {
        world = d.world;
        rolled = d.rolled ∙ omega arith;
        leaves = d.leaves;
        healthy = d.healthy;
        first = d.first;
      })

  -- For a journal with distinct ids, a file that is up to date and a disk that works, and when
  -- every undo succeeds, a rollback undoes the outstanding entries from the last to the first,
  -- counts them all, leaves none outstanding even for the next process, and reports no error.
  pub rollback_all_reverts :
      (run : W → Entry → W × Bool) (w : W) (j : Journal)
      → Healthy j
      → ((v : W) (e : Entry) → (run v e).1 ≡ true)
      → ((rollback_all run w j).world ≡ replay run w (reverse (outstanding j.entries)))
        × ((rollback_all run w j).rolled ≡ length (outstanding j.entries))
        × (outstanding (reopen (rollback_all run w j).journal).entries ≡ [])
        × ((rollback_all run w j).first_err ≡ none)
  unfolding rollback_all reopen
  rollback_all_reverts run w j h succeeds =
      let es = outstanding j.entries in
      let d =
        rollback_loop-Drained run (reverse es) []
          (record { world = w; journal = j; rolled = 0; first_err = none }) h
          (sym (ap (λ l. l ++ []) (reverse-reverse es) ∙ append-nil es))
          (λ v e. inl (succeeds v e)) in
      (
        d.world,
        d.rolled ∙ omega (arith, length-reverse es),
        ap outstanding d.healthy.synced ∙ d.leaves,
        d.first,
      )

  -- For a journal with distinct ids, a file that is up to date, a disk that works and an
  -- outstanding entry, and when every undo fails, only the first one tried, that of the last
  -- entry, stays outstanding: every other entry is counted as rolled back and marked so, though
  -- nothing was undone.
  pub rollback_all_drops_failures :
      (run : W → Entry → W × Bool) (w : W) (j : Journal) (es : List Entry) (e : Entry)
      → Healthy j
      → outstanding j.entries ≡ es ++ (e ∷ [])
      → ((v : W) (x : Entry) → (run v x).1 ≡ false)
      → ((rollback_all run w j).rolled ≡ length es)
        × (outstanding (reopen (rollback_all run w j).journal).entries ≡ e ∷ [])
        × ((rollback_all run w j).first_err ≡ some none)
  unfolding rollback_all rollback_loop reopen
  rollback_all_drops_failures run w j es e h eq fails =
      let back : reverse (outstanding j.entries) ≡ e ∷ reverse es =
        ap reverse eq ∙ reverse-append es (e ∷ []) in
      let o : Outcome W = record {
        world = (run w e).0;
        journal = j;
        rolled = 0;
        first_err = some none;
      } in
      let d =
        rollback_loop-Drained run (reverse es) (e ∷ []) o h
          (eq ∙ ap (λ l. l ++ (e ∷ [])) (sym (reverse-reverse es))) (λ v x. inr (λ c. cc)) in
      let first = after_run-fails j w e (run w e) (fails w e) in
      rw (back, ap (rollback_loop run (reverse es)) first)
        (
          d.rolled ∙ omega (arith, length-reverse es),
          ap outstanding d.healthy.synced ∙ d.leaves,
          d.first,
        )
