-- ===== src/Failsafe/Journal.antt =====
-- desktop/internal/failsafe/journal.go: the journal in memory, the file behind it, and its operations.
use toppa.Base.{ℕ, ◌+◌, Bool, true, false, Option, none, some, List, [], ◌∷◌, ◌++◌}
use mathlib.Core.List.{reverse}
use toppa.Base.Tests.{◌==◌, if◌then◌else◌}
use toppa.Base.Bytes.{Bytes}
use toppa.Base.Results.{Result, ok, err}

pub data State : Type 0 where
  pending applied rolledback : State

-- An id is the number that its hex digits stand for; a time is a number.
pub record Entry : Type 0 where
  pub id : ℕ
  pub description : Bytes
  pub apply : List Bytes
  pub undo : List Bytes
  pub state : State
  pub created_at : ℕ

pub data Error : Type 0 where
  write unknown_entry : Error

-- `file` is what `Open` would read; `disk` tells for each write to come whether it succeeds, and a
-- write beyond them does. The write-then-rename of `persist` is one step: the file is the old or the new one.
pub record Journal : Type 0 where
  pub entries : List Entry
  pub file : List Entry
  pub disk : List Bool

unfoldable pub persist : Journal → Journal × Option Error
persist j = elim j.disk [
  | [] ↦ (record j { file = j.entries }, none)
  | true ∷ rest ↦ (record j { file = j.entries; disk = rest }, none)
  | false ∷ rest ↦ (record j { disk = rest }, some write)
]

-- `Open` of an existing or a missing file, after the process that wrote it has gone.
unfoldable pub reopen : Journal → Journal
reopen j = record j { entries = j.file }

unfoldable pub returned : Entry → Journal × Option Error → Journal × Result Error Entry
returned entry (j, none) = (j, ok entry)
returned entry (j, some e) = (j, err e)

unfoldable pub new_entry : ℕ → ℕ → Bytes → List Bytes → List Bytes → Entry
new_entry id now description apply undo = record {
  id = id;
  description = description;
  apply = apply;
  undo = undo;
  state = pending;
  created_at = now;
}

-- `Add`, with the id and the time that it draws.
unfoldable pub add :
    Journal → ℕ → ℕ → Bytes → List Bytes → List Bytes → Journal × Result Error Entry
unfolding persist returned new_entry
add j id now description apply undo =
    let entry = new_entry id now description apply undo in
    returned entry (persist (record j { entries = j.entries ++ (entry ∷ []) }))

unfoldable pub behind : Entry → Option (List Entry) → Option (List Entry)
behind e none = none
behind e (some es) = some (e ∷ es)

-- The entries with the first of this id in the given state.
unfoldable pub marked : ℕ → State → List Entry → Option (List Entry)
unfolding behind
marked id state [] = none
marked id state (e ∷ es) =
    let rest = marked id state es in
    if e.id == id then some (record e { state = state } ∷ es) else behind e rest

unfoldable pub store_marked : Journal → Option (List Entry) → Journal × Option Error
unfolding persist
store_marked j none = (j, some unknown_entry)
store_marked j (some es) = persist (record j { entries = es })

unfoldable pub mark_state : Journal → ℕ → State → Journal × Option Error
unfolding store_marked marked
mark_state j id state = store_marked j (marked id state j.entries)

unfoldable pub is_live : State → Bool
is_live pending = true
is_live applied = true
is_live rolledback = false

unfoldable pub outstanding : List Entry → List Entry
unfolding is_live
outstanding [] = []
outstanding (e ∷ es) = if is_live e.state then e ∷ outstanding es else outstanding es

pub record Outcome (W : Type 0) : Type 0 where
  pub world : W
  pub journal : Journal
  pub rolled : ℕ
  pub first_err : Option (Option Error)

-- `if err != nil && firstErr == nil { firstErr = err }`
unfoldable pub keep_first : Option (Option Error) → Option Error → Option (Option Error)
keep_first (some e) late = some e
keep_first none none = none
keep_first none (some e) = some (some e)

module _ {W : Type 0} where
  -- The round of the loop once `run` has returned: its error skips the mark only if it is the first error.
  unfoldable pub after_run : Outcome W → Entry → W × Bool → Outcome W
  unfolding mark_state keep_first
  after_run o e (w, true) =
      let m = mark_state o.journal e.id rolledback in
      record {
        world = w;
        journal = m.0;
        rolled = o.rolled + 1;
        first_err = keep_first o.first_err m.1;
      }
  after_run o e (w, false) = elim o.first_err [
    | none ↦ record o { world = w; first_err = some none }
    | some first ↦
        let m = mark_state o.journal e.id rolledback in
        record { world = w; journal = m.0; rolled = o.rolled + 1; first_err = some first }
  ]

  unfoldable pub rollback_loop : (W → Entry → W × Bool) → List Entry → Outcome W → Outcome W
  unfolding after_run
  rollback_loop run [] o = o
  rollback_loop run (e ∷ es) o = rollback_loop run es (after_run o e (run o.world e))

  -- `RollbackAll`: `run` changes the world and tells whether it succeeded; `first_err` is `some none`
  -- for an error of `run` and `some (some e)` for one of the journal.
  unfoldable pub rollback_all : (W → Entry → W × Bool) → W → Journal → Outcome W
  unfolding rollback_loop outstanding
  rollback_all run w j =
      rollback_loop run (reverse (outstanding j.entries))
        (record { world = w; journal = j; rolled = 0; first_err = none })
