-- ===== src/Failsafe/Examples.antt =====
-- The theorems on the journal at a journal of two entries.
use mathlib.Core.List.{reverse}
use toppa.Base.{ℕ, ◌≡◌, refl, Bool, true, false, none, some, List, [], ◌∷◌, ◌++◌, arith}
use toppa.Base.Lists.{length}
use toppa.Failsafe.Journal.{
  pending, applied, Entry, Journal, new_entry, add, reopen, outstanding, rollback_all,
}
use toppa.Failsafe.Rollback.{
  add_is_durable, Healthy, replay, rollback_all_reverts, rollback_all_drops_failures,
}

abbrev route : Entry
route = record { id = 1; description = []; apply = []; undo = []; state = applied; created_at = 0 }

abbrev resolver : Entry
resolver = record {
  id = 2;
  description = [];
  apply = [];
  undo = [];
  state = pending;
  created_at = 0;
}

abbrev both : Journal
both = record { entries = route ∷ resolver ∷ []; file = route ∷ resolver ∷ []; disk = [] }

both-Healthy : Healthy both
both-Healthy = record { distinct = ((omega arith, tt), (tt, tt)); works = refl; synced = refl }

abbrev log_undo : List ℕ → Entry → List ℕ × Bool
log_undo done e = (e.id ∷ done, true)

abbrev failing_undo : List ℕ → Entry → List ℕ × Bool
failing_undo done e = (done, false)

add_is_durable_example :
    (outstanding (reopen (add both 3 0 [] [] []).0).entries
      ≡ outstanding both.entries ++ (new_entry 3 0 [] [] [] ∷ []))
    × ((new_entry 3 0 [] [] []).undo ≡ [])
unfolding add
add_is_durable_example =
    add_is_durable both (add both 3 0 [] [] []).0 3 0 [] [] [] (new_entry 3 0 [] [] []) refl

rollback_all_reverts_example :
    ((rollback_all log_undo [] both).world
      ≡ replay log_undo [] (reverse (outstanding both.entries)))
    × ((rollback_all log_undo [] both).rolled ≡ length (outstanding both.entries))
    × (outstanding (reopen (rollback_all log_undo [] both).journal).entries ≡ [])
    × ((rollback_all log_undo [] both).first_err ≡ none)
rollback_all_reverts_example = rollback_all_reverts log_undo [] both both-Healthy (λ v e. refl)

rollback_all_drops_failures_example :
    ((rollback_all failing_undo [] both).rolled ≡ 1)
    × (outstanding (reopen (rollback_all failing_undo [] both).journal).entries ≡ resolver ∷ [])
    × ((rollback_all failing_undo [] both).first_err ≡ some none)
unfolding outstanding
rollback_all_drops_failures_example =
    rollback_all_drops_failures failing_undo [] both (route ∷ []) resolver both-Healthy refl
      (λ v x. refl)
