-- ===== src/Sysroute/Undoing.antt =====
-- What `Rollback` and `Reconcile` of desktop/internal/sysroute/manager.go execute for the undo lists that
-- the configurer gives.
use mathlib.Core.List.{reverse, reverse-cons}
use toppa.Base.{◌≡◌, refl, sym, subst, Bool, true, false, List, [], ◌∷◌, ◌++◌}
use toppa.Base.Lists.{All, All-append}
use toppa.Base.Bytes.{Bytes}
use toppa.Base.Texts.{IsWord, fields-word}
use toppa.Failsafe.Journal.{Entry, Journal, outstanding, rollback_all}
use toppa.Failsafe.Rollback.{replay, rollback_loop-world}
use toppa.Sysroute.Manager.{after_command, run_fields, undo_commands, undo_entry, rollback}

pub record Command : Type 0 where
  pub name : Bytes
  pub args : List Bytes

-- Whether a command succeeds, given what was executed before it.
abbrev pub Answers : Type 0
Answers = List Command → Bytes → List Bytes → Bool

-- An executor that keeps what it has executed, and answers as given.
abbrev pub log_run : Answers → List Command → Bytes → List Bytes → List Command × Bool
log_run answers done name args =
    (done ++ record { name = name; args = args } ∷ [], answers done name args)

-- The text as the name of a command, with no arguments.
abbrev pub bare : Bytes → Command
bare s = record { name = s; args = [] }

-- From what was executed before to what is executed after: each text of the list in turn as a command with no arguments,
-- up to the first that fails.
pub data Executed (answers : Answers) : List Command → List Bytes → List Command → Type 0 where
  at_end : (w : List Command) → Executed answers w [] w
  goes_on :
      (w v : List Command) (s : Bytes) (ss : List Bytes)
      → answers w s [] ≡ true
      → Executed answers (w ++ bare s ∷ []) ss v
      → Executed answers w (s ∷ ss) v
  fails :
      (w : List Command) (s : Bytes) (ss : List Bytes)
      → answers w s [] ≡ false
      → Executed answers w (s ∷ ss) (w ++ bare s ∷ [])

-- The same of the undo lists of entries, one after another, also behind one that failed.
pub data ExecutedAll (answers : Answers) : List Command → List Entry → List Command → Type 0 where
  no_entry : (w : List Command) → ExecutedAll answers w [] w
  entry :
      (w u v : List Command) (e : Entry) (es : List Entry)
      → Executed answers w e.undo u
      → ExecutedAll answers u es v
      → ExecutedAll answers w (e ∷ es) v

abbrev pub OfWords : Entry → Type 0
OfWords e = All IsWord e.undo

after_command-Executed :
    (answers : Answers) (w : List Command) (s : Bytes) (ss : List Bytes) (b : Bool)
    → answers w s [] ≡ b
    → Executed answers
        (w ++ bare s ∷ [])
        ss
        (undo_commands (log_run answers) (w ++ bare s ∷ []) ss).0
    → Executed answers w
        (s ∷ ss)
        (after_command
          (log_run answers)
          (λ v. undo_commands (log_run answers) v ss)
          (w ++ bare s ∷ [], b)).0
unfolding after_command
after_command-Executed answers w s ss true h rest =
    goes_on w (undo_commands (log_run answers) (w ++ bare s ∷ []) ss).0 s ss h rest
after_command-Executed answers w s ss false h rest = fails w s ss h

undo_commands-Executed :
    (answers : Answers) (w : List Command) (ss : List Bytes)
    → All IsWord ss
    → Executed answers w ss (undo_commands (log_run answers) w ss).0
unfolding undo_commands run_fields
undo_commands-Executed answers w [] h = at_end w
undo_commands-Executed answers w (s ∷ ss) (word, h) = rw (fields-word s word) (
    after_command-Executed answers w s ss (answers w s []) refl
      (undo_commands-Executed answers (w ++ bare s ∷ []) ss h))

replay-ExecutedAll :
    (answers : Answers) (w : List Command) (es : List Entry)
    → All OfWords es
    → ExecutedAll answers w es (replay (undo_entry (log_run answers)) w es)
unfolding undo_entry
replay-ExecutedAll answers w [] h = no_entry w
replay-ExecutedAll answers w (e ∷ es) (words, h) =
    let u = (undo_commands (log_run answers) w e.undo).0 in
    entry w u (replay (undo_entry (log_run answers)) u es) e es
      (undo_commands-Executed answers w e.undo words) (replay-ExecutedAll answers u es h)

All-reverse : (es : List Entry) → All OfWords es → All OfWords (reverse es)
All-reverse [] h = tt
All-reverse (e ∷ es) (p, h) =
    subst (All OfWords) (sym (reverse-cons e es))
      (All-append OfWords (reverse es) (e ∷ []) (All-reverse es h) (p, tt))

-- A rollback takes each string of an undo list as a command line of its own. Where the strings of the outstanding entries are words, as
-- in the undo list `route`, `delete`, the address, then for any journal, and whichever commands succeed, what it executes for each
-- entry, from the last to the first, is each word as a command with no arguments, up to the first that fails, and nothing
-- else.
pub rollback_runs_words :
    (answers : Answers) (w : List Command) (j : Journal)
    → All OfWords (outstanding j.entries)
    → ExecutedAll answers w (reverse (outstanding j.entries)) (rollback (log_run answers) w j).world
unfolding rollback rollback_all
rollback_runs_words answers w j words =
    subst (ExecutedAll answers w (reverse (outstanding j.entries)))
      (sym (rollback_loop-world (undo_entry (log_run answers)) (reverse (outstanding j.entries)) _))
      (replay-ExecutedAll answers w (reverse (outstanding j.entries))
        (All-reverse (outstanding j.entries) words))
