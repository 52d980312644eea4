-- ===== src/Toppactl/Echo.antt =====
-- What `handleServeConn` of desktop/cmd/toppactl/main.go does with each stream that it accepts: it copies the stream to itself
-- and closes it.
use toppa.Base.{
  ℕ, zero, suc, ◌≤◌, ◌≡◌, sym, ap, ◌∙◌, Bool, true, false, Option, none, some, List, [], ◌∷◌, ◌++◌,
  append_assoc, append-nil, arith,
}
use toppa.Base.Lists.{length}
use toppa.Base.Bytes.{Bytes}

-- A read that gives none is the end or an error; `io.Copy` ends there and at a write that fails.
module _ {T : Type 0} (read : T → T × Option Bytes) (write : T → Bytes → T × Bool)
    (close : T → T) where
  unfoldable pub after_write : (T → Option T) → T × Bool → Option T
  after_write later (t, true) = later t
  after_write later (t, false) = some (close t)

  unfoldable pub after_read : (T → Option T) → T × Option Bytes → Option T
  unfolding after_write
  after_read later (t, none) = some (close t)
  after_read later (t, some b) = after_write later (write t b)

  -- With so many rounds at most; none if the copy has not ended by then.
  unfoldable pub echo : ℕ → T → Option T
  unfolding after_read
  echo zero t = none
  echo (suc rounds) t = after_read (echo rounds) (read t)

-- A stream by the pieces that are still to be read, what was written back, and whether it was closed.
pub record Echoing : Type 0 where
  pub pieces : List Bytes
  pub back : Bytes
  pub closed : Bool

abbrev read_piece : Echoing → Echoing × Option Bytes
read_piece t = elim t.pieces [
  | [] ↦ (t, none)
  | ◌∷◌ b (bs → _) ↦ (record t { pieces = bs }, some b)
]

abbrev write_back : Echoing → Bytes → Echoing × Bool
write_back t b = (record t { back = t.back ++ b }, true)

abbrev close_it : Echoing → Echoing
close_it t = record t { closed = true }

abbrev joined : List Bytes → Bytes
joined [] = []
joined (b ∷ bs) = b ++ joined bs

-- With more rounds than pieces, an echo whose writes succeed ends, has written back what it has read, in order, and has closed
-- the stream.
echo_returns :
    (rounds : ℕ) (pieces : List Bytes) (back : Bytes)
    → length pieces ≤ rounds
    → echo read_piece write_back close_it
        (suc rounds)
        (record { pieces = pieces; back = back; closed = false })
      ≡ some (record { pieces = []; back = back ++ joined pieces; closed = true })
unfolding echo
echo_returns rounds [] back h =
    ap (λ b. some (record { pieces = []; back = b; closed = true })) (sym (append-nil back))
echo_returns zero (b ∷ bs) back h = absurd (omega arith)
echo_returns (suc rounds) (b ∷ bs) back h =
    echo_returns rounds bs (back ++ b) (omega arith)
    ∙ ap (λ x. some (record { pieces = []; back = x; closed = true }))
        (append_assoc back b (joined bs))
