-- ===== src/Toppactl/Ping.antt =====
-- The rounds of `runPing` of desktop/cmd/toppactl/main.go.
use toppa.Base.{
  ℕ, zero, suc, ◌+◌, ◌*◌, ◌%◌, ◌^◌, ◌≡◌, Bool, true, false, not, ◌||◌, Option, none, some, [], ◌∷◌,
}
use toppa.Base.Tests.{ltb, ◌==◌, if◌then◌else◌}
use toppa.Base.Lists.{length}
use toppa.Base.Bytes.{Bytes}
use toppa.Base.Results.{Result, ok, err}

-- The flags are natural numbers here, as they are once they have been checked.
pub data PingError (E : Type 0) : Type 0 where
  bad_flags : PingError E
  write_failed read_failed : E → PingError E
  mismatch : ℕ → PingError E

-- `byte(i * 31)` from the index `i` on.
unfoldable pub payload_from : ℕ → ℕ → Bytes
payload_from i zero = []
payload_from i (suc n) = (i * 31 % 2 ^ 8) ∷ payload_from (i + 1) n

abbrev pub payload : ℕ → Bytes
payload size = payload_from 0 size

-- The loop of `bytesEqual` over slices of one length.
unfoldable pub same_from : Bytes → Bytes → Bool
same_from [] b = true
same_from (x ∷ a) [] = true
same_from (x ∷ a) (y ∷ b) = let rest = same_from a b in if not (x == y) then false else rest

unfoldable pub bytes_equal : Bytes → Bytes → Bool
unfolding same_from
bytes_equal a b = if not (length a == length b) then false else same_from a b

-- `Write` of the stream, and `io.ReadFull` of so many bytes from it.
module _ {T E : Type 0} (write : T → Bytes → T × Option E)
    (read_full : T → ℕ → T × Result E Bytes) where
  unfoldable pub compared :
      (T → T × Option (PingError E)) → ℕ → ℕ → T × Result E Bytes → T × Option (PingError E)
  compared later i size (t, err e) = (t, some (read_failed e))
  compared later i size (t, ok echo) =
      if not (bytes_equal (payload size) echo) then (t, some (mismatch i)) else later t

  unfoldable pub written :
      (T → T × Option (PingError E)) → ℕ → ℕ → T × Option E → T × Option (PingError E)
  unfolding compared
  written later i size (t, some e) = (t, some (write_failed e))
  written later i size (t, none) = compared later i size (read_full t size)

  -- The rounds from `i` on; so many are left.
  unfoldable pub rounds : ℕ → ℕ → ℕ → T → T × Option (PingError E)
  unfolding written
  rounds zero i size t = (t, none)
  rounds (suc left) i size t = written (rounds left (i + 1) size) i size (write t (payload size))

  -- `runPing` behind the opening of its stream; the flags are checked before anything else.
  unfoldable pub ping : ℕ → ℕ → T → T × Option (PingError E)
  unfolding rounds
  ping count size t =
      if ltb count 1 || ltb size 1 then (t, some bad_flags) else rounds count 1 size t

  -- So many rounds in each of which the payload came back.
  pub data Echoed (size : ℕ) : ℕ → T → T → Type 0 where
    done : (t : T) → Echoed size 0 t t
    round :
        (n : ℕ) (t t1 t2 t3 : T)
        → write t (payload size) ≡ (t1, none)
        → read_full t1 size ≡ (t2, ok (payload size))
        → Echoed size n t2 t3
        → Echoed size (suc n) t t3
