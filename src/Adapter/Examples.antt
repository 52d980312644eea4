-- ===== src/Adapter/Examples.antt =====
-- The theorem on the loopback device at a run of one packet, which the reader waits for.
use toppa.Base.{ℕ, Option, none, some, refl, [], ◌∷◌}
use toppa.Base.Bytes.{Bytes, codes}
use toppa.Base.Ints.{pos}
use toppa.Base.Results.{err}
use toppa.Adapter.Wintun.{Config, session_failed, acquired, released, new_wintun}
use toppa.Adapter.Owning.{Owns, new_wintun-Owns}
use toppa.Adapter.Loopback.{new_device, append_packet, poll}
use toppa.Adapter.Fifo.{Run, polls, appends, Steps, start, next, fresh, IsFifo, loopback-IsFifo}

abbrev frame : Bytes
frame = 69 ∷ 0 ∷ []

abbrev asleep : Run
asleep = record fresh { device = (poll 1500 fresh.device).0; taken = [] }

one_poll : Steps fresh asleep
unfolding new_device poll
one_poll = next fresh fresh asleep (start fresh) (polls fresh 1500 refl)

abbrev sending : Run
sending = record asleep { device = (append_packet frame asleep.device).0; written = frame ∷ [] }

one_packet : Steps fresh sending
unfolding new_device poll append_packet
one_packet = next fresh asleep sending one_poll (appends asleep frame)

loopback-IsFifo_example : IsFifo sending
loopback-IsFifo_example = loopback-IsFifo sending one_packet

-- A driver that has an adapter of this name left over, and cannot start a session on it.
abbrev leftover : Config
leftover = record { name = codes "Toppa"; mtu = pos 1280; ring_capacity = 0 }

abbrev none_created : Bytes → Option ℕ
none_created name = none

abbrev one_opened : Bytes → Option ℕ
one_opened name = some 4

abbrev no_session : ℕ → ℕ → Option ℕ
no_session a ring = none

new_wintun-Owns_example :
    Owns none_created one_opened no_session leftover
      (acquired 4 ∷ released 4 ∷ [])
      (err session_failed)
unfolding new_wintun
new_wintun-Owns_example = new_wintun-Owns none_created one_opened no_session leftover
