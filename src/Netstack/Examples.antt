-- ===== src/Netstack/Examples.antt =====
-- The theorems at three packets that are read, and at a pump that has moved a byte.
use toppa.Netstack.Pump.{
  copying, copied, Copy, Pump, new_copy, new_pump, move, close_write, moves, ends, shuts, Step,
  copies_to_b, Steps, begins, next,
}
use toppa.Netstack.Relaying.{IsPumping, pump-IsPumping}
use toppa.Netstack.Closing.{Returned, steps_left, pump_returns}
use toppa.Netstack.Engine.{ReadTurn, read_loop}
use toppa.Netstack.Reading.{Delivers, packets_read, read_loop-Delivers}
use toppa.Base.{arith, refl, ◌⊎◌, ◌<◌, none, some, Bool, true, false, List, [], ◌∷◌}

abbrev turns : List ReadTurn
turns =
    record { stopped = false; packet = some (69 ∷ 0 ∷ []) }
    ∷ record { stopped = false; packet = some (16 ∷ []) }
    ∷ record { stopped = false; packet = some (96 ∷ []) }
    ∷ record { stopped = true; packet = none }
    ∷ []

read_loop-Delivers_example : Delivers (packets_read turns) (read_loop true turns)
read_loop-Delivers_example = read_loop-Delivers turns

-- One byte went from `a` to `b`.
abbrev moving : Copy
moving = record { phase = copying; left = 2 ∷ []; moved = 1 ∷ []; write_closed = false }

half_way :
    (tcp_b : Bool)
    → Steps false tcp_b (new_pump (1 ∷ 2 ∷ []) (9 ∷ [])) (record (new_pump (1 ∷ 2 ∷ []) (9 ∷ [])) {
      to_b = close_write tcp_b (record moving { phase = copied });
    })
unfolding new_pump new_copy close_write move
half_way tcp_b =
    let p = new_pump (1 ∷ 2 ∷ []) (9 ∷ []) in
    let one = copies_to_b p moving 0 (moves p.to_b 1 refl (omega arith) (omega arith)) in
    let p1 = record p { to_b = moving } in
    let two = copies_to_b p1 _ 0 (ends moving refl) in
    let p2 = record p { to_b = record moving { phase = copied } } in
    next _ _ _ (next p p1 p2 (next p p p1 (begins p) one) two)
      (copies_to_b p2 _ 0 (shuts p2.to_b refl))

abbrev half : Bool → Pump
half tcp_b = record (new_pump (1 ∷ 2 ∷ []) (9 ∷ [])) {
  to_b = close_write tcp_b (record moving { phase = copied });
}

pump-IsPumping_example : IsPumping false true (1 ∷ 2 ∷ []) (9 ∷ []) (half true)
pump-IsPumping_example = pump-IsPumping false true (1 ∷ 2 ∷ []) (9 ∷ []) (half true) (half_way true)

pump_returns_example :
    (Returned (half true) ⊎ ((q : Pump) × Step false true (half true) q))
    × ((q : Pump) → Step false true (half true) q → steps_left q < steps_left (half true))
pump_returns_example = pump_returns false true (1 ∷ 2 ∷ []) (9 ∷ []) (half true) (half_way true)
