-- ===== src/Tests/SerialTests.antt =====
-- serial_write at concrete responses.
use zephyr_grbl.Prelude.{ℕ, true, List, [], ◌∷◌}
use zephyr_grbl.Serial.{Room}

abbrev roomy : Room
roomy = record { tx_room = true; line_room = λ item. true }

-- ok and <Idle>
abbrev two_responses : List (List ℕ)
two_responses = (b'o' ∷ b'k' ∷ []) ∷ (b'<' ∷ b'I' ∷ b'd' ∷ b'l' ∷ b'e' ∷ b'>' ∷ []) ∷ []
