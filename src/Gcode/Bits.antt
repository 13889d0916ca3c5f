-- ===== src/Gcode/Bits.antt =====
-- A uint16_t of flags by the index of the bit: command_words and value_words of gc_execute_line.
use zephyr_grbl.Prelude.{◌==◌, if◌then◌else◌, ℕ, Bool, true, false, ◌||◌}

abbrev pub Bits : Type 0
Bits = ℕ → Bool

abbrev pub no_bits : Bits
no_bits i = false

-- words |= bit(k)
abbrev pub add_bit : ℕ → Bits → Bits
add_bit k words i = if i == k then true else words i

-- bit_false(words, bit(k))
abbrev pub clear_bit : ℕ → Bits → Bits
clear_bit k words i = if i == k then false else words i

-- words != 0
abbrev pub any_bit : Bits → Bool
any_bit w =
    w 0
    || (w 1
        || (w 2
            || (w 3
                || (w 4
                    || (w 5
                        || (w 6
                            || (w 7
                                || (w 8
                                    || (w 9
                                        || (w 10
                                            || (w 11
                                                || (w 12 || (w 13 || (w 14 || w 15))))))))))))))
