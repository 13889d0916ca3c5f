-- ===== src/Flags.antt =====
-- uint8_t bit flags: the macros of deps/gnea-grbl/grbl/nuts_bolts.h (bit, bit_true, bit_false,
-- bit_istrue, bit_isfalse). A byte of flags is its eight bits, so that `x |= m` and `x &= ~m`
-- compute bit by bit; `value` is the number that the C code holds.
use zephyr_grbl.Prelude.{ℕ, zero, suc, ◌+◌, ◌*◌, Bool, true, false, not, ◌||◌, if◌then◌else◌}

pub record Byte : Type 0 where
  pub b0 : Bool
  pub b1 : Bool
  pub b2 : Bool
  pub b3 : Bool
  pub b4 : Bool
  pub b5 : Bool
  pub b6 : Bool
  pub b7 : Bool

abbrev pub zero_byte : Byte
zero_byte = record {
  b0 = false;
  b1 = false;
  b2 = false;
  b3 = false;
  b4 = false;
  b5 = false;
  b6 = false;
  b7 = false;
}

-- bit(n)
abbrev pub bit : ℕ → Byte
bit zero = record zero_byte { b0 = true }
bit (suc zero) = record zero_byte { b1 = true }
bit (suc (suc zero)) = record zero_byte { b2 = true }
bit (suc (suc (suc zero))) = record zero_byte { b3 = true }
bit (suc (suc (suc (suc zero)))) = record zero_byte { b4 = true }
bit (suc (suc (suc (suc (suc zero))))) = record zero_byte { b5 = true }
bit (suc (suc (suc (suc (suc (suc zero)))))) = record zero_byte { b6 = true }
bit (suc (suc (suc (suc (suc (suc (suc n))))))) = record zero_byte { b7 = true }

infixl 65 ◌bor◌
infixl 70 ◌band◌
-- x | mask
abbrev pub ◌bor◌ : Byte → Byte → Byte
x bor m = record {
  b0 = if m.b0 then true else x.b0;
  b1 = if m.b1 then true else x.b1;
  b2 = if m.b2 then true else x.b2;
  b3 = if m.b3 then true else x.b3;
  b4 = if m.b4 then true else x.b4;
  b5 = if m.b5 then true else x.b5;
  b6 = if m.b6 then true else x.b6;
  b7 = if m.b7 then true else x.b7;
}

-- x & mask
abbrev pub ◌band◌ : Byte → Byte → Byte
x band m = record {
  b0 = if m.b0 then x.b0 else false;
  b1 = if m.b1 then x.b1 else false;
  b2 = if m.b2 then x.b2 else false;
  b3 = if m.b3 then x.b3 else false;
  b4 = if m.b4 then x.b4 else false;
  b5 = if m.b5 then x.b5 else false;
  b6 = if m.b6 then x.b6 else false;
  b7 = if m.b7 then x.b7 else false;
}

-- ~x
abbrev pub complement : Byte → Byte
complement x = record {
  b0 = not x.b0;
  b1 = not x.b1;
  b2 = not x.b2;
  b3 = not x.b3;
  b4 = not x.b4;
  b5 = not x.b5;
  b6 = not x.b6;
  b7 = not x.b7;
}

-- x != 0
abbrev pub is_nonzero : Byte → Bool
is_nonzero x = x.b0 || (x.b1 || (x.b2 || (x.b3 || (x.b4 || (x.b5 || (x.b6 || x.b7))))))

-- bit_istrue(x, mask): (x & mask) != 0
abbrev pub bit_istrue : Byte → Byte → Bool
bit_istrue x m = is_nonzero (x band m)

-- bit_isfalse(x, mask): (x & mask) == 0
abbrev pub bit_isfalse : Byte → Byte → Bool
bit_isfalse x m = not (is_nonzero (x band m))

-- bit_true(x, mask): x |= mask
abbrev pub bit_true : Byte → Byte → Byte
bit_true x m = x bor m

-- bit_false(x, mask): x &= ~mask
abbrev pub bit_false : Byte → Byte → Byte
bit_false x m = x band complement m

abbrev digit : Bool → ℕ
digit true = 1
digit false = 0

-- The number that a byte holds.
abbrev pub value : Byte → ℕ
value x =
    digit x.b0
    + 2
      * (digit x.b1
          + 2
            * (digit x.b2
                + 2
                  * (digit x.b3
                      + 2 * (digit x.b4 + 2 * (digit x.b5 + 2 * (digit x.b6 + 2 * digit x.b7))))))
