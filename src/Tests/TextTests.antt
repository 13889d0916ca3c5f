-- ===== src/Tests/TextTests.antt =====
-- Printing and reading numbers at concrete inputs.
use zephyr_grbl.Prelude.{
  ◌==◌, length, All, ℕ, ◌*◌, ◌/◌, ◌≤◌, ◌≡◌, inr, some, List, [], ◌∷◌, ◌++◌, arith,
}
use zephyr_grbl.Print.{print_fixed}
use zephyr_grbl.Print.Decimal.{numeral, IsDigit}
use zephyr_grbl.Print.Fixed.{print_fixed_lem}
use zephyr_grbl.Number.{FloatOps, read_float, apply_decimal}
use zephyr_grbl.Number.Roundtrip.{read_float-print_fixed}

abbrev largest : ℕ
largest = 4294967295

-- 12.345
print_fixed_lem_example :
    (whole : List ℕ) × (fraction : List ℕ) × (print_fixed 12345 3 ≡ whole ++ (b'.' ∷ fraction))
    × (numeral (whole ++ fraction) ≡ 12345)
    × (length fraction ≡ 3)
    × (1 ≤ length whole)
    × (length (whole ++ fraction) ≤ 5)
    × All IsDigit (whole ++ fraction)
print_fixed_lem_example = print_fixed_lem 5 12345 3 (omega arith) (omega arith)

-- Thousandths as the float type.
abbrev ops : FloatOps
ops = record {
  Float = ℕ;
  of_uint32 = λ n. n * 1000;
  is_zero = λ n. n == 0;
  times_hundredth = λ n. n / 100;
  times_tenth = λ n. n / 10;
  times_ten = λ n. n * 10;
  negate = λ n. n;
}

read_float-print_fixed_example :
    (read_float ops (print_fixed 1250 2 ++ (b'Y' ∷ []))
      ≡ some (apply_decimal ops 254 1250000, b'Y' ∷ []))
    × (read_float ops (b'-' ∷ (print_fixed 1250 2 ++ (b'Y' ∷ [])))
        ≡ some (apply_decimal ops 254 1250000, b'Y' ∷ []))
read_float-print_fixed_example =
    read_float-print_fixed ops 1250 2 (b'Y' ∷ []) (omega arith) (omega arith)
      (omega arith, inr (omega arith), ground arith)
