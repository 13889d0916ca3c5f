-- ===== src/Number/Roundtrip.antt =====
-- Reading back what printFloat and print_uint32_base10 print.
use zephyr_grbl.Prelude.{
  ◌==◌, Bool-cases, length, length-append, All, ℕ, ◌+◌, ◌-◌, ◌%◌, ◌≤◌, ◌<◌, ◌≡◌, refl, sym, ap, ◌∙◌,
  inl, inr, true, false, some, List, [], ◌∷◌, ◌++◌, append-nil, append_assoc, arith,
}
use zephyr_grbl.Number.Defs.{
  Scan, start, max_int_digits, scan, read_sign, FloatOps, apply_decimal, read_float,
}
use zephyr_grbl.Number.Scanning.{EndsNumber, scan_lem}
use zephyr_grbl.Print.{print_fixed}
use zephyr_grbl.Print.Decimal.{numeral, IsDigit, pow10}
use zephyr_grbl.Print.Fixed.{print_fixed_lem}

All-append-left : (xs ys : List ℕ) → All IsDigit (xs ++ ys) → All IsDigit xs × All IsDigit ys
All-append-left [] ys h = (tt, h)
All-append-left (x ∷ xs) ys h = let (l, r) = All-append-left xs ys h.1 in ((h.0, l), r)

length-eq-zero : (xs : List ℕ) → length xs ≡ 0 → xs ≡ []
length-eq-zero [] h = refl
length-eq-zero (x ∷ xs) h = absurd (omega arith)

-- No sign is read before a digit.
read_sign-digit :
    (ds rest : List ℕ)
    → All IsDigit ds
    → 1 ≤ length ds
    → read_sign (ds ++ rest) ≡ (false, ds ++ rest)
unfolding read_sign
read_sign-digit [] rest h l = absurd (omega arith)
read_sign-digit (c ∷ cs) rest h l = ground arith

read_sign-minus : (cs : List ℕ) → read_sign (b'-' ∷ cs) ≡ (true, cs)
unfolding read_sign
read_sign-minus cs = refl

-- The line begins with an unsigned number that is read as the integer `a` and the exponent -d.
record ReadsBack (a d : ℕ) (line rest : List ℕ) : Type 0 where
  unsigned : read_sign line ≡ (false, line)
  scanned :
      (s : Scan) × (scan start line ≡ (s, rest))
      × (s.intval ≡ a)
      × (s.exp ≡ (256 - d) % 256)
      × ((s.ndigit == 0) ≡ false)

module _ (a d : ℕ) (whole fraction rest : List ℕ) (hw : All IsDigit whole)
    (hf : All IsDigit fraction) (some_digit : 1 ≤ length whole)
    (few : length whole + length fraction ≤ max_int_digits) (ends : EndsNumber rest) where
  whole-ReadsBack : numeral whole ≡ a → d ≡ 0 → ReadsBack a d (whole ++ rest) rest
  whole-ReadsBack says z = record {
    unsigned = read_sign-digit whole rest hw some_digit;
    scanned = (_, (scan_lem whole fraction rest hw hf few ends).0, says, omega arith, ground arith);
  }

  point-ReadsBack :
      numeral (whole ++ fraction) ≡ a
      → length fraction ≡ d
      → ReadsBack a d ((whole ++ (b'.' ∷ fraction)) ++ rest) rest
  point-ReadsBack says places = rw (append_assoc whole (b'.' ∷ fraction) rest) (record {
    unsigned = read_sign-digit whole (b'.' ∷ (fraction ++ rest)) hw some_digit;
    scanned = (
      _,
      (scan_lem whole fraction rest hw hf few ends).1,
      says,
      omega (arith, places),
      ground arith,
    );
  })

print_fixed-ReadsBack :
    (a d : ℕ) (rest : List ℕ)
    → a < pow10 max_int_digits
    → d < max_int_digits
    → EndsNumber rest
    → ReadsBack a d (print_fixed a d ++ rest) rest
print_fixed-ReadsBack a d rest ha hd e =
    let (whole, fraction, shape, says, places, some_digit, few, digits) =
      print_fixed_lem max_int_digits a d (omega arith) ha in
    let (hw, hf) = All-append-left whole fraction digits in
    let few' : length whole + length fraction ≤ max_int_digits =
      omega (arith, length-append whole fraction, few) in
    rw shape (elim (Bool-cases (d == 0)) [
      | inl z ↦
          let none : fraction ≡ [] = length-eq-zero fraction (ground (arith, places)) in
          rw z (
            whole-ReadsBack a d whole fraction rest hw hf some_digit few' e
              (sym (ap numeral (append-nil whole))
                ∙ ap (λ f. numeral (whole ++ f)) (sym none)
                ∙ says)
              (ground arith))
      | inr nz ↦ rw nz (point-ReadsBack a d whole fraction rest hw hf some_digit few' e says places)
    ])

-- Reading a printed number gives the printed integer, scaled down by its decimal places, and leaves
-- the rest of the line; with a minus sign in front, its negation. For at most eight digits.
pub read_float-print_fixed :
    (ops : FloatOps) (a d : ℕ) (rest : List ℕ)
    → a < pow10 max_int_digits
    → d < max_int_digits
    → EndsNumber rest
    → let f = apply_decimal ops ((256 - d) % 256) (ops.of_uint32 a) in
      (read_float ops (print_fixed a d ++ rest) ≡ some (f, rest))
      × (read_float ops (b'-' ∷ (print_fixed a d ++ rest)) ≡ some (ops.negate f, rest))
unfolding read_float
read_float-print_fixed ops a d rest ha hd e =
    let r = print_fixed-ReadsBack a d rest ha hd e in
    let (s, scanned, value, exp, counted) = r.scanned in
    (
      rw (r.unsigned, scanned, counted, value, exp),
      rw (read_sign-minus (print_fixed a d ++ rest), scanned, counted, value, exp),
    )
