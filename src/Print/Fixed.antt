-- ===== src/Print/Fixed.antt =====
-- printFloat, from the scaled integer on: where the decimal point goes, and what the digits say.
use zephyr_grbl.Prelude.{
  ◌==◌, if◌then◌else◌, ==-eq-false, Bool-cases, length, take, drop, length-take, length-drop,
  take-append-drop, All, ℕ, zero, suc, ◌+◌, ◌-◌, ◌≤◌, ◌<◌, max, ◌≡◌, refl, sym, ap, ◌∙◌, ◌⊎◌, inl,
  inr, true, false, List, [], ◌∷◌, ◌++◌, arith,
}
use zephyr_grbl.Print.Defs.{
  ascii_zero, decimal_digits, max_digits, fill_zeros, print_buffer, print_fixed,
}
use zephyr_grbl.Print.Decimal.{
  pow10, pow10_mono, numeral, IsDigit, decimal_digits-numeral, decimal_digits-IsDigit,
  length-decimal_digits,
}

fill_zeros-numeral : (n : ℕ) (buf : List ℕ) → numeral (fill_zeros n buf) ≡ numeral buf
unfolding fill_zeros
fill_zeros-numeral zero buf = refl
fill_zeros-numeral (suc n) buf = fill_zeros-numeral n (ascii_zero ∷ buf)

length-fill_zeros : (n : ℕ) (buf : List ℕ) → length (fill_zeros n buf) ≡ n + length buf
unfolding fill_zeros
length-fill_zeros zero buf = omega arith
length-fill_zeros (suc n) buf = omega (arith, length-fill_zeros n (ascii_zero ∷ buf))

fill_zeros-IsDigit : (n : ℕ) (buf : List ℕ) → All IsDigit buf → All IsDigit (fill_zeros n buf)
unfolding fill_zeros
fill_zeros-IsDigit zero buf h = h
fill_zeros-IsDigit (suc n) buf h =
    fill_zeros-IsDigit n (ascii_zero ∷ buf) ((omega arith, omega arith), h)

-- Below the decimal point the buffer is printed as it is.
print_buffer-short : (d : ℕ) (buf : List ℕ) → length buf < d → print_buffer d buf ≡ buf
unfolding print_buffer
print_buffer-short d [] h = refl
print_buffer-short d (c ∷ buf) h =
    rw (==-eq-false (length (c ∷ buf)) d (omega arith))
      (ap (λ cs. c ∷ cs) (print_buffer-short d buf (omega arith)))

print_buffer-zero : (d : ℕ) (buf : List ℕ) → d ≡ 0 → print_buffer d buf ≡ buf
unfolding print_buffer
print_buffer-zero d [] z = refl
print_buffer-zero d (c ∷ buf) z =
    rw (==-eq-false (length (c ∷ buf)) d (omega arith))
      (ap (λ cs. c ∷ cs) (print_buffer-zero d buf z))

take_all : (n : ℕ) (xs : List ℕ) → length xs ≤ n → take n xs ≡ xs
take_all zero [] h = refl
take_all zero (x ∷ xs) h = absurd (omega arith)
take_all (suc n) [] h = refl
take_all (suc n) (x ∷ xs) h = ap (λ ys. x ∷ ys) (take_all n xs (omega arith))

-- The decimal point stands before the last `d` digits.
print_buffer-long :
    (d : ℕ) (buf : List ℕ)
    → 0 < d
    → d ≤ length buf
    → print_buffer d buf ≡ take (length buf - d) buf ++ (b'.' ∷ drop (length buf - d) buf)
unfolding print_buffer
print_buffer-long d [] p h = absurd (omega arith)
print_buffer-long d (c ∷ buf) p h = elim (Bool-cases (length (c ∷ buf) == d)) [
  | inl e ↦
      let z : suc (length buf) - d ≡ 0 = ground arith in
      rw (e, z) (ap (λ cs. b'.' ∷ c ∷ cs) (print_buffer-short d buf (ground arith)))
  | inr ne ↦
      let z : suc (length buf) - d ≡ suc (length buf - d) = ground arith in
      rw (ne, z) (ap (λ cs. c ∷ cs) (print_buffer-long d buf p (ground arith)))
]

-- The buffer of print_fixed before it is printed.
abbrev fixed_buffer : ℕ → ℕ → List ℕ
fixed_buffer a d =
    let digits : List ℕ = decimal_digits max_digits a [] in
    let filled : List ℕ = fill_zeros (d - length digits) digits in
    if length filled == d then ascii_zero ∷ filled else filled

record IsFixedBuffer (k a d : ℕ) (buf : List ℕ) : Type 0 where
  says : numeral buf ≡ a
  digits : All IsDigit buf
  long : d < length buf
  fits : length buf ≤ max k (d + 1)

fixed_buffer-IsFixedBuffer :
    (k a d : ℕ) → k ≤ max_digits → a < pow10 k → IsFixedBuffer k a d (fixed_buffer a d)
fixed_buffer-IsFixedBuffer k a d l h =
    let ds : List ℕ = decimal_digits max_digits a [] in
    let filled : List ℕ = fill_zeros (d - length ds) ds in
    let says : numeral filled ≡ a =
      fill_zeros-numeral (d - length ds) ds
      ∙ decimal_digits-numeral max_digits a [] (omega (arith, pow10_mono k max_digits l)) in
    let digits : All IsDigit filled =
      fill_zeros-IsDigit (d - length ds) ds (decimal_digits-IsDigit max_digits a [] tt) in
    let len : length filled ≡ d - length ds + length ds = length-fill_zeros (d - length ds) ds in
    let few : length ds ≤ k + 0 = length-decimal_digits max_digits k a [] h l in
    elim (Bool-cases (length filled == d)) [
      | inl e ↦ rw e (record {
        says = says;
        digits = ((omega arith, omega arith), digits);
        long = ground arith;
        fits = ground arith;
      })
      | inr ne ↦
          rw ne (record { says = says; digits = digits; long = ground arith; fits = ground arith })
    ]

-- printFloat prints a whole part of at least one digit and, for `d` decimal places, a point and
-- exactly `d` digits; without the point the digits are the numeral of the scaled integer. For an
-- integer below 10 ^ k the buffer holds at most `k` or `d + 1` digits.
pub print_fixed_lem :
    (k a d : ℕ)
    → k ≤ max_digits
    → a < pow10 k
    → (whole : List ℕ) × (fraction : List ℕ) × (print_fixed a d
        ≡ (if d == 0 then whole else whole ++ (b'.' ∷ fraction)))
      × (numeral (whole ++ fraction) ≡ a)
      × (length fraction ≡ d)
      × (1 ≤ length whole)
      × (length (whole ++ fraction) ≤ max k (d + 1))
      × All IsDigit (whole ++ fraction)
unfolding print_fixed
print_fixed_lem k a d l h =
    let b : List ℕ = fixed_buffer a d in
    let is = fixed_buffer-IsFixedBuffer k a d l h in
    let w : ℕ = length b - d in
    let whole_all = take-append-drop w b in
    (
      take w b,
      drop w b,
      printed b is.long (Bool-cases (d == 0)),
      rw whole_all is.says,
      omega (arith, length-drop w b, is.long),
      omega (arith, length-take w b, is.long),
      rw whole_all is.fits,
      rw whole_all is.digits,
    )
  where
    printed :
        (b : List ℕ)
        → d < length b
        → ((d == 0) ≡ true) ⊎ ((d == 0) ≡ false)
        → print_buffer d b ≡ (
            if d == 0
            then take (length b - d) b
            else take (length b - d) b ++ (b'.' ∷ drop (length b - d) b))
    printed b l (inl z) =
        rw z (print_buffer-zero d b (ground arith) ∙ sym (take_all (length b - d) b (ground arith)))
    printed b l (inr nz) = rw nz (print_buffer-long d b (ground arith) (omega arith))
