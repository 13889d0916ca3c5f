-- ===== src/Print/Decimal.antt =====
-- What the printed digits say.
use zephyr_grbl.Prelude.{
  ◌==◌, if◌then◌else◌, Bool-cases, length, All, ℕ, zero, suc, ◌+◌, ◌-◌, ◌*◌, ◌/◌, ◌%◌, ◌^◌, ◌≤◌,
  ◌<◌, ◌≡◌, refl, ap, ◌∙◌, ◌⊎◌, inl, inr, Bool, true, false, ◌&&◌, List, [], ◌∷◌, arith,
}
use zephyr_grbl.Print.Defs.{
  ascii_zero, print_uint8_base10, binary_digits, print_uint8_base2_ndigit, decimal_digits,
  max_digits, print_uint32_base10,
}

-- The number that a decimal numeral denotes, after the digits read so far.
abbrev pub numeral_from : ℕ → List ℕ → ℕ
numeral_from acc [] = acc
numeral_from acc (c ∷ cs) = numeral_from (acc * 10 + (c - ascii_zero)) cs

abbrev pub numeral : List ℕ → ℕ
numeral cs = numeral_from 0 cs

abbrev pub IsDigit : ℕ → Type 0
IsDigit c = (ascii_zero ≤ c) × (c ≤ b'9')

-- 10 ^ fuel
abbrev pub pow10 : ℕ → ℕ
pow10 zero = 1
pow10 (suc n) = 10 * pow10 n

pub pow10_mono : (k l : ℕ) → k ≤ l → pow10 k ≤ pow10 l
pow10_mono zero zero h = omega arith
pow10_mono zero (suc l) h = omega (arith, pow10_mono zero l (omega arith))
pow10_mono (suc k) zero h = absurd (omega arith)
pow10_mono (suc k) (suc l) h = omega (arith, pow10_mono k l (omega arith))

-- Writing the digits of `n` in front of `buf` prefixes its value.
pub decimal_digits-numeral :
    (fuel n : ℕ) (buf : List ℕ)
    → n < pow10 fuel
    → numeral (decimal_digits fuel n buf) ≡ numeral_from n buf
unfolding decimal_digits
decimal_digits-numeral zero n buf h = ap (λ k. numeral_from k buf) (omega arith)
decimal_digits-numeral (suc fuel) n buf h = elim (Bool-cases (n == 0)) [
  | inl z ↦ rw z (ap (λ k. numeral_from k buf) (ground arith))
  | inr nz ↦ rw nz (
      decimal_digits-numeral fuel (n / 10) ((ascii_zero + n % 10) ∷ buf) (omega arith)
      ∙ ap (λ k. numeral_from k buf) (omega arith))
]

pub decimal_digits-IsDigit :
    (fuel n : ℕ) (buf : List ℕ) → All IsDigit buf → All IsDigit (decimal_digits fuel n buf)
unfolding decimal_digits
decimal_digits-IsDigit zero n buf h = h
decimal_digits-IsDigit (suc fuel) n buf h = elim (Bool-cases (n == 0)) [
  | inl z ↦ rw z h
  | inr nz ↦ rw nz (decimal_digits-IsDigit fuel (n / 10) _ ((omega arith, omega arith), h))
]

-- A number below 10 ^ k has at most k digits.
pub length-decimal_digits :
    (fuel k n : ℕ) (buf : List ℕ)
    → n < pow10 k
    → k ≤ fuel
    → length (decimal_digits fuel n buf) ≤ k + length buf
unfolding decimal_digits
length-decimal_digits zero k n buf h l = omega arith
length-decimal_digits (suc fuel) zero n buf h l =
    let z : (n == 0) ≡ true = ground arith in rw z (omega arith)
length-decimal_digits (suc fuel) (suc k) n buf h l = ground (
  arith,
  length-decimal_digits fuel k (n / 10) ((ascii_zero + n % 10) ∷ buf) (omega arith) (omega arith),
)

-- The first digit is not 0.
abbrev pub NoLeadingZero : List ℕ → Type 0
NoLeadingZero [] = ⊥
NoLeadingZero (c ∷ cs) = ascii_zero < c

decimal_digits-NoLeadingZero :
    (fuel n : ℕ) (buf : List ℕ) → n < pow10 fuel → 0 < n → NoLeadingZero (decimal_digits fuel n buf)
unfolding decimal_digits
decimal_digits-NoLeadingZero zero n buf h p = absurd (omega arith)
decimal_digits-NoLeadingZero (suc fuel) n buf h p = elim (Bool-cases (n == 0)) [
  | inl z ↦ absurd (ground arith)
  | inr nz ↦ elim (Bool-cases (n / 10 == 0)) [
    | inl last ↦ rw nz (stops fuel (n / 10) _ last (ground arith))
    | inr more ↦ rw nz (
        decimal_digits-NoLeadingZero fuel (n / 10) ((ascii_zero + n % 10) ∷ buf) (omega arith)
          (ground arith))
  ]
]
  where
    stops :
        (f k c : ℕ)
        → (k == 0) ≡ true
        → ascii_zero < c
        → NoLeadingZero (decimal_digits f k (c ∷ buf))
    stops zero k c z q = q
    stops (suc f) k c z q = rw z q

-- print_uint32_base10 prints the decimal numeral of a uint32_t: at most ten digits, so that its
-- buffer never overflows, which denote the number, with no leading zero but for 0 itself.
pub print_uint32_base10_lem :
    (n : ℕ)
    → n < 2 ^ 32
    → (numeral (print_uint32_base10 n) ≡ n)
      × All IsDigit (print_uint32_base10 n)
      × (length (print_uint32_base10 n) ≤ max_digits)
      × ((n ≡ 0) ⊎ NoLeadingZero (print_uint32_base10 n))
unfolding print_uint32_base10
print_uint32_base10_lem n h = elim (Bool-cases (n == 0)) [
  | inl z ↦ rw z (ground arith, ((omega arith, omega arith), tt), omega arith, inl (ground arith))
  | inr nz ↦ rw nz (
    decimal_digits-numeral max_digits n [] (omega arith),
    decimal_digits-IsDigit max_digits n [] tt,
    omega (arith, length-decimal_digits max_digits max_digits n [] (omega arith) (omega arith)),
    inr (decimal_digits-NoLeadingZero max_digits n [] (omega arith) (ground arith)),
  )
]

-- Comparing two texts byte by byte.
same_bytes : List ℕ → List ℕ → Bool
same_bytes [] [] = true
same_bytes (x ∷ xs) (y ∷ ys) = (x == y) && same_bytes xs ys
same_bytes [] (y ∷ ys) = false
same_bytes (x ∷ xs) [] = false

same_bytes_sound : (xs ys : List ℕ) → same_bytes xs ys ≡ true → xs ≡ ys
unfolding same_bytes
same_bytes_sound [] [] h = refl
same_bytes_sound (x ∷ xs) (y ∷ ys) h = ground (arith, same_bytes_sound xs ys)
same_bytes_sound [] (y ∷ ys) h = cc
same_bytes_sound (x ∷ xs) [] h = cc

agree : ℕ → Bool
unfolding same_bytes
agree n = same_bytes (print_uint8_base10 n) (print_uint32_base10 n)

-- The two functions print the same bytes for each of the first `many` numbers.
agree_first : ℕ → Bool
unfolding agree
agree_first zero = true
agree_first (suc many) = if agree many then agree_first many else false

agree_first_lem : (many n : ℕ) → n < many → agree_first many ≡ true → agree n ≡ true
unfolding agree_first
agree_first_lem zero n below table = absurd (omega arith)
agree_first_lem (suc many) n below table = elim (Bool-cases (n == many)) [
  | inl last ↦
      let same : n ≡ many = ground arith in
      let here : agree many ≡ true = ground arith in ap agree same ∙ here
  | inr earlier ↦ agree_first_lem many n (ground arith) (ground arith)
]

uint8_table : agree_first 256 ≡ true
unfolding agree_first agree same_bytes print_uint8_base10 print_uint32_base10 decimal_digits
uint8_table = refl

-- A uint8_t is printed as the uint32_t of the same value is.
pub print_uint8_base10_lem : (n : ℕ) → n < 256 → print_uint8_base10 n ≡ print_uint32_base10 n
unfolding agree
print_uint8_base10_lem n h = same_bytes_sound _ _ (agree_first_lem 256 n h uint8_table)

-- The number that a binary numeral denotes, after the digits read so far.
abbrev pub binary_from : ℕ → List ℕ → ℕ
binary_from acc [] = acc
binary_from acc (c ∷ cs) = binary_from (acc * 2 + (c - ascii_zero)) cs

-- 2 ^ digits
abbrev pub pow2 : ℕ → ℕ
pow2 zero = 1
pow2 (suc n) = 2 * pow2 n

binary_digits-binary :
    (digits n : ℕ) (buf : List ℕ)
    → n < pow2 digits
    → binary_from 0 (binary_digits digits n buf) ≡ binary_from n buf
unfolding binary_digits
binary_digits-binary zero n buf h = ap (λ k. binary_from k buf) (omega arith)
binary_digits-binary (suc digits) n buf h =
    binary_digits-binary digits (n / 2) ((ascii_zero + n % 2) ∷ buf) (omega arith)
    ∙ ap (λ k. binary_from k buf) (omega arith)

length-binary_digits :
    (digits n : ℕ) (buf : List ℕ) → length (binary_digits digits n buf) ≡ digits + length buf
unfolding binary_digits
length-binary_digits zero n buf = omega arith
length-binary_digits (suc digits) n buf =
    omega (arith, length-binary_digits digits (n / 2) ((ascii_zero + n % 2) ∷ buf))

-- print_uint8_base2_ndigit prints exactly the number of digits that it is asked for, and they
-- denote the number if it has no more digits.
pub print_uint8_base2_ndigit_lem :
    (n digits : ℕ)
    → n < pow2 digits
    → (length (print_uint8_base2_ndigit n digits) ≡ digits)
      × (binary_from 0 (print_uint8_base2_ndigit n digits) ≡ n)
unfolding print_uint8_base2_ndigit
print_uint8_base2_ndigit_lem n digits h =
    (omega (arith, length-binary_digits digits n []), binary_digits-binary digits n [] h)
