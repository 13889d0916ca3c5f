-- ===== src/Print/Defs.antt =====
-- The functions of print.c. A buffer that is filled upwards and printed downwards is a list whose
-- head is the byte at the highest index, so printing it is reading the list.
use zephyr_grbl.Prelude.{
  leb, ◌==◌, if◌then◌else◌, length, ℕ, zero, suc, ◌+◌, ◌-◌, ◌/◌, ◌%◌, Bool, List, [], ◌∷◌, ◌++◌,
}

-- `c` is the byte `data` passed to serial_write: '0' + n
abbrev pub ascii_zero : ℕ
ascii_zero = b'0'

unfoldable pub print_uint8_base10 : ℕ → List ℕ
print_uint8_base10 n =
    let digit_a : ℕ = if leb 100 n then ascii_zero + n % 10 else 0 in
    let n1 : ℕ = if leb 100 n then n / 10 else n in
    let digit_b : ℕ = if leb 10 n1 then ascii_zero + n1 % 10 else 0 in
    let n2 : ℕ = if leb 10 n1 then n1 / 10 else n1 in
    (ascii_zero + n2)
    ∷ ((if digit_b == 0 then [] else digit_b ∷ []) ++ (if digit_a == 0 then [] else digit_a ∷ []))

-- for (; i < digits; i++) { buf[i] = n % 2; n /= 2; }
unfoldable pub binary_digits : ℕ → ℕ → List ℕ → List ℕ
binary_digits zero n buf = buf
binary_digits (suc digits) n buf = binary_digits digits (n / 2) ((ascii_zero + n % 2) ∷ buf)

unfoldable pub print_uint8_base2_ndigit : ℕ → ℕ → List ℕ
print_uint8_base2_ndigit n digits = binary_digits digits n []

-- while (n > 0) { buf[i++] = n % 10; n /= 10; }, each digit with the '0' that it is printed with.
-- The fuel is the number of digits that a uint32_t can have.
unfoldable pub decimal_digits : ℕ → ℕ → List ℕ → List ℕ
decimal_digits zero n buf = buf
decimal_digits (suc fuel) n buf =
    let rest = decimal_digits fuel (n / 10) ((ascii_zero + n % 10) ∷ buf) in
    if n == 0 then buf else rest

abbrev pub max_digits : ℕ
max_digits = 10

unfoldable pub print_uint32_base10 : ℕ → List ℕ
print_uint32_base10 n = if n == 0 then ascii_zero ∷ [] else decimal_digits max_digits n []

-- printInteger, for a long given by its sign and its absolute value.
unfoldable pub print_integer : Bool → ℕ → List ℕ
print_integer negative n = if negative then b'-' ∷ print_uint32_base10 n else print_uint32_base10 n

-- while (i < decimal_places) { buf[i++] = '0'; }
unfoldable pub fill_zeros : ℕ → List ℕ → List ℕ
fill_zeros zero buf = buf
fill_zeros (suc n) buf = fill_zeros n (ascii_zero ∷ buf)

-- for (; i > 0; i--) { if (i == decimal_places) { '.' } buf[i-1] }
unfoldable pub print_buffer : ℕ → List ℕ → List ℕ
print_buffer decimal_places [] = []
print_buffer decimal_places (c ∷ buf) =
    (if length (c ∷ buf) == decimal_places then b'.' ∷ [] else [])
    ++ (c ∷ print_buffer decimal_places buf)

-- printFloat from its integer on: `a` is the scaled and rounded value (print.c, lines 148 to 167).
unfoldable pub print_fixed : ℕ → ℕ → List ℕ
print_fixed a decimal_places =
    let digits : List ℕ = decimal_digits max_digits a [] in
    let filled : List ℕ = fill_zeros (decimal_places - length digits) digits in
    let buf : List ℕ = if length filled == decimal_places then ascii_zero ∷ filled else filled in
    print_buffer decimal_places buf
