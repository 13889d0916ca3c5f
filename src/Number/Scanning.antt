-- ===== src/Number/Scanning.antt =====
-- What read_float makes of a decimal numeral: an integer of at most eight digits and an exponent.
use mathlib.Core.Path.{subst}
use zephyr_grbl.Prelude.{
  leb, if◌then◌else◌, length, All, ℕ, suc, ◌+◌, ◌-◌, ◌*◌, ◌%◌, ◌^◌, ◌≤◌, ◌<◌, ◌≡◌, refl, sym, ap,
  ◌∙◌, ◌≢◌, ◌⊎◌, Bool, true, false, none, some, List, [], ◌∷◌, ◌++◌, arith,
}
use zephyr_grbl.Number.Defs.{Scan, start, max_int_digits, scan_digit, scan_char, scan}
use zephyr_grbl.Print.Decimal.{numeral, numeral_from, IsDigit, pow10, pow10_mono}

-- The digits `ds` read in state `s`.
scan_digits : List ℕ → Scan → Scan
scan_digits [] s = s
scan_digits (c ∷ cs) s = scan_digits cs (scan_digit (c - b'0') s)

scan_char-digit : (c : ℕ) (s : Scan) → IsDigit c → scan_char c s ≡ some (scan_digit (c - b'0') s)
unfolding scan_char
scan_char-digit c s h =
    let e : (c + 256 - b'0') % 256 ≡ c - b'0' = omega arith in
    let small : leb (c - b'0') 9 ≡ true = ground arith in rw (e, small)

scan-digits :
    (ds rest : List ℕ) (s : Scan)
    → All IsDigit ds
    → scan s (ds ++ rest) ≡ scan (scan_digits ds s) rest
unfolding scan scan_digits
scan-digits [] rest s h = refl
scan-digits (c ∷ cs) rest s h =
    rw (scan_char-digit c s h.0, scan) (scan-digits cs rest (scan_digit (c - b'0') s) h.1)

-- A digit within the first eight: exact, without overflow of intval.
scan_digit-counts :
    (c : ℕ) (s : Scan)
    → IsDigit c
    → s.ndigit < max_int_digits
    → s.intval < pow10 s.ndigit
    → scan_digit (c - b'0') s ≡ record s {
      ndigit = suc s.ndigit;
      exp = if s.isdecimal then (s.exp + 255) % 256 else s.exp;
      intval = s.intval * 10 + (c - b'0');
    }
unfolding scan_digit
scan_digit-counts c s h k v =
    let bound = pow10_mono s.ndigit 7 (omega arith) in
    let e : (s.ndigit + 1) % 256 ≡ suc s.ndigit = omega arith in
    let t : leb (suc s.ndigit) max_int_digits ≡ true = ground arith in
    let w : ((s.intval * 4 + s.intval) * 2 + (c - b'0')) % 2 ^ 32 ≡ s.intval * 10 + (c - b'0') =
      omega arith in
    rw (e, t, w)

-- The exponent after `n` more digits behind the point.
abbrev pub exp_after : Bool → ℕ → ℕ → ℕ
exp_after true e n = (e + 256 - n) % 256
exp_after false e n = e

-- Up to eight digits in all are read exactly.
scan_digits-exact :
    (ds : List ℕ) (s : Scan)
    → All IsDigit ds
    → s.ndigit + length ds ≤ max_int_digits
    → s.intval < pow10 s.ndigit
    → s.exp < 256
    → scan_digits ds s ≡ record s {
      ndigit = s.ndigit + length ds;
      exp = exp_after s.isdecimal s.exp (length ds);
      intval = numeral_from s.intval ds;
    }
unfolding scan_digits
scan_digits-exact [] s h k v x = ground arith
scan_digits-exact (c ∷ cs) s h k v x = rw (scan_digit-counts c s h.0 (omega arith) v) (
    let s' : Scan = record s {
      ndigit = suc s.ndigit;
      exp = if s.isdecimal then (s.exp + 255) % 256 else s.exp;
      intval = s.intval * 10 + (c - b'0');
    } in
    scan_digits-exact cs s' h.1 (omega arith) (omega arith) (ground arith) ∙ ground arith)

-- What follows a number: the end of the line, or a byte that is neither a digit nor a point.
abbrev pub EndsNumber : List ℕ → Type 0
EndsNumber [] = Unit {0}
EndsNumber (c ∷ cs) = (c < 256) × ((c < b'0') ⊎ (b'9' < c)) × (c ≢ b'.')

scan_char-none :
    (c : ℕ) (s : Scan) → (c < 256) × ((c < b'0') ⊎ (b'9' < c)) × (c ≢ b'.') → scan_char c s ≡ none
unfolding scan_char
scan_char-none c s h = ground arith

scan_char-point :
    (s : Scan) → s.isdecimal ≡ false → scan_char b'.' s ≡ some (record s { isdecimal = true })
unfolding scan_char
scan_char-point s h = rw h

scan-EndsNumber : (s : Scan) (rest : List ℕ) → EndsNumber rest → scan s rest ≡ (s, rest)
unfolding scan
scan-EndsNumber s [] h = refl
scan-EndsNumber s (c ∷ cs) h = rw (scan_char-none c s h, scan)

-- The first point is read over.
scan-point :
    (s : Scan) (cs : List ℕ)
    → s.isdecimal ≡ false
    → scan s (b'.' ∷ cs) ≡ scan (record s { isdecimal = true }) cs
unfolding scan
scan-point s cs h = rw (scan_char-point s h, scan)

numeral_from-append :
    (acc : ℕ) (xs ys : List ℕ) → numeral_from acc (xs ++ ys) ≡ numeral_from (numeral_from acc xs) ys
numeral_from-append acc [] ys = refl
numeral_from-append acc (x ∷ xs) ys = numeral_from-append (acc * 10 + (x - b'0')) xs ys

numeral_from-lt :
    (acc n m : ℕ) (ds : List ℕ)
    → All IsDigit ds
    → acc < pow10 n
    → m ≡ n + length ds
    → numeral_from acc ds < pow10 m
numeral_from-lt acc n m [] h v e =
    let e' : m ≡ n = omega arith in subst (λ j. acc < pow10 j) (sym e') v
numeral_from-lt acc n m (c ∷ cs) h v e =
    numeral_from-lt (acc * 10 + (c - b'0')) (suc n) m cs h.1 (omega arith) (omega arith)

-- A numeral of up to eight digits, with or without a point, is read exactly: the integer is that
-- of its digits, and the exponent is minus the number of digits behind the point.
pub scan_lem :
    (whole fraction rest : List ℕ)
    → All IsDigit whole
    → All IsDigit fraction
    → length whole + length fraction ≤ max_int_digits
    → EndsNumber rest
    → (scan start (whole ++ rest) ≡ (
      record { intval = numeral whole; exp = 0; ndigit = length whole; isdecimal = false },
      rest,
    ))
      × (scan start (whole ++ (b'.' ∷ (fraction ++ rest))) ≡ (
        record {
          intval = numeral (whole ++ fraction);
          exp = (256 - length fraction) % 256;
          ndigit = length whole + length fraction;
          isdecimal = true;
        },
        rest,
      ))
scan_lem whole fraction rest hw hf k e =
    let n : ℕ = length whole in
    let s1 : Scan = record start { intval = numeral whole; ndigit = n } in
    let s2 : Scan = record s1 { isdecimal = true } in
    let s3 : Scan = record s2 {
      intval = numeral (whole ++ fraction);
      ndigit = n + length fraction;
      exp = (256 - length fraction) % 256;
    } in
    let e1 : scan_digits whole start ≡ s1 =
      scan_digits-exact whole start hw (omega arith) (omega arith) (omega arith) ∙ ground arith in
    let small : numeral whole < pow10 n =
      omega (arith, numeral_from-lt 0 0 n whole hw (omega arith) (omega arith)) in
    let e3 : scan_digits fraction s2 ≡ s3 =
      scan_digits-exact fraction s2 hf k small (omega arith)
      ∙ ap (λ v. record s3 { intval = v }) (sym (numeral_from-append 0 whole fraction)) in
    (
      scan-digits whole rest start hw ∙ ap (λ s. scan s rest) e1 ∙ scan-EndsNumber s1 rest e,
      scan-digits whole (b'.' ∷ (fraction ++ rest)) start hw
          ∙ ap (λ s. scan s (b'.' ∷ (fraction ++ rest))) e1
          ∙ scan-point s1 (fraction ++ rest) refl
          ∙ scan-digits fraction rest s2 hf
          ∙ ap (λ s. scan s rest) e3
          ∙ scan-EndsNumber s3 rest e,
    )
