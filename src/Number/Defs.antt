-- ===== src/Number/Defs.antt =====
-- read_float. The line from *char_counter on is a list of bytes; at its end the loop reads the
-- terminating 0. `exp` is an int8_t, kept as its bit pattern below 256; `intval` is a uint32_t.
use zephyr_grbl.Prelude.{
  leb, ◌==◌, if◌then◌else◌, ℕ, zero, suc, ◌+◌, ◌-◌, ◌*◌, ◌%◌, ◌^◌, Bool, true, false, not, ◌&&◌,
  Option, none, some, List, [], ◌∷◌,
}

pub record Scan : Type 0 where
  pub intval : ℕ
  pub exp : ℕ
  pub ndigit : ℕ
  pub isdecimal : Bool

abbrev pub start : Scan
start = record { intval = 0; exp = 0; ndigit = 0; isdecimal = false }

-- MAX_INT_DIGITS
abbrev pub max_int_digits : ℕ
max_int_digits = 8

-- One more digit `d`: it counts, or it is dropped and scales the number.
unfoldable pub scan_digit : ℕ → Scan → Scan
scan_digit d s =
    let n : ℕ = (s.ndigit + 1) % 256 in
    if leb n max_int_digits
    then record s {
      ndigit = n;
      exp = if s.isdecimal then (s.exp + 255) % 256 else s.exp;
      intval = ((s.intval * 4 + s.intval) * 2 + d) % 2 ^ 32;
    }
    else record s { ndigit = n; exp = if s.isdecimal then s.exp else (s.exp + 1) % 256 }

-- One round of the loop; `none` is its break. `c -= '0'` wraps in an unsigned char.
unfoldable pub scan_char : ℕ → Scan → Option Scan
scan_char c s =
    let d : ℕ = (c + 256 - b'0') % 256 in
    if leb d 9
    then some (scan_digit d s)
    else if (d == (b'.' + 256 - b'0') % 256) && not s.isdecimal
    then some (record s { isdecimal = true })
    else none

-- The loop, with what is left of the line when it breaks.
unfoldable pub scan : Scan → List ℕ → Scan × List ℕ
scan s [] = (s, [])
scan s (c ∷ cs) = elim (scan_char c s) [ none ↦ (s, c ∷ cs) | some s' ↦ scan s' cs ]

-- The sign, and the line behind it.
unfoldable pub read_sign : List ℕ → Bool × List ℕ
read_sign [] = (false, [])
read_sign (c ∷ cs) =
    if c == b'-' then (true, cs) else if c == b'+' then (false, cs) else (false, c ∷ cs)

-- The floating-point operations that read_float performs.
pub record FloatOps : Type 1 where
  pub Float : Type 0
  pub of_uint32 : ℕ → Float
  pub is_zero : Float → Bool
  pub times_hundredth : Float → Float
  pub times_tenth : Float → Float
  pub times_ten : Float → Float
  pub negate : Float → Float

module _ (ops : FloatOps) where
  open ops use {Float, of_uint32, is_zero, times_hundredth, times_tenth, times_ten, negate}

  -- while (exp <= -2) { fval *= 0.01; exp += 2; } if (exp < 0) { fval *= 0.1; }, at exp = -n
  unfoldable pub scale_down : ℕ → Float → Float
  scale_down zero f = f
  scale_down (suc zero) f = times_tenth f
  scale_down (suc (suc n)) f = scale_down n (times_hundredth f)

  -- do { fval *= 10.0; } while (--exp > 0), at exp = n
  unfoldable pub scale_up : ℕ → Float → Float
  scale_up zero f = f
  scale_up (suc n) f = scale_up n (times_ten f)

  -- The sign bit of exp says which loop runs.
  unfoldable pub apply_decimal : ℕ → Float → Float
  unfolding scale_down scale_up
  apply_decimal exp f =
      if is_zero f then f else if leb 128 exp then scale_down (256 - exp) f else scale_up exp f

  -- The number and what is left of the line; `none` for `return(false)`.
  unfoldable pub read_float : List ℕ → Option (Float × List ℕ)
  read_float line =
      let (negative, digits) = read_sign line in
      let (s, rest) = scan start digits in
      let f : Float = apply_decimal s.exp (of_uint32 s.intval) in
      if s.ndigit == 0 then none else some (if negative then negate f else f, rest)
