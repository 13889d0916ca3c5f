-- ===== src/Gcode/Fuel.antt =====
-- The loop over the words of a line ends (gcode.c, lines 117 to 123): the length of the line is
-- enough fuel, since each word takes its letter.
use zephyr_grbl.Prelude.{
  ltb, ◌==◌, if◌then◌else◌, Option-cases, if_split, length, ℕ, zero, suc, ◌≤◌, ◌≡◌, refl, ap, inl,
  inr, ◌||◌, Option, some, List, [], ◌∷◌, arith,
}
use zephyr_grbl.Number.{Scan, start, scan_char, scan, read_sign, FloatOps, read_float}
use zephyr_grbl.Gcode.Defs.{Arithmetic, expected_command_letter}
use zephyr_grbl.Gcode.Words.{words_of, word, broken}

scan-length : (s : Scan) (cs : List ℕ) → length (scan s cs).1 ≤ length cs
unfolding scan
scan-length s [] = ground arith
scan-length s (c ∷ cs) = elim (Option-cases (scan_char c s)) [
  | inl e ↦ rw (e, scan) (ground arith)
  | inr (s', e) ↦ let shorter = scan-length s' cs in rw (e, scan) (ground arith)
]

read_sign-length : (cs : List ℕ) → length (read_sign cs).1 ≤ length cs
unfolding read_sign
read_sign-length [] = ground arith
read_sign-length (c ∷ cs) = ground arith

module _ (ops : FloatOps) where
  open ops use {Float}

  pub read_float-length :
      (cs rest : List ℕ) (x : Float) → read_float ops cs ≡ some (x, rest) → length rest ≤ length cs
  unfolding read_float
  read_float-length cs rest x h =
      let scanned = scan (start) (read_sign cs).1 in
      let shorter = scan-length start (read_sign cs).1 in
      let signless = read_sign-length cs in
      let same : scanned.1 ≡ rest =
        if_split (λ (y : Option (Float × List ℕ)). y ≡ some (x, rest) → scanned.1 ≡ rest)
          (scanned.0.ndigit == 0) (λ _ e. ground arith) (λ _ e. ground arith) h in
      omega (arith, ap length same, shorter, signless)

module _ (ops : Arithmetic) where
  open ops use {floats}

  words_of_same :
      (f g : ℕ) (line : List ℕ)
      → length line ≤ f
      → length line ≤ g
      → words_of ops f line ≡ words_of ops g line
  unfolding words_of
  words_of_same f g [] h i = refl
  words_of_same zero g (c ∷ cs) h i = absurd (ground arith)
  words_of_same (suc f) zero (c ∷ cs) h i = absurd (ground arith)
  words_of_same (suc f) (suc g) (c ∷ cs) h i = elim (Option-cases (read_float floats cs)) [
    | inl e ↦ rw (e, words_of) refl
    | inr ((x, rest), e) ↦
        let shorter = read_float-length floats cs rest x e in
        rw (e, words_of)
          (ap (λ l. if ltb c b'A' || ltb b'Z' c then broken expected_command_letter else word c x l)
            (words_of_same f g rest (ground arith) (ground arith)))
  ]

  -- Any fuel from the length of the line on gives the same words: the length is enough.
  pub words_of-fuel :
      (fuel : ℕ) (line : List ℕ)
      → length line ≤ fuel
      → words_of ops fuel line ≡ words_of ops (length line) line
  words_of-fuel fuel line h = words_of_same fuel (length line) line h (ground arith)
