-- ===== src/Gcode/Words.antt =====
-- STEP 2 of gc_execute_line (gcode.c, lines 108 to 335): the words of a block, a letter and a number
-- each, and the checks for two commands of one modal group, repeated words and negative values.
use zephyr_grbl.Prelude.{
  ltb, ◌==◌, if◌then◌else◌, ℕ, zero, suc, Bool, ◌&&◌, ◌||◌, none, some, List, [], ◌∷◌,
}
use zephyr_grbl.Flags.{bit, ◌bor◌, value}
use zephyr_grbl.Number.{read_float}
use zephyr_grbl.Gcode.Bits.{add_bit}
use zephyr_grbl.Gcode.Codes.{
  word_f, word_i, word_j, word_k, word_l, word_n, word_p, word_r, word_s, word_t, word_x, word_y,
  word_z,
}
use zephyr_grbl.Gcode.Defs.{
  Arithmetic, put, Values, GcodeBlock, GcodeStatus, Result, ◌>>=◌, expected_command_letter,
  bad_number_format, negative_value, unsupported_command, word_repeated, max_value_exceeded, done,
  fail,
}
use zephyr_grbl.Gcode.CommandWords.{g_word, m_word}

-- F, N, P, S and T must not be negative.
abbrev pub is_unsigned_word : ℕ → Bool
is_unsigned_word w = w == word_f || (w == word_n || (w == word_p || (w == word_s || w == word_t)))

module _ (ops : Arithmetic) where
  open ops use {floats, less, trunc_byte, trunc_int, mantissa, above_max_tool, zero_value}

  -- Lines 298 to 323: a word that gives a value, by its letter; its bit, and the block.
  unfoldable pub value_word :
      ℕ → floats.Float → GcodeBlock floats.Float → Result (ℕ × GcodeBlock floats.Float)
  value_word letter value b =
      let v : Values floats.Float = b.values in
      let set_values = λ (w : Values floats.Float). record b { values = w } in
      if letter == b'F'
      then done (word_f, set_values (record v { f = value }))
      else if letter == b'I'
      then done (
        word_i,
        record (set_values (record v { ijk = put v.ijk 0 value })) {
          ijk_words = b.ijk_words bor bit 0;
        },
      )
      else if letter == b'J'
      then done (
        word_j,
        record (set_values (record v { ijk = put v.ijk 1 value })) {
          ijk_words = b.ijk_words bor bit 1;
        },
      )
      else if letter == b'K'
      then done (
        word_k,
        record (set_values (record v { ijk = put v.ijk 2 value })) {
          ijk_words = b.ijk_words bor bit 2;
        },
      )
      else if letter == b'L'
      then done (word_l, set_values (record v { l = trunc_byte value }))
      else if letter == b'N'
      then done (word_n, set_values (record v { n = trunc_int value }))
      else if letter == b'P'
      then done (word_p, set_values (record v { p = value }))
      else if letter == b'R'
      then done (word_r, set_values (record v { r = value }))
      else if letter == b'S'
      then done (word_s, set_values (record v { s = value }))
      else if letter == b'T'
      then (if above_max_tool value
          then fail max_value_exceeded
          else done (word_t, set_values (record v { t = trunc_byte value })))
      else if letter == b'X'
      then done (
        word_x,
        record (set_values (record v { xyz = put v.xyz 0 value })) {
          axis_words = b.axis_words bor bit 0;
        },
      )
      else if letter == b'Y'
      then done (
        word_y,
        record (set_values (record v { xyz = put v.xyz 1 value })) {
          axis_words = b.axis_words bor bit 1;
        },
      )
      else if letter == b'Z'
      then done (
        word_z,
        record (set_values (record v { xyz = put v.xyz 2 value })) {
          axis_words = b.axis_words bor bit 2;
        },
      )
      else fail unsupported_command

  -- Lines 326 to 332.
  unfoldable pub add_value :
      ℕ → floats.Float → GcodeBlock floats.Float → Result (GcodeBlock floats.Float)
  add_value word_bit value b =
      if b.value_words word_bit
      then fail word_repeated
      else if is_unsigned_word word_bit && less value zero_value
      then fail negative_value
      else done (record b { value_words = add_bit word_bit b.value_words })

  -- Lines 132 to 334: one word, its letter and its value.
  unfoldable pub read_word :
      ℕ → floats.Float → GcodeBlock floats.Float → Result (GcodeBlock floats.Float)
  read_word letter value b =
      let int_value : ℕ = trunc_byte value in
      if letter == b'G'
      then g_word int_value (mantissa value int_value) b
      else if letter == b'M'
      then m_word int_value (mantissa value int_value) b
      else value_word letter value b >>= λ c. add_value c.0 value c.1

  -- A line cut into words: letters with the values behind them, up to the end of the line or to the
  -- first place where there is no word.
  pub data Line : Type 0 where
    end_of_line : Line
    word : ℕ → floats.Float → Line → Line
    broken : GcodeStatus → Line

  -- Lines 117 to 123, on what is left of the line. The fuel is its length: each word takes at least
  -- its letter.
  unfoldable pub words_of : ℕ → List ℕ → Line
  words_of fuel [] = end_of_line
  words_of zero (c ∷ cs) = end_of_line
  words_of (suc fuel) (c ∷ cs) =
      if ltb c b'A' || ltb b'Z' c
      then broken expected_command_letter
      else elim (read_float floats cs) [
        | none ↦ broken bad_number_format
        | some (value, rest) ↦ word c value (words_of fuel rest)
      ]

  -- Lines 117 to 335: the while loop.
  unfoldable pub read_words : Line → GcodeBlock floats.Float → Result (GcodeBlock floats.Float)
  read_words end_of_line b = done b
  read_words (broken status) b = fail status
  read_words (word letter value rest) b = read_word letter value b >>= λ b'. read_words rest b'
