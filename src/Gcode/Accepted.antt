-- ===== src/Gcode/Accepted.antt =====
-- What the words of an accepted line have in common (gcode.c, lines 108 to 335): one command of a
-- modal group, one value of a letter.
use zephyr_grbl.Prelude.{
  ◌==◌, if◌then◌else◌, ==_iff, if_split, ℕ, ◌+◌, ◌≤◌, ◌<◌, ◌≡◌, sym, ap, ◌∙◌, ◌⊎◌, inl, inr, Bool,
  true, false, Option, arith,
}
use zephyr_grbl.Gcode.Bits.{}
use zephyr_grbl.Gcode.Codes.{}
use zephyr_grbl.Gcode.Defs.{Arithmetic, Vec, Parser, GcodeBlock, Result, done}
use zephyr_grbl.Gcode.CommandWords.{g_word, m_word}
use zephyr_grbl.Gcode.Words.{
  value_word, add_value, read_word, Line, read_words, end_of_line, word, broken,
}
use zephyr_grbl.Gcode.Checking.{Checked}
use zephyr_grbl.Gcode.Motions.{}
use zephyr_grbl.Gcode.Running.{initial_block, parse_block}
use zephyr_grbl.Gcode.Results.{bind-done_inv, done_inj}
use zephyr_grbl.Gcode.Groups.{g_group, m_group}
use zephyr_grbl.Gcode.OnePerGroup.{tally, g_word-tally, m_word-tally}
use zephyr_grbl.Gcode.OncePerLetter.{
  letter_index, g_word-values, m_word-values, value_word-index, value_word-commands,
  value_word-values, add_value-commands, add_value-tally,
}

at_most_one : (t : Bool) {n : ℕ} → tally t ≡ 0 + n → n ≤ 1
at_most_one t h = ground arith

module _ (ops : Arithmetic) where
  open ops use {floats, trunc_byte, mantissa}

  -- The modal group of a word, 16 if it has none.
  unfoldable pub group_of : ℕ → floats.Float → ℕ
  group_of letter v =
      let n : ℕ = trunc_byte v in
      if letter == b'G' then g_group n (mantissa v n) else if letter == b'M' then m_group n else 16

  -- The number of words of a line that satisfy `p`.
  unfoldable pub count_words : (ℕ → floats.Float → Bool) → Line ops → ℕ
  count_words p end_of_line = 0
  count_words p (broken _) = 0
  count_words p (word letter v rest) = tally (p letter v) + count_words p rest

  -- The three kinds of words that read_word accepts: a G word, an M word, a value.
  abbrev pub WordCases :
      ℕ → floats.Float → GcodeBlock floats.Float → GcodeBlock floats.Float → Type 0
  WordCases letter v b b' =
      ((letter == b'G' ≡ true) × (g_word (trunc_byte v) (mantissa v (trunc_byte v)) b ≡ done b'))
      ⊎ (((letter == b'G' ≡ false)
            × ((letter == b'M' ≡ true)
                × (m_word (trunc_byte v) (mantissa v (trunc_byte v)) b ≡ done b')))
          ⊎ ((letter == b'G' ≡ false)
              × ((letter == b'M' ≡ false)
                  × ((c : ℕ × GcodeBlock floats.Float) × ((value_word ops letter v b ≡ done c)
                        × (add_value ops c.0 v c.1 ≡ done b'))))))

  pub read_word-cases :
      (letter : ℕ) (v : floats.Float) (b b' : GcodeBlock floats.Float)
      → read_word ops letter v b ≡ done b'
      → WordCases letter v b b'
  unfolding read_word
  read_word-cases letter v b b' =
      let Goal = λ (x : Result (GcodeBlock floats.Float)). x ≡ done b' → WordCases letter v b b' in
      if_split Goal (letter == b'G') (λ g h. inl (g, h))
        (λ g.
          if_split Goal (letter == b'M') (λ m h. inr (inl (g, (m, h))))
            (λ m h. inr (inr (g, (m, bind-done_inv (value_word ops letter v b) _ b' h)))))

  read_word-commands :
      (letter : ℕ) (v : floats.Float) (b b' : GcodeBlock floats.Float) (i : ℕ)
      → i < 16
      → read_word ops letter v b ≡ done b'
      → tally (b'.command_words i) ≡ tally (b.command_words i) + tally (i == group_of letter v)
  unfolding group_of
  read_word-commands letter v b b' i small h = elim (read_word-cases letter v b b' h) [
    | inl (g, accepted) ↦
        rw (g) (g_word-tally (trunc_byte v) (mantissa v (trunc_byte v)) b b' i accepted)
    | inr (inl (g, (m, accepted))) ↦
        rw (g, m) (m_word-tally (trunc_byte v) (mantissa v (trunc_byte v)) b b' i accepted)
    | inr (inr (g, (m, (c, (stored, added))))) ↦
        let same : b'.command_words ≡ b.command_words =
          add_value-commands ops c.0 v c.1 b' added ∙ value_word-commands ops letter v b c stored in
        let at_i : b'.command_words i ≡ b.command_words i = ap (λ w. w i) same in
        rw (g, m, at_i) (ground arith)
  ]

  -- G and M words are not value letters, and set no value.
  unread :
      (letter i : ℕ) (b b' : GcodeBlock floats.Float)
      → i < 16
      → letter_index letter ≡ 16
      → b'.value_words ≡ b.value_words
      → tally (b'.value_words i) ≡ tally (b.value_words i) + tally (i == letter_index letter)
  unread letter i b b' small e same =
      let at_i : b'.value_words i ≡ b.value_words i = ap (λ w. w i) same in
      rw (e, at_i) (ground arith)

  read_word-values :
      (letter : ℕ) (v : floats.Float) (b b' : GcodeBlock floats.Float) (i : ℕ)
      → i < 16
      → read_word ops letter v b ≡ done b'
      → tally (b'.value_words i) ≡ tally (b.value_words i) + tally (i == letter_index letter)
  unfolding letter_index
  read_word-values letter v b b' i small h = elim (read_word-cases letter v b b' h) [
    | inl (g, accepted) ↦
        unread letter i b b' small (ap letter_index ((==_iff letter b'G').0 g))
          (g_word-values (trunc_byte v) (mantissa v (trunc_byte v)) b b' accepted)
    | inr (inl (g, (m, accepted))) ↦
        unread letter i b b' small (ap letter_index ((==_iff letter b'M').0 m))
          (m_word-values (trunc_byte v) (mantissa v (trunc_byte v)) b b' accepted)
    | inr (inr (g, (m, (c, (stored, added))))) ↦
        let t = add_value-tally ops c.0 v c.1 b' i added in
        let w = value_word-index ops letter v b c stored in
        let old : c.1.value_words i ≡ b.value_words i =
          ap (λ w. w i) (value_word-values ops letter v b c stored) in
        rw (sym w, sym old) t
  ]

  -- The bits of a block count the words that were read.
  read_words-commands :
      (line : Line ops) (b b' : GcodeBlock floats.Float) (i : ℕ)
      → i < 16
      → read_words ops line b ≡ done b'
      → tally (b'.command_words i)
        ≡ tally (b.command_words i) + count_words (λ letter v. i == group_of letter v) line
  unfolding read_words count_words
  read_words-commands end_of_line b b' i small h = rw (done_inj h) (ground arith)
  read_words-commands (broken e) b b' i small h = ground arith
  read_words-commands (word letter v rest) b b' i small h =
      let (b1, (first, others)) = bind-done_inv (read_word ops letter v b) _ b' h in
      let one = read_word-commands letter v b b1 i small first in
      let more = read_words-commands rest b1 b' i small others in ground arith

  read_words-values :
      (line : Line ops) (b b' : GcodeBlock floats.Float) (i : ℕ)
      → i < 16
      → read_words ops line b ≡ done b'
      → tally (b'.value_words i)
        ≡ tally (b.value_words i) + count_words (λ letter _. i == letter_index letter) line
  unfolding read_words count_words
  read_words-values end_of_line b b' i small h = rw (done_inj h) (ground arith)
  read_words-values (broken e) b b' i small h = ground arith
  read_words-values (word letter v rest) b b' i small h =
      let (b1, (first, others)) = bind-done_inv (read_word ops letter v b) _ b' h in
      let one = read_word-values letter v b b1 i small first in
      let more = read_words-values rest b1 b' i small others in ground arith

module _ (ops : Arithmetic)
    (settings_read_coord_data : ℕ → Vec ops.floats.Float → Option (Vec ops.floats.Float)) where
  open ops use {floats}

  -- A block that passes the parser, from a line of any words and any state, has at most one command
  -- of each of the modal groups that gcode.h numbers from 0 to 15.
  pub parse_block-groups :
      (jog : Bool) (gs : Parser floats.Float) (line : Line ops) (c : Checked floats.Float) (i : ℕ)
      → i < 16
      → parse_block ops settings_read_coord_data jog gs line ≡ done c
      → count_words ops (λ letter v. i == group_of ops letter v) line ≤ 1
  unfolding parse_block initial_block
  parse_block-groups jog gs line c i small h =
      let start = initial_block ops settings_read_coord_data jog gs in
      let (b, (words, _)) = bind-done_inv (read_words ops line start) _ c h in
      at_most_one _ (read_words-commands ops line start b i small words)

  -- A block that passes the parser gives each value letter, by its place in FIJKLNPRSTXYZ, at most
  -- one value.
  pub parse_block-letters :
      (jog : Bool) (gs : Parser floats.Float) (line : Line ops) (c : Checked floats.Float) (i : ℕ)
      → i < 16
      → parse_block ops settings_read_coord_data jog gs line ≡ done c
      → count_words ops (λ letter _. i == letter_index letter) line ≤ 1
  unfolding parse_block initial_block
  parse_block-letters jog gs line c i small h =
      let start = initial_block ops settings_read_coord_data jog gs in
      let (b, (words, _)) = bind-done_inv (read_words ops line start) _ c h in
      at_most_one _ (read_words-values ops line start b i small words)
