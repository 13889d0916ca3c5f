-- ===== src/Gcode/OncePerLetter.antt =====
-- An accepted value word sets the bit of its letter, which was not set (gcode.c, lines 292 to 332).
use zephyr_grbl.Prelude.{
  ◌==◌, if◌then◌else◌, if_split, ℕ, ◌+◌, ◌≡◌, sym, ap, ◌∙◌, ◌&&◌, List, [], ◌∷◌, arith,
}
use zephyr_grbl.Gcode.Bits.{}
use zephyr_grbl.Gcode.Codes.{}
use zephyr_grbl.Gcode.Defs.{Arithmetic, GcodeBlock, Result, command_value_not_integer, done}
use zephyr_grbl.Gcode.CommandWords.{
  Command, non_modal_word, motion_word, distance_word, tool_length_word, mode_word, g_command,
  m_command, add_command, g_word, m_word,
}
use zephyr_grbl.Gcode.Words.{is_unsigned_word, value_word, add_value}
use zephyr_grbl.Gcode.Results.{bind-done_inv, require-done_inv, done_inj}
use zephyr_grbl.Gcode.OnePerGroup.{tally, tally_add}

abbrev index_in : List ℕ → ℕ → ℕ → ℕ
index_in [] i letter = 16
index_in (l ∷ ls) i letter = if letter == l then i else index_in ls (i + 1) letter

-- The place of a value letter among the value letters; 16 for another letter.
unfoldable pub letter_index : ℕ → ℕ
letter_index =
    index_in
      (b'F' ∷ b'I' ∷ b'J' ∷ b'K' ∷ b'L' ∷ b'N' ∷ b'P' ∷ b'R' ∷ b'S' ∷ b'T' ∷ b'X' ∷ b'Y' ∷ b'Z'
        ∷ [])
      0

module _ {F : Type 0} where
  g_command-values :
      (n mantissa : ℕ) (b : GcodeBlock F) (c : Command F)
      → g_command n mantissa b ≡ done c
      → c.block.value_words ≡ b.value_words
  unfolding g_command non_modal_word motion_word distance_word tool_length_word mode_word
  g_command-values n mantissa b c h = ground arith

  m_command-values :
      (n : ℕ) (b : GcodeBlock F) (c : Command F)
      → m_command n b ≡ done c
      → c.block.value_words ≡ b.value_words
  unfolding m_command
  m_command-values n b c h = ground arith

  add_command-values :
      (c : Command F) (b : GcodeBlock F)
      → add_command c ≡ done b
      → b.value_words ≡ c.block.value_words
  unfolding add_command
  add_command-values c b h = ground arith

  pub g_word-values :
      (n mantissa : ℕ) (b b' : GcodeBlock F)
      → g_word n mantissa b ≡ done b'
      → b'.value_words ≡ b.value_words
  unfolding g_word
  g_word-values n mantissa b b' h =
      let (c, (accepted, checked)) = bind-done_inv (g_command n mantissa b) _ b' h in
      let (_, added) = require-done_inv (c.rest == 0) command_value_not_integer _ b' checked in
      add_command-values c b' added ∙ g_command-values n mantissa b c accepted

  pub m_word-values :
      (n mantissa : ℕ) (b b' : GcodeBlock F)
      → m_word n mantissa b ≡ done b'
      → b'.value_words ≡ b.value_words
  unfolding m_word
  m_word-values n mantissa b b' h =
      let (_, switched) = require-done_inv (mantissa == 0) command_value_not_integer _ b' h in
      let (c, (accepted, added)) = bind-done_inv (m_command n b) _ b' switched in
      add_command-values c b' added ∙ m_command-values n b c accepted

module _ (ops : Arithmetic) where
  open ops use {floats}

  pub value_word-index :
      (letter : ℕ) (v : floats.Float) (b : GcodeBlock floats.Float)
      (c : ℕ × GcodeBlock floats.Float)
      → value_word ops letter v b ≡ done c
      → c.0 ≡ letter_index letter
  unfolding value_word letter_index
  value_word-index letter v b c h = ground arith

  pub value_word-commands :
      (letter : ℕ) (v : floats.Float) (b : GcodeBlock floats.Float)
      (c : ℕ × GcodeBlock floats.Float)
      → value_word ops letter v b ≡ done c
      → c.1.command_words ≡ b.command_words
  unfolding value_word
  value_word-commands letter v b c h = ground arith

  pub value_word-values :
      (letter : ℕ) (v : floats.Float) (b : GcodeBlock floats.Float)
      (c : ℕ × GcodeBlock floats.Float)
      → value_word ops letter v b ≡ done c
      → c.1.value_words ≡ b.value_words
  unfolding value_word
  value_word-values letter v b c h = ground arith

  pub add_value-commands :
      (w : ℕ) (v : floats.Float) (b b' : GcodeBlock floats.Float)
      → add_value ops w v b ≡ done b'
      → b'.command_words ≡ b.command_words
  unfolding add_value
  add_value-commands w v b b' h = ground arith

  pub add_value-tally :
      (w : ℕ) (v : floats.Float) (b b' : GcodeBlock floats.Float) (i : ℕ)
      → add_value ops w v b ≡ done b'
      → tally (b'.value_words i) ≡ tally (b.value_words i) + tally (i == w)
  unfolding add_value
  add_value-tally w v b b' i =
      let Goal = λ (x : Result (GcodeBlock floats.Float)).
        x ≡ done b' → tally (b'.value_words i) ≡ tally (b.value_words i) + tally (i == w) in
      if_split Goal (b.value_words w) (λ _ h. ground arith)
        (λ e.
          if_split Goal (is_unsigned_word w && ops.less v ops.zero_value) (λ _ h. ground arith)
            (λ _ h.
              let t = tally_add w i b.value_words e in
              sym (ap (λ x. tally (x.value_words i)) (done_inj h)) ∙ t))
