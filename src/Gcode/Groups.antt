-- ===== src/Gcode/Groups.antt =====
-- The modal groups of a block, against the table of the g-code standard that gcode.h gives in its
-- comments: the words that gc_execute_line accepts.
use zephyr_grbl.Prelude.{leb, ◌==◌, if◌then◌else◌, if_split, ℕ, ◌≡◌, true, ◌&&◌, ◌||◌, arith}
use zephyr_grbl.Gcode.Bits.{}
use zephyr_grbl.Gcode.Codes.{
  modal_group_g0, modal_group_g1, modal_group_g2, modal_group_g3, modal_group_g4, modal_group_g5,
  modal_group_g6, modal_group_g7, modal_group_g8, modal_group_g12, modal_group_g13, modal_group_m4,
  modal_group_m7, modal_group_m8,
}
use zephyr_grbl.Gcode.Defs.{GcodeBlock, Result, done}
use zephyr_grbl.Gcode.CommandWords.{
  between, Command, non_modal_word, motion_word, distance_word, tool_length_word, mode_word,
  g_command, m_command,
}

-- The number of the group of a G word with this mantissa, in hundredths; 16 for no group.
-- The code takes G49 with any fraction as G49, so the table does too.
unfoldable pub g_group : ℕ → ℕ → ℕ
g_group n mantissa =
    if n == 49
    then modal_group_g8
    else if mantissa == 0
    then (if n == 4 || (n == 10 || (n == 28 || (n == 30 || (n == 53 || n == 92))))
        then modal_group_g0
        else if n == 0 || (n == 1 || (n == 2 || (n == 3 || n == 80)))
        then modal_group_g1
        else if n == 17 || (n == 18 || n == 19)
        then modal_group_g2
        else if n == 90 || n == 91
        then modal_group_g3
        else if n == 93 || n == 94
        then modal_group_g5
        else if n == 20 || n == 21
        then modal_group_g6
        else if n == 40
        then modal_group_g7
        else if n == 54 || (n == 55 || (n == 56 || (n == 57 || (n == 58 || n == 59))))
        then modal_group_g12
        else if n == 61
        then modal_group_g13
        else 16)
    else if mantissa == 10
    then (if n == 28 || (n == 30 || n == 92)
        then modal_group_g0
        else if n == 91
        then modal_group_g4
        else if n == 43
        then modal_group_g8
        else 16)
    else if n == 38 && (mantissa == 20 || (mantissa == 30 || (mantissa == 40 || mantissa == 50)))
    then modal_group_g1
    else 16

unfoldable pub m_group : ℕ → ℕ
m_group n =
    if n == 0 || (n == 1 || (n == 2 || n == 30))
    then modal_group_m4
    else if n == 3 || (n == 4 || n == 5)
    then modal_group_m7
    else if n == 8 || n == 9
    then modal_group_m8
    else 16

module _ {F : Type 0} where
  non_modal_word-group :
      (n mantissa : ℕ) (b : GcodeBlock F) (c : Command F)
      → non_modal_word n mantissa b ≡ done c
      → c.rest ≡ 0
      → n == 4 || (n == 10 || (n == 28 || (n == 30 || (n == 53 || n == 92)))) ≡ true
      → g_group n mantissa ≡ c.word_bit
  unfolding non_modal_word g_group
  non_modal_word-group n mantissa b c h r i = ground arith

  motion_word-group :
      (n mantissa : ℕ) (b : GcodeBlock F) (c : Command F)
      → motion_word n mantissa b ≡ done c
      → c.rest ≡ 0
      → leb n 3 || (n == 38 || n == 80) ≡ true
      → g_group n mantissa ≡ c.word_bit
  unfolding motion_word g_group
  motion_word-group n mantissa b c h r i = ground arith

  distance_word-group :
      (n mantissa : ℕ) (b : GcodeBlock F) (c : Command F)
      → distance_word n mantissa b ≡ done c
      → c.rest ≡ 0
      → between 90 91 n ≡ true
      → g_group n mantissa ≡ c.word_bit
  unfolding distance_word g_group
  distance_word-group n mantissa b c h r i = ground arith

  tool_length_word-group :
      (n mantissa : ℕ) (b : GcodeBlock F) (c : Command F)
      → tool_length_word n mantissa b ≡ done c
      → c.rest ≡ 0
      → n == 43 || n == 49 ≡ true
      → g_group n mantissa ≡ c.word_bit
  unfolding tool_length_word g_group
  tool_length_word-group n mantissa b c h r i = ground arith

  mode_word-group :
      (n mantissa : ℕ) (b : GcodeBlock F) (c : Command F)
      → mode_word n mantissa b ≡ done c
      → c.rest ≡ 0
      → g_group n mantissa ≡ c.word_bit
  unfolding mode_word g_group
  mode_word-group n mantissa b c h r =
      let Goal = λ (x : Result (Command F)). x ≡ done c → g_group n mantissa ≡ c.word_bit in
      if_split Goal (between 17 19 n) (λ e h1. ground arith)
        (λ _.
          if_split Goal (between 93 94 n) (λ e h1. ground arith)
            (λ _.
              if_split Goal (between 20 21 n) (λ e h1. ground arith)
                (λ _.
                  if_split Goal (n == 40) (λ e h1. ground arith)
                    (λ _.
                      if_split Goal (between 54 59 n) (λ e h1. ground arith)
                        (λ _ h1. ground arith)))))
        h

  -- A G word that is accepted belongs to the group whose bit it sets.
  pub g_command-group :
      (n mantissa : ℕ) (b : GcodeBlock F) (c : Command F)
      → g_command n mantissa b ≡ done c
      → c.rest ≡ 0
      → g_group n mantissa ≡ c.word_bit
  unfolding g_command
  g_command-group n mantissa b c h r =
      let Goal = λ (x : Result (Command F)). x ≡ done c → g_group n mantissa ≡ c.word_bit in
      if_split Goal (n == 4 || (n == 10 || (n == 28 || (n == 30 || (n == 53 || n == 92)))))
        (λ e h1. non_modal_word-group n mantissa b c h1 r e)
        (λ _.
          if_split Goal (leb n 3 || (n == 38 || n == 80))
            (λ e h1. motion_word-group n mantissa b c h1 r e)
            (λ _.
              if_split Goal (between 90 91 n) (λ e h1. distance_word-group n mantissa b c h1 r e)
                (λ _.
                  if_split Goal (n == 43 || n == 49)
                    (λ e h1. tool_length_word-group n mantissa b c h1 r e)
                    (λ _ h1. mode_word-group n mantissa b c h1 r))))
        h

  pub g_command-words :
      (n mantissa : ℕ) (b : GcodeBlock F) (c : Command F)
      → g_command n mantissa b ≡ done c
      → c.block.command_words ≡ b.command_words
  unfolding g_command non_modal_word motion_word distance_word tool_length_word mode_word
  g_command-words n mantissa b c h = ground arith

  pub m_command-group :
      (n : ℕ) (b : GcodeBlock F) (c : Command F) → m_command n b ≡ done c → m_group n ≡ c.word_bit
  unfolding m_command m_group
  m_command-group n b c h = ground arith

  pub m_command-words :
      (n : ℕ) (b : GcodeBlock F) (c : Command F)
      → m_command n b ≡ done c
      → c.block.command_words ≡ b.command_words
  unfolding m_command
  m_command-words n b c h = ground arith
