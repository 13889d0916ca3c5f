-- ===== src/Gcode/OneAxisCommand.antt =====
-- An accepted block has at most one word that uses the axis words (gcode.c, lines 142 to 225).
use zephyr_grbl.Prelude.{
  leb, ◌==◌, if◌then◌else◌, Bool-cases, if_split, ℕ, ◌+◌, ◌≤◌, ◌≡◌, ◌∙◌, inl, inr, Bool, true,
  false, not, ◌&&◌, ◌||◌, Option, arith,
}
use zephyr_grbl.Gcode.Codes.{}
use zephyr_grbl.Gcode.Defs.{
  Arithmetic, Vec, Parser, GcodeBlock, Result, axis_command_none, command_value_not_integer, done,
}
use zephyr_grbl.Gcode.CommandWords.{
  between, Command, non_modal_word, motion_word, distance_word, tool_length_word, mode_word,
  g_command, m_command, add_command, g_word, m_word,
}
use zephyr_grbl.Gcode.Words.{
  value_word, add_value, read_word, Line, read_words, end_of_line, word, broken,
}
use zephyr_grbl.Gcode.Checking.{Checked}
use zephyr_grbl.Gcode.Motions.{}
use zephyr_grbl.Gcode.Running.{initial_block, parse_block}
use zephyr_grbl.Gcode.Results.{bind-done_inv, require-done_inv, done_inj}
use zephyr_grbl.Gcode.OnePerGroup.{tally}
use zephyr_grbl.Gcode.Accepted.{count_words, read_word-cases}

-- The G words that are an axis command: a motion, G10, G28, G30 and G92 without a fraction, and the
-- tool length words.
unfoldable pub is_axis_command : ℕ → ℕ → Bool
is_axis_command n mantissa =
    (n == 0 || (n == 1 || (n == 2 || (n == 3 || n == 38))))
    || ((n == 43 || n == 49) || (mantissa == 0 && (n == 10 || (n == 28 || (n == 30 || n == 92)))))

mode_word-unclaimed :
    (n mantissa : ℕ)
    → n == 4 || (n == 10 || (n == 28 || (n == 30 || (n == 53 || n == 92)))) ≡ false
    → leb n 3 || (n == 38 || n == 80) ≡ false
    → n == 43 || n == 49 ≡ false
    → is_axis_command n mantissa ≡ false
unfolding is_axis_command
mode_word-unclaimed n mantissa h i j = ground arith

module _ {F : Type 0} where
  abbrev pub claimed : GcodeBlock F → ℕ
  claimed b = tally (not (b.axis_command == axis_command_none))

  non_modal_word-claimed :
      (n mantissa : ℕ) (b : GcodeBlock F) (c : Command F)
      → non_modal_word n mantissa b ≡ done c
      → n == 4 || (n == 10 || (n == 28 || (n == 30 || (n == 53 || n == 92)))) ≡ true
      → claimed c.block ≡ claimed b + tally (is_axis_command n mantissa)
  unfolding non_modal_word is_axis_command
  non_modal_word-claimed n mantissa b c h i = ground arith

  motion_word-claimed :
      (n mantissa : ℕ) (b : GcodeBlock F) (c : Command F)
      → motion_word n mantissa b ≡ done c
      → leb n 3 || (n == 38 || n == 80) ≡ true
      → claimed c.block ≡ claimed b + tally (is_axis_command n mantissa)
  unfolding motion_word is_axis_command
  motion_word-claimed n mantissa b c h i = ground arith

  tool_length_word-claimed :
      (n mantissa : ℕ) (b : GcodeBlock F) (c : Command F)
      → tool_length_word n mantissa b ≡ done c
      → n == 43 || n == 49 ≡ true
      → claimed c.block ≡ claimed b + tally (is_axis_command n mantissa)
  unfolding tool_length_word is_axis_command
  tool_length_word-claimed n mantissa b c h i = ground arith

  -- The other words leave the axis command.
  distance_word-axes :
      (n mantissa : ℕ) (b : GcodeBlock F) (c : Command F)
      → distance_word n mantissa b ≡ done c
      → c.block.axis_command ≡ b.axis_command
  unfolding distance_word
  distance_word-axes n mantissa b c h = ground arith

  mode_word-axes :
      (n mantissa : ℕ) (b : GcodeBlock F) (c : Command F)
      → mode_word n mantissa b ≡ done c
      → c.block.axis_command ≡ b.axis_command
  unfolding mode_word
  mode_word-axes n mantissa b c h = ground arith

  m_command-axes :
      (n : ℕ) (b : GcodeBlock F) (c : Command F)
      → m_command n b ≡ done c
      → c.block.axis_command ≡ b.axis_command
  unfolding m_command
  m_command-axes n b c h = ground arith

  add_command-axes :
      (c : Command F) (b : GcodeBlock F)
      → add_command c ≡ done b
      → b.axis_command ≡ c.block.axis_command
  unfolding add_command
  add_command-axes c b h = ground arith

  unclaimed :
      (n mantissa : ℕ) (b b' : GcodeBlock F)
      → b'.axis_command ≡ b.axis_command
      → is_axis_command n mantissa ≡ false
      → claimed b' ≡ claimed b + tally (is_axis_command n mantissa)
  unclaimed n mantissa b b' same e = rw (e, same) (ground arith)

  g_command-claimed :
      (n mantissa : ℕ) (b : GcodeBlock F) (c : Command F)
      → g_command n mantissa b ≡ done c
      → claimed c.block ≡ claimed b + tally (is_axis_command n mantissa)
  unfolding g_command
  g_command-claimed n mantissa b c h =
      let Goal = λ (x : Result (Command F)).
        x ≡ done c → claimed c.block ≡ claimed b + tally (is_axis_command n mantissa) in
      if_split Goal (n == 4 || (n == 10 || (n == 28 || (n == 30 || (n == 53 || n == 92)))))
        (λ e h1. non_modal_word-claimed n mantissa b c h1 e)
        (λ e1.
          if_split Goal (leb n 3 || (n == 38 || n == 80))
            (λ e h1. motion_word-claimed n mantissa b c h1 e)
            (λ e2.
              if_split Goal (between 90 91 n)
                (λ e h1.
                  unclaimed n mantissa b c.block (distance_word-axes n mantissa b c h1)
                    (mode_word-unclaimed n mantissa e1 e2 (ground arith)))
                (λ _.
                  if_split Goal (n == 43 || n == 49)
                    (λ e h1. tool_length_word-claimed n mantissa b c h1 e)
                    (λ e3 h1.
                      unclaimed n mantissa b c.block (mode_word-axes n mantissa b c h1)
                        (mode_word-unclaimed n mantissa e1 e2 e3)))))
        h

  g_word-claimed :
      (n mantissa : ℕ) (b b' : GcodeBlock F)
      → g_word n mantissa b ≡ done b'
      → claimed b' ≡ claimed b + tally (is_axis_command n mantissa)
  unfolding g_word
  g_word-claimed n mantissa b b' h =
      let (c, (accepted, checked)) = bind-done_inv (g_command n mantissa b) _ b' h in
      let (_, added) = require-done_inv (c.rest == 0) command_value_not_integer _ b' checked in
      rw (add_command-axes c b' added) (g_command-claimed n mantissa b c accepted)

  m_word-axes :
      (n mantissa : ℕ) (b b' : GcodeBlock F)
      → m_word n mantissa b ≡ done b'
      → b'.axis_command ≡ b.axis_command
  unfolding m_word
  m_word-axes n mantissa b b' h =
      let (_, switched) = require-done_inv (mantissa == 0) command_value_not_integer _ b' h in
      let (c, (accepted, added)) = bind-done_inv (m_command n b) _ b' switched in
      add_command-axes c b' added ∙ m_command-axes n b c accepted

module _ (ops : Arithmetic) where
  open ops use {floats, trunc_byte, mantissa}

  -- Whether a word is an axis command.
  unfoldable pub claims_axes : ℕ → floats.Float → Bool
  claims_axes letter v =
      if letter == b'G' then is_axis_command (trunc_byte v) (mantissa v (trunc_byte v)) else false

  value_word-axes :
      (letter : ℕ) (v : floats.Float) (b : GcodeBlock floats.Float)
      (c : ℕ × GcodeBlock floats.Float)
      → value_word ops letter v b ≡ done c
      → c.1.axis_command ≡ b.axis_command
  unfolding value_word
  value_word-axes letter v b c h = ground arith

  add_value-axes :
      (w : ℕ) (v : floats.Float) (b b' : GcodeBlock floats.Float)
      → add_value ops w v b ≡ done b'
      → b'.axis_command ≡ b.axis_command
  unfolding add_value
  add_value-axes w v b b' h = ground arith

  read_word-claimed :
      (letter : ℕ) (v : floats.Float) (b b' : GcodeBlock floats.Float)
      → read_word ops letter v b ≡ done b'
      → claimed b' ≡ claimed b + tally (claims_axes letter v)
  unfolding claims_axes
  read_word-claimed letter v b b' h = elim (read_word-cases ops letter v b b' h) [
    | inl (g, accepted) ↦ rw (g) (g_word-claimed (trunc_byte v) _ b b' accepted)
    | inr (inl (g, (m, accepted))) ↦
        let same = m_word-axes (trunc_byte v) _ b b' accepted in rw (g, same) (ground arith)
    | inr (inr (g, (m, (c, (stored, added))))) ↦
        let same = add_value-axes c.0 v c.1 b' added ∙ value_word-axes letter v b c stored in
        rw (g, same) (ground arith)
  ]

  read_words-claimed :
      (line : Line ops) (b b' : GcodeBlock floats.Float)
      → read_words ops line b ≡ done b'
      → claimed b' ≡ claimed b + count_words ops claims_axes line
  unfolding read_words count_words
  read_words-claimed end_of_line b b' h = rw (done_inj h) (ground arith)
  read_words-claimed (broken e) b b' h = ground arith
  read_words-claimed (word letter v rest) b b' h =
      let (b1, (first, others)) = bind-done_inv (read_word ops letter v b) _ b' h in
      let one = read_word-claimed letter v b b1 first in
      let more = read_words-claimed rest b1 b' others in ground arith

module _ (ops : Arithmetic)
    (settings_read_coord_data : ℕ → Vec ops.floats.Float → Option (Vec ops.floats.Float)) where
  open ops use {floats}

  -- A block that passes the parser, from a line of any words and any state, has at most one word
  -- that is an axis command.
  pub parse_block-axis_commands :
      (jog : Bool) (gs : Parser floats.Float) (line : Line ops) (c : Checked floats.Float)
      → parse_block ops settings_read_coord_data jog gs line ≡ done c
      → count_words ops (claims_axes ops) line ≤ 1
  unfolding parse_block initial_block
  parse_block-axis_commands jog gs line c h =
      let start = initial_block ops settings_read_coord_data jog gs in
      let (b, (words, _)) = bind-done_inv (read_words ops line start) _ c h in
      let counted = read_words-claimed ops line start b words in
      let some_or_none = Bool-cases (b.axis_command == axis_command_none) in ground arith
