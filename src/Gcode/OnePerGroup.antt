-- ===== src/Gcode/OnePerGroup.antt =====
-- An accepted command word sets the bit of its modal group, which was not set
-- (gcode.c, lines 142 to 290). Each G and M word adds one to the count of its group.
use zephyr_grbl.Prelude.{
  ◌==◌, if◌then◌else◌, ==_iff, if_split, ℕ, ◌+◌, ◌≡◌, sym, ap, ◌∙◌, Bool, false, arith,
}
use zephyr_grbl.Gcode.Bits.{Bits, add_bit}
use zephyr_grbl.Gcode.Codes.{}
use zephyr_grbl.Gcode.Defs.{GcodeBlock, Result, command_value_not_integer, done}
use zephyr_grbl.Gcode.CommandWords.{Command, g_command, m_command, add_command, g_word, m_word}
use zephyr_grbl.Gcode.Words.{}
use zephyr_grbl.Gcode.Results.{bind-done_inv, require-done_inv, done_inj}
use zephyr_grbl.Gcode.Groups.{
  g_group, m_group, g_command-group, g_command-words, m_command-group, m_command-words,
}

abbrev pub tally : Bool → ℕ
tally b = if b then 1 else 0

-- A bit that was not set counts one more.
pub tally_add :
    (k i : ℕ) (words : Bits)
    → words k ≡ false
    → tally (add_bit k words i) ≡ tally (words i) + tally (i == k)
tally_add k i words h =
    if_split (λ x. tally x ≡ tally (words i) + tally (i == k)) (i == k)
      (λ e. let q : words i ≡ words k = ap words ((==_iff i k).0 e) in ground arith)
      (λ e. ground arith)

module _ {F : Type 0} where
  add_command-tally :
      (c : Command F) (b : GcodeBlock F) (i : ℕ)
      → add_command c ≡ done b
      → tally (b.command_words i) ≡ tally (c.block.command_words i) + tally (i == c.word_bit)
  unfolding add_command
  add_command-tally c b i =
      let Goal = λ (x : Result (GcodeBlock F)).
        x ≡ done b
        → tally (b.command_words i) ≡ tally (c.block.command_words i) + tally (i == c.word_bit) in
      if_split Goal (c.block.command_words c.word_bit) (λ _ h. ground arith)
        (λ e h.
          let t = tally_add c.word_bit i c.block.command_words e in
          sym (ap (λ x. tally (x.command_words i)) (done_inj h)) ∙ t)

  pub g_word-tally :
      (n mantissa : ℕ) (b b' : GcodeBlock F) (i : ℕ)
      → g_word n mantissa b ≡ done b'
      → tally (b'.command_words i) ≡ tally (b.command_words i) + tally (i == g_group n mantissa)
  unfolding g_word
  g_word-tally n mantissa b b' i h =
      let (c, (accepted, checked)) = bind-done_inv (g_command n mantissa b) _ b' h in
      let (zero_rest, added) =
        require-done_inv (c.rest == 0) command_value_not_integer _ b' checked in
      let t = add_command-tally c b' i added in
      let group = g_command-group n mantissa b c accepted ((==_iff c.rest 0).0 zero_rest) in
      let words = g_command-words n mantissa b c accepted in rw (group, sym words) t

  pub m_word-tally :
      (n mantissa : ℕ) (b b' : GcodeBlock F) (i : ℕ)
      → m_word n mantissa b ≡ done b'
      → tally (b'.command_words i) ≡ tally (b.command_words i) + tally (i == m_group n)
  unfolding m_word
  m_word-tally n mantissa b b' i h =
      let (_, switched) = require-done_inv (mantissa == 0) command_value_not_integer _ b' h in
      let (c, (accepted, added)) = bind-done_inv (m_command n b) _ b' switched in
      let t = add_command-tally c b' i added in
      let group = m_command-group n b c accepted in
      let words = m_command-words n b c accepted in rw (group, sym words) t
