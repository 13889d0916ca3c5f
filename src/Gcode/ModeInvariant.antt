-- ===== src/Gcode/ModeInvariant.antt =====
-- The modes stay valid over every line (gcode.c): through the words of a block, the checks, the jog
-- and the order of execution.
use zephyr_grbl.Prelude.{leb, ◌==◌, if_split, ℕ, ◌≡◌, sym, ◌∙◌, inl, inr, true, ◌||◌, arith}
use mathlib.Core.Path.{subst}
use zephyr_grbl.Flags.{}
use zephyr_grbl.Gcode.Codes.{}
use zephyr_grbl.Gcode.Defs.{Arithmetic, GcodeBlock, Result, command_value_not_integer, done}
use zephyr_grbl.Gcode.CommandWords.{
  between, Command, non_modal_word, motion_word, distance_word, tool_length_word, mode_word,
  g_command, m_command, add_command, g_word, m_word,
}
use zephyr_grbl.Gcode.Words.{
  value_word, add_value, read_word, Line, read_words, end_of_line, word, broken,
}
use zephyr_grbl.Gcode.Accepted.{read_word-cases}
use zephyr_grbl.Gcode.Results.{bind-done_inv, require-done_inv, done_inj}
use zephyr_grbl.Gcode.ValidModes.{
  IsValidModal, non_modal_word-modal, motion_word-modal, motion_word-motion, distance_word-modal,
  distance_word-distance, tool_length_word-modal, tool_length_word-length, mode_word-modal,
  mode_word-plane, mode_word-feed_rate, mode_word-units, mode_word-coord_select, m_command-modal,
  m_command-flow, m_command-spindle, m_command-coolant,
}

module _ {F : Type 0} where
  non_modal_word-IsValidModal :
      (n mantissa : ℕ) (b : GcodeBlock F) (c : Command F)
      → non_modal_word n mantissa b ≡ done c
      → IsValidModal b.modal
      → IsValidModal c.block.modal
  non_modal_word-IsValidModal n mantissa b c h v =
      subst IsValidModal (sym (non_modal_word-modal n mantissa b c h)) v

  motion_word-IsValidModal :
      (n mantissa : ℕ) (b : GcodeBlock F) (c : Command F)
      → motion_word n mantissa b ≡ done c
      → leb n 3 || (n == 38 || n == 80) ≡ true
      → IsValidModal b.modal
      → IsValidModal c.block.modal
  motion_word-IsValidModal n mantissa b c h i v =
      subst IsValidModal (sym (motion_word-modal n mantissa b c h)) (record {
        motion_lem = motion_word-motion n mantissa b c h i;
        feed_rate_lem = v.feed_rate_lem;
        units_lem = v.units_lem;
        distance_lem = v.distance_lem;
        plane_lem = v.plane_lem;
        tool_length_lem = v.tool_length_lem;
        coord_select_lem = v.coord_select_lem;
        program_flow_lem = v.program_flow_lem;
        spindle_lem = v.spindle_lem;
        coolant_lem = v.coolant_lem;
      })

  distance_word-IsValidModal :
      (n mantissa : ℕ) (b : GcodeBlock F) (c : Command F)
      → distance_word n mantissa b ≡ done c
      → between 90 91 n ≡ true
      → IsValidModal b.modal
      → IsValidModal c.block.modal
  distance_word-IsValidModal n mantissa b c h i v =
      subst IsValidModal (sym (distance_word-modal n mantissa b c h)) (record {
        motion_lem = v.motion_lem;
        feed_rate_lem = v.feed_rate_lem;
        units_lem = v.units_lem;
        distance_lem = distance_word-distance n mantissa b c h i v.distance_lem;
        plane_lem = v.plane_lem;
        tool_length_lem = v.tool_length_lem;
        coord_select_lem = v.coord_select_lem;
        program_flow_lem = v.program_flow_lem;
        spindle_lem = v.spindle_lem;
        coolant_lem = v.coolant_lem;
      })

  tool_length_word-IsValidModal :
      (n mantissa : ℕ) (b : GcodeBlock F) (c : Command F)
      → tool_length_word n mantissa b ≡ done c
      → IsValidModal b.modal
      → IsValidModal c.block.modal
  tool_length_word-IsValidModal n mantissa b c h v =
      subst IsValidModal (sym (tool_length_word-modal n mantissa b c h)) (record {
        motion_lem = v.motion_lem;
        feed_rate_lem = v.feed_rate_lem;
        units_lem = v.units_lem;
        distance_lem = v.distance_lem;
        plane_lem = v.plane_lem;
        tool_length_lem = tool_length_word-length n mantissa b c h;
        coord_select_lem = v.coord_select_lem;
        program_flow_lem = v.program_flow_lem;
        spindle_lem = v.spindle_lem;
        coolant_lem = v.coolant_lem;
      })

  mode_word-IsValidModal :
      (n mantissa : ℕ) (b : GcodeBlock F) (c : Command F)
      → mode_word n mantissa b ≡ done c
      → IsValidModal b.modal
      → IsValidModal c.block.modal
  mode_word-IsValidModal n mantissa b c h v =
      subst IsValidModal (sym (mode_word-modal n mantissa b c h)) (record {
        motion_lem = v.motion_lem;
        feed_rate_lem = mode_word-feed_rate n mantissa b c h v.feed_rate_lem;
        units_lem = mode_word-units n mantissa b c h v.units_lem;
        distance_lem = v.distance_lem;
        plane_lem = mode_word-plane n mantissa b c h v.plane_lem;
        tool_length_lem = v.tool_length_lem;
        coord_select_lem = mode_word-coord_select n mantissa b c h v.coord_select_lem;
        program_flow_lem = v.program_flow_lem;
        spindle_lem = v.spindle_lem;
        coolant_lem = v.coolant_lem;
      })

  m_command-IsValidModal :
      (n : ℕ) (b : GcodeBlock F) (c : Command F)
      → m_command n b ≡ done c
      → IsValidModal b.modal
      → IsValidModal c.block.modal
  m_command-IsValidModal n b c h v = subst IsValidModal (sym (m_command-modal n b c h)) (record {
    motion_lem = v.motion_lem;
    feed_rate_lem = v.feed_rate_lem;
    units_lem = v.units_lem;
    distance_lem = v.distance_lem;
    plane_lem = v.plane_lem;
    tool_length_lem = v.tool_length_lem;
    coord_select_lem = v.coord_select_lem;
    program_flow_lem = m_command-flow n b c h v.program_flow_lem;
    spindle_lem = m_command-spindle n b c h v.spindle_lem;
    coolant_lem = m_command-coolant n b c h v.coolant_lem;
  })

  g_command-IsValidModal :
      (n mantissa : ℕ) (b : GcodeBlock F) (c : Command F)
      → g_command n mantissa b ≡ done c
      → IsValidModal b.modal
      → IsValidModal c.block.modal
  unfolding g_command
  g_command-IsValidModal n mantissa b c h v =
      let Goal = λ (x : Result (Command F)). x ≡ done c → IsValidModal c.block.modal in
      if_split Goal (n == 4 || (n == 10 || (n == 28 || (n == 30 || (n == 53 || n == 92)))))
        (λ _ h1. non_modal_word-IsValidModal n mantissa b c h1 v)
        (λ _.
          if_split Goal (leb n 3 || (n == 38 || n == 80))
            (λ e h1. motion_word-IsValidModal n mantissa b c h1 e v)
            (λ _.
              if_split Goal (between 90 91 n)
                (λ e h1. distance_word-IsValidModal n mantissa b c h1 e v)
                (λ _.
                  if_split Goal (n == 43 || n == 49)
                    (λ _ h1. tool_length_word-IsValidModal n mantissa b c h1 v)
                    (λ _ h1. mode_word-IsValidModal n mantissa b c h1 v))))
        h

  add_command-modal :
      (c : Command F) (b : GcodeBlock F) → add_command c ≡ done b → b.modal ≡ c.block.modal
  unfolding add_command
  add_command-modal c b h = ground arith

  g_word-IsValidModal :
      (n mantissa : ℕ) (b b' : GcodeBlock F)
      → g_word n mantissa b ≡ done b'
      → IsValidModal b.modal
      → IsValidModal b'.modal
  unfolding g_word
  g_word-IsValidModal n mantissa b b' h v =
      let (c, (accepted, checked)) = bind-done_inv (g_command n mantissa b) _ b' h in
      let (_, added) = require-done_inv (c.rest == 0) command_value_not_integer _ b' checked in
      subst IsValidModal (sym (add_command-modal c b' added))
        (g_command-IsValidModal n mantissa b c accepted v)

  m_word-IsValidModal :
      (n mantissa : ℕ) (b b' : GcodeBlock F)
      → m_word n mantissa b ≡ done b'
      → IsValidModal b.modal
      → IsValidModal b'.modal
  unfolding m_word
  m_word-IsValidModal n mantissa b b' h v =
      let (_, switched) = require-done_inv (mantissa == 0) command_value_not_integer _ b' h in
      let (c, (accepted, added)) = bind-done_inv (m_command n b) _ b' switched in
      subst IsValidModal (sym (add_command-modal c b' added))
        (m_command-IsValidModal n b c accepted v)

module _ (ops : Arithmetic) where
  open ops use {floats, trunc_byte, mantissa}

  value_word-modal :
      (letter : ℕ) (x : floats.Float) (b : GcodeBlock floats.Float)
      (c : ℕ × GcodeBlock floats.Float)
      → value_word ops letter x b ≡ done c
      → c.1.modal ≡ b.modal
  unfolding value_word
  value_word-modal letter x b c h = ground arith

  add_value-modal :
      (w : ℕ) (x : floats.Float) (b b' : GcodeBlock floats.Float)
      → add_value ops w x b ≡ done b'
      → b'.modal ≡ b.modal
  unfolding add_value
  add_value-modal w x b b' h = ground arith

  read_word-IsValidModal :
      (letter : ℕ) (x : floats.Float) (b b' : GcodeBlock floats.Float)
      → read_word ops letter x b ≡ done b'
      → IsValidModal b.modal
      → IsValidModal b'.modal
  read_word-IsValidModal letter x b b' h v = elim (read_word-cases ops letter x b b' h) [
    | inl (_, accepted) ↦ g_word-IsValidModal (trunc_byte x) _ b b' accepted v
    | inr (inl (_, (_, accepted))) ↦ m_word-IsValidModal (trunc_byte x) _ b b' accepted v
    | inr (inr (_, (_, (c, (stored, added))))) ↦
        subst IsValidModal
          (sym (add_value-modal c.0 x c.1 b' added ∙ value_word-modal letter x b c stored)) v
  ]

  -- The words of a line keep the modes of the block valid.
  pub read_words-IsValidModal :
      (line : Line ops) (b b' : GcodeBlock floats.Float)
      → read_words ops line b ≡ done b'
      → IsValidModal b.modal
      → IsValidModal b'.modal
  unfolding read_words
  read_words-IsValidModal end_of_line b b' h v = subst (λ x. IsValidModal x.modal) (done_inj h) v
  read_words-IsValidModal (broken e) b b' h v = ground arith
  read_words-IsValidModal (word letter x rest) b b' h v =
      let (b1, (first, others)) = bind-done_inv (read_word ops letter x b) _ b' h in
      read_words-IsValidModal rest b1 b' others (read_word-IsValidModal letter x b b1 first v)
