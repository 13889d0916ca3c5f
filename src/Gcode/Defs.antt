-- ===== src/Gcode/Defs.antt =====
-- The parser's data (gcode.h): the modes, the words of a block, the parser state, and the statuses
-- that the parser returns. Values are floats, a parameter of the model.
use zephyr_grbl.Prelude.{◌==◌, if◌then◌else◌, ℕ, Bool, true, false}
use zephyr_grbl.Flags.{Byte}
use zephyr_grbl.Number.{FloatOps}
use zephyr_grbl.Gcode.Bits.{Bits}

-- The float operations of the parser, each with the conversions that C does around it.
pub record Arithmetic : Type 1 where
  pub floats : FloatOps
  pub add : floats.Float → floats.Float → floats.Float
  pub subtract : floats.Float → floats.Float → floats.Float
  pub multiply : floats.Float → floats.Float → floats.Float
  pub divide : floats.Float → floats.Float → floats.Float
  pub sqrt : floats.Float → floats.Float
  pub fabs : floats.Float → floats.Float
  -- a < b
  pub less : floats.Float → floats.Float → Bool
  -- a == b
  pub equal : floats.Float → floats.Float → Bool
  -- the bytes of a and b are the same
  pub identical : floats.Float → floats.Float → Bool
  -- (uint8_t) trunc(value)
  pub trunc_byte : floats.Float → ℕ
  -- (int32_t) trunc(value), for a value that is not negative
  pub trunc_int : floats.Float → ℕ
  -- (uint16_t) round(100*(value - int_value))
  pub mantissa : floats.Float → ℕ → ℕ
  -- value > MAX_TOOL_NUMBER
  pub above_max_tool : floats.Float → Bool
  -- 0.0, MM_PER_INCH, 4.0, 0.5, 0.005 and 0.001
  pub zero_value : floats.Float
  pub mm_per_inch : floats.Float
  pub four : floats.Float
  pub half : floats.Float
  pub five_thousandths : floats.Float
  pub thousandth : floats.Float

-- An array over the axes.
pub record Vec (F : Type 0) : Type 0 where
  pub x : F
  pub y : F
  pub z : F

abbrev pub at : {F : Type 0} → Vec F → ℕ → F
at v idx = if idx == 0 then v.x else if idx == 1 then v.y else v.z

abbrev pub put : {F : Type 0} → Vec F → ℕ → F → Vec F
put v idx a =
    if idx == 0
    then record v { x = a }
    else if idx == 1
    then record v { y = a }
    else record v { z = a }

-- for (idx=0; idx<N_AXIS; idx++) over one array: `f` is the new entry of an axis.
abbrev pub each : {F : Type 0} → (ℕ → F) → Vec F
each f = record { x = f 0; y = f 1; z = f 2 }

-- gc_modal_t
pub record Modal : Type 0 where
  pub motion : ℕ
  pub feed_rate : ℕ
  pub units : ℕ
  pub distance : ℕ
  pub plane_select : ℕ
  pub tool_length : ℕ
  pub coord_select : ℕ
  pub program_flow : ℕ
  pub coolant : Byte
  pub spindle : Byte

-- gc_values_t
pub record Values (F : Type 0) : Type 0 where
  pub f : F
  pub ijk : Vec F
  pub l : ℕ
  pub n : ℕ
  pub p : F
  pub r : F
  pub s : F
  pub t : ℕ
  pub xyz : Vec F

-- parser_state_t
pub record Parser (F : Type 0) : Type 0 where
  pub modal : Modal
  pub spindle_speed : F
  pub feed_rate : F
  pub tool : ℕ
  pub line_number : ℕ
  pub position : Vec F
  pub coord_system : Vec F
  pub coord_offset : Vec F
  pub tool_length_offset : F

-- parser_block_t, and the tracking variables of gc_execute_line.
pub record GcodeBlock (F : Type 0) : Type 0 where
  pub non_modal_command : ℕ
  pub modal : Modal
  pub values : Values F
  pub axis_command : ℕ
  pub axis_words : Byte
  pub ijk_words : Byte
  pub command_words : Bits
  pub value_words : Bits

-- The statuses that the parser returns.
pub data GcodeStatus : Type 0 where
  expected_command_letter bad_number_format negative_value setting_read_fail : GcodeStatus
  travel_exceeded invalid_jog_command unsupported_command modal_group_violation : GcodeStatus
  undefined_feed_rate command_value_not_integer axis_command_conflict word_repeated : GcodeStatus
  no_axis_words invalid_line_number value_word_missing unsupported_coord_sys : GcodeStatus
  g53_invalid_motion_mode axis_words_exist no_axis_words_in_plane invalid_target : GcodeStatus
  arc_radius_error no_offsets_in_plane unused_words g43_dynamic_axis_error : GcodeStatus
  max_value_exceeded : GcodeStatus

-- FAIL(status), or the value with which the code goes on.
pub data Result {ℓ} (A : Type ℓ) : Type ℓ where
  done : A → Result A
  fail : GcodeStatus → Result A

infixl 5 ◌>>=◌ ◌>>◌
abbrev pub ◌>>=◌ {ℓ κ} : {A : Type ℓ} {B : Type κ} → Result A → (A → Result B) → Result B
done a >>= f = f a
fail e >>= f = fail e

abbrev pub ◌>>◌ {ℓ} : {B : Type ℓ} → Result (Unit {0}) → Result B → Result B
m >> k = m >>= λ _. k

-- if (!test) { FAIL(status); }
abbrev pub require : Bool → GcodeStatus → Result (Unit {0})
require true e = done tt
require false e = fail e

-- AXIS_COMMAND_NONE to AXIS_COMMAND_TOOL_LENGTH_OFFSET
abbrev pub axis_command_none : ℕ
axis_command_none = 0

abbrev pub axis_command_non_modal : ℕ
axis_command_non_modal = 1

abbrev pub axis_command_motion_mode : ℕ
axis_command_motion_mode = 2

abbrev pub axis_command_tool_length_offset : ℕ
axis_command_tool_length_offset = 3
