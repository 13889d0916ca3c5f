-- ===== src/Protocol/Reader.antt =====
-- The line reader of protocol_main_loop (protocol.c, lines 71 to 152): one byte of the serial stream
-- at a time. `line` holds the bytes line[0] to line[char_counter - 1].
pub mod Lines
use zephyr_grbl.Prelude.{leb, ◌==◌, if◌then◌else◌, length, ℕ, ◌+◌, ◌-◌, ◌&&◌, List, [], ◌∷◌, ◌++◌}
use zephyr_grbl.Flags.{Byte, zero_byte, bit, ◌bor◌, is_nonzero, bit_istrue, bit_true, bit_false}
use zephyr_grbl.System.{State, alarm, jog, state_in, state_bits}

-- LINE_BUFFER_SIZE
abbrev pub line_buffer_size : ℕ
line_buffer_size = 80

abbrev pub line_flag_overflow : Byte
line_flag_overflow = bit 0

abbrev pub line_flag_comment_parentheses : Byte
line_flag_comment_parentheses = bit 1

abbrev pub line_flag_comment_semicolon : Byte
line_flag_comment_semicolon = bit 2

pub record Reader : Type 0 where
  pub line : List ℕ
  pub line_flags : Byte

abbrev pub empty_reader : Reader
empty_reader = record { line = []; line_flags = zero_byte }

-- c-'a'+'A' for a lowercase letter
abbrev pub upcase : ℕ → ℕ
upcase c = if leb b'a' c && leb c b'z' then c - b'a' + b'A' else c

-- A byte other than the end of the line, outside comments and overflow.
store_char : ℕ → Reader → Reader
store_char c r =
    if leb c b' '
    then r
    else if c == b'/'
    then r
    else if c == b'('
    then record r { line_flags = bit_true r.line_flags line_flag_comment_parentheses }
    else if c == b';'
    then record r { line_flags = bit_true r.line_flags line_flag_comment_semicolon }
    else if leb (line_buffer_size - 1) (length r.line)
    then record r { line_flags = bit_true r.line_flags line_flag_overflow }
    else record r { line = r.line ++ (upcase c ∷ []) }

-- A byte other than '\n' and '\r'.
unfoldable pub read_char : ℕ → Reader → Reader
unfolding store_char
read_char c r =
    if is_nonzero r.line_flags
    then (if (c == b')') && bit_istrue r.line_flags line_flag_comment_parentheses
        then record r { line_flags = bit_false r.line_flags line_flag_comment_parentheses }
        else r)
    else store_char c r

unfoldable pub read_chars : List ℕ → Reader → Reader
read_chars [] r = r
read_chars (c ∷ cs) r = read_chars cs (read_char c r)

-- What the main loop does with a line: report a status at once, or hand it to system_execute_line
-- or gc_execute_line.
pub data Dispatch : Type 0 where
  status_overflow status_ok status_system_gc_lock : Dispatch
  system_line gcode_line : List ℕ → Dispatch

-- line[0]
abbrev pub first_char : List ℕ → ℕ
first_char [] = 0
first_char (c ∷ cs) = c

-- The end of a line: the dispatch, for the value of sys.state, and the reader for the next line.
unfoldable pub end_line : State → Reader → Dispatch × Reader
end_line state r = (
  if bit_istrue r.line_flags line_flag_overflow
      then status_overflow
      else if first_char r.line == 0
      then status_ok
      else if first_char r.line == b'$'
      then system_line r.line
      else if state_in state (state_bits alarm bor state_bits jog)
      then status_system_gc_lock
      else gcode_line r.line,
  empty_reader,
)
