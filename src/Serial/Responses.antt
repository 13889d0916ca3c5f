-- ===== src/Serial/Responses.antt =====
-- The lines that serial_write hands to the SD card's thread (serial.c, lines 93 to 139).
use zephyr_grbl.Prelude.{◌==◌, length, All, ℕ, ◌+◌, ◌≤◌, ◌≡◌, false, List, [], ◌∷◌, ◌++◌}
use zephyr_grbl.Protocol.Reader.{line_buffer_size}
use zephyr_grbl.Serial.Writing.{Item, item_of, Splitter}

abbrev pub crlf : List ℕ
crlf = 13 ∷ 10 ∷ []

-- A line without a carriage return that fits in l2buffer with its end, and whose item is of no more
-- words than the SD card's thread reads.
pub record IsResponse (line : List ℕ) : Type 0 where
  pub plain_lem : All (λ c. c == 13 ≡ false) line
  pub short_lem : length line + 2 ≤ line_buffer_size
  pub words_lem : (item_of (line ++ crlf)).words ≤ 20

-- The text of some lines, each with its end.
unfoldable pub text_of : List (List ℕ) → List ℕ
text_of [] = []
text_of (line ∷ lines) = (line ++ crlf) ++ text_of lines

-- serial_write within a line: no carriage return is pending, and no byte was stored out of bounds.
abbrev within : List ℕ → List ℕ → List Item → Splitter
within buffer sent lines = record {
  l2buffer = buffer;
  cr = false;
  overrun = false;
  overread = false;
  sent = sent;
  lines = lines;
}
