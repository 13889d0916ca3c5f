-- ===== src/Serial/Writing.antt =====
-- serial_write (serial.c, lines 93 to 139): the bytes of the responses go to the UART and, line by
-- line, to the SD card's thread. Zephyr's ring buffers are parameters: whether they take what is put.
use zephyr_grbl.Prelude.{
  ltb, leb, ◌+◌, ◌*◌, ◌/◌, ◌%◌, ◌==◌, if◌then◌else◌, length, ℕ, Bool, true, false, not, ◌&&◌, ◌||◌,
  List, [], ◌∷◌, ◌++◌,
}
use zephyr_grbl.Protocol.Reader.{line_buffer_size}

-- What ring_buf_item_put is given for a line: its length `len` in bytes as the value of the item, the
-- size of the item in words, and the bytes of l2buffer up to `len`. What l2buffer and the memory
-- behind it hold for the rest of the words is not modelled.
pub record Item : Type 0 where
  pub len : ℕ
  pub words : ℕ
  pub bytes : List ℕ

-- Lines 126 and 127.
unfoldable pub item_of : List ℕ → Item
item_of buffer = record {
  len = length buffer;
  words = length buffer / 4 + length buffer % 4;
  bytes = buffer;
}

-- The static variables of serial_write, the bytes in txRingBuf and the items in lineRingBuf, each in
-- the order of writing. `overrun` says that a byte was stored behind the end of l2buffer, `overread`
-- that an item was read beyond its end.
pub record Splitter : Type 0 where
  pub l2buffer : List ℕ
  pub cr : Bool
  pub overrun : Bool
  pub overread : Bool
  pub sent : List ℕ
  pub lines : List Item

abbrev pub empty_splitter : Splitter
empty_splitter = record {
  l2buffer = [];
  cr = false;
  overrun = false;
  overread = false;
  sent = [];
  lines = [];
}

-- Lines 112 to 117: the carriage return, and whether a line ends here.
unfoldable pub see_cr : ℕ → Bool → Bool × Bool
see_cr byte cr =
    if byte == 13 then (true, false) else if cr && byte == 10 then (false, true) else (cr, false)

-- ring_buf_put and ring_buf_item_put: `tx_room` is false if the loop of lines 96 to 102 ended by a
-- reset request, `line_room` says whether an item finds room.
pub record Room : Type 0 where
  pub tx_room : Bool
  pub line_room : Item → Bool

unfoldable pub serial_write : Room → ℕ → Splitter → Splitter
unfolding item_of
serial_write room byte s =
    let (cr, lf) = see_cr byte s.cr in
    let buffer : List ℕ = s.l2buffer ++ (byte ∷ []) in
    let overrun : Bool = s.overrun || leb line_buffer_size (length s.l2buffer) in
    let item : Item = item_of buffer in
    if not room.tx_room
    then s
    else if lf
    then record {
      l2buffer = [];
      cr = false;
      overrun = overrun;
      overread = s.overread || ltb line_buffer_size (4 * item.words);
      sent = s.sent ++ (byte ∷ []);
      lines = if room.line_room item then s.lines ++ (item ∷ []) else s.lines;
    }
    else record s { l2buffer = buffer; cr = cr; overrun = overrun; sent = s.sent ++ (byte ∷ []) }

-- The bytes that the callers print, one after the other.
unfoldable pub serial_write_all : Room → List ℕ → Splitter → Splitter
serial_write_all room [] s = s
serial_write_all room (c ∷ cs) s = serial_write_all room cs (serial_write room c s)
