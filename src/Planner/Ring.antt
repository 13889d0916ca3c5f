-- ===== src/Planner/Ring.antt =====
-- The block ring buffer of planner.c: the four static indices and the block array. Indices are
-- uint8_t, so an increment or decrement is taken modulo 256. A block is any type `B`: the ring
-- only stores and hands out blocks.
use zephyr_grbl.Prelude.{
  ℕ, ◌+◌, ◌-◌, ◌%◌, Bool, true, false, Option, none, List, leb, ◌==◌, if◌then◌else◌, get_elem?, set,
}

-- BLOCK_BUFFER_SIZE (USE_LINE_NUMBERS is not defined)
abbrev pub block_buffer_size : ℕ
block_buffer_size = 16

pub record Indices : Type 0 where
  pub tail : ℕ
  pub head : ℕ
  pub next_head : ℕ
  pub planned : ℕ

unfoldable pub plan_next_block_index : ℕ → ℕ
plan_next_block_index i = let i' : ℕ = (i + 1) % 256 in if i' == block_buffer_size then 0 else i'

unfoldable pub plan_prev_block_index : ℕ → ℕ
plan_prev_block_index i =
    let i' : ℕ = if i == 0 then block_buffer_size else i in (i' + 256 - 1) % 256

unfoldable pub plan_reset_buffer : Indices
plan_reset_buffer = record { tail = 0; head = 0; next_head = 1; planned = 0 }

unfoldable pub plan_discard_current_block : Indices → Indices
unfolding plan_next_block_index
plan_discard_current_block r = if r.head == r.tail then r else record r {
  tail = plan_next_block_index r.tail;
  planned = if r.tail == r.planned then plan_next_block_index r.tail else r.planned;
}

-- The update of the head indices at the end of plan_buffer_line, for a block of normal motion.
unfoldable pub commit_block : Indices → Indices
unfolding plan_next_block_index
commit_block r = record r { head = r.next_head; next_head = plan_next_block_index r.next_head }

-- plan_get_current_block() != NULL
unfoldable pub has_current_block : Indices → Bool
has_current_block r = if r.head == r.tail then false else true

unfoldable pub plan_check_full_buffer : Indices → Bool
plan_check_full_buffer r = if r.tail == r.next_head then true else false

-- The differences are taken in int and cut to uint8_t by the return type.
unfoldable pub plan_get_block_buffer_available : Indices → ℕ
plan_get_block_buffer_available r =
    if leb r.tail r.head
    then (block_buffer_size - 1 + 256 - (r.head - r.tail)) % 256
    else (r.tail + 256 - r.head - 1) % 256

unfoldable pub plan_get_block_buffer_count : Indices → ℕ
plan_get_block_buffer_count r =
    if leb r.tail r.head
    then (r.head - r.tail) % 256
    else (block_buffer_size + 256 - (r.tail - r.head)) % 256

-- block_buffer, with its indices
pub record Buffer {ℓ} (B : Type ℓ) : Type ℓ where
  pub blocks : List B
  pub indices : Indices

module _ {ℓ} {B : Type ℓ} where
  -- plan_get_current_block: the block at the tail, or NULL. (`none` also for an index outside the
  -- array, which the invariant excludes.)
  unfoldable pub plan_get_current_block : Buffer B → Option B
  plan_get_current_block b =
      if b.indices.head == b.indices.tail then none else get_elem? b.blocks b.indices.tail

  -- What plan_buffer_line does to the ring for a block of normal motion: fill the head slot, then
  -- move the head indices.
  unfoldable pub store_block : B → Buffer B → Buffer B
  store_block x b = record {
    blocks = set b.blocks b.indices.head x;
    indices = commit_block b.indices;
  }

  unfoldable pub discard_block : Buffer B → Buffer B
  discard_block b = record b { indices = plan_discard_current_block b.indices }
