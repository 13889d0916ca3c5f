-- ===== src/Planner/Valid.antt =====
-- The invariant of the planner's indices, and what the counting functions return under it.
use zephyr_grbl.Prelude.{ℕ, ◌+◌, ◌-◌, ◌%◌, ◌≤◌, ◌<◌, ◌≡◌, ◌↔◌, true, false, arith}
use zephyr_grbl.Planner.Ring.{
  Indices, block_buffer_size, plan_next_block_index, plan_prev_block_index, plan_reset_buffer,
  plan_discard_current_block, commit_block, has_current_block, plan_check_full_buffer,
  plan_get_block_buffer_available, plan_get_block_buffer_count,
}

-- The number of steps forward from slot `a` to slot `b`.
abbrev pub distance : ℕ → ℕ → ℕ
distance a b = (b + block_buffer_size - a) % block_buffer_size

-- The indices are slots, `next_head` follows `head`, and the planned pointer is not behind the
-- tail nor past the head.
pub record IsValid (r : Indices) : Type 0 where
  pub tail_in : r.tail < block_buffer_size
  pub head_in : r.head < block_buffer_size
  pub next_follows : r.next_head ≡ (r.head + 1) % block_buffer_size
  pub planned_in : r.planned < block_buffer_size
  pub planned_between : distance r.tail r.planned ≤ distance r.tail r.head

pub plan_next_block_index_lem :
    (i : ℕ) → i < block_buffer_size → plan_next_block_index i ≡ (i + 1) % block_buffer_size
unfolding plan_next_block_index
plan_next_block_index_lem i h = ground arith

-- The two index functions are inverse to each other on the slots, and stay in the ring.
pub next-prev :
    (i : ℕ)
    → i < block_buffer_size
    → (plan_next_block_index (plan_prev_block_index i) ≡ i)
      × (plan_prev_block_index (plan_next_block_index i) ≡ i)
      × (plan_next_block_index i < block_buffer_size)
      × (plan_prev_block_index i < block_buffer_size)
unfolding plan_next_block_index plan_prev_block_index
next-prev i h = ground arith

-- The reset ring is valid.
pub plan_reset_buffer-IsValid : IsValid plan_reset_buffer
unfolding plan_reset_buffer
plan_reset_buffer-IsValid = omega arith

-- Discarding the current block, or trying to in an empty ring, keeps the ring valid: the planned
-- pointer never falls behind the tail.
pub plan_discard_current_block-IsValid :
    {r : Indices} → IsValid r → IsValid (plan_discard_current_block r)
unfolding plan_discard_current_block
plan_discard_current_block-IsValid v = ground arith

-- Adding a block keeps the ring valid if the ring is not full.
pub commit_block-IsValid :
    {r : Indices} → IsValid r → plan_check_full_buffer r ≡ false → IsValid (commit_block r)
unfolding commit_block plan_check_full_buffer
commit_block-IsValid v h = ground arith

-- The block count is the distance from the tail to the head.
pub count_lem : {r : Indices} → IsValid r → plan_get_block_buffer_count r ≡ distance r.tail r.head
unfolding plan_get_block_buffer_count
count_lem v = ground arith

-- On a valid ring the count and the free slots add up to 15, the full check is true exactly when no
-- slot is free, and there is a current block exactly when the count is not 0.
pub count-add-available :
    {r : Indices}
    → IsValid r
    → (plan_get_block_buffer_count r + plan_get_block_buffer_available r ≡ block_buffer_size - 1)
      × ((plan_check_full_buffer r ≡ true) ↔ (plan_get_block_buffer_available r ≡ 0))
      × ((has_current_block r ≡ false) ↔ (plan_get_block_buffer_count r ≡ 0))
unfolding plan_get_block_buffer_count plan_get_block_buffer_available plan_check_full_buffer
    has_current_block
count-add-available v =
    (ground arith, (λ h. ground arith, λ h. ground arith), (λ h. ground arith, λ h. ground arith))
