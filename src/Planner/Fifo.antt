-- ===== src/Planner/Fifo.antt =====
-- The planner's ring against its contract: a FIFO of at most 15 blocks. mc_line plans a block only
-- once plan_check_full_buffer says that there is room; the stepper reads the block at the tail and
-- discards it when it is done.
use mathlib.Core.List.{head?, tail}
use native.Mathlib.Decide.{ℕ_discrete}
use zephyr_grbl.Prelude.{
  ℕ, zero, suc, ◌+◌, ◌-◌, ◌%◌, ◌<◌, ◌≡◌, ◌≢◌, refl, sym, ap, ap₂, true, false, Option, some, List,
  [], ◌∷◌, ◌++◌, arith, if◌then◌else◌, ltb, length, get_or, set, Bool-cases, lt→ltb, inl, inr,
  length-set, get_elem?-eq-get_or, get_or-set_self, get_or-set_ne,
}
use zephyr_grbl.Planner.Ring.{
  Indices, Buffer, block_buffer_size, plan_check_full_buffer, plan_discard_current_block,
  commit_block, plan_get_current_block, store_block, discard_block,
}
use zephyr_grbl.Planner.Valid.{
  IsValid, distance, plan_discard_current_block-IsValid, commit_block-IsValid,
}

-- What the callers of the ring do: mc_line stores a block if there is room, the stepper discards the
-- block that it has completed.
pub data Request {ℓ} (B : Type ℓ) : Type ℓ where
  store : B → Request B
  discard : Request B

pub record IsSound {ℓ} {B : Type ℓ} (b : Buffer B) : Type 0 where
  pub valid : IsValid b.indices
  pub sized : length b.blocks ≡ block_buffer_size

module _ {ℓ} {B : Type ℓ} where
  -- The state after a request, and the block that plan_get_current_block then returns.
  unfoldable pub serve : Buffer B → Request B → Buffer B
  serve b (store x) = if plan_check_full_buffer b.indices then b else store_block x b
  serve b discard = discard_block b

  unfoldable pub observe : Buffer B → List (Request B) → List (Option B)
  unfolding serve
  observe b [] = []
  observe b (q ∷ qs) = plan_get_current_block (serve b q) ∷ observe (serve b q) qs

  -- The contract, over the list of blocks from the oldest on.
  abbrev pub fifo_serve : List B → Request B → List B
  fifo_serve xs (store x) = if ltb (length xs) (block_buffer_size - 1) then xs ++ x ∷ [] else xs
  fifo_serve xs discard = tail xs

  unfoldable pub fifo_observe : List B → List (Request B) → List (Option B)
  fifo_observe xs [] = []
  fifo_observe xs (q ∷ qs) = head? (fifo_serve xs q) ∷ fifo_observe (fifo_serve xs q) qs

module _ {ℓ} {B : Type ℓ} (d : B) where
  -- the `n` blocks from slot `h` on, going round
  abbrev pub window : List B → ℕ → ℕ → List B
  window xs h zero = []
  window xs h (suc n) = get_or xs h d ∷ window xs ((h + 1) % block_buffer_size) n

  abbrev pub contents : Buffer B → List B
  contents b = window b.blocks b.indices.tail (distance b.indices.tail b.indices.head)

  length-window : (xs : List B) (h n : ℕ) → length (window xs h n) ≡ n
  length-window xs h zero = refl
  length-window xs h (suc n) = ap suc (length-window xs ((h + 1) % block_buffer_size) n)

  window-set :
      (xs : List B) (x : B) (n h i : ℕ)
      → length xs ≡ block_buffer_size
      → h < block_buffer_size
      → n < block_buffer_size
      → i ≡ (h + n) % block_buffer_size
      → window (set xs i x) h (suc n) ≡ window xs h n ++ x ∷ []
  window-set xs x zero h i hs hh hn e =
      let e' : i ≡ h = omega arith in
      rw e' (ap (λ y. y ∷ []) (get_or-set_self xs h x d (omega arith)))
  window-set xs x (suc n) h i hs hh hn e = ap₂ ◌∷◌ (get_or-set_ne xs x d (omega arith)) (
      window-set xs x n ((h + 1) % block_buffer_size) i hs (omega arith) (omega arith)
        (omega arith))

  distance-commit :
      {r : Indices}
      → IsValid r
      → plan_check_full_buffer r ≡ false
      → (distance r.tail (commit_block r).head ≡ suc (distance r.tail r.head))
        × (r.head ≡ (r.tail + distance r.tail r.head) % block_buffer_size)
        × (distance r.tail r.head < block_buffer_size - 1)
  unfolding commit_block plan_check_full_buffer
  distance-commit v room = ground arith

  distance-full :
      {r : Indices}
      → IsValid r
      → plan_check_full_buffer r ≡ true
      → distance r.tail r.head ≡ block_buffer_size - 1
  unfolding plan_check_full_buffer
  distance-full v full = ground arith

  distance-discard :
      {r : Indices}
      → IsValid r
      → r.head ≢ r.tail
      → (distance r.tail r.head ≡ suc (distance (plan_discard_current_block r).tail r.head))
        × ((plan_discard_current_block r).tail ≡ (r.tail + 1) % block_buffer_size)
        × ((plan_discard_current_block r).head ≡ r.head)
  unfolding plan_discard_current_block
  distance-discard v h = ground arith

  -- A stored block goes to the end of the contents.
  contents-store :
      (b : Buffer B) (x : B)
      → IsSound b
      → plan_check_full_buffer b.indices ≡ false
      → contents (store_block x b) ≡ contents b ++ x ∷ []
  unfolding store_block commit_block
  contents-store b x v room =
      let (e, at_head, small) = distance-commit v.valid room in
      rw e (
        window-set b.blocks x (distance b.indices.tail b.indices.head) b.indices.tail b.indices.head
          v.sized v.valid.tail_in (omega arith) at_head)

  -- `window` matches on `suc`; the indices are compared as numbers.
  window_of_suc :
      (xs : List B) (h h' n m : ℕ)
      → n ≡ suc m
      → h' ≡ (h + 1) % block_buffer_size
      → (tail (window xs h n) ≡ window xs h' m) × (head? (window xs h n) ≡ some (get_or xs h d))
  window_of_suc xs h h' n m e e' = rw (e, e') (refl, refl)

  window_of_zero : (xs : List B) (h n : ℕ) → n ≡ 0 → window xs h n ≡ []
  window_of_zero xs h n e = rw e

  plan_discard_current_block-empty :
      (r : Indices) → r.head ≡ r.tail → plan_discard_current_block r ≡ r
  unfolding plan_discard_current_block
  plan_discard_current_block-empty r e = ground arith

  contents-discard : (b : Buffer B) → IsSound b → contents (discard_block b) ≡ tail (contents b)
  unfolding discard_block
  contents-discard b v = elim (ℕ_discrete b.indices.head b.indices.tail) [
    | yes e ↦ rw (plan_discard_current_block-empty b.indices e) (
        ground
          (arith, window_of_zero b.blocks b.indices.tail (distance b.indices.tail b.indices.head)))
    | no ne ↦
        let (e, e', e'') = distance-discard v.valid ne in
        rw e'' (sym (window_of_suc b.blocks b.indices.tail _ _ _ e e').0)
  ]

  head?-contents : (b : Buffer B) → IsSound b → plan_get_current_block b ≡ head? (contents b)
  unfolding plan_get_current_block
  head?-contents b v = elim (ℕ_discrete b.indices.head b.indices.tail) [
    | yes e ↦
        ground
          (arith, window_of_zero b.blocks b.indices.tail (distance b.indices.tail b.indices.head))
    | no ne ↦
        let (e, e', _) = distance-discard v.valid ne in
        ground (
          arith,
          window_of_suc b.blocks b.indices.tail _ _ _ e e',
          get_elem?-eq-get_or b.blocks b.indices.tail d,
        )
  ]

  serve-IsSound : (b : Buffer B) (q : Request B) → IsSound b → IsSound (serve b q)
  unfolding serve store_block discard_block
  serve-IsSound b (store x) v =
      ground (arith, commit_block-IsValid v.valid, length-set b.blocks b.indices.head x)
  serve-IsSound b discard v = record {
    valid = plan_discard_current_block-IsValid v.valid;
    sized = v.sized;
  }

  contents-serve :
      (b : Buffer B) (q : Request B) → IsSound b → contents (serve b q) ≡ fifo_serve (contents b) q
  unfolding serve
  contents-serve b (store x) v = elim (Bool-cases (plan_check_full_buffer b.indices)) [
    | inl full ↦
        rw (full, length-window b.blocks b.indices.tail (distance b.indices.tail b.indices.head))
          (ground (arith, distance-full v.valid full))
    | inr room ↦
        rw
          (
            room,
            length-window b.blocks b.indices.tail (distance b.indices.tail b.indices.head),
            lt→ltb _ _ (distance-commit v.valid room).2,
          )
          (contents-store b x v room)
  ]
  contents-serve b discard v = contents-discard b v

  -- Whatever is stored and discarded, in any order, the block that the stepper sees is the oldest
  -- one of a FIFO of 15 blocks that refuses a block when it is full.
  pub observe_refines :
      (b : Buffer B) (qs : List (Request B))
      → IsSound b
      → observe b qs ≡ fifo_observe (contents b) qs
  unfolding observe fifo_observe
  observe_refines b [] v = refl
  observe_refines b (q ∷ qs) v =
      rw (← contents-serve b q v, ← head?-contents _ (serve-IsSound b q v))
        (ap (λ os. plan_get_current_block (serve b q) ∷ os)
          (observe_refines (serve b q) qs (serve-IsSound b q v)))
