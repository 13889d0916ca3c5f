-- ===== src/Tests/PlannerTests.antt =====
-- The planner's ring at concrete inputs.
use zephyr_grbl.Prelude.{ℕ, ◌≡◌, refl, none, some, [], ◌∷◌, arith}
use zephyr_grbl.Planner.{Buffer}
use zephyr_grbl.Planner.Valid.{IsValid}
use zephyr_grbl.Planner.Fifo.{store, discard, observe, observe_refines, fifo_observe}
use zephyr_grbl.Tests.Machines.{one_block}

one_block-IsValid : IsValid one_block
one_block-IsValid = omega arith

abbrev numbers : Buffer ℕ
numbers = record {
  blocks = 7 ∷ 0 ∷ 0 ∷ 0 ∷ 0 ∷ 0 ∷ 0 ∷ 0 ∷ 0 ∷ 0 ∷ 0 ∷ 0 ∷ 0 ∷ 0 ∷ 0 ∷ 0 ∷ [];
  indices = one_block;
}

observe_refines_example :
    observe numbers (store 8 ∷ discard ∷ discard ∷ []) ≡ some 7 ∷ some 8 ∷ none ∷ []
unfolding fifo_observe
observe_refines_example =
    observe_refines 0 numbers (store 8 ∷ discard ∷ discard ∷ [])
      (record { valid = one_block-IsValid; sized = refl })
