-- ===== src/Planner/Reinitialize.antt =====
-- plan_cycle_reinitialize: planning from a complete stop, with a block under way.
use zephyr_grbl.Prelude.{List, [], ◌∷◌}
use zephyr_grbl.Planner.Speeds.{Speeds, PlanBlock, stopping}
use zephyr_grbl.Planner.Feasible.{◌≼◌}

module _ {S : Type 0} ⦃o : Speeds S⦄ where
  -- The square `v` of a speed in the block and the entry speed behind it are within reach of each
  -- other over the rest of the block.
  abbrev pub IsReachable : S → PlanBlock S → List (PlanBlock S) → Type 0
  IsReachable v b [] = v ≼ stopping b
  IsReachable v b (c ∷ bs) =
      (v ≼ o.add c.entry_speed_sqr (stopping b)) × (c.entry_speed_sqr ≼ o.add v (stopping b))
