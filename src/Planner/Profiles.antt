-- ===== src/Planner/Profiles.antt =====
-- The limits that plan_update_velocity_profile_parameters gives the blocks when an override changes,
-- and the ring operations that change the plan without planning anew.
use mathlib.Core.Path.{subst}
use zephyr_grbl.Planner.Settled.{SettledFrom}
use zephyr_grbl.Planner.Optimal.{first_entry, SettledFrom-tail}
use zephyr_grbl.Prelude.{if◌then◌else◌, if_split, ℕ, zero, suc, ◌-◌, List, [], ◌∷◌, arith}
use zephyr_grbl.Planner.Speeds.{
  Speeds, PlanBlock, Plan, speed_before_minimum, nominal_speed, profile_parameters, update_profiles,
  plan_update_velocity_profile_parameters,
}
use zephyr_grbl.Planner.Feasible.{
  IsLawful, ◌≼◌, le_refl, Brakes, IsRunning, Allows, Runs-of_Allows, entries,
}
use zephyr_grbl.Planner.Line.{discard_planned}
use zephyr_grbl.Planner.Moves.{IsSound, NotNegative, zeros}

module _ {S : Type 0} ⦃o : Speeds S⦄ where
  -- No block may be entered faster than its junction allows, than its own nominal speed, or than the
  -- nominal speed of the block before it; `prev` is the latter for the first block.
  abbrev pub Limited : ℕ → ℕ → S → List (PlanBlock S) → Type 0
  Limited r f prev [] = Unit {0}
  Limited r f prev (b ∷ bs) =
      (b.max_entry_speed_sqr ≼ b.max_junction_speed_sqr)
      × (b.max_entry_speed_sqr ≼ o.multiply (nominal_speed r f b) (nominal_speed r f b))
      × (b.max_entry_speed_sqr ≼ o.multiply prev prev)
      × Limited r f (nominal_speed r f b) bs

  module _ (l : IsLawful o)
      (square_monotone : (a b : S) → o.nothing ≼ a → a ≼ b → o.multiply a a ≼ o.multiply b b)
      (positive_rate : o.nothing ≼ o.minimum_feed_rate) where
    nominal_nonneg : (r f : ℕ) (b : PlanBlock S) → o.nothing ≼ nominal_speed r f b
    unfolding nominal_speed
    nominal_nonneg r f b =
        if_split (λ x. o.nothing ≼ x) (o.less o.minimum_feed_rate (speed_before_minimum r f b))
          (λ e.
            l.le_trans o.nothing o.minimum_feed_rate (speed_before_minimum r f b) positive_rate
              (l.asymmetric o.minimum_feed_rate (speed_before_minimum r f b) e))
          (λ e. positive_rate)

    profile_limited :
        (speed prev : S) (b : PlanBlock S)
        → o.nothing ≼ speed
        → o.nothing ≼ prev
        → ((profile_parameters speed prev b).max_entry_speed_sqr ≼ b.max_junction_speed_sqr)
          × ((profile_parameters speed prev b).max_entry_speed_sqr ≼ o.multiply speed speed)
          × ((profile_parameters speed prev b).max_entry_speed_sqr ≼ o.multiply prev prev)
    unfolding profile_parameters
    profile_limited speed prev b h g =
        if_split {y = slower} Bounded (o.less b.max_junction_speed_sqr slower)
          (λ e.
            let e' = l.asymmetric b.max_junction_speed_sqr slower e in
            (
              le_refl l b.max_junction_speed_sqr,
              l.le_trans b.max_junction_speed_sqr slower (o.multiply speed speed) e' below.0,
              l.le_trans b.max_junction_speed_sqr slower (o.multiply prev prev) e' below.1,
            ))
          (λ e. (e, below.0, below.1))
      where
        slower : S
        slower = if o.less prev speed then o.multiply prev prev else o.multiply speed speed

        Bounded : S → Type 0
        Bounded x =
            (x ≼ b.max_junction_speed_sqr)
            × (x ≼ o.multiply speed speed)
            × (x ≼ o.multiply prev prev)

        below : (slower ≼ o.multiply speed speed) × (slower ≼ o.multiply prev prev)
        below =
            if_split (λ x. (x ≼ o.multiply speed speed) × (x ≼ o.multiply prev prev))
              (o.less prev speed)
              (λ e. (
                square_monotone prev speed g (l.asymmetric prev speed e),
                le_refl l (o.multiply prev prev),
              ))
              (λ e. (le_refl l (o.multiply speed speed), square_monotone speed prev h e))

    update_profiles-Limited :
        (r f : ℕ) (prev : S) (bs : List (PlanBlock S))
        → o.nothing ≼ prev
        → Limited r f prev (update_profiles r f prev bs).0
    unfolding update_profiles profile_parameters nominal_speed speed_before_minimum
    update_profiles-Limited r f prev [] h = tt
    update_profiles-Limited r f prev (b ∷ bs) h =
        let speed : S = nominal_speed r f b in
        let bound = profile_limited speed prev b (nominal_nonneg r f b) h in
        (bound.0, bound.1, bound.2, update_profiles-Limited r f speed bs (nominal_nonneg r f b))

    -- If squares are monotone and the minimum feed rate and the initial previous speed are not
    -- negative: after plan_update_velocity_profile_parameters no block may be entered faster than its
    -- junction allows, than its own nominal speed at the new overrides, or than that of the block
    -- before it.
    pub plan_update_velocity_profile_parameters-Limited :
        (r f : ℕ) (p : Plan S)
        → o.nothing ≼ o.some_large_value
        → Limited r f o.some_large_value (plan_update_velocity_profile_parameters r f p).blocks
    unfolding plan_update_velocity_profile_parameters
    plan_update_velocity_profile_parameters-Limited r f p h =
        update_profiles-Limited r f o.some_large_value p.blocks h

-- Discarding the completed block keeps the plan sound, and the planned pointer at its block.
pub discard_planned-IsSound :
    {S : Type 0} ⦃o : Speeds S⦄
    → IsLawful o
    → (p : Plan S) → IsSound p
    → IsSound (discard_planned p)
unfolding discard_planned
discard_planned-IsSound {S} ⦃o = o⦄ l p s =
    later p.blocks p.planned s.brakes s.running s.at_rest s.moving s.settled
  where
    later :
        (bs : List (PlanBlock S)) (k : ℕ)
        → Brakes bs
        → IsRunning bs
        → Allows bs (zeros bs)
        → NotNegative (entries bs)
        → SettledFrom (first_entry bs) k bs
        → IsSound (record p { blocks = elim bs [ [] ↦ [] | b ∷ bs ↦ bs ]; planned = k - 1 })
    later [] zero d f r m t = record {
      brakes = d;
      running = f;
      at_rest = r;
      moving = m;
      settled = tt;
    }
    later [] (suc k) d f r m t = absurd t
    later (b ∷ []) zero d f r m t = record {
      brakes = tt;
      running = tt;
      at_rest = tt;
      moving = tt;
      settled = tt;
    }
    later (b ∷ []) (suc k) d f r m t = absurd t
    later (b ∷ c ∷ bs) zero d f r m t = record {
      brakes = d.1;
      running = Runs-of_Allows (c ∷ bs) (entries (c ∷ bs)) f.2;
      at_rest = r.3;
      moving = m.1;
      settled = le_refl l c.entry_speed_sqr;
    }
    later (b ∷ c ∷ bs) (suc k) d f r m t = record {
      brakes = d.1;
      running = Runs-of_Allows (c ∷ bs) (entries (c ∷ bs)) f.2;
      at_rest = r.3;
      moving = m.1;
      settled =
          subst (λ j. SettledFrom c.entry_speed_sqr j (c ∷ bs)) (omega arith)
            (SettledFrom-tail l k b c bs f t);
    }
