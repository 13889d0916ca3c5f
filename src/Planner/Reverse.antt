-- ===== src/Planner/Reverse.antt =====
-- The reverse pass of planner_recalculate: what it leaves, and that no possible entry speeds are
-- above it.
use zephyr_grbl.Prelude.{List, [], ◌∷◌}
use zephyr_grbl.Planner.Speeds.{Speeds, PlanBlock, stopping, plan_last, plan_behind, reverse_pass}
use zephyr_grbl.Planner.Feasible.{
  IsLawful, ◌≼◌, Allows, entries, IsFeasible, Brakes, AtMost, Accelerates, Reaches, Stops,
  plan_back_cases, le_refl, min-le-left, min-le-right, le-min,
}

module _ {S : Type 0} ⦃o : Speeds S⦄ (l : IsLawful o) where
  -- Braking to a next block that is entered at `w` or faster.
  pub brake-le-brake : (v w z d : S) → v ≼ o.add w d → w ≼ z → v ≼ o.add z d
  brake-le-brake v w z d h g = l.le_trans v (o.add w d) (o.add z d) h (l.add_monotone w z d g)

  behind-AtMost :
      (b : PlanBlock S) (v w : S) (vs : List S) (rs : List (PlanBlock S))
      → v ≼ b.max_entry_speed_sqr
      → v ≼ o.add w (stopping b)
      → AtMost (w ∷ vs) rs
      → AtMost (v ∷ w ∷ vs) (plan_behind b rs)
  unfolding plan_behind
  behind-AtMost b v w vs [] limit brake h = absurd h
  behind-AtMost b v w vs (r ∷ rs) limit brake h = (
    plan_back_cases (λ x. v ≼ x.entry_speed_sqr) b r
        (λ e.
          l.le_trans v b.max_entry_speed_sqr b.entry_speed_sqr limit
            (l.ge_of_equal b.entry_speed_sqr b.max_entry_speed_sqr e))
        (λ e. brake-le-brake v w r.entry_speed_sqr (stopping b) brake h.0) (λ e. limit),
    h,
  )

  -- No possible entry speeds are above those of the reverse pass.
  pub reverse_pass-AtMost :
      (bs : List (PlanBlock S)) (vs : List S) → Allows bs vs → AtMost vs (reverse_pass bs)
  unfolding reverse_pass plan_behind plan_last
  reverse_pass-AtMost [] [] h = tt
  reverse_pass-AtMost (b ∷ []) (v ∷ []) h =
      (le-min l v b.max_entry_speed_sqr (stopping b) h.0 h.1, tt)
  reverse_pass-AtMost (b ∷ c ∷ bs) (v ∷ w ∷ vs) h =
      behind-AtMost b v w vs (reverse_pass (c ∷ bs)) h.0 h.1
        (reverse_pass-AtMost (c ∷ bs) (w ∷ vs) h.3)
  reverse_pass-AtMost [] (v ∷ vs) h = absurd h
  reverse_pass-AtMost (b ∷ []) [] h = absurd h
  reverse_pass-AtMost (b ∷ c ∷ bs) [] h = absurd h
  reverse_pass-AtMost (b ∷ []) (v ∷ w ∷ vs) h = absurd h
  reverse_pass-AtMost (b ∷ c ∷ bs) (v ∷ []) h = absurd h

  -- A block that can brake to speeds below `rs` can brake to `rs`.
  pub cons-Stops :
      (b : PlanBlock S) (w : S) (ws : List S) (rs : List (PlanBlock S))
      → b.entry_speed_sqr ≼ b.max_entry_speed_sqr
      → b.entry_speed_sqr ≼ o.add w (stopping b)
      → AtMost (w ∷ ws) rs
      → Stops rs
      → Stops (b ∷ rs)
  cons-Stops b w ws [] limit brake h st = absurd h
  cons-Stops b w ws (r ∷ rs) limit brake h st =
      (limit, brake-le-brake b.entry_speed_sqr w r.entry_speed_sqr (stopping b) brake h.0, st)

  behind-Stops :
      (b : PlanBlock S) (w : S) (ws : List S) (rs : List (PlanBlock S))
      → b.entry_speed_sqr ≼ b.max_entry_speed_sqr
      → b.entry_speed_sqr ≼ o.add w (stopping b)
      → AtMost (w ∷ ws) rs
      → Stops rs
      → Stops (plan_behind b rs)
  unfolding plan_behind
  behind-Stops b w ws [] limit brake h st = absurd h
  behind-Stops b w ws (r ∷ rs) limit brake h st =
      plan_back_cases (λ x. Stops (x ∷ r ∷ rs)) b r
        (λ e. cons-Stops b w ws (r ∷ rs) limit brake h st)
        (λ e. (
          l.asymmetric (o.add r.entry_speed_sqr (stopping b)) b.max_entry_speed_sqr e,
          le_refl l (o.add r.entry_speed_sqr (stopping b)),
          st,
        ))
        (λ e. (le_refl l b.max_entry_speed_sqr, e, st))

  -- After the reverse pass over a feasible plan every block can brake to the next.
  pub reverse_pass-Stops : (bs : List (PlanBlock S)) → IsFeasible bs → Stops (reverse_pass bs)
  unfolding reverse_pass plan_behind plan_last
  reverse_pass-Stops [] h = tt
  reverse_pass-Stops (b ∷ []) h = (
    min-le-left l b.max_entry_speed_sqr (stopping b),
    min-le-right l b.max_entry_speed_sqr (stopping b),
  )
  reverse_pass-Stops (b ∷ c ∷ bs) h =
      behind-Stops b c.entry_speed_sqr (entries bs) (reverse_pass (c ∷ bs)) h.0 h.1
        (reverse_pass-AtMost (c ∷ bs) (entries (c ∷ bs)) h.3) (reverse_pass-Stops (c ∷ bs) h.3)

  -- The reverse pass changes no stopping distance,
  behind-Brakes :
      (b : PlanBlock S) (rs : List (PlanBlock S))
      → o.nothing ≼ stopping b
      → Brakes rs
      → Brakes (plan_behind b rs)
  unfolding plan_behind plan_last
  behind-Brakes b [] d h = (d, tt)
  behind-Brakes b (r ∷ rs) d h =
      plan_back_cases (λ x. Brakes (x ∷ r ∷ rs)) b r (λ e. (d, h)) (λ e. (d, h)) (λ e. (d, h))

  pub reverse_pass-Brakes : (bs : List (PlanBlock S)) → Brakes bs → Brakes (reverse_pass bs)
  unfolding reverse_pass
  reverse_pass-Brakes [] h = tt
  reverse_pass-Brakes (b ∷ bs) h =
      behind-Brakes b (reverse_pass bs) h.0 (reverse_pass-Brakes bs h.1)

  pub cons-Reaches :
      (b : PlanBlock S) (rs : List (PlanBlock S)) (v w : S) (vs : List S)
      → w ≼ o.add v (stopping b)
      → Reaches rs (w ∷ vs)
      → Reaches (b ∷ rs) (v ∷ w ∷ vs)
  cons-Reaches b [] v w vs a h = absurd h
  cons-Reaches b (r ∷ rs) v w vs a h = (a, h)

  behind-Reaches :
      (b : PlanBlock S) (rs : List (PlanBlock S)) (v w : S) (vs : List S)
      → w ≼ o.add v (stopping b)
      → Reaches rs (w ∷ vs)
      → Reaches (plan_behind b rs) (v ∷ w ∷ vs)
  unfolding plan_behind
  behind-Reaches b [] v w vs a h = absurd h
  behind-Reaches b (r ∷ rs) v w vs a h =
      plan_back_cases (λ x. Accelerates x (r ∷ rs) v (w ∷ vs)) b r (λ e. (a, h)) (λ e. (a, h))
        (λ e. (a, h))

  -- nor does it change what a block can accelerate to.
  pub reverse_pass-Reaches :
      (bs : List (PlanBlock S)) (vs : List S) → Allows bs vs → Reaches (reverse_pass bs) vs
  unfolding reverse_pass plan_behind plan_last
  reverse_pass-Reaches [] [] h = tt
  reverse_pass-Reaches (b ∷ []) (v ∷ []) h = tt
  reverse_pass-Reaches (b ∷ c ∷ bs) (v ∷ w ∷ vs) h =
      behind-Reaches b (reverse_pass (c ∷ bs)) v w vs h.2
        (reverse_pass-Reaches (c ∷ bs) (w ∷ vs) h.3)
  reverse_pass-Reaches [] (v ∷ vs) h = absurd h
  reverse_pass-Reaches (b ∷ []) [] h = absurd h
  reverse_pass-Reaches (b ∷ c ∷ bs) [] h = absurd h
  reverse_pass-Reaches (b ∷ []) (v ∷ w ∷ vs) h = absurd h
  reverse_pass-Reaches (b ∷ c ∷ bs) (v ∷ []) h = absurd h
