-- ===== src/Planner/Forward.antt =====
-- The forward pass of planner_recalculate: what it makes of the blocks that the reverse pass leaves,
-- and that no speeds which the blocks can accelerate to are above it.
use zephyr_grbl.Prelude.{if_split, ℕ, ◌+◌, ◌≡◌, true, false, List, [], ◌∷◌, arith}
use zephyr_grbl.Planner.Speeds.{
  Speeds, PlanBlock, stopping, with_entry, falls_short, plan_ahead, planned_ahead, forward_pass,
}
use zephyr_grbl.Planner.Feasible.{
  IsLawful, ◌≼◌, IsFeasible, IsRunning, Brakes, AtMost, Accelerates, Stops, le_refl,
  falls_short-false,
}
use zephyr_grbl.Planner.Reverse.{brake-le-brake}

module _ {S : Type 0} ⦃o : Speeds S⦄ (l : IsLawful o) where
  pub plan_ahead_cases :
      (P : PlanBlock S → Type 0) (b c : PlanBlock S)
      → (falls_short b c ≡ true → P (with_entry (o.add b.entry_speed_sqr (stopping b)) c))
      → (falls_short b c ≡ false → P c)
      → P (plan_ahead b c)
  unfolding plan_ahead
  plan_ahead_cases P b c short reached = if_split P (falls_short b c) short reached

  pub falls_short-true :
      (b c : PlanBlock S)
      → falls_short b c ≡ true
      → o.add b.entry_speed_sqr (stopping b) ≼ c.entry_speed_sqr
  unfolding falls_short
  falls_short-true b c =
      if_split (λ t. t ≡ true → o.add b.entry_speed_sqr (stopping b) ≼ c.entry_speed_sqr)
        (o.less b.entry_speed_sqr c.entry_speed_sqr)
        (λ e f. l.asymmetric (o.add b.entry_speed_sqr (stopping b)) c.entry_speed_sqr f)
        (λ e f. absurd (ground arith))

  -- The forward pass only lowers entry speeds, so that braking stays possible,
  ahead-Stops :
      (b c : PlanBlock S) (bs : List (PlanBlock S)) → Stops (c ∷ bs) → Stops (plan_ahead b c ∷ bs)
  ahead-Stops b c [] h =
      plan_ahead_cases (λ x. Stops (x ∷ [])) b c
        (λ e.
          let e' = falls_short-true b c e in
          (l.le_trans _ c.entry_speed_sqr _ e' h.0, l.le_trans _ c.entry_speed_sqr _ e' h.1))
        (λ e. h)
  ahead-Stops b c (d ∷ bs) h =
      plan_ahead_cases (λ x. Stops (x ∷ d ∷ bs)) b c
        (λ e.
          let e' = falls_short-true b c e in
          (l.le_trans _ c.entry_speed_sqr _ e' h.0, l.le_trans _ c.entry_speed_sqr _ e' h.1, h.2))
        (λ e. h)

  -- and `b` can brake and accelerate to the next block.
  ahead-reaches :
      (b c : PlanBlock S)
      → o.nothing ≼ stopping b
      → b.entry_speed_sqr ≼ o.add c.entry_speed_sqr (stopping b)
      → (b.entry_speed_sqr ≼ o.add (plan_ahead b c).entry_speed_sqr (stopping b))
        × ((plan_ahead b c).entry_speed_sqr ≼ o.add b.entry_speed_sqr (stopping b))
  ahead-reaches b c d brake =
      plan_ahead_cases
        (λ x.
          (b.entry_speed_sqr ≼ o.add x.entry_speed_sqr (stopping b))
          × (x.entry_speed_sqr ≼ o.add b.entry_speed_sqr (stopping b)))
        b c
        (λ e. (
          l.le_trans b.entry_speed_sqr (o.add b.entry_speed_sqr (stopping b))
              (o.add (o.add b.entry_speed_sqr (stopping b)) (stopping b))
              (l.le_add b.entry_speed_sqr (stopping b) d)
              (l.le_add (o.add b.entry_speed_sqr (stopping b)) (stopping b) d),
          le_refl l (o.add b.entry_speed_sqr (stopping b)),
        ))
        (λ e. (brake, falls_short-false l b c d e))

  -- Speeds that `b` can accelerate to stay below the forward pass.
  ahead-bound :
      (b c : PlanBlock S) (v w : S)
      → v ≼ b.entry_speed_sqr
      → w ≼ c.entry_speed_sqr
      → w ≼ o.add v (stopping b)
      → w ≼ (plan_ahead b c).entry_speed_sqr
  ahead-bound b c v w low high accelerate =
      plan_ahead_cases (λ x. w ≼ x.entry_speed_sqr) b c
        (λ e. brake-le-brake l w v b.entry_speed_sqr (stopping b) accelerate low) (λ e. high)

  pub ahead-Brakes :
      (b c : PlanBlock S) → o.nothing ≼ stopping c → o.nothing ≼ stopping (plan_ahead b c)
  ahead-Brakes b c h = plan_ahead_cases (λ x. o.nothing ≼ stopping x) b c (λ e. h) (λ e. h)

  -- Only a block's stopping distance says what it can accelerate to.
  with_entry-Accelerates :
      (x : S) (c : PlanBlock S) (bs : List (PlanBlock S)) (w : S) (vs : List S)
      → Accelerates c bs w vs
      → Accelerates (with_entry x c) bs w vs
  with_entry-Accelerates x c [] w vs h = h
  with_entry-Accelerates x c (d ∷ bs) w [] h = h
  with_entry-Accelerates x c (d ∷ bs) w (z ∷ vs) h = h

  ahead-Accelerates :
      (b c : PlanBlock S) (bs : List (PlanBlock S)) (w : S) (vs : List S)
      → Accelerates c bs w vs
      → Accelerates (plan_ahead b c) bs w vs
  ahead-Accelerates b c bs w vs h =
      plan_ahead_cases (λ x. Accelerates x bs w vs) b c (λ e. with_entry-Accelerates _ c bs w vs h)
        (λ e. h)

  -- The forward pass makes a feasible plan of what the reverse pass leaves.
  pub forward_pass-IsFeasible :
      (i p : ℕ) (b : PlanBlock S) (bs : List (PlanBlock S))
      → Brakes (b ∷ bs)
      → Stops (b ∷ bs)
      → IsFeasible (forward_pass i p b bs).0
  unfolding forward_pass
  forward_pass-IsFeasible i p b [] d h = h
  forward_pass-IsFeasible i p b (c ∷ []) d h =
      let reach = ahead-reaches b c d.0 h.1 in (h.0, reach.0, reach.1, ahead-Stops b c [] h.2)
  forward_pass-IsFeasible i p b (c ∷ e ∷ bs) d h =
      let reach = ahead-reaches b c d.0 h.1 in
      (
        h.0,
        reach.0,
        reach.1,
        forward_pass-IsFeasible (i + 1) (planned_ahead i p b c) (plan_ahead b c) (e ∷ bs)
            (ahead-Brakes b c d.1.0, d.1.1) (ahead-Stops b c (e ∷ bs) h.2),
      )

  -- The same from a block under way, which need not keep its limit.
  pub forward_pass-IsRunning :
      (i p : ℕ) (b : PlanBlock S) (w : S) (ws : List S) (rs : List (PlanBlock S))
      → o.nothing ≼ stopping b
      → b.entry_speed_sqr ≼ o.add w (stopping b)
      → AtMost (w ∷ ws) rs
      → Brakes rs
      → Stops rs
      → IsRunning (forward_pass i p b rs).0
  unfolding forward_pass
  forward_pass-IsRunning i p b w ws [] d brake low ds h = absurd low
  forward_pass-IsRunning i p b w ws (c ∷ []) d brake low ds h =
      let reach =
        ahead-reaches b c d
          (brake-le-brake l b.entry_speed_sqr w c.entry_speed_sqr (stopping b) brake low.0) in
      (reach.0, reach.1, ahead-Stops b c [] h)
  forward_pass-IsRunning i p b w ws (c ∷ e ∷ rs) d brake low ds h =
      let reach =
        ahead-reaches b c d
          (brake-le-brake l b.entry_speed_sqr w c.entry_speed_sqr (stopping b) brake low.0) in
      (
        reach.0,
        reach.1,
        forward_pass-IsFeasible (i + 1) (planned_ahead i p b c) (plan_ahead b c) (e ∷ rs)
            (ahead-Brakes b c ds.0, ds.1) (ahead-Stops b c (e ∷ rs) h),
      )

  -- Speeds that the blocks can accelerate to, and that are not above the reverse pass, are not
  -- above the forward pass.
  pub forward_pass-AtMost :
      (i p : ℕ) (b : PlanBlock S) (bs : List (PlanBlock S)) (v : S) (vs : List S)
      → Accelerates b bs v vs
      → AtMost (v ∷ vs) (b ∷ bs)
      → AtMost (v ∷ vs) (forward_pass i p b bs).0
  unfolding forward_pass
  forward_pass-AtMost i p b [] v [] a h = h
  forward_pass-AtMost i p b [] v (w ∷ vs) a h = h
  forward_pass-AtMost i p b (c ∷ bs) v [] a h = absurd h.1
  forward_pass-AtMost i p b (c ∷ bs) v (w ∷ vs) a h = (
    h.0,
    forward_pass-AtMost (i + 1) (planned_ahead i p b c) (plan_ahead b c) bs w vs
        (ahead-Accelerates b c bs w vs a.1) (ahead-bound b c v w h.0 h.1.0 a.0, h.1.1),
  )
