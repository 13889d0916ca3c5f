-- ===== src/Planner/Fastest.antt =====
-- What planner_recalculate achieves: the plan stays feasible, and is the fastest that does not exceed
-- the entry speeds up to the planned block.
use zephyr_grbl.Prelude.{if◌then◌else◌, if_split, ℕ, zero, suc, ◌+◌, ◌≡◌, refl, sym, List, [], ◌∷◌}
use mathlib.Core.Path.{subst}
use zephyr_grbl.Planner.Speeds.{
  Speeds, PlanBlock, Prep, Plan, stopping, update_tail, reverse_pass, plan_ahead, planned_ahead,
  forward_pass, plan_passes, plan_from, notifies, planner_recalculate, update_first,
}
use zephyr_grbl.Planner.Feasible.{
  IsLawful, ◌≼◌, Runs, entries, IsFeasible, IsRunning, Brakes, AtMost, Runs-of_Allows,
}
use zephyr_grbl.Planner.Reverse.{
  reverse_pass-AtMost, cons-Stops, reverse_pass-Stops, reverse_pass-Brakes, cons-Reaches,
  reverse_pass-Reaches,
}
use zephyr_grbl.Planner.Forward.{
  forward_pass-IsFeasible, forward_pass-IsRunning, forward_pass-AtMost,
}

module _ {S : Type 0} ⦃o : Speeds S⦄ where
  -- The blocks that the passes start from: with the speed that the stepper has reached at the tail,
  -- when it is told.
  abbrev pub notified : Prep S → ℕ → List (PlanBlock S) → List (PlanBlock S)
  notified prep planned bs = if notifies planned bs then update_first prep bs else bs

  -- The speeds `vs` are not above the entry speeds of the first `k + 1` blocks.
  abbrev pub AtMostUpTo : ℕ → List S → List (PlanBlock S) → Type 0
  AtMostUpTo zero (v ∷ vs) (b ∷ bs) = v ≼ b.entry_speed_sqr
  AtMostUpTo (suc k) (v ∷ vs) (b ∷ bs) = (v ≼ b.entry_speed_sqr) × AtMostUpTo k vs bs
  AtMostUpTo k vs bs = Unit {0}

  pub update_tail-stopping :
      (prep : Prep S) (b : PlanBlock S)
      → o.nothing ≼ stopping b
      → o.nothing ≼ stopping (update_tail prep b)
  unfolding update_tail
  update_tail-stopping prep b h =
      if_split (λ x. o.nothing ≼ stopping x) prep.loaded (λ e. h) (λ e. h)

  -- The forward pass starts with the block that it is given.
  pub forward_pass-first :
      (i p : ℕ) (b : PlanBlock S) (bs : List (PlanBlock S))
      → (rest : List (PlanBlock S)) × ((forward_pass i p b bs).0 ≡ b ∷ rest)
  unfolding forward_pass
  forward_pass-first i p b [] = ([], refl)
  forward_pass-first i p b (c ∷ bs) =
      ((forward_pass (i + 1) (planned_ahead i p b c) (plan_ahead b c) bs).0, refl)

  -- Unless the planned block is the tail, the first block stays.
  pub plan_from-first :
      (prep : Prep S) (n k : ℕ) (b : PlanBlock S) (bs : List (PlanBlock S))
      → (rest : List (PlanBlock S)) × ((plan_from prep (suc n) k (b ∷ bs)).0 ≡ b ∷ rest)
  unfolding plan_from plan_passes
  plan_from-first prep n zero b [] = ([], refl)
  plan_from-first prep n zero b (c ∷ bs) =
      forward_pass-first (suc n + 1) (suc n) b (reverse_pass (c ∷ bs))
  plan_from-first prep n (suc k) b bs = ((plan_from prep (suc n) k bs).0, refl)

  module _ (l : IsLawful o) where
    passes-IsFeasible :
        (i p : ℕ) (b c : PlanBlock S) (bs : List (PlanBlock S))
        → Brakes (b ∷ c ∷ bs)
        → IsFeasible (b ∷ c ∷ bs)
        → IsFeasible (forward_pass i p b (reverse_pass (c ∷ bs))).0
    passes-IsFeasible i p b c bs d h =
        forward_pass-IsFeasible l i p b (reverse_pass (c ∷ bs))
          (d.0, reverse_pass-Brakes l (c ∷ bs) d.1)
          (cons-Stops l b c.entry_speed_sqr (entries bs) (reverse_pass (c ∷ bs)) h.0 h.1
            (reverse_pass-AtMost l (c ∷ bs) (entries (c ∷ bs)) h.3)
            (reverse_pass-Stops l (c ∷ bs) h.3))

    passes-IsRunning :
        (i p : ℕ) (b c : PlanBlock S) (bs : List (PlanBlock S))
        → Brakes (b ∷ c ∷ bs)
        → IsRunning (b ∷ c ∷ bs)
        → IsRunning (forward_pass i p b (reverse_pass (c ∷ bs))).0
    passes-IsRunning i p b c bs d h =
        forward_pass-IsRunning l i p b c.entry_speed_sqr (entries bs) (reverse_pass (c ∷ bs)) d.0
          h.0 (reverse_pass-AtMost l (c ∷ bs) (entries (c ∷ bs)) h.2)
          (reverse_pass-Brakes l (c ∷ bs) d.1) (reverse_pass-Stops l (c ∷ bs) h.2)

    passes-AtMost :
        (i p : ℕ) (b c : PlanBlock S) (bs : List (PlanBlock S)) (v w : S) (vs : List S)
        → Runs (b ∷ c ∷ bs) (v ∷ w ∷ vs)
        → v ≼ b.entry_speed_sqr
        → AtMost (v ∷ w ∷ vs) (forward_pass i p b (reverse_pass (c ∷ bs))).0
    passes-AtMost i p b c bs v w vs h low =
        forward_pass-AtMost l i p b (reverse_pass (c ∷ bs)) v (w ∷ vs)
          (cons-Reaches l b (reverse_pass (c ∷ bs)) v w vs h.1
            (reverse_pass-Reaches l (c ∷ bs) (w ∷ vs) h.2))
          (low, reverse_pass-AtMost l (c ∷ bs) (w ∷ vs) h.2)

    plan_from-IsFeasible :
        (prep : Prep S) (n k : ℕ) (bs : List (PlanBlock S))
        → Brakes bs
        → IsFeasible bs
        → IsFeasible (plan_from prep (suc n) k bs).0
    unfolding plan_from plan_passes
    plan_from-IsFeasible prep n zero [] d h = h
    plan_from-IsFeasible prep n zero (b ∷ []) d h = h
    plan_from-IsFeasible prep n zero (b ∷ c ∷ bs) d h =
        passes-IsFeasible (suc n + 1) (suc n) b c bs d h
    plan_from-IsFeasible prep n (suc k) [] d h = h
    plan_from-IsFeasible prep n (suc zero) (b ∷ []) d h = h
    plan_from-IsFeasible prep n (suc (suc k)) (b ∷ []) d h = h
    plan_from-IsFeasible prep n (suc k) (b ∷ c ∷ bs) d h =
        let (rest, e) = plan_from-first prep n k c bs in
        subst (λ x. IsFeasible (b ∷ x)) (sym e)
          (h.0, h.1, h.2, subst IsFeasible e (plan_from-IsFeasible prep n k (c ∷ bs) d.1 h.3))

    plan_from-AtMost :
        (prep : Prep S) (n k : ℕ) (bs : List (PlanBlock S)) (vs : List S)
        → Runs bs vs
        → AtMostUpTo k vs bs
        → AtMost vs (plan_from prep (suc n) k bs).0
    unfolding plan_from plan_passes
    plan_from-AtMost prep n zero [] [] h low = tt
    plan_from-AtMost prep n zero (b ∷ []) (v ∷ []) h low = (low, tt)
    plan_from-AtMost prep n zero (b ∷ c ∷ bs) (v ∷ w ∷ vs) h low =
        passes-AtMost (suc n + 1) (suc n) b c bs v w vs h low
    plan_from-AtMost prep n (suc k) [] [] h low = tt
    plan_from-AtMost prep n (suc zero) (b ∷ []) (v ∷ []) h low = (low.0, tt)
    plan_from-AtMost prep n (suc (suc k)) (b ∷ []) (v ∷ []) h low = (low.0, tt)
    plan_from-AtMost prep n (suc k) (b ∷ c ∷ bs) (v ∷ w ∷ vs) h low = (
      low.0,
      plan_from-AtMost prep n k (c ∷ bs) (w ∷ vs) (Runs-of_Allows (c ∷ bs) (w ∷ vs) h.2) low.1,
    )
    plan_from-AtMost prep n k [] (v ∷ vs) h low = absurd h
    plan_from-AtMost prep n k (b ∷ []) [] h low = absurd h
    plan_from-AtMost prep n k (b ∷ c ∷ bs) [] h low = absurd h
    plan_from-AtMost prep n k (b ∷ []) (v ∷ w ∷ vs) h low = absurd h
    plan_from-AtMost prep n k (b ∷ c ∷ bs) (v ∷ []) h low = absurd h

    -- planner_recalculate
    recalculated-IsRunning :
        (prep : Prep S) (planned : ℕ) (bs : List (PlanBlock S))
        → Brakes bs
        → IsRunning (notified prep planned bs)
        → IsRunning (plan_from prep planned planned bs).0
    unfolding plan_from plan_passes notifies update_first
    recalculated-IsRunning prep zero [] d h = h
    recalculated-IsRunning prep zero (b ∷ []) d h = h
    recalculated-IsRunning prep zero (b ∷ c ∷ bs) d h =
        passes-IsRunning 1 0 (update_tail prep b) c bs (update_tail-stopping prep b d.0, d.1) h
    recalculated-IsRunning prep (suc n) [] d h = h
    recalculated-IsRunning prep (suc zero) (b ∷ []) d h = h
    recalculated-IsRunning prep (suc (suc n)) (b ∷ []) d h = h
    recalculated-IsRunning prep (suc n) (b ∷ c ∷ bs) d h =
        let (rest, e) = plan_from-first prep n n c bs in
        subst (λ x. IsRunning (b ∷ x)) (sym e)
          (h.0, h.1, subst IsFeasible e (plan_from-IsFeasible prep n n (c ∷ bs) d.1 h.2))

    recalculated-AtMost :
        (prep : Prep S) (planned : ℕ) (bs : List (PlanBlock S)) (vs : List S)
        → Runs (notified prep planned bs) vs
        → AtMostUpTo planned vs (notified prep planned bs)
        → AtMost vs (plan_from prep planned planned bs).0
    unfolding plan_from plan_passes notifies update_first
    recalculated-AtMost prep zero [] [] h low = tt
    recalculated-AtMost prep zero (b ∷ []) (v ∷ []) h low = (low, tt)
    recalculated-AtMost prep zero (b ∷ c ∷ bs) (v ∷ w ∷ vs) h low =
        passes-AtMost 1 0 (update_tail prep b) c bs v w vs h low
    recalculated-AtMost prep (suc n) [] vs h low = plan_from-AtMost prep n (suc n) [] vs h low
    recalculated-AtMost prep (suc n) (b ∷ []) vs h low =
        plan_from-AtMost prep n (suc n) (b ∷ []) vs h low
    recalculated-AtMost prep (suc n) (b ∷ c ∷ bs) vs h low =
        plan_from-AtMost prep n (suc n) (b ∷ c ∷ bs) vs h low
    recalculated-AtMost prep zero [] (v ∷ vs) h low = absurd h
    recalculated-AtMost prep zero (b ∷ []) [] h low = absurd h
    recalculated-AtMost prep zero (b ∷ []) (v ∷ w ∷ vs) h low = absurd h
    recalculated-AtMost prep zero (b ∷ c ∷ bs) [] h low = absurd h
    recalculated-AtMost prep zero (b ∷ c ∷ bs) (v ∷ []) h low = absurd h

    -- With no negative stopping distance, and a plan that is possible with the speed that the
    -- stepper has reached at the tail, planner_recalculate leaves a possible plan: each block after
    -- the first keeps its maximum entry speed, each can brake and accelerate to the entry speed of
    -- the next, and the last can stop.
    pub planner_recalculate-IsRunning :
        (p : Plan S)
        → Brakes p.blocks
        → IsRunning (notified p.prep p.planned p.blocks)
        → IsRunning (planner_recalculate p).blocks
    unfolding planner_recalculate
    planner_recalculate-IsRunning p d h = recalculated-IsRunning p.prep p.planned p.blocks d h

    -- The plan of planner_recalculate is the fastest: no entry speeds that are possible for the
    -- blocks, and not above the plan's up to the planned block, are above the new plan's at any
    -- block.
    pub planner_recalculate-fastest :
        (p : Plan S) (vs : List S)
        → Runs (notified p.prep p.planned p.blocks) vs
        → AtMostUpTo p.planned vs (notified p.prep p.planned p.blocks)
        → AtMost vs (planner_recalculate p).blocks
    unfolding planner_recalculate
    planner_recalculate-fastest p vs h low = recalculated-AtMost p.prep p.planned p.blocks vs h low
