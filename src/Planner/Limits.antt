-- ===== src/Planner/Limits.antt =====
-- planner_recalculate sets entry speeds and nothing else, so that what holds of the blocks' limits
-- and lengths stays.
use mathlib.Core.Path.{subst}
use zephyr_grbl.Prelude.{
  if◌then◌else◌, if_split, ℕ, zero, suc, ◌+◌, ◌≡◌, refl, sym, ap, ap₂, ◌∙◌, List, [], ◌∷◌, map,
}
use zephyr_grbl.Planner.Speeds.{
  Speeds, PlanBlock, Prep, Plan, at_tail, with_entry, update_tail, plan_last, plan_behind,
  reverse_pass, falls_short, plan_ahead, planned_ahead, forward_pass, plan_passes, plan_from,
  notifies, planner_recalculate, update_first,
}
use zephyr_grbl.Planner.Feasible.{Allows, Runs, Brakes, plan_back_cases}
use zephyr_grbl.Planner.Fastest.{notified}

module _ {S : Type 0} ⦃o : Speeds S⦄ where
  -- A block without its entry speed.
  abbrev pub limits : PlanBlock S → PlanBlock S
  limits b = with_entry o.nothing b

  behind-limits :
      (b : PlanBlock S) (rs : List (PlanBlock S))
      → map limits (plan_behind b rs) ≡ limits b ∷ map limits rs
  unfolding plan_behind plan_last
  behind-limits b [] = refl
  behind-limits b (r ∷ rs) =
      plan_back_cases (λ x. map limits (x ∷ r ∷ rs) ≡ limits b ∷ map limits (r ∷ rs)) b r
        (λ e. refl) (λ e. refl) (λ e. refl)

  reverse_pass-limits : (bs : List (PlanBlock S)) → map limits (reverse_pass bs) ≡ map limits bs
  unfolding reverse_pass
  reverse_pass-limits [] = refl
  reverse_pass-limits (b ∷ bs) =
      behind-limits b (reverse_pass bs) ∙ ap (λ x. limits b ∷ x) (reverse_pass-limits bs)

  plan_ahead-limits : (b c : PlanBlock S) → limits (plan_ahead b c) ≡ limits c
  unfolding plan_ahead
  plan_ahead-limits b c =
      if_split (λ x. limits x ≡ limits c) (falls_short b c) (λ e. refl) (λ e. refl)

  forward_pass-limits :
      (i p : ℕ) (b : PlanBlock S) (bs : List (PlanBlock S))
      → map limits (forward_pass i p b bs).0 ≡ limits b ∷ map limits bs
  unfolding forward_pass
  forward_pass-limits i p b [] = refl
  forward_pass-limits i p b (c ∷ bs) =
      ap (λ x. limits b ∷ x)
        (forward_pass-limits (i + 1) (planned_ahead i p b c) (plan_ahead b c) bs
          ∙ ap (λ x. x ∷ map limits bs) (plan_ahead-limits b c))

  update_tail-limits : (prep : Prep S) (b : PlanBlock S) → limits (update_tail prep b) ≡ limits b
  unfolding update_tail
  update_tail-limits prep b =
      if_split (λ x. limits x ≡ limits b) prep.loaded (λ e. refl) (λ e. refl)

  plan_from-limits :
      (prep : Prep S) (n k : ℕ) (bs : List (PlanBlock S))
      → map limits (plan_from prep n k bs).0 ≡ map limits bs
  unfolding plan_from plan_passes
  plan_from-limits prep n zero [] = refl
  plan_from-limits prep n zero (b ∷ []) = refl
  plan_from-limits prep n zero (b ∷ c ∷ bs) =
      let b' : PlanBlock S = if at_tail n then update_tail prep b else b in
      forward_pass-limits (n + 1) n b' (reverse_pass (c ∷ bs))
      ∙ ap₂ (λ x y. x ∷ y)
          (if_split (λ x. limits x ≡ limits b) (at_tail n) (λ e. update_tail-limits prep b)
            (λ e. refl))
          (reverse_pass-limits (c ∷ bs))
  plan_from-limits prep n (suc k) [] = refl
  plan_from-limits prep n (suc k) (b ∷ bs) = ap (λ x. limits b ∷ x) (plan_from-limits prep n k bs)

  -- planner_recalculate changes no block but for its entry speed.
  pub planner_recalculate-limits :
      (p : Plan S) → map limits (planner_recalculate p).blocks ≡ map limits p.blocks
  unfolding planner_recalculate
  planner_recalculate-limits p = plan_from-limits p.prep p.planned p.planned p.blocks

  pub update_first-limits :
      (prep : Prep S) (bs : List (PlanBlock S)) → map limits (update_first prep bs) ≡ map limits bs
  unfolding update_first
  update_first-limits prep [] = refl
  update_first-limits prep (b ∷ bs) = ap (λ x. x ∷ map limits bs) (update_tail-limits prep b)

  pub notified-limits :
      (prep : Prep S) (n : ℕ) (bs : List (PlanBlock S))
      → map limits (notified prep n bs) ≡ map limits bs
  notified-limits prep n bs =
      if_split (λ x. map limits x ≡ map limits bs) (notifies n bs)
        (λ e. update_first-limits prep bs) (λ e. refl)

  Brakes-limits : (bs : List (PlanBlock S)) → Brakes bs → Brakes (map limits bs)
  Brakes-limits [] h = h
  Brakes-limits (b ∷ bs) h = (h.0, Brakes-limits bs h.1)

  limits-Brakes : (bs : List (PlanBlock S)) → Brakes (map limits bs) → Brakes bs
  limits-Brakes [] h = h
  limits-Brakes (b ∷ bs) h = (h.0, limits-Brakes bs h.1)

  Allows-limits : (bs : List (PlanBlock S)) (vs : List S) → Allows bs vs → Allows (map limits bs) vs
  Allows-limits [] [] h = h
  Allows-limits [] (v ∷ vs) h = absurd h
  Allows-limits (b ∷ []) [] h = absurd h
  Allows-limits (b ∷ []) (v ∷ []) h = h
  Allows-limits (b ∷ []) (v ∷ w ∷ vs) h = absurd h
  Allows-limits (b ∷ c ∷ bs) [] h = absurd h
  Allows-limits (b ∷ c ∷ bs) (v ∷ []) h = absurd h
  Allows-limits (b ∷ c ∷ bs) (v ∷ w ∷ vs) h = (h.0, h.1, h.2, Allows-limits (c ∷ bs) (w ∷ vs) h.3)

  limits-Allows : (bs : List (PlanBlock S)) (vs : List S) → Allows (map limits bs) vs → Allows bs vs
  limits-Allows [] [] h = h
  limits-Allows [] (v ∷ vs) h = absurd h
  limits-Allows (b ∷ []) [] h = absurd h
  limits-Allows (b ∷ []) (v ∷ []) h = h
  limits-Allows (b ∷ []) (v ∷ w ∷ vs) h = absurd h
  limits-Allows (b ∷ c ∷ bs) [] h = absurd h
  limits-Allows (b ∷ c ∷ bs) (v ∷ []) h = absurd h
  limits-Allows (b ∷ c ∷ bs) (v ∷ w ∷ vs) h = (h.0, h.1, h.2, limits-Allows (c ∷ bs) (w ∷ vs) h.3)

  -- Blocks with the same limits brake alike and allow the same speeds.
  pub Brakes-of_limits :
      (bs cs : List (PlanBlock S)) → map limits cs ≡ map limits bs → Brakes bs → Brakes cs
  Brakes-of_limits bs cs e h = limits-Brakes cs (subst Brakes (sym e) (Brakes-limits bs h))

  pub Allows-of_limits :
      (bs cs : List (PlanBlock S)) (vs : List S)
      → map limits cs ≡ map limits bs
      → Allows bs vs
      → Allows cs vs
  Allows-of_limits bs cs vs e h =
      limits-Allows cs vs (subst (λ x. Allows x vs) (sym e) (Allows-limits bs vs h))

  Runs-limits : (bs : List (PlanBlock S)) (vs : List S) → Runs bs vs → Runs (map limits bs) vs
  Runs-limits [] [] h = h
  Runs-limits [] (v ∷ vs) h = absurd h
  Runs-limits (b ∷ []) [] h = absurd h
  Runs-limits (b ∷ []) (v ∷ []) h = h
  Runs-limits (b ∷ []) (v ∷ w ∷ vs) h = absurd h
  Runs-limits (b ∷ c ∷ bs) [] h = absurd h
  Runs-limits (b ∷ c ∷ bs) (v ∷ []) h = absurd h
  Runs-limits (b ∷ c ∷ bs) (v ∷ w ∷ vs) h = (h.0, h.1, Allows-limits (c ∷ bs) (w ∷ vs) h.2)

  limits-Runs : (bs : List (PlanBlock S)) (vs : List S) → Runs (map limits bs) vs → Runs bs vs
  limits-Runs [] [] h = h
  limits-Runs [] (v ∷ vs) h = absurd h
  limits-Runs (b ∷ []) [] h = absurd h
  limits-Runs (b ∷ []) (v ∷ []) h = h
  limits-Runs (b ∷ []) (v ∷ w ∷ vs) h = absurd h
  limits-Runs (b ∷ c ∷ bs) [] h = absurd h
  limits-Runs (b ∷ c ∷ bs) (v ∷ []) h = absurd h
  limits-Runs (b ∷ c ∷ bs) (v ∷ w ∷ vs) h = (h.0, h.1, limits-Allows (c ∷ bs) (w ∷ vs) h.2)

  pub Runs-of_limits :
      (bs cs : List (PlanBlock S)) (vs : List S)
      → map limits cs ≡ map limits bs
      → Runs bs vs
      → Runs cs vs
  Runs-of_limits bs cs vs e h =
      limits-Runs cs vs (subst (λ x. Runs x vs) (sym e) (Runs-limits bs vs h))
