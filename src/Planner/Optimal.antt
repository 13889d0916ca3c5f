-- ===== src/Planner/Optimal.antt =====
-- The planned pointer of planner_recalculate is sound: planning from it gives the fastest of all
-- possible plans, not only of those that agree with the plan up to it.
use mathlib.Core.Path.{subst}
use zephyr_grbl.Prelude.{
  ℕ, zero, suc, ◌+◌, ◌≡◌, refl, sym, ap, ◌∙◌, inl, inr, List, [], ◌∷◌, ◌++◌, arith,
}
use zephyr_grbl.Planner.Speeds.{
  Speeds, PlanBlock, Prep, Plan, stopping, update_tail, reverse_pass, forward_pass, plan_passes,
  plan_from, notifies, planner_recalculate, update_first,
}
use zephyr_grbl.Planner.Feasible.{
  IsLawful, ◌≼◌, Runs, entries, IsRunning, Brakes, AtMost, Allows-limit, min-le-left, min-le-right,
  le-min,
}
use zephyr_grbl.Planner.Reverse.{reverse_pass-Brakes}
use zephyr_grbl.Planner.Fastest.{
  notified, update_tail-stopping, forward_pass-first, plan_from-first,
}
use zephyr_grbl.Planner.Limits.{planner_recalculate-limits, notified-limits, Runs-of_limits}
use zephyr_grbl.Planner.Settled.{
  ceiling, Tight, SettledFrom, Advances, Tight-AtMost, reverse_pass-Loaded, Pressed-at,
  Pressed-below, forward_pass-Advances,
}

module _ {S : Type 0} ⦃o : Speeds S⦄ where
  abbrev pub first_entry : List (PlanBlock S) → S
  first_entry [] = o.nothing
  first_entry (b ∷ bs) = b.entry_speed_sqr

  -- Tight blocks, settled up to the planned pointer, which is at the offset `d` or later.
  IsPlanned : S → ℕ → List (PlanBlock S) × ℕ → Type 0
  IsPlanned c d result =
      Tight c result.0 × ((j : ℕ) × ((result.1 ≡ d + j) × SettledFrom c j result.0))

  recalculated-first :
      (prep : Prep S) (planned : ℕ) (bs : List (PlanBlock S))
      → first_entry (plan_from prep planned planned bs).0 ≡ first_entry (notified prep planned bs)
  unfolding plan_from plan_passes notifies update_first
  recalculated-first prep zero [] = refl
  recalculated-first prep zero (b ∷ []) = refl
  recalculated-first prep zero (b ∷ c ∷ bs) =
      ap first_entry (forward_pass-first 1 0 (update_tail prep b) (reverse_pass (c ∷ bs))).1
  recalculated-first prep (suc n) [] = refl
  recalculated-first prep (suc n) (b ∷ []) = refl
  recalculated-first prep (suc n) (b ∷ c ∷ bs) = refl

  -- The speed at the tail is the one that the stepper has reached, or stays.
  pub planner_recalculate-first :
      (p : Plan S)
      → first_entry (planner_recalculate p).blocks
        ≡ first_entry (notified p.prep p.planned p.blocks)
  unfolding planner_recalculate
  planner_recalculate-first p = recalculated-first p.prep p.planned p.blocks

  -- Blocks that are added do not unsettle the plan.
  pub SettledFrom-append :
      (c : S) (k : ℕ) (b : PlanBlock S) (bs cs : List (PlanBlock S))
      → SettledFrom c k (b ∷ bs)
      → SettledFrom c k (b ∷ bs ++ cs)
  SettledFrom-append c zero b bs cs s = s
  SettledFrom-append c (suc k) b [] cs s = absurd s
  SettledFrom-append c (suc k) b (n ∷ bs) cs s =
      (s.0, SettledFrom-append (ceiling c b n) k n bs cs s.1)

  module _ (l : IsLawful o) where
    -- The passes from a block at its ceiling, at the offset `d`.
    passes-IsPlanned :
        (d : ℕ) (c : S) (b n : PlanBlock S) (bs : List (PlanBlock S))
        → Brakes (b ∷ n ∷ bs)
        → c ≼ b.entry_speed_sqr
        → IsPlanned c d (forward_pass (d + 1) d b (reverse_pass (n ∷ bs)))
    unfolding IsPlanned
    passes-IsPlanned d c b n bs brakes at =
        let rs : List (PlanBlock S) = reverse_pass (n ∷ bs) in
        let moved : Advances c (d + 1) d (forward_pass (d + 1) d b rs) =
          forward_pass-Advances l (d + 1) d c b rs
            (brakes.0, reverse_pass-Brakes l (n ∷ bs) brakes.1) (Pressed-at l c b rs at)
            (reverse_pass-Loaded l (n ∷ bs)) in
        let (rest, e) = forward_pass-first (d + 1) d b rs in
        (
          moved.0,
          elim moved.1 [
            | inl stays ↦ (0, (omega (arith, stays), subst (SettledFrom c 0) (sym e) at))
            | inr (j, (later, s)) ↦ (suc j, (omega (arith, later), s))
          ],
        )

    plan_from-IsPlanned :
        (prep : Prep S) (n d k : ℕ) (c : S) (b : PlanBlock S) (bs : List (PlanBlock S))
        → suc n ≡ d + k
        → Brakes (b ∷ bs)
        → SettledFrom c k (b ∷ bs)
        → IsPlanned c d (plan_from prep (suc n) k (b ∷ bs))
    unfolding plan_from plan_passes IsPlanned
    plan_from-IsPlanned prep n d zero c b [] at brakes s = (inl s, (0, (at, s)))
    plan_from-IsPlanned prep n d zero c b (m ∷ bs) at brakes s =
        let here : suc n ≡ d = omega (arith, at) in
        subst (λ x. IsPlanned c x (forward_pass (suc n + 1) (suc n) b (reverse_pass (m ∷ bs)))) here
          (passes-IsPlanned (suc n) c b m bs brakes s)
    plan_from-IsPlanned prep n d (suc k) c b [] at brakes s = absurd s
    plan_from-IsPlanned prep n d (suc k) c b (m ∷ bs) at brakes s =
        let (rest, e) = plan_from-first prep n k m bs in
        let (tight, (j, (later, settled))) =
          plan_from-IsPlanned prep n (d + 1) k (ceiling c b m) m bs (omega (arith, at)) brakes.1
            s.1 in
        (
          subst (λ x. Tight c (b ∷ x)) (sym e) (s.0, subst (Tight (ceiling c b m)) e tight),
          (
            suc j,
            (
              omega (arith, later),
              subst (λ x. SettledFrom c (suc j) (b ∷ x)) (sym e)
                  (s.0, subst (SettledFrom (ceiling c b m) j) e settled),
            ),
          ),
        )

    recalculated-IsPlanned :
        (prep : Prep S) (planned : ℕ) (bs : List (PlanBlock S))
        → Brakes bs
        → SettledFrom (first_entry (notified prep planned bs)) planned (notified prep planned bs)
        → IsPlanned (first_entry (notified prep planned bs)) 0 (plan_from prep planned planned bs)
    unfolding plan_from plan_passes notifies update_first IsPlanned
    recalculated-IsPlanned prep zero [] d s = (tt, (0, (refl, tt)))
    recalculated-IsPlanned prep zero (b ∷ []) d s = (inl s, (0, (refl, s)))
    recalculated-IsPlanned prep zero (b ∷ n ∷ bs) d s =
        passes-IsPlanned 0 (update_tail prep b).entry_speed_sqr (update_tail prep b) n bs
          (update_tail-stopping prep b d.0, d.1) s
    recalculated-IsPlanned prep (suc n) [] d s = absurd s
    recalculated-IsPlanned prep (suc n) (b ∷ []) d s = absurd s
    recalculated-IsPlanned prep (suc n) (b ∷ m ∷ bs) d s =
        plan_from-IsPlanned prep n 0 (suc n) b.entry_speed_sqr b (m ∷ bs) (omega arith) d s

    ceiling_monotone : (c d : S) (b n : PlanBlock S) → c ≼ d → ceiling c b n ≼ ceiling d b n
    ceiling_monotone c d b n h =
        le-min l (ceiling c b n) n.max_entry_speed_sqr (o.add d (stopping b))
          (min-le-left l n.max_entry_speed_sqr (o.add c (stopping b)))
          (l.le_trans (ceiling c b n) (o.add c (stopping b)) (o.add d (stopping b))
            (min-le-right l n.max_entry_speed_sqr (o.add c (stopping b)))
            (l.add_monotone c d (stopping b) h))

    -- A lower ceiling settles no less.
    pub SettledFrom-below :
        (c d : S) (k : ℕ) (bs : List (PlanBlock S))
        → c ≼ d
        → SettledFrom d k bs
        → SettledFrom c k bs
    SettledFrom-below c d zero [] h s = tt
    SettledFrom-below c d zero (b ∷ bs) h s = l.le_trans c d b.entry_speed_sqr h s
    SettledFrom-below c d (suc k) [] h s = absurd s
    SettledFrom-below c d (suc k) (b ∷ []) h s = absurd s
    SettledFrom-below c d (suc k) (b ∷ n ∷ bs) h s = (
      Pressed-below l c d b (n ∷ bs) h s.0,
      SettledFrom-below (ceiling c b n) (ceiling d b n) k (n ∷ bs) (ceiling_monotone c d b n h) s.1,
    )

    -- The plan behind the first block is settled from the speed at which it is entered.
    pub SettledFrom-tail :
        (k : ℕ) (b n : PlanBlock S) (bs : List (PlanBlock S))
        → IsRunning (b ∷ n ∷ bs)
        → SettledFrom b.entry_speed_sqr (suc k) (b ∷ n ∷ bs)
        → SettledFrom n.entry_speed_sqr k (n ∷ bs)
    SettledFrom-tail k b n bs h s =
        SettledFrom-below n.entry_speed_sqr (ceiling b.entry_speed_sqr b n) k (n ∷ bs)
          (le-min l n.entry_speed_sqr n.max_entry_speed_sqr (o.add b.entry_speed_sqr (stopping b))
            (Allows-limit n bs n.entry_speed_sqr (entries bs) h.2) h.1)
          s.1

    -- If no stopping distance is negative and the plan is settled up to its planned block, with the
    -- speed that the stepper has reached at the tail, then planner_recalculate leaves a plan that is
    -- settled up to its new planned block.
    pub planner_recalculate-SettledFrom :
        (p : Plan S)
        → Brakes p.blocks
        → SettledFrom
            (first_entry (notified p.prep p.planned p.blocks))
            p.planned
            (notified p.prep p.planned p.blocks)
        → SettledFrom
            (first_entry (notified p.prep p.planned p.blocks))
            (planner_recalculate p).planned
            (planner_recalculate p).blocks
    unfolding planner_recalculate IsPlanned
    planner_recalculate-SettledFrom p d s =
        let (tight, (j, (at, settled))) = recalculated-IsPlanned p.prep p.planned p.blocks d s in
        let here : (planner_recalculate p).planned ≡ j = omega (arith, at) in
        subst
          (λ x.
            SettledFrom (first_entry (notified p.prep p.planned p.blocks)) x
              (planner_recalculate p).blocks)
          (sym here) settled

    -- If no stopping distance is negative and the plan is settled up to its planned block, with the
    -- speed that the stepper has reached at the tail, then planner_recalculate, which plans from
    -- there on only, leaves the fastest of all plans: no entry speeds that are possible for the
    -- blocks and do not start above the tail's are above the new plan's at any block.
    pub planner_recalculate-optimal :
        (p : Plan S) (v : S) (vs : List S)
        → Brakes p.blocks
        → SettledFrom
            (first_entry (notified p.prep p.planned p.blocks))
            p.planned
            (notified p.prep p.planned p.blocks)
        → Runs (notified p.prep p.planned p.blocks) (v ∷ vs)
        → v ≼ first_entry (notified p.prep p.planned p.blocks)
        → AtMost (v ∷ vs) (planner_recalculate p).blocks
    unfolding planner_recalculate IsPlanned
    planner_recalculate-optimal p v vs d s h low =
        Tight-AtMost l (first_entry (notified p.prep p.planned p.blocks))
          (planner_recalculate p).blocks v vs
          (recalculated-IsPlanned p.prep p.planned p.blocks d s).0 low
          (Runs-of_limits (notified p.prep p.planned p.blocks) (planner_recalculate p).blocks
            (v ∷ vs)
            (planner_recalculate-limits p ∙ sym (notified-limits p.prep p.planned p.blocks)) h)
