-- ===== src/Planner/Settled.antt =====
-- Why the planned pointer may move: nothing improves the plan up to it. Each block is either as fast
-- as the blocks before it allow, or brakes as hard as it can to the next.
use mathlib.Core.Path.{subst}
use zephyr_grbl.Prelude.{
  if_split, ℕ, zero, suc, ◌+◌, ◌≡◌, refl, sym, ◌∙◌, ◌⊎◌, inl, inr, true, false, List, [], ◌∷◌,
  arith,
}
use zephyr_grbl.Planner.Speeds.{
  Speeds, PlanBlock, min_speed, stopping, with_entry, plan_last, plan_behind, reverse_pass,
  falls_short, plan_ahead, planned_ahead, forward_pass,
}
use zephyr_grbl.Planner.Feasible.{
  IsLawful, ◌≼◌, Runs, Brakes, AtMost, Runs-of_Allows, Allows-limit, plan_back_cases, le_refl,
  min-le-left, min-le-right, le-min,
}
use zephyr_grbl.Planner.Reverse.{brake-le-brake}
use zephyr_grbl.Planner.Forward.{plan_ahead_cases, falls_short-true, ahead-Brakes}
use zephyr_grbl.Planner.Fastest.{forward_pass-first}

module _ {S : Type 0} ⦃o : Speeds S⦄ where
  -- The fastest entry to `n` after entering `b` at `c`.
  abbrev pub ceiling : S → PlanBlock S → PlanBlock S → S
  ceiling c b n = min_speed n.max_entry_speed_sqr (o.add c (stopping b))

  -- `b` is entered at the ceiling `c`, or brakes to the first of the blocks after it, or to a stop.
  abbrev pub Pressed : S → PlanBlock S → List (PlanBlock S) → Type 0
  Pressed c b [] = (c ≼ b.entry_speed_sqr) ⊎ (stopping b ≼ b.entry_speed_sqr)
  Pressed c b (n ∷ bs) =
      (c ≼ b.entry_speed_sqr) ⊎ (o.add n.entry_speed_sqr (stopping b) ≼ b.entry_speed_sqr)

  -- So are all blocks.
  abbrev pub Tight : S → List (PlanBlock S) → Type 0
  Tight c [] = Unit {0}
  Tight c (b ∷ []) = Pressed c b []
  Tight c (b ∷ n ∷ bs) = Pressed c b (n ∷ bs) × Tight (ceiling c b n) (n ∷ bs)

  -- So are the blocks before the offset `k`, and the block there is at the ceiling.
  abbrev pub SettledFrom : S → ℕ → List (PlanBlock S) → Type 0
  SettledFrom c zero [] = Unit {0}
  SettledFrom c zero (b ∷ bs) = c ≼ b.entry_speed_sqr
  SettledFrom c (suc k) [] = ⊥
  SettledFrom c (suc k) (b ∷ []) = ⊥
  SettledFrom c (suc k) (b ∷ n ∷ bs) = Pressed c b (n ∷ bs) × SettledFrom (ceiling c b n) k (n ∷ bs)

  -- Each block is at its limit, or brakes: what the reverse pass gives.
  abbrev pub Loaded : List (PlanBlock S) → Type 0
  Loaded [] = Unit {0}
  Loaded (b ∷ bs) = Pressed b.max_entry_speed_sqr b bs × Loaded bs

  -- The blocks are tight, and the planned pointer, if it has moved, is at a settled block.
  abbrev pub Advances : S → ℕ → ℕ → List (PlanBlock S) × ℕ → Type 0
  Advances c i p result =
      Tight c result.0
      × ((result.1 ≡ p) ⊎ ((j : ℕ) × ((result.1 ≡ i + j) × SettledFrom c (suc j) result.0)))

  module _ (l : IsLawful o) where
    -- No possible speeds are above tight ones that are entered at least as fast.
    pub Tight-AtMost :
        (c : S) (bs : List (PlanBlock S)) (v : S) (vs : List S)
        → Tight c bs
        → v ≼ c
        → Runs bs (v ∷ vs)
        → AtMost (v ∷ vs) bs
    Tight-AtMost c [] v vs t low h = absurd h
    Tight-AtMost c (b ∷ []) v [] t low h = (
      elim t [
        | inl e ↦ l.le_trans v c b.entry_speed_sqr low e
        | inr e ↦ l.le_trans v (stopping b) b.entry_speed_sqr h e
      ],
      tt,
    )
    Tight-AtMost c (b ∷ []) v (w ∷ vs) t low h = absurd h
    Tight-AtMost c (b ∷ n ∷ bs) v [] t low h = absurd h
    Tight-AtMost c (b ∷ n ∷ bs) v (w ∷ vs) t low h =
        let rest : AtMost (w ∷ vs) (n ∷ bs) =
          Tight-AtMost (ceiling c b n) (n ∷ bs) w vs t.1
            (le-min l w n.max_entry_speed_sqr (o.add c (stopping b)) (Allows-limit n bs w vs h.2)
              (brake-le-brake l w v c (stopping b) h.1 low))
            (Runs-of_Allows (n ∷ bs) (w ∷ vs) h.2) in
        (
          elim t.0 [
            | inl e ↦ l.le_trans v c b.entry_speed_sqr low e
            | inr e ↦
                l.le_trans v (o.add n.entry_speed_sqr (stopping b)) b.entry_speed_sqr
                  (brake-le-brake l v w n.entry_speed_sqr (stopping b) h.0 rest.0) e
          ],
          rest,
        )

    behind-Loaded :
        (b : PlanBlock S) (rs : List (PlanBlock S)) → Loaded rs → Loaded (plan_behind b rs)
    unfolding plan_behind plan_last
    behind-Loaded b [] h = (
      if_split (λ x. (b.max_entry_speed_sqr ≼ x) ⊎ (stopping b ≼ x))
          (o.less b.max_entry_speed_sqr (stopping b)) (λ e. inl (le_refl l b.max_entry_speed_sqr))
          (λ e. inr (le_refl l (stopping b))),
      tt,
    )
    behind-Loaded b (r ∷ rs) h =
        plan_back_cases (λ x. Loaded (x ∷ r ∷ rs)) b r
          (λ e. (inl (l.ge_of_equal b.entry_speed_sqr b.max_entry_speed_sqr e), h))
          (λ e. (inr (le_refl l (o.add r.entry_speed_sqr (stopping b))), h))
          (λ e. (inl (le_refl l b.max_entry_speed_sqr), h))

    pub reverse_pass-Loaded : (bs : List (PlanBlock S)) → Loaded (reverse_pass bs)
    unfolding reverse_pass
    reverse_pass-Loaded [] = tt
    reverse_pass-Loaded (b ∷ bs) = behind-Loaded b (reverse_pass bs) (reverse_pass-Loaded bs)

    ahead-le : (b n : PlanBlock S) → (plan_ahead b n).entry_speed_sqr ≼ n.entry_speed_sqr
    ahead-le b n =
        plan_ahead_cases l (λ x. x.entry_speed_sqr ≼ n.entry_speed_sqr) b n
          (λ e. falls_short-true l b n e) (λ e. le_refl l n.entry_speed_sqr)

    -- A block that falls short of the next was entered at its ceiling, and so is the next then.
    short-ceiling :
        (c : S) (b n : PlanBlock S) (rs : List (PlanBlock S))
        → o.nothing ≼ stopping b
        → Pressed c b (n ∷ rs)
        → falls_short b n ≡ true
        → ceiling c b n ≼ o.add b.entry_speed_sqr (stopping b)
    unfolding falls_short
    short-ceiling c b n rs d (inl at) e =
        l.le_trans (ceiling c b n) (o.add c (stopping b)) (o.add b.entry_speed_sqr (stopping b))
          (min-le-right l n.max_entry_speed_sqr (o.add c (stopping b)))
          (l.add_monotone c b.entry_speed_sqr (stopping b) at)
    short-ceiling c b n rs d (inr brakes) e = absurd (brakes-reaches b n d brakes e)
      where
        brakes-reaches :
            (b n : PlanBlock S)
            → o.nothing ≼ stopping b
            → o.add n.entry_speed_sqr (stopping b) ≼ b.entry_speed_sqr
            → falls_short b n ≡ true
            → ⊥
        brakes-reaches b n d brakes e =
            let slow : o.less b.entry_speed_sqr n.entry_speed_sqr ≡ false =
              l.le_trans n.entry_speed_sqr (o.add n.entry_speed_sqr (stopping b)) b.entry_speed_sqr
                (l.le_add n.entry_speed_sqr (stopping b) d) brakes in
            ground (arith, slow, e)

    pub Pressed-at :
        (c : S) (b : PlanBlock S) (bs : List (PlanBlock S)) → c ≼ b.entry_speed_sqr → Pressed c b bs
    Pressed-at c b [] h = inl h
    Pressed-at c b (n ∷ bs) h = inl h

    pub Pressed-below :
        (c d : S) (b : PlanBlock S) (bs : List (PlanBlock S))
        → c ≼ d
        → Pressed d b bs
        → Pressed c b bs
    Pressed-below c d b [] h (inl e) = inl (l.le_trans c d b.entry_speed_sqr h e)
    Pressed-below c d b [] h (inr e) = inr e
    Pressed-below c d b (n ∷ bs) h (inl e) = inl (l.le_trans c d b.entry_speed_sqr h e)
    Pressed-below c d b (n ∷ bs) h (inr e) = inr e

    -- What the forward pass at `n` leaves of `b` and makes of `n`.
    ahead-keeps :
        (c : S) (b n : PlanBlock S) (bs cs : List (PlanBlock S))
        → Pressed c b (n ∷ bs)
        → Pressed c b (plan_ahead b n ∷ cs)
    ahead-keeps c b n bs cs (inl e) = inl e
    ahead-keeps c b n bs cs (inr e) = inr (
        l.le_trans (o.add (plan_ahead b n).entry_speed_sqr (stopping b))
          (o.add n.entry_speed_sqr (stopping b)) b.entry_speed_sqr
          (l.add_monotone (plan_ahead b n).entry_speed_sqr n.entry_speed_sqr (stopping b)
            (ahead-le b n))
          e)

    ahead-Pressed :
        (c : S) (b n : PlanBlock S) (bs : List (PlanBlock S))
        → o.nothing ≼ stopping b
        → Pressed c b (n ∷ bs)
        → Pressed n.max_entry_speed_sqr n bs
        → Pressed (ceiling c b (plan_ahead b n)) (plan_ahead b n) bs
    ahead-Pressed c b n bs d h g =
        plan_ahead_cases l (λ x. Pressed (ceiling c b x) x bs) b n
          (λ e.
            Pressed-at (ceiling c b n) (with_entry (o.add b.entry_speed_sqr (stopping b)) n) bs
              (short-ceiling c b n bs d h e))
          (λ e.
            Pressed-below (ceiling c b n) n.max_entry_speed_sqr n bs
              (min-le-left l n.max_entry_speed_sqr (o.add c (stopping b))) g)

    -- The planned pointer moves only to a block at its ceiling.
    planned_ahead-ceiling :
        (i p : ℕ) (c : S) (b n : PlanBlock S) (bs : List (PlanBlock S))
        → o.nothing ≼ stopping b
        → Pressed c b (n ∷ bs)
        → (planned_ahead i p b n ≡ p)
          ⊎ ((planned_ahead i p b n ≡ i)
              × (ceiling c b (plan_ahead b n) ≼ (plan_ahead b n).entry_speed_sqr))
    unfolding planned_ahead
    planned_ahead-ceiling i p c b n bs d h =
        let a : PlanBlock S = plan_ahead b n in
        if_split (λ x. (x ≡ p) ⊎ ((x ≡ i) × (ceiling c b a ≼ a.entry_speed_sqr)))
          (o.equal a.entry_speed_sqr a.max_entry_speed_sqr)
          (λ e. inr (
            refl,
            l.le_trans (ceiling c b a) a.max_entry_speed_sqr a.entry_speed_sqr
                (min-le-left l a.max_entry_speed_sqr (o.add c (stopping b)))
                (l.ge_of_equal a.entry_speed_sqr a.max_entry_speed_sqr e),
          ))
          (λ e.
            if_split (λ x. (x ≡ p) ⊎ ((x ≡ i) × (ceiling c b a ≼ a.entry_speed_sqr)))
              (falls_short b n)
              (λ f. inr (
                refl,
                plan_ahead_cases l (λ x. ceiling c b x ≼ x.entry_speed_sqr) b n
                    (λ g. short-ceiling c b n bs d h g) (λ g. absurd (ground (arith, f, g))),
              ))
              (λ f. inl refl))

    pub forward_pass-Advances :
        (i p : ℕ) (c : S) (b : PlanBlock S) (rs : List (PlanBlock S))
        → Brakes (b ∷ rs)
        → Pressed c b rs
        → Loaded rs
        → Advances c i p (forward_pass i p b rs)
    unfolding forward_pass
    forward_pass-Advances i p c b [] d h g = (h, inl refl)
    forward_pass-Advances i p c b (n ∷ rs) d h g =
        let a : PlanBlock S = plan_ahead b n in
        let q : ℕ = planned_ahead i p b n in
        let (rest, e) = forward_pass-first (i + 1) q a rs in
        let kept : Pressed c b (a ∷ rest) = ahead-keeps c b n rs rest h in
        let later : Advances (ceiling c b a) (i + 1) q (forward_pass (i + 1) q a rs) =
          forward_pass-Advances (i + 1) q (ceiling c b a) a rs (ahead-Brakes l b n d.1.0, d.1.1)
            (ahead-Pressed c b n rs d.0 h g.0) g.1 in
        (
          subst (λ x. Tight c (b ∷ x)) (sym e) (kept, subst (Tight (ceiling c b a)) e later.0),
          elim later.1 [
            | inr (j, (at, s)) ↦ inr (
              suc j,
              (
                omega (arith, at),
                subst (λ x. SettledFrom c (suc (suc j)) (b ∷ x)) (sym e)
                    (kept, subst (SettledFrom (ceiling c b a) (suc j)) e s),
              ),
            )
            | inl stays ↦ elim (planned_ahead-ceiling i p c b n rs d.0 h) [
              | inl same ↦ inl (stays ∙ same)
              | inr moved ↦ inr (
                0,
                (
                  omega (arith, stays, moved.0),
                  subst (λ x. SettledFrom c 1 (b ∷ x)) (sym e) (kept, moved.1),
                ),
              )
            ]
          ],
        )
