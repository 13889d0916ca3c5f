-- ===== src/Planner/Feasible.antt =====
-- The plan that planner_recalculate leaves: no block is entered faster than its limit, every block
-- can brake or accelerate to the entry speed of the next, and the last can stop.
use zephyr_grbl.Prelude.{Bool-cases, if_split, ◌≡◌, inl, inr, true, false, List, [], ◌∷◌, map}
use zephyr_grbl.Planner.Speeds.{
  Speeds, PlanBlock, min_speed, stopping, with_entry, plan_back, falls_short,
}

-- What holds of float arithmetic without NaN, where a sum is rounded to the nearest value.
pub record IsLawful {S : Type 0} (o : Speeds S) : Type 0 where
  pub asymmetric : (a b : S) → o.less a b ≡ true → o.less b a ≡ false
  -- a ≤ b, written as ¬ (b < a)
  pub le_trans : (a b c : S) → o.less b a ≡ false → o.less c b ≡ false → o.less c a ≡ false
  pub ge_of_equal : (a b : S) → o.equal a b ≡ true → o.less a b ≡ false
  pub add_monotone : (a b d : S) → o.less b a ≡ false → o.less (o.add b d) (o.add a d) ≡ false
  pub le_add : (a d : S) → o.less d o.nothing ≡ false → o.less (o.add a d) a ≡ false
  pub le_add_left : (a d : S) → o.less a o.nothing ≡ false → o.less (o.add a d) d ≡ false

module _ {S : Type 0} ⦃o : Speeds S⦄ where
  infix 50 ◌≼◌
  -- a ≤ b
  abbrev pub ◌≼◌ : S → S → Type 0
  a ≼ b = o.less b a ≡ false

  -- The entry speeds `vs` are possible for the blocks `bs`, which end in a stop.
  abbrev pub Allows : List (PlanBlock S) → List S → Type 0
  Allows [] [] = Unit {0}
  Allows (b ∷ []) (v ∷ []) = (v ≼ b.max_entry_speed_sqr) × (v ≼ stopping b)
  Allows (b ∷ c ∷ bs) (v ∷ w ∷ vs) =
      (v ≼ b.max_entry_speed_sqr)
      × (v ≼ o.add w (stopping b))
      × (w ≼ o.add v (stopping b))
      × Allows (c ∷ bs) (w ∷ vs)
  Allows bs vs = ⊥

  -- The same without the limit of the first block, which is under way.
  abbrev pub Runs : List (PlanBlock S) → List S → Type 0
  Runs [] [] = Unit {0}
  Runs (b ∷ []) (v ∷ []) = v ≼ stopping b
  Runs (b ∷ c ∷ bs) (v ∷ w ∷ vs) =
      (v ≼ o.add w (stopping b)) × (w ≼ o.add v (stopping b)) × Allows (c ∷ bs) (w ∷ vs)
  Runs bs vs = ⊥

  abbrev pub entries : List (PlanBlock S) → List S
  entries = map (λ b. b.entry_speed_sqr)

  -- The entry speeds that the blocks have are possible.
  abbrev pub IsFeasible : List (PlanBlock S) → Type 0
  IsFeasible bs = Allows bs (entries bs)

  abbrev pub IsRunning : List (PlanBlock S) → Type 0
  IsRunning bs = Runs bs (entries bs)

  -- No block's stopping distance is negative.
  abbrev pub Brakes : List (PlanBlock S) → Type 0
  Brakes [] = Unit {0}
  Brakes (b ∷ bs) = (o.nothing ≼ stopping b) × Brakes bs

  -- The speeds `vs` are not above the entry speeds of `bs`.
  abbrev pub AtMost : List S → List (PlanBlock S) → Type 0
  AtMost [] [] = Unit {0}
  AtMost (v ∷ vs) (b ∷ bs) = (v ≼ b.entry_speed_sqr) × AtMost vs bs
  AtMost vs bs = ⊥

  pub Runs-of_Allows : (bs : List (PlanBlock S)) (vs : List S) → Allows bs vs → Runs bs vs
  Runs-of_Allows [] [] h = h
  Runs-of_Allows [] (v ∷ vs) h = absurd h
  Runs-of_Allows (b ∷ []) [] h = absurd h
  Runs-of_Allows (b ∷ []) (v ∷ []) h = h.1
  Runs-of_Allows (b ∷ []) (v ∷ w ∷ vs) h = absurd h
  Runs-of_Allows (b ∷ c ∷ bs) [] h = absurd h
  Runs-of_Allows (b ∷ c ∷ bs) (v ∷ []) h = absurd h
  Runs-of_Allows (b ∷ c ∷ bs) (v ∷ w ∷ vs) h = (h.1, h.2, h.3)

  pub Allows-limit :
      (b : PlanBlock S) (bs : List (PlanBlock S)) (v : S) (vs : List S)
      → Allows (b ∷ bs) (v ∷ vs)
      → v ≼ b.max_entry_speed_sqr
  Allows-limit b [] v [] h = h.0
  Allows-limit b [] v (w ∷ vs) h = absurd h
  Allows-limit b (c ∷ bs) v [] h = absurd h
  Allows-limit b (c ∷ bs) v (w ∷ vs) h = h.0

  -- Each block, of which `b` is the first, can accelerate from its speed to that of the next.
  abbrev pub Accelerates : PlanBlock S → List (PlanBlock S) → S → List S → Type 0
  Accelerates b [] v [] = Unit {0}
  Accelerates b (c ∷ bs) v (w ∷ vs) = (w ≼ o.add v (stopping b)) × Accelerates c bs w vs
  Accelerates b bs v vs = ⊥

  abbrev pub Reaches : List (PlanBlock S) → List S → Type 0
  Reaches [] [] = Unit {0}
  Reaches (b ∷ bs) (v ∷ vs) = Accelerates b bs v vs
  Reaches bs vs = ⊥

  -- What the reverse pass alone gives: every block keeps its limit and can brake to the next.
  abbrev pub Stops : List (PlanBlock S) → Type 0
  Stops [] = Unit {0}
  Stops (b ∷ []) = (b.entry_speed_sqr ≼ b.max_entry_speed_sqr) × (b.entry_speed_sqr ≼ stopping b)
  Stops (b ∷ c ∷ bs) =
      (b.entry_speed_sqr ≼ b.max_entry_speed_sqr)
      × (b.entry_speed_sqr ≼ o.add c.entry_speed_sqr (stopping b))
      × Stops (c ∷ bs)

  -- The two ways that a block is set in the reverse pass, and the one that leaves it.
  pub plan_back_cases :
      (P : PlanBlock S → Type 0) (b c : PlanBlock S)
      → (o.equal b.entry_speed_sqr b.max_entry_speed_sqr ≡ true → P b)
      → (o.less (o.add c.entry_speed_sqr (stopping b)) b.max_entry_speed_sqr ≡ true
          → P (with_entry (o.add c.entry_speed_sqr (stopping b)) b))
      → (b.max_entry_speed_sqr ≼ o.add c.entry_speed_sqr (stopping b)
          → P (with_entry b.max_entry_speed_sqr b))
      → P (plan_back b c)
  unfolding plan_back
  plan_back_cases P b c same braking limited =
      if_split P (o.equal b.entry_speed_sqr b.max_entry_speed_sqr) same (λ e.
        if_split P (o.less (o.add c.entry_speed_sqr (stopping b)) b.max_entry_speed_sqr) braking
          limited)

  module _ (l : IsLawful o) where
    pub le_refl : (a : S) → a ≼ a
    le_refl a = elim (Bool-cases (o.less a a)) [ inl e ↦ l.asymmetric a a e | inr e ↦ e ]

    pub falls_short-false :
        (b c : PlanBlock S)
        → o.nothing ≼ stopping b
        → falls_short b c ≡ false
        → c.entry_speed_sqr ≼ o.add b.entry_speed_sqr (stopping b)
    unfolding falls_short
    falls_short-false b c d =
        if_split (λ t. t ≡ false → c.entry_speed_sqr ≼ o.add b.entry_speed_sqr (stopping b))
          (o.less b.entry_speed_sqr c.entry_speed_sqr) (λ e f. f)
          (λ e f.
            l.le_trans c.entry_speed_sqr b.entry_speed_sqr (o.add b.entry_speed_sqr (stopping b)) e
              (l.le_add b.entry_speed_sqr (stopping b) d))

    pub min-le-left : (a b : S) → min_speed a b ≼ a
    min-le-left a b = if_split (λ x. x ≼ a) (o.less a b) (λ e. le_refl a) (λ e. e)

    pub min-le-right : (a b : S) → min_speed a b ≼ b
    min-le-right a b = if_split (λ x. x ≼ b) (o.less a b) (λ e. l.asymmetric a b e) (λ e. le_refl b)

    pub le-min : (v a b : S) → v ≼ a → v ≼ b → v ≼ min_speed a b
    le-min v a b x y = if_split (λ m. v ≼ m) (o.less a b) (λ e. x) (λ e. y)
