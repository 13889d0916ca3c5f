-- ===== src/Planner/Moves.antt =====
-- Every move that plan_buffer_line queues keeps the plan sound: the invariant of the planned speeds.
use mathlib.Core.List.{map-append}
use mathlib.Core.Path.{subst}
use zephyr_grbl.Prelude.{
  if_split, ℕ, zero, suc, ◌≡◌, refl, sym, ap, ◌∙◌, false, List, [], ◌∷◌, ◌++◌, map,
}
use zephyr_grbl.Flags.{}
use zephyr_grbl.Planner.Speeds.{
  Speeds, PlanBlock, Prep, Plan, at_tail, stopping, update_tail, notifies, planner_recalculate,
  update_first,
}
use zephyr_grbl.Planner.Feasible.{
  IsLawful, ◌≼◌, Allows, Runs, entries, IsRunning, Brakes, AtMost, Runs-of_Allows, le_refl,
}
use zephyr_grbl.Planner.Fastest.{
  notified, AtMostUpTo, planner_recalculate-IsRunning, planner_recalculate-fastest,
}
use zephyr_grbl.Planner.Settled.{SettledFrom}
use zephyr_grbl.Planner.Optimal.{
  first_entry, planner_recalculate-first, SettledFrom-append, planner_recalculate-SettledFrom,
}
use zephyr_grbl.Planner.Limits.{
  limits, planner_recalculate-limits, update_first-limits, notified-limits, Brakes-of_limits,
  Allows-of_limits,
}
use zephyr_grbl.Planner.Line.{}
use zephyr_grbl.Planner.Vectors.{LineMath}

module _ {S : Type 0} ⦃o : Speeds S⦄ where
  abbrev pub NotNegative : List S → Type 0
  NotNegative [] = Unit {0}
  NotNegative (v ∷ vs) = (o.nothing ≼ v) × NotNegative vs

  -- standing still at every block
  abbrev pub zeros : List (PlanBlock S) → List S
  zeros = map (λ b. o.nothing)

  -- The entry speeds are possible and not negative, no stopping distance and no limit is negative,
  -- and the plan is settled up to the planned block.
  pub record IsSound (p : Plan S) : Type 0 where
    pub brakes : Brakes p.blocks
    pub running : IsRunning p.blocks
    pub at_rest : Allows p.blocks (zeros p.blocks)
    pub moving : NotNegative (entries p.blocks)
    pub settled : SettledFrom (first_entry p.blocks) p.planned p.blocks

-- What holds of the arithmetic of lines without NaN.
pub record IsLawfulMath {S : Type 0} (o : Speeds S) (math : LineMath S) : Type 0 where
  pub square_nonneg : (a : S) → o.less (o.multiply a a) o.nothing ≡ false
  pub product_nonneg :
      (a b : S)
      → o.less a o.nothing ≡ false
      → o.less b o.nothing ≡ false
      → o.less (o.multiply a b) o.nothing ≡ false
  pub fabs_nonneg : (a : S) → o.less (math.fabs a) o.nothing ≡ false
  pub sqrt_nonneg : (a : S) → o.less a o.nothing ≡ false → o.less (math.sqrt a) o.nothing ≡ false
  pub two_nonneg : o.less o.two o.nothing ≡ false
  pub large_nonneg : o.less o.some_large_value o.nothing ≡ false

module _ {S : Type 0} ⦃o : Speeds S⦄ (l : IsLawful o) where
  can_stop : (b : PlanBlock S) (v : S) → v ≼ stopping b → v ≼ o.add o.nothing (stopping b)
  can_stop b v h =
      l.le_trans v (stopping b) (o.add o.nothing (stopping b)) h
        (l.le_add_left o.nothing (stopping b) (le_refl l o.nothing))

  can_start :
      (b : PlanBlock S) (v : S)
      → o.nothing ≼ stopping b
      → o.nothing ≼ v
      → o.nothing ≼ o.add v (stopping b)
  can_start b v d m =
      l.le_trans o.nothing (stopping b) (o.add v (stopping b)) d (l.le_add_left v (stopping b) m)

  -- A block that starts from rest can follow speeds that are not negative.
  Allows-snoc :
      (bs : List (PlanBlock S)) (vs : List S) (n : PlanBlock S)
      → Brakes bs
      → NotNegative vs
      → o.nothing ≼ n.max_entry_speed_sqr
      → o.nothing ≼ stopping n
      → Allows bs vs
      → Allows (bs ++ n ∷ []) (vs ++ o.nothing ∷ [])
  Allows-snoc [] [] n d m limit brake h = (limit, brake)
  Allows-snoc [] (v ∷ vs) n d m limit brake h = absurd h
  Allows-snoc (b ∷ []) [] n d m limit brake h = absurd h
  Allows-snoc (b ∷ []) (v ∷ []) n d m limit brake h =
      (h.0, can_stop b v h.1, can_start b v d.0 m.0, (limit, brake))
  Allows-snoc (b ∷ []) (v ∷ w ∷ vs) n d m limit brake h = absurd h
  Allows-snoc (b ∷ c ∷ bs) [] n d m limit brake h = absurd h
  Allows-snoc (b ∷ c ∷ bs) (v ∷ []) n d m limit brake h = absurd h
  Allows-snoc (b ∷ c ∷ bs) (v ∷ w ∷ vs) n d m limit brake h =
      (h.0, h.1, h.2, Allows-snoc (c ∷ bs) (w ∷ vs) n d.1 m.1 limit brake h.3)

  Runs-snoc :
      (bs : List (PlanBlock S)) (vs : List S) (n : PlanBlock S)
      → Brakes bs
      → NotNegative vs
      → o.nothing ≼ n.max_entry_speed_sqr
      → o.nothing ≼ stopping n
      → Runs bs vs
      → Runs (bs ++ n ∷ []) (vs ++ o.nothing ∷ [])
  Runs-snoc [] [] n d m limit brake h = brake
  Runs-snoc [] (v ∷ vs) n d m limit brake h = absurd h
  Runs-snoc (b ∷ []) [] n d m limit brake h = absurd h
  Runs-snoc (b ∷ []) (v ∷ []) n d m limit brake h =
      (can_stop b v h, can_start b v d.0 m.0, (limit, brake))
  Runs-snoc (b ∷ []) (v ∷ w ∷ vs) n d m limit brake h = absurd h
  Runs-snoc (b ∷ c ∷ bs) [] n d m limit brake h = absurd h
  Runs-snoc (b ∷ c ∷ bs) (v ∷ []) n d m limit brake h = absurd h
  Runs-snoc (b ∷ c ∷ bs) (v ∷ w ∷ vs) n d m limit brake h =
      (h.0, h.1, Allows-snoc (c ∷ bs) (w ∷ vs) n d.1 m.1 limit brake h.2)

  Brakes-snoc :
      (bs : List (PlanBlock S)) (n : PlanBlock S)
      → Brakes bs
      → o.nothing ≼ stopping n
      → Brakes (bs ++ n ∷ [])
  Brakes-snoc [] n d brake = (brake, tt)
  Brakes-snoc (b ∷ bs) n d brake = (d.0, Brakes-snoc bs n d.1 brake)

  NotNegative-snoc : (vs : List S) → NotNegative vs → NotNegative (vs ++ o.nothing ∷ [])
  NotNegative-snoc [] m = (le_refl l o.nothing, tt)
  NotNegative-snoc (v ∷ vs) m = (m.0, NotNegative-snoc vs m.1)

  zeros-NotNegative : (bs : List (PlanBlock S)) → NotNegative (zeros bs)
  zeros-NotNegative [] = tt
  zeros-NotNegative (b ∷ bs) = (le_refl l o.nothing, zeros-NotNegative bs)

  AtMost-NotNegative :
      (bs cs : List (PlanBlock S)) → AtMost (zeros bs) cs → NotNegative (entries cs)
  AtMost-NotNegative [] [] h = tt
  AtMost-NotNegative [] (c ∷ cs) h = absurd h
  AtMost-NotNegative (b ∷ bs) [] h = absurd h
  AtMost-NotNegative (b ∷ bs) (c ∷ cs) h = (h.0, AtMost-NotNegative bs cs h.1)

  NotNegative-AtMostUpTo :
      (k : ℕ) (bs cs : List (PlanBlock S)) → NotNegative (entries cs) → AtMostUpTo k (zeros bs) cs
  NotNegative-AtMostUpTo zero [] cs m = tt
  NotNegative-AtMostUpTo (suc k) [] cs m = tt
  NotNegative-AtMostUpTo zero (b ∷ bs) [] m = tt
  NotNegative-AtMostUpTo (suc k) (b ∷ bs) [] m = tt
  NotNegative-AtMostUpTo zero (b ∷ bs) (c ∷ cs) m = m.0
  NotNegative-AtMostUpTo (suc k) (b ∷ bs) (c ∷ cs) m = (m.0, NotNegative-AtMostUpTo k bs cs m.1)

  -- Blocks with the same limits are as many.
  pub zeros-of_limits :
      (bs cs : List (PlanBlock S)) → map limits cs ≡ map limits bs → zeros cs ≡ zeros bs
  zeros-of_limits [] [] e = refl
  zeros-of_limits [] (c ∷ cs) e = absurd (cc (e))
  zeros-of_limits (b ∷ bs) [] e = absurd (cc (e))
  zeros-of_limits (b ∷ bs) (c ∷ cs) e = ap (λ x. o.nothing ∷ x) (zeros-of_limits bs cs (cc (e)))

  -- Planning anew keeps a sound plan sound, with the speed that the stepper has reached at the tail.
  pub recalculate-IsSound :
      (p : Plan S)
      → Brakes p.blocks
      → Allows p.blocks (zeros p.blocks)
      → IsRunning (notified p.prep p.planned p.blocks)
      → NotNegative (entries (notified p.prep p.planned p.blocks))
      → SettledFrom
          (first_entry (notified p.prep p.planned p.blocks))
          p.planned
          (notified p.prep p.planned p.blocks)
      → IsSound (planner_recalculate p)
  recalculate-IsSound p d rest f m s =
      let e = planner_recalculate-limits p in
      let bs : List (PlanBlock S) = (planner_recalculate p).blocks in
      record {
        brakes = Brakes-of_limits p.blocks bs e d;
        running = planner_recalculate-IsRunning l p d f;
        at_rest =
            subst (Allows bs) (sym (zeros-of_limits p.blocks bs e))
              (Allows-of_limits p.blocks bs (zeros p.blocks) e rest);
        moving = AtMost-NotNegative p.blocks bs (
            planner_recalculate-fastest l p (zeros p.blocks)
              (Runs-of_Allows (notified p.prep p.planned p.blocks) (zeros p.blocks) (
                Allows-of_limits p.blocks (notified p.prep p.planned p.blocks) (zeros p.blocks)
                  (notified-limits p.prep p.planned p.blocks) rest))
              (NotNegative-AtMostUpTo p.planned p.blocks (notified p.prep p.planned p.blocks) m));
        settled =
            subst
              (λ c. SettledFrom c (planner_recalculate p).planned (planner_recalculate p).blocks)
              (sym (planner_recalculate-first p)) (planner_recalculate-SettledFrom l p d s);
      }

  -- The plan with one more block that starts from rest.
  unfoldable pub with_block : PlanBlock S → S → Plan S → Plan S
  with_block n speed p = record p { blocks = p.blocks ++ n ∷ []; previous_nominal_speed = speed }

  entries-snoc :
      (bs : List (PlanBlock S)) (n : PlanBlock S)
      → n.entry_speed_sqr ≡ o.nothing
      → entries (bs ++ n ∷ []) ≡ entries bs ++ o.nothing ∷ []
  entries-snoc bs n e =
      map-append (λ b. b.entry_speed_sqr) bs (n ∷ []) ∙ ap (λ x. entries bs ++ x ∷ []) e

  -- What holds with the new block before and after the stepper's speed is stored.
  notified-snoc :
      (P : List (PlanBlock S) → Type 0) (prep : Prep S) (k : ℕ) (bs : List (PlanBlock S))
      (n : PlanBlock S)
      → P (bs ++ n ∷ [])
      → P (update_first prep bs ++ n ∷ [])
      → P (notified prep k (bs ++ n ∷ []))
  unfolding notifies update_first
  notified-snoc P prep k [] n h g = h
  notified-snoc P prep k (b ∷ []) n h g = if_split P (at_tail k) (λ e. g) (λ e. h)
  notified-snoc P prep k (b ∷ c ∷ bs) n h g = if_split P (at_tail k) (λ e. g) (λ e. h)

  settled_snoc :
      (prep : Prep S) (k : ℕ) (bs : List (PlanBlock S)) (n : PlanBlock S)
      → SettledFrom (first_entry bs) k bs
      → SettledFrom
          (first_entry (notified prep k (bs ++ n ∷ [])))
          k
          (notified prep k (bs ++ n ∷ []))
  unfolding notifies update_first
  settled_snoc prep zero [] n s = le_refl l n.entry_speed_sqr
  settled_snoc prep zero (b ∷ []) n s = le_refl l (update_tail prep b).entry_speed_sqr
  settled_snoc prep zero (b ∷ c ∷ bs) n s = le_refl l (update_tail prep b).entry_speed_sqr
  settled_snoc prep (suc k) [] n s = absurd s
  settled_snoc prep (suc k) (b ∷ []) n s = absurd s
  settled_snoc prep (suc k) (b ∷ c ∷ bs) n s =
      SettledFrom-append b.entry_speed_sqr (suc k) b (c ∷ bs) (n ∷ []) s

  pub snoc-IsSound :
      (p : Plan S) (n : PlanBlock S) (speed : S)
      → IsSound p
      → IsRunning (update_first p.prep p.blocks)
      → NotNegative (entries (update_first p.prep p.blocks))
      → n.entry_speed_sqr ≡ o.nothing
      → o.nothing ≼ n.max_entry_speed_sqr
      → o.nothing ≼ stopping n
      → IsSound (planner_recalculate (with_block n speed p))
  unfolding with_block
  snoc-IsSound p n speed s f m e limit brake =
      let bs : List (PlanBlock S) = p.blocks in
      let ok : List (PlanBlock S) → Type 0 = λ x. IsRunning x × NotNegative (entries x) in
      let both : ok (notified p.prep p.planned (bs ++ n ∷ [])) =
        notified-snoc ok p.prep p.planned bs n (added bs s.brakes s.running s.moving) (
          added (update_first p.prep bs)
            (Brakes-of_limits bs (update_first p.prep bs) (update_first-limits p.prep bs) s.brakes)
            f m) in
      recalculate-IsSound (with_block n speed p) (Brakes-snoc bs n s.brakes brake)
        (subst (Allows (bs ++ n ∷ [])) (sym (map-append (λ b. o.nothing) bs (n ∷ [])))
          (Allows-snoc bs (zeros bs) n s.brakes (zeros-NotNegative bs) limit brake s.at_rest))
        both.0 both.1 (settled_snoc p.prep p.planned bs n s.settled)
    where
      added :
          (x : List (PlanBlock S))
          → Brakes x
          → IsRunning x
          → NotNegative (entries x)
          → IsRunning (x ++ n ∷ []) × NotNegative (entries (x ++ n ∷ []))
      added x d g z = (
        subst (Runs (x ++ n ∷ [])) (sym (entries-snoc x n e))
            (Runs-snoc x (entries x) n d z limit brake g),
        subst NotNegative (sym (entries-snoc x n e)) (NotNegative-snoc (entries x) z),
      )
