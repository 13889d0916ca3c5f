-- ===== src/Planner/Queued.antt =====
-- plan_buffer_line as a whole: what it does on each of its three ways out, and that a queued move
-- keeps the plan sound.
use zephyr_grbl.Prelude.{
  ◌==◌, if◌then◌else◌, if_split, ℕ, ◌≡◌, refl, Bool, true, ◌||◌, List, [], ◌∷◌, arith,
}
use zephyr_grbl.Flags.{bit_istrue}
use zephyr_grbl.Gcode.{Vec}
use zephyr_grbl.Planner.Speeds.{
  Speeds, PlanBlock, Prep, stopping, update_tail, update_first, nominal_speed, profile_parameters,
}
use zephyr_grbl.Planner.Feasible.{IsLawful, ◌≼◌, entries, IsRunning, le_refl, le-min}
use zephyr_grbl.Planner.Line.{
  StepMath, StepScale, pl_cond_flag_system_motion, PlanLineData, Planner, Planned,
  system_convert_corexy, is_empty, queue_block, target_position, new_block, plan_buffer_line,
  empty_block, system_block, queued,
}
use zephyr_grbl.Planner.Vectors.{
  LineMath, magnitude_sqr, convert_delta_vector_to_unit_vector, limit_axis,
  limit_value_by_axis_maximum, junction_cos_theta, curve_speed, least_junction_speed,
  max_junction_speed,
}
use zephyr_grbl.Planner.Moves.{NotNegative, IsSound, IsLawfulMath, with_block, snoc-IsSound}

module _ {S : Type 0} ⦃o : Speeds S⦄ ⦃math : LineMath S⦄ (l : IsLawful o)
    (lm : IsLawfulMath o math) where
  add_nonneg : (a d : S) → o.nothing ≼ a → o.nothing ≼ d → o.nothing ≼ o.add a d
  add_nonneg a d h g = l.le_trans o.nothing a (o.add a d) h (l.le_add a d g)

  magnitude_nonneg : (v : Vec S) → o.nothing ≼ magnitude_sqr v
  unfolding magnitude_sqr
  magnitude_nonneg v = add_square v.z _ (add_square v.y _ (add_square v.x _ (le_refl l o.nothing)))
    where
      add_square :
          (a m : S)
          → o.nothing ≼ m
          → o.nothing ≼ (if o.equal a o.nothing then m else o.add m (o.multiply a a))
      add_square a m h =
          if_split (λ x. o.nothing ≼ x) (o.equal a o.nothing) (λ e. h)
            (λ e. add_nonneg m (o.multiply a a) h (lm.square_nonneg a))

  length_nonneg : (v : Vec S) → o.nothing ≼ (convert_delta_vector_to_unit_vector v).1
  unfolding convert_delta_vector_to_unit_vector
  length_nonneg v = lm.sqrt_nonneg (magnitude_sqr v) (magnitude_nonneg v)

  limit_nonneg : (m unit : Vec S) → o.nothing ≼ limit_value_by_axis_maximum m unit
  unfolding limit_value_by_axis_maximum limit_axis
  limit_nonneg m unit = axis m.z unit.z _ (axis m.y unit.y _ (axis m.x unit.x _ lm.large_nonneg))
    where
      axis : (a u limit : S) → o.nothing ≼ limit → o.nothing ≼ limit_axis a u limit
      axis a u limit h =
          if_split (λ x. o.nothing ≼ x) (o.equal u o.nothing) (λ e. h)
            (λ e. le-min l o.nothing limit (math.fabs (math.divide a u)) h (lm.fabs_nonneg _))

  junction_nonneg : (prev unit : Vec S) → o.nothing ≼ max_junction_speed prev unit
  unfolding max_junction_speed
  junction_nonneg prev unit =
      if_split
        {y = if o.less (junction_cos_theta prev unit) math.straight
          then o.some_large_value
          else if o.less (curve_speed prev unit) least_junction_speed
          then least_junction_speed
          else curve_speed prev unit}
        (λ x. o.nothing ≼ x) (o.less math.acute (junction_cos_theta prev unit))
        (λ e. lm.square_nonneg math.minimum_junction_speed)
        (λ e.
          if_split (λ x. o.nothing ≼ x) (o.less (junction_cos_theta prev unit) math.straight)
            (λ f. lm.large_nonneg)
            (λ f.
              if_split (λ x. o.nothing ≼ x) (o.less (curve_speed prev unit) least_junction_speed)
                (λ g. lm.square_nonneg math.minimum_junction_speed)
                (λ g.
                  l.le_trans o.nothing least_junction_speed (curve_speed prev unit)
                    (lm.square_nonneg math.minimum_junction_speed) g)))

  -- The limit of plan_compute_profile_parameters is a square of a nominal speed, or that of the
  -- junction.
  profile_nonneg :
      (speed prev : S) (b : PlanBlock S)
      → o.nothing ≼ b.max_junction_speed_sqr
      → o.nothing ≼ (profile_parameters speed prev b).max_entry_speed_sqr
  unfolding profile_parameters
  profile_nonneg speed prev b h =
      if_split (λ x. o.nothing ≼ x)
        (o.less b.max_junction_speed_sqr
          (if o.less prev speed then o.multiply prev prev else o.multiply speed speed))
        (λ e. h)
        (λ e.
          if_split (λ x. o.nothing ≼ x) (o.less prev speed) (λ f. lm.square_nonneg prev)
            (λ f. lm.square_nonneg speed))

module _ {S : Type 0} ⦃o : Speeds S⦄ ⦃math : LineMath S⦄ where
  update_first-NotNegative :
      IsLawfulMath o math
      → (prep : Prep S) (bs : List (PlanBlock S)) → NotNegative (entries bs)
      → NotNegative (entries (update_first prep bs))
  unfolding update_first update_tail
  update_first-NotNegative lm prep [] m = m
  update_first-NotNegative lm prep (b ∷ bs) m = (
    if_split {A = PlanBlock S} (λ x. o.nothing ≼ x.entry_speed_sqr) prep.loaded
        (λ e. lm.square_nonneg prep.current_speed) (λ e. m.0),
    m.1,
  )

module _ {S P : Type 0} ⦃o : Speeds S⦄ ⦃math : LineMath S⦄ ⦃ints : StepMath P⦄
    ⦃scaling : StepScale S P⦄ where
  block_brakes :
      IsLawful o
      → IsLawfulMath o math
      → (line : PlanLineData S) (from_rest : Bool) (prev : Vec S) (start target : Vec P)
      → o.nothing ≼ stopping (new_block line from_rest prev start target).0
  unfolding new_block
  block_brakes l lm line from_rest prev start target =
      lm.product_nonneg _ _ (lm.product_nonneg _ _ lm.two_nonneg (limit_nonneg l lm _ _))
        (length_nonneg l lm _)

  block_junction :
      IsLawful o
      → IsLawfulMath o math
      → (line : PlanLineData S) (from_rest : Bool) (prev : Vec S) (start target : Vec P)
      → o.nothing ≼ (new_block line from_rest prev start target).0.max_junction_speed_sqr
  unfolding new_block
  block_junction l lm line from_rest prev start target =
      if_split (λ x. o.nothing ≼ x) from_rest (λ e. le_refl l o.nothing)
        (λ e. junction_nonneg l lm prev _)

  starts_at_rest :
      (line : PlanLineData S) (from_rest : Bool) (prev : Vec S) (start target : Vec P)
      → from_rest ≡ true
      → ((new_block line from_rest prev start target).0.entry_speed_sqr ≡ o.nothing)
        × ((new_block line from_rest prev start target).0.max_junction_speed_sqr ≡ o.nothing)
  unfolding new_block
  starts_at_rest line from_rest prev start target e = (refl, rw e)

  -- What is left after each way out of plan_buffer_line: nothing for a move of no steps, a block
  -- that starts from rest for a system motion, and a sound plan at the new position for any other.
  abbrev pub Keeps : Vec P → Planned S P → Type 0
  Keeps target_steps empty_block = Unit {0}
  Keeps target_steps (system_block b) =
      (b.entry_speed_sqr ≡ o.nothing) × (b.max_junction_speed_sqr ≡ o.nothing)
  Keeps target_steps (queued pl) = IsSound pl.plan × (pl.position ≡ target_steps)

  queue_block-IsSound :
      IsLawful o
      → IsLawfulMath o math
      → (r_override f_override : ℕ) (line : PlanLineData S) (from_rest : Bool)
        (start target_steps : Vec P) (pl : Planner S P)
      → IsSound pl.plan
      → IsRunning (update_first pl.plan.prep pl.plan.blocks)
      → IsSound
          (queue_block r_override f_override
            (new_block line from_rest pl.previous_unit_vec start target_steps).0
            (new_block line from_rest pl.previous_unit_vec start target_steps).1
            target_steps
            pl).plan
  unfolding queue_block with_block profile_parameters new_block
  queue_block-IsSound l lm r_override f_override line from_rest start target_steps pl s f =
      let n : PlanBlock S = (new_block line from_rest pl.previous_unit_vec start target_steps).0 in
      let speed : S = nominal_speed r_override f_override n in
      snoc-IsSound l pl.plan (profile_parameters speed pl.plan.previous_nominal_speed n) speed s f
        (update_first-NotNegative lm pl.plan.prep pl.plan.blocks s.moving) refl
        (profile_nonneg l lm speed pl.plan.previous_nominal_speed n
          (block_junction l lm line from_rest pl.previous_unit_vec start target_steps))
        (block_brakes l lm line from_rest pl.previous_unit_vec start target_steps)

  -- With laws of arithmetic without NaN, a sound plan, and a speed of the stepper that is possible
  -- for the block at the tail: plan_buffer_line queues a block such that the plan is sound again and
  -- the planner stands at the target, for every target, line data and overrides; or it makes a
  -- block of system motion that starts from rest, without touching the plan; or no block.
  pub plan_buffer_line-IsSound :
      IsLawful o
      → IsLawfulMath o math
      → (r_override f_override : ℕ) (sys_position : Vec P) (target : Vec S) (line : PlanLineData S)
        (pl : Planner S P)
      → IsSound pl.plan
      → IsRunning (update_first pl.plan.prep pl.plan.blocks)
      → Keeps
          (target_position scaling target)
          (plan_buffer_line r_override f_override sys_position target line pl)
  unfolding plan_buffer_line queue_block
  plan_buffer_line-IsSound l lm r_override f_override sys_position target line pl s f =
      let system : Bool = bit_istrue line.line_condition pl_cond_flag_system_motion in
      let start : Vec P = if system then system_convert_corexy sys_position else pl.position in
      let to : Vec P = target_position scaling target in
      let rest : Bool = is_empty pl.plan.blocks || system in
      let made = new_block line rest pl.previous_unit_vec start to in
      if_split
        {y = if system
          then system_block made.0
          else queued (queue_block r_override f_override made.0 made.1 to pl)}
        (Keeps to) (made.0.step_event_count == 0) (λ e. tt)
        (λ e.
          if_split (Keeps to) system
            (λ g. starts_at_rest line rest pl.previous_unit_vec start to (is_system g))
            (λ g. (queue_block-IsSound l lm r_override f_override line rest start to pl s f, refl)))
    where
      is_system :
          bit_istrue line.line_condition pl_cond_flag_system_motion ≡ true
          → (is_empty pl.plan.blocks || bit_istrue line.line_condition pl_cond_flag_system_motion)
            ≡ true
      is_system g = ground (arith, g)
