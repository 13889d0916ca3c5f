-- ===== src/Planner/Speeds.antt =====
-- The look-ahead planning of planner.c. A plan is the ring's blocks from the tail to the newest (the
-- FIFO that Planner.Fifo shows the ring to be), and block_buffer_planned is an offset from the tail.
-- Speeds are floats: a type with the operations that the source uses.
use zephyr_grbl.Prelude.{if◌then◌else◌, ℕ, zero, suc, ◌+◌, Bool, true, false, List, [], ◌∷◌}
use zephyr_grbl.Gcode.{Vec}
use zephyr_grbl.Flags.{Byte, bit, bit_istrue}

-- Float arithmetic on speeds, accelerations and lengths.
pub record Speeds (S : Type 0) : Type 0 where
  pub add : S → S → S
  pub multiply : S → S → S
  -- a < b
  pub less : S → S → Bool
  -- a == b
  pub equal : S → S → Bool
  -- speed *= (0.01*percent)
  pub scale : S → ℕ → S
  -- 0.0, 2, MINIMUM_FEED_RATE and SOME_LARGE_VALUE
  pub nothing : S
  pub two : S
  pub minimum_feed_rate : S
  pub some_large_value : S

-- plan_block_t (without USE_LINE_NUMBERS and VARIABLE_SPINDLE)
pub record PlanBlock (S : Type 0) : Type 0 where
  pub steps : Vec ℕ
  pub step_event_count : ℕ
  pub direction_bits : Byte
  pub condition : Byte
  pub entry_speed_sqr : S
  pub max_entry_speed_sqr : S
  pub acceleration : S
  pub millimeters : S
  pub max_junction_speed_sqr : S
  pub rapid_rate : S
  pub programmed_rate : S

abbrev pub pl_cond_flag_rapid_motion : Byte
pl_cond_flag_rapid_motion = bit 0

abbrev pub pl_cond_flag_no_feed_override : Byte
pl_cond_flag_no_feed_override = bit 2

-- What st_update_plan_block_parameters uses of the stepper's preparation: whether pl_block points
-- to the block at the tail or is NULL, prep.current_speed, and PREP_FLAG_RECALCULATE.
pub record Prep (S : Type 0) : Type 0 where
  pub loaded : Bool
  pub current_speed : S
  pub recalculate : Bool

pub record Plan (S : Type 0) : Type 0 where
  pub blocks : List (PlanBlock S)
  pub planned : ℕ
  pub previous_nominal_speed : S
  pub prep : Prep S

-- block_index == block_buffer_tail, for the block at an offset from the tail
abbrev pub at_tail : ℕ → Bool
at_tail zero = true
at_tail (suc i) = false

module _ {S : Type 0} ⦃o : Speeds S⦄ where
  -- min(a, b)
  abbrev pub min_speed : S → S → S
  min_speed a b = if o.less a b then a else b

  -- 2*block->acceleration*block->millimeters
  abbrev pub stopping : PlanBlock S → S
  stopping b = o.multiply (o.multiply o.two b.acceleration) b.millimeters

  abbrev pub with_entry : S → PlanBlock S → PlanBlock S
  with_entry v b = record b { entry_speed_sqr = v }

  -- st_update_plan_block_parameters, on the block at the tail
  unfoldable pub update_tail : Prep S → PlanBlock S → PlanBlock S
  update_tail p b =
      if p.loaded then with_entry (o.multiply p.current_speed p.current_speed) b else b

  -- and on the stepper's preparation
  unfoldable pub update_prep : Prep S → Prep S
  update_prep p = if p.loaded then record p { loaded = false; recalculate = true } else p

  -- The reverse pass at the last block, whose exit speed is zero.
  unfoldable pub plan_last : PlanBlock S → PlanBlock S
  plan_last b = with_entry (min_speed b.max_entry_speed_sqr (stopping b)) b

  -- The reverse pass at `current`, whose successor is `next`.
  unfoldable pub plan_back : PlanBlock S → PlanBlock S → PlanBlock S
  plan_back current next =
      if o.equal current.entry_speed_sqr current.max_entry_speed_sqr
      then current
      else let entry : S = o.add next.entry_speed_sqr (stopping current) in
        if o.less entry current.max_entry_speed_sqr
        then with_entry entry current
        else with_entry current.max_entry_speed_sqr current

  -- The blocks after the planned one, from the last back. `plan_behind current later` puts `current`
  -- before the blocks that are done.
  unfoldable pub plan_behind : PlanBlock S → List (PlanBlock S) → List (PlanBlock S)
  plan_behind current [] = plan_last current ∷ []
  plan_behind current (next ∷ later) = plan_back current next ∷ next ∷ later

  unfoldable pub reverse_pass : List (PlanBlock S) → List (PlanBlock S)
  reverse_pass [] = []
  reverse_pass (b ∷ bs) = plan_behind b (reverse_pass bs)

  -- `current` accelerates all the way and still does not reach the entry speed of `next`.
  unfoldable pub falls_short : PlanBlock S → PlanBlock S → Bool
  falls_short current next =
      if o.less current.entry_speed_sqr next.entry_speed_sqr
      then o.less (o.add current.entry_speed_sqr (stopping current)) next.entry_speed_sqr
      else false

  unfoldable pub plan_ahead : PlanBlock S → PlanBlock S → PlanBlock S
  plan_ahead current next =
      if falls_short current next
      then with_entry (o.add current.entry_speed_sqr (stopping current)) next
      else next

  -- The planned pointer after the forward pass at `next`, which is at offset `i`.
  unfoldable pub planned_ahead : ℕ → ℕ → PlanBlock S → PlanBlock S → ℕ
  planned_ahead i planned current next =
      let next' : PlanBlock S = plan_ahead current next in
      if o.equal next'.entry_speed_sqr next'.max_entry_speed_sqr
      then i
      else if falls_short current next
      then i
      else planned

  -- The forward pass: `current` and the blocks after it, the first of which is at offset `i`.
  unfoldable pub forward_pass : ℕ → ℕ → PlanBlock S → List (PlanBlock S) → List (PlanBlock S) × ℕ
  forward_pass i planned current [] = (current ∷ [], planned)
  forward_pass i planned current (next ∷ later) =
      let rest =
        forward_pass (i + 1) (planned_ahead i planned current next) (plan_ahead current next)
          later in
      (current ∷ rest.0, rest.1)

  -- The two passes over the blocks from the planned one on: nothing to do for a single block. The
  -- stepper is told if the planned block is the tail, at offset 0.
  unfoldable pub plan_passes : Prep S → ℕ → List (PlanBlock S) → List (PlanBlock S) × ℕ
  plan_passes prep planned [] = ([], planned)
  plan_passes prep planned (b ∷ []) = (b ∷ [], planned)
  plan_passes prep planned (b ∷ c ∷ bs) =
      forward_pass (planned + 1) planned (if at_tail planned then update_tail prep b else b)
        (reverse_pass (c ∷ bs))

  -- The blocks before the offset `k` stay, the passes work on the others.
  unfoldable pub plan_from : Prep S → ℕ → ℕ → List (PlanBlock S) → List (PlanBlock S) × ℕ
  plan_from prep planned zero bs = plan_passes prep planned bs
  plan_from prep planned (suc k) [] = ([], planned)
  plan_from prep planned (suc k) (b ∷ bs) =
      let rest = plan_from prep planned k bs in (b ∷ rest.0, rest.1)

  -- planner_recalculate tells the stepper: the planned block is the tail, and is not the only one.
  unfoldable pub notifies : ℕ → List (PlanBlock S) → Bool
  notifies planned [] = false
  notifies planned (b ∷ []) = false
  notifies planned (b ∷ c ∷ bs) = at_tail planned

  unfoldable pub planner_recalculate : Plan S → Plan S
  planner_recalculate p = record p {
    blocks = (plan_from p.prep p.planned p.planned p.blocks).0;
    planned = (plan_from p.prep p.planned p.planned p.blocks).1;
    prep = if notifies p.planned p.blocks then update_prep p.prep else p.prep;
  }

  unfoldable pub update_first : Prep S → List (PlanBlock S) → List (PlanBlock S)
  update_first prep [] = []
  update_first prep (b ∷ bs) = update_tail prep b ∷ bs

  -- With the block `tail` under way, which the function assumes to exist, and `later` behind it. The
  -- rest of the plan is that of `p`.
  unfoldable pub plan_cycle_reinitialize : PlanBlock S → List (PlanBlock S) → Plan S → Plan S
  plan_cycle_reinitialize tail later p = planner_recalculate (record p {
    blocks = update_tail p.prep tail ∷ later;
    planned = 0;
    prep = update_prep p.prep;
  })

  -- The speed that plan_compute_profile_nominal_speed computes, at the rapid and feed overrides in
  -- percent, and compares with the minimum.
  unfoldable pub speed_before_minimum : ℕ → ℕ → PlanBlock S → S
  speed_before_minimum r_override f_override b =
      let fed : S =
        if bit_istrue b.condition pl_cond_flag_no_feed_override
        then b.programmed_rate
        else o.scale b.programmed_rate f_override in
      if bit_istrue b.condition pl_cond_flag_rapid_motion
      then o.scale b.programmed_rate r_override
      else if o.less b.rapid_rate fed
      then b.rapid_rate
      else fed

  -- plan_compute_profile_nominal_speed
  unfoldable pub nominal_speed : ℕ → ℕ → PlanBlock S → S
  nominal_speed r_override f_override b =
      let speed : S = speed_before_minimum r_override f_override b in
      if o.less o.minimum_feed_rate speed then speed else o.minimum_feed_rate

  -- plan_compute_profile_parameters
  unfoldable pub profile_parameters : S → S → PlanBlock S → PlanBlock S
  profile_parameters nominal prev_nominal b =
      let entry : S =
        if o.less prev_nominal nominal
        then o.multiply prev_nominal prev_nominal
        else o.multiply nominal nominal in
      record b {
        max_entry_speed_sqr =
            if o.less b.max_junction_speed_sqr entry then b.max_junction_speed_sqr else entry;
      }

  -- The loop of plan_update_velocity_profile_parameters, from a previous nominal speed on.
  unfoldable pub update_profiles : ℕ → ℕ → S → List (PlanBlock S) → List (PlanBlock S) × S
  update_profiles r_override f_override prev [] = ([], prev)
  update_profiles r_override f_override prev (b ∷ bs) =
      let speed : S = nominal_speed r_override f_override b in
      let rest = update_profiles r_override f_override speed bs in
      (profile_parameters speed prev b ∷ rest.0, rest.1)

  unfoldable pub plan_update_velocity_profile_parameters : ℕ → ℕ → Plan S → Plan S
  plan_update_velocity_profile_parameters r_override f_override p = record p {
    blocks = (update_profiles r_override f_override o.some_large_value p.blocks).0;
    previous_nominal_speed = (update_profiles r_override f_override o.some_large_value p.blocks).1;
  }
