-- ===== src/Planner/Line.antt =====
-- plan_buffer_line (planner.c), for a CoreXY
-- machine (config.h defines COREXY): A_MOTOR and B_MOTOR are the axes X and Y. What the function does
-- with step positions and settings goes through `LineMath`.
use zephyr_grbl.Prelude.{
  ◌==◌, if◌then◌else◌, ℕ, ◌-◌, max, Bool, true, false, ◌||◌, List, [], ◌∷◌, ◌++◌,
}
use zephyr_grbl.Flags.{Byte, zero_byte, bit, ◌bor◌, bit_istrue}
use zephyr_grbl.Gcode.{Vec}
use zephyr_grbl.Stepper.PinMasks.{get_direction_pin_mask}
use zephyr_grbl.Planner.Speeds.{
  Speeds, PlanBlock, pl_cond_flag_rapid_motion, Prep, Plan, planner_recalculate, nominal_speed,
  profile_parameters,
}
use zephyr_grbl.Planner.Vectors.{
  LineMath, convert_delta_vector_to_unit_vector, limit_value_by_axis_maximum, max_junction_speed,
}

-- Positions in steps (int32_t): 0, a+b, a-b, a/2 and labs(a).
pub record StepMath (P : Type 0) : Type 0 where
  pub no_steps : P
  pub add_steps : P → P → P
  pub subtract_steps : P → P → P
  pub halve : P → P
  pub labs : P → ℕ

-- lround(target*settings.steps_per_mm[idx]) and steps/settings.steps_per_mm[idx]
pub record StepScale (S P : Type 0) : Type 0 where
  pub to_steps : ℕ → S → P
  pub to_mm : ℕ → P → S

abbrev pub pl_cond_flag_system_motion : Byte
pl_cond_flag_system_motion = bit 1

abbrev pub pl_cond_flag_inverse_time : Byte
pl_cond_flag_inverse_time = bit 3

-- plan_line_data_t
pub record PlanLineData (S : Type 0) : Type 0 where
  pub feed_rate : S
  pub spindle_speed : S
  pub line_condition : Byte

-- The blocks and planner_t
pub record Planner (S P : Type 0) : Type 0 where
  pub plan : Plan S
  pub position : Vec P
  pub previous_unit_vec : Vec S

-- What plan_buffer_line does: PLAN_EMPTY_BLOCK, a system motion in the unused slot at the head, or a
-- block in the buffer.
pub data Planned (S P : Type 0) : Type 0 where
  empty_block : Planned S P
  system_block : PlanBlock S → Planned S P
  queued : Planner S P → Planned S P

module _ {P : Type 0} ⦃ints : StepMath P⦄ where
  -- system_convert_corexy_to_x_axis_steps and system_convert_corexy_to_y_axis_steps, on sys_position
  unfoldable pub system_convert_corexy : Vec P → Vec P
  system_convert_corexy steps = record steps {
    x = ints.halve (ints.add_steps steps.x steps.y);
    y = ints.halve (ints.subtract_steps steps.x steps.y);
  }

  -- The way of the two motors and of Z from `start` to `target_steps`.
  unfoldable pub motor_steps : Vec P → Vec P → Vec P
  motor_steps start target_steps =
      let dx : P = ints.subtract_steps target_steps.x start.x in
      let dy : P = ints.subtract_steps target_steps.y start.y in
      record {
        x = ints.add_steps dx dy;
        y = ints.subtract_steps dx dy;
        z = ints.subtract_steps target_steps.z start.z;
      }

module _ {S : Type 0} where
  unfoldable pub is_empty : List (PlanBlock S) → Bool
  is_empty [] = true
  is_empty (b ∷ bs) = false

  -- plan_discard_current_block, on the plan: the planned pointer moves with the tail.
  unfoldable pub discard_planned : Plan S → Plan S
  discard_planned p = record p {
    blocks = elim p.blocks [ [] ↦ [] | b ∷ bs ↦ bs ];
    planned = p.planned - 1;
  }

module _ {S : Type 0} ⦃o : Speeds S⦄ where
  -- The directions of the motors: bits that are set for a negative direction.
  unfoldable pub direction_bits_of : Vec S → Byte
  direction_bits_of delta =
      let mark : ℕ → S → Byte → Byte =
        λ idx d bits. if o.less d o.nothing then bits bor get_direction_pin_mask idx else bits in
      mark 2 delta.z (mark 1 delta.y (mark 0 delta.x zero_byte))

module _ {S P : Type 0} ⦃ints : StepMath P⦄ where
  -- plan_sync_position
  unfoldable pub plan_sync_position : Vec P → Planner S P → Planner S P
  unfolding system_convert_corexy
  plan_sync_position sys_position pl = record pl { position = system_convert_corexy sys_position }

-- plan_reset: `prep` is the stepper's.
unfoldable pub plan_reset : {S P : Type 0} ⦃o : Speeds S⦄ ⦃ints : StepMath P⦄ → Prep S → Planner S P
plan_reset ⦃o = o⦄ ⦃ints = ints⦄ prep = record {
  plan = record { blocks = []; planned = 0; previous_nominal_speed = o.nothing; prep = prep };
  position = record { x = ints.no_steps; y = ints.no_steps; z = ints.no_steps };
  previous_unit_vec = record { x = o.nothing; y = o.nothing; z = o.nothing };
}

module _ {S P : Type 0} ⦃o : Speeds S⦄ where
  -- The end of plan_buffer_line for a normal motion, at the rapid and feed overrides: the block's
  -- limit, the planner's memory of the move, the new head, and planner_recalculate.
  unfoldable pub queue_block : ℕ → ℕ → PlanBlock S → Vec S → Vec P → Planner S P → Planner S P
  queue_block r_override f_override block unit target_steps pl =
      let speed : S = nominal_speed r_override f_override block in
      record {
        plan = planner_recalculate (record pl.plan {
          blocks =
              pl.plan.blocks ++ profile_parameters speed pl.plan.previous_nominal_speed block ∷ [];
          previous_nominal_speed = speed;
        });
        position = target_steps;
        previous_unit_vec = unit;
      }

-- target_steps of plan_buffer_line
abbrev pub target_position : {S P : Type 0} → StepScale S P → Vec S → Vec P
target_position scaling target = record {
  x = scaling.to_steps 0 target.x;
  y = scaling.to_steps 1 target.y;
  z = scaling.to_steps 2 target.z;
}

module _ {S P : Type 0} ⦃o : Speeds S⦄ ⦃math : LineMath S⦄ ⦃ints : StepMath P⦄
    ⦃scaling : StepScale S P⦄ where
  -- The block for a move from `start` to `target_steps`, and its unit vector; `from_rest` if it is
  -- the first of the buffer, or a system motion.
  unfoldable pub new_block : PlanLineData S → Bool → Vec S → Vec P → Vec P → PlanBlock S × Vec S
  unfolding direction_bits_of motor_steps
  new_block pl_data from_rest previous_unit_vec start target_steps =
      let way : Vec P = motor_steps start target_steps in
      let steps : Vec ℕ = record {
        x = ints.labs way.x;
        y = ints.labs way.y;
        z = ints.labs way.z;
      } in
      let delta : Vec S = record {
        x = scaling.to_mm 0 way.x;
        y = scaling.to_mm 1 way.y;
        z = scaling.to_mm 2 way.z;
      } in
      let unit : Vec S = (convert_delta_vector_to_unit_vector delta).0 in
      let millimeters : S = (convert_delta_vector_to_unit_vector delta).1 in
      let rapid_rate : S = limit_value_by_axis_maximum math.max_rate_setting unit in
      (
        record {
          steps = steps;
          step_event_count = max (max (max 0 steps.x) steps.y) steps.z;
          direction_bits = direction_bits_of delta;
          condition = pl_data.line_condition;
          entry_speed_sqr = o.nothing;
          max_entry_speed_sqr = o.nothing;
          acceleration = limit_value_by_axis_maximum math.acceleration_setting unit;
          millimeters = millimeters;
          max_junction_speed_sqr =
              if from_rest then o.nothing else max_junction_speed previous_unit_vec unit;
          rapid_rate = rapid_rate;
          programmed_rate =
              if bit_istrue pl_data.line_condition pl_cond_flag_rapid_motion
              then rapid_rate
              else if bit_istrue pl_data.line_condition pl_cond_flag_inverse_time
              then o.multiply pl_data.feed_rate millimeters
              else pl_data.feed_rate;
        },
        unit,
      )

  -- plan_buffer_line, where `sys_position` is the machine's position and the buffer has room.
  unfoldable pub plan_buffer_line :
      ℕ → ℕ → Vec P → Vec S → PlanLineData S → Planner S P → Planned S P
  unfolding is_empty system_convert_corexy
  plan_buffer_line r_override f_override sys_position target pl_data pl =
      let system : Bool = bit_istrue pl_data.line_condition pl_cond_flag_system_motion in
      let start : Vec P = if system then system_convert_corexy sys_position else pl.position in
      let target_steps : Vec P = target_position scaling target in
      let made =
        new_block pl_data (is_empty pl.plan.blocks || system) pl.previous_unit_vec start
          target_steps in
      if made.0.step_event_count == 0
      then empty_block
      else if system
      then system_block made.0
      else queued (queue_block r_override f_override made.0 made.1 target_steps pl)
