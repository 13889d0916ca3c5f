-- ===== src/Tests/PlanTests.antt =====
-- The planned speeds at concrete inputs: whole numbers for the floats and for the steps.
use native.Mathlib.Nat.{mul-le-mul_left, mul-le-mul_right}
use zephyr_grbl.Prelude.{
  ltb, leb, ◌==◌, if◌then◌else◌, ℕ, ◌+◌, ◌-◌, ◌*◌, ◌/◌, ◌≤◌, ◌≡◌, refl, true, false, [], ◌∷◌, arith,
}
use zephyr_grbl.Flags.{zero_byte}
use zephyr_grbl.Gcode.{Vec}
use zephyr_grbl.Planner.Speeds.{
  Speeds, PlanBlock, Plan, update_tail, plan_last, plan_back, plan_behind, reverse_pass,
  falls_short, plan_ahead, forward_pass, plan_passes, plan_from, notifies, planner_recalculate,
  update_first, plan_update_velocity_profile_parameters,
}
use zephyr_grbl.Planner.Feasible.{IsLawful, entries, AtMost}
use zephyr_grbl.Planner.Fastest.{}
use zephyr_grbl.Planner.Optimal.{planner_recalculate-optimal}
use zephyr_grbl.Planner.Line.{
  StepMath, StepScale, PlanLineData, Planner, target_position, plan_buffer_line,
}
use zephyr_grbl.Planner.Vectors.{LineMath}
use zephyr_grbl.Planner.Moves.{IsSound, IsLawfulMath}
use zephyr_grbl.Planner.Queued.{Keeps, plan_buffer_line-IsSound}
use zephyr_grbl.Planner.Profiles.{Limited, plan_update_velocity_profile_parameters-Limited}

instance abbrev whole_speeds : Speeds ℕ
whole_speeds = record {
  add = λ a b. a + b;
  multiply = λ a b. a * b;
  less = ltb;
  equal = λ a b. a == b;
  scale = λ a percent. a * percent / 100;
  nothing = 0;
  two = 2;
  minimum_feed_rate = 1;
  some_large_value = 1000000;
}

abbrev same_axes : ℕ → Vec ℕ
same_axes a = record { x = a; y = a; z = a }

-- A root that is right at 0, 1 and 100.
abbrev rough_root : ℕ → ℕ
rough_root a = if leb 100 a then 10 else a

instance abbrev whole_math : LineMath ℕ
whole_math = record {
  subtract = λ a b. a - b;
  divide = λ a b. if b == 0 then 1000000 else a / b;
  sqrt = rough_root;
  fabs = λ a. a;
  half = 1;
  one = 1;
  acute = 1000000;
  straight = 0;
  minimum_junction_speed = 0;
  acceleration_setting = same_axes 5;
  max_rate_setting = same_axes 30;
  junction_deviation = 1;
}

instance abbrev whole_steps : StepMath ℕ
whole_steps = record {
  no_steps = 0;
  add_steps = λ a b. a + b;
  subtract_steps = λ a b. a - b;
  halve = λ a. a / 2;
  labs = λ a. a;
}

instance abbrev one_step_per_mm : StepScale ℕ ℕ
one_step_per_mm = record { to_steps = λ idx a. a; to_mm = λ idx a. a }

whole_speeds-IsLawful : IsLawful whole_speeds
whole_speeds-IsLawful = record {
  asymmetric = λ a b h. ground arith;
  le_trans = λ a b c h g. ground arith;
  ge_of_equal = λ a b h. ground arith;
  add_monotone = λ a b d h. ground arith;
  le_add = λ a d h. ground arith;
  le_add_left = λ a d h. ground arith;
}

whole_math-IsLawfulMath : IsLawfulMath whole_speeds whole_math
whole_math-IsLawfulMath = record {
  square_nonneg = λ a. ground arith;
  product_nonneg = λ a b h g. ground arith;
  fabs_nonneg = λ a. ground arith;
  sqrt_nonneg = λ a h. ground arith;
  two_nonneg = refl;
  large_nonneg = refl;
}

abbrev whole_block : ℕ → ℕ → PlanBlock ℕ
whole_block entry limit = record {
  steps = same_axes 10;
  step_event_count = 10;
  direction_bits = zero_byte;
  condition = zero_byte;
  entry_speed_sqr = entry;
  max_entry_speed_sqr = limit;
  acceleration = 5;
  millimeters = 10;
  max_junction_speed_sqr = 500;
  rapid_rate = 30;
  programmed_rate = 20;
}

-- A block under way, which the stepper has brought to a speed of 5, and two that wait.
abbrev running_plan : Plan ℕ
running_plan = record {
  blocks = whole_block 0 0 ∷ whole_block 0 400 ∷ whole_block 0 400 ∷ [];
  planned = 0;
  previous_nominal_speed = 20;
  prep = record { loaded = true; current_speed = 5; recalculate = false };
}

-- The tail is at the square of 5; the second block is entered as fast as the first can accelerate,
-- and the third as fast as it can stop.
running_plan_recalculated : entries (planner_recalculate running_plan).blocks ≡ 25 ∷ 125 ∷ 100 ∷ []
unfolding planner_recalculate plan_from plan_passes notifies reverse_pass plan_behind plan_back
    plan_last forward_pass plan_ahead falls_short update_tail
running_plan_recalculated = refl

running_plan-IsSound : IsSound running_plan
running_plan-IsSound = record {
  brakes = (refl, (refl, (refl, tt)));
  running = (refl, refl, (refl, refl, refl, (refl, refl)));
  at_rest = (refl, refl, refl, (refl, refl, refl, (refl, refl)));
  moving = (refl, (refl, (refl, tt)));
  settled = refl;
}

planner_recalculate-optimal_example :
    AtMost (25 ∷ 120 ∷ 50 ∷ []) (planner_recalculate running_plan).blocks
unfolding notifies update_first update_tail
planner_recalculate-optimal_example =
    planner_recalculate-optimal whole_speeds-IsLawful running_plan 25 (120 ∷ 50 ∷ [])
      (refl, (refl, (refl, tt))) refl (refl, refl, (refl, refl, refl, (refl, refl))) refl

abbrev whole_planner : Planner ℕ ℕ
whole_planner = record {
  plan = running_plan;
  position = same_axes 0;
  previous_unit_vec = same_axes 0;
}

abbrev slow_feed : PlanLineData ℕ
slow_feed = record { feed_rate = 20; spindle_speed = 0; line_condition = zero_byte }

abbrev along_x : Vec ℕ
along_x = record { x = 10; y = 0; z = 0 }

plan_buffer_line-IsSound_example :
    Keeps
      (target_position one_step_per_mm along_x)
      (plan_buffer_line 100 100 (same_axes 0) along_x slow_feed whole_planner)
unfolding update_first update_tail
plan_buffer_line-IsSound_example =
    plan_buffer_line-IsSound whole_speeds-IsLawful whole_math-IsLawfulMath 100 100 (same_axes 0)
      along_x slow_feed whole_planner running_plan-IsSound
      (refl, refl, (refl, refl, refl, (refl, refl)))

square_monotone : (a b : ℕ) → ltb a 0 ≡ false → ltb b a ≡ false → ltb (b * b) (a * a) ≡ false
square_monotone a b h g =
    let le : a ≤ b = ground arith in ground (arith, mul-le-mul_left b le, mul-le-mul_right a le)

plan_update_velocity_profile_parameters-Limited_example :
    Limited 100 50 1000000 (plan_update_velocity_profile_parameters 100 50 running_plan).blocks
plan_update_velocity_profile_parameters-Limited_example =
    plan_update_velocity_profile_parameters-Limited whole_speeds-IsLawful square_monotone refl 100
      50 running_plan refl
