-- ===== src/Stepper/Tracer.antt =====
-- One axis of the Bresenham line tracer in TIMER1_COMPA_vect (stepper.c, lines 478 to 514). The
-- three axes run the same code on counter_x, counter_y and counter_z.
use zephyr_grbl.Prelude.{ltb, if◌then◌else◌, ℕ, ◌+◌, ◌-◌, ◌%◌, ◌^◌, Bool, true, false}

-- A uint32_t, and the two's complement of an int32_t.
abbrev pub word : ℕ → ℕ
word n = n % 2 ^ 32

pub record Axis : Type 0 where
  -- st.counter_x
  pub counter : ℕ
  -- st.steps[X_AXIS]
  pub steps : ℕ
  -- sys_position[X_AXIS]
  pub position : ℕ

-- sys_position[X_AXIS]-- and sys_position[X_AXIS]++
abbrev pub move : Bool → ℕ → ℕ
move true p = word (p + (2 ^ 32 - 1))
move false p = word (p + 1)

-- The counter is advanced; past step_event_count the axis steps, one way or the other. The Boolean
-- is the axis's bit of step_outbits.
unfoldable pub axis_step : ℕ → Bool → Axis → Bool × Axis
axis_step step_event_count backward a =
    let counter : ℕ = word (a.counter + a.steps) in
    if ltb step_event_count counter
    then (
      true,
      record a {
        counter = word (counter + (2 ^ 32 - step_event_count));
        position = move backward a.position;
      },
    )
    else (false, record a { counter = counter })
