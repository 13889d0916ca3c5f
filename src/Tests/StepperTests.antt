-- ===== src/Tests/StepperTests.antt =====
-- A block of four step events at the second smoothing level, along X and half as far back along Y.
use zephyr_grbl.Prelude.{ℕ, ◌≡◌, refl, true, false, none, [], ◌∷◌, arith}
use zephyr_grbl.Flags.{zero_byte}
use zephyr_grbl.Stepper.{Axis, Block, Segment, Stepper, y_direction}
use zephyr_grbl.Stepper.Pulses.{IsTracing}
use zephyr_grbl.Stepper.Segments.{interrupts, axis_y}
use zephyr_grbl.Stepper.Loads.{IsWaiting}
use zephyr_grbl.Stepper.Moves.{
  IsTraceable, IsMoved, position_of, interrupts-position, interrupts-segment,
}

abbrev block : Block
block = record {
  steps_x = 32;
  steps_y = 16;
  steps_z = 0;
  step_event_count = 32;
  direction_bits = y_direction;
}

abbrev segment : Segment
segment = record { n_step = 16; st_block_index = 1; amass_level = 2 }

abbrev at_rest : ℕ → Axis
at_rest p = record { counter = 0; steps = 0; position = p }

abbrev waiting : Stepper
waiting = record {
  x = at_rest 100;
  y = at_rest 100;
  z = at_rest 0;
  step_outbits = zero_byte;
  dir_outbits = zero_byte;
  step_count = 0;
  exec_block_index = 0;
  exec_block = 0;
  exec_segment = none;
  segment_buffer = segment ∷ [];
  st_block_buffer = block ∷ block ∷ [];
  segment_buffer_tail = 0;
  segment_buffer_head = 1;
  step_port_invert_mask = zero_byte;
  dir_port_invert_mask = zero_byte;
  busy = false;
  step_state_x = false;
  step_state_y = false;
  last_sys_position_z = 0;
  probe_active = false;
  homing = false;
  homing_axis_lock = zero_byte;
  outputs = [];
}

waiting-IsWaiting : IsWaiting segment block waiting
waiting-IsWaiting = record {
  idle = refl;
  finished = refl;
  nonempty = refl;
  segment = refl;
  block = refl;
  new = refl;
}

block-IsTraceable : IsTraceable segment block axis_y
block-IsTraceable = record { events = omega arith; room = omega arith; rate = omega arith }

-- Two steps back.
interrupts-position_example : IsMoved true 2 100 (position_of axis_y (interrupts 16 waiting))
interrupts-position_example =
    interrupts-position 15 2 segment block waiting axis_y waiting-IsWaiting refl (omega arith)
      block-IsTraceable refl (omega arith)

interrupts-segment_example :
    ((interrupts 16 waiting).exec_segment ≡ none)
    × ((interrupts 16 waiting).segment_buffer_tail ≡ 1)
    × ((interrupts 16 waiting).busy ≡ false)
interrupts-segment_example =
    interrupts-segment 15 segment block waiting waiting-IsWaiting refl (omega arith)

abbrev axis : Axis
axis = record { counter = 16; steps = 4; position = 100 }

axis-IsTracing : IsTracing 32 axis
axis-IsTracing = omega arith

-- $2=1 and $3=2: the step pin of X and the direction pin of Y.
