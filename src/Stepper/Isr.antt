-- ===== src/Stepper/Isr.antt =====
-- TIMER1_COMPA_vect, whole (stepper.c, lines 343 to 544), with the options of config.h and
-- defaults.h: step smoothing (AMASS), a servo for the Z axis, no dual axis, no pulse delay.
use zephyr_grbl.Prelude.{
  ◌==◌, if◌then◌else◌, get_or, ℕ, suc, ◌+◌, ◌-◌, ◌/◌, ◌%◌, ◌^◌, Bool, true, false, not, Option,
  none, some, ◌∷◌,
}
use zephyr_grbl.Flags.{Byte, zero_byte, ◌bor◌, ◌band◌, bit_istrue}
use zephyr_grbl.Stepper.Tracer.{Axis, axis_step}
use zephyr_grbl.Stepper.Defs.{
  Block, Segment, Output, Stepper, segment_buffer_size, x_step, y_step, z_step, x_direction,
  y_direction, z_direction, bxor, no_block, no_segment, pin_dir_x, pin_dir_y, pin_step_x,
  pin_step_y, set_servo_position_steps, probe_state_monitor, st_go_idle, set_cycle_stop,
}

abbrev output : Output → Stepper → Stepper
output o s = record s { outputs = o ∷ s.outputs }

-- The block that st.exec_block points to.
abbrev pub block_of : Stepper → Block
block_of s = get_or s.st_block_buffer s.exec_block no_block

-- Lines 349 to 378: the direction pins, then an edge on each step pin whose bit is set.
unfoldable pub drive_pins : Stepper → Stepper
drive_pins s =
    let s1 : Stepper =
      output (pin_dir_y (bit_istrue s.dir_outbits y_direction))
        (output (pin_dir_x (bit_istrue s.dir_outbits x_direction)) s) in
    let s2 : Stepper =
      if bit_istrue s1.step_outbits x_step
      then output (pin_step_x s1.step_state_x) (record s1 { step_state_x = not s1.step_state_x })
      else s1 in
    if bit_istrue s2.step_outbits y_step
    then output (pin_step_y s2.step_state_y) (record s2 { step_state_y = not s2.step_state_y })
    else s2

abbrev with_counter : ℕ → Axis → Axis
with_counter n a = record a { counter = n }

abbrev with_steps : ℕ → Axis → Axis
with_steps n a = record a { steps = n }

-- Lines 429 to 435: a segment of another block than the last one starts that block.
abbrev pub enter_block : ℕ → Stepper → Stepper
enter_block index s =
    let half : ℕ = (get_or s.st_block_buffer index no_block).step_event_count / 2 in
    record s {
      exec_block_index = index;
      exec_block = index;
      x = with_counter half s.x;
      y = with_counter half s.y;
      z = with_counter half s.z;
    }

unfoldable pub start_block : Segment → Stepper → Stepper
start_block g s =
    if s.exec_block_index == g.st_block_index then s else enter_block g.st_block_index s

-- Lines 407 to 446.
unfoldable pub load_segment : Stepper → Stepper
load_segment s =
    let g : Segment = get_or s.segment_buffer s.segment_buffer_tail no_segment in
    let s1 : Stepper = start_block g (record s { exec_segment = some g; step_count = g.n_step }) in
    let b : Block = block_of s1 in
    record s1 {
      dir_outbits = bxor b.direction_bits s1.dir_port_invert_mask;
      x = with_steps (b.steps_x / 2 ^ g.amass_level) s1.x;
      y = with_steps (b.steps_y / 2 ^ g.amass_level) s1.y;
      z = with_steps (b.steps_z / 2 ^ g.amass_level) s1.z;
    }

abbrev bit_if : Bool → Byte → Byte
bit_if true m = m
bit_if false m = zero_byte

-- Line 467.
unfoldable pub monitor_probe : Stepper → Stepper
monitor_probe s = record s {
  outputs = if s.probe_active then probe_state_monitor ∷ s.outputs else s.outputs;
}

-- Lines 469 to 514.
unfoldable pub trace_axes : Stepper → Stepper
trace_axes s =
    let b : Block = block_of s in
    let x' = axis_step b.step_event_count (bit_istrue b.direction_bits x_direction) s.x in
    let y' = axis_step b.step_event_count (bit_istrue b.direction_bits y_direction) s.y in
    let z' = axis_step b.step_event_count (bit_istrue b.direction_bits z_direction) s.z in
    record s {
      x = x'.1;
      y = y'.1;
      z = z'.1;
      step_outbits = bit_if x'.0 x_step bor bit_if y'.0 y_step bor bit_if z'.0 z_step;
    }

-- Lines 516 to 523: the servo follows the Z position.
unfoldable pub follow_servo : Stepper → Stepper
follow_servo s =
    if s.z.position == s.last_sys_position_z
    then s
    else output (set_servo_position_steps s.z.position)
        (record s { last_sys_position_z = s.z.position })

-- Lines 525 to 531.
unfoldable pub lock_axes : Stepper → Stepper
lock_axes s =
    if s.homing then record s { step_outbits = s.step_outbits band s.homing_axis_lock } else s

-- Lines 533 to 538, on a uint16_t.
unfoldable pub count_step : Stepper → Stepper
count_step s =
    let n : ℕ = (s.step_count + (2 ^ 16 - 1)) % 2 ^ 16 in
    if n == 0
    then record s {
      step_count = n;
      exec_segment = none;
      segment_buffer_tail =
          if suc s.segment_buffer_tail == segment_buffer_size then 0 else suc s.segment_buffer_tail;
    }
    else record s { step_count = n }

-- Lines 466 to 544.
unfoldable pub execute_step : Stepper → Stepper
execute_step s =
    let s1 : Stepper = count_step (lock_axes (follow_servo (trace_axes (monitor_probe s)))) in
    record s1 { step_outbits = bxor s1.step_outbits s1.step_port_invert_mask; busy = false }

-- Lines 453 to 462: nothing to execute. st_go_idle clears the busy flag.
unfoldable pub shut_down : Stepper → Stepper
shut_down s = output set_cycle_stop (output st_go_idle (record s { busy = false }))

abbrev pub has_segment : Option Segment → Bool
has_segment none = false
has_segment (some g) = true

-- Lines 404 to 544, after the pins: a step of the segment, or of the next one, if there is any.
unfoldable pub next_step : Stepper → Stepper
next_step s =
    if has_segment s.exec_segment
    then execute_step s
    else if s.segment_buffer_head == s.segment_buffer_tail
    then shut_down s
    else execute_step (load_segment s)

-- The interrupt.
unfoldable pub timer1_compa_vect : Stepper → Stepper
timer1_compa_vect s = if s.busy then s else next_step (record (drive_pins s) { busy = true })
