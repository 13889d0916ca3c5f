-- ===== src/Stepper/Defs.antt =====
-- The state of the stepper driver interrupt (stepper.c, lines 61 to 153).
use zephyr_grbl.Prelude.{ℕ, Bool, true, false, not, Option, List}
use zephyr_grbl.Flags.{Byte, zero_byte, bit}
use zephyr_grbl.Stepper.Tracer.{Axis}

-- st_block_t
pub record Block : Type 0 where
  pub steps_x : ℕ
  pub steps_y : ℕ
  pub steps_z : ℕ
  pub step_event_count : ℕ
  pub direction_bits : Byte

-- segment_t; periodUs is not read by the interrupt.
pub record Segment : Type 0 where
  pub n_step : ℕ
  pub st_block_index : ℕ
  pub amass_level : ℕ

-- A call or an output of the interrupt.
pub data Output : Type 0 where
  pin_dir_x pin_dir_y pin_step_x pin_step_y : Bool → Output
  set_servo_position_steps : ℕ → Output
  probe_state_monitor st_go_idle set_cycle_stop : Output

-- stepper_t, the segment ring, the masks, the interrupt's static variables, the part of the system
-- state that it reads, and its outputs, latest first. `exec_segment` is none for NULL; the
-- interrupt reads the segment only when it loads it. `exec_block` is the index of the block pointed
-- to.
pub record Stepper : Type 0 where
  pub x : Axis
  pub y : Axis
  pub z : Axis
  pub step_outbits : Byte
  pub dir_outbits : Byte
  pub step_count : ℕ
  pub exec_block_index : ℕ
  pub exec_block : ℕ
  pub exec_segment : Option Segment
  pub segment_buffer : List Segment
  pub st_block_buffer : List Block
  pub segment_buffer_tail : ℕ
  pub segment_buffer_head : ℕ
  pub step_port_invert_mask : Byte
  pub dir_port_invert_mask : Byte
  pub busy : Bool
  pub step_state_x : Bool
  pub step_state_y : Bool
  pub last_sys_position_z : ℕ
  pub probe_active : Bool
  pub homing : Bool
  pub homing_axis_lock : Byte
  pub outputs : List Output

abbrev pub segment_buffer_size : ℕ
segment_buffer_size = 6

-- (1<<X_STEP_BIT) to (1<<Z_DIRECTION_BIT)
abbrev pub x_step : Byte
x_step = bit 2

abbrev pub y_step : Byte
y_step = bit 3

abbrev pub z_step : Byte
z_step = bit 4

abbrev pub x_direction : Byte
x_direction = bit 5

abbrev pub y_direction : Byte
y_direction = bit 6

abbrev pub z_direction : Byte
z_direction = bit 7

abbrev pub differ : Bool → Bool → Bool
differ true b = not b
differ false b = b

-- x ^ mask
abbrev pub bxor : Byte → Byte → Byte
bxor x m = record {
  b0 = differ x.b0 m.b0;
  b1 = differ x.b1 m.b1;
  b2 = differ x.b2 m.b2;
  b3 = differ x.b3 m.b3;
  b4 = differ x.b4 m.b4;
  b5 = differ x.b5 m.b5;
  b6 = differ x.b6 m.b6;
  b7 = differ x.b7 m.b7;
}

-- What an index outside of the buffers would read; the code never does.
abbrev pub no_block : Block
no_block = record {
  steps_x = 0;
  steps_y = 0;
  steps_z = 0;
  step_event_count = 0;
  direction_bits = zero_byte;
}

abbrev pub no_segment : Segment
no_segment = record { n_step = 0; st_block_index = 0; amass_level = 0 }
