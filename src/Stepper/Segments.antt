-- ===== src/Stepper/Segments.antt =====
-- A whole segment: the interrupts that execute it, from the one that takes it out of the ring.
use zephyr_grbl.Prelude.{
  ◌==◌, if◌then◌else◌, ℕ, zero, suc, ◌+◌, ◌-◌, ◌%◌, ◌^◌, ◌<◌, ◌≡◌, refl, ap, ◌∙◌, Bool, true, false,
  none, some, arith,
}
use zephyr_grbl.Flags.{bit_istrue}
use zephyr_grbl.Stepper.Tracer.{Axis, axis_step}
use zephyr_grbl.Stepper.Defs.{
  Segment, Stepper, segment_buffer_size, x_direction, y_direction, z_direction,
}
use zephyr_grbl.Stepper.Isr.{
  block_of, drive_pins, load_segment, monitor_probe, trace_axes, follow_servo, lock_axes,
  count_step, execute_step, shut_down, has_segment, next_step, timer1_compa_vect,
}
use zephyr_grbl.Stepper.Pulses.{}

pub data AxisName : Type 0 where
  axis_x axis_y axis_z : AxisName

abbrev pub axis_of : AxisName → Stepper → Axis
axis_of axis_x s = s.x
axis_of axis_y s = s.y
axis_of axis_z s = s.z

-- The direction of an axis in the block that is executed: true for backward.
abbrev pub backward : AxisName → Stepper → Bool
backward axis_x s = bit_istrue (block_of s).direction_bits x_direction
backward axis_y s = bit_istrue (block_of s).direction_bits y_direction
backward axis_z s = bit_istrue (block_of s).direction_bits z_direction

abbrev pub events : Stepper → ℕ
events s = (block_of s).step_event_count

unfoldable pub interrupts : ℕ → Stepper → Stepper
interrupts zero s = s
interrupts (suc k) s = interrupts k (timer1_compa_vect s)

-- What a step leaves alone: the ring, the blocks and the block that is executed.
pub record Same (s t : Stepper) : Type 0 where
  pub block : t.exec_block ≡ s.exec_block
  pub block_index : t.exec_block_index ≡ s.exec_block_index
  pub segments : t.segment_buffer ≡ s.segment_buffer
  pub blocks : t.st_block_buffer ≡ s.st_block_buffer
  pub head : t.segment_buffer_head ≡ s.segment_buffer_head
  pub x : t.x ≡ s.x
  pub y : t.y ≡ s.y
  pub z : t.z ≡ s.z
  pub count : t.step_count ≡ s.step_count
  pub segment : t.exec_segment ≡ s.exec_segment
  pub tail : t.segment_buffer_tail ≡ s.segment_buffer_tail

pub drive_pins-Same : (s : Stepper) → Same s (drive_pins s)
unfolding drive_pins
drive_pins-Same s = ground arith

follow_servo-Same : (s : Stepper) → Same s (follow_servo s)
unfolding follow_servo
follow_servo-Same s = ground arith

lock_axes-Same : (s : Stepper) → Same s (lock_axes s)
unfolding lock_axes
lock_axes-Same s = ground arith

abbrev pub next_tail : ℕ → ℕ
next_tail i = if suc i == segment_buffer_size then 0 else suc i

-- What one step does to a state whose segment has `n` steps to go.
pub record Stepped (n : ℕ) (s t : Stepper) : Type 0 where
  pub block : t.exec_block ≡ s.exec_block
  pub blocks : t.st_block_buffer ≡ s.st_block_buffer
  pub x : t.x ≡ (axis_step (events s) (backward axis_x s) s.x).1
  pub y : t.y ≡ (axis_step (events s) (backward axis_y s) s.y).1
  pub z : t.z ≡ (axis_step (events s) (backward axis_z s) s.z).1
  pub idle : t.busy ≡ false
  pub count : t.step_count ≡ n - 1
  pub segment : t.exec_segment ≡ (if n == 1 then none else s.exec_segment)
  pub tail :
      t.segment_buffer_tail
      ≡ (if n == 1 then next_tail s.segment_buffer_tail else s.segment_buffer_tail)

count_step-Stepped :
    (n : ℕ) (s : Stepper)
    → s.step_count ≡ n
    → 0 < n
    → n < 2 ^ 16
    → ((count_step s).step_count ≡ n - 1)
      × ((count_step s).exec_segment ≡ (if n == 1 then none else s.exec_segment))
      × ((count_step s).segment_buffer_tail
          ≡ (if n == 1 then next_tail s.segment_buffer_tail else s.segment_buffer_tail))
unfolding count_step
count_step-Stepped n s e p b =
    let m : (s.step_count + (2 ^ 16 - 1)) % 2 ^ 16 ≡ n - 1 = ground arith in
    let t : ((n - 1) == 0) ≡ (n == 1) = ground arith in
    rw (m, t) (ground arith, ground arith, ground arith)

count_step-rest :
    (s : Stepper)
    → ((count_step s).x ≡ s.x)
      × ((count_step s).y ≡ s.y)
      × ((count_step s).z ≡ s.z)
      × ((count_step s).exec_block ≡ s.exec_block)
      × ((count_step s).st_block_buffer ≡ s.st_block_buffer)
unfolding count_step
count_step-rest s = ground arith

-- The tracer moves the axes and nothing else.
record Traced (s t : Stepper) : Type 0 where
  block : t.exec_block ≡ s.exec_block
  blocks : t.st_block_buffer ≡ s.st_block_buffer
  x : t.x ≡ (axis_step (events s) (backward axis_x s) s.x).1
  y : t.y ≡ (axis_step (events s) (backward axis_y s) s.y).1
  z : t.z ≡ (axis_step (events s) (backward axis_z s) s.z).1
  count : t.step_count ≡ s.step_count
  segment : t.exec_segment ≡ s.exec_segment
  tail : t.segment_buffer_tail ≡ s.segment_buffer_tail

trace_axes-Traced : (s : Stepper) → Traced s (trace_axes (monitor_probe s))
unfolding trace_axes monitor_probe
trace_axes-Traced s = record {
  block = refl;
  blocks = refl;
  x = refl;
  y = refl;
  z = refl;
  count = refl;
  segment = refl;
  tail = refl;
}

pub execute_step-Stepped :
    (n : ℕ) (s : Stepper) → s.step_count ≡ n → 0 < n → n < 2 ^ 16 → Stepped n s (execute_step s)
unfolding execute_step
execute_step-Stepped n s e p b =
    let s2 : Stepper = trace_axes (monitor_probe s) in
    let s3 : Stepper = follow_servo s2 in
    let s4 : Stepper = lock_axes s3 in
    let trace = trace_axes-Traced s in
    let servo = follow_servo-Same s2 in
    let lock = lock_axes-Same s3 in
    let done = count_step-Stepped n s4 (lock.count ∙ servo.count ∙ trace.count ∙ e) p b in
    let rest = count_step-rest s4 in
    record {
      block = rest.3 ∙ lock.block ∙ servo.block ∙ trace.block;
      blocks = rest.4 ∙ lock.blocks ∙ servo.blocks ∙ trace.blocks;
      x = rest.0 ∙ lock.x ∙ servo.x ∙ trace.x;
      y = rest.1 ∙ lock.y ∙ servo.y ∙ trace.y;
      z = rest.2 ∙ lock.z ∙ servo.z ∙ trace.z;
      idle = refl;
      count = done.0;
      segment =
          done.1
          ∙ ap (λ g. if n == 1 then none else g) (lock.segment ∙ servo.segment ∙ trace.segment);
      tail =
          done.2
          ∙ ap (λ i. if n == 1 then next_tail i else i) (lock.tail ∙ servo.tail ∙ trace.tail);
    }

pub next_step-running :
    (s : Stepper) (g : Segment) → s.exec_segment ≡ some g → next_step s ≡ execute_step s
unfolding next_step
next_step-running s g e =
    ap
      (λ o.
        if has_segment o
        then execute_step s
        else if s.segment_buffer_head == s.segment_buffer_tail
        then shut_down s
        else execute_step (load_segment s))
      e

-- The state after the pins are driven.
unfoldable pub driven : Stepper → Stepper
driven s = record (drive_pins s) { busy = true }

pub timer1_compa_vect-idle :
    (s : Stepper) → s.busy ≡ false → timer1_compa_vect s ≡ next_step (driven s)
unfolding timer1_compa_vect driven
timer1_compa_vect-idle s i = ap (λ b. if b then s else next_step (driven s)) i

Stepped-driven : (n : ℕ) (s t : Stepper) → Stepped n (driven s) t → Stepped n s t
unfolding driven
Stepped-driven n s t h =
    let pins = drive_pins-Same s in
    record {
      block = h.block ∙ pins.block;
      blocks = h.blocks ∙ pins.blocks;
      x = h.x ∙ rw (pins.x, pins.block, pins.blocks) refl;
      y = h.y ∙ rw (pins.y, pins.block, pins.blocks) refl;
      z = h.z ∙ rw (pins.z, pins.block, pins.blocks) refl;
      idle = h.idle;
      count = h.count;
      segment = h.segment ∙ rw pins.segment refl;
      tail = h.tail ∙ rw pins.tail refl;
    }

-- An interrupt during a segment is one step of it.
pub interrupt-Stepped :
    (n : ℕ) (s : Stepper) (g : Segment)
    → s.busy ≡ false
    → s.exec_segment ≡ some g
    → s.step_count ≡ n
    → 0 < n
    → n < 2 ^ 16
    → Stepped n s (timer1_compa_vect s)
unfolding driven
interrupt-Stepped n s g i e c p b =
    let pins = drive_pins-Same s in
    let done = execute_step-Stepped n (driven s) (pins.count ∙ c) p b in
    let path = timer1_compa_vect-idle s i ∙ next_step-running (driven s) g (pins.segment ∙ e) in
    rw path (Stepped-driven n s _ done)
