-- ===== src/Stepper/Loads.antt =====
-- Loading a segment that starts a new block (load_segment).
use zephyr_grbl.Prelude.{
  ◌==◌, if◌then◌else◌, get_or, ℕ, ◌/◌, ◌^◌, ◌≡◌, refl, ap, ap₂, ◌∙◌, Bool, false, none, some,
}
use zephyr_grbl.Flags.{bit_istrue}
use zephyr_grbl.Stepper.Tracer.{Axis}
use zephyr_grbl.Stepper.Defs.{
  Block, Segment, Stepper, x_direction, y_direction, z_direction, bxor, no_block, no_segment,
}
use zephyr_grbl.Stepper.Isr.{block_of, enter_block, start_block, load_segment}
use zephyr_grbl.Stepper.Pulses.{}
use zephyr_grbl.Stepper.Segments.{
  AxisName, axis_of, drive_pins-Same, driven, axis_x, axis_y, axis_z,
}
use zephyr_grbl.Stepper.Runs.{}

abbrev pub block_steps : AxisName → Block → ℕ
block_steps axis_x b = b.steps_x
block_steps axis_y b = b.steps_y
block_steps axis_z b = b.steps_z

abbrev pub is_backward : AxisName → Block → Bool
is_backward axis_x b = bit_istrue b.direction_bits x_direction
is_backward axis_y b = bit_istrue b.direction_bits y_direction
is_backward axis_z b = bit_istrue b.direction_bits z_direction

-- The axis as the interrupt loads it for a new block.
abbrev pub loaded : Segment → Block → AxisName → Stepper → Axis
loaded g b i s = record (axis_of i s) {
  counter = b.step_event_count / 2;
  steps = block_steps i b / 2 ^ g.amass_level;
}

-- The state before the interrupt that takes segment g, which starts block b, out of the ring.
pub record IsWaiting (g : Segment) (b : Block) (s : Stepper) : Type 0 where
  pub idle : s.busy ≡ false
  pub finished : s.exec_segment ≡ none
  pub nonempty : (s.segment_buffer_head == s.segment_buffer_tail) ≡ false
  pub segment : get_or s.segment_buffer s.segment_buffer_tail no_segment ≡ g
  pub block : get_or s.st_block_buffer g.st_block_index no_block ≡ b
  pub new : (s.exec_block_index == g.st_block_index) ≡ false

-- The state just loaded.
pub record Loaded (g : Segment) (b : Block) (s t : Stepper) : Type 0 where
  pub segment : t.exec_segment ≡ some g
  pub count : t.step_count ≡ g.n_step
  pub block : block_of t ≡ b
  pub tail : t.segment_buffer_tail ≡ s.segment_buffer_tail
  pub axes : (i : AxisName) → axis_of i t ≡ loaded g b i s

start_block-new :
    (g : Segment) (s : Stepper)
    → (s.exec_block_index == g.st_block_index) ≡ false
    → start_block g s ≡ enter_block g.st_block_index s
unfolding start_block
start_block-new g s e = ap (λ t. if t then s else enter_block g.st_block_index s) e

-- The state that load_segment starts from: segment g is being executed.
abbrev taken : Segment → Stepper → Stepper
taken g s = record s { exec_segment = some g; step_count = g.n_step }

-- The rest of load_segment.
abbrev adjust : Segment → Stepper → Stepper
adjust g s =
    let b : Block = block_of s in
    record s {
      dir_outbits = bxor b.direction_bits s.dir_port_invert_mask;
      x = record (s.x) { steps = b.steps_x / 2 ^ g.amass_level };
      y = record (s.y) { steps = b.steps_y / 2 ^ g.amass_level };
      z = record (s.z) { steps = b.steps_z / 2 ^ g.amass_level };
    }

load_segment-new :
    (g : Segment) (s : Stepper)
    → get_or s.segment_buffer s.segment_buffer_tail no_segment ≡ g
    → (s.exec_block_index == g.st_block_index) ≡ false
    → load_segment s ≡ adjust g (enter_block g.st_block_index (taken g s))
unfolding load_segment
load_segment-new g s e n =
    ap (λ h. adjust h (start_block h (taken h s))) e
    ∙ ap (λ t. adjust g t) (start_block-new g (taken g s) n)

-- An axis with the counter and the step rate of a block.
abbrev prepared : AxisName → ℕ → ℕ → Block → Axis
prepared i level position b = record {
  counter = b.step_event_count / 2;
  steps = block_steps i b / 2 ^ level;
  position = position;
}

adjust-axes :
    (g : Segment) (s : Stepper) (i : AxisName)
    → axis_of i (adjust g (enter_block g.st_block_index s))
      ≡ prepared i g.amass_level
          (axis_of i s).position
          (get_or s.st_block_buffer g.st_block_index no_block)
adjust-axes g s axis_x = refl
adjust-axes g s axis_y = refl
adjust-axes g s axis_z = refl

driven-axes : (s : Stepper) (i : AxisName) → axis_of i (driven s) ≡ axis_of i s
unfolding driven
driven-axes s axis_x = (drive_pins-Same s).x
driven-axes s axis_y = (drive_pins-Same s).y
driven-axes s axis_z = (drive_pins-Same s).z

taken-axes : (g : Segment) (s : Stepper) (i : AxisName) → axis_of i (taken g s) ≡ axis_of i s
taken-axes g s axis_x = refl
taken-axes g s axis_y = refl
taken-axes g s axis_z = refl

pub load_segment-Loaded :
    (g : Segment) (b : Block) (s : Stepper)
    → IsWaiting g b s
    → Loaded g b s (load_segment (driven s))
unfolding driven
load_segment-Loaded g b s w =
    let pins = drive_pins-Same s in
    let at : get_or (driven s).segment_buffer (driven s).segment_buffer_tail no_segment ≡ g =
      rw (pins.segments, pins.tail) w.segment in
    let new : ((driven s).exec_block_index == g.st_block_index) ≡ false =
      rw pins.block_index w.new in
    let b' : get_or (driven s).st_block_buffer g.st_block_index no_block ≡ b =
      rw pins.blocks w.block in
    rw (load_segment-new g (driven s) at new) (record {
      segment = refl;
      count = refl;
      block = b';
      tail = pins.tail;
      axes = λ i.
          adjust-axes g (taken g (driven s)) i
          ∙ ap₂ (λ a c. prepared i g.amass_level a.position c)
              (taken-axes g (driven s) i ∙ driven-axes s i) b';
    })
