-- ===== src/Stepper/Moves.antt =====
-- What a segment that starts a new block does to the machine's position.
use zephyr_grbl.Prelude.{
  ◌==◌, if◌then◌else◌, ℕ, suc, ◌+◌, ◌*◌, ◌/◌, ◌^◌, ◌≤◌, ◌<◌, ◌≡◌, ap, ◌∙◌, Bool, true, false, none,
  arith,
}
use zephyr_grbl.Stepper.Tracer.{word, Axis}
use zephyr_grbl.Stepper.Defs.{Block, Segment, Stepper}
use zephyr_grbl.Stepper.Isr.{
  load_segment, execute_step, shut_down, has_segment, next_step, timer1_compa_vect,
}
use zephyr_grbl.Stepper.Pulses.{
  axis_steps, IsTracing, axis_steps-whole, axis_steps-forward, axis_steps-backward,
}
use zephyr_grbl.Stepper.Segments.{
  AxisName, axis_of, backward, interrupts, drive_pins-Same, next_tail, Stepped,
  execute_step-Stepped, driven, timer1_compa_vect-idle, axis_x, axis_y, axis_z,
}
use zephyr_grbl.Stepper.Runs.{Finished, interrupts-Finished}
use zephyr_grbl.Stepper.Loads.{
  block_steps, is_backward, loaded, IsWaiting, Loaded, load_segment-Loaded,
}

-- The first interrupt of a segment loads it and makes its first step.
first-Stepped :
    (g : Segment) (b : Block) (s : Stepper)
    → IsWaiting g b s
    → 0 < g.n_step
    → g.n_step < 2 ^ 16
    → Stepped g.n_step (load_segment (driven s)) (timer1_compa_vect s)
unfolding next_step driven
first-Stepped g b s w p r =
    let pins = drive_pins-Same s in
    let l = load_segment-Loaded g b s w in
    let s1 : Stepper = driven s in
    let empty : s1.exec_segment ≡ none = pins.segment ∙ w.finished in
    let full : (s1.segment_buffer_head == s1.segment_buffer_tail) ≡ false =
      rw (pins.head, pins.tail) w.nonempty in
    let loads : next_step s1 ≡ execute_step (load_segment s1) =
      ap
        (λ o.
          if has_segment o
          then execute_step s1
          else if s1.segment_buffer_head == s1.segment_buffer_tail
          then shut_down s1
          else execute_step (load_segment s1))
        empty
      ∙ ap (λ t. if t then shut_down s1 else execute_step (load_segment s1)) full in
    rw (timer1_compa_vect-idle s w.idle ∙ loads)
      (execute_step-Stepped g.n_step (load_segment s1) l.count p r)

abbrev pub position_of : AxisName → Stepper → ℕ
position_of i s = (axis_of i s).position

-- The axis has gone `n` steps from position p to position p', on 32 bits.
pub IsMoved : Bool → ℕ → ℕ → ℕ → Type 0
IsMoved true n p p' = word (p' + n) ≡ p
IsMoved false n p p' = p' ≡ word (p + n)

axis_steps-IsMoved :
    (way : Bool) (k n s : ℕ) (a : Axis)
    → (axis_steps k n way a).0 ≡ s
    → a.position < 2 ^ 32
    → IsMoved way s a.position (axis_steps k n way a).1.position
unfolding IsMoved
axis_steps-IsMoved true k n s a e h = rw⁻¹ e (axis_steps-backward k n a h)
axis_steps-IsMoved false k n s a e h = rw⁻¹ e (axis_steps-forward k n a h)

segment-Finished :
    (k : ℕ) (g : Segment) (b : Block) (s : Stepper)
    → IsWaiting g b s
    → g.n_step ≡ suc k
    → suc k < 2 ^ 16
    → Finished (suc k) (load_segment (driven s)) (interrupts (suc k) s)
unfolding interrupts
segment-Finished k g b s w e r =
    let l = load_segment-Loaded g b s w in
    let one : Stepped (suc k) (load_segment (driven s)) (timer1_compa_vect s) =
      rw⁻¹ e (first-Stepped g b s w (omega arith) (omega arith)) in
    interrupts-Finished k (load_segment (driven s)) (timer1_compa_vect s) g one l.segment r

-- The segment is through after exactly n_step interrupts, if that is not 0: the ring has moved on
-- by one place, and the next interrupt may take the next segment.
pub interrupts-segment :
    (k : ℕ) (g : Segment) (b : Block) (s : Stepper)
    → IsWaiting g b s
    → g.n_step ≡ suc k
    → suc k < 2 ^ 16
    → ((interrupts (suc k) s).exec_segment ≡ none)
      × ((interrupts (suc k) s).segment_buffer_tail ≡ next_tail s.segment_buffer_tail)
      × ((interrupts (suc k) s).busy ≡ false)
interrupts-segment k g b s w e r =
    let f = segment-Finished k g b s w e r in
    let l = load_segment-Loaded g b s w in (f.segment, f.tail ∙ ap next_tail l.tail, f.idle)

Loaded-backward :
    (g : Segment) (b : Block) (s t : Stepper) (i : AxisName)
    → Loaded g b s t
    → backward i t ≡ is_backward i b
Loaded-backward g b s t axis_x l = ap (is_backward axis_x) l.block
Loaded-backward g b s t axis_y l = ap (is_backward axis_y) l.block
Loaded-backward g b s t axis_z l = ap (is_backward axis_z) l.block

-- Where every axis stands after the segment.
segment-axes :
    (k : ℕ) (g : Segment) (b : Block) (s : Stepper) (i : AxisName)
    → IsWaiting g b s
    → g.n_step ≡ suc k
    → suc k < 2 ^ 16
    → axis_of i (interrupts (suc k) s)
      ≡ (axis_steps (suc k) b.step_event_count (is_backward i b) (loaded g b i s)).1
segment-axes k g b s i w e r =
    let f = segment-Finished k g b s w e r in
    let l = load_segment-Loaded g b s w in
    let t : Stepper = load_segment (driven s) in
    f.axes i
    ∙ ap (λ c. (axis_steps (suc k) c.step_event_count (backward i t) (axis_of i t)).1) l.block
    ∙ ap (λ w'. (axis_steps (suc k) b.step_event_count w' (axis_of i t)).1)
        (Loaded-backward g b s t i l)
    ∙ ap (λ a. (axis_steps (suc k) b.step_event_count (is_backward i b) a).1) (l.axes i)

-- The conditions on a block and an axis of it under which the tracer is exact: at least two step
-- events, no overflow of the counters, and no axis faster than the events.
pub record IsTraceable (g : Segment) (b : Block) (i : AxisName) : Type 0 where
  pub events : 2 ≤ b.step_event_count
  pub room : b.step_event_count + b.step_event_count < 2 ^ 32
  pub rate : block_steps i b / 2 ^ g.amass_level ≤ b.step_event_count

-- A segment that is a whole block, at any smoothing level: if its n_step ticks of
-- steps >> amass_level share out exactly `n` times step_event_count, the interrupts of the segment
-- move the axis exactly n steps, in the direction of the block.
pub interrupts-position :
    (k n : ℕ) (g : Segment) (b : Block) (s : Stepper) (i : AxisName)
    → IsWaiting g b s
    → g.n_step ≡ suc k
    → suc k < 2 ^ 16
    → IsTraceable g b i
    → suc k * (block_steps i b / 2 ^ g.amass_level) ≡ b.step_event_count * n
    → position_of i s < 2 ^ 32
    → IsMoved (is_backward i b) n (position_of i s) (position_of i (interrupts (suc k) s))
interrupts-position k n g b s i w e r t share h =
    let a : Axis = loaded g b i s in
    let way : Bool = is_backward i b in
    let trace : IsTracing b.step_event_count a = record {
      positive = omega (arith, t.events);
      bounded = omega (arith, t.events);
      single = t.rate;
      room = t.room;
    } in
    let whole = axis_steps-whole (suc k) n b.step_event_count way a trace share in
    let at : position_of i (interrupts (suc k) s)
        ≡ (axis_steps (suc k) b.step_event_count way a).1.position =
      ap (λ c. c.position) (segment-axes k g b s i w e r) in
    rw at (axis_steps-IsMoved way (suc k) b.step_event_count n a whole.0 h)
