-- ===== src/Stepper/Runs.antt =====
-- All the interrupts of a segment.
use zephyr_grbl.Prelude.{
  ◌==◌, if◌then◌else◌, ℕ, zero, suc, ◌^◌, ◌<◌, ◌≡◌, refl, ap, ◌∙◌, false, none, some, arith,
}
use zephyr_grbl.Flags.{}
use zephyr_grbl.Stepper.Tracer.{Axis, axis_step}
use zephyr_grbl.Stepper.Defs.{Segment, Stepper}
use zephyr_grbl.Stepper.Isr.{timer1_compa_vect}
use zephyr_grbl.Stepper.Pulses.{axis_steps}
use zephyr_grbl.Stepper.Segments.{
  AxisName, axis_of, backward, events, interrupts, next_tail, Stepped, interrupt-Stepped, axis_x,
  axis_y, axis_z,
}

-- Where an axis stands when the segment of `k` more steps is through.
abbrev pub target : ℕ → AxisName → Stepper → Axis
target k i s = (axis_steps k (events s) (backward i s) (axis_of i s)).1

pub record Finished (k : ℕ) (s t : Stepper) : Type 0 where
  pub axes : (i : AxisName) → axis_of i t ≡ target k i s
  pub segment : t.exec_segment ≡ none
  pub tail : t.segment_buffer_tail ≡ next_tail s.segment_buffer_tail
  pub idle : t.busy ≡ false

Stepped-axes :
    (n : ℕ) (s t : Stepper) (i : AxisName)
    → Stepped n s t
    → axis_of i t ≡ (axis_step (events s) (backward i s) (axis_of i s)).1
Stepped-axes n s t axis_x h = h.x
Stepped-axes n s t axis_y h = h.y
Stepped-axes n s t axis_z h = h.z

Stepped-backward :
    (n : ℕ) (s t : Stepper) (i : AxisName) → Stepped n s t → backward i t ≡ backward i s
Stepped-backward n s t axis_x h = rw (h.block, h.blocks) refl
Stepped-backward n s t axis_y h = rw (h.block, h.blocks) refl
Stepped-backward n s t axis_z h = rw (h.block, h.blocks) refl

Stepped-target :
    (n k : ℕ) (s t : Stepper) (i : AxisName) → Stepped n s t → target k i t ≡ target (suc k) i s
unfolding axis_steps
Stepped-target n k s t i h =
    let events' : events t ≡ events s = rw (h.block, h.blocks) refl in
    ap (λ e. (axis_steps k e (backward i t) (axis_of i t)).1) events'
    ∙ ap (λ b. (axis_steps k (events s) b (axis_of i t)).1) (Stepped-backward n s t i h)
    ∙ ap (λ a. (axis_steps k (events s) (backward i s) a).1) (Stepped-axes n s t i h)

-- One step that ends the segment, or leaves it in place.
Stepped-Finished : (s t : Stepper) → Stepped 1 s t → Finished 1 s t
unfolding axis_steps
Stepped-Finished s t h = record {
  axes = λ i. Stepped-axes 1 s t i h;
  segment = h.segment;
  tail = h.tail;
  idle = h.idle;
}

-- The steps that follow a first one.
pub interrupts-Finished :
    (k : ℕ) (s t : Stepper) (g : Segment)
    → Stepped (suc k) s t
    → s.exec_segment ≡ some g
    → suc k < 2 ^ 16
    → Finished (suc k) s (interrupts k t)
unfolding interrupts
interrupts-Finished zero s t g one e b = Stepped-Finished s t one
interrupts-Finished (suc k) s t g one e b =
    let n : ℕ = suc (suc k) in
    let more : (n == 1) ≡ false = ground arith in
    let same_segment = ap (λ last. if last then none else s.exec_segment) more in
    let same_tail =
      ap (λ last. if last then next_tail s.segment_buffer_tail else s.segment_buffer_tail) more in
    let here : t.exec_segment ≡ some g = one.segment ∙ same_segment ∙ e in
    let two =
      interrupt-Stepped (suc k) t g one.idle here (omega (arith, one.count)) (omega arith)
        (omega arith) in
    let ih = interrupts-Finished k t (timer1_compa_vect t) g two here (omega arith) in
    record {
      axes = λ a. ih.axes a ∙ Stepped-target n (suc k) s t a one;
      segment = ih.segment;
      tail = ih.tail ∙ ap next_tail (one.tail ∙ same_tail);
      idle = ih.idle;
    }
