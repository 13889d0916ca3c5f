-- ===== src/Stepper/Pulses.antt =====
-- The number of steps that an axis makes.
use zephyr_grbl.Prelude.{
  if◌then◌else◌, ℕ, zero, suc, ◌+◌, ◌*◌, ◌^◌, ◌≤◌, ◌<◌, ◌≡◌, sym, ap, ◌∙◌, Bool, true, false, arith,
}
use native.Mathlib.Nat.{mul-suc, mul-le-mul_left}
use zephyr_grbl.Stepper.Tracer.{word, Axis, axis_step}

-- k ticks of one axis, and the number of steps made in them.
unfoldable pub axis_steps : ℕ → ℕ → Bool → Axis → ℕ × Axis
axis_steps zero n backward a = (0, a)
axis_steps (suc k) n backward a =
    let first = axis_step n backward a in
    let rest = axis_steps k n backward first.1 in ((if first.0 then suc rest.0 else rest.0), rest.1)

-- The counter is above 0 and at most step_event_count, an axis makes at most one step a tick, and
-- the addition does not wrap.
pub record IsTracing (n : ℕ) (a : Axis) : Type 0 where
  pub positive : 0 < a.counter
  pub bounded : a.counter ≤ n
  pub single : a.steps ≤ n
  pub room : n + n < 2 ^ 32

axis_step_lem :
    (n : ℕ) (backward : Bool) (a : Axis)
    → IsTracing n a
    → (axis_step n backward a).1.counter + n * (if (axis_step n backward a).0 then 1 else 0)
      ≡ a.counter + a.steps
unfolding axis_step
axis_step_lem n backward a h = ground arith

axis_step-IsTracing :
    (n : ℕ) (backward : Bool) (a : Axis) → IsTracing n a → IsTracing n (axis_step n backward a).1
unfolding axis_step
axis_step-IsTracing n backward a h = ground arith

-- The account of one tick and of the ticks after it, added up.
add_up :
    (made : Bool) (n c0 c1 c2 r d k : ℕ)
    → c1 + n * (if made then 1 else 0) ≡ c0 + d
    → c2 + n * r ≡ c1 + k * d
    → c2 + n * (if made then suc r else r) ≡ c0 + suc k * d
add_up true n c0 c1 c2 r d k h e = grind arith
add_up false n c0 c1 c2 r d k h e = grind arith

axis_step-steps : (n : ℕ) (backward : Bool) (a : Axis) → (axis_step n backward a).1.steps ≡ a.steps
unfolding axis_step
axis_step-steps n backward a = ground arith

-- The counters account for every step: what goes in over k ticks comes out as steps of `n` each.
axis_steps_lem :
    (k n : ℕ) (backward : Bool) (a : Axis)
    → IsTracing n a
    → (IsTracing n (axis_steps k n backward a).1)
      × ((axis_steps k n backward a).1.counter + n * (axis_steps k n backward a).0
          ≡ a.counter + k * a.steps)
unfolding axis_steps
axis_steps_lem zero n backward a h = (h, omega arith)
axis_steps_lem (suc k) n backward a h =
    let first = axis_step n backward a in
    let rest = axis_steps k n backward first.1 in
    let one = axis_step_lem n backward a h in
    let ih = axis_steps_lem k n backward first.1 (axis_step-IsTracing n backward a h) in
    let two : rest.1.counter + n * rest.0 ≡ first.1.counter + k * a.steps =
      ih.1 ∙ ap (λ d. first.1.counter + k * d) (axis_step-steps n backward a) in
    (ih.0, add_up first.0 n a.counter first.1.counter rest.1.counter rest.0 a.steps k one two)

less_steps : (n c c' r s : ℕ) → 0 < c → c' ≤ n → r < s → ¬ (c' + n * r ≡ c + n * s)
less_steps n c c' r s p b h e =
    omega (arith, mul-le-mul_left {m = suc r} {n = s} n (omega arith), mul-suc n r)

-- Two accounts of at most n in hand agree on the number of steps.
same_steps :
    (n c c' r s : ℕ) → 0 < c → c ≤ n → 0 < c' → c' ≤ n → c' + n * r ≡ c + n * s → (r ≡ s) × (c' ≡ c)
same_steps n c c' r s p b p' b' e =
    let below : ¬ (r < s) = λ h. less_steps n c c' r s p b' h e in
    let above : ¬ (s < r) = λ h. less_steps n c' c s r p' b h (sym e) in
    let same : r ≡ s = omega arith in (same, omega (arith, ap (λ t. n * t) same))

-- What an axis does over k ticks that share out exactly `s` step events: it makes s steps, whatever
-- the smoothing level, and its counter is back where it began. A tick adds the axis's steps.
pub axis_steps-whole :
    (k s n : ℕ) (backward : Bool) (a : Axis)
    → IsTracing n a
    → k * a.steps ≡ n * s
    → ((axis_steps k n backward a).0 ≡ s) × ((axis_steps k n backward a).1.counter ≡ a.counter)
axis_steps-whole k s n backward a h e =
    let r = axis_steps_lem k n backward a h in
    same_steps n a.counter (axis_steps k n backward a).1.counter (axis_steps k n backward a).0 s
      h.positive h.bounded r.0.positive r.0.bounded (r.1 ∙ ap (λ t. a.counter + t) e)

-- The position moves by one for each step made, on 32 bits.
pub axis_steps-forward :
    (k n : ℕ) (a : Axis)
    → a.position < 2 ^ 32
    → (axis_steps k n false a).1.position ≡ word (a.position + (axis_steps k n false a).0)
unfolding axis_steps axis_step
axis_steps-forward zero n a h = ground arith
axis_steps-forward (suc k) n a h =
    let first = axis_step n false a in
    let ih = axis_steps-forward k n first.1 (ground arith) in ground arith

pub axis_steps-backward :
    (k n : ℕ) (a : Axis)
    → a.position < 2 ^ 32
    → word ((axis_steps k n true a).1.position + (axis_steps k n true a).0) ≡ a.position
unfolding axis_steps axis_step
axis_steps-backward zero n a h = ground arith
axis_steps-backward (suc k) n a h =
    let first = axis_step n true a in
    let ih = axis_steps-backward k n first.1 (ground arith) in ground arith
