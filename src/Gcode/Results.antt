-- ===== src/Gcode/Results.antt =====
-- What a chain of calls that returns a value says of its parts (the FAIL macro of gcode.c).
use zephyr_grbl.Prelude.{◌≡◌, refl, ap, ◌⊎◌, inl, inr, Bool, true, false, arith}
use zephyr_grbl.Gcode.Defs.{GcodeStatus, Result, ◌>>=◌, ◌>>◌, require, done, fail}

pub bind-done_inv {ℓ κ} :
    {A : Type ℓ} {B : Type κ} (m : Result A) (f : A → Result B) (b : B)
    → (m >>= f) ≡ done b
    → (a : A) × ((m ≡ done a) × (f a ≡ done b))
bind-done_inv (done a) f b h = (a, (refl, h))
bind-done_inv (fail e) f b h = ground arith

pub require-done_inv {ℓ} :
    {B : Type ℓ} (t : Bool) (e : GcodeStatus) (k : Result B) (b : B)
    → (require t e >> k) ≡ done b
    → (t ≡ true) × (k ≡ done b)
require-done_inv true e k b h = (refl, h)
require-done_inv false e k b h = ground arith

pub done_inj {ℓ} : {A : Type ℓ} {a b : A} → ◌≡◌ {A = Result A} (done a) (done b) → a ≡ b
done_inj {a = a} h = ap (λ m. elim m [ done x ↦ x | fail _ ↦ a ]) h

pub Result-cases {ℓ} :
    {A : Type ℓ} (m : Result A) → ((e : GcodeStatus) × (m ≡ fail e)) ⊎ ((a : A) × (m ≡ done a))
Result-cases (done a) = inr (a, refl)
Result-cases (fail e) = inl (e, refl)
