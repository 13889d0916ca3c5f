-- ===== src/Protocol/Suspend/Returns.antt =====
-- When the suspend manager returns (protocol.c, lines 561 to 781).
use zephyr_grbl.Prelude.{
  if_split, ℕ, zero, suc, ◌≡◌, refl, ◌⊎◌, inl, inr, true, false, not, ◌||◌, Option, none, some,
  arith,
}
use zephyr_grbl.Flags.{is_nonzero, bit_isfalse}
use zephyr_grbl.System.Masks.{suspend_hold_complete, suspend_retract_complete}
use zephyr_grbl.System.{is_safety_door, is_sleep, Machine}
use zephyr_grbl.Protocol.Realtime.{Arrivals, protocol_exec_rt_system}
use zephyr_grbl.Protocol.Suspend.{
  Restore, and_then, sleep_until_abort, hold_round, retract, fall_asleep, suspend_round,
  suspend_loop,
}

pub and_then-some_inv {ℓ} :
    {A : Type ℓ} (o : Option (Machine × Arrivals)) (f : Arrivals → Machine → Option A) (a : A)
    → and_then o f ≡ some a
    → (r : Machine × Arrivals) × ((o ≡ some r) × (f r.1 r.0 ≡ some a))
unfolding and_then
and_then-some_inv none f a h = ground arith
and_then-some_inv (some (m, rx)) f a h = ((m, rx), (refl, h))

-- The sleep mode ends by an abort only.
sleep_until_abort-aborts :
    (fuel : ℕ) (rx : Arrivals) (m : Machine) (r : Machine × Arrivals)
    → sleep_until_abort fuel rx m ≡ some r
    → r.0.sys.abort ≡ true
unfolding sleep_until_abort
sleep_until_abort-aborts zero rx m r =
    if_split (λ (x : Option (Machine × Arrivals)). x ≡ some r → r.0.sys.abort ≡ true) m.sys.abort
      (λ e h. ground arith) (λ _ h. ground arith)
sleep_until_abort-aborts (suc fuel) rx m r =
    if_split (λ (x : Option (Machine × Arrivals)). x ≡ some r → r.0.sys.abort ≡ true) m.sys.abort
      (λ e h. ground arith)
      (λ _ h.
        let (r1, (_, h1)) = and_then-some_inv _ _ r h in
        let (r2, (_, h2)) = and_then-some_inv _ _ r h1 in
        sleep_until_abort-aborts fuel r2.1 r2.0 r h2)

-- A round either ends in an abort, or what follows it has the last word.
suspend_round-returns :
    (fuel : ℕ) (restore : Restore) (next : Arrivals → Machine → Option (Machine × Arrivals))
    (rx : Arrivals) (m : Machine) (r : Machine × Arrivals)
    → suspend_round fuel restore next rx m ≡ some r
    → (r.0.sys.abort ≡ true) ⊎ ((q : Machine × Arrivals) × (next q.1 q.0 ≡ some r))
unfolding suspend_round
suspend_round-returns fuel restore next rx m r =
    let Goal = λ (x : Option (Machine × Arrivals)).
      x ≡ some r → (r.0.sys.abort ≡ true) ⊎ ((q : Machine × Arrivals) × (next q.1 q.0 ≡ some r)) in
    if_split Goal (bit_isfalse m.sys.suspend suspend_hold_complete) (λ _ h. inr ((m, rx), h))
      (λ _.
        if_split Goal (not (is_safety_door m.sys.state || is_sleep m.sys.state))
          (λ _ h. inr ((hold_round restore m, rx), h))
          (λ _.
            if_split Goal (bit_isfalse m.sys.suspend suspend_retract_complete)
              (λ _ h. inr ((retract m, rx), h))
              (λ _.
                if_split Goal (is_sleep m.sys.state)
                  (λ _ h. inl (sleep_until_abort-aborts fuel rx (fall_asleep m) r h))
                  (λ _ h. let (q, (_, h1)) = and_then-some_inv _ _ r h in inr (q, h1)))))

abbrev pub Ended : Machine → Type 0
Ended m = (m.sys.abort ≡ true) ⊎ (is_nonzero m.sys.suspend ≡ false)

pub suspend_loop-ends :
    (fuel : ℕ) (restore : Restore) (rx : Arrivals) (m : Machine) (r : Machine × Arrivals)
    → suspend_loop fuel restore rx m ≡ some r
    → Ended r.0
unfolding suspend_loop
suspend_loop-ends zero restore rx m r =
    if_split (λ (x : Option (Machine × Arrivals)). x ≡ some r → Ended r.0)
      (is_nonzero m.sys.suspend) (λ _ h. ground arith) (λ e h. inr (ground arith))
suspend_loop-ends (suc fuel) restore rx m r =
    if_split (λ (x : Option (Machine × Arrivals)). x ≡ some r → Ended r.0)
      (not (is_nonzero m.sys.suspend)) (λ e h. inr (ground arith))
      (λ _ h.
        let (r1, (_, h1)) = and_then-some_inv _ _ r h in
        if_split (λ (x : Option (Machine × Arrivals)). x ≡ some r → Ended r.0) r1.0.sys.abort
          (λ e h2. inl (ground arith))
          (λ _ h2.
            elim (suspend_round-returns (suc fuel) restore
              (λ rx2 m2. and_then (protocol_exec_rt_system rx2 m2) (suspend_loop fuel restore)) r1.1
              r1.0 r h2) [
                | inl e ↦ inl e
                | inr (q, h3) ↦
                    let (r3, (_, h4)) = and_then-some_inv _ _ r h3 in
                    suspend_loop-ends fuel restore r3.1 r3.0 r h4
              ])
          h1)
