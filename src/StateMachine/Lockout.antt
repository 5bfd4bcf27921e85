-- ===== src/StateMachine/Lockout.antt =====
-- firmware/src/state_machine.c: how long a lockout lasts.
use safe_key_vault.Prelude.{
  ℕ, zero, suc, ◌+◌, ◌-◌, ◌*◌, ◌^◌, ◌<◌, ◌≤◌, true, false, Option, none, some, List, Text, ◌≡◌, ◌≢◌,
  refl, arith,
}
use safe_key_vault.FirmwareTypes.{locked, locked_out}
use safe_key_vault.StateMachine.{DeviceContext, Machine, state_machine_tick}
use safe_key_vault.StateMachine.Pin.{
  admits_attempt, pin_matches, state_machine_try_unlock, lockout_ticks_base, lockout_ticks_step,
}

-- n calls of `state_machine_tick`.
unfoldable pub ticks : ℕ → Machine → Machine
ticks zero m = m
ticks (suc n) m = ticks n (state_machine_tick m)

-- Locked out for exactly `left` more ticks, and not wiped.
abbrev pub IsLockedOutFor : ℕ → DeviceContext → Type 0
IsLockedOutFor left c =
    (c.state ≡ locked_out) × (c.wiped ≡ false) × (c.lockout_ticks_remaining ≡ left)

tick-LockedOut :
    (left : ℕ) (m : Machine)
    → IsLockedOutFor (suc (suc left)) m.ctx
    → IsLockedOutFor (suc left) (state_machine_tick m).ctx
unfolding state_machine_tick
tick-LockedOut left m h = ground arith

tick-last :
    (m : Machine)
    → IsLockedOutFor 1 m.ctx
    → ((state_machine_tick m).ctx.state ≡ locked)
      × ((state_machine_tick m).ctx.lockout_ticks_remaining ≡ 0)
unfolding state_machine_tick
tick-last m h = ground arith

ticks-LockedOut :
    (n left : ℕ) (m : Machine)
    → IsLockedOutFor (suc (n + left)) m.ctx
    → IsLockedOutFor (suc left) (ticks n m).ctx
unfolding ticks
ticks-LockedOut zero left m h = ground arith
ticks-LockedOut (suc n) left m h =
    ticks-LockedOut n left (state_machine_tick m) (tick-LockedOut (n + left) m (ground arith))

ticks-locked :
    (n : ℕ) (m : Machine) → IsLockedOutFor (suc n) m.ctx → (ticks (suc n) m).ctx.state ≡ locked
unfolding ticks
ticks-locked zero m h = (tick-last m h).0
ticks-locked (suc n) m h = ticks-locked n (state_machine_tick m) (tick-LockedOut n m h)

module _ (hash16 : Text → List ℕ) where
  locked_out_refuses :
      (pin : Option Text) (t : Machine) (left : ℕ)
      → IsLockedOutFor (suc left) t.ctx
      → state_machine_try_unlock hash16 t pin ≡ (t, false)
  unfolding state_machine_try_unlock
  locked_out_refuses none t left h = refl
  locked_out_refuses (some pin) t left h = ground arith

  -- A device locked out for n + 1 ticks refuses every PIN, the right one too, and stays as it is,
  -- after each k ≤ n ticks, and is back in the locked state after n + 1 ticks.
  pub lockout_lasts :
      (n : ℕ) (m : Machine) (pin : Option Text)
      → IsLockedOutFor (suc n) m.ctx
      → ((k : ℕ) → k ≤ n → state_machine_try_unlock hash16 (ticks k m) pin ≡ (ticks k m, false))
        × ((ticks (suc n) m).ctx.state ≡ locked)
  lockout_lasts n m pin h = (
    λ k le. locked_out_refuses pin (ticks k m) (n - k) (ticks-LockedOut k (n - k) m (ground arith)),
    ticks-locked n m h,
  )

  -- A wrong PIN on a device that is not wiped by it: below the attempt limit the device is locked;
  -- from the limit on it is locked out for 3 ticks and 2 more for each failure beyond the limit.
  -- It is never left unlocked.
  pub try_unlock-wrong :
      (m : Machine) (pin : Text)
      → admits_attempt m ≡ true
      → pin_matches hash16 m pin ≡ false
      → m.settings.wipe_on_lockout ≡ false
      → m.ctx.failed_pin_attempts + 1 < 2 ^ 30
      → let (m', done) = state_machine_try_unlock hash16 m (some pin) in
        let failed = m.ctx.failed_pin_attempts + 1 in
        (done ≡ false)
        × (m'.ctx.unlocked ≡ false)
        × (m'.ctx.failed_pin_attempts ≡ failed)
        × (m.settings.pin_attempt_limit ≤ failed
            → IsLockedOutFor
                (lockout_ticks_base + (failed - m.settings.pin_attempt_limit) * lockout_ticks_step)
                m'.ctx)
        × (failed < m.settings.pin_attempt_limit → m.ctx.state ≢ locked_out → m'.ctx.state ≡ locked)
  unfolding state_machine_try_unlock
  try_unlock-wrong m pin ok wrong off small = ground arith
