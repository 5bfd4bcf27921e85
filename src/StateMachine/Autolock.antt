-- ===== src/StateMachine/Autolock.antt =====
-- firmware/src/state_machine.c: when an idle device locks itself.
use safe_key_vault.Prelude.{ℕ, zero, suc, ◌+◌, ◌^◌, ◌<◌, ◌≤◌, true, false, ◌≡◌, ◌≢◌, arith}
use native.Mathlib.Decide.{dec_lt}
use safe_key_vault.FirmwareTypes.{locked, locked_out}
use safe_key_vault.StateMachine.{Machine, state_machine_tick}
use safe_key_vault.StateMachine.Lockout.{ticks}

-- Unlocked, idle for i ticks, with an autolock limit of `limit`.
abbrev pub IsIdleFor : ℕ → ℕ → Machine → Type 0
IsIdleFor i limit m =
    (m.ctx.unlocked ≡ true)
    × (m.ctx.state ≢ locked_out)
    × (m.ctx.inactivity_seconds ≡ i)
    × (m.settings.autolock_seconds ≡ limit)

abbrev IsLocked : Machine → Type 0
IsLocked m = (m.ctx.unlocked ≡ false) × (m.ctx.state ≡ locked)

tick-IsLocked : (m : Machine) → IsLocked m → IsLocked (state_machine_tick m)
unfolding state_machine_tick
tick-IsLocked m h = ground arith

ticks-IsLocked : (n : ℕ) (m : Machine) → IsLocked m → IsLocked (ticks n m)
unfolding ticks
ticks-IsLocked zero m h = h
ticks-IsLocked (suc n) m h = ticks-IsLocked n (state_machine_tick m) (tick-IsLocked m h)

tick-idle :
    (i limit : ℕ) (m : Machine)
    → limit < 2 ^ 16
    → i + 1 < limit
    → IsIdleFor i limit m
    → IsIdleFor (i + 1) limit (state_machine_tick m)
unfolding state_machine_tick
tick-idle i limit m small lt h = ground arith

tick-locks :
    (i limit : ℕ) (m : Machine)
    → limit < 2 ^ 16
    → i < limit
    → limit ≤ i + 1
    → IsIdleFor i limit m
    → IsLocked (state_machine_tick m)
unfolding state_machine_tick
tick-locks i limit m small lt le h = ground arith

-- An unlocked device that has been idle for i of its autolock seconds is still unlocked after n
-- more ticks while i + n is below the limit, and is locked after any n with i + n at the limit or
-- above.
pub autolock_exact :
    (n i limit : ℕ) (m : Machine)
    → limit < 2 ^ 16
    → i < limit
    → IsIdleFor i limit m
    → (i + n < limit → IsIdleFor (i + n) limit (ticks n m))
      × (limit ≤ i + n → ((ticks n m).ctx.unlocked ≡ false) × ((ticks n m).ctx.state ≡ locked))
unfolding ticks
autolock_exact zero i limit m small lt h = (λ _. ground arith, λ le. absurd (omega arith))
autolock_exact (suc n) i limit m small lt h = elim (dec_lt (i + 1) limit) [
  | yes more ↦
      let rest =
        autolock_exact n (i + 1) limit (state_machine_tick m) small more
          (tick-idle i limit m small more h) in
      (λ below. ground (arith, rest.0 (omega arith)), λ above. rest.1 (omega arith))
  | no done ↦ (
    λ below. absurd (omega arith),
    λ above.
        ticks-IsLocked n (state_machine_tick m) (tick-locks i limit m small lt (omega arith) h),
  )
]
