-- ===== src/StateMachine/Wiped.antt =====
-- firmware/src/state_machine.c: a wipe is final, and bounds how often a PIN can be guessed.
use safe_key_vault.Prelude.{
  ℕ, true, false, Option, none, some, List, [], ◌∷◌, Text, ◌≡◌, refl, arith,
}
use safe_key_vault.FirmwareTypes.{locked_out, CredentialRecord}
use safe_key_vault.PasswordPolicy.{PolicyGlobals}
use safe_key_vault.StateMachine.{
  DeviceContext, Machine, state_machine_tick, state_machine_on_touch_tap,
  state_machine_on_touch_hold, state_machine_lock,
}
use safe_key_vault.StateMachine.Pin.{state_machine_try_unlock}
use safe_key_vault.StateMachine.Requests.{state_machine_request_fill, state_machine_request_save}
use safe_key_vault.StateMachine.Events.{
  Event, tick, touch_tap, touch_hold, lock, try_unlock, set_pin, request_fill, request_save,
  apply_settings, set_pin_verifier, step, run,
}
use safe_key_vault.StateMachine.Invariant.{set_pin-ctx, apply_settings-ctx, set_pin_verifier-ctx}

-- A wiped device.
abbrev pub IsDead : DeviceContext → Type 0
IsDead c = (c.wiped ≡ true) × (c.state ≡ locked_out) × (c.unlocked ≡ false)

module _ (hash16 : Text → List ℕ) (g : PolicyGlobals) where
  try_unlock-dead :
      (m : Machine) (pin : Option Text)
      → IsDead m.ctx
      → state_machine_try_unlock hash16 m pin ≡ (m, false)
  unfolding state_machine_try_unlock
  try_unlock-dead m none d = refl
  try_unlock-dead m (some pin) d = ground arith

  request_fill-dead :
      (m : Machine) (rec : Option CredentialRecord) (origin : Option Text)
      → IsDead m.ctx
      → state_machine_request_fill m rec origin ≡ (m, false)
  unfolding state_machine_request_fill
  request_fill-dead m none origin d = refl
  request_fill-dead m (some rec) none d = refl
  request_fill-dead m (some rec) (some origin) d = ground arith

  request_save-dead :
      (m : Machine) (rec : Option CredentialRecord)
      → IsDead m.ctx
      → state_machine_request_save g m rec ≡ (m, false)
  unfolding state_machine_request_save
  request_save-dead m none d = refl
  request_save-dead m (some rec) d = ground arith

  tick-IsDead : (m : Machine) → IsDead m.ctx → IsDead (state_machine_tick m).ctx
  unfolding state_machine_tick
  tick-IsDead m d = ground arith

  touch-IsDead :
      (m : Machine)
      → IsDead m.ctx
      → IsDead (state_machine_on_touch_tap m).ctx
        × IsDead (state_machine_on_touch_hold m).ctx
        × IsDead (state_machine_lock m).ctx
  unfolding state_machine_on_touch_tap state_machine_on_touch_hold state_machine_lock
  touch-IsDead m d = (ground arith, ground arith, ground arith)

  step-IsDead : (m : Machine) (e : Event) → IsDead m.ctx → IsDead (step hash16 g m e).0.ctx
  unfolding step
  step-IsDead m tick d = tick-IsDead m d
  step-IsDead m touch_tap d = (touch-IsDead m d).0
  step-IsDead m touch_hold d = (touch-IsDead m d).1
  step-IsDead m lock d = (touch-IsDead m d).2
  step-IsDead m (try_unlock pin) d = rw (try_unlock-dead m pin d) d
  step-IsDead m (set_pin old_pin new_pin) d = rw (set_pin-ctx hash16 m old_pin new_pin) d
  step-IsDead m (request_fill rec origin) d = rw (request_fill-dead m rec origin d) d
  step-IsDead m (request_save rec) d = rw (request_save-dead m rec d) d
  step-IsDead m (apply_settings s) d = rw (apply_settings-ctx m s) d
  step-IsDead m (set_pin_verifier v) d = rw (set_pin_verifier-ctx m v) d

  -- A device that is wiped, locked out and not unlocked stays so, whatever calls follow.
  pub wiped_is_final :
      (m : Machine) (es : List Event) → IsDead m.ctx → IsDead (run hash16 g m es).ctx
  unfolding run
  wiped_is_final m [] d = d
  wiped_is_final m (e ∷ es) d = wiped_is_final (step hash16 g m e).0 es (step-IsDead m e d)
