-- ===== src/StateMachine/Invariant.antt =====
-- What holds of the state of firmware/src/state_machine.c between two calls.
use safe_key_vault.Prelude.{
  ℕ, ◌<◌, true, false, Bool-cases, inl, inr, Option, none, some, List, [], ◌∷◌, Text, ◌≡◌, ◌≢◌, ◌⊎◌,
  refl, arith,
}
use safe_key_vault.FirmwareTypes.{locked, locked_out, CredentialRecord, RuntimeSettings}
use safe_key_vault.PasswordPolicy.{PolicyGlobals}
use safe_key_vault.StateMachine.{
  DeviceContext, Machine, fresh, state_machine_tick, state_machine_on_touch_tap,
  state_machine_on_touch_hold, state_machine_apply_settings, state_machine_set_pin_verifier,
  state_machine_lock,
}
use safe_key_vault.StateMachine.Pin.{
  unlock_context, fail_context, state_machine_try_unlock, state_machine_set_pin,
}
use safe_key_vault.StateMachine.Requests.{state_machine_request_fill, state_machine_request_save}
use safe_key_vault.StateMachine.Events.{
  Event, tick, touch_tap, touch_hold, lock, try_unlock, set_pin, request_fill, request_save,
  apply_settings, set_pin_verifier, step, run,
}

pub record IsConsistent (c : DeviceContext) : Type 0 where
  pub wiped_shut : c.wiped ≡ true → (c.state ≡ locked_out) × (c.unlocked ≡ false)
  pub unlocked_open : c.unlocked ≡ true → (c.state ≢ locked) × (c.state ≢ locked_out)
  pub locked_shut : c.unlocked ≡ false → (c.state ≡ locked) ⊎ (c.state ≡ locked_out)
  pub lockout_ends : c.state ≡ locked_out → (c.wiped ≡ true) ⊎ (0 < c.lockout_ticks_remaining)

pub fresh-IsConsistent : IsConsistent fresh.ctx
fresh-IsConsistent = ground arith

pub tick-IsConsistent : (m : Machine) → IsConsistent m.ctx → IsConsistent (state_machine_tick m).ctx
unfolding state_machine_tick
tick-IsConsistent m h = ground arith

pub touch_tap-IsConsistent :
    (m : Machine) → IsConsistent m.ctx → IsConsistent (state_machine_on_touch_tap m).ctx
unfolding state_machine_on_touch_tap
touch_tap-IsConsistent m h = ground arith

pub touch_hold-IsConsistent :
    (m : Machine) → IsConsistent m.ctx → IsConsistent (state_machine_on_touch_hold m).ctx
unfolding state_machine_on_touch_hold
touch_hold-IsConsistent m h = ground arith

pub lock-IsConsistent : (m : Machine) → IsConsistent m.ctx → IsConsistent (state_machine_lock m).ctx
unfolding state_machine_lock
lock-IsConsistent m h = ground arith

fail_context-IsConsistent :
    (m : Machine) → m.ctx.wiped ≡ false → IsConsistent m.ctx → IsConsistent (fail_context m)
unfolding fail_context
fail_context-IsConsistent m w h = ground arith

unlock_context-IsConsistent :
    (c : DeviceContext) → c.wiped ≡ false → IsConsistent (unlock_context c)
unfolding unlock_context
unlock_context-IsConsistent c w = ground arith

request_fill-IsConsistent :
    (m : Machine) (rec : Option CredentialRecord) (origin : Option Text)
    → IsConsistent m.ctx
    → IsConsistent (state_machine_request_fill m rec origin).0.ctx
unfolding state_machine_request_fill
request_fill-IsConsistent m none origin h = h
request_fill-IsConsistent m (some rec) none h = h
request_fill-IsConsistent m (some rec) (some origin) h = ground arith

request_save-IsConsistent :
    (g : PolicyGlobals) (m : Machine) (rec : Option CredentialRecord)
    → IsConsistent m.ctx
    → IsConsistent (state_machine_request_save g m rec).0.ctx
unfolding state_machine_request_save
request_save-IsConsistent g m none h = h
request_save-IsConsistent g m (some rec) h = ground arith

module _ (hash16 : Text → List ℕ) where
  try_unlock-IsConsistent :
      (m : Machine) (pin : Option Text)
      → IsConsistent m.ctx
      → IsConsistent (state_machine_try_unlock hash16 m pin).0.ctx
  unfolding state_machine_try_unlock
  try_unlock-IsConsistent m none h = h
  try_unlock-IsConsistent m (some pin) h = elim (Bool-cases m.ctx.wiped) [
    | inl w ↦ ground arith
    | inr w ↦ ground (arith, unlock_context-IsConsistent m.ctx w, fail_context-IsConsistent m w h)
  ]

  pub set_pin-ctx :
      (m : Machine) (old_pin new_pin : Option Text)
      → (state_machine_set_pin hash16 m old_pin new_pin).0.ctx ≡ m.ctx
  unfolding state_machine_set_pin
  set_pin-ctx m none new_pin = refl
  set_pin-ctx m (some old_pin) none = refl
  set_pin-ctx m (some old_pin) (some new_pin) = ground arith

pub apply_settings-ctx :
    (m : Machine) (s : Option RuntimeSettings) → (state_machine_apply_settings m s).ctx ≡ m.ctx
unfolding state_machine_apply_settings
apply_settings-ctx m none = refl
apply_settings-ctx m (some s) = refl

pub set_pin_verifier-ctx :
    (m : Machine) (v : Option (List ℕ)) → (state_machine_set_pin_verifier m v).ctx ≡ m.ctx
unfolding state_machine_set_pin_verifier
set_pin_verifier-ctx m none = refl
set_pin_verifier-ctx m (some v) = refl

module _ (hash16 : Text → List ℕ) (g : PolicyGlobals) where
  pub step-IsConsistent :
      (m : Machine) (e : Event) → IsConsistent m.ctx → IsConsistent (step hash16 g m e).0.ctx
  unfolding step
  step-IsConsistent m tick h = tick-IsConsistent m h
  step-IsConsistent m touch_tap h = touch_tap-IsConsistent m h
  step-IsConsistent m touch_hold h = touch_hold-IsConsistent m h
  step-IsConsistent m lock h = lock-IsConsistent m h
  step-IsConsistent m (try_unlock pin) h = try_unlock-IsConsistent hash16 m pin h
  step-IsConsistent m (set_pin old_pin new_pin) h = rw (set_pin-ctx hash16 m old_pin new_pin) h
  step-IsConsistent m (request_fill rec origin) h = request_fill-IsConsistent m rec origin h
  step-IsConsistent m (request_save rec) h = request_save-IsConsistent g m rec h
  step-IsConsistent m (apply_settings s) h = rw (apply_settings-ctx m s) h
  step-IsConsistent m (set_pin_verifier v) h = rw (set_pin_verifier-ctx m v) h

  pub run-IsConsistent :
      (m : Machine) (es : List Event) → IsConsistent m.ctx → IsConsistent (run hash16 g m es).ctx
  unfolding run
  run-IsConsistent m [] h = h
  run-IsConsistent m (e ∷ es) h =
      run-IsConsistent (step hash16 g m e).0 es (step-IsConsistent m e h)

  -- After any calls in any order on a freshly started device: a wiped device is locked out and not
  -- unlocked, an unlocked one is in neither locked state, one that is not unlocked is in one of
  -- them, and a lockout is a wipe or has ticks left to run.
  pub reachable-IsConsistent : (es : List Event) → IsConsistent (run hash16 g fresh es).ctx
  reachable-IsConsistent es = run-IsConsistent fresh es fresh-IsConsistent
