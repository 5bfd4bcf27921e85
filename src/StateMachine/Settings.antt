-- ===== src/StateMachine/Settings.antt =====
-- firmware/src/state_machine.c: the settings in force are sound whatever is applied.
use safe_key_vault.Prelude.{
  ℕ, ◌<◌, inl, inr, Option, none, some, List, [], ◌∷◌, Text, ◌≡◌, ◌⊎◌, refl, arith,
}
use safe_key_vault.FirmwareTypes.{RuntimeSettings, CredentialRecord}
use safe_key_vault.PasswordPolicy.{PolicyGlobals}
use safe_key_vault.StateMachine.{
  Machine, fresh, state_machine_tick, state_machine_on_touch_tap, state_machine_on_touch_hold,
  state_machine_lock, state_machine_apply_settings, state_machine_get_settings,
  state_machine_set_pin_verifier,
}
use safe_key_vault.StateMachine.Pin.{state_machine_try_unlock, state_machine_set_pin}
use safe_key_vault.StateMachine.Requests.{state_machine_request_fill, state_machine_request_save}
use safe_key_vault.StateMachine.Events.{
  Event, tick, touch_tap, touch_hold, lock, try_unlock, set_pin, request_fill, request_save,
  apply_settings, set_pin_verifier, step, run,
}

-- An attempt limit of 3, 5 or 10, and an autolock time that is not 0.
abbrev pub IsSound : RuntimeSettings → Type 0
IsSound s =
    ((s.pin_attempt_limit ≡ 3) ⊎ (s.pin_attempt_limit ≡ 5) ⊎ (s.pin_attempt_limit ≡ 10))
    × (0 < s.autolock_seconds)

apply_settings-IsSound :
    (m : Machine) (s : Option RuntimeSettings)
    → IsSound m.settings
    → IsSound (state_machine_apply_settings m s).settings
unfolding state_machine_apply_settings
apply_settings-IsSound m none h = h
apply_settings-IsSound m (some s) h = ground arith

module _ (hash16 : Text → List ℕ) where
  try_unlock-settings :
      (m : Machine) (pin : Option Text)
      → (state_machine_try_unlock hash16 m pin).0.settings ≡ m.settings
  unfolding state_machine_try_unlock
  try_unlock-settings m none = refl
  try_unlock-settings m (some pin) = ground arith

  set_pin-settings :
      (m : Machine) (old_pin new_pin : Option Text)
      → (state_machine_set_pin hash16 m old_pin new_pin).0.settings ≡ m.settings
  unfolding state_machine_set_pin
  set_pin-settings m (some old_pin) (some new_pin) = ground arith
  set_pin-settings m _ _ = refl

request_fill-settings :
    (m : Machine) (rec : Option CredentialRecord) (origin : Option Text)
    → (state_machine_request_fill m rec origin).0.settings ≡ m.settings
unfolding state_machine_request_fill
request_fill-settings m (some rec) (some origin) = ground arith
request_fill-settings m _ _ = refl

request_save-settings :
    (g : PolicyGlobals) (m : Machine) (rec : Option CredentialRecord)
    → (state_machine_request_save g m rec).0.settings ≡ m.settings
unfolding state_machine_request_save
request_save-settings g m none = refl
request_save-settings g m (some rec) = ground arith

timed-settings :
    (m : Machine)
    → ((state_machine_tick m).settings ≡ m.settings)
      × ((state_machine_on_touch_tap m).settings ≡ m.settings)
      × ((state_machine_on_touch_hold m).settings ≡ m.settings)
      × ((state_machine_lock m).settings ≡ m.settings)
unfolding state_machine_tick state_machine_on_touch_tap state_machine_on_touch_hold
    state_machine_lock
timed-settings m = (ground arith, ground arith, ground arith, ground arith)

set_pin_verifier-settings :
    (m : Machine) (v : Option (List ℕ)) → (state_machine_set_pin_verifier m v).settings ≡ m.settings
unfolding state_machine_set_pin_verifier
set_pin_verifier-settings m none = refl
set_pin_verifier-settings m (some v) = refl

module _ (hash16 : Text → List ℕ) (g : PolicyGlobals) where
  -- Only `apply_settings` changes the settings.
  pub step-settings :
      (m : Machine) (e : Event)
      → ((s : Option RuntimeSettings) → e ≡ apply_settings s → ⊥)
      → (step hash16 g m e).0.settings ≡ m.settings
  unfolding step
  step-settings m tick h = (timed-settings m).0
  step-settings m touch_tap h = (timed-settings m).1
  step-settings m touch_hold h = (timed-settings m).2
  step-settings m lock h = (timed-settings m).3
  step-settings m (try_unlock pin) h = try_unlock-settings hash16 m pin
  step-settings m (set_pin old_pin new_pin) h = set_pin-settings hash16 m old_pin new_pin
  step-settings m (request_fill rec origin) h = request_fill-settings m rec origin
  step-settings m (request_save rec) h = request_save-settings g m rec
  step-settings m (apply_settings s) h = absurd (h s refl)
  step-settings m (set_pin_verifier v) h = set_pin_verifier-settings m v

  step-IsSound :
      (m : Machine) (e : Event) → IsSound m.settings → IsSound (step hash16 g m e).0.settings
  unfolding step
  step-IsSound m (apply_settings s) h = apply_settings-IsSound m s h
  step-IsSound m e h = rw (step-settings m e (λ s q. cc)) h

  run-IsSound :
      (m : Machine) (es : List Event) → IsSound m.settings → IsSound (run hash16 g m es).settings
  unfolding run
  run-IsSound m [] h = h
  run-IsSound m (e ∷ es) h = run-IsSound (step hash16 g m e).0 es (step-IsSound m e h)

  -- After any calls in any order on a freshly started device, the attempt limit in force is 3, 5
  -- or 10 and the autolock time is not 0, whatever settings were applied.
  pub reachable-IsSound :
      (es : List Event) → IsSound (state_machine_get_settings (run hash16 g fresh es))
  unfolding state_machine_get_settings
  reachable-IsSound es = run-IsSound fresh es (inr (inl refl), omega arith)
