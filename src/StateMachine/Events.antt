-- ===== src/StateMachine/Events.antt =====
-- The calls that the rest of the firmware can make on firmware/src/state_machine.c, as events, and
-- runs of them in any order.
use safe_key_vault.Prelude.{Bool, true, Option, List, [], ◌∷◌, ℕ, Text}
use safe_key_vault.FirmwareTypes.{CredentialRecord, RuntimeSettings}
use safe_key_vault.PasswordPolicy.{PolicyGlobals}
use safe_key_vault.StateMachine.{
  Machine, state_machine_tick, state_machine_on_touch_tap, state_machine_on_touch_hold,
  state_machine_apply_settings, state_machine_set_pin_verifier, state_machine_lock,
}
use safe_key_vault.StateMachine.Pin.{state_machine_try_unlock, state_machine_set_pin}
use safe_key_vault.StateMachine.Requests.{state_machine_request_fill, state_machine_request_save}

-- Every call that can change the state, but `state_machine_init`, which the start makes.
pub data Event : Type 0 where
  tick touch_tap touch_hold lock : Event
  try_unlock : Option Text → Event
  set_pin : Option Text → Option Text → Event
  request_fill : Option CredentialRecord → Option Text → Event
  request_save : Option CredentialRecord → Event
  apply_settings : Option RuntimeSettings → Event
  set_pin_verifier : Option (List ℕ) → Event

module _ (hash16 : Text → List ℕ) (g : PolicyGlobals) where
  unfoldable pub step : Machine → Event → Machine × Bool
  step m tick = (state_machine_tick m, true)
  step m touch_tap = (state_machine_on_touch_tap m, true)
  step m touch_hold = (state_machine_on_touch_hold m, true)
  step m lock = (state_machine_lock m, true)
  step m (try_unlock pin) = state_machine_try_unlock hash16 m pin
  step m (set_pin old_pin new_pin) = state_machine_set_pin hash16 m old_pin new_pin
  step m (request_fill rec origin) = state_machine_request_fill m rec origin
  step m (request_save rec) = state_machine_request_save g m rec
  step m (apply_settings settings) = (state_machine_apply_settings m settings, true)
  step m (set_pin_verifier verifier) = (state_machine_set_pin_verifier m verifier, true)

  unfoldable pub run : Machine → List Event → Machine
  run m [] = m
  run m (e ∷ es) = run (step m e).0 es
