-- ===== src/ActionEngine/Calls.antt =====
-- The calls that the rest of the firmware can make on firmware/src/action_engine.c, and on the
-- state machine beside it, in any order. `action_engine_init` is the start.
use safe_key_vault.Prelude.{Option, List, [], ◌∷◌, Text, Outcome, answer, ◌>>=◌}
use safe_key_vault.FirmwareTypes.{RuntimeSettings}
use safe_key_vault.BrowserProtocol.{BrowserCommand}
use safe_key_vault.StateMachine.{state_machine_tick, state_machine_lock}
use safe_key_vault.ActionEngine.{ActionEngine}
use safe_key_vault.ActionEngine.Commands.{action_engine_handle_command}
use safe_key_vault.ActionEngine.Confirm.{
  action_engine_unlock_with_pin, action_engine_arm_manual_popup, action_engine_try_change_pin,
  action_engine_confirm_tap, action_engine_confirm_hold,
}
use safe_key_vault.ActionEngine.Device.{
  run_device_command, action_engine_popup_open, action_engine_device_apply_settings,
}

-- `device_command` is any of the functions that confirm their own command: to save, to modify, to
-- fill, to generate, to select, or a press of the button on a known origin. `popup_open` is the
-- button held, pressed on no known origin, or the settings opened.
pub data Call : Type 0 where
  tap hold arm popup_open tick lock : Call
  command device_command : BrowserCommand → Call
  unlock_with_pin : Option Text → Call
  change_pin : Option Text → Option Text → Call
  apply_settings : RuntimeSettings → Call

unfoldable pub step : ActionEngine → Call → Outcome ActionEngine
step e tap = action_engine_confirm_tap e >>= λ r. answer (r.0)
step e hold = action_engine_confirm_hold e >>= λ r. answer (r.0)
step e arm = answer (action_engine_arm_manual_popup e)
step e popup_open = answer (action_engine_popup_open e).0
step e tick = answer (record e { machine = state_machine_tick e.machine })
step e lock = answer (record e { machine = state_machine_lock e.machine })
step e (command cmd) = action_engine_handle_command e cmd >>= λ r. answer (r.0)
step e (device_command cmd) = run_device_command e cmd >>= λ r. answer (r.0)
step e (unlock_with_pin pin) = action_engine_unlock_with_pin e pin >>= λ r. answer (r.0)
step e (change_pin old_pin new_pin) =
    action_engine_try_change_pin e old_pin new_pin >>= λ r. answer (r.0)
step e (apply_settings settings) = answer (action_engine_device_apply_settings e settings).0

-- The calls in order, up to one that halts.
unfoldable pub run : ActionEngine → List Call → Outcome ActionEngine
run e [] = answer e
run e (c ∷ cs) = step e c >>= λ e'. run e' cs
