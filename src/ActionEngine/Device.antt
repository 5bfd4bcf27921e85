-- ===== src/ActionEngine/Device.antt =====
-- firmware/src/action_engine.c: the actions of the device itself, the settings, and the button.
use safe_key_vault.Prelude.{
  true, false, ◌||◌, not, Option, none, some, [], Text, strncpy, ◌==◌, if◌then◌else◌, answer, ◌>>=◌,
}
use safe_key_vault.FirmwareTypes.{RuntimeSettings}
use safe_key_vault.BrowserProtocol.{
  BrowserCommand, BrowserCommandType, request_fill, request_save, request_generate,
  request_select_next, is_empty,
}
use safe_key_vault.StateMachine.{
  auto_lock_timeout_seconds_default, state_machine_get_settings, state_machine_apply_settings,
  state_machine_is_wiped,
}
use safe_key_vault.Vault.{password_store_find_by_origin}
use safe_key_vault.ActionEngine.{ActionEngine, ActionResult, text, refusal, is_shut, blank_command}
use safe_key_vault.ActionEngine.Commands.{Step, action_engine_handle_command}
use safe_key_vault.ActionEngine.Confirm.{action_engine_confirm_hold}

-- A command of the device itself: it is confirmed at once where it is allowed.
unfoldable pub run_device_command : ActionEngine → BrowserCommand → Step
run_device_command e cmd = action_engine_handle_command e cmd >>= λ r.
    if not (r.1).allowed then answer r else action_engine_confirm_hold (r.0)

-- The texts are cut to char[96], char[96] and char[128], and the nonce is 0.
abbrev pub device_command : BrowserCommandType → Text → Text → Text → BrowserCommand
device_command type origin username password = record {
  type = type;
  nonce = 0;
  origin = strncpy 95 origin;
  username = strncpy 95 username;
  password = strncpy 127 password;
}

unfoldable pub action_engine_device_save_credential : ActionEngine → Text → Text → Text → Step
unfolding run_device_command
action_engine_device_save_credential e origin username password =
    run_device_command e (device_command request_save origin username password)

unfoldable pub action_engine_device_fill_current : ActionEngine → Text → Step
unfolding run_device_command
action_engine_device_fill_current e origin =
    run_device_command e (device_command request_fill origin [] [])

-- A NULL user name is the empty one.
unfoldable pub action_engine_device_generate_for_origin : ActionEngine → Text → Option Text → Step
unfolding run_device_command
action_engine_device_generate_for_origin e origin username =
    let name : Text = elim username [ none ↦ [] | some name ↦ name ] in
    run_device_command e (device_command request_generate origin name [])

unfoldable pub action_engine_device_select_next : ActionEngine → Step
unfolding run_device_command
action_engine_device_select_next e =
    run_device_command e (record blank_command { type = request_select_next })

-- The interaction model that both functions below enforce.
abbrev pub open_settings : RuntimeSettings → RuntimeSettings
open_settings s = record s {
  auto_popup_enabled = true;
  manual_popup_requires_touch = false;
  require_touch_for_fill = false;
  hold_required_for_selection = false;
}

unfoldable pub action_engine_popup_open : ActionEngine → ActionEngine × ActionResult
action_engine_popup_open e = (
  record e {
    machine =
        state_machine_apply_settings e.machine
          (some (open_settings (state_machine_get_settings e.machine)));
  },
  record (refusal (text "settings popup open")) { allowed = true; performed = true },
)

unfoldable pub action_engine_device_open_settings : ActionEngine → ActionEngine × ActionResult
unfolding action_engine_popup_open
action_engine_device_open_settings e = action_engine_popup_open e

unfoldable pub action_engine_device_apply_settings :
    ActionEngine → RuntimeSettings → ActionEngine × ActionResult
action_engine_device_apply_settings e settings =
    let seconds =
      if settings.autolock_seconds == 0
      then auto_lock_timeout_seconds_default
      else settings.autolock_seconds in
    let applied = record (open_settings settings) { autolock_seconds = seconds } in
    if is_shut e.machine || state_machine_is_wiped e.machine
    then (e, refusal (text "device locked"))
    else (
      record e { machine = state_machine_apply_settings e.machine (some applied) },
      record (refusal (text "settings updated")) { allowed = true; performed = true },
    )

unfoldable pub action_engine_device_modify_password : ActionEngine → Text → Text → Text → Step
unfolding action_engine_device_save_credential
action_engine_device_modify_password e origin username new_password =
    action_engine_device_save_credential e origin username new_password

-- An origin that is NULL, empty or unknown opens the settings.
unfoldable pub action_engine_button_press : ActionEngine → Option Text → Step
unfolding action_engine_popup_open action_engine_device_fill_current
action_engine_button_press e none = answer (action_engine_popup_open e)
action_engine_button_press e (some origin) =
    if is_empty origin
    then answer (action_engine_popup_open e)
    else elim (password_store_find_by_origin e.vault (some origin)) [
      | none ↦ answer (action_engine_popup_open e)
      | some ignored ↦ action_engine_device_fill_current e origin
    ]

unfoldable pub action_engine_button_hold : ActionEngine → ActionEngine × ActionResult
unfolding action_engine_popup_open
action_engine_button_hold e = action_engine_popup_open e
