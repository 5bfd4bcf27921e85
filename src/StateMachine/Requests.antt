-- ===== src/StateMachine/Requests.antt =====
-- The fill and save requests of firmware/src/state_machine.c. A NULL record is `none`.
use safe_key_vault.Prelude.{
  Bool, true, false, ◌||◌, not, Option, none, some, Text, strncpy, strncmp_eq, if◌then◌else◌,
}
use safe_key_vault.FirmwareTypes.{CredentialRecord, prompt_fill, prompt_save, confirm_type}
use safe_key_vault.BrowserProtocol.{
  BrowserCommand, request_fill, request_save, max_origin_len, browser_validate_command,
}
use safe_key_vault.PasswordPolicy.{
  PolicyGlobals, security_evaluate_password, security_should_allow_save,
}
use safe_key_vault.StateMachine.{Machine, is_locked_out}

-- The command that both requests validate: each text is copied into its array twice.
abbrev pub fill_command : CredentialRecord → Text → BrowserCommand
fill_command record_in origin = record {
  type = request_fill;
  nonce = 0;
  origin = strncpy 95 origin;
  username = strncpy 95 (strncpy 95 record_in.username);
  password = strncpy 127 (strncpy 127 record_in.password);
}

abbrev pub save_command : CredentialRecord → BrowserCommand
save_command record_in = record {
  type = request_save;
  nonce = 0;
  origin = strncpy 95 (strncpy 127 record_in.origin);
  username = strncpy 95 (strncpy 95 record_in.username);
  password = strncpy 127 (strncpy 127 record_in.password);
}

-- The test that starts both requests.
abbrev pub refuses_requests : Machine → Bool
refuses_requests m = not m.ctx.unlocked || m.ctx.wiped || is_locked_out m.ctx.state

unfoldable pub state_machine_request_fill :
    Machine → Option CredentialRecord → Option Text → Machine × Bool
state_machine_request_fill m (some rec) (some origin) =
    let origin_copy = strncpy 127 rec.origin in
    let next =
      if m.settings.require_touch_for_fill || rec.requires_touch
      then prompt_fill
      else confirm_type in
    if refuses_requests m
    then (m, false)
    else if not (browser_validate_command (fill_command rec origin)).0
    then (m, false)
    else if not (strncmp_eq max_origin_len origin_copy origin)
    then (m, false)
    else (record m { ctx = record (m.ctx) { inactivity_seconds = 0; state = next } }, true)
state_machine_request_fill m _ _ = (m, false)

unfoldable pub state_machine_request_save :
    PolicyGlobals → Machine → Option CredentialRecord → Machine × Bool
state_machine_request_save g m none = (m, false)
state_machine_request_save g m (some rec) =
    let policy = security_evaluate_password g (some (strncpy 127 rec.password)) in
    if refuses_requests m
    then (m, false)
    else if not (security_should_allow_save (some policy) false)
    then (m, false)
    else if not (browser_validate_command (save_command rec)).0
    then (m, false)
    else (record m { ctx = record (m.ctx) { state = prompt_save; inactivity_seconds = 0 } }, true)
