-- ===== src/ActionEngine/Commands.antt =====
-- firmware/src/action_engine.c: `action_engine_handle_command`, one function per case of its
-- `switch`.
use safe_key_vault.Prelude.{
  ℕ, zero, suc, ◌+◌, ◌%◌, Bool, true, false, ◌||◌, not, Option, none, some, List, [], ◌∷◌, Text,
  get_or, strncpy, ltb, ◌==◌, length, if◌then◌else◌, Outcome, answer, ◌>>=◌,
}
use safe_key_vault.FirmwareTypes.{CredentialRecord, select_credential}
use safe_key_vault.BrowserProtocol.{
  BrowserCommand, BrowserCommandResult, none_type, request_fill, request_save, request_generate,
  request_select_next, browser_validate_command,
}
use safe_key_vault.PasswordPolicy.{
  PasswordStrength, weak, PolicyResult, password_min_length, security_evaluate_password,
}
use safe_key_vault.PasswordGenerator.{PasswordProfile, password_generate}
use safe_key_vault.StateMachine.{u32, state_machine_get_settings}
use safe_key_vault.StateMachine.Requests.{state_machine_request_fill}
use safe_key_vault.Vault.{Credential, password_store_find_by_origin, password_store_next_id}
use safe_key_vault.ActionEngine.{
  ActionEngine, ActionResult, Message, text, refusal, PendingAction, PendingRequest, pending_fill,
  pending_save, pending_generate, pending_select, load_record_plaintext, stash_record,
  admit_command,
}

-- What a handler gives.
abbrev pub Step : Type 0
Step = Outcome (ActionEngine × ActionResult)

-- The pending request that a case of the `switch` sets.
abbrev pub pend : PendingAction → BrowserCommand → Credential → Bool → PendingRequest
pend kind cmd entry override_with_hold = record {
  kind = kind;
  credential = entry;
  command = cmd;
  override_with_hold = override_with_hold;
  pending_index = 0;
}

abbrev pub fill_result : ActionEngine → BrowserCommandResult → ActionResult
fill_result e browser_result =
    let message =
      if browser_result.high_risk_origin
      then text "hold to confirm high-risk fill"
      else text "touch to confirm fill" in
    record (refusal message) {
      allowed = true;
      touch_required = (state_machine_get_settings e.machine).manual_popup_requires_touch;
      save_prompt_recommended = (state_machine_get_settings e.machine).auto_popup_enabled;
    }

-- The case for an entry that was found, once `load_record_plaintext` has answered.
unfoldable pub fill_loaded :
    ActionEngine
    → BrowserCommand
    → Credential
    → Option CredentialRecord
    → ActionEngine × ActionResult
fill_loaded e cmd entry none = (e, refusal (text "decrypt failed"))
fill_loaded e cmd entry (some rec) =
    let (machine, granted) = state_machine_request_fill e.machine (some rec) (some cmd.origin) in
    if not granted then (record e { machine = machine }, refusal (text "fill blocked")) else (
      record e {
        machine = machine;
        pending = pend pending_fill cmd entry false;
        manual_popup_armed = false;
      },
      fill_result e (browser_validate_command cmd).1,
    )

unfoldable pub fill_entry : ActionEngine → BrowserCommand → Credential → Step
unfolding fill_loaded
fill_entry e cmd entry =
    load_record_plaintext e.crypto entry >>= λ loaded. answer (fill_loaded e cmd entry loaded)

unfoldable pub handle_fill : ActionEngine → BrowserCommand → Step
unfolding fill_entry
handle_fill e cmd = elim (password_store_find_by_origin e.vault (some cmd.origin)) [
  | none ↦ answer (e, refusal (text "no credential for origin"))
  | some entry ↦ fill_entry e cmd entry
]

-- The record that is to be saved, and the clock.
abbrev pub record_of : BrowserCommand → Text → ℕ → CredentialRecord
record_of cmd password now = record {
  origin = strncpy 127 cmd.origin;
  username = strncpy 95 cmd.username;
  password = password;
  updated_at_epoch = now;
  auto_type_enabled = false;
  requires_touch = true;
}

abbrev pub is_weak : PasswordStrength → Bool
is_weak weak = true
is_weak _ = false

-- `*out` with the warnings of the policy.
abbrev pub warned : PolicyResult → Message → ActionResult
warned policy message = record (refusal message) {
  weak_password_warning = is_weak policy.strength;
  common_password_warning = policy.is_common;
  reused_password_warning = policy.is_reused;
}

-- What follows `stash_record` in both cases that save: the entry gets an id and waits.
unfoldable pub await_entry :
    PendingAction
    → Bool
    → BrowserCommand
    → ActionResult
    → ActionResult
    → ActionEngine
    → Option Credential
    → ActionEngine × ActionResult
await_entry kind override_with_hold cmd failed done e none = (e, failed)
await_entry kind override_with_hold cmd failed done e (some entry) = (
  record e {
    pending =
        pend kind cmd (record entry { id = password_store_next_id e.vault }) override_with_hold;
    manual_popup_armed = false;
  },
  done,
)

abbrev pub save_result : ActionEngine → PolicyResult → ActionResult
save_result e policy =
    let message =
      if policy.is_common || policy.is_reused
      then text "hold required to override warning"
      else text "touch to save" in
    record (warned policy message) {
      allowed = true;
      touch_required = true;
      save_prompt_recommended = (state_machine_get_settings e.machine).auto_popup_enabled;
    }

unfoldable pub handle_save : ActionEngine → BrowserCommand → Step
unfolding await_entry
handle_save e cmd =
    let password = strncpy 127 cmd.password in
    let next = record e { action_clock = u32 (e.action_clock + 1) } in
    let policy = security_evaluate_password e.policy (some password) in
    if policy.too_short
    then answer (next, warned policy (text "password too short"))
    else stash_record e.crypto (record_of cmd password e.action_clock) >>= λ r. answer (
        await_entry pending_save (policy.is_common || policy.is_reused) cmd
          (warned policy (text "prepare save failed")) (save_result e policy)
          (record next { crypto = r.0 }) (r.1))

-- The loop over the seed, from round i on. The bytes behind the NUL of the array are zeros.
unfoldable pub seed_bytes : ℕ → ℕ → Text → List ℕ
seed_bytes zero i origin = []
seed_bytes (suc left) i origin =
    (get_or origin (i % 96) 0 + i + 31) % 256 ∷ seed_bytes left (i + 1) origin

abbrev pub generate_result : ActionEngine → Text → ActionResult
generate_result e password = record (refusal (text "touch to save generated password")) {
  allowed = true;
  touch_required = true;
  generated_password = true;
  save_prompt_recommended = (state_machine_get_settings e.machine).auto_popup_enabled;
  generated_value = strncpy 127 password;
}

-- The case for a password that was generated.
unfoldable pub generate_entry : ActionEngine → BrowserCommand → Text → Step
unfolding await_entry
generate_entry e cmd password =
    let next = record e { action_clock = u32 (e.action_clock + 1) } in
    if ltb (length password) password_min_length
    then answer (e, refusal (text "generation failed"))
    else stash_record e.crypto (record_of cmd password e.action_clock) >>= λ r. answer (
        await_entry pending_generate false cmd (refusal (text "prepare generated save failed"))
          (generate_result e password) (record next { crypto = r.0 }) (r.1))

unfoldable pub handle_generate : ActionEngine → BrowserCommand → Step
unfolding seed_bytes generate_entry
handle_generate e cmd =
    elim (password_generate PasswordProfile.strong (seed_bytes 16 0 cmd.origin) 128) [
      | none ↦ answer (e, refusal (text "generation failed"))
      | some password ↦ generate_entry e cmd password
    ]

-- The rest of the pending request stays.
unfoldable pub handle_select : ActionEngine → ActionEngine × ActionResult
handle_select e =
    let index = u32 (e.machine.ctx.selected_credential_idx + 1) % e.vault.count in
    if e.vault.count == 0 then (e, refusal (text "no credentials")) else (
      record e {
        pending = record (e.pending) { kind = pending_select; pending_index = index };
        machine = record (e.machine) { ctx = record (e.machine.ctx) { state = select_credential } };
      },
      record (refusal (text "hold to confirm selection")) {
        allowed = true;
        touch_required = true;
        selected_next = true;
      },
    )

-- The `switch`, for a command that passed the checks.
unfoldable pub dispatch : ActionEngine → BrowserCommand → Step
unfolding handle_fill handle_save handle_generate handle_select
dispatch e cmd = elim (cmd.type) [
  | request_fill ↦ handle_fill e cmd
  | request_save ↦ handle_save e cmd
  | request_generate ↦ handle_generate e cmd
  | request_select_next ↦ answer (handle_select e)
  | none_type ↦ answer (e, refusal (text "unsupported command"))
]

unfoldable pub behind_checks : BrowserCommand → ActionEngine × Option Message → Step
behind_checks cmd (e, some message) = answer (e, refusal message)
behind_checks cmd (e, none) = dispatch e cmd

unfoldable pub action_engine_handle_command : ActionEngine → BrowserCommand → Step
unfolding behind_checks
action_engine_handle_command e cmd = behind_checks cmd (admit_command e cmd)
