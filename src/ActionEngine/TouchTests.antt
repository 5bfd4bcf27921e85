-- ===== src/ActionEngine/TouchTests.antt =====
-- Runs of firmware/src/action_engine.c: commands, touches and the selection.
use safe_key_vault.Prelude.{
  ◌≤◌, ◌≡◌, ◌≢◌, inr, refl, arith, true, false, [], ◌∷◌, ◌++◌, Text, codes, replicate, strncpy,
  strncmp_eq, strstr, memcmp_eq, answer,
}
use safe_key_vault.FirmwareTypes.{unlocked}
use safe_key_vault.SecureElement.{
  digest_of, xor_from, read_from, atecc608a_is_available, atecc608a_is_ready,
  atecc608a_is_slot_provisioned, atecc608a_read_slot, atecc608a_decrypt_aead,
}
use safe_key_vault.CryptoEngine.{crypto_engine_ready_for_sensitive_ops, crypto_engine_decrypt_aead}
use safe_key_vault.CryptoEngine.Hex.{hex_decode}
use safe_key_vault.CryptoEngine.Passwords.{
  parse_password, decrypted_text, crypto_engine_decrypt_password,
}
use safe_key_vault.BrowserProtocol.{
  BrowserCommand, request_fill, browser_validate_command, is_safe_ascii_text, has_url_like_value,
  browser_origin_is_suspicious,
}
use safe_key_vault.RateLimiter.{rate_limiter_init, rate_limiter_allow}
use safe_key_vault.StateMachine.{
  fresh, state_machine_is_wiped, state_machine_get_settings, state_machine_on_touch_hold,
  state_machine_tick,
}
use safe_key_vault.StateMachine.Requests.{state_machine_request_fill}
use safe_key_vault.Vault.{
  Credential, blank, password_store_find_by_origin, password_store_get_by_index,
}
use safe_key_vault.ActionEngine.{
  ActionEngine, ActionResult, refusal, replay_blocked, action_none, pending_fill, blank_command,
  load_record_plaintext, admit_command, admit_behind,
}
use safe_key_vault.ActionEngine.Commands.{pend, dispatch, action_engine_handle_command}
use safe_key_vault.ActionEngine.Confirm.{action_engine_confirm_hold, wants_button}
use safe_key_vault.ActionEngine.Device.{run_device_command, action_engine_device_select_next}
use safe_key_vault.ActionEngine.Calls.{tick, command, step, run}
use safe_key_vault.ActionEngine.Gates.{Keeps}
use safe_key_vault.ActionEngine.Handlers.{IsBound}
use safe_key_vault.ActionEngine.Guarded.{IsGranted, handle_command-guards}
use safe_key_vault.ActionEngine.Replay.{replay_is_blocked, pending_fill-IsBound}
use safe_key_vault.ActionEngine.Filling.{Opens, confirm_types_pending}
use safe_key_vault.ActionEngine.Holding.{hold_ignores_lock}
use safe_key_vault.ActionEngine.Selecting.{IsSelected, next_index, select_next_cycles}
use safe_key_vault.ActionEngine.Tests.{engine, site, password, or_else}

-- An entry with the encrypted password of the other tests.
abbrev entry : Credential
entry = record blank {
  valid = true;
  id = 1;
  origin = site;
  username = codes "bob";
  password_ciphertext =
      codes "v1:c4cfaec60000000000000000:"
      ++ codes "ec629a12000000000000000000000000:"
      ++ codes "5375377265336368752134";
}

abbrev stocked : ActionEngine
stocked = record engine { vault = record { credentials = entry ∷ replicate 31 blank; count = 1 } }

abbrev fill_call : BrowserCommand
fill_call = record blank_command { type = request_fill; nonce = 5; origin = site }

waiting : ActionEngine × ActionResult
unfolding action_engine_handle_command
waiting = or_else (action_engine_handle_command stocked fill_call)

fill_run :
    (action_engine_handle_command stocked fill_call ≡ answer (waiting.0, waiting.1))
    × ((waiting.1).allowed ≡ true)
    × ((waiting.0).pending.kind ≡ pending_fill)
unfolding waiting action_engine_handle_command dispatch admit_command admit_behind rate_limiter_init
    rate_limiter_allow browser_validate_command is_safe_ascii_text has_url_like_value
    browser_origin_is_suspicious strncmp_eq strstr state_machine_is_wiped
    crypto_engine_ready_for_sensitive_ops digest_of atecc608a_read_slot read_from xor_from
    atecc608a_is_available atecc608a_is_ready atecc608a_is_slot_provisioned
    crypto_engine_decrypt_password parse_password hex_decode crypto_engine_decrypt_aead
    atecc608a_decrypt_aead memcmp_eq decrypted_text state_machine_get_settings
    password_store_find_by_origin load_record_plaintext state_machine_request_fill
fill_run = (refl, refl, refl)

handle_command-guards_example :
    let e' = waiting.0 in
    let r = waiting.1 in
    (e'.vault ≡ stocked.vault)
    × (stocked.last_nonce ≤ e'.last_nonce)
    × (r.allowed ≡ false → Keeps stocked e')
    × (r.allowed ≡ true → IsGranted stocked fill_call × (5 ≤ e'.last_nonce) × IsBound e'.pending)
    × (r.performed ≡ false)
handle_command-guards_example =
    handle_command-guards stocked fill_call waiting.0 waiting.1 fill_run.0

ticked :
    run waiting.0 (tick ∷ [])
    ≡ answer (record (waiting.0) { machine = state_machine_tick (waiting.0).machine })
unfolding run step
ticked = refl

replay_is_blocked_example :
    let later = record (waiting.0) { machine = state_machine_tick (waiting.0).machine } in
    action_engine_handle_command later fill_call ≡ answer (later, refusal replay_blocked)
replay_is_blocked_example =
    replay_is_blocked stocked fill_call waiting.0 waiting.1 (tick ∷ [])
      (record (waiting.0) { machine = state_machine_tick (waiting.0).machine }) fill_call fill_run.0
      fill_run.1 ticked (λ e. omega (arith, e)) (omega arith)

commanded : run stocked (command fill_call ∷ []) ≡ answer waiting.0
unfolding run step
commanded = rw fill_run.0 refl

pending_fill-IsBound_example : IsBound (waiting.0).pending
pending_fill-IsBound_example =
    pending_fill-IsBound stocked (command fill_call ∷ []) waiting.0 (λ e. cc e) commanded

typed_now : ActionEngine × ActionResult
unfolding action_engine_confirm_hold
typed_now = or_else (action_engine_confirm_hold waiting.0)

typed_run :
    (action_engine_confirm_hold waiting.0 ≡ answer (typed_now.0, typed_now.1))
    × ((typed_now.1).typed_password ≡ password)
unfolding typed_now waiting action_engine_confirm_hold state_machine_on_touch_hold
    action_engine_handle_command dispatch admit_command admit_behind rate_limiter_init
    rate_limiter_allow browser_validate_command is_safe_ascii_text has_url_like_value
    browser_origin_is_suspicious strncmp_eq strstr state_machine_is_wiped
    crypto_engine_ready_for_sensitive_ops digest_of atecc608a_read_slot read_from xor_from
    atecc608a_is_available atecc608a_is_ready atecc608a_is_slot_provisioned
    crypto_engine_decrypt_password parse_password hex_decode crypto_engine_decrypt_aead
    atecc608a_decrypt_aead memcmp_eq decrypted_text state_machine_get_settings
    password_store_find_by_origin load_record_plaintext state_machine_request_fill
typed_run = (refl, refl)

confirm_types_pending_example :
    ((waiting.0).pending.kind ≡ pending_fill)
    × ((typed_now.1).typed_username ≡ strncpy 95 (waiting.0).pending.credential.username)
    × ((plain : Text) × Opens waiting.0 plain × ((typed_now.1).typed_password ≡ strncpy 127 plain))
    × ((typed_now.0).pending.kind ≡ action_none)
confirm_types_pending_example =
    confirm_types_pending waiting.0 typed_now.0 typed_now.1 (inr typed_run.0)
      (inr (λ e. cc (typed_run.1, e)))

-- The same engine, locked while the fill waits.
abbrev shut_engine : ActionEngine
shut_engine = record stocked { machine = fresh; pending = pend pending_fill fill_call entry false }

opens : Opens shut_engine password
unfolding crypto_engine_ready_for_sensitive_ops digest_of atecc608a_read_slot read_from xor_from
    atecc608a_is_available atecc608a_is_ready atecc608a_is_slot_provisioned
    crypto_engine_decrypt_password parse_password hex_decode crypto_engine_decrypt_aead
    atecc608a_decrypt_aead memcmp_eq decrypted_text strncmp_eq
opens = refl

quiet : wants_button shut_engine ≡ false
unfolding state_machine_get_settings
quiet = refl

hold_ignores_lock_example :
    (e' : ActionEngine) × (r : ActionResult) × (action_engine_confirm_hold shut_engine
      ≡ answer (e', r))
    × (r.typed_password ≡ strncpy 127 password)
    × (e'.machine.ctx.state ≡ unlocked)
    × (e'.machine.ctx.unlocked ≡ false)
hold_ignores_lock_example = hold_ignores_lock shut_engine password refl refl quiet opens

selected : ActionEngine × ActionResult
unfolding action_engine_device_select_next
selected = or_else (action_engine_device_select_next stocked)

select_run :
    (action_engine_device_select_next stocked ≡ answer (selected.0, selected.1))
    × ((selected.1).performed ≡ true)
unfolding selected action_engine_device_select_next run_device_command action_engine_handle_command
    dispatch admit_command admit_behind rate_limiter_init rate_limiter_allow
    browser_validate_command is_safe_ascii_text has_url_like_value browser_origin_is_suspicious
    strncmp_eq strstr state_machine_is_wiped action_engine_confirm_hold state_machine_on_touch_hold
    password_store_get_by_index
select_run = (refl, refl)

select_next_cycles_example :
    ((stocked.vault.count) ≢ 0) × IsSelected stocked (next_index stocked) selected.0
select_next_cycles_example =
    select_next_cycles stocked selected.0 selected.1 select_run.0 select_run.1
