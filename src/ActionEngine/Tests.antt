-- ===== src/ActionEngine/Tests.antt =====
-- Runs of firmware/src/action_engine.c at concrete inputs.
use safe_key_vault.Prelude.{
  ◌≡◌, refl, arith, true, false, some, none, Text, codes, replicate, strncpy, strncmp_eq, strstr,
  memcmp_eq, Outcome, answer, halted,
}
use safe_key_vault.FirmwareTypes.{unlocked}
use safe_key_vault.SecureElement.{
  Slot, digest_of, xor_from, read_from, atecc608a_is_available, atecc608a_is_ready,
  atecc608a_is_slot_provisioned, atecc608a_read_slot, atecc608a_sha256, atecc608a_encrypt_aead,
  atecc608a_decrypt_aead, atecc608a_derive_key_slot_and_output,
}
use safe_key_vault.CryptoEngine.{
  CryptoState, at_start, crypto_engine_hash256, crypto_engine_ready_for_sensitive_ops,
  crypto_engine_decrypt_aead, crypto_engine_password_fingerprint,
}
use safe_key_vault.CryptoEngine.Hex.{hex_encode, hex_decode}
use safe_key_vault.CryptoEngine.Passwords.{
  next_password_aad, print_password, parse_password, seal_password, decrypted_text,
  crypto_engine_encrypt_password, crypto_engine_decrypt_password,
}
use safe_key_vault.PasswordPolicy.{initial_policy, security_evaluate_password}
use safe_key_vault.BrowserProtocol.{
  browser_validate_command, is_safe_ascii_text, has_url_like_value, browser_origin_is_suspicious,
}
use safe_key_vault.RateLimiter.{rate_limiter_init, rate_limiter_allow}
use safe_key_vault.StateMachine.{
  Machine, fresh, fresh_context, state_machine_is_wiped, state_machine_get_settings,
  state_machine_on_touch_hold,
}
use safe_key_vault.StateMachine.Requests.{state_machine_request_fill}
use safe_key_vault.Vault.{
  blank, empty_vault, password_store_find_by_origin, password_store_exists, password_store_upsert,
  password_store_next_id,
}
use safe_key_vault.ActionEngine.{
  ActionEngine, ActionResult, refusal, text, load_record_plaintext, stash_record,
  action_engine_clear_pending, admit_command, admit_behind,
}
use safe_key_vault.ActionEngine.Commands.{dispatch, action_engine_handle_command}
use safe_key_vault.ActionEngine.Confirm.{action_engine_confirm_hold}
use safe_key_vault.ActionEngine.Roundtrip.{save_credential-fill_current}
use safe_key_vault.ActionEngine.Device.{
  run_device_command, action_engine_device_save_credential, action_engine_device_fill_current,
}

abbrev keyed : Slot
keyed = record { provisioned = true; contents = replicate 32 7; data_len = 32 }

abbrev pub crypto : CryptoState
crypto = record at_start {
  initialized = true;
  secure_element_available = true;
  master_key_provisioned = true;
  device_secret_provisioned = true;
  chip = record { initialized = true; self_test_passed = true; slots = replicate 16 keyed };
}

abbrev pub open_machine : Machine
open_machine = record fresh { ctx = record fresh_context { state = unlocked; unlocked = true } }

-- An unlocked device with an empty vault.
abbrev pub engine : ActionEngine
engine = record {
  vault = empty_vault;
  machine = open_machine;
  pending = action_engine_clear_pending;
  last_selected = blank;
  has_last_selected = false;
  manual_popup_armed = false;
  action_clock = 1;
  command_limiter = rate_limiter_init;
  verifier = replicate 16 0;
  verifier_set = true;
  last_nonce = 0;
  policy = initial_policy;
  crypto = crypto;
}

abbrev pub site : Text
site = codes "https://a.io"

abbrev pub password : Text
password = codes "Tr0ub4dor&3"

-- The answer of a call, or the engine as it was.
abbrev pub or_else : Outcome (ActionEngine × ActionResult) → ActionEngine × ActionResult
or_else halted = (engine, refusal (text ""))
or_else (answer out) = out

after_save : ActionEngine × ActionResult
unfolding action_engine_device_save_credential
after_save = or_else (action_engine_device_save_credential engine site (codes "bob") password)

save_run :
    (action_engine_device_save_credential engine site (codes "bob") password
      ≡ answer (after_save.0, after_save.1))
    × ((after_save.1).performed ≡ true)
unfolding after_save action_engine_device_save_credential run_device_command
    action_engine_handle_command dispatch admit_command admit_behind rate_limiter_init
    rate_limiter_allow browser_validate_command is_safe_ascii_text has_url_like_value
    browser_origin_is_suspicious strncmp_eq strstr state_machine_is_wiped security_evaluate_password
    stash_record crypto_engine_encrypt_password next_password_aad
    crypto_engine_ready_for_sensitive_ops crypto_engine_hash256 seal_password print_password
    hex_encode crypto_engine_password_fingerprint atecc608a_sha256 digest_of atecc608a_encrypt_aead
    atecc608a_read_slot read_from xor_from atecc608a_is_available atecc608a_is_ready
    atecc608a_is_slot_provisioned atecc608a_derive_key_slot_and_output action_engine_confirm_hold
    crypto_engine_decrypt_password parse_password hex_decode crypto_engine_decrypt_aead
    atecc608a_decrypt_aead memcmp_eq decrypted_text password_store_exists password_store_upsert
    password_store_next_id state_machine_on_touch_hold state_machine_get_settings
save_run = (refl, refl)

after_fill : ActionEngine × ActionResult
unfolding action_engine_device_fill_current
after_fill = or_else (action_engine_device_fill_current after_save.0 site)

fill_run :
    (action_engine_device_fill_current after_save.0 site ≡ answer (after_fill.0, after_fill.1))
    × ((after_fill.1).performed ≡ true)
unfolding after_fill after_save action_engine_device_fill_current password_store_find_by_origin
    load_record_plaintext state_machine_request_fill action_engine_device_save_credential
    run_device_command action_engine_handle_command dispatch admit_command admit_behind
    rate_limiter_init rate_limiter_allow browser_validate_command is_safe_ascii_text
    has_url_like_value browser_origin_is_suspicious strncmp_eq strstr state_machine_is_wiped
    security_evaluate_password stash_record crypto_engine_encrypt_password next_password_aad
    crypto_engine_ready_for_sensitive_ops crypto_engine_hash256 seal_password print_password
    hex_encode crypto_engine_password_fingerprint atecc608a_sha256 digest_of atecc608a_encrypt_aead
    atecc608a_read_slot read_from xor_from atecc608a_is_available atecc608a_is_ready
    atecc608a_is_slot_provisioned atecc608a_derive_key_slot_and_output action_engine_confirm_hold
    crypto_engine_decrypt_password parse_password hex_decode crypto_engine_decrypt_aead
    atecc608a_decrypt_aead memcmp_eq decrypted_text password_store_exists password_store_upsert
    password_store_next_id state_machine_on_touch_hold state_machine_get_settings
fill_run = (refl, refl)

no_entry : password_store_find_by_origin (engine.vault) (some (strncpy 95 site)) ≡ none
unfolding password_store_find_by_origin
no_entry = refl

save_credential-fill_current_example : (after_fill.1).typed_password ≡ strncpy 127 password
save_credential-fill_current_example =
    save_credential-fill_current engine after_save.0 after_fill.0 after_save.1 after_fill.1 site
      (codes "bob") password (record { entries = refl; in_use = omega arith }) (ground arith)
      (ground arith) no_entry save_run.0 save_run.1 fill_run.0 fill_run.1
