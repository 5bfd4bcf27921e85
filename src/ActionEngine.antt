-- ===== src/ActionEngine.antt =====
-- firmware/src/action_engine.c and firmware/include/action_engine.h. The engine's pointers are
-- never NULL here, so `is_engine_ready` holds; an `Option` stands for a text that may be NULL. One
-- record holds the engine, the vault and the context that it points to, the globals of the file,
-- and the state of the components that it calls. The functions that return true throughout give
-- the new engine and `*out`.
pub mod Commands
pub mod Confirm
pub mod Device
pub mod Calls
pub mod Gates
pub mod Handlers
pub mod Guarded
pub mod Quiet
pub mod Replay
pub mod Filling
pub mod Holding
pub mod Selecting
pub mod Inversion
pub mod Held
pub mod Roundtrip
mod Tests
mod TouchTests
use Prim.Native.String.{String}
use safe_key_vault.Prelude.{
  ℕ, ◌+◌, ◌%◌, ◌^◌, Bool, true, false, ◌&&◌, ◌||◌, not, Option, none, some, List, [], ◌∷◌, Text,
  codes, take, replicate, strncpy, ltb, leb, ◌==◌, if◌then◌else◌, Outcome, halted, answer, ◌>>=◌,
}
use safe_key_vault.FirmwareTypes.{CredentialRecord}
use safe_key_vault.SecureElement.{atecc608a_sha256}
use safe_key_vault.CryptoEngine.{
  CryptoState, or_zeros, crypto_engine_hash16, crypto_engine_password_fingerprint,
}
use safe_key_vault.CryptoEngine.Passwords.{
  crypto_engine_encrypt_password, crypto_engine_decrypt_password,
}
use safe_key_vault.BrowserProtocol.{
  BrowserCommand, BrowserCommandResult, none_type, is_empty, browser_validate_command,
}
use safe_key_vault.PasswordPolicy.{PolicyGlobals}
use safe_key_vault.RateLimiter.{RateLimiter, rate_limiter_init, rate_limiter_allow}
use safe_key_vault.StateMachine.{
  Machine, u32, is_locked_out, state_machine_is_wiped, state_machine_lockout_remaining,
  state_machine_set_pin_verifier,
}
use safe_key_vault.Vault.{Vault, Credential, blank}

pub data PendingAction : Type 0 where
  action_none pending_fill pending_save pending_generate pending_select : PendingAction

pub PendingAction-discrete : Discrete PendingAction
PendingAction-discrete = hlevel

pub record PendingRequest : Type 0 where
  pub kind : PendingAction
  pub credential : Credential
  pub command : BrowserCommand
  pub override_with_hold : Bool
  pub pending_index : ℕ

-- What `snprintf` prints: a literal, or a literal with a number of ticks.
pub data Message : Type 0 where
  text : String → Message
  rate_limited : ℕ → Message
  locked_for : ℕ → Message

pub record ActionResult : Type 0 where
  pub allowed : Bool
  pub touch_required : Bool
  pub performed : Bool
  pub save_prompt_recommended : Bool
  pub weak_password_warning : Bool
  pub common_password_warning : Bool
  pub reused_password_warning : Bool
  pub created_new_record : Bool
  pub updated_existing_record : Bool
  pub generated_password : Bool
  pub selected_next : Bool
  pub typed_username : Text
  pub typed_password : Text
  pub generated_value : Text
  pub message : Message

-- `*out` after the `memset`, with a message.
abbrev pub refusal : Message → ActionResult
refusal message = record {
  allowed = false;
  touch_required = false;
  performed = false;
  save_prompt_recommended = false;
  weak_password_warning = false;
  common_password_warning = false;
  reused_password_warning = false;
  created_new_record = false;
  updated_existing_record = false;
  generated_password = false;
  selected_next = false;
  typed_username = [];
  typed_password = [];
  generated_value = [];
  message = message;
}

-- The engine, with `*vault`, `*ctx`, the globals `g_action_clock`, `g_command_limiter`,
-- `g_pin_verifier`, `g_pin_verifier_set` and `g_last_nonce`, and the states of
-- password_policy.c and crypto_engine.c.
pub record ActionEngine : Type 0 where
  pub vault : Vault
  pub machine : Machine
  pub pending : PendingRequest
  pub last_selected : Credential
  pub has_last_selected : Bool
  pub manual_popup_armed : Bool
  pub action_clock : ℕ
  pub command_limiter : RateLimiter
  pub verifier : List ℕ
  pub verifier_set : Bool
  pub last_nonce : ℕ
  pub policy : PolicyGlobals
  pub crypto : CryptoState

abbrev pub blank_command : BrowserCommand
blank_command = record { type = none_type; nonce = 0; origin = []; username = []; password = [] }

-- `*pending` after `action_engine_clear_pending`; `clear_pending`, which the file also calls, is
-- declared nowhere and is read as the same function.
abbrev pub action_engine_clear_pending : PendingRequest
action_engine_clear_pending = record {
  kind = action_none;
  credential = blank;
  command = blank_command;
  override_with_hold = false;
  pending_index = 0;
}

-- The texts are cut to char[128] and char[96]; the password comes decrypted.
unfoldable pub loaded_record : Credential → Option Text → Option CredentialRecord
loaded_record entry none = none
loaded_record entry (some password) = some (record {
  origin = strncpy 127 entry.origin;
  username = strncpy 95 entry.username;
  password = password;
  updated_at_epoch = entry.updated_at;
  auto_type_enabled = false;
  requires_touch = true;
})

unfoldable pub load_record_plaintext : CryptoState → Credential → Outcome (Option CredentialRecord)
unfolding loaded_record
load_record_plaintext c entry =
    crypto_engine_decrypt_password c entry.password_ciphertext 128 >>= λ plain.
    answer (loaded_record entry plain)

-- The entry before its password: the texts are cut to char[96] and char[64].
abbrev pub blank_entry : CredentialRecord → Text → List ℕ → Credential
blank_entry rec ciphertext fingerprint = record {
  valid = true;
  id = 0;
  origin = strncpy 95 rec.origin;
  app = [];
  username = strncpy 63 rec.username;
  password_ciphertext = ciphertext;
  password_fingerprint = fingerprint;
  created_at = rec.updated_at_epoch;
  updated_at = rec.updated_at_epoch;
}

-- What follows the encryption.
unfoldable pub stash_sealed :
    CredentialRecord → CryptoState → Option Text → Outcome (CryptoState × Option Credential)
stash_sealed rec c none = answer (c, none)
stash_sealed rec c (some ciphertext) =
    crypto_engine_password_fingerprint c rec.password >>= λ fingerprint.
    answer (c, some (blank_entry rec ciphertext fingerprint))

unfoldable pub stash_record :
    CryptoState → CredentialRecord → Outcome (CryptoState × Option Credential)
unfolding stash_sealed
stash_record c rec =
    crypto_engine_encrypt_password c rec.password 192 >>= λ r. stash_sealed rec r.0 r.1

-- Where no verifier is set, a production build halts.
unfoldable pub action_engine_init : ActionEngine → Outcome ActionEngine
action_engine_init e =
    (if e.verifier_set then answer e.verifier else crypto_engine_hash16 e.crypto (codes "12345"))
    >>= λ verifier. answer (record e {
      pending = action_engine_clear_pending;
      last_selected = blank;
      has_last_selected = false;
      manual_popup_armed = false;
      command_limiter = rate_limiter_init;
      verifier = verifier;
      verifier_set = true;
      machine = state_machine_set_pin_verifier e.machine (some verifier);
      last_nonce = 0;
    })

abbrev pub replay_blocked : Message
replay_blocked = text "replay blocked"

-- The limits of firmware/include/security_policy.h.
abbrev pub max_commands_per_window : ℕ
max_commands_per_window = 30

abbrev pub command_rate_window_seconds : ℕ
command_rate_window_seconds = 60

abbrev pub limiter_key : BrowserCommand → Text
limiter_key cmd = if is_empty cmd.origin then codes "global" else cmd.origin

-- The lock test, and the message for a locked device.
abbrev pub is_shut : Machine → Bool
is_shut m = not m.ctx.unlocked || is_locked_out m.ctx.state

abbrev pub locked_message : Machine → Message
locked_message m =
    let wait_ticks = state_machine_lockout_remaining m in
    if ltb 0 wait_ticks then locked_for wait_ticks else text "device locked"

-- The checks behind the nonce: the engine, and the message of the check that refuses.
unfoldable pub admit_behind : ActionEngine → BrowserCommand → ActionEngine × Option Message
admit_behind e cmd =
    let (limiter, admitted, retry_after) =
      rate_limiter_allow e.command_limiter (some (limiter_key cmd)) e.action_clock
        command_rate_window_seconds max_commands_per_window in
    let next = record e { command_limiter = limiter; action_clock = u32 (e.action_clock + 1) } in
    let (valid, browser_result) = browser_validate_command cmd in
    if state_machine_is_wiped e.machine
    then (e, some (text "device wiped"))
    else if not admitted
    then (next, some (rate_limited retry_after))
    else if is_shut e.machine
    then (next, some (locked_message e.machine))
    else if not valid
    then (next, some (text browser_result.message))
    else (next, none)

-- The checks that start `action_engine_handle_command`. A nonce of 0 is none.
unfoldable pub admit_command : ActionEngine → BrowserCommand → ActionEngine × Option Message
admit_command e cmd =
    if cmd.nonce == 0
    then admit_behind e cmd
    else if leb cmd.nonce e.last_nonce
    then (e, some replay_blocked)
    else admit_behind (record e { last_nonce = cmd.nonce }) cmd
