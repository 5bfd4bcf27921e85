-- ===== src/ActionEngine/Confirm.antt =====
-- firmware/src/action_engine.c: what a touch does to the pending request, and the PIN.
use safe_key_vault.Prelude.{
  ℕ, Bool, true, false, ◌&&◌, not, Option, none, some, List, Text, take, strncpy, if◌then◌else◌,
  Outcome, halted, answer, ◌>>=◌,
}
use safe_key_vault.FirmwareTypes.{CredentialRecord, DeviceState, unlocked, confirm_type}
use safe_key_vault.SecureElement.{atecc608a_is_available, atecc608a_sha256}
use safe_key_vault.CryptoEngine.{CryptoState, or_zeros, crypto_engine_hash16}
use safe_key_vault.CryptoEngine.Passwords.{crypto_engine_decrypt_password}
use safe_key_vault.StateMachine.{
  Machine, state_machine_get_settings, state_machine_on_touch_tap, state_machine_on_touch_hold,
  state_machine_set_pin_verifier,
}
use safe_key_vault.StateMachine.Pin.{
  hashes_pins, admits_attempt, state_machine_try_unlock, state_machine_set_pin,
}
use safe_key_vault.Vault.{password_store_exists, password_store_upsert, password_store_get_by_index}
use safe_key_vault.ActionEngine.{
  ActionEngine, ActionResult, text, refusal, action_none, pending_fill, pending_save,
  pending_generate, pending_select, load_record_plaintext, action_engine_clear_pending,
}
use safe_key_vault.ActionEngine.Commands.{Step}

-- The hash that the state machine is given: `crypto_engine_hash16` where it does not halt.
unfoldable pub hash16_of : CryptoState → Text → List ℕ
hash16_of c input = take 16 (or_zeros 32 (atecc608a_sha256 c.chip input))

abbrev pub cleared : ActionEngine → ActionEngine
cleared e = record e { pending = action_engine_clear_pending }

-- Every PIN that is not refused before is hashed.
unfoldable pub action_engine_unlock_with_pin :
    ActionEngine → Option Text → Outcome (ActionEngine × Bool)
action_engine_unlock_with_pin e none = answer (e, false)
action_engine_unlock_with_pin e (some pin) =
    let (machine, done) = state_machine_try_unlock (hash16_of e.crypto) e.machine (some pin) in
    if admits_attempt e.machine && not (atecc608a_is_available e.crypto.chip)
    then halted
    else answer (record e { machine = machine }, done)

unfoldable pub action_engine_arm_manual_popup : ActionEngine → ActionEngine
action_engine_arm_manual_popup e = record e { manual_popup_armed = true }

unfoldable pub action_engine_try_change_pin :
    ActionEngine → Option Text → Option Text → Outcome (ActionEngine × Bool)
action_engine_try_change_pin e (some old_pin) (some new_pin) =
    let (machine, done) =
      state_machine_set_pin (hash16_of e.crypto) e.machine (some old_pin) (some new_pin) in
    if hashes_pins e.machine old_pin new_pin && not (atecc608a_is_available e.crypto.chip)
    then halted
    else if not done
    then answer (record e { machine = machine }, false)
    else crypto_engine_hash16 e.crypto new_pin >>= λ verifier. answer (
      record e {
        machine = state_machine_set_pin_verifier machine (some verifier);
        verifier = verifier;
        verifier_set = true;
      },
      true,
    )
action_engine_try_change_pin e _ _ = answer (e, false)

abbrev pub unlocked_machine : Machine → Machine
unlocked_machine m = record m { ctx = record (m.ctx) { state = unlocked } }

-- The record that was saved, in the vault after it.
unfoldable pub commit_saved : ActionEngine → ActionEngine × ActionResult
commit_saved e =
    let entry = e.pending.credential in
    let existed = password_store_exists e.vault (some entry.origin) (some entry.username) in
    let (vault, done) = password_store_upsert e.vault (some entry) in
    if not done then (record e { vault = vault }, refusal (text "vault save failed")) else (
      cleared (record e { vault = vault; machine = unlocked_machine e.machine }),
      record (refusal (text "credential saved")) {
        allowed = true;
        performed = true;
        updated_existing_record = existed;
        created_new_record = not existed;
      },
    )

-- Once the password has been decrypted, which is only a check.
unfoldable pub commit_decrypted : ActionEngine → Bool → Option Text → ActionEngine × ActionResult
unfolding commit_saved
commit_decrypted e hold none = (e, refusal (text "decrypt pending failed"))
commit_decrypted e hold (some plaintext) =
    if e.pending.override_with_hold && not hold
    then (e, record (refusal (text "hold required to save")) { touch_required = true })
    else commit_saved e

-- `*out` is zeroed by the caller.
unfoldable pub commit_pending_save : ActionEngine → Bool → Step
unfolding commit_decrypted
commit_pending_save e hold =
    crypto_engine_decrypt_password e.crypto e.pending.credential.password_ciphertext 128
    >>= λ plaintext. answer (commit_decrypted e hold plaintext)

-- What is typed for a loaded record.
abbrev pub typed : CredentialRecord → ActionResult
typed rec = record (refusal (text "typed credential")) {
  allowed = true;
  performed = true;
  typed_username = strncpy 95 rec.username;
  typed_password = strncpy 127 rec.password;
}

-- The record is typed, and `done` is the engine then; a failure clears the request of `e`.
unfoldable pub type_loaded :
    ActionEngine → ActionEngine → Option CredentialRecord → ActionEngine × ActionResult
type_loaded e done none = (cleared e, refusal (text "decrypt failed"))
type_loaded e done (some rec) = (cleared done, typed rec)

unfoldable pub type_pending : ActionEngine → ActionEngine → Step
unfolding type_loaded
type_pending e done = load_record_plaintext e.crypto e.pending.credential >>= λ loaded.
    answer (type_loaded e done loaded)

abbrev pub invalid_transition : ActionEngine → Step
invalid_transition e = answer (cleared e, refusal (text "invalid transition"))

-- A tap on a pending fill, in the state that the touch led to.
unfoldable pub tap_fill : DeviceState → ActionEngine → Step
unfolding type_pending
tap_fill confirm_type e =
    answer
      (e, record (refusal (text "tap again to type")) { allowed = true; touch_required = true })
tap_fill unlocked e = type_pending e e
tap_fill _ e = invalid_transition e

abbrev pub hold_to_save : ActionEngine → Step
hold_to_save e =
    answer
      (e, record (refusal (text "hold required to save")) { allowed = true; touch_required = true })

unfoldable pub action_engine_confirm_tap : ActionEngine → Step
unfolding tap_fill
action_engine_confirm_tap e =
    let touched = record e { machine = state_machine_on_touch_tap e.machine } in
    elim (e.pending.kind) [
      | action_none ↦ answer (e, refusal (text "no pending action"))
      | pending_fill ↦ tap_fill (touched.machine.ctx.state) touched
      | pending_save ↦ hold_to_save touched
      | pending_generate ↦ hold_to_save touched
      | pending_select ↦ answer (
        touched,
        record (refusal (text "hold to confirm selection")) {
          allowed = true;
          touch_required = true;
          selected_next = true;
        },
      )
    ]

-- Whether the manual button must have been pressed; a hold on a pending fill uses it up.
abbrev pub wants_button : ActionEngine → Bool
wants_button e =
    let settings = state_machine_get_settings e.machine in
    not settings.auto_popup_enabled && settings.manual_popup_requires_touch

abbrev pub disarm : Bool → ActionEngine → ActionEngine
disarm true e = record e { manual_popup_armed = false }
disarm false e = e

-- A hold on a pending fill. The source reads the settings before the touch, which keeps them.
unfoldable pub hold_fill : ActionEngine → Step
unfolding type_pending
hold_fill e =
    let passed = disarm (wants_button e) e in
    if wants_button e && not e.manual_popup_armed
    then answer (
      e,
      record (refusal (text "auto popup disabled; press manual button first")) {
        touch_required = true;
      },
    )
    else type_pending passed (record passed { machine = unlocked_machine passed.machine })

-- The index is what `password_store_get_by_index` was asked for.
unfoldable pub hold_select : ActionEngine → ActionEngine × ActionResult
hold_select e =
    let index = e.pending.pending_index in
    elim (password_store_get_by_index e.vault index) [
      | none ↦ (cleared e, refusal (text "selection failed"))
      | some entry ↦ (
        cleared (record e {
          last_selected = entry;
          has_last_selected = true;
          machine = record (e.machine) {
            ctx = record (e.machine.ctx) { selected_credential_idx = index; state = unlocked };
          };
        }),
        record (refusal (text "credential selected")) {
          allowed = true;
          performed = true;
          selected_next = true;
        },
      )
    ]

unfoldable pub action_engine_confirm_hold : ActionEngine → Step
unfolding hold_fill hold_select commit_pending_save
action_engine_confirm_hold e =
    let touched = record e { machine = state_machine_on_touch_hold e.machine } in
    elim (e.pending.kind) [
      | action_none ↦ answer (e, refusal (text "no pending action"))
      | pending_fill ↦ hold_fill touched
      | pending_save ↦ commit_pending_save touched true
      | pending_generate ↦ commit_pending_save touched true
      | pending_select ↦ answer (hold_select touched)
    ]
