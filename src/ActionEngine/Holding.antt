-- ===== src/ActionEngine/Holding.antt =====
-- firmware/src/action_engine.c: a hold on a pending fill.
use safe_key_vault.Prelude.{◌≡◌, refl, true, false, some, Text, strncpy, answer}
use safe_key_vault.FirmwareTypes.{CredentialRecord, unlocked}
use safe_key_vault.StateMachine.{state_machine_get_settings, state_machine_on_touch_hold}
use safe_key_vault.Vault.{Credential}
use safe_key_vault.ActionEngine.{
  ActionEngine, ActionResult, pending_fill, loaded_record, load_record_plaintext,
}
use safe_key_vault.ActionEngine.Confirm.{
  cleared, typed, wants_button, unlocked_machine, type_pending, type_loaded, hold_fill,
  action_engine_confirm_hold,
}
use safe_key_vault.ActionEngine.Filling.{Opens}

-- The record that `load_record_plaintext` then gives.
abbrev pub the_record : Credential → Text → CredentialRecord
the_record entry plain = record {
  origin = strncpy 127 entry.origin;
  username = strncpy 95 entry.username;
  password = plain;
  updated_at_epoch = entry.updated_at;
  auto_type_enabled = false;
  requires_touch = true;
}

pub type_eq :
    (e done : ActionEngine) (plain : Text)
    → Opens e plain
    → type_pending e done
      ≡ answer (type_loaded e done (loaded_record e.pending.credential (some plain)))
unfolding type_pending load_record_plaintext
type_eq e done plain opened = rw opened refl

hold_fill_eq :
    (e : ActionEngine) (plain : Text)
    → wants_button e ≡ false
    → Opens e plain
    → hold_fill e
      ≡ answer (
        cleared (record e { machine = unlocked_machine e.machine }),
        typed (the_record e.pending.credential plain),
      )
unfolding hold_fill loaded_record type_loaded
hold_fill_eq e plain quiet opened =
    rw (quiet, type_eq e (record e { machine = unlocked_machine e.machine }) plain opened) refl

pub hold_eq :
    (e : ActionEngine) (plain : Text)
    → e.pending.kind ≡ pending_fill
    → wants_button e ≡ false
    → Opens e plain
    → action_engine_confirm_hold e
      ≡ answer (
        cleared (record e { machine = unlocked_machine (state_machine_on_touch_hold e.machine) }),
        typed (the_record e.pending.credential plain),
      )
unfolding action_engine_confirm_hold state_machine_on_touch_hold state_machine_get_settings
hold_eq e plain k quiet opened =
    let touched = record e { machine = state_machine_on_touch_hold e.machine } in
    rw (action_engine_confirm_hold, k) (hold_fill_eq touched plain quiet opened)

-- A hold types the pending fill even where the device has been locked since: with a password that
-- decrypts and settings that want no button, the hold types it, and the state it leaves is the
-- unlocked one although the device is not unlocked.
pub hold_ignores_lock :
    (e : ActionEngine) (plain : Text)
    → e.pending.kind ≡ pending_fill
    → e.machine.ctx.unlocked ≡ false
    → wants_button e ≡ false
    → Opens e plain
    → (e' : ActionEngine) × (r : ActionResult) × (action_engine_confirm_hold e ≡ answer (e', r))
      × (r.typed_password ≡ strncpy 127 plain)
      × (e'.machine.ctx.state ≡ unlocked)
      × (e'.machine.ctx.unlocked ≡ false)
unfolding state_machine_on_touch_hold
hold_ignores_lock e plain k shut quiet opened = (
  cleared (record e { machine = unlocked_machine (state_machine_on_touch_hold e.machine) }),
  typed (the_record e.pending.credential plain),
  hold_eq e plain k quiet opened,
  refl,
  refl,
  shut,
)
