-- ===== src/StateMachine/Tests.antt =====
-- Runs of firmware/src/state_machine.c at concrete inputs, with a hash that pads its text.
use safe_key_vault.Prelude.{
  ℕ, zero, suc, ◌<◌, ◌≤◌, ◌%◌, true, false, some, List, [], ◌∷◌, ◌++◌, Text, codes, length, All,
  ◌≡◌, ◌≢◌, ◌↔◌, ◌⊎◌, refl, arith, ap, strncpy, strncmp_eq, strstr,
}
use safe_key_vault.Prelude.Substrings.{HasPrefix}
use safe_key_vault.FirmwareTypes.{
  CredentialRecord, locked, unlocked, locked_out, prompt_fill, confirm_type, prompt_save,
}
use safe_key_vault.SecurityUtils.{sec_consttime_memeq}
use safe_key_vault.BrowserProtocol.{
  browser_validate_command, is_safe_ascii_text, has_url_like_value, browser_origin_is_suspicious,
}
use safe_key_vault.SecurityUtils.Equality.{IsByte}
use safe_key_vault.PasswordPolicy.{initial_policy, password_min_length, common_passwords_of}
use safe_key_vault.PasswordPolicy.Rules.{IsFresh}
use safe_key_vault.BrowserProtocol.Accepted.{IsAcceptable}
use safe_key_vault.StateMachine.{
  Machine, fresh, fresh_context, default_settings, state_machine_lock, state_machine_tick,
  state_machine_set_pin_verifier, state_machine_on_touch_tap,
}
use safe_key_vault.StateMachine.Pin.{
  state_machine_try_unlock, state_machine_set_pin, admits_attempt,
}
use safe_key_vault.StateMachine.Requests.{
  state_machine_request_fill, state_machine_request_save, fill_command, save_command,
}
use safe_key_vault.StateMachine.Events.{
  Event, tick, touch_tap, set_pin, try_unlock, request_fill, set_pin_verifier, step, run,
}
use safe_key_vault.StateMachine.Invariant.{IsConsistent, reachable-IsConsistent}
use safe_key_vault.StateMachine.Wiped.{IsDead, wiped_is_final}
use safe_key_vault.StateMachine.Guesses.{guesses, guesses-le}
use safe_key_vault.StateMachine.Lockout.{ticks, lockout_lasts}
use safe_key_vault.StateMachine.Autolock.{IsIdleFor, autolock_exact}
use safe_key_vault.StateMachine.PinChange.{
  IsFiveDigits, IsHash, try_unlock_iff, set_pin_iff, set_pin-try_unlock,
}
use safe_key_vault.StateMachine.Filling.{request_fill-safe, request_save-safe}
use safe_key_vault.StateMachine.Typing.{IsPress, IsPrompting, typing_needs_touch}

-- The first n bytes of a text, padded with zeros.
abbrev pad : ℕ → Text → List ℕ
pad zero t = []
pad (suc n) [] = 0 ∷ pad n []
pad (suc n) (c ∷ t) = (c % 256) ∷ pad n t

abbrev pad_hash : Text → List ℕ
pad_hash t = pad 16 t

pad_lem : (n : ℕ) (t : Text) → (length (pad n t) ≡ n) × All IsByte (pad n t)
pad_lem zero t = (refl, tt)
pad_lem (suc n) [] = (ap suc (pad_lem n []).0, (omega arith, (pad_lem n []).1))
pad_lem (suc n) (c ∷ t) = (ap suc (pad_lem n t).0, (omega arith, (pad_lem n t).1))

pad_hash-IsHash : (t : Text) → IsHash (pad_hash t)
pad_hash-IsHash t = pad_lem 16 t

abbrev pin : Text
pin = codes "12345"

abbrev wrong : Text
wrong = codes "54321"

-- A device with the PIN 12345 that wipes itself.
abbrev guarded : Machine
guarded = record fresh {
  settings = record default_settings { wipe_on_lockout = true };
  pin_verifier = pad_hash pin;
  pin_verifier_set = true;
}

abbrev provisioned : Machine
provisioned = record guarded { settings = default_settings }

abbrev opened : Machine
opened = record provisioned { ctx = record fresh_context { state = unlocked; unlocked = true } }

abbrev dead : Machine
dead = record guarded { ctx = record fresh_context { state = locked_out; wiped = true } }

abbrev in_lockout : Machine
in_lockout = record provisioned {
  ctx = record fresh_context { state = locked_out; lockout_ticks_remaining = 3 };
}

abbrev record_in : CredentialRecord
record_in = record {
  origin = codes "https://a.io";
  username = codes "bob";
  password = codes "Tr0ub4dor&3";
  updated_at_epoch = 0;
  auto_type_enabled = false;
  requires_touch = true;
}

abbrev script : List Event
script =
    set_pin_verifier (some (pad_hash pin))
    ∷ try_unlock (some wrong)
    ∷ tick
    ∷ try_unlock (some pin)
    ∷ request_fill (some record_in) (some (codes "https://a.io"))
    ∷ touch_tap
    ∷ []

script_types : (run pad_hash initial_policy fresh script).ctx.state ≡ confirm_type
unfolding run step state_machine_set_pin_verifier state_machine_try_unlock state_machine_tick
    state_machine_request_fill state_machine_on_touch_tap sec_consttime_memeq
    browser_validate_command strncmp_eq is_safe_ascii_text has_url_like_value
    browser_origin_is_suspicious strstr
script_types = refl

reachable-IsConsistent_example : IsConsistent (run pad_hash initial_policy fresh script).ctx
reachable-IsConsistent_example = reachable-IsConsistent pad_hash initial_policy script

wiped_is_final_example : IsDead (run pad_hash initial_policy dead script).ctx
wiped_is_final_example = wiped_is_final pad_hash initial_policy dead script (refl, refl, refl)

abbrev two_guesses : List Event
two_guesses =
    try_unlock (some wrong) ∷ tick ∷ set_pin (some pin) (some wrong) ∷ try_unlock (some wrong) ∷ []

guesses-le_example : guesses pad_hash initial_policy guarded two_guesses ≤ 10
unfolding step state_machine_try_unlock state_machine_tick state_machine_set_pin sec_consttime_memeq
guesses-le_example =
    guesses-le pad_hash initial_policy guarded two_guesses refl refl (omega arith)
      (tt, λ _. refl, (tt, (λ e. cc e), (tt, (λ e. cc e), (tt, λ _. refl, tt))))

lockout_lasts_example :
    ((k : ℕ)
      → k ≤ 2
      → state_machine_try_unlock pad_hash (ticks k in_lockout) (some pin)
        ≡ (ticks k in_lockout, false))
    × ((ticks 3 in_lockout).ctx.state ≡ locked)
lockout_lasts_example = lockout_lasts pad_hash 2 in_lockout (some pin) (refl, refl, refl)

-- The fifth wrong PIN.
abbrev four_failures : Machine
four_failures = record provisioned { ctx = record fresh_context { failed_pin_attempts = 4 } }

autolock_exact_example :
    (57 < 60 → IsIdleFor 57 60 (ticks 57 opened))
    × (60 ≤ 57 → ((ticks 57 opened).ctx.unlocked ≡ false) × ((ticks 57 opened).ctx.state ≡ locked))
autolock_exact_example =
    autolock_exact 57 0 60 opened (omega arith) (omega arith) (refl, (λ e. cc), refl, refl)

try_unlock_iff_example :
    let (m', done) = state_machine_try_unlock pad_hash provisioned (some pin) in
    ((done ≡ true) ↔ (
      (admits_attempt provisioned ≡ true)
      × IsFiveDigits pin
      × (pad_hash pin ≡ provisioned.pin_verifier)))
    × (done ≡ true → (m'.ctx.unlocked ≡ true) × (m'.ctx.failed_pin_attempts ≡ 0))
try_unlock_iff_example =
    try_unlock_iff pad_hash pad_hash-IsHash provisioned pin (pad_hash-IsHash pin)

set_pin_iff_example :
    let (m', done) = state_machine_set_pin pad_hash opened (some pin) (some wrong) in
    ((done ≡ true) ↔ (
      (opened.ctx.unlocked ≡ true)
      × (opened.ctx.wiped ≡ false)
      × (opened.pin_verifier_set ≡ true)
      × IsFiveDigits pin
      × IsFiveDigits wrong
      × (pad_hash pin ≡ opened.pin_verifier)))
    × (done ≡ true → m' ≡ record opened { pin_verifier = pad_hash wrong; pin_verifier_set = true })
    × (done ≡ false → m' ≡ opened)
set_pin_iff_example = set_pin_iff pad_hash pad_hash-IsHash opened pin wrong (pad_hash-IsHash pin)

opened-IsConsistent : IsConsistent opened.ctx
opened-IsConsistent = ground arith

set_pin-try_unlock_example :
    let m' = state_machine_lock (state_machine_set_pin pad_hash opened (some pin) (some wrong)).0 in
    ((state_machine_try_unlock pad_hash m' (some wrong)).1 ≡ true)
    ↔ (IsFiveDigits wrong × (pad_hash wrong ≡ pad_hash wrong))
unfolding state_machine_set_pin sec_consttime_memeq
set_pin-try_unlock_example =
    set_pin-try_unlock pad_hash pad_hash-IsHash opened pin wrong wrong (pad_hash-IsHash pin)
      opened-IsConsistent refl

request_fill-safe_example :
    let (m', done) =
      state_machine_request_fill opened (some record_in) (some (codes "https://a.io")) in
    ((done ≡ true)
      × (opened.ctx.unlocked ≡ true)
      × (opened.ctx.wiped ≡ false)
      × (opened.ctx.state ≢ locked_out)
      × (strncpy 127 record_in.origin ≡ codes "https://a.io")
      × HasPrefix (codes "https://") (codes "https://a.io")
      × IsAcceptable (fill_command record_in (codes "https://a.io"))
      × (m'.ctx.state ≡ prompt_fill))
    ⊎ ((done ≡ false) × (m' ≡ opened))
request_fill-safe_example = request_fill-safe opened record_in (codes "https://a.io")

request_save-safe_example :
    let (m', done) = state_machine_request_save initial_policy opened (some record_in) in
    let password = strncpy 127 record_in.password in
    ((done ≡ true)
      × (opened.ctx.unlocked ≡ true)
      × (opened.ctx.wiped ≡ false)
      × (opened.ctx.state ≢ locked_out)
      × (password_min_length ≤ length password)
      × All (λ p. password ≢ p) (common_passwords_of initial_policy)
      × IsFresh initial_policy.reuse_checker password
      × IsAcceptable (save_command record_in)
      × (m'.ctx.state ≡ prompt_save))
    ⊎ ((done ≡ false) × (m' ≡ opened))
request_save-safe_example = request_save-safe initial_policy opened record_in

typing_needs_touch_example :
    (before : List Event) × (e : Event) × (after : List Event) × (script ≡ before ++ e ∷ after)
    × IsPress e
    × IsPrompting (run pad_hash initial_policy fresh before)
typing_needs_touch_example =
    typing_needs_touch pad_hash initial_policy fresh script refl
      (tt, (tt, (tt, (tt, (tt, (tt, tt)))))) (λ e. cc e) script_types
