-- ===== src/StateMachine/Pin.antt =====
-- The PIN operations of firmware/src/state_machine.c. The 16-byte hash of the secure element,
-- `crypto_engine_hash16`, is the parameter `hash16`.
use safe_key_vault.Prelude.{
  ℕ, suc, ◌+◌, ◌-◌, ◌*◌, Bool, true, false, ◌&&◌, ◌||◌, not, Option, none, some, List, [], ◌∷◌,
  Text, take, ltb, leb, ◌==◌, if◌then◌else◌,
}
use safe_key_vault.FirmwareTypes.{unlocked, locked_out}
use safe_key_vault.SecurityUtils.{sec_consttime_memeq}
use safe_key_vault.StateMachine.{
  u32, DeviceContext, Machine, is_locked_out, reset_unlock_session, state_machine_set_pin_verifier,
}

abbrev pub pin_digits : ℕ
pin_digits = 5

abbrev pub max_pin_failures_before_wipe : ℕ
max_pin_failures_before_wipe = 10

abbrev pub lockout_ticks_base : ℕ
lockout_ticks_base = 3

abbrev pub lockout_ticks_step : ℕ
lockout_ticks_step = 2

-- The loop over the PIN: the length at which it stopped, and `all_digits`.
unfoldable pub scan_pin : Text → ℕ × Bool
scan_pin [] = (0, true)
scan_pin (c ∷ pin) =
    let (len, all_digits) = scan_pin pin in
    if ltb c b'0' || ltb b'9' c then (0, false) else (suc len, all_digits)

-- The context after the right PIN.
unfoldable pub unlock_context : DeviceContext → DeviceContext
unlock_context ctx = record ctx {
  failed_pin_attempts = 0;
  lockout_ticks_remaining = 0;
  unlocked = true;
  state = unlocked;
  inactivity_seconds = 0;
}

-- The context after a wrong PIN.
unfoldable pub fail_context : Machine → DeviceContext
unfolding reset_unlock_session
fail_context m =
    let failed = u32 (m.ctx.failed_pin_attempts + 1) in
    let ctx = reset_unlock_session (record (m.ctx) { failed_pin_attempts = failed }) in
    let limit = m.settings.pin_attempt_limit in
    if m.settings.wipe_on_lockout && leb max_pin_failures_before_wipe failed
    then record ctx { wiped = true; state = locked_out; lockout_ticks_remaining = 0 }
    else if leb limit failed
    then record ctx {
      state = locked_out;
      lockout_ticks_remaining = u32 (lockout_ticks_base + (failed - limit) * lockout_ticks_step);
    }
    else ctx

-- Whether `state_machine_try_unlock` reaches the comparison with the verifier.
unfoldable pub admits_attempt : Machine → Bool
admits_attempt m =
    not m.ctx.wiped
    && m.pin_verifier_set
    && not (is_locked_out m.ctx.state && ltb 0 m.ctx.lockout_ticks_remaining)

-- Whether `state_machine_set_pin` hashes the old PIN and compares it with the verifier.
abbrev pub hashes_pins : Machine → Text → Text → Bool
hashes_pins m old_pin new_pin =
    let (old_len, old_digits) = scan_pin old_pin in
    let (new_len, new_digits) = scan_pin new_pin in
    m.ctx.unlocked
    && not m.ctx.wiped
    && (old_len == pin_digits)
    && (new_len == pin_digits)
    && old_digits
    && new_digits
    && m.pin_verifier_set

module _ (hash16 : Text → List ℕ) where
  -- The test that decides: five digits whose hash is the verifier.
  unfoldable pub pin_matches : Machine → Text → Bool
  unfolding scan_pin
  pin_matches m pin =
      let (pin_len, all_digits) = scan_pin pin in
      let candidate = hash16 (take pin_len pin) in
      pin_len == pin_digits
      && all_digits
      && sec_consttime_memeq (some candidate) (some m.pin_verifier) 16

  unfoldable pub state_machine_try_unlock : Machine → Option Text → Machine × Bool
  unfolding admits_attempt pin_matches unlock_context fail_context
  state_machine_try_unlock m none = (m, false)
  state_machine_try_unlock m (some pin) =
      if not (admits_attempt m)
      then (m, false)
      else if pin_matches m pin
      then (record m { ctx = unlock_context m.ctx }, true)
      else (record m { ctx = fail_context m }, false)

  unfoldable pub state_machine_set_pin : Machine → Option Text → Option Text → Machine × Bool
  unfolding scan_pin state_machine_set_pin_verifier
  state_machine_set_pin m (some old_pin) (some new_pin) =
      let (old_len, old_digits) = scan_pin old_pin in
      let (new_len, new_digits) = scan_pin new_pin in
      let old_hash = hash16 (take old_len old_pin) in
      if not m.ctx.unlocked || m.ctx.wiped
      then (m, false)
      else if not (old_len == pin_digits)
          || not (new_len == pin_digits)
          || not old_digits
          || not new_digits
      then (m, false)
      else if not m.pin_verifier_set
      then (m, false)
      else if not (sec_consttime_memeq (some old_hash) (some m.pin_verifier) 16)
      then (m, false)
      else (state_machine_set_pin_verifier m (some (hash16 (take new_len new_pin))), true)
  state_machine_set_pin m _ _ = (m, false)
