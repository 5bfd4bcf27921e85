-- ===== src/StateMachine.antt =====
-- firmware/src/state_machine.c, built with FIRMWARE_PRODUCTION = 0 (a production build calls
-- `Error_Handler` where no PIN verifier is set; this one returns false). The context and the
-- globals of the file are one record; the context pointer is never NULL here. `unsigned int` has
-- 32 bits.
pub mod Pin
pub mod Requests
pub mod Events
pub mod Settings
pub mod Invariant
pub mod Wiped
pub mod Guesses
pub mod Lockout
pub mod Autolock
pub mod PinChange
pub mod Filling
pub mod Typing
mod Tests
use safe_key_vault.Prelude.{
  ℕ, ◌+◌, ◌-◌, ◌%◌, ◌^◌, Bool, true, false, ◌&&◌, ◌||◌, not, Option, none, some, List, replicate,
  take, ltb, leb, ◌==◌, if◌then◌else◌,
}
use safe_key_vault.FirmwareTypes.{
  DeviceState, locked, unlocked, prompt_fill, prompt_save, select_credential, edit_credential,
  confirm_type, locked_out, RuntimeSettings,
}

abbrev pub u32 : ℕ → ℕ
u32 n = n % 2 ^ 32

abbrev pub auto_lock_timeout_seconds_default : ℕ
auto_lock_timeout_seconds_default = 60

-- `device_context_t`.
pub record DeviceContext : Type 0 where
  pub state : DeviceState
  pub unlocked : Bool
  pub wiped : Bool
  pub failed_pin_attempts : ℕ
  pub inactivity_seconds : ℕ
  pub lockout_ticks_remaining : ℕ
  pub selected_credential_idx : ℕ

-- The context, and `g_settings`, `g_pin_verifier` and `g_pin_verifier_set`.
pub record Machine : Type 0 where
  pub ctx : DeviceContext
  pub settings : RuntimeSettings
  pub pin_verifier : List ℕ
  pub pin_verifier_set : Bool

abbrev pub default_settings : RuntimeSettings
default_settings = record {
  auto_popup_enabled = true;
  manual_popup_requires_touch = true;
  require_touch_for_fill = true;
  hold_required_for_selection = true;
  autolock_seconds = auto_lock_timeout_seconds_default;
  pin_attempt_limit = 5;
  wipe_on_lockout = false;
  passkeys_enabled = false;
  totp_enabled = false;
  default_account_index = 0;
  auto_type_on_plugin = false;
  totp_display_mode = 0;
}

abbrev pub fresh_context : DeviceContext
fresh_context = record {
  state = locked;
  unlocked = false;
  wiped = false;
  failed_pin_attempts = 0;
  inactivity_seconds = 0;
  lockout_ticks_remaining = 0;
  selected_credential_idx = 0;
}

-- The globals as the program starts, with the context after `state_machine_init`.
abbrev pub fresh : Machine
fresh = record {
  ctx = fresh_context;
  settings = default_settings;
  pin_verifier = replicate 16 0;
  pin_verifier_set = false;
}

abbrev pub is_locked_out : DeviceState → Bool
is_locked_out locked_out = true
is_locked_out _ = false

-- `platform_hal_init` sets up the hardware and does not touch this state.
unfoldable pub state_machine_init : Machine → Machine
state_machine_init m = record m { ctx = fresh_context }

unfoldable pub reset_unlock_session : DeviceContext → DeviceContext
reset_unlock_session ctx = record ctx {
  unlocked = false;
  inactivity_seconds = 0;
  state = if is_locked_out ctx.state then ctx.state else locked;
}

-- The branch of `state_machine_tick` for a device that is locked out.
unfoldable pub tick_locked_out : DeviceContext → DeviceContext
tick_locked_out ctx =
    let remaining =
      if ltb 0 ctx.lockout_ticks_remaining
      then ctx.lockout_ticks_remaining - 1
      else ctx.lockout_ticks_remaining in
    record ctx {
      lockout_ticks_remaining = remaining;
      state = if remaining == 0 && not ctx.wiped then locked else ctx.state;
    }

-- The branch for an unlocked device, with the autolock limit.
unfoldable pub tick_unlocked : ℕ → DeviceContext → DeviceContext
unfolding reset_unlock_session
tick_unlocked autolock_seconds ctx =
    let later = record ctx { inactivity_seconds = u32 (ctx.inactivity_seconds + 1) } in
    if leb autolock_seconds later.inactivity_seconds then reset_unlock_session later else later

unfoldable pub state_machine_tick : Machine → Machine
unfolding tick_locked_out tick_unlocked
state_machine_tick m =
    if is_locked_out m.ctx.state
    then record m { ctx = tick_locked_out m.ctx }
    else if not m.ctx.unlocked
    then m
    else record m { ctx = tick_unlocked m.settings.autolock_seconds m.ctx }

-- The `switch` of `state_machine_on_touch_tap`.
unfoldable pub tap : DeviceState → DeviceState
tap prompt_fill = confirm_type
tap confirm_type = unlocked
tap prompt_save = edit_credential
tap s = s

-- The `switch` of `state_machine_on_touch_hold`.
unfoldable pub hold : DeviceState → DeviceState
hold unlocked = select_credential
hold prompt_fill = confirm_type
hold edit_credential = unlocked
hold s = s

-- Both handlers: the inactivity counter restarts, and an unlocked device moves.
abbrev touch : (DeviceState → DeviceState) → Machine → Machine
touch move m = record m {
  ctx = record (m.ctx) {
    inactivity_seconds = 0;
    state = if m.ctx.unlocked then move m.ctx.state else m.ctx.state;
  };
}

unfoldable pub state_machine_on_touch_tap : Machine → Machine
unfolding tap
state_machine_on_touch_tap m = touch tap m

unfoldable pub state_machine_on_touch_hold : Machine → Machine
unfolding hold
state_machine_on_touch_hold m = touch hold m

unfoldable pub state_machine_is_wiped : Machine → Bool
state_machine_is_wiped m = m.ctx.wiped

unfoldable pub state_machine_lockout_remaining : Machine → ℕ
state_machine_lockout_remaining m = m.ctx.lockout_ticks_remaining

abbrev pub is_known_limit : ℕ → Bool
is_known_limit n = n == 3 || n == 5 || n == 10

-- NULL settings change nothing.
unfoldable pub state_machine_apply_settings : Machine → Option RuntimeSettings → Machine
state_machine_apply_settings m none = m
state_machine_apply_settings m (some s) =
    let seconds =
      if s.autolock_seconds == 0 then auto_lock_timeout_seconds_default else s.autolock_seconds in
    let limit = if s.pin_attempt_limit == 0 then 5 else s.pin_attempt_limit in
    record m {
      settings = record s {
        autolock_seconds = seconds;
        pin_attempt_limit = if is_known_limit limit then limit else 5;
      };
    }

unfoldable pub state_machine_get_settings : Machine → RuntimeSettings
state_machine_get_settings m = m.settings

-- A NULL verifier clears the stored one; 16 bytes are copied from any other.
unfoldable pub state_machine_set_pin_verifier : Machine → Option (List ℕ) → Machine
state_machine_set_pin_verifier m none = record m {
  pin_verifier = replicate 16 0;
  pin_verifier_set = false;
}
state_machine_set_pin_verifier m (some verifier) = record m {
  pin_verifier = take 16 verifier;
  pin_verifier_set = true;
}

unfoldable pub state_machine_lock : Machine → Machine
unfolding reset_unlock_session
state_machine_lock m = record m { ctx = reset_unlock_session m.ctx }
