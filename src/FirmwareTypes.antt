-- ===== src/FirmwareTypes.antt =====
-- firmware/include/firmware_types.h: the records that several components share.
use safe_key_vault.Prelude.{ℕ, Bool, Text}

pub data DeviceState : Type 0 where
  locked unlocked prompt_fill prompt_save select_credential edit_credential : DeviceState
  confirm_type fido_prompt locked_out : DeviceState

pub DeviceState-discrete : Discrete DeviceState
DeviceState-discrete = hlevel

pub record CredentialRecord : Type 0 where
  pub origin : Text
  pub username : Text
  pub password : Text
  pub updated_at_epoch : ℕ
  pub auto_type_enabled : Bool
  pub requires_touch : Bool

pub record RuntimeSettings : Type 0 where
  pub auto_popup_enabled : Bool
  pub manual_popup_requires_touch : Bool
  pub require_touch_for_fill : Bool
  pub hold_required_for_selection : Bool
  pub autolock_seconds : ℕ
  pub pin_attempt_limit : ℕ
  pub wipe_on_lockout : Bool
  pub passkeys_enabled : Bool
  pub totp_enabled : Bool
  pub default_account_index : ℕ
  pub auto_type_on_plugin : Bool
  pub totp_display_mode : ℕ
