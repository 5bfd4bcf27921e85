-- ===== src/BrowserProtocol.antt =====
-- firmware/src/browser_protocol.c and firmware/include/browser_protocol.h. A message is a text
-- literal of the source.
pub mod Fields
pub mod Accepted
mod Tests
use Prim.Native.String.{String}
use safe_key_vault.Prelude.{
  ℕ, zero, suc, Bool, true, false, ◌&&◌, ◌||◌, not, Option, none, some, List, [], ◌∷◌, Text, codes,
  length, take, min, ltb, leb, ◌==◌, if◌then◌else◌, strncmp_eq, strstr, contains,
}

pub data BrowserCommandType : Type 0 where
  none_type request_fill request_save request_generate request_select_next : BrowserCommandType

pub BrowserCommandType-discrete : Discrete BrowserCommandType
BrowserCommandType-discrete = hlevel

-- The arrays are char[96], char[96] and char[128].
abbrev pub origin_size : ℕ
origin_size = 96

abbrev pub max_username_len : ℕ
max_username_len = 96

abbrev pub max_password_len : ℕ
max_password_len = 128

abbrev pub max_origin_len : ℕ
max_origin_len = 128

pub record BrowserCommand : Type 0 where
  pub type : BrowserCommandType
  pub nonce : ℕ
  pub origin : Text
  pub username : Text
  pub password : Text

pub record BrowserCommandResult : Type 0 where
  pub accepted : Bool
  pub touch_required : Bool
  pub high_risk_origin : Bool
  pub message : String

-- A NULL string is no value of `Text`; the loop stops at `max_len`.
abbrev pub bounded_strlen : Text → ℕ → ℕ
bounded_strlen [] max_len = 0
bounded_strlen (c ∷ s) zero = 0
bounded_strlen (c ∷ s) (suc max_len) = suc (bounded_strlen s max_len)

unfoldable pub has_scheme : Text → Bool
has_scheme origin = strstr origin (codes "://")

unfoldable pub is_https : Text → Bool
is_https origin = strncmp_eq 8 origin (codes "https://")

abbrev pub is_safe_char : ℕ → Bool
is_safe_char c = not (ltb c 32 || c == 127)

all_safe : ℕ → Text → Bool
all_safe zero s = true
all_safe (suc n) [] = true
all_safe (suc n) (c ∷ s) = is_safe_char c && all_safe n s

unfoldable pub is_safe_ascii_text : Text → ℕ → Bool
unfolding all_safe
is_safe_ascii_text value max_len = all_safe (bounded_strlen value max_len) value

unfoldable pub has_url_like_value : Text → Bool
has_url_like_value [] = false
has_url_like_value (c ∷ value) =
    strstr (c ∷ value) (codes "://")
    || strncmp_eq 4 (c ∷ value) (codes "www.")
    || strstr (c ∷ value) (codes "javascript:")

has_non_ascii : Text → Bool
has_non_ascii [] = false
has_non_ascii (c ∷ s) = ltb 127 c || has_non_ascii s

unfoldable pub browser_origin_is_suspicious : Option Text → Bool
unfolding has_scheme is_https has_non_ascii
browser_origin_is_suspicious none = true
browser_origin_is_suspicious (some []) = true
browser_origin_is_suspicious (some (c ∷ s)) =
    let origin = c ∷ s in
    if not (has_scheme origin)
    then true
    else if not (is_https origin)
    then true
    else if has_non_ascii origin
    then true
    else if strstr origin (codes "@")
    then true
    else false

abbrev pub is_empty : Text → Bool
is_empty [] = true
is_empty (c ∷ s) = false

unfoldable pub required_fields : BrowserCommandType → BrowserCommand → Bool
required_fields request_fill cmd = not (is_empty cmd.origin)
required_fields request_generate cmd = not (is_empty cmd.origin)
required_fields request_save cmd =
    not (is_empty cmd.origin) && not (is_empty cmd.username) && not (is_empty cmd.password)
required_fields request_select_next cmd = true
required_fields none_type cmd = false

abbrev pub command_has_required_fields : BrowserCommand → Bool
command_has_required_fields cmd = required_fields cmd.type cmd

-- `result` after the `memset` and the default.
abbrev blank : String → BrowserCommandResult
blank message = record {
  accepted = false;
  touch_required = true;
  high_risk_origin = false;
  message = message;
}

is_select_next : BrowserCommandType → Bool
is_select_next request_select_next = true
is_select_next _ = false

-- The last two steps: the origin check, left out for REQUEST_SELECT_NEXT, and the acceptance.
unfoldable pub check_origin : BrowserCommand → Bool × BrowserCommandResult
unfolding is_select_next
check_origin cmd =
    if not (is_select_next cmd.type) && browser_origin_is_suspicious (some cmd.origin)
    then (
      false,
      record {
        accepted = false;
        touch_required = true;
        high_risk_origin = true;
        message = "origin is high risk";
      },
    )
    else (
      true,
      record {
        accepted = true;
        touch_required = true;
        high_risk_origin = false;
        message = "command accepted";
      },
    )

unfoldable pub browser_validate_command : BrowserCommand → Bool × BrowserCommandResult
unfolding check_origin required_fields
browser_validate_command cmd =
    let origin_len = bounded_strlen cmd.origin origin_size in
    let username_len = bounded_strlen cmd.username max_username_len in
    let password_len = bounded_strlen cmd.password max_password_len in
    if not (command_has_required_fields cmd)
    then (false, blank "missing required fields for command type")
    else if leb origin_size origin_len
        || leb max_username_len username_len
        || leb max_password_len password_len
    then (false, blank "field too long")
    else if not (is_safe_ascii_text cmd.origin origin_size)
        || not (is_safe_ascii_text cmd.username max_username_len)
        || not (is_safe_ascii_text cmd.password max_password_len)
    then (false, blank "unsafe field characters")
    else if has_url_like_value cmd.username || has_url_like_value cmd.password
    then (false, blank "unsafe field content")
    else if ltb 0 username_len && ltb username_len 2
    then (false, blank "username too short")
    else check_origin cmd
