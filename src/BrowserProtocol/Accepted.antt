-- ===== src/BrowserProtocol/Accepted.antt =====
-- Which commands `browser_validate_command` of firmware/src/browser_protocol.c accepts.
use safe_key_vault.Prelude.{
  ◌<◌, true, false, some, [], length, ◌≡◌, ◌≢◌, ◌↔◌, ◌⊎◌, inl, inr, refl, arith, All,
}
use safe_key_vault.BrowserProtocol.{
  BrowserCommand, BrowserCommandType, none_type, request_save, request_select_next, origin_size,
  max_username_len, max_password_len, is_safe_ascii_text, has_url_like_value,
  browser_origin_is_suspicious, required_fields, is_select_next, browser_validate_command,
}
use safe_key_vault.BrowserProtocol.Fields.{
  IsPrintable, IsUrlLike, IsSafeOrigin, bounded_strlen-eq-min, is_safe_ascii_text_iff,
  has_url_like_value_iff, suspicious_iff, not_url_like, safe-not_empty,
}

-- The commands that the validation is meant to let through.
pub record IsAcceptable (cmd : BrowserCommand) : Type 0 where
  pub known : cmd.type ≢ none_type
  pub complete : cmd.type ≡ request_save → (cmd.username ≢ []) × (cmd.password ≢ [])
  pub fits :
      (length cmd.origin < origin_size)
      × (length cmd.username < max_username_len)
      × (length cmd.password < max_password_len)
  pub printable :
      All IsPrintable cmd.origin × All IsPrintable cmd.username × All IsPrintable cmd.password
  pub no_url : (¬ IsUrlLike cmd.username) × (¬ IsUrlLike cmd.password)
  pub username_not_one : length cmd.username ≢ 1
  pub safe_origin : cmd.type ≢ request_select_next → IsSafeOrigin cmd.origin

-- The tests of the function, in order.
record Tests (cmd : BrowserCommand) : Type 0 where
  required : required_fields cmd.type cmd ≡ true
  origin_short : length cmd.origin < origin_size
  username_short : length cmd.username < max_username_len
  password_short : length cmd.password < max_password_len
  origin_safe : is_safe_ascii_text cmd.origin origin_size ≡ true
  username_safe : is_safe_ascii_text cmd.username max_username_len ≡ true
  password_safe : is_safe_ascii_text cmd.password max_password_len ≡ true
  username_plain : has_url_like_value cmd.username ≡ false
  password_plain : has_url_like_value cmd.password ≡ false
  username_long : length cmd.username ≢ 1
  origin_trusted :
      (is_select_next cmd.type ≡ true) ⊎ (browser_origin_is_suspicious (some cmd.origin) ≡ false)

accepted-Tests : (cmd : BrowserCommand) → (browser_validate_command cmd).0 ≡ true → Tests cmd
unfolding browser_validate_command
accepted-Tests cmd h = ground (
  arith,
  bounded_strlen-eq-min cmd.origin origin_size,
  bounded_strlen-eq-min cmd.username max_username_len,
  bounded_strlen-eq-min cmd.password max_password_len,
)

Tests-accepted : (cmd : BrowserCommand) → Tests cmd → (browser_validate_command cmd).0 ≡ true
unfolding browser_validate_command
Tests-accepted cmd t = ground (
  arith,
  bounded_strlen-eq-min cmd.origin origin_size,
  bounded_strlen-eq-min cmd.username max_username_len,
  bounded_strlen-eq-min cmd.password max_password_len,
)

Tests-IsAcceptable : (cmd : BrowserCommand) → Tests cmd → IsAcceptable cmd
unfolding required_fields is_select_next
Tests-IsAcceptable cmd t = record {
  known = λ e. ground arith;
  complete = λ e. (λ u. ground arith, λ p. ground arith);
  fits = (t.origin_short, t.username_short, t.password_short);
  printable = (
    (is_safe_ascii_text_iff cmd.origin origin_size t.origin_short).0 t.origin_safe,
    (is_safe_ascii_text_iff cmd.username max_username_len t.username_short).0 t.username_safe,
    (is_safe_ascii_text_iff cmd.password max_password_len t.password_short).0 t.password_safe,
  );
  no_url = (
    λ url. ground (arith, (has_url_like_value_iff cmd.username).1 url, t.username_plain),
    λ url. ground (arith, (has_url_like_value_iff cmd.password).1 url, t.password_plain),
  );
  username_not_one = t.username_long;
  safe_origin = λ ne. (suspicious_iff cmd.origin).0 (ground arith);
}

trusted_cases : (t : BrowserCommandType) → (is_select_next t ≡ true) ⊎ (t ≢ request_select_next)
unfolding is_select_next
trusted_cases request_select_next = inl refl
trusted_cases _ = inr (λ e. cc)

required_lem :
    (cmd : BrowserCommand)
    → cmd.type ≢ none_type
    → (cmd.type ≡ request_save → (cmd.username ≢ []) × (cmd.password ≢ []))
    → (cmd.type ≢ request_select_next → cmd.origin ≢ [])
    → required_fields cmd.type cmd ≡ true
unfolding required_fields
required_lem cmd known complete origin = ground arith

IsAcceptable-Tests : (cmd : BrowserCommand) → IsAcceptable cmd → Tests cmd
IsAcceptable-Tests cmd a = record {
  required =
      required_lem cmd a.known a.complete (λ ne. safe-not_empty cmd.origin (a.safe_origin ne));
  origin_short = a.fits.0;
  username_short = a.fits.1;
  password_short = a.fits.2;
  origin_safe = (is_safe_ascii_text_iff cmd.origin origin_size a.fits.0).1 a.printable.0;
  username_safe = (is_safe_ascii_text_iff cmd.username max_username_len a.fits.1).1 a.printable.1;
  password_safe = (is_safe_ascii_text_iff cmd.password max_password_len a.fits.2).1 a.printable.2;
  username_plain = not_url_like cmd.username a.no_url.0;
  password_plain = not_url_like cmd.password a.no_url.1;
  username_long = a.username_not_one;
  origin_trusted = elim (trusted_cases cmd.type) [
    | inl select ↦ inl select
    | inr ne ↦ inr ((suspicious_iff cmd.origin).1 (a.safe_origin ne))
  ];
}

-- A command is accepted exactly when it has a known type and the fields that its type needs, its
-- fields fit their arrays and hold no control character, user name and password do not look like a
-- URL, the user name is not one byte long, and (but for REQUEST_SELECT_NEXT) the origin is an
-- https one of ASCII bytes without `@`.
pub browser_validate_command_iff :
    (cmd : BrowserCommand) → ((browser_validate_command cmd).0 ≡ true) ↔ IsAcceptable cmd
browser_validate_command_iff cmd = (
  λ h. Tests-IsAcceptable cmd (accepted-Tests cmd h),
  λ a. Tests-accepted cmd (IsAcceptable-Tests cmd a),
)

-- The result's `accepted` flag is the returned value, and touch is always asked for.
pub browser_validate_command_result :
    (cmd : BrowserCommand)
    → ((browser_validate_command cmd).1.accepted ≡ (browser_validate_command cmd).0)
      × ((browser_validate_command cmd).1.touch_required ≡ true)
unfolding browser_validate_command
browser_validate_command_result cmd = ground arith
