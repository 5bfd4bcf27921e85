-- ===== src/BrowserProtocol/Tests.antt =====
-- firmware/src/browser_protocol.c at concrete commands.
use safe_key_vault.Prelude.{true, codes, [], strstr, strncmp_eq, ◌≡◌, ◌↔◌, refl}
use safe_key_vault.BrowserProtocol.{
  BrowserCommand, request_fill, browser_validate_command, is_safe_ascii_text, has_url_like_value,
  browser_origin_is_suspicious,
}
use safe_key_vault.BrowserProtocol.Accepted.{IsAcceptable, browser_validate_command_iff}

abbrev fill : BrowserCommand
fill = record {
  type = request_fill;
  nonce = 1;
  origin = codes "https://a.io";
  username = codes "bob";
  password = [];
}

fill_is_accepted : (browser_validate_command fill).0 ≡ true
unfolding browser_validate_command is_safe_ascii_text has_url_like_value
    browser_origin_is_suspicious strstr strncmp_eq
fill_is_accepted = refl

http_is_refused :
    (browser_validate_command (record fill { origin = codes "http://a.io" })).1.message
    ≡ "origin is high risk"
unfolding browser_validate_command is_safe_ascii_text has_url_like_value
    browser_origin_is_suspicious strstr strncmp_eq
http_is_refused = refl

browser_validate_command_iff_example :
    ((browser_validate_command fill).0 ≡ true) ↔ IsAcceptable fill
browser_validate_command_iff_example = browser_validate_command_iff fill

-- Punycode and an address of numbers pass.
punycode_is_accepted :
    (browser_validate_command (record fill { origin = codes "https://xn--pple-43d.com" })).0 ≡ true
unfolding browser_validate_command is_safe_ascii_text has_url_like_value
    browser_origin_is_suspicious strstr strncmp_eq
punycode_is_accepted = refl

address_is_accepted :
    (browser_validate_command (record fill { origin = codes "https://10.0.0.1" })).0 ≡ true
unfolding browser_validate_command is_safe_ascii_text has_url_like_value
    browser_origin_is_suspicious strstr strncmp_eq
address_is_accepted = refl
