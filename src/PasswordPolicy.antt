-- ===== src/PasswordPolicy.antt =====
-- firmware/src/password_policy.c and firmware/src/common_passwords.c, with the types of
-- firmware/include/security_policy.h.
pub mod Rules
mod Tests
use safe_key_vault.Prelude.{
  ℕ, ◌+◌, Bool, true, false, ◌&&◌, ◌||◌, not, Option, none, some, List, [], ◌∷◌, Text, codes,
  length, leb, ltb, strcmp_eq, if◌then◌else◌,
}

abbrev pub password_min_length : ℕ
password_min_length = 8

abbrev pub k_common_passwords : List Text
k_common_passwords =
    codes "123456"
    ∷ codes "12345678"
    ∷ codes "123456789"
    ∷ codes "password"
    ∷ codes "qwerty"
    ∷ codes "qwerty123"
    ∷ codes "11111111"
    ∷ codes "abc123"
    ∷ codes "letmein"
    ∷ codes "admin"
    ∷ codes "welcome"
    ∷ codes "iloveyou"
    ∷ codes "password1"
    ∷ codes "123123123"
    ∷ codes "00000000"
    ∷ []

pub data PasswordStrength : Type 0 where
  weak ok strong : PasswordStrength

pub record PolicyResult : Type 0 where
  pub too_short : Bool
  pub is_common : Bool
  pub is_reused : Bool
  pub strength : PasswordStrength

-- The three globals of the file. `g_common_list` and `g_common_count` are the list of the first
-- `count` entries, `none` for NULL.
pub record PolicyGlobals : Type 0 where
  pub reuse_checker : Option (Text → Bool)
  pub common_list : Option (List Text)

-- Before a setter is called.
abbrev pub initial_policy : PolicyGlobals
initial_policy = record { reuse_checker = none; common_list = none }

pub security_set_reuse_checker : PolicyGlobals → Option (Text → Bool) → PolicyGlobals
security_set_reuse_checker g checker = record g { reuse_checker = checker }

pub security_set_common_password_list : PolicyGlobals → Option (List Text) → PolicyGlobals
security_set_common_password_list g list = record g { common_list = list }

listed : Text → List Text → Bool
listed candidate [] = false
listed candidate (p ∷ list) = strcmp_eq candidate p || listed candidate list

abbrev pub common_passwords_of : PolicyGlobals → List Text
common_passwords_of g = elim (g.common_list) [ none ↦ k_common_passwords | some list ↦ list ]

unfoldable pub contains_common_password : PolicyGlobals → Text → Bool
unfolding listed strcmp_eq
contains_common_password g candidate = listed candidate (common_passwords_of g)

-- `isupper`, `islower` and `isdigit` in the C locale.
abbrev pub isupper : ℕ → Bool
isupper c = leb b'A' c && leb c b'Z'

abbrev pub islower : ℕ → Bool
islower c = leb b'a' c && leb c b'z'

abbrev pub isdigit : ℕ → Bool
isdigit c = leb b'0' c && leb c b'9'

-- The four flags of the loop.
pub record CharClasses : Type 0 where
  pub has_upper : Bool
  pub has_lower : Bool
  pub has_digit : Bool
  pub has_symbol : Bool

unfoldable pub mark : ℕ → CharClasses → CharClasses
mark ch f =
    if isupper ch
    then record f { has_upper = true }
    else if islower ch
    then record f { has_lower = true }
    else if isdigit ch
    then record f { has_digit = true }
    else record f { has_symbol = true }

unfoldable pub scan_classes : Text → CharClasses → CharClasses
unfolding mark
scan_classes [] f = f
scan_classes (ch ∷ s) f = scan_classes s (mark ch f)

abbrev pub no_classes : CharClasses
no_classes = record { has_upper = false; has_lower = false; has_digit = false; has_symbol = false }

abbrev pub point : Bool → ℕ
point b = if b then 1 else 0

unfoldable pub score : CharClasses → ℕ → ℕ
score f len =
    point f.has_upper
    + point f.has_lower
    + point f.has_digit
    + point f.has_symbol
    + point (leb 12 len)
    + point (leb 20 len)

unfoldable pub classify_strength : Text → PasswordStrength
unfolding scan_classes score
classify_strength candidate =
    let total = score (scan_classes candidate no_classes) (length candidate) in
    if leb 5 total then strong else if leb 3 total then ok else weak

unfoldable pub security_evaluate_password : PolicyGlobals → Option Text → PolicyResult
unfolding contains_common_password classify_strength
security_evaluate_password g none = record {
  too_short = true;
  is_common = false;
  is_reused = false;
  strength = weak;
}
security_evaluate_password g (some candidate) = record {
  too_short = ltb (length candidate) password_min_length;
  is_common = contains_common_password g candidate;
  is_reused = elim (g.reuse_checker) [ none ↦ false | some checker ↦ checker candidate ];
  strength = classify_strength candidate;
}

unfoldable pub security_should_allow_save : Option PolicyResult → Bool → Bool
security_should_allow_save none override_with_hold = false
security_should_allow_save (some r) override_with_hold =
    if r.too_short
    then false
    else if (r.is_common || r.is_reused) && not override_with_hold
    then false
    else true
