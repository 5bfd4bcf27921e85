-- ===== src/PasswordPolicy/Tests.antt =====
-- firmware/src/password_policy.c at concrete passwords.
use safe_key_vault.Prelude.{◌≡◌, refl, Text, codes}
use safe_key_vault.PasswordPolicy.{classify_strength, ok}

abbrev candidate : Text
candidate = codes "Tr0ub4dor&3"

grade : classify_strength candidate ≡ ok
unfolding classify_strength
grade = refl
