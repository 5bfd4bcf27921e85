-- ===== src/PasswordPolicy/Rules.antt =====
-- What firmware/src/password_policy.c accepts and how it grades.
use safe_key_vault.Prelude.{
  ◌≤◌, Bool, true, false, Option, none, some, List, [], ◌∷◌, Text, length, arith, ◌≡◌, ◌≢◌, ◌↔◌,
  refl, strcmp_eq_iff, All,
}
use safe_key_vault.PasswordPolicy.{
  PolicyGlobals, common_passwords_of, listed, contains_common_password, CharClasses, mark,
  scan_classes, no_classes, score, classify_strength, weak, strong, security_evaluate_password,
  security_should_allow_save, password_min_length,
}

listed_iff : (c : Text) (list : List Text) → (listed c list ≡ false) ↔ All (λ p. c ≢ p) list
unfolding listed
listed_iff c [] = (λ _. tt, λ _. refl)
listed_iff c (p ∷ list) = (
  λ h. (λ e. ground (arith, (strcmp_eq_iff c p).1 e), (listed_iff c list).0 (ground arith)),
  λ h. ground (arith, (listed_iff c list).1 h.1, strcmp_eq_iff c p),
)

-- No reuse checker is set, or the one that is set does not know the candidate.
abbrev pub IsFresh : Option (Text → Bool) → Text → Type 0
IsFresh none c = Unit
IsFresh (some checker) c = checker c ≡ false

contains_common_password_iff :
    (g : PolicyGlobals) (c : Text)
    → (contains_common_password g c ≡ false) ↔ All (λ p. c ≢ p) (common_passwords_of g)
unfolding contains_common_password
contains_common_password_iff g c = listed_iff c (common_passwords_of g)

abbrev is_reused : Option (Text → Bool) → Text → Bool
is_reused o c = elim o [ none ↦ false | some checker ↦ checker c ]

IsFresh-iff : (o : Option (Text → Bool)) (c : Text) → (is_reused o c ≡ false) ↔ IsFresh o c
IsFresh-iff none c = (λ _. tt, λ _. refl)
IsFresh-iff (some checker) c = (λ h. h, λ h. h)

-- A password may be saved without the hold override exactly when it has at least 8 bytes, is none
-- of the common passwords in force, and is not reported as reused; with the override, exactly when
-- it has at least 8 bytes.
pub security_should_allow_save_iff :
    (g : PolicyGlobals) (c : Text)
    → let allow = security_should_allow_save (some (security_evaluate_password g (some c))) in
      ((allow false ≡ true) ↔ (
        (password_min_length ≤ length c)
        × All (λ p. c ≢ p) (common_passwords_of g)
        × IsFresh g.reuse_checker c))
      × ((allow true ≡ true) ↔ (password_min_length ≤ length c))
unfolding security_should_allow_save security_evaluate_password
security_should_allow_save_iff g c = (
  (
    λ h. (
      ground arith,
      (contains_common_password_iff g c).0 (ground arith),
      (IsFresh-iff g.reuse_checker c).0 (ground arith),
    ),
    λ h.
        ground
          (arith, (contains_common_password_iff g c).1 h.1, (IsFresh-iff g.reuse_checker c).1 h.2),
  ),
  (λ h. ground arith, λ h. ground arith),
)

scan_classes-some : (s : Text) (f : CharClasses) → 1 ≤ score f 0 → 1 ≤ score (scan_classes s f) 0
unfolding scan_classes score
scan_classes-some [] f h = h
scan_classes-some (ch ∷ s) f h = scan_classes-some s (mark ch f) (ground arith)

-- A strong password has at least 12 bytes, and one of at least 20 bytes is never weak.
pub classify_strength_bounds :
    (c : Text)
    → (classify_strength c ≡ strong → 12 ≤ length c) × (20 ≤ length c → classify_strength c ≢ weak)
unfolding classify_strength
classify_strength_bounds [] = (λ h. ground arith, λ h. absurd (omega arith))
classify_strength_bounds (x ∷ s) =
    (λ h. ground arith, λ h. ground (arith, scan_classes-some s (mark x no_classes) (ground arith)))
