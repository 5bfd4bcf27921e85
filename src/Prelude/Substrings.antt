-- ===== src/Prelude/Substrings.antt =====
-- What `strncmp` against a literal, `strstr` and a scan for one byte decide.
use Prim.Native.Nat.{ℕ}
use mathlib.Core.Path.{◌≡◌, refl, ap}
use mathlib.Core.Logic.{◌↔◌, inl, inr}
use mathlib.Core.Bool.{true}
use mathlib.Core.List.{[], ◌∷◌, ◌++◌}
use native.Mathlib.Omega.{arith}
use safe_key_vault.Prelude.Tests.{Bool-cases}
use safe_key_vault.Prelude.Lists.{length}
use safe_key_vault.Prelude.Strings.{Text, strncmp_eq, starts_with, strstr}

abbrev pub HasPrefix : Text → Text → Type 0
HasPrefix p s = (rest : Text) × (s ≡ p ++ rest)

abbrev pub HasSub : Text → Text → Type 0
HasSub p s = (before : Text) × (after : Text) × (s ≡ before ++ p ++ after)

head-eq : {x y : ℕ} {s t : Text} → x ∷ s ≡ y ∷ t → x ≡ y
head-eq h = ground arith

tail-eq : {x y : ℕ} {s t : Text} → x ∷ s ≡ y ∷ t → s ≡ t
tail-eq h = ground arith

pub strncmp_prefix_iff : (p s : Text) → (strncmp_eq (length p) s p ≡ true) ↔ HasPrefix p s
unfolding strncmp_eq
strncmp_prefix_iff [] s = (λ _. (s, refl), λ _. refl)
strncmp_prefix_iff (x ∷ p) [] = (λ h. ground arith, λ h. ground (arith, h.1))
strncmp_prefix_iff (x ∷ p) (y ∷ s) = (
  λ h. let (rest, e) = (strncmp_prefix_iff p s).0 (ground arith) in (rest, ground arith),
  λ h. ground (arith, (strncmp_prefix_iff p s).1 (h.0, tail-eq h.1), head-eq h.1),
)

pub starts_with_iff : (p s : Text) → (starts_with p s ≡ true) ↔ HasPrefix p s
unfolding starts_with
starts_with_iff [] s = (λ _. (s, refl), λ _. refl)
starts_with_iff (x ∷ p) [] = (λ h. ground arith, λ h. ground (arith, h.1))
starts_with_iff (x ∷ p) (y ∷ s) = (
  λ h. let (rest, e) = (starts_with_iff p s).0 (ground arith) in (rest, ground arith),
  λ h. ground (arith, (starts_with_iff p s).1 (h.0, tail-eq h.1), head-eq h.1),
)

pub strstr→HasSub : (s p : Text) → strstr s p ≡ true → HasSub p s
unfolding strstr
strstr→HasSub [] p h = let (rest, e) = (starts_with_iff p []).0 h in ([], rest, e)
strstr→HasSub (c ∷ s) p h = elim (Bool-cases (starts_with p (c ∷ s))) [
  | inl here ↦ let (rest, e) = (starts_with_iff p (c ∷ s)).0 here in ([], rest, e)
  | inr later ↦
      let (before, after, e) = strstr→HasSub s p (ground arith) in
      (c ∷ before, after, ap (λ t. c ∷ t) e)
]

pub HasSub→strstr : (s p before after : Text) → s ≡ before ++ p ++ after → strstr s p ≡ true
unfolding strstr
HasSub→strstr [] p [] after h = (starts_with_iff p []).1 (after, h)
HasSub→strstr [] p (b ∷ before) after h = ground arith
HasSub→strstr (c ∷ s) p [] after h = ground (arith, (starts_with_iff p (c ∷ s)).1 (after, h))
HasSub→strstr (c ∷ s) p (b ∷ before) after h =
    ground (arith, HasSub→strstr s p before after (tail-eq h))

pub strstr_iff : (s p : Text) → (strstr s p ≡ true) ↔ HasSub p s
strstr_iff s p = (strstr→HasSub s p, λ h. HasSub→strstr s p h.0 h.1 h.2)
