-- ===== src/Prelude/Strings.antt =====
-- C strings. A `char` array or a `const char *` is the list of its bytes before the first NUL,
-- so an array of n bytes without a NUL is a list of length n.
use Prim.Native.Nat.{ℕ, zero, suc, ◌≤◌}
use Prim.Native.Char.{code}
use Prim.Native.String.{String}
use mathlib.Core.Path.{◌≡◌, refl}
use mathlib.Core.Logic.{◌↔◌}
use mathlib.Core.Bool.{Bool, true, false, ◌&&◌, ◌||◌}
use mathlib.Core.List.{List, [], ◌∷◌}
use native.Mathlib.Omega.{arith}
use safe_key_vault.Prelude.Tests.{◌==◌}
use safe_key_vault.Prelude.Lists.{take, length, take_all}

abbrev pub Text : Type 0
Text = List ℕ

-- The bytes of an ASCII literal.
abbrev pub codes : String → Text
codes String.[] = []
codes (String.◌∷◌ c s) = code c ∷ codes s

-- `strncmp(a, b, n) == 0`.
unfoldable pub strncmp_eq : ℕ → Text → Text → Bool
strncmp_eq zero a b = true
strncmp_eq (suc n) [] [] = true
strncmp_eq (suc n) [] (y ∷ b) = false
strncmp_eq (suc n) (x ∷ a) [] = false
strncmp_eq (suc n) (x ∷ a) (y ∷ b) = x == y && strncmp_eq n a b

-- `strcmp(a, b) == 0`.
unfoldable pub strcmp_eq : Text → Text → Bool
strcmp_eq [] [] = true
strcmp_eq [] (y ∷ b) = false
strcmp_eq (x ∷ a) [] = false
strcmp_eq (x ∷ a) (y ∷ b) = x == y && strcmp_eq a b

-- `memcmp(a, b, n) == 0` for arrays of at least n bytes.
unfoldable pub memcmp_eq : ℕ → List ℕ → List ℕ → Bool
memcmp_eq (suc n) (x ∷ a) (y ∷ b) = x == y && memcmp_eq n a b
memcmp_eq _ _ _ = true

-- `strncpy(dst, src, n)` into an array of more than n bytes that was zeroed, or whose last byte is
-- then set to NUL.
abbrev pub strncpy : ℕ → Text → Text
strncpy n src = take n src

-- `starts_with p s`: p is a prefix of s.
unfoldable pub starts_with : Text → Text → Bool
starts_with [] s = true
starts_with (x ∷ p) [] = false
starts_with (x ∷ p) (y ∷ s) = x == y && starts_with p s

-- `strstr(s, p) != NULL`.
unfoldable pub strstr : Text → Text → Bool
unfolding starts_with
strstr [] p = starts_with p []
strstr (c ∷ s) p = starts_with p (c ∷ s) || strstr s p

unfoldable pub contains : ℕ → Text → Bool
contains c [] = false
contains c (x ∷ s) = x == c || contains c s

-- `strncmp` compares the first n bytes.
pub strncmp_eq→take : (n : ℕ) (a b : Text) → strncmp_eq n a b ≡ true → take n a ≡ take n b
unfolding strncmp_eq
strncmp_eq→take zero a b h = refl
strncmp_eq→take (suc n) [] [] h = refl
strncmp_eq→take (suc n) [] (y ∷ b) h = absurd (ground arith)
strncmp_eq→take (suc n) (x ∷ a) [] h = absurd (ground arith)
strncmp_eq→take (suc n) (x ∷ a) (y ∷ b) h = ground (arith, strncmp_eq→take n a b)

pub take→strncmp_eq : (n : ℕ) (a b : Text) → take n a ≡ take n b → strncmp_eq n a b ≡ true
unfolding strncmp_eq
take→strncmp_eq zero a b h = refl
take→strncmp_eq (suc n) [] [] h = refl
take→strncmp_eq (suc n) [] (y ∷ b) h = absurd (ground arith)
take→strncmp_eq (suc n) (x ∷ a) [] h = absurd (ground arith)
take→strncmp_eq (suc n) (x ∷ a) (y ∷ b) h = ground (arith, take→strncmp_eq n a b)

pub strncmp_eq_refl : (n : ℕ) (a : Text) → strncmp_eq n a a ≡ true
strncmp_eq_refl n a = take→strncmp_eq n a a refl

-- Two texts that fit the bound are equal where `strncmp` says so.
pub strncmp_eq_sound :
    (n : ℕ) (a b : Text) → length a ≤ n → length b ≤ n → strncmp_eq n a b ≡ true → a ≡ b
strncmp_eq_sound n a b ha hb h =
    ground (arith, strncmp_eq→take n a b h, take_all n a ha, take_all n b hb)

pub strcmp_eq_iff : (a b : Text) → (strcmp_eq a b ≡ true) ↔ (a ≡ b)
unfolding strcmp_eq
strcmp_eq_iff [] [] = (λ _. refl, λ _. refl)
strcmp_eq_iff [] (y ∷ b) = ground arith
strcmp_eq_iff (x ∷ a) [] = ground arith
strcmp_eq_iff (x ∷ a) (y ∷ b) = ground (arith, strcmp_eq_iff a b)

pub memcmp_eq_iff :
    (n : ℕ) (a b : List ℕ)
    → n ≤ length a
    → n ≤ length b
    → (memcmp_eq n a b ≡ true) ↔ (take n a ≡ take n b)
unfolding memcmp_eq
memcmp_eq_iff zero a b ha hb = (λ _. refl, λ _. refl)
memcmp_eq_iff (suc n) [] b ha hb = absurd (omega arith)
memcmp_eq_iff (suc n) (x ∷ a) [] ha hb = absurd (omega arith)
memcmp_eq_iff (suc n) (x ∷ a) (y ∷ b) ha hb =
    ground (arith, memcmp_eq_iff n a b (omega arith) (omega arith))
