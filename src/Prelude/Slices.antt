-- ===== src/Prelude/Slices.antt =====
-- How `take` and `drop` act on an array after a write.
use Prim.Native.Nat.{ℕ, zero, suc, ◌+◌, ◌<◌, ◌≤◌}
use mathlib.Core.Path.{◌≡◌, refl, ap}
use mathlib.Core.List.{List, [], ◌∷◌, ◌++◌}
use native.Mathlib.Omega.{arith}
use safe_key_vault.Prelude.Lists.{length, get_or, set, take, drop}

module _ {ℓ} {A : Type ℓ} where
  pub take-set_last :
      (xs : List A) (i : ℕ) (v : A)
      → i < length xs
      → take (suc i) (set xs i v) ≡ take i xs ++ (v ∷ [])
  take-set_last [] i v h = absurd (omega arith)
  take-set_last (x ∷ xs) zero v h = refl
  take-set_last (x ∷ xs) (suc i) v h = ap (λ r. x ∷ r) (take-set_last xs i v (omega arith))

  pub take-set_past : (xs : List A) (n i : ℕ) (v : A) → n ≤ i → take n (set xs i v) ≡ take n xs
  take-set_past xs zero i v h = refl
  take-set_past [] (suc n) i v h = refl
  take-set_past (x ∷ xs) (suc n) zero v h = absurd (omega arith)
  take-set_past (x ∷ xs) (suc n) (suc i) v h =
      ap (λ r. x ∷ r) (take-set_past xs n i v (omega arith))

  pub drop-set_before : (xs : List A) (n i : ℕ) (v : A) → i < n → drop n (set xs i v) ≡ drop n xs
  drop-set_before xs zero i v h = absurd (omega arith)
  drop-set_before [] (suc n) i v h = refl
  drop-set_before (x ∷ xs) (suc n) zero v h = refl
  drop-set_before (x ∷ xs) (suc n) (suc i) v h = drop-set_before xs n i v (omega arith)

  pub take-drop_more :
      (xs : List A) (n i : ℕ) (d : A)
      → i < length xs
      → take (suc n) (drop i xs) ≡ get_or xs i d ∷ take n (drop (suc i) xs)
  take-drop_more [] n i d h = absurd (omega arith)
  take-drop_more (x ∷ xs) n zero d h = refl
  take-drop_more (x ∷ xs) n (suc i) d h = take-drop_more xs n i d (omega arith)

  pub take-take : (xs : List A) (m n : ℕ) → m ≤ n → take m (take n xs) ≡ take m xs
  take-take xs zero n h = refl
  take-take [] (suc m) zero h = refl
  take-take [] (suc m) (suc n) h = refl
  take-take (x ∷ xs) (suc m) zero h = absurd (omega arith)
  take-take (x ∷ xs) (suc m) (suc n) h = ap (λ r. x ∷ r) (take-take xs m n (omega arith))

  pub drop-take : (xs : List A) (k m n : ℕ) → k ≡ m + n → drop m (take k xs) ≡ take n (drop m xs)
  drop-take xs k zero n h = ap (λ t. take t xs) (omega arith)
  drop-take xs zero (suc m) n h = absurd (omega arith)
  drop-take [] (suc k) (suc m) zero h = refl
  drop-take [] (suc k) (suc m) (suc n) h = refl
  drop-take (x ∷ xs) (suc k) (suc m) n h = drop-take xs k m n (omega arith)

  pub append_assoc : (xs ys zs : List A) → (xs ++ ys) ++ zs ≡ xs ++ (ys ++ zs)
  append_assoc [] ys zs = refl
  append_assoc (x ∷ xs) ys zs = ap (λ r. x ∷ r) (append_assoc xs ys zs)

  pub append_nil : (xs : List A) → xs ++ [] ≡ xs
  append_nil [] = refl
  append_nil (x ∷ xs) = ap (λ r. x ∷ r) (append_nil xs)

  pub take-append : (xs ys : List A) → take (length xs) (xs ++ ys) ≡ xs
  take-append [] ys = refl
  take-append (x ∷ xs) ys = ap (λ r. x ∷ r) (take-append xs ys)
