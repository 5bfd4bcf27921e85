-- ===== src/SecurityUtils.antt =====
-- firmware/src/security_utils.c: buffers are lists of bytes.
pub mod Equality
pub mod Hash
mod Tests
use safe_key_vault.Prelude.{
  ℕ, zero, suc, ◌*◌, ◌%◌, ◌^◌, Bool, false, Option, none, some, List, [], ◌∷◌, bit_or, bit_xor,
  ◌==◌,
}

-- The loop over `diff`. Every caller passes two arrays of at least `len` bytes, so the clause for
-- an array that ends early is not reached.
unfoldable pub diff_bytes : ℕ → List ℕ → List ℕ → ℕ → ℕ
diff_bytes (suc len) (x ∷ a) (y ∷ b) diff = diff_bytes len a b (bit_or diff (bit_xor x y % 256))
diff_bytes _ _ _ diff = diff

-- A NULL pointer is `none`.
unfoldable pub sec_consttime_memeq : Option (List ℕ) → Option (List ℕ) → ℕ → Bool
unfolding diff_bytes
sec_consttime_memeq (some a) (some b) len = diff_bytes len a b 0 == 0
sec_consttime_memeq _ _ len = false

fnv1a_from : ℕ → List ℕ → ℕ
fnv1a_from h [] = h
fnv1a_from h (x ∷ xs) = fnv1a_from (bit_xor h x * 16777619 % 2 ^ 32) xs

unfoldable pub security_fnv1a32 : Option (List ℕ) → ℕ
unfolding fnv1a_from
security_fnv1a32 none = 2166136261
security_fnv1a32 (some bytes) = fnv1a_from 2166136261 bytes

-- The memory from `ptr` on, before and after.
unfoldable pub security_secure_zero : List ℕ → ℕ → List ℕ
security_secure_zero (x ∷ mem) (suc len) = 0 ∷ security_secure_zero mem len
security_secure_zero mem _ = mem
