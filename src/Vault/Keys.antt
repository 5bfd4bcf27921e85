-- ===== src/Vault/Keys.antt =====
-- firmware/src/vault.c: the key that an entry is stored under, and the vault's invariant.
use safe_key_vault.Prelude.{
  ℕ, ◌≤◌, true, Text, length, ◌≡◌, inl, inr, sym, ◌∙◌, arith, strncmp_eq, strncmp_eq→take,
  take→strncmp_eq, Bool-cases,
}
use safe_key_vault.Vault.{Credential, Vault, vault_size, same_key}

-- `strncmp` with equal first n bytes gives the same answer on either text.
pub strncmp_eq_cong :
    (n : ℕ) (a b c : Text) → strncmp_eq n a b ≡ true → strncmp_eq n a c ≡ strncmp_eq n b c
strncmp_eq_cong n a b c h =
    let same = strncmp_eq→take n a b h in
    elim (Bool-cases (strncmp_eq n a c)) [
      | inl yes_a ↦
          let back = take→strncmp_eq n b c (sym same ∙ strncmp_eq→take n a c yes_a) in
          yes_a ∙ sym back
      | inr no_a ↦ elim (Bool-cases (strncmp_eq n b c)) [
        | inl yes_b ↦
            let there = take→strncmp_eq n a c (same ∙ strncmp_eq→take n b c yes_b) in cc there
        | inr no_b ↦ no_a ∙ sym no_b
      ]
    ]

-- An entry with the key of r answers to the keys that r answers to.
pub same_key_cong :
    (e r : Credential) (origin username : Text)
    → same_key e r.origin r.username ≡ true
    → same_key e origin username ≡ same_key r origin username
same_key_cong e r origin username h = ground (
  arith,
  strncmp_eq_cong 96 e.origin r.origin origin,
  strncmp_eq_cong 64 e.username r.username username,
)

-- The array has 32 entries, and no more are in use.
pub record IsSized (v : Vault) : Type 0 where
  pub entries : length v.credentials ≡ vault_size
  pub in_use : v.count ≤ vault_size

pub strncmp_eq_join :
    (n : ℕ) (a b c : Text)
    → strncmp_eq n a c ≡ true
    → strncmp_eq n b c ≡ true
    → strncmp_eq n a b ≡ true
strncmp_eq_join n a b c ha hb =
    take→strncmp_eq n a b (strncmp_eq→take n a c ha ∙ sym (strncmp_eq→take n b c hb))
