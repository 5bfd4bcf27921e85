-- ===== src/Vault/Tests.antt =====
-- firmware/src/vault.c on a vault of two entries.
use safe_key_vault.Prelude.{
  true, false, none, some, ◌∷◌, Text, codes, replicate, strncmp_eq, ◌≡◌, ◌↔◌, refl, arith,
  if◌then◌else◌,
}
use safe_key_vault.Vault.{
  Credential, Vault, blank, vault_size, same_key, password_store_upsert,
  password_store_find_by_origin_indexed,
}
use safe_key_vault.Vault.Keys.{IsSized}
use safe_key_vault.Vault.Lookup.{lookup, upsert_lookup}

abbrev bob : Credential
bob = record blank { valid = true; id = 1; origin = codes "https://a.io"; username = codes "bob" }

abbrev amy : Credential
amy = record blank { valid = true; id = 7; origin = codes "https://b.io"; username = codes "amy" }

abbrev pair : Vault
pair = record { credentials = bob ∷ amy ∷ replicate 30 blank; count = 2 }

pair-IsSized : IsSized pair
pair-IsSized = omega arith

-- A changed password for amy.
abbrev amy' : Credential
amy' = record amy { password_ciphertext = codes "00" }

amy_found :
    password_store_find_by_origin_indexed pair (some (codes "https://b.io")) 0 ≡ some (amy, 1)
unfolding password_store_find_by_origin_indexed strncmp_eq
amy_found = refl

amy_replaced : (password_store_upsert pair (some amy')).0.count ≡ 2
unfolding password_store_upsert strncmp_eq
amy_replaced = refl

upsert_lookup_example :
    let (v', done) = password_store_upsert pair (some amy') in
    ((done ≡ false) ↔ ((pair.count ≡ vault_size) × (lookup pair amy'.origin amy'.username ≡ none)))
    × (done ≡ false → v' ≡ pair)
    × (done ≡ true
        → (origin username : Text)
        → lookup v' origin username
          ≡ (if same_key amy' origin username then some amy' else lookup pair origin username))
    × IsSized v'
upsert_lookup_example = upsert_lookup pair amy' pair-IsSized refl
