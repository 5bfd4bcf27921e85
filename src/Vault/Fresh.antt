-- ===== src/Vault/Fresh.antt =====
-- firmware/src/vault.c: an entry for an origin that the vault did not know.
use safe_key_vault.Prelude.{
  ℕ, zero, suc, ◌+◌, ◌<◌, true, false, none, some, List, [], ◌∷◌, Text, length, set, ◌≡◌, refl,
  arith, leb,
}
use safe_key_vault.Vault.{
  Credential, Vault, vault_size, same_origin, find_in, update_in, append_record,
  password_store_find_by_origin, password_store_upsert,
}
use safe_key_vault.Vault.Keys.{IsSized, strncmp_eq_cong}

-- An array without an entry for the origin has none with the key of a record for it.
update_in-none :
    (n : ℕ) (es : List Credential) (r : Credential) (origin : Text)
    → same_origin r origin ≡ true
    → find_in n es origin ≡ none
    → update_in n es r ≡ none
unfolding find_in update_in
update_in-none zero es r origin same h = refl
update_in-none (suc n) [] r origin same h = refl
update_in-none (suc n) (e ∷ es) r origin same h =
    let rest = update_in-none n es r origin same (ground arith) in
    let through = strncmp_eq_cong 96 e.origin r.origin origin in ground (arith, rest, through)

find_in-set :
    (n : ℕ) (es : List Credential) (r : Credential) (origin : Text)
    → n < length es
    → r.valid ≡ true
    → same_origin r origin ≡ true
    → find_in n es origin ≡ none
    → find_in (n + 1) (set es n r) origin ≡ some r
unfolding find_in
find_in-set n [] r origin lt valid same h = absurd (omega arith)
find_in-set zero (e ∷ es) r origin lt valid same h = rw (valid, same) refl
find_in-set (suc n) (e ∷ es) r origin lt valid same h =
    ground (arith, find_in-set n es r origin (omega arith) valid same)

-- A valid record for an origin that has no entry yet: once `password_store_upsert` has stored it
-- in a vault of 32 entries, `password_store_find_by_origin` finds it under that origin.
pub upsert-find_by_origin :
    (v : Vault) (r : Credential) (origin : Text)
    → IsSized v
    → r.valid ≡ true
    → same_origin r origin ≡ true
    → password_store_find_by_origin v (some origin) ≡ none
    → (password_store_upsert v (some r)).1 ≡ true
    → password_store_find_by_origin (password_store_upsert v (some r)).0 (some origin) ≡ some r
unfolding password_store_find_by_origin password_store_upsert append_record
upsert-find_by_origin v r origin size valid same h done =
    let miss = update_in-none v.count v.credentials r origin same h in
    let room : leb vault_size v.count ≡ false = ground (arith, miss, valid, done) in
    simp (miss, room, valid)
      (find_in-set v.count v.credentials r origin (ground (arith, size.entries)) valid same h)
