-- ===== src/Vault.antt =====
-- firmware/src/vault.c and firmware/include/password_store.h. The vault pointer is never NULL
-- here; a NULL text or record is `none`. A call that writes through `out` and returns true gives
-- `some`.
pub mod Keys
pub mod Lookup
pub mod Search
pub mod Fresh
mod Tests
use safe_key_vault.Prelude.{
  ℕ, zero, suc, ◌+◌, ◌%◌, ◌^◌, Bool, true, false, ◌&&◌, not, Option, none, some, List, [], ◌∷◌,
  ◌++◌, Text, get_elem?, set, take, replicate, length, ◌-◌, strncmp_eq, memcmp_eq, ltb, leb, ◌==◌,
  if◌then◌else◌,
}

-- `credential_t`: the texts are char[96], char[48], char[64] and char[192].
pub record Credential : Type 0 where
  pub valid : Bool
  pub id : ℕ
  pub origin : Text
  pub app : Text
  pub username : Text
  pub password_ciphertext : Text
  pub password_fingerprint : List ℕ
  pub created_at : ℕ
  pub updated_at : ℕ

abbrev pub vault_size : ℕ
vault_size = 32

-- `vault_t`: an array of 32 entries, of which the first `count` are in use.
pub record Vault : Type 0 where
  pub credentials : List Credential
  pub count : ℕ

-- A zeroed entry.
abbrev pub blank : Credential
blank = record {
  valid = false;
  id = 0;
  origin = [];
  app = [];
  username = [];
  password_ciphertext = [];
  password_fingerprint = replicate 16 0;
  created_at = 0;
  updated_at = 0;
}

abbrev pub empty_vault : Vault
empty_vault = record { credentials = replicate vault_size blank; count = 0 }

unfoldable pub password_store_init : Vault → Vault
password_store_init v = empty_vault

-- `strncmp(entry->origin, origin, sizeof(entry->origin)) == 0`, and so for the user name.
abbrev pub same_origin : Credential → Text → Bool
same_origin e origin = strncmp_eq 96 e.origin origin

abbrev pub same_username : Credential → Text → Bool
same_username e username = strncmp_eq 64 e.username username

abbrev pub same_key : Credential → Text → Text → Bool
same_key e origin username = same_origin e origin && same_username e username

-- The loop of `password_store_find_by_origin` over the entries that are left.
unfoldable pub find_in : ℕ → List Credential → Text → Option Credential
find_in (suc n) (e ∷ es) origin =
    if e.valid && same_origin e origin then some e else find_in n es origin
find_in _ _ origin = none

unfoldable pub password_store_find_by_origin : Vault → Option Text → Option Credential
unfolding find_in
password_store_find_by_origin v none = none
password_store_find_by_origin v (some origin) = find_in v.count v.credentials origin

-- A read past the array, which `count ≤ 32` rules out, gives `none`.
unfoldable pub password_store_get_by_index : Vault → ℕ → Option Credential
password_store_get_by_index v index =
    if leb v.count index then none else elim (get_elem? v.credentials index) [
      | none ↦ none
      | some e ↦ if e.valid then some e else none
    ]

-- The loop of `password_store_upsert`: the array with the matching entry replaced.
unfoldable pub update_in : ℕ → List Credential → Credential → Option (List Credential)
update_in (suc n) (e ∷ es) r =
    let rest = update_in n es r in
    if e.valid && same_key e r.origin r.username
    then some (r ∷ es)
    else elim rest [ none ↦ none | some es' ↦ some (e ∷ es') ]
update_in _ _ r = none

-- The part of `password_store_upsert` behind the loop.
unfoldable pub append_record : Vault → Credential → Vault × Bool
append_record v r =
    if leb vault_size v.count
    then (v, false)
    else (record { credentials = set v.credentials v.count r; count = v.count + 1 }, true)

unfoldable pub password_store_upsert : Vault → Option Credential → Vault × Bool
unfolding update_in append_record
password_store_upsert v none = (v, false)
password_store_upsert v (some r) =
    if not r.valid then (v, false) else elim (update_in v.count v.credentials r) [
      | some es ↦ (record v { credentials = es }, true)
      | none ↦ append_record v r
    ]

fingerprint_in : ℕ → List Credential → List ℕ → Bool
unfolding memcmp_eq
fingerprint_in (suc n) (e ∷ es) fp =
    if e.valid && memcmp_eq 16 e.password_fingerprint fp then true else fingerprint_in n es fp
fingerprint_in _ _ fp = false

unfoldable pub password_store_fingerprint_exists : Vault → Option (List ℕ) → Bool
unfolding fingerprint_in
password_store_fingerprint_exists v none = false
password_store_fingerprint_exists v (some fp) = fingerprint_in v.count v.credentials fp

unfoldable pub exists_in : ℕ → List Credential → Text → Text → Bool
exists_in (suc n) (e ∷ es) origin username =
    if e.valid && same_key e origin username then true else exists_in n es origin username
exists_in _ _ origin username = false

unfoldable pub password_store_exists : Vault → Option Text → Option Text → Bool
unfolding exists_in
password_store_exists v (some origin) (some username) =
    exists_in v.count v.credentials origin username
password_store_exists v _ _ = false

-- The loop of `password_store_next_id`.
unfoldable pub max_id_in : ℕ → List Credential → ℕ → ℕ
max_id_in (suc n) (e ∷ es) max_id =
    max_id_in n es (if e.valid && ltb max_id e.id then e.id else max_id)
max_id_in _ _ max_id = max_id

abbrev pub uint32_max : ℕ
uint32_max = 2 ^ 32 - 1

unfoldable pub password_store_next_id : Vault → ℕ
unfolding max_id_in
password_store_next_id v =
    let max_id = max_id_in v.count v.credentials 0 in if max_id == uint32_max then 0 else max_id + 1

-- The circular loop: `left` rounds from round `i` on.
unfoldable pub find_round : Vault → Text → ℕ → ℕ → ℕ → Option (Credential × ℕ)
find_round v origin start zero i = none
find_round v origin start (suc left) i =
    let rest = find_round v origin start left (i + 1) in
    let idx = (start + i) % v.count in
    elim (get_elem? v.credentials idx) [
      | none ↦ rest
      | some e ↦ if e.valid && same_origin e origin then some (e, idx) else rest
    ]

-- The index is what goes through `out_index`.
unfoldable pub password_store_find_by_origin_indexed :
    Vault → Option Text → ℕ → Option (Credential × ℕ)
unfolding find_round
password_store_find_by_origin_indexed v none start_index = none
password_store_find_by_origin_indexed v (some origin) start_index =
    if v.count == 0
    then none
    else find_round v origin (if leb v.count start_index then 0 else start_index) v.count 0

-- `crypto_engine_hash16` is the parameter `hash16`.
unfoldable pub password_store_make_fingerprint : (List ℕ → List ℕ) → Option Text → List ℕ
password_store_make_fingerprint hash16 none = hash16 (replicate 32 0)
password_store_make_fingerprint hash16 (some password) =
    hash16 (take 32 password ++ replicate (32 - length password) 0)

-- Every entry in use and then the whole structure is zeroed.
unfoldable pub password_store_secure_wipe : Vault → Vault
password_store_secure_wipe v = empty_vault
