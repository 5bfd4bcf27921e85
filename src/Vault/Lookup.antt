-- ===== src/Vault/Lookup.antt =====
-- firmware/src/vault.c as a finite map from (origin, user name) to entries.
use safe_key_vault.Prelude.{
  ℕ, zero, suc, ◌<◌, Bool, true, false, ◌&&◌, Option, none, some, List, [], ◌∷◌, Text, length,
  length-set, set, ◌≡◌, ◌↔◌, inl, inr, refl, arith, strncmp_eq_refl, Bool-cases, Option-cases,
  if◌then◌else◌, ap,
}
use safe_key_vault.Vault.{
  Credential, Vault, vault_size, same_key, update_in, password_store_upsert, exists_in,
  password_store_exists,
}
use safe_key_vault.Vault.Keys.{strncmp_eq_join, same_key_cong, IsSized}

-- The first valid entry among the first n with a key.
pub lookup_in : ℕ → List Credential → Text → Text → Option Credential
lookup_in (suc n) (e ∷ es) origin username =
    if e.valid && same_key e origin username then some e else lookup_in n es origin username
lookup_in _ _ origin username = none

-- The entry that a key stands for.
unfoldable pub lookup : Vault → Text → Text → Option Credential
unfolding lookup_in
lookup v origin username = lookup_in v.count v.credentials origin username

abbrev pub is_some {ℓ} : {A : Type ℓ} → Option A → Bool
is_some none = false
is_some (some a) = true

exists_in_lem :
    (n : ℕ) (es : List Credential) (origin username : Text)
    → exists_in n es origin username ≡ is_some (lookup_in n es origin username)
unfolding exists_in lookup_in
exists_in_lem zero es origin username = refl
exists_in_lem (suc n) [] origin username = refl
exists_in_lem (suc n) (e ∷ es) origin username = ground (arith, exists_in_lem n es origin username)

self_key : (r : Credential) → same_key r r.origin r.username ≡ true
self_key r = ground (arith, strncmp_eq_refl 96 r.origin, strncmp_eq_refl 64 r.username)

-- Two entries that answer to one key answer to each other's.
shared_key :
    (e r : Credential) (origin username : Text)
    → same_key e origin username ≡ true
    → same_key r origin username ≡ true
    → same_key e r.origin r.username ≡ true
shared_key e r origin username he hr = ground (
  arith,
  strncmp_eq_join 96 e.origin r.origin origin,
  strncmp_eq_join 64 e.username r.username username,
)

module _ (r : Credential) (r_valid : r.valid ≡ true) where
  update-cons :
      (n : ℕ) (e : Credential) (es es' : List Credential)
      → (e.valid && same_key e r.origin r.username) ≡ false
      → update_in (suc n) (e ∷ es) r ≡ some es'
      → (rest : List Credential) × (update_in n es r ≡ some rest) × (es' ≡ e ∷ rest)
  unfolding update_in
  update-cons n e es es' miss h = elim (Option-cases (update_in n es r)) [
    | inl absent ↦ absurd (ground arith)
    | inr (rest, found) ↦ (rest, found, ground arith)
  ]

  lookup-update :
      (n : ℕ) (es es' : List Credential) (origin username : Text)
      → update_in n es r ≡ some es'
      → lookup_in n es' origin username
        ≡ (if same_key r origin username then some r else lookup_in n es origin username)
  unfolding update_in lookup_in
  lookup-update zero es es' origin username h = cc h
  lookup-update (suc n) [] es' origin username h = cc h
  lookup-update (suc n) (e ∷ es) es' origin username h =
      elim (Bool-cases (e.valid && same_key e r.origin r.username)) [
        | inl hit ↦
            let e' : es' ≡ r ∷ es = ground arith in
            rw e' (ground (arith, same_key_cong e r origin username))
        | inr miss ↦
            let (rest, found, e') = update-cons n e es es' miss h in
            rw e' (
              ground (
                arith,
                lookup-update n es rest origin username found,
                shared_key e r origin username,
              ))
      ]

  update-none :
      (n : ℕ) (es : List Credential)
      → (update_in n es r ≡ none) ↔ (lookup_in n es r.origin r.username ≡ none)
  unfolding update_in lookup_in
  update-none zero es = (λ _. refl, λ _. refl)
  update-none (suc n) [] = (λ _. refl, λ _. refl)
  update-none (suc n) (e ∷ es) =
      let (there, back) = update-none n es in
      elim (Option-cases (update_in n es r)) [
        | inl absent ↦ (λ h. ground (arith, there absent), λ h. ground arith)
        | inr (es', found) ↦ (λ h. ground arith, λ h. ground (arith, back))
      ]

  lookup-absent :
      (n : ℕ) (es : List Credential) (origin username : Text)
      → lookup_in n es r.origin r.username ≡ none
      → same_key r origin username ≡ true
      → lookup_in n es origin username ≡ none
  unfolding lookup_in
  lookup-absent zero es origin username h k = refl
  lookup-absent (suc n) [] origin username h k = refl
  lookup-absent (suc n) (e ∷ es) origin username h k =
      ground
        (arith, shared_key e r origin username, lookup-absent n es origin username (ground arith) k)

  lookup-append :
      (n : ℕ) (es : List Credential) (origin username : Text)
      → n < length es
      → lookup_in n es r.origin r.username ≡ none
      → lookup_in (suc n) (set es n r) origin username
        ≡ (if same_key r origin username then some r else lookup_in n es origin username)
  unfolding lookup_in
  lookup-append zero [] origin username lt h = absurd (omega arith)
  lookup-append zero (e ∷ es) origin username lt h = ground arith
  lookup-append (suc n) [] origin username lt h = absurd (omega arith)
  lookup-append (suc n) (e ∷ es) origin username lt h = ground (
    arith,
    lookup-append n es origin username (omega arith) (ground arith),
    shared_key e r origin username,
  )

  length-update :
      (n : ℕ) (es es' : List Credential) → update_in n es r ≡ some es' → length es' ≡ length es
  unfolding update_in
  length-update zero es es' h = cc h
  length-update (suc n) [] es' h = cc h
  length-update (suc n) (e ∷ es) es' h =
      elim (Bool-cases (e.valid && same_key e r.origin r.username)) [
        | inl hit ↦ let e' : es' ≡ r ∷ es = ground arith in rw e' refl
        | inr miss ↦
            let (rest, found, e') = update-cons n e es es' miss h in
            rw e' (ap suc (length-update n es rest found))
      ]

-- `password_store_exists` says whether the key has an entry.
pub exists-lookup :
    (v : Vault) (origin username : Text)
    → password_store_exists v (some origin) (some username) ≡ is_some (lookup v origin username)
unfolding password_store_exists lookup
exists-lookup v origin username = exists_in_lem v.count v.credentials origin username

-- On a vault of 32 entries and a valid record, `password_store_upsert` fails exactly when all 32
-- are in use and the record's key has no entry. It then changes nothing. When it succeeds, the
-- record is found under every key that it answers to, every other key keeps its entry, and no
-- more than 32 entries are in use.
pub upsert_lookup :
    (v : Vault) (r : Credential)
    → IsSized v
    → r.valid ≡ true
    → let (v', done) = password_store_upsert v (some r) in
      ((done ≡ false) ↔ ((v.count ≡ vault_size) × (lookup v r.origin r.username ≡ none)))
      × (done ≡ false → v' ≡ v)
      × (done ≡ true
          → (origin username : Text)
          → lookup v' origin username
            ≡ (if same_key r origin username then some r else lookup v origin username))
      × IsSized v'
unfolding password_store_upsert lookup
upsert_lookup v r h valid = elim (Option-cases (update_in v.count v.credentials r)) [
  | inr (es, found) ↦ (
    (λ f. ground arith, λ f. ground (arith, (update-none r valid v.count v.credentials).1 f.1)),
    λ f. ground arith,
    λ d origin username.
        ground (arith, lookup-update r valid v.count v.credentials es origin username found),
    ground (arith, length-update r valid v.count v.credentials es found),
  )
  | inl absent ↦
      let missing = (update-none r valid v.count v.credentials).0 absent in
      (
        (λ f. (ground arith, missing), λ f. ground arith),
        λ f. ground arith,
        λ d origin username.
            let room : v.count < length v.credentials = ground arith in
            let added = lookup-append r valid v.count v.credentials origin username room missing in
            ground (arith, added),
        ground (arith, length-set v.credentials v.count r),
      )
]
