-- ===== src/Vault/Search.antt =====
-- firmware/src/vault.c: the searches by origin, and fresh ids.
use native.Mathlib.Decide.{dec_lt}
use native.Mathlib.Nat.{mod-eq_of_lt, mod-eq-sub-mod}
use safe_key_vault.Prelude.{
  ℕ, zero, suc, ◌+◌, ◌-◌, ◌%◌, ◌<◌, ◌≤◌, true, false, ◌&&◌, none, some, List, [], ◌∷◌, Text,
  get_elem?, ◌≡◌, ◌⊎◌, ◌↔◌, inl, inr, arith, Bool-cases, Option-cases, if◌then◌else◌, ap, leb, ltb,
}
use safe_key_vault.Vault.{
  Credential, Vault, same_origin, find_in, find_round, max_id_in, password_store_find_by_origin,
  password_store_find_by_origin_indexed, password_store_get_by_index, password_store_next_id,
}

-- Entry i is in use, valid and equal to e.
pub IsStored : Vault → ℕ → Credential → Type 0
IsStored v i e = (i < v.count) × (get_elem? v.credentials i ≡ some e) × (e.valid ≡ true)

pub get_by_index_iff :
    (v : Vault) (i : ℕ) (e : Credential)
    → (password_store_get_by_index v i ≡ some e) ↔ IsStored v i e
unfolding password_store_get_by_index IsStored
get_by_index_iff v i e = (λ h. ground arith, λ h. ground arith)

find_in-some :
    (n : ℕ) (es : List Credential) (origin : Text) (e : Credential)
    → find_in n es origin ≡ some e
    → (i : ℕ) × (i < n)
      × (get_elem? es i ≡ some e)
      × (e.valid ≡ true)
      × (same_origin e origin ≡ true)
unfolding find_in
find_in-some zero es origin e h = cc h
find_in-some (suc n) [] origin e h = cc h
find_in-some (suc n) (x ∷ es) origin e h = elim (Bool-cases (x.valid && same_origin x origin)) [
  | inl hit ↦
      let found : x ≡ e = ground arith in
      (zero, omega arith, ap some found, ground arith, ground arith)
  | inr miss ↦
      let (i, lt, at, valid, same) = find_in-some n es origin e (ground arith) in
      (suc i, omega arith, at, valid, same)
]

find_in-none :
    (n : ℕ) (es : List Credential) (origin : Text) (i : ℕ) (e : Credential)
    → find_in n es origin ≡ none
    → i < n
    → get_elem? es i ≡ some e
    → e.valid ≡ true
    → same_origin e origin ≡ false
unfolding find_in
find_in-none zero es origin i e h lt at valid = absurd (omega arith)
find_in-none (suc n) [] origin i e h lt at valid = cc at
find_in-none (suc n) (x ∷ es) origin zero e h lt at valid = ground arith
find_in-none (suc n) (x ∷ es) origin (suc i) e h lt at valid =
    find_in-none n es origin i e (ground arith) (omega arith) at valid

-- `password_store_find_by_origin` returns a stored entry whose origin is the one asked for, and
-- returns none only if no stored entry has that origin.
pub find_by_origin_lem :
    (v : Vault) (origin : Text)
    → ((e : Credential)
        → password_store_find_by_origin v (some origin) ≡ some e
        → (i : ℕ) × (password_store_get_by_index v i ≡ some e) × (same_origin e origin ≡ true))
      × (password_store_find_by_origin v (some origin) ≡ none
          → (i : ℕ) (e : Credential) → password_store_get_by_index v i ≡ some e
          → same_origin e origin ≡ false)
unfolding password_store_find_by_origin IsStored
find_by_origin_lem v origin = (
  λ e h.
      let (i, lt, at, valid, same) = find_in-some v.count v.credentials origin e h in
      (i, (get_by_index_iff v i e).1 (lt, at, valid), same),
  λ h i e at.
      let (lt, here, valid) = (get_by_index_iff v i e).0 at in
      find_in-none v.count v.credentials origin i e h lt here valid,
)

find_round-some :
    (v : Vault) (origin : Text) (start left i : ℕ) (e : Credential) (k : ℕ)
    → 0 < v.count
    → find_round v origin start left i ≡ some (e, k)
    → IsStored v k e × (same_origin e origin ≡ true)
unfolding find_round IsStored
find_round-some v origin start zero i e k pos h = cc h
find_round-some v origin start (suc left) i e k pos h =
    elim (Option-cases (get_elem? v.credentials ((start + i) % v.count))) [
      | inl out ↦ find_round-some v origin start left (i + 1) e k pos (ground arith)
      | inr (x, at) ↦ elim (Bool-cases (x.valid && same_origin x origin)) [
        | inl hit ↦
            let entry : x ≡ e = ground arith in
            let index : (start + i) % v.count ≡ k = ground arith in
            let bound : (start + i) % v.count < v.count = omega arith in
            ground (arith, entry, index, bound)
        | inr miss ↦ find_round-some v origin start left (i + 1) e k pos (ground arith)
      ]
    ]

-- The rounds that are left all miss.
find_round-none :
    (v : Vault) (origin : Text) (start left i r : ℕ) (e : Credential)
    → find_round v origin start left i ≡ none
    → i ≤ r
    → r < i + left
    → get_elem? v.credentials ((start + r) % v.count) ≡ some e
    → e.valid ≡ true
    → same_origin e origin ≡ false
unfolding find_round
find_round-none v origin start zero i r e h le lt at valid = absurd (omega arith)
find_round-none v origin start (suc left) i r e h le lt at valid = elim (dec_lt i r) [
  | yes later ↦
      find_round-none v origin start left (i + 1) r e (ground arith) (omega arith) (omega arith) at
        valid
  | no here ↦
      let index : i ≡ r = omega arith in
      let now : get_elem? v.credentials ((start + i) % v.count) ≡ some e = rw index at in
      ground (arith, now)
]

-- Every index is reached in one of `count` rounds.
round_of :
    (count start j : ℕ)
    → start < count
    → j < count
    → (r : ℕ) × (r < count) × ((start + r) % count ≡ j)
round_of count start j hs hj = elim (dec_lt j start) [
  | yes before ↦ (
    j + count - start,
    omega arith,
    omega (
      arith,
      mod-eq-sub-mod {n = start + (j + count - start)} {m = count} (omega arith),
      mod-eq_of_lt {n = start + (j + count - start) - count} {m = count} (omega arith),
    ),
  )
  | no after ↦ (
    j - start,
    omega arith,
    omega (arith, mod-eq_of_lt {n = start + (j - start)} {m = count} (omega arith)),
  )
]

clamped : (count start : ℕ) → 0 < count → (if leb count start then 0 else start) < count
clamped count start pos = ground arith

-- On a vault in which some entry is in use, `password_store_find_by_origin_indexed` returns an
-- index and the entry stored there, whose origin is the one asked for; and it returns none only if
-- no stored entry has that origin, wherever the search starts.
pub find_by_origin_indexed_lem :
    (v : Vault) (origin : Text) (start : ℕ)
    → 0 < v.count
    → ((e : Credential) (k : ℕ)
        → password_store_find_by_origin_indexed v (some origin) start ≡ some (e, k)
        → (password_store_get_by_index v k ≡ some e) × (same_origin e origin ≡ true))
      × (password_store_find_by_origin_indexed v (some origin) start ≡ none
          → (j : ℕ) (e : Credential) → password_store_get_by_index v j ≡ some e
          → same_origin e origin ≡ false)
unfolding password_store_find_by_origin_indexed IsStored
find_by_origin_indexed_lem v origin start pos =
    let from : ℕ = if leb v.count start then 0 else start in
    let inside : from < v.count = clamped v.count start pos in
    (
      λ e k h.
          let (stored, same) = find_round-some v origin from v.count 0 e k pos (ground arith) in
          ((get_by_index_iff v k e).1 stored, same),
      λ h j e at.
          let (lt, here, valid) = (get_by_index_iff v j e).0 at in
          let (r, below, index) = round_of v.count from j inside lt in
          find_round-none v origin from v.count 0 r e (ground arith) (omega arith) (omega arith)
            (rw index here) valid,
    )

-- The running maximum is never below the one it began with, nor below a valid id of the entries.
max_id_bounds :
    (n : ℕ) (es : List Credential) (m i : ℕ) (e : Credential)
    → (m ≤ max_id_in n es m)
      × (i < n → get_elem? es i ≡ some e → e.valid ≡ true → e.id ≤ max_id_in n es m)
unfolding max_id_in
max_id_bounds zero es m i e = (omega arith, λ lt at valid. absurd (omega arith))
max_id_bounds (suc n) [] m i e = (omega arith, λ lt at valid. cc at)
max_id_bounds (suc n) (x ∷ es) m zero e =
    let next = if x.valid && ltb m x.id then x.id else m in
    let rest = max_id_bounds n es next zero e in
    (ground (arith, rest.0), λ lt at valid. ground (arith, rest.0))
max_id_bounds (suc n) (x ∷ es) m (suc i) e =
    let next = if x.valid && ltb m x.id then x.id else m in
    let rest = max_id_bounds n es next i e in
    (ground (arith, rest.0), λ lt at valid. rest.1 (omega arith) at valid)

-- The id that `password_store_next_id` returns is greater than that of every stored entry, or is 0.
pub next_id_fresh :
    (v : Vault) (i : ℕ) (e : Credential)
    → password_store_get_by_index v i ≡ some e
    → (e.id < password_store_next_id v) ⊎ (password_store_next_id v ≡ 0)
unfolding password_store_next_id IsStored
next_id_fresh v i e at =
    let (lt, here, valid) = (get_by_index_iff v i e).0 at in
    ground (arith, (max_id_bounds v.count v.credentials 0 i e).1 lt here valid)
