-- ===== src/RateLimiter/Slots.antt =====
-- firmware/src/rate_limiter.c: which slot an origin has, and what a call does to the slots.
use safe_key_vault.Prelude.{
  ℕ, zero, suc, ◌+◌, ◌≤◌, Bool, true, false, ◌&&◌, Option, none, some, [], ◌∷◌, Text, length, take,
  take_all, get_or, set, strncmp_eq, strncmp_eq→take, strncmp_eq_refl, strncpy, ◌≡◌, ◌≢◌, ◌⊎◌, inl,
  inr, refl, sym, ◌∙◌, arith, Bool-cases, if◌then◌else◌,
}
use safe_key_vault.RateLimiter.{
  Entry, RateLimiter, unused, find_slot_from, find_slot, first_free, use_slot,
}

-- The origin fits the char[96] of an entry and of a command.
abbrev pub FitsEntry : Text → Type 0
FitsEntry origin = length origin ≤ 95

-- The slot is taken by the origin.
abbrev pub answers : Entry → Text → Bool
answers e origin = e.used && strncmp_eq 96 e.origin origin

-- The first entry that is taken by an origin.
unfoldable pub entry_of : RateLimiter → Text → Option Entry
entry_of [] origin = none
entry_of (e ∷ es) origin = if answers e origin then some e else entry_of es origin

first_free-cases :
    (free : Option ℕ) (k j : ℕ) → first_free free k ≡ some j → (free ≡ some j) ⊎ (j ≡ k)
first_free-cases none k j h = inr (ground arith)
first_free-cases (some i) k j h = inl h

-- What `find_slot` points at is taken by the origin or unused.
find_slot_from-kind :
    (k : ℕ) (es : RateLimiter) (origin : Text) (free : Option ℕ) (j : ℕ)
    → find_slot_from k es origin free ≡ some j
    → (free ≡ some j)
      ⊎ ((i : ℕ) × (j ≡ k + i)
          × ((answers (get_or es i unused) origin ≡ true) ⊎ ((get_or es i unused).used ≡ false)))
unfolding find_slot_from
find_slot_from-kind k [] origin free j h = inl h
find_slot_from-kind k (e ∷ es) origin free j h = elim (Bool-cases e.used) [
  | inl used ↦ elim (Bool-cases (strncmp_eq 96 e.origin origin)) [
    | inl same ↦ inr (zero, ground arith, inl (ground arith))
    | inr other ↦ elim (find_slot_from-kind (k + 1) es origin free j (ground arith)) [
      | inl early ↦ inl early
      | inr (i, at, kind) ↦ inr (suc i, omega arith, kind)
    ]
  ]
  | inr idle ↦ elim (find_slot_from-kind (k + 1) es origin (first_free free k) j (ground arith)) [
    | inl early ↦ elim (first_free-cases free k j early) [
      | inl sooner ↦ inl sooner
      | inr here ↦ inr (zero, omega arith, inr idle)
    ]
    | inr (i, at, kind) ↦ inr (suc i, omega arith, kind)
  ]
]

pub find_slot-kind :
    (l : RateLimiter) (origin : Text) (j : ℕ)
    → find_slot l origin ≡ some j
    → (answers (get_or l j unused) origin ≡ true) ⊎ ((get_or l j unused).used ≡ false)
unfolding find_slot
find_slot-kind l origin j h = elim (find_slot_from-kind 0 l origin none j h) [
  | inl early ↦ absurd (ground arith)
  | inr (i, at, kind) ↦ let same : j ≡ i = omega arith in rw same kind
]

-- An origin that has an entry is pointed to it, and owns whatever is put there for it.
find_slot_from-own :
    (k : ℕ) (es : RateLimiter) (origin : Text) (free : Option ℕ) (e : Entry)
    → entry_of es origin ≡ some e
    → (i : ℕ) × (find_slot_from k es origin free ≡ some (k + i))
      × (get_or es i unused ≡ e)
      × (answers e origin ≡ true)
      × ((e' : Entry) → answers e' origin ≡ true → entry_of (set es i e') origin ≡ some e')
unfolding find_slot_from entry_of
find_slot_from-own k [] origin free e h = cc h
find_slot_from-own k (x ∷ es) origin free e h = elim (Bool-cases (answers x origin)) [
  | inl mine ↦ (zero, ground arith, ground arith, ground arith, λ e' mine'. rw mine')
  | inr other ↦
      let (i, at, here, same, owns) =
        find_slot_from-own (k + 1) es origin (if x.used then free else first_free free k) e
          (ground arith) in
      (suc i, ground (arith, at), here, same, λ e' mine'. rw other (owns e' mine'))
]

pub find_slot-own :
    (l : RateLimiter) (origin : Text) (e : Entry)
    → entry_of l origin ≡ some e
    → (i : ℕ) × (find_slot l origin ≡ some i)
      × (get_or l i unused ≡ e)
      × (answers e origin ≡ true)
      × ((e' : Entry) → answers e' origin ≡ true → entry_of (set l i e') origin ≡ some e')
unfolding find_slot
find_slot-own l origin e h =
    let (i, at, here, same, owns) = find_slot_from-own 0 l origin none e h in
    (i, ground (arith, at), here, same, owns)

-- A write over a slot that is not the origin's, of an entry that is not, leaves the origin's entry.
pub entry_of-set :
    (l : RateLimiter) (i : ℕ) (e : Entry) (origin : Text)
    → answers (get_or l i unused) origin ≡ false
    → answers e origin ≡ false
    → entry_of (set l i e) origin ≡ entry_of l origin
unfolding entry_of
entry_of-set [] i e origin here new = refl
entry_of-set (x ∷ l) zero e origin here new = ground arith
entry_of-set (x ∷ l) (suc i) e origin here new = ground (arith, entry_of-set l i e origin here new)

pub use_slot-origin :
    (e : Entry) (origin : Text) (now window max_attempts : ℕ)
    → let (e', _, _) = use_slot e origin now window max_attempts in
      (e'.used ≡ true) × (e'.origin ≡ (if e.used then e.origin else strncpy 95 origin))
unfolding use_slot
use_slot-origin e origin now window max_attempts = ground arith

differs :
    (x origin other : Text)
    → strncmp_eq 96 x origin ≡ true
    → FitsEntry origin
    → FitsEntry other
    → origin ≢ other
    → strncmp_eq 96 x other ≡ false
differs x origin other h fo ft ne = elim (Bool-cases (strncmp_eq 96 x other)) [
  | inl both ↦
      let same : take 96 origin ≡ take 96 other =
        sym (strncmp_eq→take 96 x origin h) ∙ strncmp_eq→take 96 x other both in
      let whole : take 96 origin ≡ origin = take_all 96 origin (omega arith) in
      let whole' : take 96 other ≡ other = take_all 96 other (omega arith) in
      absurd (ne (sym whole ∙ same ∙ whole'))
  | inr e ↦ e
]

-- The entry that a call leaves answers to no other origin than the one that it was made for.
pub use_slot-other :
    (e : Entry) (origin other : Text) (now window max_attempts : ℕ)
    → FitsEntry origin
    → FitsEntry other
    → origin ≢ other
    → (answers e origin ≡ true) ⊎ (e.used ≡ false)
    → (answers e other ≡ false)
      × (answers (use_slot e origin now window max_attempts).0 other ≡ false)
use_slot-other e origin other now window max_attempts fo ft ne kind =
    let (used, kept) = use_slot-origin e origin now window max_attempts in
    elim kind [
      | inl mine ↦
          let apart = differs e.origin origin other (ground arith) fo ft ne in
          (ground (arith, apart), ground (arith, apart, kept))
      | inr idle ↦
          let whole : strncpy 95 origin ≡ origin = take_all 95 origin fo in
          let apart = differs origin origin other (strncmp_eq_refl 96 origin) fo ft ne in
          (ground arith, ground (arith, apart, kept, whole))
    ]
