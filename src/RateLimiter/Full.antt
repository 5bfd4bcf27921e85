-- ===== src/RateLimiter/Full.antt =====
-- firmware/src/rate_limiter.c: a slot is never given up, so a full table shuts out new origins.
use safe_key_vault.Prelude.{
  ℕ, zero, suc, ◌+◌, true, false, none, some, List, [], ◌∷◌, Text, get_or, set, ◌≡◌, inl, inr, refl,
  ◌∙◌, arith, Bool-cases, Option-cases, All, ◌==◌, ◌||◌,
}
use safe_key_vault.RateLimiter.{
  Entry, RateLimiter, unused, find_slot, find_slot_from, rate_limiter_allow,
}
use safe_key_vault.RateLimiter.Slots.{
  answers, entry_of, entry_of-set, find_slot-own, use_slot-origin,
}
use safe_key_vault.RateLimiter.Window.{allow-slot, allow-full, allow-off, allow}

abbrev pub IsUsed : Entry → Type 0
IsUsed e = e.used ≡ true

-- Every slot is taken, and none of them by the origin.
abbrev pub ShutsOut : RateLimiter → Text → Type 0
ShutsOut l origin = All IsUsed l × (entry_of l origin ≡ none)

find_slot_from-none :
    (k : ℕ) (l : RateLimiter) (origin : Text)
    → ShutsOut l origin
    → find_slot_from k l origin none ≡ none
unfolding find_slot_from entry_of
find_slot_from-none k [] origin h = refl
find_slot_from-none k (e ∷ l) origin ((used, rest), absent) =
    ground (arith, find_slot_from-none (k + 1) l origin (rest, ground arith))

All-set : (l : RateLimiter) (i : ℕ) (e : Entry) → All IsUsed l → IsUsed e → All IsUsed (set l i e)
All-set [] i e h u = tt
All-set (x ∷ l) zero e h u = (u, h.1)
All-set (x ∷ l) (suc i) e h u = (h.0, All-set l i e h.1 u)

not-answers :
    (l : RateLimiter) (i : ℕ) (origin : Text)
    → entry_of l origin ≡ none
    → answers (get_or l i unused) origin ≡ false
unfolding entry_of
not-answers [] i origin h = refl
not-answers (e ∷ l) zero origin h = ground arith
not-answers (e ∷ l) (suc i) origin h = not-answers l i origin (ground arith)

module _ (window max_attempts : ℕ) where
  shut_call :
      (l : RateLimiter) (origin : Text) (now : ℕ)
      → ShutsOut l origin
      → allow window max_attempts l (origin, now) ≡ (l, false, 0)
  unfolding find_slot
  shut_call l origin now h =
      allow-full window max_attempts l origin now (find_slot_from-none 0 l origin h)

  -- The calls of a run, one after the other.
  pub run : RateLimiter → List (Text × ℕ) → RateLimiter
  run l [] = l
  run l (c ∷ cs) = run (allow window max_attempts l c).0 cs

  step-ShutsOut :
      (l : RateLimiter) (c : Text × ℕ) (origin : Text)
      → ShutsOut l origin
      → ShutsOut (allow window max_attempts l c).0 origin
  step-ShutsOut l (o, now) origin h = elim (Bool-cases (window == 0 || max_attempts == 0)) [
    | inl off ↦ rw (allow-off window max_attempts l o now off) h
    | inr live ↦ elim (Option-cases (entry_of l o)) [
      | inl absent ↦ rw (shut_call l o now (h.0, absent)) h
      | inr (e, at) ↦
          let (i, slot, here, mine, _) = find_slot-own l o e at in
          let call = allow-slot window max_attempts l o now i (ground arith) (ground arith) slot in
          let (used, kept) = use_slot-origin (get_or l i unused) o now window max_attempts in
          let absent = not-answers l i origin h.1 in
          rw call (
            All-set l i _ h.0 used,
            entry_of-set l i _ origin absent (ground (arith, absent, kept, used, here, mine)) ∙ h.1,
          )
    ]
  ]

  run-ShutsOut :
      (l : RateLimiter) (cs : List (Text × ℕ)) (origin : Text)
      → ShutsOut l origin
      → ShutsOut (run l cs) origin
  unfolding run
  run-ShutsOut l [] origin h = h
  run-ShutsOut l (c ∷ cs) origin h =
      run-ShutsOut (allow window max_attempts l c).0 cs origin (step-ShutsOut l c origin h)

  -- Once every slot is taken and none by an origin, each later call for that origin is refused,
  -- at any tick and after any further calls.
  pub full-ShutsOut :
      (l : RateLimiter) (cs : List (Text × ℕ)) (origin : Text) (now : ℕ)
      → ShutsOut l origin
      → (rate_limiter_allow (run l cs) (some origin) now window max_attempts).1 ≡ false
  full-ShutsOut l cs origin now h =
      ground (arith, shut_call (run l cs) origin now (run-ShutsOut l cs origin h))
