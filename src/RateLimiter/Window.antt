-- ===== src/RateLimiter/Window.antt =====
-- firmware/src/rate_limiter.c: the limit within one window, and a full table.
use safe_key_vault.Prelude.{
  ℕ, ◌+◌, ◌-◌, ◌^◌, ◌<◌, ◌≤◌, Bool, true, false, ◌&&◌, ◌||◌, ◌==◌, none, some, List, [], ◌∷◌, Text,
  get_or, set, ◌≡◌, ◌≢◌, inl, inr, ◌∙◌, arith, Bool-cases, Option-cases, if◌then◌else◌, All,
  strcmp_eq, strcmp_eq_iff,
}
use safe_key_vault.RateLimiter.{
  Entry, RateLimiter, unused, find_slot, sub32, use_slot, rate_limiter_allow,
}
use safe_key_vault.RateLimiter.Slots.{
  FitsEntry, answers, entry_of, find_slot-kind, find_slot-own, entry_of-set, use_slot-origin,
  use_slot-other,
}

-- The origin's window began at tick `start` and has counted `count` attempts.
abbrev pub HasWindow : RateLimiter → Text → ℕ → ℕ → Type 0
HasWindow l origin start count =
    (e : Entry) × (entry_of l origin ≡ some e)
    × (e.window_start_tick ≡ start)
    × (e.attempt_count ≡ count)

module _ (window max_attempts : ℕ) where
  -- A call: the origin and the tick.
  abbrev pub allow : RateLimiter → Text × ℕ → RateLimiter × Bool × ℕ
  allow l (origin, now) = rate_limiter_allow l (some origin) now window max_attempts

  -- How many of the calls for an origin are allowed.
  unfoldable pub allowed : Text → RateLimiter → List (Text × ℕ) → ℕ
  allowed origin l [] = 0
  allowed origin l (c ∷ cs) =
      let (l', answer, _) = allow l c in
      (if answer && strcmp_eq c.0 origin then 1 else 0) + allowed origin l' cs

  -- A call that is made inside the window that began at `start`.
  abbrev pub IsInside : ℕ → Text × ℕ → Type 0
  IsInside start c = FitsEntry c.0 × (sub32 c.1 start < window)

  own_slot :
      (e : Entry) (origin : Text) (now : ℕ)
      → e.used ≡ true
      → sub32 now e.window_start_tick < window
      → e.attempt_count ≤ max_attempts
      → max_attempts < 2 ^ 32
      → let (e', answer, _) = use_slot e origin now window max_attempts in
        (e'.window_start_tick ≡ e.window_start_tick)
        × (e'.attempt_count ≤ max_attempts)
        × (e'.attempt_count ≡ e.attempt_count + (if answer then 1 else 0))
  unfolding use_slot
  own_slot e origin now used inside le small = ground arith

  -- A call that is not refused at once uses the slot that `find_slot` points at.
  pub allow-slot :
      (l : RateLimiter) (origin : Text) (now i : ℕ)
      → 0 < window
      → 0 < max_attempts
      → find_slot l origin ≡ some i
      → let (e, answer, retry) = use_slot (get_or l i unused) origin now window max_attempts in
        allow l (origin, now) ≡ (set l i e, answer, retry)
  unfolding rate_limiter_allow
  allow-slot l origin now i pw pm h = ground arith

  pub allow-off :
      (l : RateLimiter) (origin : Text) (now : ℕ)
      → (window == 0 || max_attempts == 0) ≡ true
      → allow l (origin, now) ≡ (l, false, 0)
  unfolding rate_limiter_allow
  allow-off l origin now h = ground arith

  pub allow-full :
      (l : RateLimiter) (origin : Text) (now : ℕ)
      → find_slot l origin ≡ none
      → allow l (origin, now) ≡ (l, false, 0)
  unfolding rate_limiter_allow
  allow-full l origin now h = ground arith

  allow-own :
      (l : RateLimiter) (origin : Text) (now start count : ℕ)
      → HasWindow l origin start count
      → count ≤ max_attempts
      → 0 < max_attempts
      → max_attempts < 2 ^ 32
      → sub32 now start < window
      → let (l', answer, _) = allow l (origin, now) in
        let next = count + (if answer then 1 else 0) in
        HasWindow l' origin start next × (next ≤ max_attempts)
  allow-own l origin now start count (e, at, begun, counted) le pm small inside =
      let (i, slot, here, mine, owns) = find_slot-own l origin e at in
      let call = allow-slot l origin now i (omega arith) pm slot in
      let used : e.used ≡ true = ground arith in
      let (same, bound, next) = own_slot e origin now used (rw begun inside) (omega arith) small in
      let (e_used, e_origin) = use_slot-origin e origin now window max_attempts in
      let e' = (use_slot e origin now window max_attempts).0 in
      let mine' : answers e' origin ≡ true = ground (arith, e_used, e_origin) in
      rw (call, here)
        ((e', owns e' mine', same ∙ begun, ground (arith, next)), ground (arith, next, bound))

  allow-other :
      (l : RateLimiter) (origin other : Text) (now start count : ℕ)
      → HasWindow l other start count
      → origin ≢ other
      → FitsEntry origin
      → FitsEntry other
      → 0 < max_attempts
      → 0 < window
      → HasWindow (allow l (origin, now)).0 other start count
  allow-other l origin other now start count (e, at, begun, counted) ne fo ft pm pw =
      elim (Option-cases (find_slot l origin)) [
        | inl full ↦ rw (allow-full l origin now full) (e, at, begun, counted)
        | inr (i, slot) ↦
            let call = allow-slot l origin now i pw pm slot in
            let apart =
              use_slot-other (get_or l i unused) origin other now window max_attempts fo ft ne
                (find_slot-kind l origin i slot) in
            rw call (e, entry_of-set l i _ other apart.0 apart.1 ∙ at, begun, counted)
      ]

  -- For an origin whose window began at `start` and has counted `count` attempts: of any calls
  -- made inside that window, for this and other origins of at most 95 bytes, no more are allowed
  -- for the origin than its limit has left.
  pub allowed-le :
      (l : RateLimiter) (origin : Text) (cs : List (Text × ℕ)) (start count : ℕ)
      → FitsEntry origin
      → HasWindow l origin start count
      → count ≤ max_attempts
      → 0 < max_attempts
      → max_attempts < 2 ^ 32
      → All (IsInside start) cs
      → allowed origin l cs ≤ max_attempts - count
  unfolding allowed
  allowed-le l origin [] start count fo h le pm small inside = omega arith
  allowed-le l origin ((o, now) ∷ cs) start count fo h le pm small ((fc, inside), rest) =
      elim (Bool-cases (strcmp_eq o origin)) [
        | inl mine ↦
            let same : o ≡ origin = (strcmp_eq_iff o origin).0 mine in
            let answer = (allow l (o, now)).1 in
            let (kept, bound) = allow-own l o now start count (rw same h) le pm small inside in
            let next = count + (if answer then 1 else 0) in
            let later =
              allowed-le (allow l (o, now)).0 origin cs start next fo (rw (← same) kept) bound pm
                small rest in
            ground (arith, later, bound)
        | inr other ↦
            let ne : o ≢ origin = λ e. ground (arith, (strcmp_eq_iff o origin).1 e) in
            let kept = allow-other l o origin now start count h ne fc fo pm (omega arith) in
            let later =
              allowed-le (allow l (o, now)).0 origin cs start count fo kept le pm small rest in
            ground (arith, later)
      ]
