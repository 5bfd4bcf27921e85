-- ===== src/RateLimiter.antt =====
-- firmware/src/rate_limiter.c. Ticks and counts are `uint32_t`. The limiter pointer is never NULL
-- here; a NULL origin is `none`, and `retry_after_ticks` is always given.
pub mod Slots
pub mod Window
pub mod Full
mod Tests
use safe_key_vault.Prelude.{
  ℕ, zero, suc, ◌+◌, ◌-◌, ◌%◌, ◌^◌, Bool, true, false, ◌||◌, not, Option, none, some, List, [], ◌∷◌,
  Text, get_or, set, replicate, strncmp_eq, strncpy, ltb, leb, ◌==◌, if◌then◌else◌,
}

-- `rate_limit_entry_t`; `origin` is a char[96].
pub record Entry : Type 0 where
  pub used : Bool
  pub origin : Text
  pub window_start_tick : ℕ
  pub attempt_count : ℕ

abbrev pub rate_limit_max_origins : ℕ
rate_limit_max_origins = 16

-- `rate_limiter_t`: its array of 16 entries.
abbrev pub RateLimiter : Type 0
RateLimiter = List Entry

abbrev pub unused : Entry
unused = record { used = false; origin = []; window_start_tick = 0; attempt_count = 0 }

unfoldable pub rate_limiter_init : RateLimiter
rate_limiter_init = replicate rate_limit_max_origins unused

-- uint32_t a - b.
abbrev pub sub32 : ℕ → ℕ → ℕ
sub32 a b = (a + 2 ^ 32 - b) % 2 ^ 32

abbrev pub first_free : Option ℕ → ℕ → Option ℕ
first_free none i = some i
first_free (some j) i = some j

-- The index that `find_slot` points at. `i` is the index of the first entry that is left, and
-- `free_slot` the first unused one so far.
unfoldable pub find_slot_from : ℕ → RateLimiter → Text → Option ℕ → Option ℕ
find_slot_from i [] origin free_slot = free_slot
find_slot_from i (e ∷ es) origin free_slot =
    let rest =
      find_slot_from (i + 1) es origin (if e.used then free_slot else first_free free_slot i) in
    if not e.used then rest else if strncmp_eq 96 e.origin origin then some i else rest

unfoldable pub find_slot : RateLimiter → Text → Option ℕ
unfolding find_slot_from
find_slot limiter origin = find_slot_from 0 limiter origin none

-- An unused slot is claimed for the origin.
unfoldable pub claim : Entry → Text → ℕ → Entry
claim e origin now = if e.used then e else record {
  used = true;
  origin = strncpy 95 origin;
  window_start_tick = now;
  attempt_count = 0;
}

-- A window that has passed starts again.
unfoldable pub renew : Entry → ℕ → ℕ → Entry
renew e now window =
    if leb window (sub32 now e.window_start_tick)
    then record e { window_start_tick = now; attempt_count = 0 }
    else e

-- The decision for a slot that is claimed and renewed: the entry, the answer and
-- `*retry_after_ticks`.
unfoldable pub decide_slot : Entry → ℕ → ℕ → ℕ → Entry × Bool × ℕ
decide_slot e now window max_attempts =
    let elapsed = sub32 now e.window_start_tick in
    if leb max_attempts e.attempt_count
    then (e, false, if leb window elapsed then 0 else window - elapsed)
    else (record e { attempt_count = (e.attempt_count + 1) % 2 ^ 32 }, true, 0)

unfoldable pub use_slot : Entry → Text → ℕ → ℕ → ℕ → Entry × Bool × ℕ
unfolding claim renew decide_slot
use_slot e origin now window max_attempts =
    decide_slot (renew (claim e origin now) now window) now window max_attempts

unfoldable pub rate_limiter_allow : RateLimiter → Option Text → ℕ → ℕ → ℕ → RateLimiter × Bool × ℕ
unfolding find_slot use_slot
rate_limiter_allow limiter none now window max_attempts = (limiter, false, 0)
rate_limiter_allow limiter (some origin) now window max_attempts =
    if window == 0 || max_attempts == 0
    then (limiter, false, 0)
    else elim (find_slot limiter origin) [
      | none ↦ (limiter, false, 0)
      | some i ↦
          let (e, answer, retry) =
            use_slot (get_or limiter i unused) origin now window max_attempts in
          (set limiter i e, answer, retry)
    ]

unfoldable pub rate_limiter_tick : RateLimiter → RateLimiter
rate_limiter_tick [] = []
rate_limiter_tick (e ∷ es) =
    let later =
      if not e.used
      then e
      else if ltb 0 e.window_start_tick
      then record e { window_start_tick = e.window_start_tick - 1 }
      else e in
    later ∷ rate_limiter_tick es

max_attempt_from : ℕ → RateLimiter → ℕ
max_attempt_from max_remaining [] = max_remaining
max_attempt_from max_remaining (e ∷ es) =
    max_attempt_from
      (if not e.used
        then max_remaining
        else if ltb max_remaining e.attempt_count
        then e.attempt_count
        else max_remaining)
      es

unfoldable pub rate_limiter_ticks_remaining : RateLimiter → ℕ
unfolding max_attempt_from
rate_limiter_ticks_remaining limiter = max_attempt_from 0 limiter
