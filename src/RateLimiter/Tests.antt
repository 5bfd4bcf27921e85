-- ===== src/RateLimiter/Tests.antt =====
-- firmware/src/rate_limiter.c at concrete calls.
use safe_key_vault.Prelude.{
  ℕ, zero, suc, All, ◌-◌, ◌≤◌, true, some, List, [], ◌∷◌, Text, codes, replicate, strncmp_eq, ◌≡◌,
  refl, arith,
}
use safe_key_vault.RateLimiter.{Entry, RateLimiter, unused, rate_limiter_allow}
use safe_key_vault.RateLimiter.Slots.{entry_of}
use safe_key_vault.RateLimiter.Window.{HasWindow, allowed, allowed-le}
use safe_key_vault.RateLimiter.Full.{IsUsed}

abbrev a_io : Text
a_io = codes "https://a.io"

abbrev b_io : Text
b_io = codes "https://b.io"

abbrev taken : Entry
taken = record { used = true; origin = a_io; window_start_tick = 100; attempt_count = 1 }

abbrev one_slot : RateLimiter
one_slot = taken ∷ replicate 15 unused

abbrev calls : List (Text × ℕ)
calls = (a_io, 100) ∷ (b_io, 120) ∷ (a_io, 130) ∷ (a_io, 159) ∷ []

one_slot-window : HasWindow one_slot a_io 100 1
unfolding entry_of strncmp_eq
one_slot-window = (taken, refl, refl, refl)

allowed-le_example : allowed 60 2 a_io one_slot calls ≤ 2 - 1
allowed-le_example =
    allowed-le 60 2 one_slot a_io calls 100 1 (omega arith) one_slot-window (omega arith)
      (omega arith) (omega arith) (omega arith)

first_is_allowed : (rate_limiter_allow one_slot (some b_io) 7 60 2).1 ≡ true
unfolding rate_limiter_allow strncmp_eq
first_is_allowed = refl

taken-IsUsed : (n : ℕ) → All IsUsed (replicate n taken)
taken-IsUsed zero = tt
taken-IsUsed (suc n) = (refl, taken-IsUsed n)
