-- ===== src/StateMachine/Guesses.antt =====
-- firmware/src/state_machine.c: with `wipe_on_lockout` a thief who finds the device locked has ten
-- guesses.
use safe_key_vault.Prelude.{
  ℕ, ◌+◌, ◌-◌, ◌<◌, ◌≤◌, true, false, Option, none, some, List, [], ◌∷◌, Text, ◌≡◌, refl, arith,
  if◌then◌else◌,
}
use safe_key_vault.FirmwareTypes.{CredentialRecord, RuntimeSettings}
use safe_key_vault.PasswordPolicy.{PolicyGlobals}
use safe_key_vault.StateMachine.{
  Machine, state_machine_tick, state_machine_on_touch_tap, state_machine_on_touch_hold,
  state_machine_apply_settings, state_machine_set_pin_verifier, state_machine_lock,
}
use safe_key_vault.StateMachine.Pin.{
  hashes_pins, admits_attempt, state_machine_try_unlock, state_machine_set_pin,
  max_pin_failures_before_wipe,
}
use safe_key_vault.StateMachine.Requests.{state_machine_request_fill, state_machine_request_save}
use safe_key_vault.StateMachine.Events.{
  Event, tick, touch_tap, touch_hold, lock, try_unlock, set_pin, request_fill, request_save,
  apply_settings, set_pin_verifier, step,
}

-- 1 for a call that compares a PIN with the verifier: the one it unlocks with, or the old one that
-- it changes.
abbrev pub compares : Machine → Event → ℕ
compares m (try_unlock (some pin)) = if admits_attempt m then 1 else 0
compares m (set_pin (some old_pin) (some new_pin)) = if hashes_pins m old_pin new_pin then 1 else 0
compares m _ = 0

-- Settings that an event applies keep the wipe switched on.
abbrev pub KeepsWipe : Event → Type 0
KeepsWipe (apply_settings (some s)) = s.wipe_on_lockout ≡ true
KeepsWipe _ = Unit

-- How many comparisons a device has left before it is wiped.
abbrev budget : Machine → ℕ
budget m = if m.ctx.wiped then 0 else max_pin_failures_before_wipe - m.ctx.failed_pin_attempts

-- The device is not unlocked, and the wipe is switched on, and has happened if there were ten
-- failures.
record IsGuarded (m : Machine) : Type 0 where
  shut : m.ctx.unlocked ≡ false
  armed : m.settings.wipe_on_lockout ≡ true
  due : m.ctx.wiped ≡ false → m.ctx.failed_pin_attempts < max_pin_failures_before_wipe

-- What a call other than an unlock leaves alone.
record Keeps (m n : Machine) : Type 0 where
  shut : m.ctx.unlocked ≡ false → n.ctx.unlocked ≡ false
  wiped : n.ctx.wiped ≡ m.ctx.wiped
  failed : n.ctx.failed_pin_attempts ≡ m.ctx.failed_pin_attempts
  armed : m.settings.wipe_on_lockout ≡ true → n.settings.wipe_on_lockout ≡ true

module _ (hash16 : Text → List ℕ) (g : PolicyGlobals) where
  -- The comparisons that a run makes.
  unfoldable pub guesses : Machine → List Event → ℕ
  guesses m [] = 0
  guesses m (e ∷ es) = compares m e + guesses (step hash16 g m e).0 es

  -- No PIN that the run compares is accepted, and no settings of it switch the wipe off.
  abbrev pub NeverUnlocks : Machine → List Event → Type 0
  NeverUnlocks m [] = Unit
  NeverUnlocks m (e ∷ es) =
      KeepsWipe e
      × (compares m e ≡ 1 → (step hash16 g m e).1 ≡ false)
      × NeverUnlocks (step hash16 g m e).0 es

  timed-Keeps :
      (m : Machine)
      → Keeps m (state_machine_tick m)
        × Keeps m (state_machine_on_touch_tap m)
        × Keeps m (state_machine_on_touch_hold m)
        × Keeps m (state_machine_lock m)
  unfolding state_machine_tick state_machine_on_touch_tap state_machine_on_touch_hold
      state_machine_lock
  timed-Keeps m = (ground arith, ground arith, ground arith, ground arith)

  set_pin-Keeps :
      (m : Machine) (old_pin new_pin : Option Text)
      → Keeps m (state_machine_set_pin hash16 m old_pin new_pin).0
  unfolding state_machine_set_pin
  set_pin-Keeps m (some old_pin) (some new_pin) = ground arith
  set_pin-Keeps m _ _ = ground arith

  -- A device that is not unlocked compares no old PIN.
  set_pin-shut :
      (m : Machine) (old_pin new_pin : Option Text)
      → IsGuarded m
      → compares m (set_pin old_pin new_pin) ≡ 0
  set_pin-shut m (some old_pin) (some new_pin) h = rw (h.shut) refl
  set_pin-shut m none new_pin h = refl
  set_pin-shut m (some old_pin) none h = refl

  request_fill-Keeps :
      (m : Machine) (rec : Option CredentialRecord) (origin : Option Text)
      → Keeps m (state_machine_request_fill m rec origin).0
  unfolding state_machine_request_fill
  request_fill-Keeps m (some rec) (some origin) = ground arith
  request_fill-Keeps m _ _ = ground arith

  request_save-Keeps :
      (m : Machine) (rec : Option CredentialRecord) → Keeps m (state_machine_request_save g m rec).0
  unfolding state_machine_request_save
  request_save-Keeps m none = ground arith
  request_save-Keeps m (some rec) = ground arith

  settings-Keeps :
      (m : Machine) (s : Option RuntimeSettings)
      → KeepsWipe (apply_settings s)
      → Keeps m (state_machine_apply_settings m s)
  unfolding state_machine_apply_settings
  settings-Keeps m none k = ground arith
  settings-Keeps m (some s) k = ground arith

  verifier-Keeps :
      (m : Machine) (v : Option (List ℕ)) → Keeps m (state_machine_set_pin_verifier m v)
  unfolding state_machine_set_pin_verifier
  verifier-Keeps m none = ground arith
  verifier-Keeps m (some v) = ground arith

  -- One call spends what it compares.
  record Spends (m : Machine) (e : Event) (n : Machine) : Type 0 where
    guarded : IsGuarded n
    spent : compares m e + budget n ≤ budget m

  Keeps-Spends :
      (m : Machine) (e : Event) (n : Machine)
      → compares m e ≡ 0
      → IsGuarded m
      → Keeps m n
      → Spends m e n
  Keeps-Spends m e n c h k = ground arith

  attempt-Spends :
      (m : Machine) (pin : Text)
      → IsGuarded m
      → (compares m (try_unlock (some pin)) ≡ 1
          → (state_machine_try_unlock hash16 m (some pin)).1 ≡ false)
      → Spends m (try_unlock (some pin)) (state_machine_try_unlock hash16 m (some pin)).0
  unfolding state_machine_try_unlock
  attempt-Spends m pin h f = ground arith

  step-Spends :
      (m : Machine) (e : Event)
      → IsGuarded m
      → KeepsWipe e
      → (compares m e ≡ 1 → (step hash16 g m e).1 ≡ false)
      → Spends m e (step hash16 g m e).0
  unfolding step
  step-Spends m tick h k f = Keeps-Spends m _ _ refl h (timed-Keeps m).0
  step-Spends m touch_tap h k f = Keeps-Spends m _ _ refl h (timed-Keeps m).1
  step-Spends m touch_hold h k f = Keeps-Spends m _ _ refl h (timed-Keeps m).2
  step-Spends m lock h k f = Keeps-Spends m _ _ refl h (timed-Keeps m).3
  step-Spends m (try_unlock none) h k f = unfold state_machine_try_unlock in ground arith
  step-Spends m (try_unlock (some pin)) h k f = attempt-Spends m pin h f
  step-Spends m (set_pin old_pin new_pin) h k f =
      Keeps-Spends m _ _ (set_pin-shut m old_pin new_pin h) h (set_pin-Keeps m old_pin new_pin)
  step-Spends m (request_fill rec origin) h k f =
      Keeps-Spends m _ _ refl h (request_fill-Keeps m rec origin)
  step-Spends m (request_save rec) h k f = Keeps-Spends m _ _ refl h (request_save-Keeps m rec)
  step-Spends m (apply_settings s) h k f = Keeps-Spends m _ _ refl h (settings-Keeps m s k)
  step-Spends m (set_pin_verifier v) h k f = Keeps-Spends m _ _ refl h (verifier-Keeps m v)

  guesses-le-budget :
      (m : Machine) (es : List Event) → IsGuarded m → NeverUnlocks m es → guesses m es ≤ budget m
  unfolding guesses
  guesses-le-budget m [] h n = omega arith
  guesses-le-budget m (e ∷ es) h (keeps, fails, rest) =
      let s = step-Spends m e h keeps fails in
      omega (arith, s.spent, guesses-le-budget (step hash16 g m e).0 es s.guarded rest)

  -- On a device that is not unlocked, with `wipe_on_lockout` on and fewer than ten failures so far,
  -- a run of any calls in which no PIN is accepted and no settings switch the wipe off compares at
  -- most as many PINs with the verifier, by `state_machine_try_unlock` and `state_machine_set_pin`
  -- together, as are left to make ten failures, however the guesses are spread over lockouts, ticks
  -- and other calls.
  pub guesses-le :
      (m : Machine) (es : List Event)
      → m.ctx.unlocked ≡ false
      → m.settings.wipe_on_lockout ≡ true
      → m.ctx.failed_pin_attempts < max_pin_failures_before_wipe
      → NeverUnlocks m es
      → guesses m es ≤ max_pin_failures_before_wipe - m.ctx.failed_pin_attempts
  guesses-le m es shut armed few n =
      ground
        (arith, guesses-le-budget m es (record { shut = shut; armed = armed; due = λ _. few }) n)
