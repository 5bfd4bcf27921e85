-- ===== src/StateMachine/Typing.antt =====
-- firmware/src/state_machine.c: where touch is required, nothing is typed without one.
use safe_key_vault.Prelude.{
  ℕ, true, Option, none, some, List, [], ◌∷◌, ◌++◌, Text, ◌≡◌, ◌⊎◌, inl, inr, refl, arith, ap, All,
}
use safe_key_vault.FirmwareTypes.{
  DeviceState-discrete, CredentialRecord, RuntimeSettings, prompt_fill, confirm_type,
}
use safe_key_vault.PasswordPolicy.{PolicyGlobals}
use safe_key_vault.StateMachine.{
  Machine, state_machine_tick, state_machine_on_touch_tap, state_machine_on_touch_hold,
  state_machine_lock, state_machine_apply_settings,
}
use safe_key_vault.StateMachine.Pin.{state_machine_try_unlock}
use safe_key_vault.StateMachine.Requests.{state_machine_request_fill, state_machine_request_save}
use safe_key_vault.StateMachine.Invariant.{set_pin-ctx, apply_settings-ctx, set_pin_verifier-ctx}
use safe_key_vault.StateMachine.Settings.{step-settings}
use safe_key_vault.StateMachine.Events.{
  Event, tick, touch_tap, touch_hold, lock, try_unlock, set_pin, request_fill, request_save,
  apply_settings, set_pin_verifier, step, run,
}

abbrev pub IsPress : Event → Type 0
IsPress e = (e ≡ touch_tap) ⊎ (e ≡ touch_hold)

-- The device is typing, or will be after the touch that confirms.
abbrev pub IsTyping : Machine → Type 0
IsTyping m = m.ctx.state ≡ confirm_type

-- An unlocked device asks whether to fill.
abbrev pub IsPrompting : Machine → Type 0
IsPrompting m = (m.ctx.state ≡ prompt_fill) × (m.ctx.unlocked ≡ true)

abbrev pub WantsTouch : RuntimeSettings → Type 0
WantsTouch s = s.require_touch_for_fill ≡ true

-- Settings that an event applies keep the touch requirement.
abbrev pub KeepsTouch : Event → Type 0
KeepsTouch (apply_settings (some s)) = WantsTouch s
KeepsTouch _ = Unit

tap-IsTyping : (m : Machine) → IsTyping (state_machine_on_touch_tap m) → IsTyping m ⊎ IsPrompting m
unfolding state_machine_on_touch_tap
tap-IsTyping m t = ground arith

hold-IsTyping :
    (m : Machine) → IsTyping (state_machine_on_touch_hold m) → IsTyping m ⊎ IsPrompting m
unfolding state_machine_on_touch_hold
hold-IsTyping m t = ground arith

tick-IsTyping : (m : Machine) → IsTyping (state_machine_tick m) → IsTyping m
unfolding state_machine_tick
tick-IsTyping m t = ground arith

lock-IsTyping : (m : Machine) → IsTyping (state_machine_lock m) → IsTyping m
unfolding state_machine_lock
lock-IsTyping m t = ground arith

request_fill-IsTyping :
    (m : Machine) (rec : Option CredentialRecord) (origin : Option Text)
    → WantsTouch m.settings
    → IsTyping (state_machine_request_fill m rec origin).0
    → IsTyping m
unfolding state_machine_request_fill
request_fill-IsTyping m (some rec) (some origin) w t = ground arith
request_fill-IsTyping m _ _ w t = t

request_save-IsTyping :
    (g : PolicyGlobals) (m : Machine) (rec : Option CredentialRecord)
    → IsTyping (state_machine_request_save g m rec).0
    → IsTyping m
unfolding state_machine_request_save
request_save-IsTyping g m none t = t
request_save-IsTyping g m (some rec) t = ground arith

try_unlock-IsTyping :
    (hash16 : Text → List ℕ) (m : Machine) (pin : Option Text)
    → IsTyping (state_machine_try_unlock hash16 m pin).0
    → IsTyping m
unfolding state_machine_try_unlock
try_unlock-IsTyping hash16 m none t = t
try_unlock-IsTyping hash16 m (some pin) t = ground arith

module _ (hash16 : Text → List ℕ) (g : PolicyGlobals) where
  -- Only a touch on a prompt brings the device to typing.
  step-IsTyping :
      (m : Machine) (e : Event)
      → WantsTouch m.settings
      → IsTyping (step hash16 g m e).0
      → IsTyping m ⊎ (IsPrompting m × IsPress e)
  unfolding step
  step-IsTyping m tick w t = inl (tick-IsTyping m t)
  step-IsTyping m touch_tap w t = elim (tap-IsTyping m t) [
    | inl same ↦ inl same
    | inr prompt ↦ inr (prompt, inl refl)
  ]
  step-IsTyping m touch_hold w t = elim (hold-IsTyping m t) [
    | inl same ↦ inl same
    | inr prompt ↦ inr (prompt, inr refl)
  ]
  step-IsTyping m lock w t = inl (lock-IsTyping m t)
  step-IsTyping m (try_unlock pin) w t = inl (try_unlock-IsTyping hash16 m pin t)
  step-IsTyping m (set_pin old_pin new_pin) w t =
      inl (rw (← set_pin-ctx hash16 m old_pin new_pin) t)
  step-IsTyping m (request_fill rec origin) w t = inl (request_fill-IsTyping m rec origin w t)
  step-IsTyping m (request_save rec) w t = inl (request_save-IsTyping g m rec t)
  step-IsTyping m (apply_settings s) w t = inl (rw (← apply_settings-ctx m s) t)
  step-IsTyping m (set_pin_verifier v) w t = inl (rw (← set_pin_verifier-ctx m v) t)

  apply-WantsTouch :
      (m : Machine) (s : Option RuntimeSettings)
      → WantsTouch m.settings
      → KeepsTouch (apply_settings s)
      → WantsTouch (state_machine_apply_settings m s).settings
  unfolding state_machine_apply_settings
  apply-WantsTouch m none w k = w
  apply-WantsTouch m (some s) w k = k

  step-WantsTouch :
      (m : Machine) (e : Event)
      → WantsTouch m.settings
      → KeepsTouch e
      → WantsTouch (step hash16 g m e).0.settings
  unfolding step
  step-WantsTouch m (apply_settings s) w k = apply-WantsTouch m s w k
  step-WantsTouch m e w k = rw (step-settings hash16 g m e (λ s q. cc)) w

  -- A run from a device that is not typing, and requires touch throughout, that ends in typing
  -- holds a tap or a hold made while the unlocked device asked whether to fill.
  pub typing_needs_touch :
      (m : Machine) (es : List Event)
      → WantsTouch m.settings
      → All KeepsTouch es
      → ¬ IsTyping m
      → IsTyping (run hash16 g m es)
      → (before : List Event) × (e : Event) × (after : List Event) × (es ≡ before ++ e ∷ after)
        × IsPress e
        × IsPrompting (run hash16 g m before)
  unfolding run
  typing_needs_touch m [] w k quiet t = absurd (quiet t)
  typing_needs_touch m (e ∷ es) w (k, ks) quiet t =
      elim (DeviceState-discrete (step hash16 g m e).0.ctx.state confirm_type) [
        | yes now ↦ elim (step-IsTyping m e w now) [
          | inl same ↦ absurd (quiet same)
          | inr (prompt, touch) ↦ ([], e, es, refl, touch, prompt)
        ]
        | no later ↦
            let (before, last, after, split, touch, prompt) =
              typing_needs_touch (step hash16 g m e).0 es (step-WantsTouch m e w k) ks later t in
            (e ∷ before, last, after, ap (λ r. e ∷ r) split, touch, prompt)
      ]
