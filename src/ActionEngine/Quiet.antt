-- ===== src/ActionEngine/Quiet.antt =====
-- firmware/src/action_engine.c: what the calls other than a command leave alone.
use safe_key_vault.Prelude.{
  ◌≡◌, ◌⊎◌, inl, inr, refl, subst, true, false, not, ◌&&◌, Bool, Option, none, some, Text, answer,
  bind_inv, answer_same, Bool-cases, Option-cases,
}
use safe_key_vault.FirmwareTypes.{CredentialRecord, DeviceState, unlocked, confirm_type}
use safe_key_vault.CryptoEngine.Passwords.{crypto_engine_decrypt_password}
use safe_key_vault.Vault.{password_store_get_by_index, password_store_upsert}
use safe_key_vault.StateMachine.{state_machine_on_touch_tap, state_machine_on_touch_hold}
use safe_key_vault.ActionEngine.{
  ActionEngine, ActionResult, PendingAction, action_none, pending_fill, pending_save,
  pending_generate, pending_select, load_record_plaintext,
}
use safe_key_vault.ActionEngine.Confirm.{
  wants_button, disarm, unlocked_machine, tap_fill, type_pending, type_loaded, hold_fill,
  hold_select, commit_saved, commit_decrypted, commit_pending_save, action_engine_confirm_tap,
  action_engine_confirm_hold,
}

pub kind_cases :
    (k : PendingAction)
    → (k ≡ action_none)
      ⊎ (k ≡ pending_fill)
      ⊎ (k ≡ pending_save)
      ⊎ (k ≡ pending_generate)
      ⊎ (k ≡ pending_select)
kind_cases action_none = inl refl
kind_cases pending_fill = inr (inl refl)
kind_cases pending_save = inr (inr (inl refl))
kind_cases pending_generate = inr (inr (inr (inl refl)))
kind_cases pending_select = inr (inr (inr (inr refl)))

-- What every call but a command does: the last nonce stays, and the pending request stays or goes.
abbrev pub IsQuiet : ActionEngine → ActionEngine → Type 0
IsQuiet e e' =
    (e'.last_nonce ≡ e.last_nonce) × ((e'.pending ≡ e.pending) ⊎ (e'.pending.kind ≡ action_none))

typed-IsQuiet :
    (e done : ActionEngine) (loaded : Option CredentialRecord)
    → done.last_nonce ≡ e.last_nonce
    → IsQuiet e (type_loaded e done loaded).0
unfolding type_loaded
typed-IsQuiet e done none h = (refl, inr refl)
typed-IsQuiet e done (some rec) h = (h, inr refl)

pending-IsQuiet :
    (e done : ActionEngine) (out : ActionEngine × ActionResult)
    → done.last_nonce ≡ e.last_nonce
    → type_pending e done ≡ answer out
    → IsQuiet e out.0
unfolding type_pending
pending-IsQuiet e done out same h =
    let (loaded, _, now) =
      bind_inv (load_record_plaintext e.crypto e.pending.credential)
        (λ loaded. answer (type_loaded e done loaded)) h in
    subst (λ o. IsQuiet e (o.0)) (answer_same now) (typed-IsQuiet e done loaded same)

-- An answer at hand.
now-IsQuiet :
    (e : ActionEngine) {x : ActionEngine × ActionResult} (out : ActionEngine × ActionResult)
    → answer x ≡ answer out
    → IsQuiet e x.0
    → IsQuiet e out.0
now-IsQuiet e out h q = subst (λ o. IsQuiet e (o.0)) (answer_same h) q

tap_fill-IsQuiet :
    (s : DeviceState) (e : ActionEngine) (out : ActionEngine × ActionResult)
    → tap_fill s e ≡ answer out
    → IsQuiet e out.0
unfolding tap_fill
tap_fill-IsQuiet confirm_type e out h = now-IsQuiet e out h (refl, inl refl)
tap_fill-IsQuiet unlocked e out h = pending-IsQuiet e e out refl h
tap_fill-IsQuiet _ e out h = now-IsQuiet e out h (refl, inr refl)

pub tap-IsQuiet :
    (e : ActionEngine) (out : ActionEngine × ActionResult)
    → action_engine_confirm_tap e ≡ answer out
    → IsQuiet e out.0
unfolding action_engine_confirm_tap
tap-IsQuiet e out h =
    let touched = record e { machine = state_machine_on_touch_tap e.machine } in
    elim (kind_cases e.pending.kind) [
      | inl k ↦ now-IsQuiet e out (rw (action_engine_confirm_tap, k) at h) (refl, inl refl)
      | inr (inl k) ↦
          tap_fill-IsQuiet touched.machine.ctx.state touched out
            (rw (action_engine_confirm_tap, k) at h)
      | inr (inr (inl k)) ↦
          now-IsQuiet e out (rw (action_engine_confirm_tap, k) at h) (refl, inl refl)
      | inr (inr (inr (inl k))) ↦
          now-IsQuiet e out (rw (action_engine_confirm_tap, k) at h) (refl, inl refl)
      | inr (inr (inr (inr k))) ↦
          now-IsQuiet e out (rw (action_engine_confirm_tap, k) at h) (refl, inl refl)
    ]

disarm-IsQuiet : (b : Bool) (e d : ActionEngine) → IsQuiet (disarm b e) d → IsQuiet e d
disarm-IsQuiet true e d h = h
disarm-IsQuiet false e d h = h

hold_fill-IsQuiet :
    (e : ActionEngine) (out : ActionEngine × ActionResult)
    → hold_fill e ≡ answer out
    → IsQuiet e out.0
unfolding hold_fill
hold_fill-IsQuiet e out h = elim (Bool-cases (wants_button e && not e.manual_popup_armed)) [
  | inl stop ↦ now-IsQuiet e out (rw (hold_fill, stop) at h) (refl, inl refl)
  | inr go ↦
      let passed = disarm (wants_button e) e in
      disarm-IsQuiet (wants_button e) e out.0 (
        pending-IsQuiet passed (record passed { machine = unlocked_machine passed.machine }) out
          refl (rw (hold_fill, go) at h))
]

saved-IsQuiet : (e : ActionEngine) → IsQuiet e (commit_saved e).0
unfolding commit_saved
saved-IsQuiet e = elim (Bool-cases (password_store_upsert e.vault (some e.pending.credential)).1) [
  | inl done ↦ rw done (refl, inr refl)
  | inr full ↦ rw full (refl, inl refl)
]

commit-IsQuiet :
    (e : ActionEngine) (held : Bool) (plain : Option Text)
    → IsQuiet e (commit_decrypted e held plain).0
unfolding commit_decrypted
commit-IsQuiet e held none = (refl, inl refl)
commit-IsQuiet e held (some p) = elim (Bool-cases (e.pending.override_with_hold && not held)) [
  | inl stop ↦ rw stop (refl, inl refl)
  | inr go ↦ rw go (saved-IsQuiet e)
]

save-IsQuiet :
    (e : ActionEngine) (held : Bool) (out : ActionEngine × ActionResult)
    → commit_pending_save e held ≡ answer out
    → IsQuiet e out.0
unfolding commit_pending_save
save-IsQuiet e held out h =
    let (plain, _, done) =
      bind_inv
        (crypto_engine_decrypt_password e.crypto e.pending.credential.password_ciphertext 128)
        (λ plain. answer (commit_decrypted e held plain)) h in
    now-IsQuiet e out done (commit-IsQuiet e held plain)

select-IsQuiet : (e : ActionEngine) → IsQuiet e (hold_select e).0
unfolding hold_select
select-IsQuiet e =
    elim (Option-cases (password_store_get_by_index e.vault e.pending.pending_index)) [
      | inl miss ↦ rw (hold_select, miss) (refl, inr refl)
      | inr (entry, found) ↦ rw (hold_select, found) (refl, inr refl)
    ]

pub hold-IsQuiet :
    (e : ActionEngine) (out : ActionEngine × ActionResult)
    → action_engine_confirm_hold e ≡ answer out
    → IsQuiet e out.0
unfolding action_engine_confirm_hold
hold-IsQuiet e out h =
    let touched = record e { machine = state_machine_on_touch_hold e.machine } in
    elim (kind_cases e.pending.kind) [
      | inl k ↦ now-IsQuiet e out (rw (action_engine_confirm_hold, k) at h) (refl, inl refl)
      | inr (inl k) ↦ hold_fill-IsQuiet touched out (rw (action_engine_confirm_hold, k) at h)
      | inr (inr (inl k)) ↦ save-IsQuiet touched true out (rw (action_engine_confirm_hold, k) at h)
      | inr (inr (inr (inl k))) ↦
          save-IsQuiet touched true out (rw (action_engine_confirm_hold, k) at h)
      | inr (inr (inr (inr k))) ↦
          now-IsQuiet touched out (rw (action_engine_confirm_hold, k) at h) (select-IsQuiet touched)
    ]
