-- ===== src/ActionEngine/Filling.antt =====
-- firmware/src/action_engine.c: what a touch types.
use safe_key_vault.Prelude.{
  ℕ, arith, ◌≡◌, ◌≢◌, ◌⊎◌, inl, inr, refl, ap, sym, ◌∙◌, subst, true, false, not, ◌&&◌, Bool,
  Option, none, some, [], Text, strncpy, answer, bind_inv, answer_same, some_same, Bool-cases,
  Option-cases,
}
use safe_key_vault.Prelude.Slices.{take-take}
use safe_key_vault.FirmwareTypes.{CredentialRecord, DeviceState, unlocked, confirm_type}
use safe_key_vault.CryptoEngine.Passwords.{crypto_engine_decrypt_password}
use safe_key_vault.StateMachine.{state_machine_on_touch_tap, state_machine_on_touch_hold}
use safe_key_vault.Vault.{Credential, password_store_get_by_index, password_store_upsert}
use safe_key_vault.ActionEngine.{
  ActionEngine, ActionResult, action_none, pending_fill, loaded_record, load_record_plaintext,
}
use safe_key_vault.ActionEngine.Confirm.{
  wants_button, disarm, unlocked_machine, tap_fill, type_pending, type_loaded, hold_fill,
  hold_select, commit_saved, commit_decrypted, commit_pending_save, action_engine_confirm_tap,
  action_engine_confirm_hold,
}
use safe_key_vault.ActionEngine.Quiet.{kind_cases}

-- The password that is decrypted for the pending credential.
abbrev pub Opens : ActionEngine → Text → Type 0
Opens e plain =
    crypto_engine_decrypt_password e.crypto e.pending.credential.password_ciphertext 128
    ≡ answer (some plain)

-- A result with something to type.
abbrev pub IsLoud : ActionResult → Type 0
IsLoud r = (r.typed_username ≢ []) ⊎ (r.typed_password ≢ [])

-- What is typed, if anything: the user name and the password of the pending fill, which is then
-- pending no more.
abbrev pub TypesPending : ActionEngine → ActionEngine × ActionResult → Type 0
TypesPending e (e', r) =
    IsLoud r
    → (e.pending.kind ≡ pending_fill)
      × (r.typed_username ≡ strncpy 95 e.pending.credential.username)
      × ((plain : Text) × Opens e plain × (r.typed_password ≡ strncpy 127 plain))
      × (e'.pending.kind ≡ action_none)

-- A result with nothing to type.
abbrev IsSilent : ActionResult → Type 0
IsSilent r = (r.typed_username ≡ []) × (r.typed_password ≡ [])

silent-not-IsLoud : (r : ActionResult) → IsSilent r → ¬ IsLoud r
silent-not-IsLoud r (u, p) (inl loud) = loud u
silent-not-IsLoud r (u, p) (inr loud) = loud p

now-silent :
    (e : ActionEngine) {x : ActionEngine × ActionResult} (out : ActionEngine × ActionResult)
    → answer x ≡ answer out
    → IsSilent x.1
    → TypesPending e out
now-silent e out h q =
    λ loud. absurd (silent-not-IsLoud out.1 (subst (λ o. IsSilent o.1) (answer_same h) q) loud)

loaded-plain :
    (entry : Credential) (plain : Option Text) (rec : CredentialRecord)
    → loaded_record entry plain ≡ some rec
    → plain ≡ some rec.password
unfolding loaded_record
loaded-plain entry none rec h = cc h
loaded-plain entry (some p) rec h = ap some (ap (λ r. r.password) (some_same h))

pub strncpy_twice : (n : ℕ) (t : Text) → strncpy n (strncpy n t) ≡ strncpy n t
strncpy_twice n t = take-take t n n (omega arith)

loaded-username :
    (entry : Credential) (plain : Option Text) (rec : CredentialRecord)
    → loaded_record entry plain ≡ some rec
    → strncpy 95 entry.username ≡ rec.username
unfolding loaded_record
loaded-username entry none rec h = cc h
loaded-username entry (some p) rec h = ap (λ r. r.username) (some_same h)

type_loaded-TypesPending :
    (e b done : ActionEngine) (plain : Option Text) (loaded : Option CredentialRecord)
    → e.pending.kind ≡ pending_fill
    → crypto_engine_decrypt_password e.crypto e.pending.credential.password_ciphertext 128
      ≡ answer plain
    → loaded_record e.pending.credential plain ≡ loaded
    → TypesPending e (type_loaded b done loaded)
unfolding type_loaded
type_loaded-TypesPending e b done plain none k h l =
    λ loud. absurd (silent-not-IsLoud (type_loaded b done none).1 (refl, refl) loud)
type_loaded-TypesPending e b done plain (some rec) k h l = λ _.
    let entry = e.pending.credential in
    (
      k,
      ap (strncpy 95) (sym (loaded-username entry plain rec l)) ∙ strncpy_twice 95 entry.username,
      (rec.password, h ∙ ap answer (loaded-plain entry plain rec l), refl),
      refl,
    )

type_pending-TypesPending :
    (e b done : ActionEngine) (out : ActionEngine × ActionResult)
    → e.pending.kind ≡ pending_fill
    → b.crypto ≡ e.crypto
    → b.pending ≡ e.pending
    → type_pending b done ≡ answer out
    → TypesPending e out
unfolding type_pending load_record_plaintext
type_pending-TypesPending e b done out k sc sp h =
    let (loaded, load, now) =
      bind_inv (load_record_plaintext b.crypto b.pending.credential)
        (λ loaded. answer (type_loaded b done loaded)) h in
    let (plain, opened, made) =
      bind_inv
        (crypto_engine_decrypt_password b.crypto b.pending.credential.password_ciphertext 128)
        (λ plain. answer (loaded_record b.pending.credential plain)) load in
    subst (TypesPending e) (answer_same now) (
      type_loaded-TypesPending e b done plain loaded k (rw (← sc, ← sp) opened)
        (rw (← sp) (answer_same made)))

tap_fill-TypesPending :
    (s : DeviceState) (e b : ActionEngine) (out : ActionEngine × ActionResult)
    → e.pending.kind ≡ pending_fill
    → b.crypto ≡ e.crypto
    → b.pending ≡ e.pending
    → tap_fill s b ≡ answer out
    → TypesPending e out
unfolding tap_fill
tap_fill-TypesPending confirm_type e b out k sc sp h = now-silent e out h (refl, refl)
tap_fill-TypesPending unlocked e b out k sc sp h = type_pending-TypesPending e b b out k sc sp h
tap_fill-TypesPending _ e b out k sc sp h = now-silent e out h (refl, refl)

tap-TypesPending :
    (e : ActionEngine) (out : ActionEngine × ActionResult)
    → action_engine_confirm_tap e ≡ answer out
    → TypesPending e out
unfolding action_engine_confirm_tap
tap-TypesPending e out h =
    let touched = record e { machine = state_machine_on_touch_tap e.machine } in
    elim (kind_cases e.pending.kind) [
      | inl k ↦ now-silent e out (rw (action_engine_confirm_tap, k) at h) (refl, refl)
      | inr (inl k) ↦
          tap_fill-TypesPending touched.machine.ctx.state e touched out k refl refl
            (rw (action_engine_confirm_tap, k) at h)
      | inr (inr (inl k)) ↦ now-silent e out (rw (action_engine_confirm_tap, k) at h) (refl, refl)
      | inr (inr (inr (inl k))) ↦
          now-silent e out (rw (action_engine_confirm_tap, k) at h) (refl, refl)
      | inr (inr (inr (inr k))) ↦
          now-silent e out (rw (action_engine_confirm_tap, k) at h) (refl, refl)
    ]

pub disarm-same :
    (b : Bool) (e : ActionEngine)
    → ((disarm b e).crypto ≡ e.crypto) × ((disarm b e).pending ≡ e.pending)
disarm-same true e = (refl, refl)
disarm-same false e = (refl, refl)

hold_fill-TypesPending :
    (e : ActionEngine) (out : ActionEngine × ActionResult)
    → e.pending.kind ≡ pending_fill
    → hold_fill e ≡ answer out
    → TypesPending e out
unfolding hold_fill
hold_fill-TypesPending e out k h = elim (Bool-cases (wants_button e && not e.manual_popup_armed)) [
  | inl stop ↦ now-silent e out (rw (hold_fill, stop) at h) (refl, refl)
  | inr go ↦
      let passed = disarm (wants_button e) e in
      let (sc, sp) = disarm-same (wants_button e) e in
      type_pending-TypesPending e passed
        (record passed { machine = unlocked_machine passed.machine }) out k sc sp
        (rw (hold_fill, go) at h)
]

saved-IsSilent : (e : ActionEngine) → IsSilent (commit_saved e).1
unfolding commit_saved
saved-IsSilent e = elim (Bool-cases (password_store_upsert e.vault (some e.pending.credential)).1) [
  | inl done ↦ rw done (refl, refl)
  | inr full ↦ rw full (refl, refl)
]

commit-IsSilent :
    (e : ActionEngine) (held : Bool) (plain : Option Text)
    → IsSilent (commit_decrypted e held plain).1
unfolding commit_decrypted
commit-IsSilent e held none = (refl, refl)
commit-IsSilent e held (some p) = elim (Bool-cases (e.pending.override_with_hold && not held)) [
  | inl stop ↦ rw stop (refl, refl)
  | inr go ↦ rw go (saved-IsSilent e)
]

save-silent :
    (e b : ActionEngine) (held : Bool) (out : ActionEngine × ActionResult)
    → commit_pending_save b held ≡ answer out
    → TypesPending e out
unfolding commit_pending_save
save-silent e b held out h =
    let (plain, _, done) =
      bind_inv
        (crypto_engine_decrypt_password b.crypto b.pending.credential.password_ciphertext 128)
        (λ plain. answer (commit_decrypted b held plain)) h in
    now-silent e out done (commit-IsSilent b held plain)

select-IsSilent : (e : ActionEngine) → IsSilent (hold_select e).1
unfolding hold_select
select-IsSilent e =
    elim (Option-cases (password_store_get_by_index e.vault e.pending.pending_index)) [
      | inl miss ↦ rw (hold_select, miss) (refl, refl)
      | inr (entry, found) ↦ rw (hold_select, found) (refl, refl)
    ]

hold-TypesPending :
    (e : ActionEngine) (out : ActionEngine × ActionResult)
    → action_engine_confirm_hold e ≡ answer out
    → TypesPending e out
unfolding action_engine_confirm_hold
hold-TypesPending e out h =
    let touched = record e { machine = state_machine_on_touch_hold e.machine } in
    elim (kind_cases e.pending.kind) [
      | inl k ↦ now-silent e out (rw (action_engine_confirm_hold, k) at h) (refl, refl)
      | inr (inl k) ↦ hold_fill-TypesPending touched out k (rw (action_engine_confirm_hold, k) at h)
      | inr (inr (inl k)) ↦ save-silent e touched true out (rw (action_engine_confirm_hold, k) at h)
      | inr (inr (inr (inl k))) ↦
          save-silent e touched true out (rw (action_engine_confirm_hold, k) at h)
      | inr (inr (inr (inr k))) ↦
          now-silent e out (rw (action_engine_confirm_hold, k) at h) (select-IsSilent touched)
    ]

-- A tap and a hold type nothing, neither a user name nor a password, unless a fill is pending.
-- Then what is typed is the user name of the credential that waits to be filled, in its first 95
-- bytes, and its password, as it is decrypted, in its first 127; and it waits no more.
pub confirm_types_pending :
    (e e' : ActionEngine) (r : ActionResult)
    → (action_engine_confirm_tap e ≡ answer (e', r))
      ⊎ (action_engine_confirm_hold e ≡ answer (e', r))
    → IsLoud r
    → (e.pending.kind ≡ pending_fill)
      × (r.typed_username ≡ strncpy 95 e.pending.credential.username)
      × ((plain : Text) × Opens e plain × (r.typed_password ≡ strncpy 127 plain))
      × (e'.pending.kind ≡ action_none)
confirm_types_pending e e' r (inl h) = tap-TypesPending e (e', r) h
confirm_types_pending e e' r (inr h) = hold-TypesPending e (e', r) h
