-- ===== src/ActionEngine/Held.antt =====
-- firmware/src/action_engine.c: what a hold that performed a save or a fill has done.
use safe_key_vault.Prelude.{
  ◌≡◌, inl, inr, refl, arith, ap, sym, ◌∙◌, subst, true, false, not, ◌&&◌, Bool, Option, none, some,
  Text, strncpy, answer, bind_inv, answer_same, Bool-cases,
}
use safe_key_vault.CryptoEngine.Passwords.{crypto_engine_decrypt_password}
use safe_key_vault.StateMachine.{state_machine_on_touch_hold}
use safe_key_vault.Vault.{password_store_upsert}
use safe_key_vault.ActionEngine.{
  ActionEngine, ActionResult, pending_fill, pending_save, loaded_record,
}
use safe_key_vault.ActionEngine.Confirm.{
  wants_button, commit_saved, commit_decrypted, commit_pending_save, hold_fill, disarm,
  unlocked_machine, type_loaded, action_engine_confirm_hold,
}
use safe_key_vault.ActionEngine.Filling.{Opens, disarm-same}
use safe_key_vault.ActionEngine.Holding.{type_eq}

-- A save that was performed.
abbrev pub IsCommitted : ActionEngine → ActionEngine → Type 0
IsCommitted b e' =
    let (v, done) = password_store_upsert b.vault (some b.pending.credential) in
    (done ≡ true) × (e'.vault ≡ v) × (e'.crypto ≡ b.crypto)

saved_inv :
    (b : ActionEngine) → (commit_saved b).1.performed ≡ true → IsCommitted b (commit_saved b).0
unfolding commit_saved
saved_inv b done = elim (Bool-cases (password_store_upsert b.vault (some b.pending.credential)).1) [
  | inl ok ↦ rw ok (refl, refl, refl)
  | inr full ↦ absurd (ground (arith, full, done))
]

held_passes : (override : Bool) → (override && not true) ≡ false
held_passes true = refl
held_passes false = refl

commit_inv :
    (b : ActionEngine) (plain : Option Text) (out : ActionEngine × ActionResult)
    → commit_decrypted b true plain ≡ out
    → (out.1).performed ≡ true
    → IsCommitted b out.0
unfolding commit_decrypted
commit_inv b none out h done = absurd (ground (arith, ap (λ o. (o.1).performed) h ∙ done))
commit_inv b (some p) out h done =
    let now : commit_saved b ≡ out =
      rw (commit_decrypted, held_passes b.pending.override_with_hold) at h in
    subst (λ (o : ActionEngine × ActionResult). IsCommitted b (o.0)) now
      (saved_inv b (ap (λ o. (o.1).performed) now ∙ done))

-- A hold that performed a save.
pub hold_save_inv :
    (b : ActionEngine) (e' : ActionEngine) (r : ActionResult)
    → b.pending.kind ≡ pending_save
    → action_engine_confirm_hold b ≡ answer (e', r)
    → r.performed ≡ true
    → let (v, done) = password_store_upsert b.vault (some b.pending.credential) in
      (done ≡ true) × (e'.vault ≡ v) × (e'.crypto ≡ b.crypto)
unfolding action_engine_confirm_hold commit_pending_save
hold_save_inv b e' r k h done =
    let touched = record b { machine = state_machine_on_touch_hold b.machine } in
    let (plain, _, last) =
      bind_inv
        (crypto_engine_decrypt_password b.crypto b.pending.credential.password_ciphertext 128)
        (λ plain. answer (commit_decrypted touched true plain))
        (rw (action_engine_confirm_hold, k, commit_pending_save) at h) in
    commit_inv touched plain (e', r) (answer_same last) done

typed_inv :
    (b : ActionEngine) (plain : Text) (out : ActionEngine × ActionResult)
    → Opens b plain
    → hold_fill b ≡ answer out
    → (out.1).performed ≡ true
    → (out.1).typed_password ≡ strncpy 127 plain
unfolding hold_fill type_loaded loaded_record
typed_inv b plain out opened h done =
    elim (Bool-cases (wants_button b && not b.manual_popup_armed)) [
      | inl stop ↦ absurd (
          ground
            (arith, ap (λ o. (o.1).performed) (answer_same (rw (hold_fill, stop) at h)) ∙ done))
      | inr go ↦
          let passed = disarm (wants_button b) b in
          let (sc, sp) = disarm-same (wants_button b) b in
          let now =
            type_eq passed (record passed { machine = unlocked_machine passed.machine }) plain
              (rw (sc, sp) opened) in
          sym (ap (λ o. (o.1).typed_password) (answer_same (sym now ∙ rw (hold_fill, go) at h)))
    ]

-- A hold that performed a fill.
pub hold_fill_inv :
    (b : ActionEngine) (plain : Text) (e' : ActionEngine) (r : ActionResult)
    → b.pending.kind ≡ pending_fill
    → Opens b plain
    → action_engine_confirm_hold b ≡ answer (e', r)
    → r.performed ≡ true
    → r.typed_password ≡ strncpy 127 plain
unfolding action_engine_confirm_hold hold_fill
hold_fill_inv b plain e' r k opened h done =
    let touched = record b { machine = state_machine_on_touch_hold b.machine } in
    typed_inv touched plain (e', r) opened (rw (action_engine_confirm_hold, k) at h) done
