-- ===== src/ActionEngine/Handlers.antt =====
-- firmware/src/action_engine.c: what the cases of `action_engine_handle_command` change.
use safe_key_vault.Prelude.{
  ◌+◌, ◌≡◌, ◌≢◌, ◌⊎◌, inl, inr, refl, arith, ap, sym, subst, ◌∙◌, true, false, Bool, ◌||◌, Option,
  none, some, Text, answer, bind_inv, answer_same, Bool-cases, Option-cases, strncpy, ltb, length,
  codes, some_same, ◌==◌,
}
use safe_key_vault.FirmwareTypes.{CredentialRecord}
use safe_key_vault.BrowserProtocol.{
  BrowserCommand, BrowserCommandType, request_fill, request_save, request_generate,
  request_select_next, none_type,
}
use safe_key_vault.PasswordPolicy.{security_evaluate_password, password_min_length}
use safe_key_vault.PasswordGenerator.{PasswordProfile, password_generate}
use safe_key_vault.CryptoEngine.{CryptoState}
use safe_key_vault.CryptoEngine.Passwords.{crypto_engine_decrypt_password}
use safe_key_vault.Prelude.Slices.{take-take}
use safe_key_vault.Prelude.Substrings.{HasPrefix}
use safe_key_vault.StateMachine.{u32}
use safe_key_vault.StateMachine.Filling.{request_fill-safe}
use safe_key_vault.Vault.{Credential, password_store_find_by_origin}
use safe_key_vault.ActionEngine.{
  ActionEngine, ActionResult, Message, text, PendingAction, PendingRequest, loaded_record,
  pending_fill, pending_save, pending_generate, load_record_plaintext, stash_record, refusal,
}
use safe_key_vault.ActionEngine.Commands.{
  warned, save_result, generate_result, record_of, fill_loaded, fill_entry, handle_fill,
  handle_save, handle_generate, generate_entry, handle_select, await_entry, seed_bytes, dispatch,
}
use safe_key_vault.ActionEngine.Gates.{Keeps}

pub type_cases :
    (t : BrowserCommandType)
    → (t ≡ request_fill)
      ⊎ (t ≡ request_save)
      ⊎ (t ≡ request_generate)
      ⊎ (t ≡ request_select_next)
      ⊎ (t ≡ none_type)
type_cases request_fill = inl refl
type_cases request_save = inr (inl refl)
type_cases request_generate = inr (inr (inl refl))
type_cases request_select_next = inr (inr (inr (inl refl)))
type_cases none_type = inr (inr (inr (inr refl)))

-- A pending fill is for the origin that its command asked for, with its first 127 bytes.
abbrev pub IsBound : PendingRequest → Type 0
IsBound p =
    p.kind ≡ pending_fill
    → (strncpy 127 p.credential.origin ≡ p.command.origin)
      × HasPrefix (codes "https://") p.command.origin

-- What each case guarantees: the vault and the last nonce stay, a refusal leaves all the rest,
-- what is allowed waits for the origin it was asked for, and nothing is performed.
abbrev pub IsCareful : ActionEngine → ActionEngine × ActionResult → Type 0
IsCareful e (e', r) =
    (e'.vault ≡ e.vault)
    × (e'.last_nonce ≡ e.last_nonce)
    × (r.allowed ≡ false → Keeps e e')
    × (r.allowed ≡ true → IsBound e'.pending)
    × (r.performed ≡ false)

kept : (e : ActionEngine) (m : Message) → IsCareful e (e, refusal m)
kept e m = (refl, refl, λ _. (refl, refl, refl, refl, refl), λ h. cc h, refl)

loaded-IsCareful :
    (e : ActionEngine) (cmd : BrowserCommand) (entry : Credential)
    (loaded : Option CredentialRecord)
    → ((rec : CredentialRecord) → loaded ≡ some rec → rec.origin ≡ strncpy 127 entry.origin)
    → IsCareful e (fill_loaded e cmd entry loaded)
unfolding fill_loaded
loaded-IsCareful e cmd entry none from =
    (refl, refl, λ _. (refl, refl, refl, refl, refl), λ h. cc h, refl)
loaded-IsCareful e cmd entry (some rec) from = elim (request_fill-safe e.machine rec cmd.origin) [
  | inl (done, _, _, _, same, https, _, _) ↦
      let origin : strncpy 127 entry.origin ≡ cmd.origin =
        sym (take-take entry.origin 127 127 (omega arith))
        ∙ ap (strncpy 127) (sym (from rec refl))
        ∙ same in
      rw done (refl, refl, λ h. cc h, λ _ _. (origin, https), refl)
  | inr (done, same) ↦ rw done (refl, refl, λ _. (refl, same, refl, refl, refl), λ h. cc h, refl)
]

-- A handler that answers with something careful is careful.
carry :
    (e : ActionEngine) (x out : ActionEngine × ActionResult)
    → answer x ≡ answer out
    → IsCareful e x
    → IsCareful e out
carry e x out h c = subst (IsCareful e) (answer_same h) c

loaded-origin :
    (entry : Credential) (plain : Option Text) (rec : CredentialRecord)
    → loaded_record entry plain ≡ some rec
    → rec.origin ≡ strncpy 127 entry.origin
unfolding loaded_record
loaded-origin entry none rec h = cc h
loaded-origin entry (some password) rec h = sym (ap (λ r. r.origin) (some_same h))

load-origin :
    (c : CryptoState) (entry : Credential) (rec : CredentialRecord)
    → load_record_plaintext c entry ≡ answer (some rec)
    → rec.origin ≡ strncpy 127 entry.origin
unfolding load_record_plaintext loaded_record
load-origin c entry rec h =
    let (plain, _, done) =
      bind_inv (crypto_engine_decrypt_password c entry.password_ciphertext 128)
        (λ plain. answer (loaded_record entry plain)) h in
    loaded-origin entry plain rec (answer_same done)

fill-IsCareful :
    (e : ActionEngine) (cmd : BrowserCommand) (out : ActionEngine × ActionResult)
    → handle_fill e cmd ≡ answer out
    → IsCareful e out
unfolding handle_fill fill_entry
fill-IsCareful e cmd out h =
    elim (Option-cases (password_store_find_by_origin e.vault (some cmd.origin))) [
      | inl miss ↦
          carry e (e, refusal (text "no credential for origin")) out (rw (handle_fill, miss) at h)
            (kept e (text "no credential for origin"))
      | inr (entry, found) ↦
          let (loaded, load, done) =
            bind_inv (load_record_plaintext e.crypto entry)
              (λ loaded. answer (fill_loaded e cmd entry loaded)) (rw (handle_fill, found) at h) in
          carry e (fill_loaded e cmd entry loaded) out done (
            loaded-IsCareful e cmd entry loaded
              (λ rec q. load-origin e.crypto entry rec (load ∙ ap answer q)))
    ]

-- The engine of the two cases that save, and the results that they choose between.
await-IsCareful :
    (kind : PendingAction) (override : Bool) (cmd : BrowserCommand) (failed done : ActionResult)
    (e b : ActionEngine) (entry : Option Credential)
    → (failed.allowed ≡ false) × (failed.performed ≡ false)
    → (done.allowed ≡ true) × (done.performed ≡ false)
    → Keeps e b
    → b.last_nonce ≡ e.last_nonce
    → kind ≢ pending_fill
    → IsCareful e (await_entry kind override cmd failed done b entry)
unfolding await_entry
await-IsCareful kind override cmd failed done e b none bad ok k n other =
    (k.0, n, λ _. k, λ h. absurd (ground (arith, bad, h)), bad.1)
await-IsCareful kind override cmd failed done e b (some entry) bad ok k n other =
    (k.0, n, λ h. absurd (ground (arith, ok, h)), λ _ q. absurd (other q), ok.1)

save-IsCareful :
    (e : ActionEngine) (cmd : BrowserCommand) (out : ActionEngine × ActionResult)
    → handle_save e cmd ≡ answer out
    → IsCareful e out
unfolding handle_save
save-IsCareful e cmd out h =
    let password = strncpy 127 cmd.password in
    let policy = security_evaluate_password e.policy (some password) in
    let next = record e { action_clock = u32 (e.action_clock + 1) } in
    elim (Bool-cases policy.too_short) [
      | inl short ↦
          carry e (next, warned policy (text "password too short")) out
            (rw (handle_save, short) at h)
            (refl, refl, λ _. (refl, refl, refl, refl, refl), λ h. cc h, refl)
      | inr long ↦
          let after : CryptoState × Option Credential → ActionEngine × ActionResult = λ r.
            await_entry pending_save (policy.is_common || policy.is_reused) cmd
              (warned policy (text "prepare save failed")) (save_result e policy)
              (record next { crypto = r.0 }) (r.1) in
          let (r, _, done) =
            bind_inv (stash_record e.crypto (record_of cmd password e.action_clock))
              (λ r. answer (after r)) (rw (handle_save, long) at h) in
          carry e (after r) out done (
            await-IsCareful pending_save (policy.is_common || policy.is_reused) cmd
              (warned policy (text "prepare save failed")) (save_result e policy) e
              (record next { crypto = r.0 }) (r.1) (refl, refl) (refl, refl)
              (refl, refl, refl, refl, refl) refl (λ q. cc q))
    ]

generate_entry-IsCareful :
    (e : ActionEngine) (cmd : BrowserCommand) (password : Text) (out : ActionEngine × ActionResult)
    → generate_entry e cmd password ≡ answer out
    → IsCareful e out
unfolding generate_entry
generate_entry-IsCareful e cmd password out h =
    let next = record e { action_clock = u32 (e.action_clock + 1) } in
    elim (Bool-cases (ltb (length password) password_min_length)) [
      | inl short ↦
          carry e (e, refusal (text "generation failed")) out (rw (generate_entry, short) at h)
            (kept e (text "generation failed"))
      | inr long ↦
          let after : CryptoState × Option Credential → ActionEngine × ActionResult = λ r.
            await_entry pending_generate false cmd (refusal (text "prepare generated save failed"))
              (generate_result e password) (record next { crypto = r.0 }) (r.1) in
          let (r, _, done) =
            bind_inv (stash_record e.crypto (record_of cmd password e.action_clock))
              (λ r. answer (after r)) (rw (generate_entry, long) at h) in
          carry e (after r) out done (
            await-IsCareful pending_generate false cmd
              (refusal (text "prepare generated save failed")) (generate_result e password) e
              (record next { crypto = r.0 }) (r.1) (refl, refl) (refl, refl)
              (refl, refl, refl, refl, refl) refl (λ q. cc q))
    ]

generate-IsCareful :
    (e : ActionEngine) (cmd : BrowserCommand) (out : ActionEngine × ActionResult)
    → handle_generate e cmd ≡ answer out
    → IsCareful e out
unfolding handle_generate
generate-IsCareful e cmd out h =
    elim (Option-cases
      (password_generate PasswordProfile.strong (seed_bytes 16 0 cmd.origin) 128)) [
        | inl bad ↦
            carry e (e, refusal (text "generation failed")) out (rw (handle_generate, bad) at h)
              (kept e (text "generation failed"))
        | inr (password, good) ↦
            generate_entry-IsCareful e cmd password out (rw (handle_generate, good) at h)
      ]

select-IsCareful : (e : ActionEngine) → IsCareful e (handle_select e)
unfolding handle_select
select-IsCareful e = elim (Bool-cases (e.vault.count == 0)) [
  | inl zero ↦ rw zero (kept e (text "no credentials"))
  | inr more ↦ rw more (refl, refl, λ h. cc h, λ _ q. cc q, refl)
]

pub dispatch-IsCareful :
    (e : ActionEngine) (cmd : BrowserCommand) (out : ActionEngine × ActionResult)
    → dispatch e cmd ≡ answer out
    → IsCareful e out
unfolding dispatch
dispatch-IsCareful e cmd out h = elim (type_cases cmd.type) [
  | inl t ↦ fill-IsCareful e cmd out (rw (dispatch, t) at h)
  | inr (inl t) ↦ save-IsCareful e cmd out (rw (dispatch, t) at h)
  | inr (inr (inl t)) ↦ generate-IsCareful e cmd out (rw (dispatch, t) at h)
  | inr (inr (inr (inl t))) ↦
      carry e (handle_select e) out (rw (dispatch, t) at h) (select-IsCareful e)
  | inr (inr (inr (inr t))) ↦
      carry e (e, refusal (text "unsupported command")) out (rw (dispatch, t) at h)
        (kept e (text "unsupported command"))
]
