-- ===== src/ActionEngine/Inversion.antt =====
-- firmware/src/action_engine.c: what a command that was allowed has done.
use safe_key_vault.Prelude.{
  ◌+◌, ◌≡◌, inl, inr, refl, arith, ap, sym, ◌∙◌, subst, true, false, not, ◌||◌, Bool, Option, none,
  some, Text, strncpy, answer, bind_inv, answer_same, some_same, Bool-cases, Option-cases,
  if◌then◌else◌,
}
use safe_key_vault.FirmwareTypes.{CredentialRecord}
use safe_key_vault.BrowserProtocol.{BrowserCommand}
use safe_key_vault.PasswordPolicy.{security_evaluate_password}
use safe_key_vault.CryptoEngine.{CryptoState, crypto_engine_password_fingerprint}
use safe_key_vault.CryptoEngine.Passwords.{crypto_engine_encrypt_password}
use safe_key_vault.StateMachine.{u32}
use safe_key_vault.StateMachine.Requests.{state_machine_request_fill}
use safe_key_vault.Vault.{Credential, password_store_find_by_origin, password_store_next_id}
use safe_key_vault.ActionEngine.{
  ActionEngine, ActionResult, text, PendingAction, pending_fill, pending_save, blank_entry,
  load_record_plaintext, stash_sealed, stash_record, admit_behind, admit_command,
}
use safe_key_vault.ActionEngine.Commands.{
  warned, save_result, record_of, await_entry, fill_loaded, fill_entry, handle_fill, handle_save,
  dispatch, behind_checks, action_engine_handle_command,
}
use safe_key_vault.ActionEngine.Confirm.{action_engine_confirm_hold}
use safe_key_vault.ActionEngine.Device.{run_device_command}
use safe_key_vault.ActionEngine.Gates.{admit-Keeps}
use safe_key_vault.ActionEngine.Guarded.{handle_command-guards}

-- A device command that was performed: it was allowed, and then held.
pub device_inv :
    (e : ActionEngine) (cmd : BrowserCommand) (e' : ActionEngine) (r : ActionResult)
    → run_device_command e cmd ≡ answer (e', r)
    → r.performed ≡ true
    → (b : ActionEngine) × (first : ActionResult) × (action_engine_handle_command e cmd
        ≡ answer (b, first))
      × (first.allowed ≡ true)
      × (action_engine_confirm_hold b ≡ answer (e', r))
unfolding run_device_command
device_inv e cmd e' r h done =
    let ((b, first), asked, then_) =
      bind_inv (action_engine_handle_command e cmd)
        (λ r. if not (r.1).allowed then answer r else action_engine_confirm_hold (r.0)) h in
    elim (Bool-cases first.allowed) [
      | inr stop ↦
          let same = answer_same (rw stop at then_) in
          let (_, _, _, _, waits) = handle_command-guards e cmd b first asked in
          absurd (ground (arith, sym waits ∙ ap (λ o. (o.1).performed) same ∙ done))
      | inl go ↦ (b, first, asked, go, rw go at then_)
    ]

admit_behind-crypto :
    (e : ActionEngine) (cmd : BrowserCommand) → (admit_behind e cmd).0.crypto ≡ e.crypto
unfolding admit_behind
admit_behind-crypto e cmd = ground arith

admit-crypto : (e : ActionEngine) (cmd : BrowserCommand) → (admit_command e cmd).0.crypto ≡ e.crypto
unfolding admit_command
admit-crypto e cmd = ground (
  arith,
  admit_behind-crypto e cmd,
  admit_behind-crypto (record e { last_nonce = cmd.nonce }) cmd,
)

-- A command that was allowed reached its case of the `switch`.
pub command_inv :
    (e : ActionEngine) (cmd : BrowserCommand) (b : ActionEngine) (r : ActionResult)
    → action_engine_handle_command e cmd ≡ answer (b, r)
    → r.allowed ≡ true
    → (d : ActionEngine) × (d.vault ≡ e.vault)
      × (d.crypto ≡ e.crypto)
      × (dispatch d cmd ≡ answer (b, r))
unfolding action_engine_handle_command
command_inv e cmd b r h go = elim (Option-cases (admit_command e cmd).1) [
  | inr (m, stop) ↦
      let same = answer_same (rw (action_engine_handle_command, behind_checks, stop) at h) in
      absurd (ground (arith, sym (ap (λ o. (o.1).allowed) same), go))
  | inl ok ↦ (
    (admit_command e cmd).0,
    (admit-Keeps e cmd).0,
    admit-crypto e cmd,
    rw (action_engine_handle_command, behind_checks, ok) at h,
  )
]

-- What `stash_record` made: the entry, with the text of the encrypted password.
abbrev pub IsStash : CryptoState → CredentialRecord → CryptoState → Credential → Type 0
IsStash c rec c' entry =
    (entry.valid ≡ true)
    × (entry.origin ≡ strncpy 95 rec.origin)
    × (crypto_engine_encrypt_password c rec.password 192
        ≡ answer (c', some entry.password_ciphertext))

stash_sealed-IsStash :
    (c : CryptoState) (rec : CredentialRecord) (b c' : CryptoState) (sealed : Option Text)
    (entry : Credential)
    → crypto_engine_encrypt_password c rec.password 192 ≡ answer (b, sealed)
    → stash_sealed rec b sealed ≡ answer (c', some entry)
    → IsStash c rec c' entry
unfolding stash_sealed
stash_sealed-IsStash c rec b c' none entry first h = cc h
stash_sealed-IsStash c rec b c' (some ciphertext) entry first h =
    let (fp, _, last) =
      bind_inv (crypto_engine_password_fingerprint b rec.password)
        (λ fp. answer (b, some (blank_entry rec ciphertext fp))) h in
    let pair = answer_same last in
    let same_state : b ≡ c' = ap (λ q. q.0) pair in
    let same_entry : blank_entry rec ciphertext fp ≡ entry = some_same (ap (λ q. q.1) pair) in
    subst (λ q. IsStash c rec c' q) same_entry
      (
        refl,
        refl,
        subst (λ q. crypto_engine_encrypt_password c rec.password 192 ≡ answer (q, some ciphertext))
            same_state first,
      )

IsStash-inv :
    (c : CryptoState) (rec : CredentialRecord) (c' : CryptoState) (entry : Credential)
    → stash_record c rec ≡ answer (c', some entry)
    → IsStash c rec c' entry
unfolding stash_record
IsStash-inv c rec c' entry h =
    let ((b, sealed), first, then_) =
      bind_inv (crypto_engine_encrypt_password c rec.password 192) (λ r. stash_sealed rec r.0 r.1)
        h in
    stash_sealed-IsStash c rec b c' sealed entry first then_

-- An entry that waits to be saved.
abbrev pub Waits : PendingAction → ActionEngine → Credential → ActionEngine → Type 0
Waits kind e entry b =
    (b.pending.credential ≡ record entry { id = password_store_next_id e.vault })
    × (b.pending.kind ≡ kind)
    × (b.vault ≡ e.vault)
    × (b.crypto ≡ e.crypto)

await_inv :
    (kind : PendingAction) (override : Bool) (cmd : BrowserCommand) (failed done : ActionResult)
    (e : ActionEngine) (o : Option Credential) (out : ActionEngine × ActionResult)
    → failed.allowed ≡ false
    → await_entry kind override cmd failed done e o ≡ out
    → (out.1).allowed ≡ true
    → (entry : Credential) × (o ≡ some entry) × Waits kind e entry out.0
unfolding await_entry
await_inv kind override cmd failed done e none out bad h go =
    absurd (ground (arith, sym bad ∙ ap (λ o. (o.1).allowed) h ∙ go))
await_inv kind override cmd failed done e (some entry) out bad h go = (
  entry,
  refl,
  subst (λ (o : ActionEngine × ActionResult). Waits kind e entry (o.0)) h (refl, refl, refl, refl),
)

-- A save that was allowed.
pub save_inv :
    (d : ActionEngine) (cmd : BrowserCommand) (b : ActionEngine) (r : ActionResult)
    → handle_save d cmd ≡ answer (b, r)
    → r.allowed ≡ true
    → IsStash d.crypto
        (record_of cmd (strncpy 127 cmd.password) d.action_clock)
        b.crypto
        b.pending.credential
      × (b.pending.kind ≡ pending_save)
      × (b.vault ≡ d.vault)
unfolding handle_save
save_inv d cmd b r h go =
    let password = strncpy 127 cmd.password in
    let policy = security_evaluate_password d.policy (some password) in
    let next = record d { action_clock = u32 (d.action_clock + 1) } in
    elim (Bool-cases policy.too_short) [
      | inl short ↦
          let same = answer_same (rw (handle_save, short) at h) in
          absurd (ground (arith, ap (λ o. (o.1).allowed) same ∙ go))
      | inr long ↦
          let rec = record_of cmd password d.action_clock in
          let after : CryptoState × Option Credential → ActionEngine × ActionResult = λ r.
            await_entry pending_save (policy.is_common || policy.is_reused) cmd
              (warned policy (text "prepare save failed")) (save_result d policy)
              (record next { crypto = r.0 }) (r.1) in
          let ((c', o), stashed, last) =
            bind_inv (stash_record d.crypto rec) (λ r. answer (after r))
              (rw (handle_save, long) at h) in
          let (entry, found, (cred, kind, vault, crypto)) =
            await_inv pending_save (policy.is_common || policy.is_reused) cmd
              (warned policy (text "prepare save failed")) (save_result d policy)
              (record next { crypto = c' }) o (b, r) refl (answer_same last) go in
          let made = IsStash-inv d.crypto rec c' entry (stashed ∙ ap (λ q. answer (c', q)) found) in
          (
            subst (λ q. IsStash d.crypto rec b.crypto q) (sym cred)
                (subst (λ q. IsStash d.crypto rec q entry) (sym crypto) made),
            kind,
            vault,
          )
    ]

fill_loaded_inv :
    (d : ActionEngine) (cmd : BrowserCommand) (entry : Credential)
    (loaded : Option CredentialRecord) (out : ActionEngine × ActionResult)
    → fill_loaded d cmd entry loaded ≡ out
    → (out.1).allowed ≡ true
    → ((out.0).pending.kind ≡ pending_fill)
      × ((out.0).pending.credential ≡ entry)
      × ((out.0).crypto ≡ d.crypto)
unfolding fill_loaded
fill_loaded_inv d cmd entry none out h go = absurd (ground (arith, ap (λ o. (o.1).allowed) h ∙ go))
fill_loaded_inv d cmd entry (some rec) out h go =
    elim (Bool-cases (state_machine_request_fill d.machine (some rec) (some cmd.origin)).1) [
      | inr stop ↦
          absurd (ground (arith, ap (λ o. (o.1).allowed) (rw (fill_loaded, stop) at h) ∙ go))
      | inl granted ↦
          subst
            (λ (o : ActionEngine × ActionResult).
              ((o.0).pending.kind ≡ pending_fill)
              × ((o.0).pending.credential ≡ entry)
              × ((o.0).crypto ≡ d.crypto))
            (rw (fill_loaded, granted) at h) (refl, refl, refl)
    ]

-- A fill that was allowed, for an entry that the search finds.
pub fill_inv :
    (d : ActionEngine) (cmd : BrowserCommand) (entry : Credential) (b : ActionEngine)
    (r : ActionResult)
    → password_store_find_by_origin d.vault (some cmd.origin) ≡ some entry
    → handle_fill d cmd ≡ answer (b, r)
    → r.allowed ≡ true
    → (b.pending.kind ≡ pending_fill) × (b.pending.credential ≡ entry) × (b.crypto ≡ d.crypto)
unfolding handle_fill fill_entry
fill_inv d cmd entry b r found h go =
    let (loaded, _, last) =
      bind_inv (load_record_plaintext d.crypto entry)
        (λ loaded. answer (fill_loaded d cmd entry loaded)) (rw (handle_fill, found) at h) in
    fill_loaded_inv d cmd entry loaded (b, r) (answer_same last) go
