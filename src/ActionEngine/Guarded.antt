-- ===== src/ActionEngine/Guarded.antt =====
-- firmware/src/action_engine.c: what `action_engine_handle_command` lets through.
use safe_key_vault.Prelude.{
  ◌≤◌, ◌≡◌, inl, inr, refl, arith, ◌∙◌, true, false, answer, answer_same, subst, Option-cases,
}
use safe_key_vault.BrowserProtocol.{BrowserCommand}
use safe_key_vault.BrowserProtocol.Accepted.{IsAcceptable}
use safe_key_vault.ActionEngine.{ActionEngine, ActionResult, Message, admit_command, refusal}
use safe_key_vault.ActionEngine.Commands.{dispatch, behind_checks, action_engine_handle_command}
use safe_key_vault.ActionEngine.Gates.{Keeps, IsOpen, IsNew, admit-Keeps, admit-nonce, admit-IsOpen}
use safe_key_vault.ActionEngine.Handlers.{IsBound, dispatch-IsCareful}

-- What a command that was allowed tells of the engine before it.
abbrev pub IsGranted : ActionEngine → BrowserCommand → Type 0
IsGranted e cmd = IsOpen e.machine × IsAcceptable cmd × IsNew e cmd

abbrev pub IsGuarded : ActionEngine → BrowserCommand → ActionEngine × ActionResult → Type 0
IsGuarded e cmd (e', r) =
    (e'.vault ≡ e.vault)
    × (e.last_nonce ≤ e'.last_nonce)
    × (r.allowed ≡ false → Keeps e e')
    × (r.allowed ≡ true → IsGranted e cmd × (cmd.nonce ≤ e'.last_nonce) × IsBound e'.pending)
    × (r.performed ≡ false)

Keeps-trans : (e b d : ActionEngine) → Keeps e b → Keeps b d → Keeps e d
Keeps-trans e b d x y = (y.0 ∙ x.0, y.1 ∙ x.1, y.2 ∙ x.2, y.3 ∙ x.3, y.4 ∙ x.4)

refused-IsGuarded :
    (e : ActionEngine) (cmd : BrowserCommand) (m : Message)
    → IsGuarded e cmd ((admit_command e cmd).0, refusal m)
refused-IsGuarded e cmd m =
    let k = admit-Keeps e cmd in (k.0, (admit-nonce e cmd).0, λ _. k, λ h. cc h, refl)

-- A command that `action_engine_handle_command` allows met an unlocked device that is neither
-- wiped nor locked out; it is acceptable to `browser_validate_command`; and its nonce, where it
-- has one, is above every nonce that was taken before; and a fill that then waits is for a stored
-- origin that is the command's and begins with https://. A command that is not allowed leaves the
-- vault, the device, the pending request, the armed button and the selection as they were. No
-- command changes the vault, lowers the last nonce, or performs anything by itself.
pub handle_command-guards :
    (e : ActionEngine) (cmd : BrowserCommand) (e' : ActionEngine) (r : ActionResult)
    → action_engine_handle_command e cmd ≡ answer (e', r)
    → (e'.vault ≡ e.vault)
      × (e.last_nonce ≤ e'.last_nonce)
      × (r.allowed ≡ false → Keeps e e')
      × (r.allowed ≡ true → IsGranted e cmd × (cmd.nonce ≤ e'.last_nonce) × IsBound e'.pending)
      × (r.performed ≡ false)
unfolding action_engine_handle_command
handle_command-guards e cmd e' r h = elim (Option-cases (admit_command e cmd).1) [
  | inr (m, stop) ↦
      let done : answer ((admit_command e cmd).0, refusal m) ≡ answer (e', r) =
        rw (action_engine_handle_command, behind_checks, stop) at h in
      subst (IsGuarded e cmd) (answer_same done) (refused-IsGuarded e cmd m)
  | inl ok ↦
      let b = (admit_command e cmd).0 in
      let done : dispatch b cmd ≡ answer (e', r) =
        rw (action_engine_handle_command, behind_checks, ok) at h in
      let (vault, nonce, refused, bound, waits) = dispatch-IsCareful b cmd (e', r) done in
      let k = admit-Keeps e cmd in
      let (up, taken) = admit-nonce e cmd in
      let at_most = taken ok in
      (
        vault ∙ k.0,
        omega arith,
        λ q. Keeps-trans e b e' k (refused q),
        λ q. (admit-IsOpen e cmd ok, omega arith, bound q),
        waits,
      )
]
