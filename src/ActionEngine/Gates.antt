-- ===== src/ActionEngine/Gates.antt =====
-- firmware/src/action_engine.c: which commands pass the checks, and what a refused one leaves.
use safe_key_vault.Prelude.{
  ◌<◌, ◌≤◌, ◌≡◌, ◌≢◌, ◌⊎◌, inl, inr, refl, arith, true, false, none, Bool-cases, leb, ◌==◌,
}
use safe_key_vault.FirmwareTypes.{locked_out}
use safe_key_vault.BrowserProtocol.{BrowserCommand}
use safe_key_vault.BrowserProtocol.Accepted.{IsAcceptable, browser_validate_command_iff}
use safe_key_vault.StateMachine.{Machine, state_machine_is_wiped}
use safe_key_vault.ActionEngine.{ActionEngine, admit_behind, admit_command}

-- The parts that a refused command leaves as they were.
abbrev pub Keeps : ActionEngine → ActionEngine → Type 0
Keeps e e' =
    (e'.vault ≡ e.vault)
    × (e'.machine ≡ e.machine)
    × (e'.pending ≡ e.pending)
    × (e'.manual_popup_armed ≡ e.manual_popup_armed)
    × (e'.last_selected ≡ e.last_selected)

-- A command may go on: the device is open to it.
abbrev pub IsOpen : Machine → Type 0
IsOpen m = (m.ctx.unlocked ≡ true) × (m.ctx.wiped ≡ false) × (m.ctx.state ≢ locked_out)

admit_behind-Keeps : (e : ActionEngine) (cmd : BrowserCommand) → Keeps e (admit_behind e cmd).0
unfolding admit_behind
admit_behind-Keeps e cmd = ground arith

pub admit-Keeps : (e : ActionEngine) (cmd : BrowserCommand) → Keeps e (admit_command e cmd).0
unfolding admit_command
admit-Keeps e cmd = elim (Bool-cases (cmd.nonce == 0)) [
  | inl z ↦ rw z (admit_behind-Keeps e cmd)
  | inr z ↦ elim (Bool-cases (leb cmd.nonce e.last_nonce)) [
    | inl old ↦ rw (z, old) (refl, refl, refl, refl, refl)
    | inr new ↦ rw (z, new) (admit_behind-Keeps (record e { last_nonce = cmd.nonce }) cmd)
  ]
]

admit_behind-IsOpen :
    (e : ActionEngine) (cmd : BrowserCommand)
    → (admit_behind e cmd).1 ≡ none
    → IsOpen e.machine × IsAcceptable cmd
unfolding admit_behind state_machine_is_wiped
admit_behind-IsOpen e cmd h = (
  (ground arith, ground arith, ground arith),
  (browser_validate_command_iff cmd).0 (ground arith),
)

-- The nonce is none, or it is above all that were accepted before.
abbrev pub IsNew : ActionEngine → BrowserCommand → Type 0
IsNew e cmd = (cmd.nonce ≡ 0) ⊎ (e.last_nonce < cmd.nonce)

admit_behind-nonce :
    (e : ActionEngine) (cmd : BrowserCommand) → (admit_behind e cmd).0.last_nonce ≡ e.last_nonce
unfolding admit_behind
admit_behind-nonce e cmd = ground arith

-- The checks raise the last nonce to that of the command, or leave it.
pub admit-nonce :
    (e : ActionEngine) (cmd : BrowserCommand)
    → let e' = (admit_command e cmd).0 in
      (e.last_nonce ≤ e'.last_nonce) × ((admit_command e cmd).1 ≡ none → cmd.nonce ≤ e'.last_nonce)
unfolding admit_command
admit-nonce e cmd = elim (Bool-cases (cmd.nonce == 0)) [
  | inl z ↦
      rw z
        (omega (arith, admit_behind-nonce e cmd), λ h. ground (arith, z, admit_behind-nonce e cmd))
  | inr z ↦ elim (Bool-cases (leb cmd.nonce e.last_nonce)) [
    | inl old ↦ rw (z, old) (omega arith, λ h. cc h)
    | inr new ↦
        let same = admit_behind-nonce (record e { last_nonce = cmd.nonce }) cmd in
        let above : e.last_nonce ≤ cmd.nonce = ground arith in
        rw (z, new) (omega arith, λ h. omega arith)
  ]
]

pub admit-IsOpen :
    (e : ActionEngine) (cmd : BrowserCommand)
    → (admit_command e cmd).1 ≡ none
    → IsOpen e.machine × IsAcceptable cmd × IsNew e cmd
unfolding admit_command
admit-IsOpen e cmd h = elim (Bool-cases (cmd.nonce == 0)) [
  | inl z ↦
      let (gate, valid) = admit_behind-IsOpen e cmd (rw z at h) in (gate, valid, inl (ground arith))
  | inr z ↦ elim (Bool-cases (leb cmd.nonce e.last_nonce)) [
    | inl old ↦ absurd (ground arith)
    | inr new ↦
        let (gate, valid) =
          admit_behind-IsOpen (record e { last_nonce = cmd.nonce }) cmd (rw (z, new) at h) in
        (gate, valid, inr (ground arith))
  ]
]
