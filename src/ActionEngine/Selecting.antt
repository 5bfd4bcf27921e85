-- ===== src/ActionEngine/Selecting.antt =====
-- firmware/src/action_engine.c: the selection of the next credential.
use safe_key_vault.Prelude.{
  ℕ, ◌+◌, ◌%◌, ◌≡◌, ◌≢◌, inl, inr, refl, arith, ap, ap₂, sym, ◌∙◌, subst, true, not, some, answer,
  bind_inv, answer_same, Bool-cases, Option-cases, if◌then◌else◌, ◌==◌,
}
use safe_key_vault.FirmwareTypes.{unlocked}
use safe_key_vault.BrowserProtocol.{BrowserCommand, request_select_next}
use safe_key_vault.StateMachine.{Machine, u32, state_machine_on_touch_hold}
use safe_key_vault.Vault.{Vault, password_store_get_by_index}
use safe_key_vault.ActionEngine.{
  ActionEngine, ActionResult, blank_command, pending_select, admit_command,
}
use safe_key_vault.ActionEngine.Commands.{
  handle_select, dispatch, behind_checks, action_engine_handle_command,
}
use safe_key_vault.ActionEngine.Confirm.{hold_select, action_engine_confirm_hold}
use safe_key_vault.ActionEngine.Device.{run_device_command, action_engine_device_select_next}
use safe_key_vault.ActionEngine.Gates.{admit-Keeps}
use safe_key_vault.ActionEngine.Guarded.{handle_command-guards}

-- The index that a selection goes to.
abbrev pub next_index : ActionEngine → ℕ
next_index e = u32 (e.machine.ctx.selected_credential_idx + 1) % e.vault.count

-- A command to select that was allowed.
abbrev pub AwaitsSelect : ActionEngine → ActionEngine → Type 0
AwaitsSelect e b =
    (b.vault ≡ e.vault)
    × (b.pending.kind ≡ pending_select)
    × (b.pending.pending_index ≡ next_index e)
    × (e.vault.count ≢ 0)

select-AwaitsSelect :
    (e : ActionEngine) → (handle_select e).1.allowed ≡ true → AwaitsSelect e (handle_select e).0
unfolding handle_select
select-AwaitsSelect e h = elim (Bool-cases (e.vault.count == 0)) [
  | inl zero ↦ absurd (ground arith)
  | inr more ↦ rw more (refl, refl, refl, ground arith)
]

abbrev pub select_command : BrowserCommand
select_command = record blank_command { type = request_select_next }

command-AwaitsSelect :
    (e b : ActionEngine) (r : ActionResult)
    → action_engine_handle_command e select_command ≡ answer (b, r)
    → r.allowed ≡ true
    → AwaitsSelect e b
unfolding action_engine_handle_command dispatch
command-AwaitsSelect e b r h go = elim (Option-cases (admit_command e select_command).1) [
  | inr (m, stop) ↦
      let same = answer_same (rw (action_engine_handle_command, behind_checks, stop) at h) in
      absurd (ground (arith, sym (ap (λ o. (o.1).allowed) same), go))
  | inl ok ↦
      let d = (admit_command e select_command).0 in
      let k = admit-Keeps e select_command in
      let same : handle_select d ≡ (b, r) =
        answer_same (rw (action_engine_handle_command, behind_checks, ok) at h) in
      let (vault, kind, index, some_left) =
        subst (λ (o : ActionEngine × ActionResult). AwaitsSelect d (o.0)) same
          (select-AwaitsSelect d (ap (λ o. (o.1).allowed) same ∙ go)) in
      (
        vault ∙ k.0,
        kind,
        index
            ∙ ap₂ (λ (m : Machine) (v : Vault). u32 (m.ctx.selected_credential_idx + 1) % v.count)
                k.1 k.0,
        λ zero. some_left (ap (λ v. v.count) k.0 ∙ zero),
      )
]

-- A selection that was made.
abbrev pub IsSelected : ActionEngine → ℕ → ActionEngine → Type 0
IsSelected b index e' =
    (e'.vault ≡ b.vault)
    × (e'.machine.ctx.selected_credential_idx ≡ index)
    × (e'.machine.ctx.state ≡ unlocked)
    × (password_store_get_by_index b.vault index ≡ some e'.last_selected)

hold_select-IsSelected :
    (b : ActionEngine)
    → (hold_select b).1.performed ≡ true
    → IsSelected b b.pending.pending_index (hold_select b).0
unfolding hold_select
hold_select-IsSelected b h =
    elim (Option-cases (password_store_get_by_index b.vault b.pending.pending_index)) [
      | inl miss ↦ absurd (ground (arith, miss, h))
      | inr (entry, found) ↦ rw (hold_select, found) (refl, refl, refl, refl)
    ]

hold-IsSelected :
    (b e' : ActionEngine) (r : ActionResult)
    → b.pending.kind ≡ pending_select
    → action_engine_confirm_hold b ≡ answer (e', r)
    → r.performed ≡ true
    → IsSelected b b.pending.pending_index e'
unfolding action_engine_confirm_hold
hold-IsSelected b e' r k h done =
    let touched = record b { machine = state_machine_on_touch_hold b.machine } in
    let same : hold_select touched ≡ (e', r) =
      answer_same (rw (action_engine_confirm_hold, k) at h) in
    subst (λ (o : ActionEngine × ActionResult). IsSelected b b.pending.pending_index (o.0)) same
      (hold_select-IsSelected touched (ap (λ o. (o.1).performed) same ∙ done))

-- A selection that `action_engine_device_select_next` performs goes to the next index, around the
-- end of the entries in use to 0; a valid entry is stored there, and it is the one that was
-- selected; the vault stays, and the device is back in the unlocked state.
pub select_next_cycles :
    (e e' : ActionEngine) (r : ActionResult)
    → action_engine_device_select_next e ≡ answer (e', r)
    → r.performed ≡ true
    → (e.vault.count ≢ 0) × IsSelected e (next_index e) e'
unfolding action_engine_device_select_next run_device_command
select_next_cycles e e' r h done =
    let ((b, first), asked, then_) =
      bind_inv (action_engine_handle_command e select_command)
        (λ r. if not (r.1).allowed then answer r else action_engine_confirm_hold (r.0)) h in
    elim (Bool-cases first.allowed) [
      | inr stop ↦
          let same = answer_same (rw stop at then_) in
          let (_, _, _, _, waits) = handle_command-guards e select_command b first asked in
          absurd (ground (arith, sym waits ∙ ap (λ o. (o.1).performed) same ∙ done))
      | inl go ↦
          let (vault, kind, index, some_left) = command-AwaitsSelect e b first asked go in
          let (kept, at, state, found) = hold-IsSelected b e' r kind (rw go at then_) done in
          (
            some_left,
            (
              kept ∙ vault,
              at ∙ index,
              state,
              sym (ap₂ password_store_get_by_index vault index) ∙ found,
            ),
          )
    ]
