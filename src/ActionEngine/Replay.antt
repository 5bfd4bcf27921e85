-- ===== src/ActionEngine/Replay.antt =====
-- firmware/src/action_engine.c: a nonce is taken once, and a fill waits for its own origin only.
use safe_key_vault.Prelude.{
  ◌≤◌, ◌≡◌, ◌≢◌, inl, inr, refl, arith, sym, subst, true, false, not, ◌&&◌, Bool, Option, none,
  some, List, [], ◌∷◌, Text, answer, bind_inv, answer_same, halted-answer, Bool-cases, leb, ◌==◌,
  if◌then◌else◌, ◌||◌,
}
use safe_key_vault.FirmwareTypes.{RuntimeSettings}
use safe_key_vault.BrowserProtocol.{BrowserCommand}
use safe_key_vault.SecureElement.{atecc608a_is_available}
use safe_key_vault.CryptoEngine.{crypto_engine_hash16}
use safe_key_vault.StateMachine.{state_machine_is_wiped, state_machine_set_pin_verifier}
use safe_key_vault.StateMachine.Pin.{hashes_pins, admits_attempt, state_machine_set_pin}
use safe_key_vault.ActionEngine.{
  ActionEngine, ActionResult, pending_fill, refusal, replay_blocked, admit_command, is_shut,
}
use safe_key_vault.ActionEngine.Commands.{behind_checks, action_engine_handle_command}
use safe_key_vault.ActionEngine.Confirm.{
  hash16_of, action_engine_confirm_tap, action_engine_confirm_hold, action_engine_unlock_with_pin,
  action_engine_try_change_pin, action_engine_arm_manual_popup,
}
use safe_key_vault.ActionEngine.Device.{
  run_device_command, action_engine_popup_open, action_engine_device_apply_settings,
}
use safe_key_vault.ActionEngine.Calls.{
  Call, tap, hold, arm, popup_open, tick, lock, command, device_command, unlock_with_pin,
  change_pin, apply_settings, step, run,
}
use safe_key_vault.ActionEngine.Handlers.{IsBound}
use safe_key_vault.ActionEngine.Guarded.{handle_command-guards}
use safe_key_vault.ActionEngine.Quiet.{IsQuiet, tap-IsQuiet, hold-IsQuiet}

-- What every call keeps: the last nonce never falls, and a pending fill stays bound.
abbrev pub Follows : ActionEngine → ActionEngine → Type 0
Follows e e' = (e.last_nonce ≤ e'.last_nonce) × (IsBound e.pending → IsBound e'.pending)

Follows-trans : (e b d : ActionEngine) → Follows e b → Follows b d → Follows e d
Follows-trans e b d x y = (omega arith, λ h. y.1 (x.1 h))

quiet-Follows : (e d : ActionEngine) → IsQuiet e d → Follows e d
quiet-Follows e d (nonce, inl same) = (omega arith, λ h. subst IsBound (sym same) h)
quiet-Follows e d (nonce, inr gone) = (omega arith, λ h k. cc (gone, k))

command-Follows :
    (e : ActionEngine) (cmd : BrowserCommand) (e' : ActionEngine) (r : ActionResult)
    → action_engine_handle_command e cmd ≡ answer (e', r)
    → Follows e e'
command-Follows e cmd e' r h =
    let (_, up, refused, allowed, _) = handle_command-guards e cmd e' r h in
    elim (Bool-cases r.allowed) [
      | inl go ↦ (up, λ _. (allowed go).2)
      | inr stop ↦ (up, λ b. subst IsBound (sym (refused stop).2) b)
    ]

device-Follows :
    (e : ActionEngine) (cmd : BrowserCommand) (out : ActionEngine × ActionResult)
    → run_device_command e cmd ≡ answer out
    → Follows e out.0
unfolding run_device_command
device-Follows e cmd out h =
    let ((b, r), first, then_) =
      bind_inv (action_engine_handle_command e cmd)
        (λ r. if not (r.1).allowed then answer r else action_engine_confirm_hold (r.0)) h in
    let before = command-Follows e cmd b r first in
    elim (Bool-cases r.allowed) [
      | inl go ↦
          Follows-trans e b out.0 before
            (quiet-Follows b out.0 (hold-IsQuiet b out (rw go at then_)))
      | inr stop ↦ subst (λ o. Follows e (o.0)) (answer_same (rw stop at then_)) before
    ]

unlock-IsQuiet :
    (e : ActionEngine) (pin : Option Text) (out : ActionEngine × Bool)
    → action_engine_unlock_with_pin e pin ≡ answer out
    → IsQuiet e out.0
unfolding action_engine_unlock_with_pin
unlock-IsQuiet e none out h = subst (λ o. IsQuiet e (o.0)) (answer_same h) (refl, inl refl)
unlock-IsQuiet e (some pin) out h =
    elim (Bool-cases (admits_attempt e.machine && not (atecc608a_is_available e.crypto.chip))) [
      | inl stop ↦ absurd (halted-answer (rw (action_engine_unlock_with_pin, stop) at h))
      | inr go ↦
          subst (λ o. IsQuiet e (o.0)) (answer_same (rw (action_engine_unlock_with_pin, go) at h))
            (refl, inl refl)
    ]

change-IsQuiet :
    (e : ActionEngine) (old_pin new_pin : Option Text) (out : ActionEngine × Bool)
    → action_engine_try_change_pin e old_pin new_pin ≡ answer out
    → IsQuiet e out.0
unfolding action_engine_try_change_pin
change-IsQuiet e (some old_pin) (some new_pin) out h =
    let r = state_machine_set_pin (hash16_of e.crypto) e.machine (some old_pin) (some new_pin) in
    elim (Bool-cases
      (hashes_pins e.machine old_pin new_pin && not (atecc608a_is_available e.crypto.chip))) [
        | inl stop ↦ absurd (halted-answer (rw (action_engine_try_change_pin, stop) at h))
        | inr go ↦ elim (Bool-cases r.1) [
          | inl done ↦
              let (v, _, last) =
                bind_inv (crypto_engine_hash16 e.crypto new_pin)
                  (λ v. answer (
                    record e {
                      machine = state_machine_set_pin_verifier r.0 (some v);
                      verifier = v;
                      verifier_set = true;
                    },
                    true,
                  ))
                  (rw (action_engine_try_change_pin, go, done) at h) in
              subst (λ o. IsQuiet e (o.0)) (answer_same last) (refl, inl refl)
          | inr fail ↦
              subst (λ o. IsQuiet e (o.0))
                (answer_same (rw (action_engine_try_change_pin, go, fail) at h)) (refl, inl refl)
        ]
      ]
change-IsQuiet e _ _ out h = subst (λ o. IsQuiet e (o.0)) (answer_same h) (refl, inl refl)

settings-IsQuiet :
    (e : ActionEngine) (s : RuntimeSettings) → IsQuiet e (action_engine_device_apply_settings e s).0
unfolding action_engine_device_apply_settings
settings-IsQuiet e s = elim (Bool-cases (is_shut e.machine || state_machine_is_wiped e.machine)) [
  | inl shut ↦ rw (action_engine_device_apply_settings, shut) (refl, inl refl)
  | inr open_ ↦ rw (action_engine_device_apply_settings, open_) (refl, inl refl)
]

popup-IsQuiet : (e : ActionEngine) → IsQuiet e (action_engine_popup_open e).0
unfolding action_engine_popup_open
popup-IsQuiet e = (refl, inl refl)

arm-IsQuiet : (e : ActionEngine) → IsQuiet e (action_engine_arm_manual_popup e)
unfolding action_engine_arm_manual_popup
arm-IsQuiet e = (refl, inl refl)

step-Follows :
    (e : ActionEngine) (c : Call) (e' : ActionEngine) → step e c ≡ answer e' → Follows e e'
unfolding step
step-Follows e tap e' h =
    let (out, first, last) = bind_inv (action_engine_confirm_tap e) (λ r. answer (r.0)) h in
    subst (Follows e) (answer_same last) (quiet-Follows e out.0 (tap-IsQuiet e out first))
step-Follows e hold e' h =
    let (out, first, last) = bind_inv (action_engine_confirm_hold e) (λ r. answer (r.0)) h in
    subst (Follows e) (answer_same last) (quiet-Follows e out.0 (hold-IsQuiet e out first))
step-Follows e arm e' h =
    subst (Follows e) (answer_same h)
      (quiet-Follows e (action_engine_arm_manual_popup e) (arm-IsQuiet e))
step-Follows e popup_open e' h =
    subst (Follows e) (answer_same h)
      (quiet-Follows e (action_engine_popup_open e).0 (popup-IsQuiet e))
step-Follows e tick e' h = subst (Follows e) (answer_same h) (omega arith, λ b. b)
step-Follows e lock e' h = subst (Follows e) (answer_same h) (omega arith, λ b. b)
step-Follows e (command cmd) e' h =
    let (out, first, last) = bind_inv (action_engine_handle_command e cmd) (λ r. answer (r.0)) h in
    subst (Follows e) (answer_same last) (command-Follows e cmd out.0 out.1 first)
step-Follows e (device_command cmd) e' h =
    let (out, first, last) = bind_inv (run_device_command e cmd) (λ r. answer (r.0)) h in
    subst (Follows e) (answer_same last) (device-Follows e cmd out first)
step-Follows e (unlock_with_pin pin) e' h =
    let (out, first, last) = bind_inv (action_engine_unlock_with_pin e pin) (λ r. answer (r.0)) h in
    subst (Follows e) (answer_same last) (quiet-Follows e out.0 (unlock-IsQuiet e pin out first))
step-Follows e (change_pin old_pin new_pin) e' h =
    let (out, first, last) =
      bind_inv (action_engine_try_change_pin e old_pin new_pin) (λ r. answer (r.0)) h in
    subst (Follows e) (answer_same last)
      (quiet-Follows e out.0 (change-IsQuiet e old_pin new_pin out first))
step-Follows e (apply_settings s) e' h =
    subst (Follows e) (answer_same h)
      (quiet-Follows e (action_engine_device_apply_settings e s).0 (settings-IsQuiet e s))

run-Follows :
    (e : ActionEngine) (cs : List Call) (e' : ActionEngine) → run e cs ≡ answer e' → Follows e e'
unfolding run
run-Follows e [] e' h = subst (Follows e) (answer_same h) (omega arith, λ b. b)
run-Follows e (c ∷ cs) e' h =
    let (b, first, rest) = bind_inv (step e c) (λ b. run b cs) h in
    Follows-trans e b e' (step-Follows e c b first) (run-Follows b cs e' rest)

replayed :
    (e : ActionEngine) (cmd : BrowserCommand)
    → cmd.nonce ≢ 0
    → cmd.nonce ≤ e.last_nonce
    → action_engine_handle_command e cmd ≡ answer (e, refusal replay_blocked)
unfolding action_engine_handle_command behind_checks admit_command
replayed e cmd used old =
    let a : (cmd.nonce == 0) ≡ false = ground arith in
    let b : leb cmd.nonce e.last_nonce ≡ true = ground arith in rw (a, b) refl

-- Once a command has been allowed, whatever calls follow, a later command with the same nonce, or
-- a smaller one that is not 0, is refused as a replay, and changes nothing.
pub replay_is_blocked :
    (e : ActionEngine) (cmd : BrowserCommand) (e1 : ActionEngine) (r : ActionResult)
    (cs : List Call) (e2 : ActionEngine) (later : BrowserCommand)
    → action_engine_handle_command e cmd ≡ answer (e1, r)
    → r.allowed ≡ true
    → run e1 cs ≡ answer e2
    → later.nonce ≢ 0
    → later.nonce ≤ cmd.nonce
    → action_engine_handle_command e2 later ≡ answer (e2, refusal replay_blocked)
replay_is_blocked e cmd e1 r cs e2 later first allowed calls used old =
    let (_, _, _, granted, _) = handle_command-guards e cmd e1 r first in
    let taken = (granted allowed).1 in
    let up = (run-Follows e1 cs e2 calls).0 in replayed e2 later used (omega arith)

-- In an engine that has come, through whatever calls, from one without a pending fill: a fill that
-- waits to be typed is for an entry whose origin, in its first 127 bytes, is the one that its
-- command asked for, and that origin begins with https://.
pub pending_fill-IsBound :
    (e : ActionEngine) (cs : List Call) (e' : ActionEngine)
    → e.pending.kind ≢ pending_fill
    → run e cs ≡ answer e'
    → IsBound e'.pending
pending_fill-IsBound e cs e' none_yet calls =
    (run-Follows e cs e' calls).1 (λ k. absurd (none_yet k))
