-- ===== src/StateMachine/Filling.antt =====
-- firmware/src/state_machine.c: what a fill and a save request let through, and what it takes to
-- come to typing.
use safe_key_vault.Prelude.{
  ℕ, zero, suc, ◌≤◌, ◌||◌, true, false, some, [], ◌∷◌, ◌++◌, Text, codes, take, drop,
  take-append-drop, length, All, ◌≡◌, ◌≢◌, ◌⊎◌, inl, inr, Bool-cases, refl, arith, sym, ◌∙◌,
  strncpy, strncmp_eq, strncmp_eq→take, if◌then◌else◌, ap,
}
use mathlib.Core.List.{append_assoc}
use safe_key_vault.Prelude.Substrings.{HasPrefix}
use safe_key_vault.FirmwareTypes.{
  CredentialRecord, locked_out, prompt_fill, prompt_save, confirm_type,
}
use safe_key_vault.BrowserProtocol.{max_origin_len}
use safe_key_vault.BrowserProtocol.Accepted.{IsAcceptable, browser_validate_command_iff}
use safe_key_vault.PasswordPolicy.{PolicyGlobals, password_min_length, common_passwords_of}
use safe_key_vault.PasswordPolicy.Rules.{IsFresh, security_should_allow_save_iff}
use safe_key_vault.StateMachine.{Machine}
use safe_key_vault.StateMachine.Requests.{
  fill_command, save_command, state_machine_request_fill, state_machine_request_save,
}

-- A copy cut at n bytes that equals the text over n + 1 bytes is the whole text.
copy-eq : (n : ℕ) (a b : Text) → take (suc n) (take n a) ≡ take (suc n) b → take n a ≡ b
copy-eq zero a [] h = refl
copy-eq zero a (y ∷ b) h = cc h
copy-eq (suc n) [] [] h = refl
copy-eq (suc n) [] (y ∷ b) h = cc h
copy-eq (suc n) (x ∷ a) [] h = cc h
copy-eq (suc n) (x ∷ a) (y ∷ b) h = ground (arith, copy-eq n a b)

prefix_of_take : (n : ℕ) (p s : Text) → HasPrefix p (take n s) → HasPrefix p s
prefix_of_take n p s (rest, e) = (
  rest ++ drop n s,
  sym (take-append-drop n s) ∙ ap (λ t. t ++ drop n s) e ∙ append_assoc p rest (drop n s),
)

same_origin :
    (rec : CredentialRecord) (origin : Text)
    → strncmp_eq max_origin_len (strncpy 127 rec.origin) origin ≡ true
    → strncpy 127 rec.origin ≡ origin
same_origin rec origin h = copy-eq 127 rec.origin origin (strncmp_eq→take 128 _ _ h)

-- A granted fill request: the device is unlocked, not wiped and not locked out, the stored origin
-- (its first 127 bytes) is the requested one, which begins with https://, and the command that was
-- checked is acceptable. The device then asks for a touch if the settings or the record want one,
-- and else goes straight to typing. A refused request changes nothing.
pub request_fill-safe :
    (m : Machine) (rec : CredentialRecord) (origin : Text)
    → let (m', done) = state_machine_request_fill m (some rec) (some origin) in
      ((done ≡ true)
        × (m.ctx.unlocked ≡ true)
        × (m.ctx.wiped ≡ false)
        × (m.ctx.state ≢ locked_out)
        × (strncpy 127 rec.origin ≡ origin)
        × HasPrefix (codes "https://") origin
        × IsAcceptable (fill_command rec origin)
        × (m'.ctx.state ≡ (
            if m.settings.require_touch_for_fill || rec.requires_touch
            then prompt_fill
            else confirm_type)))
      ⊎ ((done ≡ false) × (m' ≡ m))
unfolding state_machine_request_fill
request_fill-safe m rec origin =
    elim (Bool-cases (state_machine_request_fill m (some rec) (some origin)).1) [
      | inl h ↦
          let valid = (browser_validate_command_iff (fill_command rec origin)).0 (ground arith) in
          let safe = valid.safe_origin (λ e. cc e) in
          inl (
            h,
            ground arith,
            ground arith,
            ground arith,
            same_origin rec origin (ground arith),
            prefix_of_take 95 (codes "https://") origin safe.https,
            valid,
            ground arith,
          )
      | inr h ↦ inr (h, ground arith)
    ]

-- A granted save request: the device is unlocked, not wiped and not locked out, the password (its
-- first 127 bytes) has at least 8 bytes, is not a common one and is not reported as reused, and
-- the command that was checked is acceptable. The device then asks for the save to be confirmed.
-- A refused request changes nothing.
pub request_save-safe :
    (g : PolicyGlobals) (m : Machine) (rec : CredentialRecord)
    → let (m', done) = state_machine_request_save g m (some rec) in
      let password = strncpy 127 rec.password in
      ((done ≡ true)
        × (m.ctx.unlocked ≡ true)
        × (m.ctx.wiped ≡ false)
        × (m.ctx.state ≢ locked_out)
        × (password_min_length ≤ length password)
        × All (λ p. password ≢ p) (common_passwords_of g)
        × IsFresh g.reuse_checker password
        × IsAcceptable (save_command rec)
        × (m'.ctx.state ≡ prompt_save))
      ⊎ ((done ≡ false) × (m' ≡ m))
unfolding state_machine_request_save
request_save-safe g m rec = elim (Bool-cases (state_machine_request_save g m (some rec)).1) [
  | inl h ↦
      let valid = (browser_validate_command_iff (save_command rec)).0 (ground arith) in
      let (long, listed, fresh) =
        (security_should_allow_save_iff g (strncpy 127 rec.password)).0.0 (ground arith) in
      inl (h, ground arith, ground arith, ground arith, long, listed, fresh, valid, ground arith)
  | inr h ↦ inr (h, ground arith)
]
