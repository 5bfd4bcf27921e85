-- ===== src/StateMachine/PinChange.antt =====
-- firmware/src/state_machine.c: which PIN unlocks the device, and what changing it does.
use safe_key_vault.Prelude.{
  ℕ, ◌≤◌, true, false, some, List, [], ◌∷◌, Text, take, take_all, length, All, ◌≡◌, ◌↔◌, refl,
  arith, sym, ◌∙◌, ap,
}
use safe_key_vault.SecurityUtils.{sec_consttime_memeq}
use safe_key_vault.SecurityUtils.Equality.{IsByte, sec_consttime_memeq_iff}
use safe_key_vault.StateMachine.{Machine, state_machine_lock}
use safe_key_vault.StateMachine.Invariant.{IsConsistent}
use safe_key_vault.StateMachine.Pin.{
  pin_digits, scan_pin, admits_attempt, pin_matches, state_machine_try_unlock,
  state_machine_set_pin,
}

abbrev pub IsDigit : ℕ → Type 0
IsDigit c = (b'0' ≤ c) × (c ≤ b'9')

-- Five decimal digits.
abbrev pub IsFiveDigits : Text → Type 0
IsFiveDigits pin = (length pin ≡ pin_digits) × All IsDigit pin

-- A hash of 16 bytes.
abbrev pub IsHash : List ℕ → Type 0
IsHash h = (length h ≡ 16) × All IsByte h

scan_pin-digits : (pin : Text) → All IsDigit pin → scan_pin pin ≡ (length pin, true)
unfolding scan_pin
scan_pin-digits [] h = refl
scan_pin-digits (c ∷ pin) h = ground (arith, scan_pin-digits pin h.1)

scan_pin-All :
    (pin : Text) → (scan_pin pin).1 ≡ true → All IsDigit pin × ((scan_pin pin).0 ≡ length pin)
unfolding scan_pin
scan_pin-All [] h = (tt, refl)
scan_pin-All (c ∷ pin) h =
    let (digits, len) = scan_pin-All pin (ground arith) in ((ground arith, digits), ground arith)

memeq16_iff :
    (a b : List ℕ)
    → IsHash a
    → IsHash b
    → (sec_consttime_memeq (some a) (some b) 16 ≡ true) ↔ (a ≡ b)
memeq16_iff a b ha hb =
    let (there, back) = sec_consttime_memeq_iff 16 a b ha.1 hb.1 (omega arith) (omega arith) in
    let ta : take 16 a ≡ a = take_all 16 a (omega arith) in
    let tb : take 16 b ≡ b = take_all 16 b (omega arith) in
    (λ h. sym ta ∙ there h ∙ tb, λ e. back (ap (take 16) e))

-- `crypto_engine_hash16` writes 16 bytes.
lock-verifier : (m : Machine) → (state_machine_lock m).pin_verifier ≡ m.pin_verifier
unfolding state_machine_lock
lock-verifier m = refl

lock-admits :
    (m : Machine)
    → IsConsistent m.ctx
    → m.ctx.unlocked ≡ true
    → m.ctx.wiped ≡ false
    → m.pin_verifier_set ≡ true
    → admits_attempt (state_machine_lock m) ≡ true
unfolding state_machine_lock admits_attempt
lock-admits m c unlocked alive set = ground arith

module _ (hash16 : Text → List ℕ) (hash16_len : (t : Text) → IsHash (hash16 t)) where
  -- The length and the flag of the loop say that the text is a PIN, and the hash is then of it all.
  scanned :
      (pin : Text)
      → (scan_pin pin).0 ≡ pin_digits
      → (scan_pin pin).1 ≡ true
      → IsFiveDigits pin × (hash16 (take (scan_pin pin).0 pin) ≡ hash16 pin)
  scanned pin len flag =
      let (digits, all) = scan_pin-All pin flag in
      ((omega arith, digits), ap hash16 (take_all (scan_pin pin).0 pin (omega arith)))

  pin_scanned :
      (pin : Text)
      → IsFiveDigits pin
      → ((scan_pin pin).0 ≡ pin_digits)
        × ((scan_pin pin).1 ≡ true)
        × (hash16 (take (scan_pin pin).0 pin) ≡ hash16 pin)
  pin_scanned pin (len, digits) =
      rw (scan_pin-digits pin digits)
        (len, refl, ap hash16 (take_all (length pin) pin (omega arith)))

  pin_matches_iff :
      (m : Machine) (pin : Text)
      → IsHash m.pin_verifier
      → (pin_matches hash16 m pin ≡ true) ↔ (IsFiveDigits pin × (hash16 pin ≡ m.pin_verifier))
  unfolding pin_matches
  pin_matches_iff m pin hv =
      let (there, back) =
        memeq16_iff (hash16 (take (scan_pin pin).0 pin)) m.pin_verifier (hash16_len _) hv in
      (
        λ h.
            let (is_pin, whole) = scanned pin (ground arith) (ground arith) in
            (is_pin, sym whole ∙ there (ground arith)),
        λ h.
            let (len, flag, whole) = pin_scanned pin h.0 in
            ground (arith, len, flag, back (whole ∙ h.1)),
      )

  -- With a verifier of 16 bytes, `state_machine_try_unlock` succeeds exactly when the device takes
  -- attempts (not wiped, a verifier set, no lockout running) and the PIN is five digits whose hash
  -- is the verifier; it then leaves the device unlocked with no failures counted.
  pub try_unlock_iff :
      (m : Machine) (pin : Text)
      → IsHash m.pin_verifier
      → let (m', done) = state_machine_try_unlock hash16 m (some pin) in
        ((done ≡ true)
          ↔ ((admits_attempt m ≡ true) × IsFiveDigits pin × (hash16 pin ≡ m.pin_verifier)))
        × (done ≡ true → (m'.ctx.unlocked ≡ true) × (m'.ctx.failed_pin_attempts ≡ 0))
  unfolding state_machine_try_unlock
  try_unlock_iff m pin hv =
      let (there, back) = pin_matches_iff m pin hv in
      (
        (
          λ h. let (is_pin, same) = there (ground arith) in (ground arith, is_pin, same),
          λ h. ground (arith, back (h.1, h.2)),
        ),
        λ h. ground arith,
      )

  -- `state_machine_set_pin` succeeds exactly when the device is unlocked and not wiped, a verifier
  -- is set, both PINs are five digits and the old one hashes to the verifier; it then stores the
  -- hash of the new PIN, and otherwise changes nothing.
  pub set_pin_iff :
      (m : Machine) (old_pin new_pin : Text)
      → IsHash m.pin_verifier
      → let (m', done) = state_machine_set_pin hash16 m (some old_pin) (some new_pin) in
        ((done ≡ true) ↔ (
          (m.ctx.unlocked ≡ true)
          × (m.ctx.wiped ≡ false)
          × (m.pin_verifier_set ≡ true)
          × IsFiveDigits old_pin
          × IsFiveDigits new_pin
          × (hash16 old_pin ≡ m.pin_verifier)))
        × (done ≡ true → m' ≡ record m { pin_verifier = hash16 new_pin; pin_verifier_set = true })
        × (done ≡ false → m' ≡ m)
  unfolding state_machine_set_pin
  set_pin_iff m old_pin new_pin hv =
      let (there, back) =
        memeq16_iff (hash16 (take (scan_pin old_pin).0 old_pin)) m.pin_verifier (hash16_len _) hv in
      (
        (
          λ h.
              let (old_is, old_whole) = scanned old_pin (ground arith) (ground arith) in
              let (new_is, new_whole) = scanned new_pin (ground arith) (ground arith) in
              (
                ground arith,
                ground arith,
                ground arith,
                old_is,
                new_is,
                sym old_whole ∙ there (ground arith),
              ),
          λ h.
              let (len, flag, whole) = pin_scanned old_pin h.3 in
              let (len', flag', whole') = pin_scanned new_pin h.4 in
              ground (arith, len, flag, len', flag', back (whole ∙ h.5)),
        ),
        λ h.
            let (new_is, new_whole) = scanned new_pin (ground arith) (ground arith) in
            let stored : take 16 (hash16 new_pin) ≡ hash16 new_pin =
              take_all 16 (hash16 new_pin) (omega (arith, hash16_len new_pin)) in
            ground (arith, new_whole, stored),
        λ h. ground arith,
      )

  -- After a successful `state_machine_set_pin` on a device in a consistent state, once it is
  -- locked again, exactly the five-digit PINs with the hash of the new one unlock it.
  pub set_pin-try_unlock :
      (m : Machine) (old_pin new_pin pin : Text)
      → IsHash m.pin_verifier
      → IsConsistent m.ctx
      → (state_machine_set_pin hash16 m (some old_pin) (some new_pin)).1 ≡ true
      → let m' =
          state_machine_lock (state_machine_set_pin hash16 m (some old_pin) (some new_pin)).0 in
        ((state_machine_try_unlock hash16 m' (some pin)).1 ≡ true)
        ↔ (IsFiveDigits pin × (hash16 pin ≡ hash16 new_pin))
  set_pin-try_unlock m old_pin new_pin pin hv c done =
      let (success, stored, _) = set_pin_iff m old_pin new_pin hv in
      let set = record m { pin_verifier = hash16 new_pin; pin_verifier_set = true } in
      let shut = state_machine_lock set in
      let (there, back) =
        (try_unlock_iff shut pin (rw (lock-verifier set) (hash16_len new_pin))).0 in
      let guards = success.0 done in
      rw (stored done) (
        λ h. ((there h).1, (there h).2 ∙ lock-verifier set),
        λ h. back (lock-admits set c guards.0 guards.1 refl, h.0, h.1 ∙ sym (lock-verifier set)),
      )
