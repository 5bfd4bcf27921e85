-- ===== src/UsbSession/Counting.antt =====
-- firmware/src/usb_session.c: the calls of a host during a session, in any order, and the count of
-- the frames that were verified.
use safe_key_vault.Prelude.{
  ℕ, ◌+◌, ◌%◌, ◌^◌, ◌<◌, ◌≡◌, inl, inr, refl, arith, subst, Bool, true, false, not, ◌||◌, Option,
  some, none, take, length, ltb, List, [], ◌∷◌, Outcome, answer, ◌>>=◌, bind_inv, answer_same,
  Bool-cases,
}
use safe_key_vault.SecurityUtils.{sec_consttime_memeq}
use safe_key_vault.CryptoEngine.{CryptoState, crypto_engine_hash16}
use safe_key_vault.UsbSession.{
  HalReadings, UsbSession, UsbSessionChallenge, challenge_seed, started, usb_session_start,
  check_response, usb_session_authenticate, usb_session_sign_payload, next_frame, frame_tag,
  check_frame, usb_session_verify_payload,
}

-- The calls between `usb_session_start` and the next one or `usb_session_end`.
pub data SessionCall : Type 0 where
  authenticate : Option (List ℕ) → SessionCall
  sign_payload : Option (List ℕ) → ℕ → SessionCall
  verify_payload : Option (List ℕ) → Option (List ℕ) → SessionCall

-- Whether a tag was given.
unfoldable pub is_some : Option (List ℕ) → Bool
is_some none = false
is_some (some mac) = true

-- A call, and what it answers.
unfoldable pub session_step : CryptoState → UsbSession → SessionCall → Outcome (UsbSession × Bool)
session_step c s (authenticate response) = usb_session_authenticate c s response
session_step c s (sign_payload payload mac_len) =
    usb_session_sign_payload c s payload mac_len >>= λ mac. answer (s, is_some mac)
session_step c s (verify_payload payload mac) = usb_session_verify_payload c s payload mac

-- The number of accepted frames, after a call.
unfoldable pub counted : SessionCall → Bool → ℕ → ℕ
counted (verify_payload payload mac) true n = n + 1
counted _ _ n = n

-- Calls in a row, each with the crypto engine as it is then, and the number of accepted frames.
unfoldable pub run_session :
    UsbSession → ℕ → List (CryptoState × SessionCall) → Outcome (UsbSession × ℕ)
run_session s n [] = answer (s, n)
run_session s n ((c, call) ∷ calls) =
    session_step c s call >>= λ r. run_session r.0 (counted call r.1 n) calls

-- The session after n accepted frames.
abbrev pub IsCounted : UsbSession → ℕ → Type 0
IsCounted s n =
    (s.session.session_id ≡ 1)
    × (s.expected_client_counter ≡ (n + 1) % 2 ^ 32)
    × (s.session.verified_frames ≡ n % 2 ^ 32)
    × (0 < n → s.session.authenticated ≡ true)

pub start_inv :
    (hal : HalReadings) (c : CryptoState) (out : UsbSession × UsbSessionChallenge)
    → usb_session_start hal c ≡ answer out
    → (hash : List ℕ) × (crypto_engine_hash16 c (challenge_seed hal) ≡ answer hash)
      × (started hash ≡ out)
unfolding usb_session_start
start_inv hal c out h =
    let (hash, made, rest) =
      bind_inv (crypto_engine_hash16 c (challenge_seed hal)) (λ hash. answer (started hash)) h in
    (hash, made, answer_same rest)

started-IsCounted : (hash : List ℕ) → IsCounted (started hash).0 0
unfolding started
started-IsCounted hash = (refl, refl, refl, λ p. absurd (omega arith))

check_response-IsCounted :
    (s : UsbSession) (r e : List ℕ) (n : ℕ) → IsCounted s n → IsCounted (check_response s r e).0 n
unfolding check_response
check_response-IsCounted s r e n (a, b, d, f) =
    elim (Bool-cases (sec_consttime_memeq (some e) (some r) 16)) [
      | inl q ↦ rw q (a, b, d, λ _. refl)
      | inr q ↦ rw q (a, b, d, f)
    ]

authenticate-IsCounted :
    (c : CryptoState) (s : UsbSession) (response : Option (List ℕ)) (out : UsbSession × Bool)
    (n : ℕ)
    → usb_session_authenticate c s response ≡ answer out
    → IsCounted s n
    → IsCounted out.0 n
unfolding usb_session_authenticate
authenticate-IsCounted c s none out n h p = subst (λ o. IsCounted o.0 n) (answer_same h) p
authenticate-IsCounted c s (some r) out n h p = elim (Bool-cases (ltb (length r) 16)) [
  | inl q ↦ subst (λ o. IsCounted o.0 n) (answer_same (rw q at h)) p
  | inr q ↦
      let (expected, _, rest) =
        bind_inv (crypto_engine_hash16 c (take s.challenge_len s.challenge))
          (λ expected. answer (check_response s r expected)) (rw q at h) in
      subst (λ o. IsCounted o.0 n) (answer_same rest) (check_response-IsCounted s r expected n p)
]

next_frame-IsCounted :
    (s : UsbSession) (n : ℕ)
    → s.session.authenticated ≡ true
    → IsCounted s n
    → IsCounted (next_frame s) (n + 1)
unfolding next_frame
next_frame-IsCounted s n here (a, b, d, f) = (a, omega arith, omega arith, λ _. here)

-- An accepted frame is one more, and a rejected one leaves the session as it is.
check_frame-IsCounted :
    (s : UsbSession) (mac : List ℕ) (tag : Option (List ℕ)) (n : ℕ) (payload mac' : Option (List ℕ))
    → s.session.authenticated ≡ true
    → IsCounted s n
    → let out = check_frame s mac tag in
      IsCounted out.0 (counted (verify_payload payload mac') out.1 n)
unfolding check_frame counted
check_frame-IsCounted s mac none n payload mac' here p = p
check_frame-IsCounted s mac (some e) n payload mac' here p =
    elim (Bool-cases (sec_consttime_memeq (some e) (some mac) 16)) [
      | inl q ↦ rw q (next_frame-IsCounted s n here p)
      | inr q ↦ rw q p
    ]

verify-IsCounted :
    (c : CryptoState) (s : UsbSession) (payload mac : Option (List ℕ)) (out : UsbSession × Bool)
    (n : ℕ)
    → usb_session_verify_payload c s payload mac ≡ answer out
    → IsCounted s n
    → IsCounted out.0 (counted (verify_payload payload mac) out.1 n)
unfolding usb_session_verify_payload counted
verify-IsCounted c s none mac out n h p =
    subst (λ o. IsCounted o.0 (counted (verify_payload none mac) o.1 n)) (answer_same h) p
verify-IsCounted c s (some payload) none out n h p =
    subst (λ o. IsCounted o.0 (counted (verify_payload (some payload) none) o.1 n)) (answer_same h)
      p
verify-IsCounted c s (some payload) (some mac) out n h p =
    let Counts : UsbSession × Bool → Type 0 =
      λ o. IsCounted o.0 (counted (verify_payload (some payload) (some mac)) o.1 n) in
    elim (Bool-cases (not s.session.authenticated || ltb (length mac) 16)) [
      | inl q ↦ subst Counts (answer_same (rw q at h)) p
      | inr q ↦ elim (Bool-cases (ltb 32 (length payload))) [
        | inl t ↦ subst Counts (answer_same (rw (q, t) at h)) p
        | inr t ↦
            let (tag, _, rest) =
              bind_inv (frame_tag c s payload) (λ tag. answer (check_frame s mac tag))
                (rw (q, t) at h) in
            let here : s.session.authenticated ≡ true = ground arith in
            subst Counts (answer_same rest)
              (check_frame-IsCounted s mac tag n (some payload) (some mac) here p)
      ]
    ]

step-IsCounted :
    (c : CryptoState) (s : UsbSession) (call : SessionCall) (out : UsbSession × Bool) (n : ℕ)
    → session_step c s call ≡ answer out
    → IsCounted s n
    → IsCounted out.0 (counted call out.1 n)
unfolding session_step counted
step-IsCounted c s (authenticate r) out n h p = authenticate-IsCounted c s r out n h p
step-IsCounted c s (sign_payload payload mac_len) out n h p =
    let (mac, _, rest) =
      bind_inv (usb_session_sign_payload c s payload mac_len) (λ mac. answer (s, is_some mac)) h in
    subst (λ o. IsCounted o.0 n) (answer_same rest) p
step-IsCounted c s (verify_payload payload mac) out n h p =
    verify-IsCounted c s payload mac out n h p

run-IsCounted :
    (s s' : UsbSession) (n k : ℕ) (calls : List (CryptoState × SessionCall))
    → run_session s n calls ≡ answer (s', k)
    → IsCounted s n
    → IsCounted s' k
unfolding run_session
run-IsCounted s s' n k [] h p = subst (λ o. IsCounted o.0 o.1) (answer_same h) p
run-IsCounted s s' n k ((c, call) ∷ calls) h p =
    let (out, first, rest) =
      bind_inv (session_step c s call) (λ r. run_session r.0 (counted call r.1 n) calls) h in
    run-IsCounted out.0 s' (counted call out.1 n) k calls rest
      (step-IsCounted c s call out n first p)

-- After `usb_session_start` and any calls of authentication, signing and verification, each with
-- its own state of the crypto engine, the identifier is still 1, `verified_frames` is the number of frames that
-- `usb_session_verify_payload` has accepted, modulo 2^32, the counter that the next frame must
-- carry is one more, modulo 2^32, and a session in which a frame was accepted is authenticated.
pub verified_frames-IsCounted :
    (hal : HalReadings) (c : CryptoState) (s s' : UsbSession) (ch : UsbSessionChallenge) (n : ℕ)
    (calls : List (CryptoState × SessionCall))
    → usb_session_start hal c ≡ answer (s, ch)
    → run_session s 0 calls ≡ answer (s', n)
    → IsCounted s' n
verified_frames-IsCounted hal c s s' ch n calls h run =
    let (hash, _, same) = start_inv hal c (s, ch) h in
    run-IsCounted s s' 0 n calls run (subst (λ o. IsCounted o.0 0) same (started-IsCounted hash))
