-- ===== src/UsbSession/Handshake.antt =====
-- firmware/src/usb_session.c: who is authenticated, and what a session then serves.
use safe_key_vault.Prelude.{
  ℕ, ◌≤◌, ◌≡◌, ◌↔◌, refl, arith, sym, ◌∙◌, subst, true, false, some, List, zero, suc, inl, inr,
  replicate, All, All-append, length, ltb, take, answer, bind_inv, answer_same, Bool-cases,
}
use safe_key_vault.SecurityUtils.{sec_consttime_memeq}
use safe_key_vault.SecurityUtils.Equality.{
  IsByte, sec_consttime_memeq_iff, sec_consttime_memeq_refl,
}
use safe_key_vault.SecureElement.{
  digest_of, bytes_of_u32, digest_from, atecc608a_is_available, atecc608a_sha256,
}
use safe_key_vault.CryptoEngine.{CryptoState, crypto_engine_hash16}
use safe_key_vault.CryptoEngine.Limits.{IsArmed}
use safe_key_vault.CryptoEngine.Aead.{engine_eq}
use safe_key_vault.UsbSession.{
  HalReadings, UsbSession, UsbSessionChallenge, challenge_seed, started, build_session_aad,
  tag_part, frame_tag, usb_session_start, check_response, usb_session_authenticate,
  usb_session_sign_payload, next_frame, usb_session_verify_payload,
}
use safe_key_vault.UsbSession.Counting.{start_inv}
use safe_key_vault.UsbSession.Frames.{sign_payload-verify_payload}

-- The 16 bytes that `crypto_engine_hash16` gives.
abbrev pub hash16_of : List ℕ → List ℕ
hash16_of input = take 16 (digest_of input)

hash16_iff :
    (c : CryptoState) (input hash : List ℕ)
    → (crypto_engine_hash16 c input ≡ answer hash)
      ↔ ((atecc608a_is_available c.chip ≡ true) × (hash ≡ hash16_of input))
unfolding crypto_engine_hash16 atecc608a_sha256 atecc608a_is_available
hash16_iff c input hash = (λ h. (ground arith, ground arith), λ (here, same). ground arith)

bytes_of_u32-IsByte : (h : ℕ) → All IsByte (bytes_of_u32 h)
bytes_of_u32-IsByte h = (omega arith, (omega arith, (omega arith, (omega arith, tt))))

pub zeros-IsByte : (n : ℕ) → All IsByte (replicate n 0)
zeros-IsByte zero = tt
zeros-IsByte (suc n) = (omega arith, zeros-IsByte n)

hash16_of-IsByte : (input : List ℕ) → All IsByte (hash16_of input)
unfolding digest_of
hash16_of-IsByte input =
    let h = digest_from 2166136261 input in
    All-append IsByte (bytes_of_u32 h) (replicate 12 0) (bytes_of_u32-IsByte h) (zeros-IsByte 12)

length-hash16_of : (input : List ℕ) → length (hash16_of input) ≡ 16
unfolding digest_of
length-hash16_of input = refl

take-hash16_of : (input : List ℕ) → take 16 (hash16_of input) ≡ hash16_of input
unfolding digest_of
take-hash16_of input = refl

-- The session of a host that was authenticated.
abbrev pub with_host : UsbSession → UsbSession
with_host s = record s { session = record s.session { authenticated = true } }

authenticate_eq :
    (c : CryptoState) (s : UsbSession) (r expected : List ℕ)
    → crypto_engine_hash16 c (take s.challenge_len s.challenge) ≡ answer expected
    → 16 ≤ length r
    → sec_consttime_memeq (some expected) (some r) 16 ≡ true
    → usb_session_authenticate c s (some r) ≡ answer (with_host s, true)
unfolding usb_session_authenticate check_response
authenticate_eq c s r expected hash long same =
    let a : ltb (length r) 16 ≡ false = ground arith in rw (a, hash, same) refl

authenticate_inv :
    (c : CryptoState) (s s' : UsbSession) (r : List ℕ)
    → usb_session_authenticate c s (some r) ≡ answer (s', true)
    → (16 ≤ length r)
      × ((expected : List ℕ) × (crypto_engine_hash16 c (take s.challenge_len s.challenge)
            ≡ answer expected)
          × (sec_consttime_memeq (some expected) (some r) 16 ≡ true))
unfolding usb_session_authenticate check_response
authenticate_inv c s s' r h = elim (Bool-cases (ltb (length r) 16)) [
  | inl q ↦ absurd (ground arith)
  | inr q ↦
      let long : 16 ≤ length r = ground arith in
      let (expected, hash, rest) =
        bind_inv (crypto_engine_hash16 c (take s.challenge_len s.challenge))
          (λ expected. answer (check_response s r expected)) (rw q at h) in
      let same : sec_consttime_memeq (some expected) (some r) 16 ≡ true =
        ground (arith, answer_same rest) in
      (long, (expected, hash, same))
]

-- A host is authenticated exactly when the secure element is available and the response has at
-- least 16 bytes, of which the first 16 are the first half of the chip's digest of the challenge:
-- the response is bytes, and the challenge is read up to its length.
pub authenticate_iff :
    (c : CryptoState) (s : UsbSession) (r : List ℕ)
    → All IsByte r
    → ((s' : UsbSession) × (usb_session_authenticate c s (some r) ≡ answer (s', true))) ↔ (
        (atecc608a_is_available c.chip ≡ true)
        × (16 ≤ length r)
        × (take 16 r ≡ hash16_of (take s.challenge_len s.challenge)))
authenticate_iff c s r bytes =
    let challenge = take s.challenge_len s.challenge in
    let want = hash16_of challenge in
    let size = length-hash16_of challenge in
    let full = take-hash16_of challenge in
    let compare : 16 ≤ length r
        → ((sec_consttime_memeq (some want) (some r) 16 ≡ true) ↔ (take 16 want ≡ take 16 r)) =
      λ long.
        sec_consttime_memeq_iff 16 want r (hash16_of-IsByte challenge) bytes (omega arith) long in
    (
      λ (s', h).
          let (long, (expected, hash, same)) = authenticate_inv c s s' r h in
          let (here, is) = (hash16_iff c challenge expected).0 hash in
          (here, long, sym ((compare long).0 (rw is at same)) ∙ full),
      λ (here, long, eq). (
        with_host s,
        authenticate_eq c s r want ((hash16_iff c challenge want).1 (here, refl)) long
            ((compare long).1 (full ∙ sym eq)),
      ),
    )

-- Signing of a short payload, with an armed crypto engine.
frame_tag_eq :
    (c : CryptoState) (s : UsbSession) (key payload : List ℕ)
    → IsArmed c key
    → length payload ≤ 16
    → (mac : List ℕ) × (frame_tag c s payload ≡ answer (some mac))
unfolding frame_tag tag_part
frame_tag_eq c s key payload armed short =
    let aad = build_session_aad s.session s.expected_client_counter in
    let ((_, mac), made) = engine_eq c payload aad 32 key armed (omega arith) in (mac, rw made refl)

sign_eq :
    (c : CryptoState) (s : UsbSession) (payload mac : List ℕ) (mac_len : ℕ)
    → s.session.authenticated ≡ true
    → 16 ≤ mac_len
    → length payload ≤ 16
    → frame_tag c s payload ≡ answer (some mac)
    → usb_session_sign_payload c s (some payload) mac_len ≡ answer (some mac)
unfolding usb_session_sign_payload
sign_eq c s payload mac mac_len here room short tag =
    let a : ltb mac_len 16 ≡ false = ground arith in
    let b : ltb 32 (length payload) ≡ false = ground arith in rw (a, b, tag, here) refl

started_challenge :
    (hal : HalReadings) (c : CryptoState) (s : UsbSession) (ch : UsbSessionChallenge)
    → usb_session_start hal c ≡ answer (s, ch)
    → take s.challenge_len s.challenge ≡ ch.challenge
unfolding started
started_challenge hal c s ch h =
    let (hash, _, same) = start_inv hal c (s, ch) h in
    subst (λ o. take o.0.challenge_len o.0.challenge ≡ o.1.challenge) same refl

start_eq :
    (hal : HalReadings) (c : CryptoState) (hash : List ℕ)
    → crypto_engine_hash16 c (challenge_seed hal) ≡ answer hash
    → usb_session_start hal c ≡ answer (started hash)
unfolding usb_session_start
start_eq hal c hash made = rw made refl

-- With an armed crypto engine, a host that knows no secret is always served: `usb_session_start`
-- gives out a challenge, whatever the HAL reads, the host is authenticated if it answers with the
-- first 16 bytes of the challenge's digest, and then each payload of at most 16 bytes is given a
-- tag, and the tag is accepted.
pub start-authenticate-serves :
    (hal : HalReadings) (c : CryptoState) (key payload : List ℕ)
    → IsArmed c key
    → length payload ≤ 16
    → (s : UsbSession) × (ch : UsbSessionChallenge) × (s' : UsbSession) × (mac : List ℕ)
      × (usb_session_start hal c ≡ answer (s, ch))
      × (usb_session_authenticate c s (some (hash16_of ch.challenge)) ≡ answer (s', true))
      × (usb_session_sign_payload c s' (some payload) 16 ≡ answer (some mac))
      × (usb_session_verify_payload c s' (some payload) (some mac) ≡ answer (next_frame s', true))
start-authenticate-serves hal c key payload armed short =
    let (s, ch) = started (hash16_of (challenge_seed hal)) in
    let here : atecc608a_is_available c.chip ≡ true = ground (arith, armed.2) in
    let begun =
      start_eq hal c (hash16_of (challenge_seed hal))
        ((hash16_iff c (challenge_seed hal) (hash16_of (challenge_seed hal))).1 (here, refl)) in
    let asked = started_challenge hal c s ch begun in
    let want = hash16_of ch.challenge in
    let hashed = (hash16_iff c (take s.challenge_len s.challenge) want).1 (here, rw asked refl) in
    let host =
      authenticate_eq c s want want hashed (omega (arith, length-hash16_of ch.challenge))
        (sec_consttime_memeq_refl 16 want) in
    let (mac, tag) = frame_tag_eq c (with_host s) key payload armed short in
    let signed = sign_eq c (with_host s) payload mac 16 refl (omega arith) short tag in
    (
      s,
      ch,
      with_host s,
      mac,
      begun,
      host,
      signed,
      sign_payload-verify_payload c (with_host s) payload 16 mac signed,
    )
