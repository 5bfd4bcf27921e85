-- ===== src/UsbSession/Tests.antt =====
-- Runs of firmware/src/usb_session.c at concrete inputs.
use safe_key_vault.Prelude.{
  ℕ, ◌≡◌, refl, arith, true, false, some, List, [], ◌∷◌, codes, replicate, answer, take, All,
}
use safe_key_vault.SecurityUtils.{sec_consttime_memeq, diff_bytes}
use safe_key_vault.SecurityUtils.Equality.{IsByte}
use safe_key_vault.SecureElement.{
  digest_of, xor_from, read_from, atecc608a_is_available, atecc608a_is_ready, atecc608a_read_slot,
  atecc608a_sha256, atecc608a_encrypt_aead,
}
use safe_key_vault.CryptoEngine.{
  CryptoState, crypto_engine_hash16, crypto_engine_encrypt_aead,
  crypto_engine_ready_for_sensitive_ops,
}
use safe_key_vault.CryptoEngine.Tests.{key, provisioned, armed}
use safe_key_vault.UsbSession.{
  HalReadings, UsbSession, UsbSessionChallenge, build_session_aad, usb_session_init, challenge_seed,
  started, usb_session_start, check_response, usb_session_authenticate, tag_part, frame_tag,
  usb_session_sign_payload, next_frame, check_frame, usb_session_verify_payload,
}
use safe_key_vault.UsbSession.Counting.{
  SessionCall, authenticate, verify_payload, session_step, counted, run_session, IsCounted,
  verified_frames-IsCounted,
}
use safe_key_vault.UsbSession.Frames.{sign_payload-verify_payload, long_payload_fails}
use safe_key_vault.UsbSession.Handshake.{
  hash16_of, zeros-IsByte, with_host, authenticate_iff, start-authenticate-serves,
}

abbrev readings : HalReadings
readings = record { uid_w0 = 1; uid_w1 = 2; uid_w2 = 3; tick = 4 }

abbrev payload : List ℕ
payload = codes "hello"

abbrev challenge : List ℕ
challenge = 1 ∷ 14 ∷ 206 ∷ 10 ∷ replicate 12 0

abbrev after_start : UsbSession
after_start = record {
  session = record { authenticated = false; session_id = 1; verified_frames = 0 };
  expected_client_counter = 1;
  challenge = challenge;
  challenge_len = 16;
}

abbrev given : UsbSessionChallenge
given = record { session_id = 1; challenge = challenge; challenge_len = 16 }

abbrev response : List ℕ
response = 86 ∷ 208 ∷ 125 ∷ 28 ∷ replicate 12 0

abbrev authenticated : UsbSession
authenticated = record after_start {
  session = record { authenticated = true; session_id = 1; verified_frames = 0 };
}

abbrev after_frame : UsbSession
after_frame = record authenticated {
  session = record { authenticated = true; session_id = 1; verified_frames = 1 };
  expected_client_counter = 2;
}

abbrev tag : List ℕ
tag = 126 ∷ 148 ∷ 68 ∷ 93 ∷ replicate 12 0

start_run : usb_session_start readings provisioned ≡ answer (after_start, given)
unfolding usb_session_start challenge_seed started crypto_engine_hash16 atecc608a_sha256 digest_of
    atecc608a_is_available
start_run = refl

sign_run : usb_session_sign_payload provisioned authenticated (some payload) 16 ≡ answer (some tag)
unfolding usb_session_sign_payload frame_tag crypto_engine_encrypt_aead
    crypto_engine_ready_for_sensitive_ops build_session_aad tag_part atecc608a_encrypt_aead
    atecc608a_read_slot read_from atecc608a_is_available atecc608a_is_ready digest_of xor_from
sign_run = refl

sign_payload-verify_payload_example :
    usb_session_verify_payload provisioned authenticated (some payload) (some tag)
    ≡ answer (next_frame authenticated, true)
sign_payload-verify_payload_example =
    sign_payload-verify_payload provisioned authenticated payload 16 tag sign_run

available : atecc608a_is_available provisioned.chip ≡ true
unfolding atecc608a_is_available
available = refl

expected : take 16 response ≡ hash16_of (take 16 challenge)
unfolding digest_of
expected = refl

bytes-All : All IsByte response
bytes-All = (omega arith, (omega arith, (omega arith, (omega arith, zeros-IsByte 12))))

authenticate_iff_example :
    (s : UsbSession) × (usb_session_authenticate provisioned after_start (some response)
      ≡ answer (s, true))
authenticate_iff_example =
    (authenticate_iff provisioned after_start response bytes-All).1
      (available, omega arith, expected)

abbrev calls : List (CryptoState × SessionCall)
calls =
    (provisioned, authenticate (some response))
    ∷ (provisioned, verify_payload (some payload) (some tag))
    ∷ (provisioned, verify_payload (some payload) (some tag))
    ∷ []

-- The second copy of the frame is rejected.
calls_run : run_session after_start 0 calls ≡ answer (after_frame, 1)
unfolding run_session session_step counted usb_session_authenticate check_response
    sec_consttime_memeq diff_bytes crypto_engine_hash16 atecc608a_sha256 usb_session_verify_payload
    check_frame next_frame frame_tag crypto_engine_encrypt_aead
    crypto_engine_ready_for_sensitive_ops build_session_aad tag_part atecc608a_encrypt_aead
    atecc608a_read_slot read_from atecc608a_is_available atecc608a_is_ready digest_of xor_from
calls_run = refl

verified_frames-IsCounted_example : IsCounted after_frame 1
verified_frames-IsCounted_example =
    verified_frames-IsCounted readings provisioned after_start after_frame given 1 calls start_run
      calls_run

long_payload_fails_example :
    ((mac_len : ℕ) (mac : List ℕ)
      → ¬ (
          usb_session_sign_payload provisioned authenticated (some (replicate 17 65)) mac_len
          ≡ answer (some mac)))
    × ((mac : List ℕ) (s' : UsbSession)
        → ¬ (
            usb_session_verify_payload provisioned authenticated (some (replicate 17 65)) (some mac)
            ≡ answer (s', true)))
long_payload_fails_example =
    long_payload_fails provisioned authenticated (replicate 17 65) (omega arith)

start-authenticate-serves_example :
    (s : UsbSession) × (ch : UsbSessionChallenge) × (s' : UsbSession) × (mac : List ℕ)
    × (usb_session_start readings provisioned ≡ answer (s, ch))
    × (usb_session_authenticate provisioned s (some (hash16_of ch.challenge)) ≡ answer (s', true))
    × (usb_session_sign_payload provisioned s' (some payload) 16 ≡ answer (some mac))
    × (usb_session_verify_payload provisioned s' (some payload) (some mac)
        ≡ answer (next_frame s', true))
start-authenticate-serves_example =
    start-authenticate-serves readings provisioned key payload armed (omega arith)

-- The first frame of a session that was never started is counted as none: the counter starts at 0.
unstarted_frame : (next_frame usb_session_init).session.verified_frames ≡ 0
unfolding next_frame usb_session_init
unstarted_frame = refl

-- A host is authenticated before there is any challenge, by the digest of no bytes.
unchallenged :
    usb_session_authenticate provisioned usb_session_init (some (hash16_of []))
    ≡ answer (with_host usb_session_init, true)
unfolding usb_session_authenticate usb_session_init check_response sec_consttime_memeq diff_bytes
    crypto_engine_hash16 atecc608a_sha256 atecc608a_is_available digest_of
unchallenged = refl
