-- ===== src/UsbSession.antt =====
-- firmware/src/usb_session.c and firmware/include/usb_session.h, without the descriptors: the
-- session of a host, from the challenge to the frames that carry a tag. A pointer that the code
-- tests for NULL is an `Option`, but for the pointers that results are written through, which are
-- never NULL here. Every function reads the crypto engine, and none changes it.
pub mod Frames
pub mod Counting
pub mod Handshake
mod Tests
use safe_key_vault.Prelude.{
  ℕ, zero, suc, ◌+◌, ◌-◌, ◌%◌, ◌^◌, Bool, true, false, ◌||◌, not, Option, none, some, List, [], ◌∷◌,
  ◌++◌, take, replicate, length, ltb, if◌then◌else◌, Outcome, answer, ◌>>=◌,
}
use safe_key_vault.SecurityUtils.{sec_consttime_memeq}
use safe_key_vault.SecureElement.{bytes_of_u32}
use safe_key_vault.CryptoEngine.{CryptoState, crypto_engine_hash16, crypto_engine_encrypt_aead}

pub record UsbSessionChallenge : Type 0 where
  pub session_id : ℕ
  pub challenge : List ℕ
  pub challenge_len : ℕ

pub record UsbSessionState : Type 0 where
  pub authenticated : Bool
  pub session_id : ℕ
  pub verified_frames : ℕ

-- The globals of the file; `challenge` has 16 bytes.
pub record UsbSession : Type 0 where
  pub session : UsbSessionState
  pub expected_client_counter : ℕ
  pub challenge : List ℕ
  pub challenge_len : ℕ

-- What the HAL answers: the three words of the chip's identifier and the tick.
pub record HalReadings : Type 0 where
  pub uid_w0 : ℕ
  pub uid_w1 : ℕ
  pub uid_w2 : ℕ
  pub tick : ℕ

unfoldable pub build_session_aad : UsbSessionState → ℕ → List ℕ
build_session_aad state counter =
    bytes_of_u32 state.session_id ++ bytes_of_u32 counter ++ replicate 8 0

unfoldable pub usb_session_init : UsbSession
usb_session_init = record {
  session = record { authenticated = false; session_id = 0; verified_frames = 0 };
  expected_client_counter = 0;
  challenge = replicate 16 0;
  challenge_len = 0;
}

unfoldable pub usb_session_end : UsbSession
usb_session_end = record {
  session = record { authenticated = false; session_id = 0; verified_frames = 0 };
  expected_client_counter = 0;
  challenge = replicate 16 0;
  challenge_len = 0;
}

-- The 32 bytes that the challenge is the hash of.
unfoldable pub challenge_seed : HalReadings → List ℕ
challenge_seed hal =
    bytes_of_u32 hal.uid_w0
    ++ bytes_of_u32 hal.uid_w1
    ++ bytes_of_u32 hal.uid_w2
    ++ bytes_of_u32 hal.tick
    ++ replicate 16 0

-- The session that starts with a hash as its challenge: no global keeps what it held before.
unfoldable pub started : List ℕ → UsbSession × UsbSessionChallenge
started hash = (
  record {
    session = record { authenticated = false; session_id = 1; verified_frames = 0 };
    expected_client_counter = 1;
    challenge = hash;
    challenge_len = 16;
  },
  record { session_id = 1; challenge = take 16 hash; challenge_len = 16 },
)

unfoldable pub usb_session_start :
    HalReadings → CryptoState → Outcome (UsbSession × UsbSessionChallenge)
usb_session_start hal c =
    crypto_engine_hash16 c (challenge_seed hal) >>= λ hash. answer (started hash)

-- The end of `usb_session_authenticate`, from the comparison on.
unfoldable pub check_response : UsbSession → List ℕ → List ℕ → UsbSession × Bool
check_response s host_response expected =
    if not (sec_consttime_memeq (some expected) (some host_response) 16)
    then (s, false)
    else (record s { session = record s.session { authenticated = true } }, true)

unfoldable pub usb_session_authenticate :
    CryptoState → UsbSession → Option (List ℕ) → Outcome (UsbSession × Bool)
usb_session_authenticate c s none = answer (s, false)
usb_session_authenticate c s (some host_response) =
    if ltb (length host_response) 16
    then answer (s, false)
    else crypto_engine_hash16 c (take s.challenge_len s.challenge) >>= λ expected.
        answer (check_response s host_response expected)

unfoldable pub usb_session_is_authenticated : UsbSession → Bool
usb_session_is_authenticated s = s.session.authenticated

unfoldable pub usb_session_get_state : UsbSession → UsbSessionState
usb_session_get_state s = s.session

-- The tag, where the encryption succeeds.
unfoldable pub tag_part : Option (List ℕ × List ℕ) → Option (List ℕ)
tag_part none = none
tag_part (some (scratch, tag)) = some tag

-- The tag of a payload under the counter, as signing and verifying compute it.
unfoldable pub frame_tag : CryptoState → UsbSession → List ℕ → Outcome (Option (List ℕ))
frame_tag c s payload =
    let aad = build_session_aad s.session s.expected_client_counter in
    crypto_engine_encrypt_aead c payload aad 32 >>= λ sealed. answer (tag_part sealed)

unfoldable pub usb_session_sign_payload :
    CryptoState → UsbSession → Option (List ℕ) → ℕ → Outcome (Option (List ℕ))
usb_session_sign_payload c s none mac_len = answer none
usb_session_sign_payload c s (some payload) mac_len =
    if not s.session.authenticated || ltb mac_len 16
    then answer none
    else if ltb 32 (length payload)
    then answer none
    else frame_tag c s payload

-- The session after a frame that was verified. The counter has 32 bits.
unfoldable pub next_frame : UsbSession → UsbSession
next_frame s =
    let counter = (s.expected_client_counter + 1) % 2 ^ 32 in
    record s {
      session = record s.session { verified_frames = (counter + (2 ^ 32 - 1)) % 2 ^ 32 };
      expected_client_counter = counter;
    }

-- The end of `usb_session_verify_payload`, from the comparison on.
unfoldable pub check_frame : UsbSession → List ℕ → Option (List ℕ) → UsbSession × Bool
check_frame s mac none = (s, false)
check_frame s mac (some expected_mac) =
    if not (sec_consttime_memeq (some expected_mac) (some mac) 16)
    then (s, false)
    else (next_frame s, true)

unfoldable pub usb_session_verify_payload :
    CryptoState → UsbSession → Option (List ℕ) → Option (List ℕ) → Outcome (UsbSession × Bool)
usb_session_verify_payload c s (some payload) (some mac) =
    if not s.session.authenticated || ltb (length mac) 16
    then answer (s, false)
    else if ltb 32 (length payload)
    then answer (s, false)
    else frame_tag c s payload >>= λ expected_mac. answer (check_frame s mac expected_mac)
usb_session_verify_payload c s _ _ = answer (s, false)
