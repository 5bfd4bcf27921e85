-- ===== src/Lib.antt =====
-- The firmware of the SafeKeyVault password key (firmware/), as definitions and theorems.
--
-- The device keeps credentials behind a five-digit PIN and types them over USB once the user
-- touches it. The modelled parts and their files:
--   * StateMachine: firmware/src/state_machine.c. The context, the settings and the PIN verifier
--     are one record; Pin.antt has state_machine_try_unlock and state_machine_set_pin,
--     Requests.antt the fill and save requests, and Events.antt every call that changes state as
--     an event, with runs of events. The hash of the secure element is a parameter.
--   * BrowserProtocol: firmware/src/browser_protocol.c, which validates what the host sends. The
--     state machine's requests call it.
--   * PasswordPolicy: firmware/src/password_policy.c and common_passwords.c, called by the save
--     request.
--   * SecurityUtils: firmware/src/security_utils.c, called wherever hashes are compared.
--   * Vault: firmware/src/vault.c, the array of at most 32 credentials.
--   * RateLimiter: firmware/src/rate_limiter.c, at most 16 origins.
--   * StorageBackend: firmware/src/storage_backend.c, two flash slots at the level of bytes;
--     Calls.antt has the calls of the header. The HAL is outside the repository: the results of
--     its calls, and what a failed one leaves in a sector, are arguments. So are the stack bytes
--     that the C code does not initialise.
--   * Totp: firmware/src/totp.c, the account store, base 32 (Base32.antt, with its table
--     against RFC 4648 in Alphabet.antt), SHA-1 and HMAC (Sha1.antt) and the codes (Code.antt).
--   * PasswordGenerator: firmware/src/password_generator.c.
--   * CommandCodec: firmware/src/command_codec.c, the text frames that carry the commands which
--     BrowserProtocol validates.
--   * SecureElement: firmware/src/atecc608a_driver.c, the driver with the chip that it simulates.
--   * CryptoEngine: firmware/src/crypto_engine.c over that driver; Hex.antt has its hexadecimal
--     helpers and Passwords.antt the text of an encrypted password. Error_Handler never returns:
--     a call that comes to it has the outcome `halted` (Prelude/Outcomes.antt).
--   * ActionEngine: firmware/src/action_engine.c, which joins the parts: Commands.antt handles a
--     command, Confirm.antt a touch and the PIN, Device.antt the device's own actions and
--     settings, and Calls.antt has every call as a step, with runs of calls. One record holds the
--     vault, the device, the globals and the state of the crypto engine.
--   * UsbSession: firmware/src/usb_session.c, over the crypto engine. What the HAL reads is an
--     argument. Frames.antt is about the tags of payloads, Counting.antt has the calls of a
--     session as steps, and Handshake.antt is about the authentication of a host.
--   * SettingsStore: firmware/src/settings_store.c, over the crypto engine and the storage backend:
--     Records.antt saves and loads, Lifecycle.antt has the start, the reset, the wipe and the
--     debug calls, and Calls.antt runs of the calls; Blobs.antt is about the structures in memory,
--     Saving.antt about what is saved and loaded, and Wiping.antt about the wipe. What the
--     repository does not declare is an argument.
--   * FirmwareTypes: firmware/include/firmware_types.h.
-- Prelude has the arrays, the C string functions and the laws of the bit operations they share.
--
-- Numbers are natural numbers; unsigned arithmetic is reduced modulo 2^32 where the source can
-- wrap. A char array is the text before its NUL, and strncpy cuts it. Every loop is structural
-- recursion over its array or its count, so that no fuel is needed. A NULL pointer is `none`
-- where a caller can pass one.
--
-- Not modelled: the FIDO2 authenticator, saving and loading the one-time-code store, and the
-- wrappers of crypto_stub.c, which build on the parts above; the USB mass storage and the secure
-- boot; and the HAL, the USB descriptors and the main loop, which are I/O.
pub mod SecureElement
pub mod CryptoEngine
pub mod ActionEngine
pub mod Prelude
pub mod SecurityUtils
pub mod FirmwareTypes
pub mod PasswordPolicy
pub mod BrowserProtocol
pub mod StateMachine
pub mod Vault
pub mod RateLimiter
pub mod StorageBackend
pub mod Totp
pub mod UsbSession
pub mod SettingsStore
pub mod PasswordGenerator
pub mod CommandCodec
