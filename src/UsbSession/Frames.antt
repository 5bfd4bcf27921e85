-- ===== src/UsbSession/Frames.antt =====
-- firmware/src/usb_session.c: what is signed is verified, and which payloads can be signed.
use safe_key_vault.Prelude.{
  ℕ, ◌<◌, ◌≤◌, ◌≡◌, inl, inr, refl, arith, ap, sym, ◌∙◌, true, false, some, none, Option, List,
  length, ltb, length-take, answer, ◌>>=◌, bind_inv, answer_same, some_same, Option-cases,
  Bool-cases,
}
use safe_key_vault.SecurityUtils.{sec_consttime_memeq}
use safe_key_vault.SecurityUtils.Equality.{sec_consttime_memeq_refl}
use safe_key_vault.SecureElement.{tag_of}
use safe_key_vault.SecureElement.Sealing.{encrypt_inv, length-tag_of}
use safe_key_vault.CryptoEngine.{CryptoState, slot_master_key, crypto_engine_encrypt_aead}
use safe_key_vault.CryptoEngine.Aead.{engine_inv}
use safe_key_vault.UsbSession.{
  UsbSession, build_session_aad, tag_part, frame_tag, usb_session_sign_payload, next_frame,
  check_frame, usb_session_verify_payload,
}

-- The tag of an encryption is that of the chip's.
tag_part_inv :
    (sealed : Option (List ℕ × List ℕ)) (mac : List ℕ)
    → tag_part sealed ≡ some mac
    → (scratch : List ℕ) × (sealed ≡ some (scratch, mac))
unfolding tag_part
tag_part_inv none mac h = absurd (ground arith)
tag_part_inv (some (scratch, tag)) mac h = (scratch, ap (λ t. some (scratch, t)) (some_same h))

-- A tag has 16 bytes, and its payload 16 at most.
pub frame_tag_inv :
    (c : CryptoState) (s : UsbSession) (payload mac : List ℕ)
    → frame_tag c s payload ≡ answer (some mac)
    → (length mac ≡ 16) × (length payload ≤ 16)
unfolding frame_tag
frame_tag_inv c s payload mac h =
    let aad = build_session_aad s.session s.expected_client_counter in
    let (sealed, made, part) =
      bind_inv (crypto_engine_encrypt_aead c payload aad 32) (λ r. answer (tag_part r)) h in
    let (scratch, whole) = tag_part_inv sealed mac (answer_same part) in
    let (_, _, chip) = engine_inv c payload aad 32 (scratch, mac) (made ∙ ap answer whole) in
    let (key, _, fits, _, tag) =
      encrypt_inv c.chip slot_master_key payload aad 32 scratch mac chip in
    let size = length-take 16 (tag_of aad scratch key) in
    let full = length-tag_of aad scratch key in
    (ap length tag ∙ size ∙ omega (arith, full), omega arith)

-- What a call of `usb_session_sign_payload` that gives a tag was given.
pub sign_inv :
    (c : CryptoState) (s : UsbSession) (payload : List ℕ) (mac_len : ℕ) (mac : List ℕ)
    → usb_session_sign_payload c s (some payload) mac_len ≡ answer (some mac)
    → (s.session.authenticated ≡ true)
      × (16 ≤ mac_len)
      × (length payload ≤ 32)
      × (frame_tag c s payload ≡ answer (some mac))
unfolding usb_session_sign_payload
sign_inv c s payload mac_len mac h = (ground arith, ground arith, ground arith, ground arith)

verify_eq :
    (c : CryptoState) (s : UsbSession) (payload mac : List ℕ)
    → s.session.authenticated ≡ true
    → length payload ≤ 32
    → length mac ≡ 16
    → frame_tag c s payload ≡ answer (some mac)
    → usb_session_verify_payload c s (some payload) (some mac) ≡ answer (next_frame s, true)
unfolding usb_session_verify_payload check_frame
verify_eq c s payload mac here short size tag =
    let a : ltb (length mac) 16 ≡ false = ground arith in
    let b : ltb 32 (length payload) ≡ false = ground arith in
    rw (a, b, tag, sec_consttime_memeq_refl 16 mac, here) refl

-- A tag that `usb_session_sign_payload` gives is accepted by `usb_session_verify_payload` in the
-- same state of the session and of the crypto engine, for the same payload; the counter and the
-- number of verified frames then move on as `next_frame` says.
pub sign_payload-verify_payload :
    (c : CryptoState) (s : UsbSession) (payload : List ℕ) (mac_len : ℕ) (mac : List ℕ)
    → usb_session_sign_payload c s (some payload) mac_len ≡ answer (some mac)
    → usb_session_verify_payload c s (some payload) (some mac) ≡ answer (next_frame s, true)
sign_payload-verify_payload c s payload mac_len mac h =
    let (here, _, short, tag) = sign_inv c s payload mac_len mac h in
    verify_eq c s payload mac here short (frame_tag_inv c s payload mac tag).0 tag

check_frame_inv :
    (s s' : UsbSession) (mac expected : List ℕ)
    → check_frame s mac (some expected) ≡ (s', true)
    → (sec_consttime_memeq (some expected) (some mac) 16 ≡ true) × (s' ≡ next_frame s)
unfolding check_frame
check_frame_inv s s' mac expected h =
    elim (Bool-cases (sec_consttime_memeq (some expected) (some mac) 16)) [
      | inl e ↦ (e, sym (ap (λ r. r.0) (rw e at h)))
      | inr e ↦ absurd (ground arith)
    ]

check_frame-none : (s s' : UsbSession) (mac : List ℕ) → ¬ (check_frame s mac none ≡ (s', true))
unfolding check_frame
check_frame-none s s' mac h = ground arith

-- What a call of `usb_session_verify_payload` that accepts was given.
pub verify_inv :
    (c : CryptoState) (s s' : UsbSession) (payload mac : List ℕ)
    → usb_session_verify_payload c s (some payload) (some mac) ≡ answer (s', true)
    → (s.session.authenticated ≡ true)
      × (16 ≤ length mac)
      × ((expected : List ℕ) × (frame_tag c s payload ≡ answer (some expected))
          × (sec_consttime_memeq (some expected) (some mac) 16 ≡ true)
          × (s' ≡ next_frame s))
unfolding usb_session_verify_payload check_frame
verify_inv c s s' payload mac h =
    let a : s.session.authenticated ≡ true = ground arith in
    let b : 16 ≤ length mac = ground arith in
    let d : (frame_tag c s payload >>= λ e. answer (check_frame s mac e)) ≡ answer (s', true) =
      ground arith in
    let (tag, made, checked) =
      bind_inv (frame_tag c s payload) (λ e. answer (check_frame s mac e)) d in
    let pair = answer_same checked in
    (
      a,
      b,
      elim (Option-cases tag) [
        | inl e ↦ absurd (check_frame-none s s' mac (rw e at pair))
        | inr (expected, e) ↦
            let (same, next) = check_frame_inv s s' mac expected (rw e at pair) in
            (expected, made ∙ ap answer e, same, next)
      ],
    )

-- No payload of more than 16 bytes gets through, though both functions admit up to 32:
-- `usb_session_sign_payload` gives no tag for it, and `usb_session_verify_payload` accepts none,
-- whatever the state and the tag. The encryption behind them wants 16 bytes of the scratch
-- buffer for itself.
pub long_payload_fails :
    (c : CryptoState) (s : UsbSession) (payload : List ℕ)
    → 16 < length payload
    → ((mac_len : ℕ) (mac : List ℕ)
        → ¬ (usb_session_sign_payload c s (some payload) mac_len ≡ answer (some mac)))
      × ((mac : List ℕ) (s' : UsbSession)
          → ¬ (usb_session_verify_payload c s (some payload) (some mac) ≡ answer (s', true)))
long_payload_fails c s payload long = (
  λ mac_len mac h.
      let (_, _, _, tag) = sign_inv c s payload mac_len mac h in
      let short = (frame_tag_inv c s payload mac tag).1 in omega arith,
  λ mac s' h.
      let (_, _, (expected, tag, _, _)) = verify_inv c s s' payload mac h in
      let short = (frame_tag_inv c s payload expected tag).1 in omega arith,
)
