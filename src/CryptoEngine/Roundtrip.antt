-- ===== src/CryptoEngine/Roundtrip.antt =====
-- firmware/src/crypto_engine.c: which passwords are encrypted, and that they come back.
use safe_key_vault.Prelude.{
  ℕ, zero, suc, ◌+◌, ◌-◌, ◌%◌, ◌<◌, ◌≤◌, ◌≡◌, ◌≢◌, refl, arith, ap, ◌∙◌, true, false, some, List,
  [], ◌∷◌, ◌++◌, Text, take, length, get_or, All, ltb, ◌==◌, answer, ◌>>=◌, Option-cases, bind_inv,
  inl, inr, length-take, replicate, All-append,
}
use safe_key_vault.Prelude.Bits.{bit_xor-lt}
use safe_key_vault.SecurityUtils.Equality.{IsByte}
use safe_key_vault.SecureElement.{
  Atecc, slot_at, xor_from, tag_of, digest_of, digest_from, bytes_of_u32, atecc608a_encrypt_aead,
  atecc608a_decrypt_aead, atecc608a_read_slot, atecc608a_sha256, read_from,
}
use safe_key_vault.SecureElement.Sealing.{
  encrypt_inv, encrypt_aead-decrypt_aead, length-tag_of, length-xor_from,
}
use safe_key_vault.CryptoEngine.{
  CryptoState, slot_master_key, aead_ready, or_zeros, crypto_engine_ready_for_sensitive_ops,
  crypto_engine_hash256, crypto_engine_decrypt_aead,
}
use safe_key_vault.CryptoEngine.Passwords.{
  secret_component, seal_password, next_password_aad, print_password, parse_password, until_nul,
  decrypted_text, crypto_engine_encrypt_password, crypto_engine_decrypt_password,
}
use safe_key_vault.CryptoEngine.Printing.{print_password-parse_password}

abbrev pub HoldsBytes : Atecc → Type 0
HoldsBytes a = All IsByte (slot_at a slot_master_key).contents

-- A state with the same keys: only the counter may have moved on.
abbrev pub SameKeys : CryptoState → CryptoState → Type 0
SameKeys c d =
    (d.initialized ≡ c.initialized)
    × (d.master_key_provisioned ≡ c.master_key_provisioned)
    × (d.chip ≡ c.chip)

All-take : (n : ℕ) (xs : List ℕ) → All IsByte xs → All IsByte (take n xs)
All-take zero xs h = tt
All-take (suc n) [] h = tt
All-take (suc n) (x ∷ xs) (hx, h) = (hx, All-take n xs h)

zeros-IsByte : (n : ℕ) → All IsByte (replicate n 0)
zeros-IsByte zero = tt
zeros-IsByte (suc n) = (omega arith, zeros-IsByte n)

digest-IsByte : (input : List ℕ) → All IsByte (digest_of input)
unfolding digest_of
digest-IsByte input =
    let h = digest_from 2166136261 input in
    All-append IsByte (bytes_of_u32 h) (replicate 28 0)
      (omega arith, (omega arith, (omega arith, (omega arith, tt)))) (zeros-IsByte 28)

get_or-IsByte : (key : List ℕ) (i : ℕ) → All IsByte key → IsByte (get_or key i 0)
get_or-IsByte [] i h = omega arith
get_or-IsByte (x ∷ key) zero (hx, h) = hx
get_or-IsByte (x ∷ key) (suc i) (hx, h) = get_or-IsByte key i h

xor_from-IsByte :
    (i : ℕ) (t key : List ℕ) → All IsByte t → All IsByte key → All IsByte (xor_from i t key)
unfolding xor_from
xor_from-IsByte i [] key h k = tt
xor_from-IsByte i (x ∷ t) key (hx, h) k = (
  bit_xor-lt 8 x (get_or key (i % 32) 0) hx (get_or-IsByte key (i % 32) k),
  xor_from-IsByte (i + 1) t key h k,
)

until_nul-lem : (p : Text) → All (λ ch. ch ≢ 0) p → until_nul p ≡ p
unfolding until_nul
until_nul-lem [] h = refl
until_nul-lem (ch ∷ p) (hc, h) =
    let other : (ch == 0) ≡ false = ground arith in rw (other, until_nul-lem p h) refl

pub digest_cut :
    (c : CryptoState) (input : List ℕ)
    → let aad = take 12 (or_zeros 32 (atecc608a_sha256 c.chip input)) in
      (length aad ≡ 12) × All IsByte aad
unfolding atecc608a_sha256 digest_of
digest_cut c input = elim (Option-cases (atecc608a_sha256 c.chip input)) [
  | inl e ↦ rw e (refl, zeros-IsByte 12)
  | inr (bytes, e) ↦
      let same : bytes ≡ digest_of input = ground arith in
      rw (e, same) (refl, All-take 12 (digest_of input) (digest-IsByte input))
]

pub next_aad_inv :
    (c c' : CryptoState) (aad : List ℕ)
    → next_password_aad c ≡ answer (c', aad)
    → (length aad ≡ 12) × All IsByte aad × SameKeys c c'
unfolding next_password_aad crypto_engine_hash256
next_aad_inv c c' aad h =
    let seed = bytes_of_u32 c.aad_counter ++ secret_component c ++ replicate 20 0 in
    let (size, small) = digest_cut c seed in
    let same : aad ≡ take 12 (or_zeros 32 (atecc608a_sha256 c.chip seed)) = ground arith in
    (rw same size, rw same small, ground arith)

pub seal_inv :
    (c c' : CryptoState) (aad : List ℕ) (p text : Text) (out_len : ℕ)
    → seal_password c aad p out_len ≡ answer (c', some text)
    → (raw : List ℕ) × (tag : List ℕ) × (c' ≡ c)
      × (aead_ready c ≡ true)
      × (atecc608a_encrypt_aead c.chip slot_master_key p aad 64 ≡ some (raw, tag))
      × (print_password aad tag raw out_len ≡ some text)
unfolding seal_password
seal_inv c c' aad p text out_len h =
    elim (Option-cases (atecc608a_encrypt_aead c.chip slot_master_key p aad 64)) [
      | inl e ↦ absurd (ground arith)
      | inr ((raw, tag), e) ↦ (raw, tag, ground arith, ground arith, e, ground arith)
    ]

pub encrypt_password_inv :
    (c c' : CryptoState) (p text : Text) (out_len : ℕ)
    → crypto_engine_encrypt_password c p out_len ≡ answer (c', some text)
    → (aad : List ℕ) × (b : CryptoState) × (c.initialized ≡ true)
      × (0 < length p)
      × (length p ≤ 64)
      × (next_password_aad c ≡ answer (b, aad))
      × (seal_password b aad p out_len ≡ answer (c', some text))
unfolding crypto_engine_encrypt_password crypto_engine_ready_for_sensitive_ops
encrypt_password_inv c c' p text out_len h =
    let ready : c.initialized ≡ true = ground arith in
    let long : 0 < length p = ground arith in
    let short : length p ≤ 64 = ground arith in
    let inner : (next_password_aad c >>= λ r. seal_password r.0 r.1 p out_len)
        ≡ answer (c', some text) =
      ground arith in
    let ((b, aad), drawn, sealed) =
      bind_inv (next_password_aad c) (λ r. seal_password r.0 r.1 p out_len) inner in
    (aad, b, ready, long, short, drawn, sealed)

aead_eq :
    (d : CryptoState) (aad tag raw p : List ℕ) (room : ℕ)
    → d.initialized ≡ true
    → aead_ready d ≡ true
    → length raw ≤ room
    → atecc608a_decrypt_aead d.chip slot_master_key raw aad tag room ≡ some p
    → crypto_engine_decrypt_aead d raw aad tag room ≡ answer (some p)
unfolding crypto_engine_decrypt_aead crypto_engine_ready_for_sensitive_ops
aead_eq d aad tag raw p room ready key fits plain =
    let b : ltb room (length raw) ≡ false = ground arith in rw (ready, b, key, plain) refl

decrypt_eq :
    (d : CryptoState) (text : Text) (space : ℕ) (aad tag raw p : List ℕ)
    → d.initialized ≡ true
    → 1 < space
    → parse_password text ≡ some (aad, tag, raw)
    → crypto_engine_decrypt_aead d raw aad tag (space - 1) ≡ answer (some p)
    → crypto_engine_decrypt_password d text space ≡ answer (decrypted_text (some p))
unfolding crypto_engine_decrypt_password crypto_engine_ready_for_sensitive_ops
decrypt_eq d text space aad tag raw p ready two parsed plain =
    let a : ltb space 2 ≡ false = ground arith in rw (a, ready, parsed, plain) refl

key-IsByte :
    (a : Atecc) (key : List ℕ)
    → HoldsBytes a
    → atecc608a_read_slot a slot_master_key 32 ≡ some key
    → All IsByte key
unfolding atecc608a_read_slot read_from
key-IsByte a key stored h =
    let same : key ≡ take 32 (slot_at a slot_master_key).contents = ground arith in
    rw same (All-take 32 (slot_at a slot_master_key).contents stored)

-- The shape of what `atecc608a_encrypt_aead` gives.
pub sealed_shape :
    (a : Atecc) (p aad : List ℕ) (room : ℕ) (raw tag : List ℕ)
    → All IsByte p
    → HoldsBytes a
    → atecc608a_encrypt_aead a slot_master_key p aad room ≡ some (raw, tag)
    → (length raw ≡ length p) × All IsByte raw × (length tag ≡ 16) × All IsByte tag
sealed_shape a p aad room raw tag small stored h =
    let (key, holds, _, text, seal) = encrypt_inv a slot_master_key p aad room raw tag h in
    let full = tag_of aad raw key in
    (
      ap length text ∙ length-xor_from 0 p key,
      rw text (xor_from-IsByte 0 p key small (key-IsByte a key stored holds.1)),
      ap length seal ∙ length-take 16 full ∙ omega (arith, length-tag_of aad raw key),
      rw seal (All-take 16 full (digest-IsByte (aad ++ raw ++ key))),
    )

pub still_ready :
    (b d : CryptoState)
    → d.chip ≡ b.chip
    → d.master_key_provisioned ≡ b.master_key_provisioned
    → aead_ready b ≡ true
    → aead_ready d ≡ true
still_ready b d e f h = rw (e, f) h

chars-IsByte : (p : Text) → All (λ ch. (ch ≢ 0) × IsByte ch) p → All IsByte p × All (λ ch. ch ≢ 0) p
chars-IsByte [] h = (tt, tt)
chars-IsByte (ch ∷ p) ((nz, small), h) = ((small, (chars-IsByte p h).0), (nz, (chars-IsByte p h).1))

-- A password of bytes other than NUL that `crypto_engine_encrypt_password` encrypts is what
-- `crypto_engine_decrypt_password` gives back for its text, now or later: with the same keys in
-- the chip, and into a buffer with room for it and a NUL.
pub encrypt_password-decrypt_password :
    (c c' d : CryptoState) (p text : Text) (out_len space : ℕ)
    → All (λ ch. (ch ≢ 0) × IsByte ch) p
    → HoldsBytes c.chip
    → SameKeys c' d
    → length p < space
    → crypto_engine_encrypt_password c p out_len ≡ answer (c', some text)
    → crypto_engine_decrypt_password d text space ≡ answer (some p)
unfolding decrypted_text
encrypt_password-decrypt_password c c' d p text out_len space chars stored same fits h =
    let (aad, b, ready, long, short, drawn, sealing) = encrypt_password_inv c c' p text out_len h in
    let (raw, tag, here, key, sealed, printed) = seal_inv b c' aad p text out_len sealing in
    let (aad_size, aad_bytes, keys) = next_aad_inv c b aad drawn in
    let (small, nonzero) = chars-IsByte p chars in
    let same_chip : d.chip ≡ b.chip = same.2 ∙ ap (λ s. s.chip) here in
    let same_key : d.master_key_provisioned ≡ b.master_key_provisioned =
      same.1 ∙ ap (λ s. s.master_key_provisioned) here in
    let init : d.initialized ≡ true = same.0 ∙ ap (λ s. s.initialized) here ∙ keys.0 ∙ ready in
    let bytes : HoldsBytes b.chip = rw keys.2 stored in
    let (size, raw_bytes, tag_size, tag_bytes) =
      sealed_shape b.chip p aad 64 raw tag small bytes sealed in
    let parsed =
      print_password-parse_password aad tag raw out_len text (aad_size, aad_bytes)
        (tag_size, tag_bytes) (omega arith, omega arith, raw_bytes) printed in
    let plain =
      encrypt_aead-decrypt_aead b.chip slot_master_key p aad 64 raw tag (space - 1) sealed
        (omega arith) in
    decrypt_eq d text space aad tag raw p init (omega arith) parsed (
      aead_eq d aad tag raw p (space - 1) init (still_ready b d same_chip same_key key)
        (omega arith) (rw same_chip plain))
    ∙ ap (λ t. answer (some t)) (until_nul-lem p nonzero)
