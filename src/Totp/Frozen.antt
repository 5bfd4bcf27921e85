-- ===== src/Totp/Frozen.antt =====
-- What `hmac_sha1` and the codes of firmware/src/totp.c depend on.
use safe_key_vault.Prelude.{
  ℕ, suc, ◌+◌, ◌%◌, ◌<◌, ◌≡◌, refl, sym, ap, ap₂, ◌∙◌, inl, inr, false, [], ◌∷◌, ◌++◌, map, bit_xor,
  length, take, replicate, ltb, ◌==◌, if◌then◌else◌, Bool-cases, arith, length-append,
  length-replicate, length-take,
}
use safe_key_vault.Totp.{Account}
use safe_key_vault.Totp.Sha1.{
  Bytes, Context, Words, sha1_init, absorb, sha1_update, sha1_finalize, padding, digest, key_padded,
  hmac_sha1, zeroed, sha1_process_block,
}
use safe_key_vault.Totp.Code.{counter_bytes, totp_generate_code_internal, totp_get_code}

absorb-block_len :
    (ctx : Context) (x : ℕ)
    → ctx.block_len < 64
    → (absorb ctx x).block_len ≡ (ctx.block_len + 1) % 64
unfolding absorb
absorb-block_len ctx x h = elim (Bool-cases (ctx.block_len + 1 == 64)) [
  | inl full ↦ let e : ctx.block_len + 1 ≡ 64 = ground arith in rw full (omega arith)
  | inr room ↦ let ne : ctx.block_len + 1 < 64 = ground arith in rw room (omega arith)
]

-- The index into the 64 bytes of the block stays in range, whatever the input and its length.
pub sha1_update-block_len :
    (ctx : Context) (input : Bytes)
    → ctx.block_len < 64
    → (sha1_update ctx input).block_len ≡ (ctx.block_len + length input) % 64
unfolding sha1_update
sha1_update-block_len ctx [] h = omega arith
sha1_update-block_len ctx (x ∷ input) h = omega (
  arith,
  absorb-block_len ctx x h,
  sha1_update-block_len (absorb ctx x) input (omega (arith, absorb-block_len ctx x h)),
)

-- Two contexts that differ at most in the bytes of the block.
abbrev SameHash : Context → Context → Type 0
SameHash c d = (c.h ≡ d.h) × (c.len ≡ d.len)

absorb-short :
    (ctx : Context) (x : ℕ)
    → ctx.block_len + 1 < 64
    → SameHash (absorb ctx x) ctx × ((absorb ctx x).block_len ≡ ctx.block_len + 1)
unfolding absorb
absorb-short ctx x h =
    let open_block : (ctx.block_len + 1 == 64) ≡ false = ground arith in
    rw open_block ((refl, refl), refl)

update-short :
    (ctx : Context) (input : Bytes)
    → ctx.block_len + length input < 64
    → SameHash (sha1_update ctx input) ctx
      × ((sha1_update ctx input).block_len ≡ ctx.block_len + length input)
unfolding sha1_update
update-short ctx [] h = ((refl, refl), omega arith)
update-short ctx (x ∷ input) h =
    let ((eh, el), eb) = absorb-short ctx x (omega arith) in
    let ((fh, fl), fb) = update-short (absorb ctx x) input (omega (arith, eb)) in
    ((fh ∙ eh, fl ∙ el), omega (arith, eb, fb))

-- The last block and the digest.
finish : Words → ℕ → ℕ → Bytes
finish h len n = digest (sha1_process_block h (padding len n))

finalize_short : (c : Context) → c.block_len < 64 → sha1_finalize c ≡ finish c.h c.len c.block_len
unfolding sha1_finalize finish
finalize_short c h = let short : ltb 64 (c.block_len + 1) ≡ false = ground arith in rw short refl

finalize-eq :
    (c d : Context)
    → SameHash c d
    → c.block_len ≡ d.block_len
    → c.block_len < 64
    → sha1_finalize c ≡ sha1_finalize d
finalize-eq c d (eh, el) eb h =
    finalize_short c h
    ∙ ap₂ (λ w l. finish w l c.block_len) eh el
    ∙ ap (finish d.h d.len) eb
    ∙ sym (finalize_short d (omega (arith, eb)))

length-sha1_finalize : (c : Context) → length (sha1_finalize c) ≡ 20
unfolding sha1_finalize digest
length-sha1_finalize c = refl

length-map : (f : ℕ → ℕ) (xs : Bytes) → length (map f xs) ≡ length xs
length-map f [] = refl
length-map f (x ∷ xs) = ap suc (length-map f xs)

length-key_padded : (ctx : Context) (key : Bytes) → length (key_padded ctx key) ≡ 64
unfolding key_padded
length-key_padded ctx key =
    let short =
      if ltb 64 (length key) then sha1_finalize (sha1_update (sha1_init ctx) key) else key in
    omega (
      arith,
      length-take 64 (short ++ replicate 64 0),
      length-append short (replicate 64 0),
      length-replicate {A = ℕ} 64 0,
    )

-- Both contexts are a whole number of blocks long before the second update.
after_pad-block_len :
    (ctx : Context) (pad : Bytes)
    → length pad ≡ 64
    → (sha1_update (sha1_init ctx) pad).block_len ≡ 0
unfolding sha1_init
after_pad-block_len ctx pad e =
    omega (arith, sha1_update-block_len (sha1_init ctx) pad (omega arith))

-- From a whole number of blocks on, inputs of the same length below 64 are not told apart.
update-finalize_blind :
    (ctx : Context) (x y : Bytes)
    → ctx.block_len ≡ 0
    → length x < 64
    → length y ≡ length x
    → sha1_finalize (sha1_update ctx x) ≡ sha1_finalize (sha1_update ctx y)
update-finalize_blind ctx x y e h same =
    let ((xh, xl), xb) = update-short ctx x (omega arith) in
    let ((yh, yl), yb) = update-short ctx y (omega arith) in
    finalize-eq (sha1_update ctx x) (sha1_update ctx y) (xh ∙ sym yh, xl ∙ sym yl)
      (omega (arith, xb, yb)) (omega (arith, xb))

-- The keyed hash does not depend on the data at all: any two messages have the same hash under a
-- key.
pub hmac_sha1_blind : (ctx : Context) (key x y : Bytes) → hmac_sha1 ctx key x ≡ hmac_sha1 ctx key y
unfolding hmac_sha1
hmac_sha1_blind ctx key x y =
    let opad = map (λ k. bit_xor k 92) (key_padded ctx key) in
    let inner : Context =
      sha1_update (sha1_init ctx) (map (λ k. bit_xor k 54) (key_padded ctx key)) in
    let hash : Bytes → Bytes = λ d. sha1_finalize (sha1_update inner d) in
    update-finalize_blind (sha1_update (sha1_init zeroed) opad) (hash x) (hash y)
      (after_pad-block_len zeroed opad
        (length-map (λ k. bit_xor k 92) (key_padded ctx key) ∙ length-key_padded ctx key))
      (omega (arith, length-sha1_finalize (sha1_update inner x)))
      (length-sha1_finalize (sha1_update inner y)
        ∙ sym (length-sha1_finalize (sha1_update inner x)))

-- The code of an account is the same at any two times, for every buffer length and whatever the
-- stack holds.
pub totp_get_code_frozen :
    (ctx : Context) (account : Account) (time1 time2 out_len : ℕ)
    → totp_get_code ctx account time1 out_len ≡ totp_get_code ctx account time2 out_len
unfolding totp_get_code totp_generate_code_internal
totp_get_code_frozen ctx account time1 time2 out_len =
    let secret = take account.secret_len account.secret in
    rw (hmac_sha1_blind ctx secret (counter_bytes time1) (counter_bytes time2)) refl
