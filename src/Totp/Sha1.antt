-- ===== src/Totp/Sha1.antt =====
-- The hash of firmware/src/totp.c: `sha1_init`, `sha1_process_block`, `sha1_update`,
-- `sha1_finalize` and `hmac_sha1`. A `uint32_t` is a number that is reduced by `% 2 ^ 32`. The
-- structure on the stack starts with an arbitrary block.
use safe_key_vault.Prelude.{
  ℕ, zero, suc, ◌+◌, ◌-◌, ◌*◌, ◌/◌, ◌%◌, ◌^◌, bit_and, bit_or, bit_xor, List, [], ◌∷◌, ◌++◌, map,
  length, get_or, set, take, replicate, ltb, ◌==◌, if◌then◌else◌,
}

abbrev pub Bytes : Type 0
Bytes = List ℕ

-- `h[5]`, and the working variables a to e.
pub record Words : Type 0 where
  pub h0 : ℕ
  pub h1 : ℕ
  pub h2 : ℕ
  pub h3 : ℕ
  pub h4 : ℕ

-- `sha1_context_t`.
pub record Context : Type 0 where
  pub h : Words
  pub len : ℕ
  pub block : Bytes
  pub block_len : ℕ

unfoldable pub sha1_init : Context → Context
sha1_init ctx = record ctx {
  h = record { h0 = 1732584193; h1 = 4023233417; h2 = 2562383102; h3 = 271733878; h4 = 3285377520 };
  len = 0;
  block_len = 0;
}

abbrev rotl : ℕ → ℕ → ℕ
rotl n x = bit_or (x * 2 ^ n % 2 ^ 32) (x / 2 ^ (32 - n))

-- The first n words of a block, big-endian.
words_of : ℕ → Bytes → List ℕ
words_of (suc n) (b0 ∷ b1 ∷ b2 ∷ b3 ∷ rest) =
    bit_or (bit_or (bit_or (b0 * 2 ^ 24) (b1 * 2 ^ 16)) (b2 * 2 ^ 8)) b3 ∷ words_of n rest
words_of _ _ = []

-- The loop from W[16] on, over the words so far, the newest first.
extend : ℕ → List ℕ → List ℕ
extend zero ws = ws
extend (suc n) ws =
    let x =
      bit_xor (bit_xor (bit_xor (get_or ws 2 0) (get_or ws 7 0)) (get_or ws 13 0))
        (get_or ws 15 0) in
    extend n (rotl 1 x ∷ ws)

reversed : List ℕ → List ℕ → List ℕ
reversed [] done = done
reversed (w ∷ ws) done = reversed ws (w ∷ done)

abbrev bit_not : ℕ → ℕ
bit_not x = 2 ^ 32 - 1 - x

-- What round i adds for b, c and d.
mix : ℕ → ℕ → ℕ → ℕ → ℕ
mix i b c d =
    if ltb i 20
    then bit_or (bit_and b c) (bit_and (bit_not b) d) + 1518500249
    else if ltb i 40
    then bit_xor (bit_xor b c) d + 1859775393
    else if ltb i 60
    then bit_or (bit_or (bit_and b c) (bit_and b d)) (bit_and c d) + 2400959708
    else bit_xor (bit_xor b c) d + 3395469782

-- The main loop over the words from round i on.
rounds : ℕ → List ℕ → Words → Words
unfolding mix
rounds i [] v = v
rounds i (w ∷ ws) v = rounds (i + 1) ws (record {
  h0 = (rotl 5 v.h0 + v.h4 + w + mix i v.h1 v.h2 v.h3) % 2 ^ 32;
  h1 = v.h0;
  h2 = rotl 30 v.h1;
  h3 = v.h2;
  h4 = v.h3;
})

unfoldable pub sha1_process_block : Words → Bytes → Words
unfolding words_of extend reversed rounds
sha1_process_block h block =
    let v = rounds 0 (reversed (extend 64 (reversed (words_of 16 block) [])) []) h in
    record {
      h0 = (h.h0 + v.h0) % 2 ^ 32;
      h1 = (h.h1 + v.h1) % 2 ^ 32;
      h2 = (h.h2 + v.h2) % 2 ^ 32;
      h3 = (h.h3 + v.h3) % 2 ^ 32;
      h4 = (h.h4 + v.h4) % 2 ^ 32;
    }

-- One round of the loop of `sha1_update`.
unfoldable pub absorb : Context → ℕ → Context
absorb ctx x =
    let block = set ctx.block ctx.block_len x in
    if ctx.block_len + 1 == 64
    then record {
      h = sha1_process_block ctx.h block;
      len = ctx.len + 64;
      block = block;
      block_len = 0;
    }
    else record ctx { block = block; block_len = ctx.block_len + 1 }

unfoldable pub sha1_update : Context → Bytes → Context
unfolding absorb
sha1_update ctx [] = ctx
sha1_update ctx (x ∷ input) = sha1_update (absorb ctx x) input

-- The eight bytes of the length in bits, big-endian.
abbrev length_bytes : ℕ → Bytes
length_bytes n =
    n / 2 ^ 56 % 256
    ∷ n / 2 ^ 48 % 256
    ∷ n / 2 ^ 40 % 256
    ∷ n / 2 ^ 32 % 256
    ∷ n / 2 ^ 24 % 256
    ∷ n / 2 ^ 16 % 256
    ∷ n / 2 ^ 8 % 256
    ∷ n % 256
    ∷ []

abbrev bytes_of : ℕ → Bytes
bytes_of w = w / 2 ^ 24 % 256 ∷ w / 2 ^ 16 % 256 ∷ w / 2 ^ 8 % 256 ∷ w % 256 ∷ []

-- The last block: 0x80 at `block_len`, then the length over the last eight bytes.
unfoldable pub padding : ℕ → ℕ → Bytes
padding len block_len =
    take 56 (set (replicate 64 0) block_len 128) ++ length_bytes ((len + block_len) * 8 % 2 ^ 64)

unfoldable pub digest : Words → Bytes
digest h = bytes_of h.h0 ++ bytes_of h.h1 ++ bytes_of h.h2 ++ bytes_of h.h3 ++ bytes_of h.h4

unfoldable pub sha1_finalize : Context → Bytes
sha1_finalize ctx =
    let h = if ltb 64 (ctx.block_len + 1) then sha1_process_block ctx.h ctx.block else ctx.h in
    digest (sha1_process_block h (padding ctx.len ctx.block_len))

-- The context after `sha1_finalize` is zeroed.
abbrev pub zeroed : Context
zeroed = record {
  h = record { h0 = 0; h1 = 0; h2 = 0; h3 = 0; h4 = 0 };
  len = 0;
  block = replicate 64 0;
  block_len = 0;
}

unfoldable pub key_padded : Context → Bytes → Bytes
unfolding sha1_init sha1_update sha1_finalize
key_padded ctx key =
    let short =
      if ltb 64 (length key) then sha1_finalize (sha1_update (sha1_init ctx) key) else key in
    take 64 (short ++ replicate 64 0)

-- `ctx` is what the stack holds before the first `sha1_init`.
unfoldable pub hmac_sha1 : Context → Bytes → Bytes → Bytes
unfolding key_padded sha1_init sha1_update sha1_finalize
hmac_sha1 ctx key data_bytes =
    let padded = key_padded ctx key in
    let ipad = map (λ k. bit_xor k 54) padded in
    let opad = map (λ k. bit_xor k 92) padded in
    let inner_hash = sha1_finalize (sha1_update (sha1_update (sha1_init ctx) ipad) data_bytes) in
    sha1_finalize (sha1_update (sha1_update (sha1_init zeroed) opad) inner_hash)
