-- ===== src/CommandCodec/Framing.antt =====
-- Tokens of the frames of firmware/src/command_codec.c.
use safe_key_vault.Prelude.{
  ◌≡◌, refl, Bool, true, false, ◌&&◌, ◌||◌, not, [], ◌∷◌, ◌++◌, Text, ◌==◌, All, arith,
}
use safe_key_vault.CommandCodec.{trim_newline, segments}
use safe_key_vault.CommandCodec.Decimal.{IsDigit}

-- No delimiter.
unfoldable pub no_semi : Text → Bool
no_semi [] = true
no_semi (c ∷ s) = not (c == 59) && no_semi s

-- No line break.
unfoldable pub no_break : Text → Bool
no_break [] = true
no_break (c ∷ s) = not (c == 10 || c == 13) && no_break s

pub no_break-append :
    (s t : Text) → no_break s ≡ true → no_break t ≡ true → no_break (s ++ t) ≡ true
unfolding no_break
no_break-append [] t hs ht = ht
no_break-append (c ∷ s) t hs ht = ground (arith, no_break-append s t)

pub no_semi-append : (s t : Text) → no_semi s ≡ true → no_semi t ≡ true → no_semi (s ++ t) ≡ true
unfolding no_semi
no_semi-append [] t hs ht = ht
no_semi-append (c ∷ s) t hs ht = ground (arith, no_semi-append s t)

pub digits-no_break : (s : Text) → All IsDigit s → no_break s ≡ true
unfolding no_break
digits-no_break [] h = refl
digits-no_break (c ∷ s) (hc, hs) = ground (arith, digits-no_break s hs)

pub digits-no_semi : (s : Text) → All IsDigit s → no_semi s ≡ true
unfolding no_semi
digits-no_semi [] h = refl
digits-no_semi (c ∷ s) (hc, hs) = ground (arith, digits-no_semi s hs)

-- A text without line breaks is not trimmed.
pub trim_newline-no_break : (s : Text) → no_break s ≡ true → trim_newline s ≡ s
unfolding trim_newline no_break
trim_newline-no_break [] h = refl
trim_newline-no_break (c ∷ []) h =
    let kept : (c == 10 || c == 13) ≡ false = ground arith in rw kept refl
trim_newline-no_break (c ∷ x ∷ s) h =
    let rest : no_break (x ∷ s) ≡ true = ground arith in
    rw (trim_newline-no_break (x ∷ s) rest) refl

-- A text without delimiters is one segment, at the end and before a delimiter.
pub segments-last : (s : Text) → no_semi s ≡ true → segments s ≡ s ∷ []
unfolding segments no_semi
segments-last [] h = refl
segments-last (c ∷ s) h =
    let other : (c == 59) ≡ false = ground arith in
    let rest : no_semi s ≡ true = ground arith in rw (other, segments-last s rest) refl

pub segments-first : (s t : Text) → no_semi s ≡ true → segments (s ++ (59 ∷ t)) ≡ s ∷ segments t
unfolding segments no_semi
segments-first [] t h = refl
segments-first (c ∷ s) t h =
    let other : (c == 59) ≡ false = ground arith in
    let rest : no_semi s ≡ true = ground arith in rw (other, segments-first s t rest) refl
