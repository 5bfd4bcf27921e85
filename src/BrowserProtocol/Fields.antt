-- ===== src/BrowserProtocol/Fields.antt =====
-- The tests of one field in firmware/src/browser_protocol.c, as statements about its bytes.
use safe_key_vault.Prelude.{
  ℕ, zero, suc, ◌≤◌, ◌<◌, true, false, some, [], ◌∷◌, Text, codes, length, min, strncmp_eq, strstr,
  ◌≡◌, ◌≢◌, ◌↔◌, ◌⊎◌, inl, inr, refl, arith, All, Bool-cases,
}
use safe_key_vault.Prelude.Substrings.{HasPrefix, HasSub, strncmp_prefix_iff, strstr_iff}
use safe_key_vault.BrowserProtocol.{
  bounded_strlen, has_scheme, is_https, all_safe, is_safe_ascii_text, has_url_like_value,
  has_non_ascii, browser_origin_is_suspicious,
}

-- No control character and not DEL.
abbrev pub IsPrintable : ℕ → Type 0
IsPrintable c = (32 ≤ c) × (c ≢ 127)

abbrev pub IsAscii : ℕ → Type 0
IsAscii c = c ≤ 127

abbrev pub IsUrlLike : Text → Type 0
IsUrlLike s = HasSub (codes "://") s ⊎ HasPrefix (codes "www.") s ⊎ HasSub (codes "javascript:") s

-- An https origin of ASCII bytes with no `@`.
pub record IsSafeOrigin (origin : Text) : Type 0 where
  pub https : HasPrefix (codes "https://") origin
  pub ascii : All IsAscii origin
  pub no_at : ¬ HasSub (codes "@") origin

pub bounded_strlen-eq-min : (s : Text) (n : ℕ) → bounded_strlen s n ≡ min (length s) n
bounded_strlen-eq-min [] n = omega arith
bounded_strlen-eq-min (c ∷ s) zero = omega arith
bounded_strlen-eq-min (c ∷ s) (suc n) = omega (arith, bounded_strlen-eq-min s n)

all_safe_iff : (n : ℕ) (s : Text) → length s ≤ n → (all_safe n s ≡ true) ↔ All IsPrintable s
unfolding all_safe
all_safe_iff zero [] h = (λ _. tt, λ _. refl)
all_safe_iff zero (c ∷ s) h = absurd (omega arith)
all_safe_iff (suc n) [] h = (λ _. tt, λ _. refl)
all_safe_iff (suc n) (c ∷ s) h =
    let (there, back) = all_safe_iff n s (omega arith) in
    (λ e. (ground arith, there (ground arith)), λ p. ground (arith, back p.1))

pub is_safe_ascii_text_iff :
    (s : Text) (size : ℕ) → length s < size → (is_safe_ascii_text s size ≡ true) ↔ All IsPrintable s
unfolding is_safe_ascii_text
is_safe_ascii_text_iff s size h =
    all_safe_iff (bounded_strlen s size) s (omega (arith, bounded_strlen-eq-min s size))

not_url_nil : ¬ IsUrlLike []
unfolding strstr
not_url_nil (inl sub) = cc ((strstr_iff [] (codes "://")).1 sub)
not_url_nil (inr (inl (rest, e))) = cc e
not_url_nil (inr (inr sub)) = cc ((strstr_iff [] (codes "javascript:")).1 sub)

pub has_url_like_value_iff : (s : Text) → (has_url_like_value s ≡ true) ↔ IsUrlLike s
unfolding has_url_like_value
has_url_like_value_iff [] = (λ h. ground arith, λ h. absurd (not_url_nil h))
has_url_like_value_iff (c ∷ s) = (
  λ h. elim (Bool-cases (strstr (c ∷ s) (codes "://"))) [
    | inl url ↦ inl ((strstr_iff (c ∷ s) (codes "://")).0 url)
    | inr no_url ↦ elim (Bool-cases (strncmp_eq 4 (c ∷ s) (codes "www."))) [
      | inl www ↦ inr (inl ((strncmp_prefix_iff (codes "www.") (c ∷ s)).0 www))
      | inr no_www ↦ inr (inr ((strstr_iff (c ∷ s) (codes "javascript:")).0 (ground arith)))
    ]
  ],
  elim [
    | inl sub ↦ ground (arith, (strstr_iff (c ∷ s) (codes "://")).1 sub)
    | inr (inl pre) ↦ ground (arith, (strncmp_prefix_iff (codes "www.") (c ∷ s)).1 pre)
    | inr (inr sub) ↦ ground (arith, (strstr_iff (c ∷ s) (codes "javascript:")).1 sub)
  ],
)

has_non_ascii_iff : (s : Text) → (has_non_ascii s ≡ false) ↔ All IsAscii s
unfolding has_non_ascii
has_non_ascii_iff [] = (λ _. tt, λ _. refl)
has_non_ascii_iff (c ∷ s) =
    let (there, back) = has_non_ascii_iff s in
    (λ e. (ground arith, there (ground arith)), λ p. ground (arith, back p.1))

https-has_scheme : (s : Text) → HasPrefix (codes "https://") s → has_scheme s ≡ true
unfolding has_scheme
https-has_scheme s (rest, e) = (strstr_iff s (codes "://")).1 (codes "https", rest, e)

is_https_iff : (s : Text) → (is_https s ≡ true) ↔ HasPrefix (codes "https://") s
unfolding is_https
is_https_iff s = strncmp_prefix_iff (codes "https://") s

not_strstr : (s p : Text) → ¬ HasSub p s → strstr s p ≡ false
not_strstr s p h = elim (Bool-cases (strstr s p)) [
  | inl found ↦ absurd (h ((strstr_iff s p).0 found))
  | inr e ↦ e
]

pub suspicious_iff : (s : Text) → (browser_origin_is_suspicious (some s) ≡ false) ↔ IsSafeOrigin s
unfolding browser_origin_is_suspicious
suspicious_iff [] = (λ h. ground arith, λ safe. cc safe.https.1)
suspicious_iff (c ∷ s) = (
  λ h. record {
    https = (is_https_iff (c ∷ s)).0 (ground arith);
    ascii = (has_non_ascii_iff (c ∷ s)).0 (ground arith);
    no_at = λ sub. ground (arith, (strstr_iff (c ∷ s) (codes "@")).1 sub);
  },
  λ safe. ground (
    arith,
    https-has_scheme (c ∷ s) safe.https,
    (is_https_iff (c ∷ s)).1 safe.https,
    (has_non_ascii_iff (c ∷ s)).1 safe.ascii,
    not_strstr (c ∷ s) (codes "@") safe.no_at,
  ),
)

pub not_url_like : (s : Text) → ¬ IsUrlLike s → has_url_like_value s ≡ false
not_url_like s h = elim (Bool-cases (has_url_like_value s)) [
  | inl url ↦ absurd (h ((has_url_like_value_iff s).0 url))
  | inr e ↦ e
]

pub safe-not_empty : (o : Text) → IsSafeOrigin o → o ≢ []
safe-not_empty [] safe = cc safe.https.1
safe-not_empty (c ∷ o) safe = λ e. cc
