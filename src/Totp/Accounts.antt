-- ===== src/Totp/Accounts.antt =====
-- The account store of firmware/src/totp.c: what adding and deleting do to the accounts in use.
use safe_key_vault.Prelude.{
  ℕ, zero, suc, ◌+◌, ◌-◌, ◌<◌, ◌≤◌, ◌≡◌, refl, sym, ap, ap₂, ◌∙◌, ◌⊎◌, inl, inr, true, false, not,
  ◌&&◌, ◌||◌, some, List, [], ◌∷◌, ◌++◌, Text, length, length-set, get_or, set, take, take_all,
  drop, leb, ltb, ◌==◌, Bool-cases, Option-cases, arith,
}
use safe_key_vault.Prelude.Slices.{
  take-set_last, take-set_past, drop-set_before, take-drop_more, take-take, drop-take, append_assoc,
  append_nil, take-append,
}
use safe_key_vault.Totp.{
  Account, Store, blank, max_accounts, new_account, shift_down, totp_add_account,
  totp_delete_account,
}
use safe_key_vault.Totp.Base32.{Bytes, base32_decode}

-- The first `count` entries.
abbrev pub in_use : Store → List Account
in_use s = take s.count s.accounts

-- An array of ten entries, of which `count` are in use.
abbrev pub IsSound : Store → Type 0
IsSound s = (length s.accounts ≡ max_accounts) × (s.count ≤ max_accounts)

length-shift_down : (n i : ℕ) (xs : List Account) → length (shift_down n i xs) ≡ length xs
unfolding shift_down
length-shift_down zero i xs = refl
length-shift_down (suc n) i xs =
    length-shift_down n (suc i) (set xs i (get_or xs (suc i) blank)) ∙ length-set xs i _

take-shift_down :
    (n i k : ℕ) (xs : List Account)
    → k ≡ i + n
    → k < length xs
    → take k (shift_down n i xs) ≡ take i xs ++ take n (drop (suc i) xs)
unfolding shift_down
take-shift_down zero i k xs e h =
    let same : k ≡ i = omega arith in ap (λ m. take m xs) same ∙ sym (append_nil (take i xs))
take-shift_down (suc n) i k xs e h =
    let v = get_or xs (suc i) blank in
    let ys = set xs i v in
    let later = take-shift_down n (suc i) k ys (omega arith) (omega (arith, length-set xs i v)) in
    later
    ∙ ap₂ (λ l r. l ++ take n r) (take-set_last xs i v (omega arith))
        (drop-set_before xs (suc (suc i)) i v (omega arith))
    ∙ append_assoc (take i xs) (v ∷ []) (take n (drop (suc (suc i)) xs))
    ∙ ap (λ r. take i xs ++ r) (sym (take-drop_more xs n (suc i) blank (omega arith)))

-- The array after the call, for c accounts in use.
deleted :
    (xs : List Account) (c i : ℕ) (a : Account)
    → i < c
    → c ≤ length xs
    → take (c - 1) (set (shift_down (c - 1 - i) i xs) (c - 1) a)
      ≡ take i (take c xs) ++ drop (suc i) (take c xs)
deleted xs c i a lt le =
    take-set_past (shift_down (c - 1 - i) i xs) (c - 1) (c - 1) a (omega arith)
    ∙ take-shift_down (c - 1 - i) i (c - 1) xs (omega arith) (omega arith)
    ∙ ap₂ (λ l r. l ++ r) (sym (take-take xs i c (omega arith)))
        (sym (drop-take xs c (suc i) (c - 1 - i) (omega arith)))

-- In a store whose array has ten entries of which at most ten are in use, deleting an account
-- succeeds exactly for an index of an account in use; it then removes that account and keeps the
-- others in order, and else it changes nothing.
pub totp_delete_account_lem :
    (s : Store) (index : ℕ)
    → IsSound s
    → ((index < s.count)
        × ((totp_delete_account s index).1 ≡ true)
        × (in_use (totp_delete_account s index).0
            ≡ take index (in_use s) ++ drop (suc index) (in_use s)))
      ⊎ ((s.count ≤ index) × (totp_delete_account s index ≡ (s, false)))
unfolding totp_delete_account
totp_delete_account_lem s index (len, few) = elim (Bool-cases (leb s.count index)) [
  | inl past ↦ inr (ground arith, rw past refl)
  | inr here ↦
      let lt : index < s.count = ground arith in
      inl (lt, rw here refl, rw here (deleted s.accounts s.count index blank lt (omega arith)))
]

appended :
    (xs : List Account) (c : ℕ) (a : Account)
    → c < length xs
    → take (c + 1) (set xs c a) ≡ take c xs ++ (a ∷ [])
appended xs c a h =
    let next : c + 1 ≡ suc c = omega arith in
    ap (λ n. take n (set xs c a)) next ∙ take-set_last xs c a h

-- In a store whose array has ten entries, adding an account either changes nothing and returns
-- false, or appends one account to those in use and returns true: it has the label, the number
-- of digits, which is 6 or 8, and as its secret the 1 to 32 bytes that the base-32 text decodes
-- to.
pub totp_add_account_lem :
    (s : Store) (label : Text) (base32_secret : Bytes) (digits : ℕ)
    → length s.accounts ≡ max_accounts
    → (totp_add_account s (some label) (some base32_secret) digits ≡ (s, false))
      ⊎ ((account : Account) × (secret : Bytes) × ((totp_add_account s
              (some label)
              (some base32_secret)
              digits).1
            ≡ true)
          × (in_use (totp_add_account s (some label) (some base32_secret) digits).0
              ≡ in_use s ++ (account ∷ []))
          × (base32_decode base32_secret 32 ≡ some secret)
          × (0 < length secret)
          × (length secret ≤ 32)
          × (take account.secret_len account.secret ≡ secret)
          × (account.label ≡ label)
          × (account.digits ≡ digits)
          × ((digits ≡ 6) ⊎ (digits ≡ 8)))
unfolding totp_add_account
totp_add_account_lem s label base32_secret digits len =
    elim (Bool-cases (leb max_accounts s.count)) [
      | inl full ↦ inl (rw full refl)
      | inr room ↦ elim (Bool-cases (not (digits == 6) && not (digits == 8))) [
        | inl other ↦ inl (rw (room, other) refl)
        | inr known ↦ elim (Bool-cases (leb 64 (length label))) [
          | inl long ↦ inl (rw (room, known, long) refl)
          | inr short ↦ elim (Option-cases (base32_decode base32_secret 32)) [
            | inl bad ↦ inl (rw (room, known, short, bad) refl)
            | inr (secret, good) ↦
                elim (Bool-cases (length secret == 0 || ltb 32 (length secret))) [
                  | inl empty ↦ inl (rw (room, known, short, good, empty) refl)
                  | inr fits ↦
                      let a = new_account (get_or s.accounts s.count blank) secret label digits in
                      let lt : s.count < 10 = ground arith in
                      let some_bytes : 0 < length secret = ground arith in
                      let few_bytes : length secret ≤ 32 = ground arith in
                      let kept : take 63 label ≡ label = take_all 63 label (ground arith) in
                      let either : (digits ≡ 6) ⊎ (digits ≡ 8) = ground arith in
                      inr (
                        a,
                        secret,
                        rw (room, known, short, good, fits) refl,
                        rw (room, known, short, good, fits)
                            (appended s.accounts s.count a (omega arith)),
                        good,
                        some_bytes,
                        few_bytes,
                        take-append secret _,
                        kept,
                        refl,
                        either,
                      )
                ]
          ]
        ]
      ]
    ]
