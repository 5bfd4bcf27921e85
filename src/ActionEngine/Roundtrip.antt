-- ===== src/ActionEngine/Roundtrip.antt =====
-- firmware/src/action_engine.c: a saved credential is the one that is filled.
use safe_key_vault.Prelude.{
  ℕ, zero, suc, strncmp_eq, ◌≡◌, ◌≢◌, arith, ap, sym, ◌∙◌, subst, true, none, some, List, [], ◌∷◌,
  Text, All, take, length-take, strncpy, strncmp_eq_refl, answer,
}
use safe_key_vault.Prelude.Slices.{take-take}
use safe_key_vault.SecurityUtils.Equality.{IsByte}
use safe_key_vault.BrowserProtocol.{request_fill, request_save}
use safe_key_vault.CryptoEngine.Passwords.{crypto_engine_decrypt_password}
use safe_key_vault.CryptoEngine.Roundtrip.{HoldsBytes, encrypt_password-decrypt_password}
use safe_key_vault.Vault.{
  Vault, Credential, same_origin, password_store_find_by_origin, password_store_upsert,
}
use safe_key_vault.Vault.Keys.{IsSized}
use safe_key_vault.Vault.Fresh.{upsert-find_by_origin}
use safe_key_vault.ActionEngine.{ActionEngine, ActionResult}
use safe_key_vault.ActionEngine.Commands.{dispatch}
use safe_key_vault.ActionEngine.Device.{
  device_command, action_engine_device_save_credential, action_engine_device_fill_current,
}
use safe_key_vault.ActionEngine.Filling.{Opens, strncpy_twice}
use safe_key_vault.ActionEngine.Inversion.{device_inv, command_inv, save_inv, fill_inv}
use safe_key_vault.ActionEngine.Held.{hold_save_inv, hold_fill_inv}

-- Bytes other than NUL stay so in a prefix.
All-take {ℓ} : (P : ℕ → Type ℓ) (n : ℕ) (xs : List ℕ) → All P xs → All P (take n xs)
All-take P zero xs h = tt
All-take P (suc n) [] h = tt
All-take P (suc n) (x ∷ xs) (hx, h) = (hx, All-take P n xs h)

-- The origin of the entry that a save stores.
stored_origin : (origin : Text) → strncpy 95 (strncpy 127 (strncpy 95 origin)) ≡ strncpy 95 origin
stored_origin origin = take-take (strncpy 95 origin) 95 127 (omega arith) ∙ strncpy_twice 95 origin

-- The vault in which the fill searches.
found_after :
    (v w : Vault) (entry : Credential) (origin : Text)
    → IsSized v
    → entry.valid ≡ true
    → entry.origin ≡ strncpy 95 origin
    → password_store_find_by_origin v (some (strncpy 95 origin)) ≡ none
    → (password_store_upsert v (some entry)).1 ≡ true
    → w ≡ (password_store_upsert v (some entry)).0
    → password_store_find_by_origin w (some (strncpy 95 origin)) ≡ some entry
found_after v w entry origin size valid same miss done after =
    let hit : same_origin entry (strncpy 95 origin) ≡ true =
      ap (λ t. strncmp_eq 96 t (strncpy 95 origin)) same ∙ strncmp_eq_refl 96 (strncpy 95 origin) in
    ap (λ v. password_store_find_by_origin v (some (strncpy 95 origin))) after
    ∙ upsert-find_by_origin v entry (strncpy 95 origin) size valid hit miss done

-- A credential saved on the device for an origin that has no entry yet, and then filled for that
-- origin: what is typed is the password that was saved, in its first 127 bytes. The vault has 32
-- entries, the chip's key slot holds bytes, and the password holds bytes other than NUL.
pub save_credential-fill_current :
    (e e1 e2 : ActionEngine) (r1 r2 : ActionResult) (origin username password : Text)
    → IsSized e.vault
    → HoldsBytes e.crypto.chip
    → All (λ ch. (ch ≢ 0) × IsByte ch) password
    → password_store_find_by_origin e.vault (some (strncpy 95 origin)) ≡ none
    → action_engine_device_save_credential e origin username password ≡ answer (e1, r1)
    → r1.performed ≡ true
    → action_engine_device_fill_current e1 origin ≡ answer (e2, r2)
    → r2.performed ≡ true
    → r2.typed_password ≡ strncpy 127 password
unfolding action_engine_device_save_credential action_engine_device_fill_current dispatch
save_credential-fill_current e e1 e2 r1 r2 origin username password size bytes chars miss save saved
      fill filled =
    let cmd = device_command request_save origin username password in
    let ask = device_command request_fill origin [] [] in
    let p = strncpy 127 (strncpy 127 password) in
    let (b1, f1, asked1, go1, held1) = device_inv e cmd e1 r1 save saved in
    let (d1, v1, c1, switch1) = command_inv e cmd b1 f1 asked1 go1 in
    let ((valid, origin1, sealed), kind1, bv) = save_inv d1 cmd b1 f1 switch1 go1 in
    let (done, ev, ec) = hold_save_inv b1 e1 r1 kind1 held1 saved in
    let (b2, f2, asked2, go2, held2) = device_inv e1 ask e2 r2 fill filled in
    let (d2, v2, c2, switch2) = command_inv e1 ask b2 f2 asked2 go2 in
    let entry = b1.pending.credential in
    let before = bv ∙ v1 in
    let found =
      found_after b1.vault d2.vault entry origin (subst IsSized (sym before) size) valid
        (origin1 ∙ stored_origin origin)
        (ap (λ v. password_store_find_by_origin v (some (strncpy 95 origin))) before ∙ miss) done
        (v2 ∙ ev) in
    let (kind2, cred2, crypto2) = fill_inv d2 ask entry b2 f2 found switch2 go2 in
    let later = crypto2 ∙ c2 ∙ ec in
    let plain =
      encrypt_password-decrypt_password d1.crypto b1.crypto b2.crypto p entry.password_ciphertext
        192 128
        (All-take (λ ch. (ch ≢ 0) × IsByte ch) 127 (strncpy 127 password)
          (All-take (λ ch. (ch ≢ 0) × IsByte ch) 127 password chars))
        (subst (λ c. HoldsBytes c.chip) (sym c1) bytes)
        (
          ap (λ c. c.initialized) later,
          ap (λ c. c.master_key_provisioned) later,
          ap (λ c. c.chip) later,
        )
        (omega (arith, length-take 127 (strncpy 127 password))) sealed in
    let opened : Opens b2 p =
      ap (λ (q : Credential). crypto_engine_decrypt_password b2.crypto q.password_ciphertext 128)
        cred2
      ∙ plain in
    hold_fill_inv b2 p e2 r2 kind2 opened held2 filled
    ∙ strncpy_twice 127 (strncpy 127 password)
    ∙ strncpy_twice 127 password
