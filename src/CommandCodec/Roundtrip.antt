-- ===== src/CommandCodec/Roundtrip.antt =====
-- A command that firmware/src/command_codec.c encodes and decodes.
use safe_key_vault.Prelude.{
  some_same, ℕ, ◌<◌, ◌≤◌, ◌^◌, ◌≡◌, ◌≢◌, refl, ap, subst, ◌∙◌, inl, inr, Bool, true, false, none,
  some, List, [], ◌∷◌, ◌++◌, Text, codes, length, length-append, take_all, strncmp_eq, leb, ◌==◌,
  Option-cases, arith,
}
use safe_key_vault.BrowserProtocol.{
  BrowserCommand, BrowserCommandType, none_type, request_fill, request_save, request_generate,
  request_select_next,
}
use safe_key_vault.CommandCodec.{
  max_frame, parse_type, nonempty, segments, split_key, apply_field, apply_tokens, no_command,
  command_codec_decode_line, command_codec_decode, decimal, type_text, frame, command_codec_encode,
  parse_nonce,
}
use safe_key_vault.CommandCodec.Decimal.{decimal-IsDigit, length-decimal, parse_nonce-decimal}
use safe_key_vault.CommandCodec.Framing.{
  no_semi, no_break, no_break-append, digits-no_break, digits-no_semi, trim_newline-no_break,
  segments-last, segments-first,
}

-- No delimiter and no line break, within the array of n + 1 bytes.
abbrev pub IsField : ℕ → Text → Type 0
IsField n s = (no_semi s ≡ true) × (no_break s ≡ true) × (length s ≤ n)

-- A command whose fields fit their arrays and have no delimiter or line break.
abbrev pub IsFrameable : BrowserCommand → Type 0
IsFrameable cmd =
    (cmd.nonce < 2 ^ 32)
    × IsField 95 cmd.origin
    × IsField 95 cmd.username
    × IsField 127 cmd.password

named :
    (t : BrowserCommandType) (name s : Text)
    → parse_type name ≡ some t
    → IsField 19 name
    → name ≡ s
    → (parse_type s ≡ some t) × IsField 19 s
named t name s known field e = subst (λ r. (parse_type r ≡ some t) × IsField 19 r) e (known, field)

-- The name of a command type is read back; it is short and has no delimiter or line break.
type_text_lem :
    (t : BrowserCommandType) (s : Text)
    → type_text t ≡ some s
    → (parse_type s ≡ some t) × IsField 19 s
unfolding type_text parse_type no_semi no_break strncmp_eq
type_text_lem none_type s h = cc h
type_text_lem request_fill s h =
    named request_fill (codes "REQUEST_FILL") s refl (refl, refl, omega arith) (some_same h)
type_text_lem request_save s h =
    named request_save (codes "REQUEST_SAVE") s refl (refl, refl, omega arith) (some_same h)
type_text_lem request_generate s h =
    named request_generate (codes "REQUEST_GENERATE") s refl (refl, refl, omega arith) (some_same h)
type_text_lem request_select_next s h =
    named request_select_next (codes "REQUEST_SELECT_NEXT") s refl (refl, refl, omega arith)
      (some_same h)

untyped : (t : BrowserCommandType) → type_text t ≡ none → t ≡ none_type
unfolding type_text
untyped none_type h = refl
untyped request_fill h = cc h
untyped request_save h = cc h
untyped request_generate h = cc h
untyped request_select_next h = cc h

abbrev tokens_of : Text → BrowserCommand → List Text
tokens_of s cmd =
    (codes "type=" ++ s)
    ∷ (codes "nonce=" ++ decimal 9 cmd.nonce)
    ∷ (codes "origin=" ++ cmd.origin)
    ∷ (codes "username=" ++ cmd.username)
    ∷ (codes "password=" ++ cmd.password)
    ∷ []

segments-frame :
    (s : Text) (cmd : BrowserCommand)
    → no_semi s ≡ true
    → IsFrameable cmd
    → segments (frame s cmd) ≡ tokens_of s cmd
unfolding frame no_semi
segments-frame s cmd h (n, (o, _, _), (u, _, _), (p, _, _)) =
    segments-first (codes "type=" ++ s) _ h
    ∙ ap (λ r. (codes "type=" ++ s) ∷ r)
        (segments-first (codes "nonce=" ++ decimal 9 cmd.nonce) _
            (digits-no_semi (decimal 9 cmd.nonce) (decimal-IsDigit 9 cmd.nonce))
          ∙ ap (λ r. (codes "nonce=" ++ decimal 9 cmd.nonce) ∷ r)
              (segments-first (codes "origin=" ++ cmd.origin) _ o
                ∙ ap (λ r. (codes "origin=" ++ cmd.origin) ∷ r)
                    (segments-first (codes "username=" ++ cmd.username) _ u
                      ∙ ap (λ r. (codes "username=" ++ cmd.username) ∷ r)
                          (segments-last (codes "password=" ++ cmd.password) p))))

no_break-frame :
    (s : Text) (cmd : BrowserCommand)
    → no_break s ≡ true
    → IsFrameable cmd
    → no_break (frame s cmd) ≡ true
unfolding frame no_break
no_break-frame s cmd h (n, (_, o, _), (_, u, _), (_, p, _)) = no_break-append s _ h (
    no_break-append (decimal 9 cmd.nonce) _
      (digits-no_break (decimal 9 cmd.nonce) (decimal-IsDigit 9 cmd.nonce))
      (no_break-append cmd.origin _ o (no_break-append cmd.username _ u p)))

length-frame :
    (s : Text) (cmd : BrowserCommand)
    → length s ≤ 19
    → IsFrameable cmd
    → (0 < length (frame s cmd)) × (length (frame s cmd) < max_frame)
unfolding frame
length-frame s cmd h (n, (_, _, o), (_, _, u), (_, _, p)) =
    let t3 = cmd.username ++ (59 ∷ (codes "password=" ++ cmd.password)) in
    let t2 = cmd.origin ++ (59 ∷ (codes "username=" ++ t3)) in
    let t1 = decimal 9 cmd.nonce ++ (59 ∷ (codes "origin=" ++ t2)) in
    omega (
      arith,
      h,
      o,
      u,
      p,
      length-decimal 9 cmd.nonce,
      length-append s (59 ∷ (codes "nonce=" ++ t1)),
      length-append (decimal 9 cmd.nonce) (59 ∷ (codes "origin=" ++ t2)),
      length-append cmd.origin (59 ∷ (codes "username=" ++ t3)),
      length-append cmd.username (59 ∷ (codes "password=" ++ cmd.password)),
    )

apply_one :
    (cmd : BrowserCommand) (seen : Bool) (token key value : Text) (tokens : List Text)
    (r : BrowserCommand × Bool)
    → split_key token ≡ some (key, value)
    → apply_field cmd seen key value ≡ some r
    → apply_tokens cmd seen (token ∷ tokens) ≡ apply_tokens r.0 r.1 tokens
unfolding apply_tokens
apply_one cmd seen token key value tokens r a b = rw (apply_tokens, a, b) refl

apply_type :
    (cmd : BrowserCommand) (seen : Bool) (s : Text) (t : BrowserCommandType)
    → parse_type s ≡ some t
    → apply_field cmd seen (codes "type") s ≡ some (record cmd { type = t }, true)
unfolding apply_field strncmp_eq
apply_type cmd seen s t h = rw (apply_field, h) refl

apply_nonce :
    (cmd : BrowserCommand) (seen : Bool) (s : Text) (n : ℕ)
    → parse_nonce s ≡ some n
    → apply_field cmd seen (codes "nonce") s ≡ some (record cmd { nonce = n }, seen)
unfolding apply_field strncmp_eq
apply_nonce cmd seen s n h = rw (apply_field, h) refl

apply_texts :
    (cmd : BrowserCommand) (o u p : Text)
    → length o ≤ 95
    → length u ≤ 95
    → length p ≤ 127
    → apply_tokens cmd true
        ((codes "origin=" ++ o) ∷ (codes "username=" ++ u) ∷ (codes "password=" ++ p) ∷ [])
      ≡ some (record cmd { origin = o; username = u; password = p })
unfolding apply_tokens split_key apply_field strncmp_eq
apply_texts cmd o u p ho hu hp = rw (take_all 95 o ho, take_all 95 u hu, take_all 127 p hp) refl

apply_tokens_lem :
    (s : Text) (cmd : BrowserCommand)
    → parse_type s ≡ some cmd.type
    → IsFrameable cmd
    → apply_tokens no_command false (nonempty (tokens_of s cmd)) ≡ some cmd
unfolding nonempty split_key
apply_tokens_lem s cmd h (n, (_, _, o), (_, _, u), (_, _, p)) =
    apply_one no_command false (codes "type=" ++ s) (codes "type") s _ _ refl
      (apply_type no_command false s cmd.type h)
    ∙ apply_one _ true (codes "nonce=" ++ decimal 9 cmd.nonce) (codes "nonce") (decimal 9 cmd.nonce)
        _ _ refl
        (apply_nonce _ true (decimal 9 cmd.nonce) cmd.nonce (parse_nonce-decimal cmd.nonce n))
    ∙ apply_texts _ cmd.origin cmd.username cmd.password o u p

decode-frame :
    (s : Text) (cmd : BrowserCommand)
    → parse_type s ≡ some cmd.type
    → IsField 19 s
    → IsFrameable cmd
    → command_codec_decode (frame s cmd) ≡ some cmd
unfolding command_codec_decode command_codec_decode_line
decode-frame s cmd h (semi, break, short) ok =
    let (some_text, small) = length-frame s cmd short ok in
    let filled : (length (frame s cmd) == 0) ≡ false = ground arith in
    let fits : leb max_frame (length (frame s cmd)) ≡ false = ground arith in
    rw
      (
        filled,
        fits,
        trim_newline-no_break (frame s cmd) (no_break-frame s cmd break ok),
        segments-frame s cmd semi ok,
      )
      (apply_tokens_lem s cmd h ok)

-- A command of any type but none whose nonce has 32 bits and whose fields fit their arrays and
-- have no ';' and no line break is encoded into every buffer of at least 512 bytes, and decoding
-- the frame gives it back.
pub decode-encode :
    (cmd : BrowserCommand) (out_len : ℕ)
    → cmd.type ≢ none_type
    → IsFrameable cmd
    → max_frame ≤ out_len
    → (text : Text) × (command_codec_encode cmd out_len ≡ some text)
      × (command_codec_decode text ≡ some cmd)
unfolding command_codec_encode
decode-encode cmd out_len typed ok room = elim (Option-cases (type_text cmd.type)) [
  | inl none_at_all ↦ absurd (typed (untyped cmd.type none_at_all))
  | inr (s, named_type) ↦
      let (known, field) = type_text_lem cmd.type s named_type in
      let (_, small) = length-frame s cmd field.2 ok in
      let asked : (out_len == 0) ≡ false = ground arith in
      let fits : leb out_len (length (frame s cmd)) ≡ false = ground arith in
      (frame s cmd, rw (asked, named_type, fits) refl, decode-frame s cmd known field ok)
]
