-- ===== src/CommandCodec.antt =====
-- firmware/src/command_codec.c: the text frames of the host control channel. The pointers are
-- never NULL here, and a frame is the text before its NUL. `unsigned long` has 32 bits, as on the
-- device, so that `ul_nonce > UINT32_MAX` never holds.
pub mod Framing
pub mod Decimal
pub mod Roundtrip
mod Tests
use safe_key_vault.Prelude.{
  ℕ, zero, suc, ◌+◌, ◌-◌, ◌*◌, ◌/◌, ◌%◌, ◌^◌, Bool, true, false, ◌&&◌, ◌||◌, not, Option, none,
  some, List, [], ◌∷◌, ◌++◌, Text, codes, length, strncpy, strncmp_eq, ltb, leb, ◌==◌,
  if◌then◌else◌,
}
use safe_key_vault.BrowserProtocol.{
  BrowserCommand, BrowserCommandType, none_type, request_fill, request_save, request_generate,
  request_select_next,
}

abbrev pub max_frame : ℕ
max_frame = 512

-- `trim_newline`: the text without the line breaks at its end.
unfoldable pub trim_newline : Text → Text
trim_newline [] = []
trim_newline (c ∷ s) =
    let rest = trim_newline s in
    elim rest [ [] ↦ if c == 10 || c == 13 then [] else c ∷ [] | x ∷ xs ↦ c ∷ x ∷ xs ]

unfoldable pub parse_type : Text → Option BrowserCommandType
parse_type value =
    if strncmp_eq 16 value (codes "REQUEST_FILL")
    then some request_fill
    else if strncmp_eq 16 value (codes "REQUEST_SAVE")
    then some request_save
    else if strncmp_eq 16 value (codes "REQUEST_GENERATE")
    then some request_generate
    else if strncmp_eq 16 value (codes "REQUEST_SELECT_NEXT")
    then some request_select_next
    else none

abbrev pub cons_head : ℕ → List Text → List Text
cons_head c [] = (c ∷ []) ∷ []
cons_head c (t ∷ ts) = (c ∷ t) ∷ ts

-- The text between the delimiters.
unfoldable pub segments : Text → List Text
segments [] = [] ∷ []
segments (c ∷ s) = if c == 59 then [] ∷ segments s else cons_head c (segments s)

-- The tokens that the calls of `strtok` with ";" return: the segments that are not empty.
unfoldable pub nonempty : List Text → List Text
nonempty [] = []
nonempty ([] ∷ ts) = nonempty ts
nonempty ((c ∷ t) ∷ ts) = (c ∷ t) ∷ nonempty ts

-- `strchr(token, '=')`: what stands before and after the first '='.
unfoldable pub split_key : Text → Option (Text × Text)
split_key [] = none
split_key (c ∷ s) =
    let rest = split_key s in
    if c == 61 then some ([], s) else elim rest [ none ↦ none | some kv ↦ some (c ∷ kv.0, kv.1) ]

abbrev pub is_space : ℕ → Bool
is_space c = c == 32 || leb 9 c && leb c 13

abbrev pub is_digit : ℕ → Bool
is_digit c = leb 48 c && leb c 57

unfoldable pub skip_space : Text → Text
skip_space [] = []
skip_space (c ∷ s) = if is_space c then skip_space s else c ∷ s

-- The number that the leading digits add to, and what follows them.
unfoldable pub read_digits : ℕ → Text → ℕ × Text
read_digits n [] = (n, [])
read_digits n (c ∷ s) = if is_digit c then read_digits (n * 10 + (c - 48)) s else (n, c ∷ s)

-- The text behind an optional sign, and whether it is '-'.
unfoldable pub read_sign : Text → Bool × Text
read_sign [] = (false, [])
read_sign (c ∷ s) = if c == 45 then (true, s) else if c == 43 then (false, s) else (false, c ∷ s)

unfoldable pub starts_with_digit : Text → Bool
starts_with_digit [] = false
starts_with_digit (c ∷ s) = is_digit c

unfoldable pub all_read : Text → Bool
all_read [] = true
all_read (c ∷ s) = false

-- `strtoul(value, &endptr, 10)` and the tests behind it: a value out of range is the largest one,
-- and a negative one is negated in 32 bits.
unfoldable pub parse_nonce : Text → Option ℕ
unfolding skip_space read_digits read_sign starts_with_digit all_read
parse_nonce value =
    let signed = read_sign (skip_space value) in
    let read = read_digits 0 signed.1 in
    if not (starts_with_digit signed.1) || not (all_read read.1)
    then none
    else some (
        if leb (2 ^ 32) read.0
        then 2 ^ 32 - 1
        else if signed.0
        then (2 ^ 32 - read.0) % 2 ^ 32
        else read.0)

-- One round of the loop, for a key and a value: `cmd` and `seen_type`.
unfoldable pub apply_field : BrowserCommand → Bool → Text → Text → Option (BrowserCommand × Bool)
apply_field cmd seen key value =
    if strncmp_eq 5 key (codes "type")
    then elim (parse_type value) [ none ↦ none | some t ↦ some (record cmd { type = t }, true) ]
    else if strncmp_eq 6 key (codes "nonce")
    then elim (parse_nonce value) [ none ↦ none | some n ↦ some (record cmd { nonce = n }, seen) ]
    else if strncmp_eq 7 key (codes "origin")
    then some (record cmd { origin = strncpy 95 value }, seen)
    else if strncmp_eq 9 key (codes "username")
    then some (record cmd { username = strncpy 95 value }, seen)
    else if strncmp_eq 9 key (codes "password")
    then some (record cmd { password = strncpy 127 value }, seen)
    else none

unfoldable pub apply_tokens : BrowserCommand → Bool → List Text → Option BrowserCommand
apply_tokens cmd seen [] = if seen then some cmd else none
apply_tokens cmd seen (token ∷ tokens) = elim (split_key token) [
  | none ↦ none
  | some kv ↦ elim (apply_field cmd seen kv.0 kv.1) [
    | none ↦ none
    | some r ↦ apply_tokens r.0 r.1 tokens
  ]
]

abbrev pub no_command : BrowserCommand
no_command = record { type = none_type; nonce = 0; origin = []; username = []; password = [] }

unfoldable pub command_codec_decode_line : Text → Option BrowserCommand
command_codec_decode_line line =
    if leb max_frame (length line)
    then none
    else apply_tokens no_command false (nonempty (segments (trim_newline line)))

-- The bytes of `buf` have no NUL here.
unfoldable pub command_codec_decode : Text → Option BrowserCommand
command_codec_decode buf =
    if length buf == 0 || leb max_frame (length buf) then none else command_codec_decode_line buf

-- `%u` for a number of at most n + 1 digits.
unfoldable pub decimal : ℕ → ℕ → Text
decimal zero n = (48 + n % 10) ∷ []
decimal (suc k) n =
    let high = decimal k (n / 10) in
    if ltb n 10 then (48 + n) ∷ [] else high ++ ((48 + n % 10) ∷ [])

unfoldable pub type_text : BrowserCommandType → Option Text
type_text request_fill = some (codes "REQUEST_FILL")
type_text request_save = some (codes "REQUEST_SAVE")
type_text request_generate = some (codes "REQUEST_GENERATE")
type_text request_select_next = some (codes "REQUEST_SELECT_NEXT")
type_text none_type = none

-- What `snprintf` prints for a command.
unfoldable pub frame : Text → BrowserCommand → Text
frame type_str cmd =
    (codes "type=" ++ type_str)
    ++ (59 ∷ (codes "nonce=" ++ decimal 9 cmd.nonce)
        ++ (59 ∷ (codes "origin=" ++ cmd.origin)
            ++ (59 ∷ (codes "username=" ++ cmd.username)
                ++ (59 ∷ (codes "password=" ++ cmd.password)))))

-- The text in `out_buf`, whose length is `*written`.
unfoldable pub command_codec_encode : BrowserCommand → ℕ → Option Text
command_codec_encode cmd out_len = if out_len == 0 then none else elim (type_text cmd.type) [
  | none ↦ none
  | some type_str ↦
      if leb out_len (length (frame type_str cmd)) then none else some (frame type_str cmd)
]

-- `command_result_t`.
pub record CommandResult : Type 0 where
  pub allowed : Bool
  pub touch_required : Bool
  pub performed : Bool
  pub message : Text

abbrev pub flag : Bool → Text
flag b = if b then codes "1" else codes "0"

unfoldable pub command_codec_encode_result : CommandResult → ℕ → Option Text
command_codec_encode_result r out_len =
    let text =
      codes "allowed="
      ++ flag r.allowed
      ++ codes ";touch_required="
      ++ flag r.touch_required
      ++ codes ";performed="
      ++ flag r.performed
      ++ codes ";message="
      ++ r.message in
    if leb out_len (length text) then none else some text
