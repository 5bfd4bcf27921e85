-- ===== src/CommandCodec/Tests.antt =====
-- Runs of firmware/src/command_codec.c.
use safe_key_vault.Prelude.{◌≡◌, refl, some, Text, codes, arith, strncmp_eq}
use safe_key_vault.BrowserProtocol.{BrowserCommand, request_fill, request_select_next}
use safe_key_vault.CommandCodec.{
  command_codec_decode, command_codec_encode, parse_type, frame, decimal, no_command,
  command_codec_decode_line, apply_tokens, nonempty, segments, trim_newline, split_key, apply_field,
  parse_nonce, type_text,
}
use safe_key_vault.CommandCodec.Framing.{no_semi, no_break}
use safe_key_vault.CommandCodec.Roundtrip.{IsFrameable, decode-encode}

abbrev fill : BrowserCommand
fill = record {
  type = request_fill;
  nonce = 42;
  origin = codes "https://a.io";
  username = codes "ann";
  password = codes "p=w";
}

fill_frame :
    command_codec_encode fill 512
    ≡ some (codes "type=REQUEST_FILL;nonce=42;origin=https://a.io;username=ann;password=p=w")
unfolding command_codec_encode frame decimal type_text
fill_frame = refl

-- Only sixteen characters of a type are compared.
long_type : parse_type (codes "REQUEST_SELECT_NOPE") ≡ some request_select_next
unfolding parse_type strncmp_eq
long_type = refl

-- A negative nonce is read as its negation in 32 bits.
minus_one : parse_nonce (codes "-1") ≡ some 4294967295
unfolding parse_nonce
minus_one = refl

-- A delimiter in the origin starts a field of its own.
injected :
    command_codec_decode (codes "type=REQUEST_FILL;nonce=1;origin=a;username=eve;username=ann")
    ≡ some (record no_command {
      type = request_fill;
      nonce = 1;
      origin = codes "a";
      username = codes "ann";
    })
unfolding command_codec_decode command_codec_decode_line apply_tokens nonempty segments trim_newline
    split_key apply_field parse_nonce parse_type strncmp_eq
injected = refl

fill-IsFrameable : IsFrameable fill
unfolding no_semi no_break
fill-IsFrameable =
    (omega arith, (refl, refl, omega arith), (refl, refl, omega arith), (refl, refl, omega arith))

decode-encode_example :
    (text : Text) × (command_codec_encode fill 512 ≡ some text)
    × (command_codec_decode text ≡ some fill)
decode-encode_example = decode-encode fill 512 (λ e. cc e) fill-IsFrameable (omega arith)
