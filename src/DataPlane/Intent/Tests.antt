-- ===== src/DataPlane/Intent/Tests.antt =====
-- Runs of the token's reader.
use jaynshare.Prelude.{
  ◌≡◌, true, [], ◌∷◌, some, none, ok, err, refl, sym, ap, ◌∙◌, arith, if◌then◌else◌, Bool-cases,
  inl, inr,
}
use jaynshare.Selection.Glob.{as_bytes}
use jaynshare.DataPlane.Intent.{
  Encoding, pin, preference, reference, is_pin, same_bytes, encode_token, parse, parse_token,
  decode_reference, read_reference,
}
use jaynshare.DataPlane.Intent.Tokens.{
  IsUtf8, IsTokenOf, same_bytes_sound, parse_token_sound, parse_token-encode_token,
}

-- One text and its base64url.
abbrev one_text : Encoding
one_text = record {
  encode = λ l. if same_bytes l (as_bytes "bob") then as_bytes "Ym9i" else [];
  decode = λ l. if same_bytes l (as_bytes "Ym9i") then some (as_bytes "bob") else none;
  trim = λ l. l;
  from_utf8 = λ l. if same_bytes l (as_bytes "bob") then some "bob" else none;
  is_str = λ l. true;
}

one_text-IsUtf8 : IsUtf8 one_text
one_text-IsUtf8 bytes r h = elim (Bool-cases (same_bytes bytes (as_bytes "bob"))) [
  | inl e ↦
      let text : "bob" ≡ r = ground (arith, e, h) in
      ap as_bytes (sym text) ∙ sym (same_bytes_sound bytes (as_bytes "bob") e)
  | inr e ↦ ground (arith, e)
]

pin_bob : parse one_text (as_bytes "pin.Ym9i" ∷ []) ≡ ok (some (pin "bob"))
unfolding parse parse_token decode_reference read_reference
pin_bob = refl

comma :
    (parse one_text (as_bytes "pin.Ym9i,pin.Ym9i" ∷ []))
    ≡ err "x-jaynshare-account carries whitespace, a comma or nothing"
unfolding parse parse_token
comma = refl

bob_parsed : parse_token one_text (as_bytes "pref.Ym9i") ≡ ok (preference "bob")
unfolding parse_token decode_reference read_reference
bob_parsed = refl

parse_token_sound_example : IsTokenOf one_text (as_bytes "pref.Ym9i") (preference "bob")
parse_token_sound_example =
    parse_token_sound one_text one_text-IsUtf8 (as_bytes "pref.Ym9i") (preference "bob") bob_parsed

parse_token-encode_token_example :
    parse_token one_text (encode_token one_text (is_pin (pin "bob")) (reference (pin "bob")))
    ≡ ok (pin "bob")
unfolding reference
parse_token-encode_token_example =
    parse_token-encode_token one_text (λ l h. refl) (pin "bob") (refl, refl, refl, refl)
      (omega arith) refl
