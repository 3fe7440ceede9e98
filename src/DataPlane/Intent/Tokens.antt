-- ===== src/DataPlane/Intent/Tokens.antt =====
-- A token and the intent that it stands for.
use jaynshare.Prelude.{
  ℕ, String, ◌≤◌, true, false, ◌||◌, List, [], ◌∷◌, ◌++◌, some, ok, ◌≡◌, refl, sym, ap, subst, ◌∙◌,
  ◌==◌, nat_eq, all, any, is_empty, length, ltb, arith, Option-cases, Result-cases, inl, inr,
}
use jaynshare.Selection.Glob.{as_bytes}
use jaynshare.DataPlane.Usage.{strip_prefix}
use jaynshare.DataPlane.Intent.{
  Encoding, Intent, pin, preference, reference, is_pin, same_bytes, is_base64url, is_admissible,
  max_reference_bytes, encode_token, read_reference, decode_reference, parse_token,
}

pub same_bytes_sound : (k l : List ℕ) → same_bytes k l ≡ true → k ≡ l
same_bytes_sound [] [] h = refl
same_bytes_sound [] (b ∷ l) h = cc
same_bytes_sound (a ∷ k) [] h = cc
same_bytes_sound (a ∷ k) (b ∷ l) h = ground (arith, same_bytes_sound k l)

same_bytes_refl : (l : List ℕ) → same_bytes l l ≡ true
same_bytes_refl [] = refl
same_bytes_refl (b ∷ l) = ground (arith, same_bytes_refl l)

strip_prefix_sound : (p l rest : List ℕ) → strip_prefix p l ≡ some rest → l ≡ p ++ rest
strip_prefix_sound [] l rest h = ground arith
strip_prefix_sound (a ∷ p) [] rest h = cc
strip_prefix_sound (a ∷ p) (b ∷ l) rest h = ground (arith, strip_prefix_sound p l rest)

-- Letters, digits, `-`, `_` and `.` are no comma.
all-any-comma :
    (l : List ℕ)
    → all is_base64url l ≡ true
    → (any (λ b. b == 44) l ≡ false) × (all (λ b. is_base64url b || b == 46) l ≡ true)
all-any-comma [] h = (refl, refl)
all-any-comma (b ∷ l) h = ground (arith, all-any-comma l)

module _ (e : Encoding) where
  open e use {encode, decode, trim, from_utf8}

  -- What `from_utf8` accepts is the encoding of the text that it gives.
  abbrev pub IsUtf8 : Type 0
  IsUtf8 = (bytes : List ℕ) (r : String) → from_utf8 bytes ≡ some r → as_bytes r ≡ bytes

  read_reference_sound :
      IsUtf8
      → (bytes : List ℕ) (r : String) → read_reference e bytes ≡ ok r
      → (as_bytes r ≡ bytes) × (length bytes ≤ max_reference_bytes) × (is_admissible r ≡ true)
  unfolding read_reference
  read_reference_sound utf8 bytes r h = elim (Option-cases (from_utf8 bytes)) [
    | inl n ↦ ground (arith, n)
    | inr (s, n) ↦ ground (arith, n, utf8 bytes s n)
  ]

  decode_reference_sound :
      IsUtf8
      → (encoded : List ℕ) (r : String) → decode_reference e encoded ≡ ok r
      → (encode (as_bytes r) ≡ encoded)
        × (length (as_bytes r) ≤ max_reference_bytes)
        × (is_admissible r ≡ true)
  unfolding decode_reference
  decode_reference_sound utf8 encoded r h = elim (Option-cases (decode encoded)) [
    | inl d ↦ ground (arith, d)
    | inr (bytes, d) ↦
        let same : same_bytes (encode bytes) encoded ≡ true = ground (arith, d, h) in
        let read : read_reference e bytes ≡ ok r = ground (arith, d, h) in
        let (text, bound, admissible) = read_reference_sound utf8 bytes r read in
        (ap encode text ∙ same_bytes_sound (encode bytes) encoded same, rw text bound, admissible)
  ]

  -- The token is the one of the intent, whose reference is as a token's may be.
  abbrev pub IsTokenOf : List ℕ → Intent → Type 0
  IsTokenOf token i =
      (token ≡ encode_token e (is_pin i) (reference i))
      × (length (as_bytes (reference i)) ≤ max_reference_bytes)
      × (is_admissible (reference i) ≡ true)

  pin-IsTokenOf :
      IsUtf8
      → (token rest : List ℕ) (r : String) → strip_prefix (as_bytes "pin.") token ≡ some rest
      → decode_reference e rest ≡ ok r
      → IsTokenOf token (pin r)
  unfolding encode_token is_pin reference
  pin-IsTokenOf utf8 token rest r n d =
      let (encoded, bound, admissible) = decode_reference_sound utf8 rest r d in
      (
        strip_prefix_sound (as_bytes "pin.") token rest n
            ∙ ap (λ l. as_bytes "pin." ++ l) (sym encoded),
        bound,
        admissible,
      )

  preference-IsTokenOf :
      IsUtf8
      → (token rest : List ℕ) (r : String) → strip_prefix (as_bytes "pref.") token ≡ some rest
      → decode_reference e rest ≡ ok r
      → IsTokenOf token (preference r)
  unfolding encode_token is_pin reference
  preference-IsTokenOf utf8 token rest r n d =
      let (encoded, bound, admissible) = decode_reference_sound utf8 rest r d in
      (
        strip_prefix_sound (as_bytes "pref.") token rest n
            ∙ ap (λ l. as_bytes "pref." ++ l) (sym encoded),
        bound,
        admissible,
      )

  -- A token that parses is the very token that encodes the intent, and the intent's reference is
  -- not empty, has no control character and at most 1,024 bytes, where `from_utf8` gives the text
  -- of its bytes.
  pub parse_token_sound :
      IsUtf8 → (token : List ℕ) (i : Intent) → parse_token e token ≡ ok i → IsTokenOf token i
  unfolding parse_token
  parse_token_sound utf8 token i h = elim (Option-cases (strip_prefix (as_bytes "pin.") token)) [
    | inl n ↦ elim (Option-cases (strip_prefix (as_bytes "pref.") token)) [
      | inl m ↦ ground (arith, n, m)
      | inr (rest, m) ↦ elim (Result-cases (decode_reference e rest)) [
        | inl (r, d) ↦
            let is_it : preference r ≡ i = ground (arith, n, m, d) in
            subst (IsTokenOf token) is_it (preference-IsTokenOf utf8 token rest r m d)
        | inr (why, d) ↦ ground (arith, n, m, d)
      ]
    ]
    | inr (rest, n) ↦ elim (Result-cases (decode_reference e rest)) [
      | inl (r, d) ↦
          let is_it : pin r ≡ i = ground (arith, n, d) in
          subst (IsTokenOf token) is_it (pin-IsTokenOf utf8 token rest r n d)
      | inr (why, d) ↦ ground (arith, n, d)
    ]
  ]

  -- What the encoding does with the bytes of a text.
  abbrev pub IsEncoded : String → Type 0
  IsEncoded r =
      (from_utf8 (as_bytes r) ≡ some r)
      × (decode (encode (as_bytes r)) ≡ some (as_bytes r))
      × (is_empty (encode (as_bytes r)) ≡ false)
      × (all is_base64url (encode (as_bytes r)) ≡ true)

  -- A text of letters, digits, `-`, `_` and `.` has nothing to trim.
  abbrev pub IsTrim : Type 0
  IsTrim = (l : List ℕ) → all (λ b. is_base64url b || b == 46) l ≡ true → trim l ≡ l

  decode_reference-encode :
      (r : String)
      → IsEncoded r
      → length (as_bytes r) ≤ max_reference_bytes
      → is_admissible r ≡ true
      → decode_reference e (encode (as_bytes r)) ≡ ok r
  unfolding decode_reference read_reference
  decode_reference-encode r (text, back, present, alphabet) bound admissible =
      let bytes = as_bytes r in
      let fits : ltb max_reference_bytes (length bytes) ≡ false = ground arith in
      rw (present, alphabet, back, same_bytes_refl (encode bytes), fits, text, admissible) refl

  -- The token of an intent parses to the intent, where the reference is not empty, has no control
  -- character and at most 1,024 bytes, base64url and UTF-8 read back what they wrote of it, the
  -- base64url of it is not empty and keeps to its alphabet, and nothing is trimmed off such a
  -- token.
  pub parse_token-encode_token :
      IsTrim
      → (i : Intent) → IsEncoded (reference i)
      → length (as_bytes (reference i)) ≤ max_reference_bytes
      → is_admissible (reference i) ≡ true
      → parse_token e (encode_token e (is_pin i) (reference i)) ≡ ok i
  unfolding parse_token encode_token is_pin reference
  parse_token-encode_token trims (pin r) encoded bound admissible =
      let bytes = encode (as_bytes r) in
      let (no_comma, plain) = all-any-comma bytes encoded.3 in
      rw
        (
          trims (as_bytes "pin." ++ bytes) plain,
          same_bytes_refl bytes,
          no_comma,
          decode_reference-encode r encoded bound admissible,
        )
        refl
  parse_token-encode_token trims (preference r) encoded bound admissible =
      let bytes = encode (as_bytes r) in
      let (no_comma, plain) = all-any-comma bytes encoded.3 in
      rw
        (
          trims (as_bytes "pref." ++ bytes) plain,
          same_bytes_refl bytes,
          no_comma,
          decode_reference-encode r encoded bound admissible,
        )
        refl
