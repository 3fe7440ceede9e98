-- ===== src/DataPlane/Intent.antt =====
-- The account-intent token of src/data_plane/intent.rs. A token and a header value are the lists of
-- their bytes.
mod Tokens
mod Tests
use jaynshare.Prelude.{
  ℕ, String, Bool, true, false, not, ◌&&◌, ◌||◌, List, [], ◌∷◌, ◌++◌, Option, none, some, Result,
  ok, err, ◌>>=◌, ◌==◌, nat_eq, if◌then◌else◌, all, any, is_empty, length, ltb, leb,
}
use jaynshare.Selection.Glob.{as_bytes}
use jaynshare.DataPlane.Usage.{strip_prefix}

-- base64url without padding, `str::trim`, `String::from_utf8`, and whether `HeaderValue::to_str`
-- succeeds.
pub record Encoding : Type 0 where
  pub encode : List ℕ → List ℕ
  pub decode : List ℕ → Option (List ℕ)
  pub trim : List ℕ → List ℕ
  pub from_utf8 : List ℕ → Option String
  pub is_str : List ℕ → Bool

abbrev pub max_reference_bytes : ℕ
max_reference_bytes = 1024

pub data Intent : Type 0 where
  pin : String → Intent
  preference : String → Intent

unfoldable pub reference : Intent → String
reference (pin r) = r
reference (preference r) = r

unfoldable pub is_pin : Intent → Bool
is_pin (pin r) = true
is_pin (preference r) = false

abbrev pub same_bytes : List ℕ → List ℕ → Bool
same_bytes [] [] = true
same_bytes [] (b ∷ l) = false
same_bytes (a ∷ k) [] = false
same_bytes (a ∷ k) (b ∷ l) = a == b && same_bytes k l

abbrev pub is_between : ℕ → ℕ → ℕ → Bool
is_between low high b = leb low b && leb b high

-- A letter, a digit, `-` or `_`.
abbrev pub is_base64url : ℕ → Bool
is_base64url b =
    is_between 48 57 b || is_between 65 90 b || is_between 97 122 b || b == 45 || b == 95

abbrev pub is_control : ℕ → Bool
is_control b = ltb b 32 || b == 127

abbrev pub is_admissible : String → Bool
is_admissible r = not (is_empty (as_bytes r) || any is_control (as_bytes r))

module _ (e : Encoding) where
  open e use {encode, decode, trim, from_utf8, is_str}

  unfoldable pub encode_token : Bool → String → List ℕ
  encode_token pinned r = as_bytes (if pinned then "pin" else "pref") ++ (46 ∷ encode (as_bytes r))

  -- The text of the bytes, and the checks on it.
  unfoldable pub read_reference : List ℕ → Result {0, 0} String String
  read_reference bytes =
      if ltb max_reference_bytes (length bytes)
      then err "x-jaynshare-account reference exceeds 1024 bytes"
      else elim (from_utf8 bytes) [
        | none ↦ err "x-jaynshare-account reference is not UTF-8"
        | some r ↦
            if is_admissible r
            then ok r
            else err "x-jaynshare-account reference is empty or carries a control character"
      ]

  unfoldable pub decode_reference : List ℕ → Result {0, 0} String String
  decode_reference encoded =
      if is_empty encoded
      then err "x-jaynshare-account reference is not canonical base64url: empty"
      else if not (all is_base64url encoded)
      then err
          "x-jaynshare-account reference is not canonical base64url: a character outside the base64url alphabet"
      else elim (decode encoded) [
        | none ↦ err "x-jaynshare-account reference is not canonical base64url: undecodable"
        | some bytes ↦
            if same_bytes (encode bytes) encoded
            then read_reference bytes
            else err
                "x-jaynshare-account reference is not canonical base64url: non-canonical encoding"
      ]

  abbrev pub intend : (String → Intent) → Result {0, 0} String String → Result {0, 0} Intent String
  intend f (ok r) = ok (f r)
  intend f (err why) = err why

  unfoldable pub parse_token : List ℕ → Result {0, 0} Intent String
  parse_token token =
      if is_empty token || not (same_bytes (trim token) token) || any (λ b. b == 44) token
      then err "x-jaynshare-account carries whitespace, a comma or nothing"
      else elim (strip_prefix (as_bytes "pin.") token) [
        | some rest ↦ intend pin (decode_reference rest)
        | none ↦ elim (strip_prefix (as_bytes "pref.") token) [
          | some rest ↦ intend preference (decode_reference rest)
          | none ↦ err "x-jaynshare-account must start with pin. or pref."
        ]
      ]

  -- The values of the header, in order.
  unfoldable pub parse : List (List ℕ) → Result {0, 0} (Option Intent) String
  parse [] = ok none
  parse (value ∷ another ∷ values) = err "x-jaynshare-account appears more than once"
  parse (value ∷ []) =
      if is_str value
      then elim (parse_token value) [ ok i ↦ ok (some i) | err why ↦ err why ]
      else err "x-jaynshare-account is not visible ASCII"
