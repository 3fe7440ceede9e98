-- ===== src/DataPlane/Usage.antt =====
-- src/data_plane/usage.rs: the token usage that is read from a relayed body, chunk by chunk. A chunk is
-- the list of its bytes.
mod Feeding
mod Tests
use jaynshare.Prelude.{
  ℕ, String, ◌+◌, ◌*◌, max, Bool, true, false, List, [], ◌∷◌, ◌++◌, Option, some, ◌==◌, nat_eq,
  string_eq, if◌then◌else◌, length, unwrap_or, and_then, map_some, is_some, is_some_and, ltb, leb,
}
use jaynshare.Selection.Glob.{as_bytes}
use jaynshare.DataPlane.{Json}

abbrev pub max_json_copy : ℕ
max_json_copy = 4 * 1024 * 1024

abbrev pub max_sse_line : ℕ
max_sse_line = 1024 * 1024

pub record Tokens : Type 0 where
  pub input : ℕ
  pub output : ℕ

abbrev pub no_tokens : Tokens
no_tokens = record { input = 0; output = 0 }

pub data UsageExtractor : Type 0 where
  none : UsageExtractor
  stream : (line : List ℕ) (tokens : Tokens) → UsageExtractor
  json : (copy : List ℕ) → UsageExtractor

-- `strip_prefix`
abbrev pub strip_prefix : List ℕ → List ℕ → Option (List ℕ)
strip_prefix [] l = some l
strip_prefix (p ∷ ps) [] = Option.none
strip_prefix (p ∷ ps) (b ∷ l) = if p == b then strip_prefix ps l else Option.none

abbrev pub is_event_stream : Option String → Bool
is_event_stream content_type =
    is_some_and content_type
      (λ c. is_some (strip_prefix (as_bytes "text/event-stream") (as_bytes c)))

unfoldable pub for_content_type : Option String → UsageExtractor
for_content_type content_type =
    if is_event_stream content_type then stream [] no_tokens else json []

module _ (j : Json) where
  open j use {Value, from_slice, get, as_str, as_u64, is_object}

  abbrev pub number : Value → String → ℕ
  number usage k = unwrap_or (and_then (get usage k) as_u64) 0

  unfoldable pub usage_of : Value → Option Tokens
  usage_of usage =
      if is_object usage
      then some
          (record { input = number usage "input_tokens"; output = number usage "output_tokens" })
      else Option.none

  -- The usage that stands in a member of the event.
  abbrev pub nested_usage : Value → String → Option Tokens
  nested_usage event member = and_then (and_then (get event member) (λ m. get m "usage")) usage_of

  unfoldable pub note_message_start : Value → Tokens → Tokens
  note_message_start event tokens = elim (nested_usage event "message") [
    | Option.none ↦ tokens
    | some u ↦ record { input = u.input; output = max tokens.output u.output }
  ]

  unfoldable pub note_message_delta : Value → Tokens → Tokens
  note_message_delta event tokens = elim (and_then (get event "usage") usage_of) [
    | Option.none ↦ tokens
    | some u ↦ record tokens { output = max tokens.output u.output }
  ]

  unfoldable pub note_typed : Value → String → Tokens → Tokens
  note_typed event type tokens =
      if type == "message_start"
      then note_message_start event tokens
      else if type == "message_delta"
      then note_message_delta event tokens
      else if type == "response.completed"
      then unwrap_or (nested_usage event "response") tokens
      else tokens

  unfoldable pub note_event : List ℕ → Tokens → Tokens
  note_event payload tokens = elim (from_slice payload) [
    | Option.none ↦ tokens
    | some event ↦ elim (and_then (get event "type") as_str) [
      | Option.none ↦ tokens
      | some type ↦ note_typed event type tokens
    ]
  ]

  -- The end of a line.
  unfoldable pub note_line : List ℕ → Tokens → Tokens
  note_line line tokens = elim (strip_prefix (as_bytes "data:") line) [
    | Option.none ↦ tokens
    | some payload ↦ note_event payload tokens
  ]

  -- One byte of a stream: the line so far, and the tokens.
  unfoldable pub take_byte : List ℕ × Tokens → ℕ → List ℕ × Tokens
  take_byte (line, tokens) byte =
      if byte == 10
      then ([], note_line line tokens)
      else if ltb (length line) max_sse_line
      then (line ++ (byte ∷ []), tokens)
      else (line, tokens)

  unfoldable pub take_bytes : List ℕ × Tokens → List ℕ → List ℕ × Tokens
  take_bytes s [] = s
  take_bytes s (byte ∷ bytes) = take_bytes (take_byte s byte) bytes

  unfoldable pub feed : UsageExtractor → List ℕ → UsageExtractor
  feed UsageExtractor.none chunk = UsageExtractor.none
  feed (stream line tokens) chunk = let s = take_bytes (line, tokens) chunk in stream s.0 s.1
  feed (json copy) chunk =
      if leb (length copy + length chunk) max_json_copy then json (copy ++ chunk) else json copy

  unfoldable pub finish : UsageExtractor → Tokens
  finish UsageExtractor.none = no_tokens
  finish (stream line tokens) = tokens
  finish (json copy) =
      unwrap_or (and_then (from_slice copy) (λ v. and_then (get v "usage") usage_of)) no_tokens

  -- A body, fed chunk by chunk.
  unfoldable pub feed_all : UsageExtractor → List (List ℕ) → UsageExtractor
  feed_all u [] = u
  feed_all u (chunk ∷ chunks) = feed_all (feed u chunk) chunks
