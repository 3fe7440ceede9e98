-- ===== src/DataPlane/Usage/Tests.antt =====
-- Runs of the extractor over small bodies.
use jaynshare.Prelude.{ℕ, ◌≡◌, true, List, [], ◌∷◌, some, none, refl, nat_eq, string_eq}
use jaynshare.DataPlane.{Json}
use jaynshare.DataPlane.Usage.{
  no_tokens, for_content_type, note_line, note_event, note_typed, note_message_delta, usage_of,
  take_byte, take_bytes, feed, finish, feed_all,
}
use jaynshare.DataPlane.Usage.Feeding.{
  concat, complete_lines, note_lines, IsBounded, finish-feed_all,
  feed_all-for_content_type-IsBounded,
}

-- A value as its bytes: a byte below 10 is the output count of a delta, every other text is broken.
abbrev small_json : Json
small_json = record {
  Value = ℕ;
  from_slice = λ bytes. elim bytes [ [] ↦ none | b ∷ rest ↦ some b ];
  get = λ v k. some v;
  as_str = λ v. some "message_delta";
  as_u64 = λ v. some v;
  is_object = λ v. true;
}

-- `data:` with one byte, in two chunks, with a second line that no newline ends.
abbrev chunks : List (List ℕ)
chunks = (100 ∷ 97 ∷ 116 ∷ []) ∷ (97 ∷ 58 ∷ 7 ∷ 10 ∷ 100 ∷ []) ∷ []

read :
    (finish small_json
      (feed_all small_json (for_content_type (some "text/event-stream")) chunks)).output
    ≡ 7
unfolding finish feed_all feed for_content_type take_bytes take_byte note_line note_event note_typed
    note_message_delta usage_of
read = refl

finish-feed_all_example :
    finish small_json (feed_all small_json (for_content_type (some "text/event-stream")) chunks)
    ≡ note_lines small_json no_tokens (complete_lines [] (concat chunks))
finish-feed_all_example = finish-feed_all small_json (some "text/event-stream") chunks refl

feed_all-for_content_type-IsBounded_example :
    IsBounded small_json (feed_all small_json (for_content_type (some "text/event-stream")) chunks)
feed_all-for_content_type-IsBounded_example =
    feed_all-for_content_type-IsBounded small_json (some "text/event-stream") chunks
