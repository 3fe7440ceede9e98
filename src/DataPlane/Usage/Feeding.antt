-- ===== src/DataPlane/Usage/Feeding.antt =====
-- What a body is read as, however it is cut into chunks.
use jaynshare.Prelude.{
  ℕ, String, ◌+◌, ◌≤◌, ◌<◌, true, false, zero, suc, List, [], ◌∷◌, ◌++◌, Option, ◌≡◌, refl, sym, ap,
  ◌∙◌, ◌==◌, nat_eq, if◌then◌else◌, length, length-append, ltb, leb, arith, Bool-cases, inl, inr,
}
use mathlib.Core.List.{append-nil, append_assoc}
use jaynshare.DataPlane.{Json}
use jaynshare.DataPlane.Usage.{
  Tokens, no_tokens, UsageExtractor, stream, json, max_sse_line, max_json_copy, is_event_stream,
  for_content_type, note_line, take_byte, take_bytes, feed, finish, feed_all,
}

module _ {A : Type 0} where
  abbrev pub concat : List (List A) → List A
  concat [] = []
  concat (l ∷ ls) = l ++ concat ls

  abbrev pub take : ℕ → List A → List A
  take n [] = []
  take zero (a ∷ l) = []
  take (suc n) (a ∷ l) = a ∷ take n l

  take-append :
      (n : ℕ) (l : List A) (a : A)
      → (if ltb (length (take n l)) n then take n l ++ (a ∷ []) else take n l)
        ≡ take n (l ++ (a ∷ []))
  take-append zero [] a = refl
  take-append zero (b ∷ l) a = refl
  take-append (suc n) [] a = ground arith
  take-append (suc n) (b ∷ l) a = ground (arith, take-append n l a)

-- The lines that a newline ends, after the part of a line that came before.
abbrev pub complete_lines : List ℕ → List ℕ → List (List ℕ)
complete_lines line [] = []
complete_lines line (byte ∷ bytes) =
    let rest = complete_lines (if byte == 10 then [] else line ++ (byte ∷ [])) bytes in
    if byte == 10 then line ∷ rest else rest

module _ (j : Json) where
  -- Every line is noted in turn, cut at the bound.
  abbrev pub note_lines : Tokens → List (List ℕ) → Tokens
  note_lines tokens [] = tokens
  note_lines tokens (line ∷ lines) = note_lines (note_line j (take max_sse_line line) tokens) lines

  take_bytes-append :
      (s : List ℕ × Tokens) (a b : List ℕ)
      → take_bytes j s (a ++ b) ≡ take_bytes j (take_bytes j s a) b
  unfolding take_bytes
  take_bytes-append s [] b = refl
  take_bytes-append s (c ∷ a) b = take_bytes-append (take_byte j s c) a b

  feed_all-stream :
      (s : List ℕ × Tokens) (chunks : List (List ℕ))
      → finish j (feed_all j (stream s.0 s.1) chunks) ≡ (take_bytes j s (concat chunks)).1
  unfolding feed_all feed finish take_bytes
  feed_all-stream s [] = refl
  feed_all-stream s (c ∷ chunks) =
      feed_all-stream (take_bytes j s c) chunks
      ∙ ap (λ r. r.1) (sym (take_bytes-append s c (concat chunks)))

  take_byte_newline :
      (line : List ℕ) (tokens : Tokens) (c : ℕ)
      → (c == 10) ≡ true
      → take_byte j (line, tokens) c ≡ ([], note_line j line tokens)
  unfolding take_byte
  take_byte_newline line tokens c h = rw h refl

  take_byte_other :
      (line : List ℕ) (tokens : Tokens) (c : ℕ)
      → (c == 10) ≡ false
      → take_byte j (line, tokens) c
        ≡ (if ltb (length line) max_sse_line then line ++ (c ∷ []) else line, tokens)
  unfolding take_byte
  take_byte_other line tokens c h = elim (Bool-cases (ltb (length line) max_sse_line)) [
    | inl e ↦ rw (h, e) refl
    | inr e ↦ rw (h, e) refl
  ]

  take_bytes-complete_lines :
      (line : List ℕ) (tokens : Tokens) (bytes : List ℕ)
      → (take_bytes j (take max_sse_line line, tokens) bytes).1
        ≡ note_lines tokens (complete_lines line bytes)
  unfolding take_bytes
  take_bytes-complete_lines line tokens [] = refl
  take_bytes-complete_lines line tokens (c ∷ bytes) = elim (Bool-cases (c == 10)) [
    | inl e ↦
        ap (λ r. (take_bytes j r bytes).1) (take_byte_newline (take max_sse_line line) tokens c e)
        ∙ rw e (take_bytes-complete_lines [] (note_line j (take max_sse_line line) tokens) bytes)
    | inr e ↦
        ap (λ r. (take_bytes j r bytes).1)
          (take_byte_other (take max_sse_line line) tokens c e
            ∙ ap (λ l. (l, tokens)) (take-append max_sse_line line c))
        ∙ rw e (take_bytes-complete_lines (line ++ (c ∷ [])) tokens bytes)
  ]

  -- The usage of a stream is what its lines say in turn, and a last line that no newline ends says
  -- nothing; a line longer than the bound is read as its first mebibyte; where the body is cut into
  -- chunks does not matter.
  pub finish-feed_all :
      (content_type : Option String) (chunks : List (List ℕ))
      → is_event_stream content_type ≡ true
      → finish j (feed_all j (for_content_type content_type) chunks)
        ≡ note_lines no_tokens (complete_lines [] (concat chunks))
  unfolding for_content_type
  finish-feed_all content_type chunks h = rw h (
      feed_all-stream ([], no_tokens) chunks
      ∙ take_bytes-complete_lines [] no_tokens (concat chunks))

  -- What is buffered of a body.
  abbrev pub buffered : UsageExtractor → ℕ
  buffered UsageExtractor.none = 0
  buffered (stream line tokens) = length line
  buffered (json copy) = length copy

  abbrev pub IsBounded : UsageExtractor → Type 0
  IsBounded UsageExtractor.none = Unit
  IsBounded (stream line tokens) = length line ≤ max_sse_line
  IsBounded (json copy) = length copy ≤ max_json_copy

  take_byte_bound :
      (s : List ℕ × Tokens) (c : ℕ)
      → length s.0 ≤ max_sse_line
      → length (take_byte j s c).0 ≤ max_sse_line
  unfolding take_byte
  take_byte_bound (line, tokens) c h = ground (arith, length-append line (c ∷ []))

  take_bytes_bound :
      (s : List ℕ × Tokens) (bytes : List ℕ)
      → length s.0 ≤ max_sse_line
      → length (take_bytes j s bytes).0 ≤ max_sse_line
  unfolding take_bytes
  take_bytes_bound s [] h = h
  take_bytes_bound s (c ∷ bytes) h =
      take_bytes_bound (take_byte j s c) bytes (take_byte_bound s c h)

  feed-IsBounded : (u : UsageExtractor) (chunk : List ℕ) → IsBounded u → IsBounded (feed j u chunk)
  unfolding feed
  feed-IsBounded UsageExtractor.none chunk h = tt
  feed-IsBounded (stream line tokens) chunk h = take_bytes_bound (line, tokens) chunk h
  feed-IsBounded (json copy) chunk h = ground (arith, length-append copy chunk)

  feed_all-IsBounded :
      (u : UsageExtractor) (chunks : List (List ℕ)) → IsBounded u → IsBounded (feed_all j u chunks)
  unfolding feed_all
  feed_all-IsBounded u [] h = h
  feed_all-IsBounded u (c ∷ chunks) h =
      feed_all-IsBounded (feed j u c) chunks (feed-IsBounded u c h)

  -- Whatever a body holds, and however it is cut into chunks, the extractor keeps at most one
  -- mebibyte of a stream's line, or four mebibytes of another body.
  pub feed_all-for_content_type-IsBounded :
      (content_type : Option String) (chunks : List (List ℕ))
      → IsBounded (feed_all j (for_content_type content_type) chunks)
  unfolding for_content_type
  feed_all-for_content_type-IsBounded content_type chunks =
      feed_all-IsBounded _ chunks (elim (Bool-cases (is_event_stream content_type)) [
        | inl e ↦ rw e (omega arith)
        | inr e ↦ rw e (omega arith)
      ])

  feed_all-json :
      (copy : List ℕ) (chunks : List (List ℕ))
      → length copy + length (concat chunks) ≤ max_json_copy
      → feed_all j (json copy) chunks ≡ json (copy ++ concat chunks)
  unfolding feed_all feed
  feed_all-json copy [] h = ap json (sym (append-nil copy))
  feed_all-json copy (c ∷ chunks) h =
      let fits : leb (length copy + length c) max_json_copy ≡ true =
        ground (arith, length-append c (concat chunks)) in
      ap (λ u. feed_all j u chunks) (rw fits refl)
      ∙ feed_all-json (copy ++ c) chunks
          (omega (arith, length-append c (concat chunks), length-append copy c))
      ∙ ap json (append_assoc copy c (concat chunks))

  -- The usage of a body that is no stream, and that the copy has room for, is what the whole body
  -- says, however it is cut into chunks.
  pub finish-feed_all_json :
      (content_type : Option String) (chunks : List (List ℕ))
      → is_event_stream content_type ≡ false
      → length (concat chunks) ≤ max_json_copy
      → finish j (feed_all j (for_content_type content_type) chunks)
        ≡ finish j (json (concat chunks))
  unfolding for_content_type
  finish-feed_all_json content_type chunks h room =
      rw h (ap (finish j) (feed_all-json [] chunks (omega arith)))

  -- A chunk that the copy has no room for is left out, and what follows it is copied all the same.
  pub feed_all_dropped :
      (a b c : List ℕ)
      → max_json_copy < length a + length b
      → length a + length c ≤ max_json_copy
      → feed_all j (json a) (b ∷ c ∷ []) ≡ json (a ++ c)
  unfolding feed_all feed
  feed_all_dropped a b c out room =
      let too_long : leb (length a + length b) max_json_copy ≡ false = ground arith in
      let fits : leb (length a + length c) max_json_copy ≡ true = ground arith in
      rw too_long (rw fits refl)
