-- ===== src/Selection/Glob.antt =====
-- `glob_matches`, `route_for` and `blocked_by` of src/pool/selection.rs: patterns over model ids.
-- Texts are matched as their UTF-8 bytes.
use Prim.Native.Char.{code}
use jaynshare.Prelude.{
  ℕ, String, ◌+◌, ◌/◌, ◌%◌, ◌≡◌, ◌≢◌, ◌↔◌, ◌⊎◌, inl, inr, refl, Bool, true, false, ◌&&◌, ◌||◌, List,
  [], ◌∷◌, ◌++◌, Option, none, some, ◌==◌, nat_eq, if◌then◌else◌, leb, ltb, any, find, arith, sym,
  subst, ap,
}
use jaynshare.Selection.{Route, RequestFacts}

-- `str::as_bytes`
abbrev pub encode_char : ℕ → List ℕ
encode_char c =
    if ltb c 128
    then c ∷ []
    else if ltb c 2048
    then (192 + c / 64) ∷ (128 + c % 64) ∷ []
    else if ltb c 65536
    then (224 + c / 4096) ∷ (128 + c / 64 % 64) ∷ (128 + c % 64) ∷ []
    else (240 + c / 262144) ∷ (128 + c / 4096 % 64) ∷ (128 + c / 64 % 64) ∷ (128 + c % 64) ∷ []

abbrev pub as_bytes : String → List ℕ
as_bytes String.[] = []
as_bytes (String.◌∷◌ c s) = encode_char (code c) ++ as_bytes s

abbrev pub star : ℕ
star = 42

abbrev pub to_ascii_lowercase : ℕ → ℕ
to_ascii_lowercase c = if leb 65 c && leb c 90 then c + 32 else c

-- `u8::eq_ignore_ascii_case`
abbrev pub eq_ignore_ascii_case : ℕ → ℕ → Bool
eq_ignore_ascii_case a b = to_ascii_lowercase a == to_ascii_lowercase b

-- `go` of `glob_matches`
unfoldable pub go : List ℕ → List ℕ → Bool
go [] [] = true
go [] (b ∷ m) = false
go (a ∷ p) [] = let skipped = go p [] in a == star && skipped
go (a ∷ p) (b ∷ m) =
    let skipped = go p (b ∷ m) in
    let taken = go (a ∷ p) m in
    let both = go p m in if a == star then skipped || taken else eq_ignore_ascii_case a b && both

unfoldable pub glob_matches : String → String → Bool
glob_matches pattern model = go (as_bytes pattern) (as_bytes model)

unfoldable pub route_for : List Route → String → Option Route
route_for routes model = find (λ r. any (λ p. glob_matches p model) r.patterns) routes

-- The models of a request: `[facts.model, facts.advisor_model].into_iter().flatten()`.
abbrev pub flatten : Option String → Option String → List String
flatten none none = []
flatten none (some b) = b ∷ []
flatten (some a) none = a ∷ []
flatten (some a) (some b) = a ∷ b ∷ []

unfoldable pub blocked_by : List String → RequestFacts → Option String
blocked_by blocked_models facts =
    find (λ p. any (λ m. glob_matches p m) (flatten facts.model facts.advisor_model)) blocked_models

-- What a pattern means: a star stands for any run of bytes, another byte for itself in either case,
-- and nothing is left over.
abbrev pub Matches : List ℕ → List ℕ → Type 0
Matches [] m = m ≡ []
Matches (a ∷ p) m =
    ((a ≡ star) × (run : List ℕ) × (rest : List ℕ) × (m ≡ run ++ rest) × Matches p rest)
    ⊎ ((a ≢ star)
        × (b : ℕ) × (rest : List ℕ) × (m ≡ b ∷ rest)
        × (to_ascii_lowercase a ≡ to_ascii_lowercase b)
        × Matches p rest)

-- A star in front matches what the rest matches, and swallows one more byte.
star_cons :
    (a b : ℕ) (p m : List ℕ)
    → a ≡ star
    → Matches (a ∷ p) (b ∷ m) ↔ (Matches p (b ∷ m) ⊎ Matches (a ∷ p) m)
star_cons a b p m e = (
  λ h. elim h [
    | inl (_, [], rest, cut, t) ↦ inl (subst (Matches p) (sym cut) t)
    | inl (_, c ∷ run, rest, cut, t) ↦ inr (inl (e, run, rest, cc, t))
    | inr (n, _, _, _, _, _) ↦ absurd (n e)
  ],
  λ h. elim h [
    | inl t ↦ inl (e, [], b ∷ m, refl, t)
    | inr (inl (_, run, rest, cut, t)) ↦ inl (e, b ∷ run, rest, ap (λ l. b ∷ l) cut, t)
    | inr (inr (n, _, _, _, _, _)) ↦ absurd (n e)
  ],
)

star_nil : (a : ℕ) (p : List ℕ) → Matches (a ∷ p) [] ↔ ((a ≡ star) × Matches p [])
star_nil a p = (
  λ h. elim h [
    | inl (e, [], rest, cut, t) ↦ (e, subst (Matches p) (sym cut) t)
    | inl (_, c ∷ run, rest, cut, t) ↦ absurd (cons_not_nil cut)
    | inr (n, b, rest, cut, _, _) ↦ absurd (cons_not_nil cut)
  ],
  λ h. inl (h.0, [], [], refl, h.1),
)
  where
    cons_not_nil : {c : ℕ} {l : List ℕ} → ¬ ([] ≡ c ∷ l)
    cons_not_nil e = cc

-- The byte matcher accepts a pattern and a text exactly when the text splits as the pattern says: a
-- star stands for any run of bytes, another byte for itself in either ASCII case, and nothing is
-- left over.
pub go-Matches : (p m : List ℕ) → (go p m ≡ true) ↔ Matches p m
unfolding go
go-Matches [] [] = (λ h. refl, λ h. refl)
go-Matches [] (b ∷ m) = (λ h. ground arith, λ h. ground arith)
go-Matches (a ∷ p) [] = ground (arith, go-Matches p [], star_nil a p)
go-Matches (a ∷ p) (b ∷ m) =
    ground (arith, go-Matches p (b ∷ m), go-Matches (a ∷ p) m, go-Matches p m, star_cons a b p m)
