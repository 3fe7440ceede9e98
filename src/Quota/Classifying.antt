-- ===== src/Quota/Classifying.antt =====
-- `classify` of src/pool/quota.rs: which buckets a 429 proves exhausted.
use Prim.Native.String.{◌++◌ as append}
use mathlib.Core.Option.{some-injective}
use jaynshare.Prelude.{
  Bool, ◌||◌, ||_true, eq_of_==, none, or, is_some_and, and_then, ◌==◌, sym, inr, String, ◌≡◌, ◌≢◌,
  refl, ◌↔◌, true, List, [], ◌∷◌, Option, some, arith, In, find, is_empty, if◌then◌else◌, subst, ap,
  string_eq, inl, ◌⊎◌,
}
use jaynshare.External.{External}
use jaynshare.Quota.{
  Bucket, Observation, Kind, oauth, api_key, weekly_of, effective_utilization, proved_oauth,
  proved_api_key, Classification, exhaustion, throttle, named, observes, proved, governed,
  exhausted_among, classify,
}

classified :
    (xs : List String) (G P : String → Type 0)
    → ((n : String) → In n xs ↔ (G n × P n))
    → (((if is_empty xs then throttle else exhaustion xs) ≡ throttle)
        ↔ ((n : String) → G n → ¬ P n))
      × ((names : List String)
          → (if is_empty xs then throttle else exhaustion xs) ≡ exhaustion names
          → (names ≢ []) × ((n : String) → In n names ↔ (G n × P n)))
classified [] G P h = ((λ _ n g p. (h n).1 (g, p), λ _. refl), λ names e. cc)
classified (a ∷ xs) G P h = (
  (λ e. cc, λ f. absurd (f a ((h a).0 (inl refl)).0 ((h a).0 (inl refl)).1)),
  λ names e. (ground arith, subst (λ l. (n : String) → In n l ↔ (G n × P n)) (ap listed e) h),
)
  where
    listed : Classification → List String
    listed throttle = []
    listed (exhaustion l) = l

||_right : (a b : Bool) → b ≡ true → (a || b) ≡ true
||_right a b h = ground arith

-- What the response says, and else what is stored.
abbrev pub Reads {ℓ} : {A : Type ℓ} → Option A → Option A → A → Type ℓ
Reads fresh stored v = (fresh ≡ some v) ⊎ ((fresh ≡ none) × (stored ≡ some v))

or-Reads {ℓ} :
    {A : Type ℓ} (p : A → Bool) (fresh stored : Option A)
    → (is_some_and (or fresh stored) p ≡ true) ↔ ((v : A) × Reads fresh stored v × (p v ≡ true))
or-Reads p (some v) stored = (
  λ h. (v, inl refl, h),
  λ (w, r, h). elim r [
    | inl e ↦ subst (λ u. p u ≡ true) (sym (some-injective v w e)) h
    | inr e ↦ cc
  ],
)
or-Reads p none (some v) = (
  λ h. (v, inr (refl, refl), h),
  λ (w, r, h). elim r [
    | inl e ↦ cc
    | inr e ↦ subst (λ u. p u ≡ true) (sym (some-injective v w e.1)) h
  ],
)
or-Reads p none none = (λ h. cc, λ (w, r, h). elim r [ inl e ↦ cc | inr e ↦ cc ])

-- The names of the buckets that a 429 can exhaust.
abbrev pub InScope : Kind → Option String → String → Type 0
InScope oauth none n = (n ≡ "session") ⊎ (n ≡ "weekly")
InScope oauth (some family) n = (n ≡ "session") ⊎ (n ≡ append "weekly:" family)
InScope api_key family n =
    (n ≡ "requests") ⊎ ((n ≡ "tokens") ⊎ ((n ≡ "input-tokens") ⊎ (n ≡ "output-tokens")))

module _ ⦃x : External⦄ where
  open x use {F64, f64_le, f64_eq, one_f64, zero_f64}

  In-governed :
      (kind : Kind) (fam : Option String) (n : String)
      → In n (governed kind fam) ↔ InScope kind fam n
  unfolding governed weekly_of
  In-governed oauth none n = ground arith
  In-governed oauth (some f) n = ground arith
  In-governed api_key fam n = ground arith

  -- What the first observation of the name and the first stored bucket of it say.
  abbrev pub IsProved : Kind → List Observation → List Bucket → String → Type 0
  IsProved oauth os bs name =
      let fresh = find (λ (o : Observation). o.name == name) os in
      let stored = find (λ (b : Bucket). b.name == name) bs in
      Reads (and_then fresh (λ o. o.status)) (and_then stored (λ b. b.status)) "rejected"
      ⊎ ((u : F64) × Reads (and_then fresh (λ o. o.utilization))
            (and_then stored effective_utilization) u
          × (f64_le one_f64 u ≡ true))
  IsProved api_key os bs name =
      let fresh = find (λ (o : Observation). o.name == name) os in
      let stored = find (λ (b : Bucket). b.name == name) bs in
      (r : F64) × Reads (and_then fresh (λ o. o.remaining)) (and_then stored (λ b. b.remaining)) r
      × (f64_eq r zero_f64 ≡ true)

  abbrev WasProved : Kind → List Observation → List Bucket → String → Type 0
  WasProved kind os bs name = proved kind (find (observes name) os) (find (named name) bs) ≡ true

  proved-IsProved :
      (kind : Kind) (os : List Observation) (bs : List Bucket) (name : String)
      → (proved kind (find (observes name) os) (find (named name) bs) ≡ true)
        ↔ IsProved kind os bs name
  unfolding proved proved_oauth proved_api_key observes named
  proved-IsProved oauth os bs name =
      let fresh = find (λ (o : Observation). o.name == name) os in
      let stored = find (λ (b : Bucket). b.name == name) bs in
      let status =
        or-Reads (λ (s : String). s == "rejected") (and_then fresh (λ o. o.status))
          (and_then stored (λ b. b.status)) in
      let util =
        or-Reads (λ (u : F64). f64_le one_f64 u) (and_then fresh (λ o. o.utilization))
          (and_then stored effective_utilization) in
      (
        λ h. elim (||_true _ _ h) [
          | inl e ↦
              let (s, reads, same) = status.0 e in
              inl (subst (Reads _ _) (eq_of_== s "rejected" same) reads)
          | inr e ↦ inr (util.0 e)
        ],
        λ h. elim h [
          | inl reads ↦ rw (status.1 ("rejected", reads, refl)) refl
          | inr e ↦ ||_right _ _ (util.1 e)
        ],
      )
  proved-IsProved api_key os bs name = or-Reads _ _ _

  In-exhausted_among :
      (kind : Kind) (os : List Observation) (bs : List Bucket) (names : List String) (n : String)
      → In n (exhausted_among kind os bs names) ↔ (In n names × WasProved kind os bs n)
  unfolding exhausted_among
  In-exhausted_among kind os bs [] n = ground arith
  In-exhausted_among kind os bs (m ∷ names) n =
      ground (arith, In-exhausted_among kind os bs names n)

  -- `classify` calls a 429 a throttle exactly when no governed bucket is proved exhausted;
  -- otherwise it names exactly the governed buckets that are, and at least one. The session and the
  -- week of the family, or the four counters of a key, are governed. A subscription's bucket is
  -- proved by a status `rejected` or a utilisation of at least one, a key's by nothing remaining;
  -- each is read from the response's first observation of the name where it says it, and else from
  -- the stored bucket.
  pub classify_sound :
      (kind : Kind) (fam : Option String) (os : List Observation) (bs : List Bucket)
      → ((classify kind fam os bs ≡ throttle)
          ↔ ((n : String) → InScope kind fam n → ¬ IsProved kind os bs n))
        × ((names : List String)
            → classify kind fam os bs ≡ exhaustion names
            → (names ≢ [])
              × ((n : String) → In n names ↔ (InScope kind fam n × IsProved kind os bs n)))
  unfolding classify
  classify_sound kind fam os bs = classified _ (InScope kind fam) (IsProved kind os bs) (λ n.
      let among = In-exhausted_among kind os bs (governed kind fam) n in
      let scope = In-governed kind fam n in
      let proof = proved-IsProved kind os bs n in
      (
        λ h. let (g, e) = among.0 h in (scope.0 g, proof.0 e),
        λ h. among.1 (scope.1 h.0, proof.1 h.1),
      ))

  -- What a fresh fact says wins over the stored one, and a missing fresh fact leaves the stored one in
  -- force. So a response that reports the bucket neither rejected nor full proves nothing, whatever
  -- was stored.
  pub proved_oauth_fresh :
      (o : Observation) (stored : Option Bucket) {s : String} {u : x.F64}
      → o.status ≡ some s
      → o.utilization ≡ some u
      → (proved oauth (some o) stored ≡ true) ↔ ((s ≡ "rejected") ⊎ (f64_le one_f64 u ≡ true))
  unfolding proved
  proved_oauth_fresh o stored {s} {u} es eu = ground (arith, string_eq.same_iff s "rejected")
