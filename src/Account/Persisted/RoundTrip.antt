-- ===== src/Account/Persisted/RoundTrip.antt =====
-- Reading back what was persisted, in src/pool/account.rs.
pub mod Members
use jaynshare.Prelude.{
  String, ◌≡◌, ◌≢◌, refl, ap, true, List, [], ◌∷◌, ◌++◌, none, some, ok, >>=-ok, subst, arith, any,
  All, string_eq, if◌then◌else◌, Bool-cases, inl, inr,
}
use jaynshare.External.{External}
use jaynshare.Quota.{Kind, Bucket, expected_buckets, named}
use jaynshare.Account.{
  Account, Credential, kind, push_missing, ensure_expected_buckets, credential_kind,
}
use jaynshare.Account.Persisted.{
  RecordJson, Record, record_of, account_of, record_credential, restored,
}

module _ ⦃x : External⦄ where
  -- Each of the buckets is there under its name.
  abbrev pub AllPresent : List Bucket → List Bucket → Type 0
  AllPresent quota = All (λ e. any (named e.name) quota ≡ true)

  push_missing_present :
      (quota es : List Bucket) → AllPresent quota es → push_missing quota es ≡ quota
  unfolding push_missing
  push_missing_present quota [] h = refl
  push_missing_present quota (e ∷ es) h = rw h.0 (push_missing_present quota es h.1)

  any-append :
      (name : String) (xs ys : List Bucket)
      → any (named name) xs ≡ true
      → any (named name) (xs ++ ys) ≡ true
  any-append name [] ys h = cc
  any-append name (b ∷ xs) ys h = ground (arith, any-append name xs ys)

  any-append_self : (b : Bucket) (xs : List Bucket) → any (named b.name) (xs ++ (b ∷ [])) ≡ true
  unfolding named
  any-append_self b [] = ground (arith, string_eq.same_iff b.name b.name)
  any-append_self b (a ∷ xs) = ground (arith, any-append_self b xs)

  push_missing_keeps :
      (name : String) (quota es : List Bucket)
      → any (named name) quota ≡ true
      → any (named name) (push_missing quota es) ≡ true
  unfolding push_missing
  push_missing_keeps name quota [] h = h
  push_missing_keeps name quota (e ∷ es) h = elim (Bool-cases (any (named e.name) quota)) [
    | inl p ↦ rw p (push_missing_keeps name quota es h)
    | inr p ↦
        rw p (push_missing_keeps name (quota ++ (e ∷ [])) es (any-append name quota (e ∷ []) h))
  ]

  next_has :
      (e : Bucket) (quota : List Bucket)
      → any (named e.name) (if any (named e.name) quota then quota else quota ++ (e ∷ [])) ≡ true
  next_has e quota = elim (Bool-cases (any (named e.name) quota)) [
    | inl p ↦ rw p p
    | inr p ↦ rw p (any-append_self e quota)
  ]

  push_missing_all : (quota es : List Bucket) → AllPresent (push_missing quota es) es
  unfolding push_missing
  push_missing_all quota [] = tt
  push_missing_all quota (e ∷ es) =
      let next = if any (named e.name) quota then quota else quota ++ (e ∷ []) in
      (push_missing_keeps e.name next es (next_has e quota), push_missing_all next es)

  -- The buckets that an account of its kind is expected to have are there afterwards, and a second
  -- pass adds nothing.
  pub ensure_expected_buckets_present :
      (a : Account)
      → AllPresent (ensure_expected_buckets a).quota (expected_buckets (kind a))
        × (ensure_expected_buckets (ensure_expected_buckets a) ≡ ensure_expected_buckets a)
  unfolding ensure_expected_buckets
  ensure_expected_buckets_present a = (
    push_missing_all a.quota (expected_buckets (kind a)),
    ap (λ q. record a { quota = q })
        (push_missing_present _ (expected_buckets (kind a))
          (push_missing_all a.quota (expected_buckets (kind a)))),
  )

  -- The record has no field of the other kind.
  abbrev pub IsOfKind : {j : RecordJson} → Kind → Record j → Type 0
  IsOfKind Kind.oauth r = r.api_key ≡ none
  IsOfKind Kind.api_key r =
      (r.access_token ≡ none)
      × (r.refresh_token ≡ none)
      × (r.expires_at ≡ none)
      × (r.last_refresh_attempt_at ≡ none)
      × (r.last_refresh_success_at ≡ none)
      × (r.refresh_not_before ≡ none)

  module _ (j : RecordJson) where
    -- What an account is written as reads as its record.
    pub account_of-record_of :
        (a : Account)
        → j.to_buckets (j.from_buckets a.quota) ≡ some a.quota
        → a.display_name ≢ ""
        → account_of j (record_of j a) ≡ ok (ensure_expected_buckets a)
    unfolding account_of record_of record_credential restored
    account_of-record_of a codec name = ground (arith, codec, string_eq.same_iff a.display_name "")

    record_credential_sound :
        (k : Kind) (r : Record j) (c : Credential)
        → record_credential j k r ≡ ok c
        → (credential_kind c ≡ k) × IsOfKind k r
    unfolding record_credential
    record_credential_sound Kind.oauth r c e = ground arith
    record_credential_sound Kind.api_key r c e = ground arith

    account_of_parts :
        (r : Record j) (a : Account)
        → account_of j r ≡ ok a
        → (c : Credential) × (record_credential j r.kind r ≡ ok c)
          × (r.display_name ≢ "")
          × (ensure_expected_buckets (restored j r c) ≡ a)
    unfolding account_of
    account_of_parts r a e =
        let (c, rest, read) = >>=-ok (record_credential j r.kind r) _ e in
        (
          c,
          read,
          λ empty. ground (arith, string_eq.same_iff r.display_name ""),
          ground (arith, string_eq.same_iff r.display_name ""),
        )

    -- A record that `account_of` accepts has the kind and handle of the account it gives, a name,
    -- no field of the other credential kind, and the account has its expected buckets.
    pub account_of_sound :
        (r : Record j) (a : Account)
        → account_of j r ≡ ok a
        → (kind a ≡ r.kind)
          × (a.handle ≡ r.handle)
          × (a.display_name ≢ "")
          × IsOfKind r.kind r
          × AllPresent a.quota (expected_buckets (kind a))
    unfolding ensure_expected_buckets restored
    account_of_sound r a e =
        let (c, read, is_named, whole) = account_of_parts r a e in
        let (of_kind, no_other) = record_credential_sound r.kind r c read in
        subst
          (λ b.
            (kind b ≡ r.kind)
            × (b.handle ≡ r.handle)
            × (b.display_name ≢ "")
            × IsOfKind r.kind r
            × AllPresent b.quota (expected_buckets (kind b)))
          whole
          (of_kind, refl, is_named, no_other, (ensure_expected_buckets_present (restored j r c)).0)
