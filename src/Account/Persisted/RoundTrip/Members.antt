-- ===== src/Account/Persisted/RoundTrip/Members.antt =====
-- Each member of a record reads as it was written, in src/pool/account.rs.
use jaynshare.Prelude.{
  String, Bool, true, false, not, ◌&&◌, List, [], ◌∷◌, Option, none, some, ok, ◌≡◌, ◌≢◌, refl, ap,
  ◌∙◌, ◌==◌, string_eq, all, arith, if◌then◌else◌,
}
use jaynshare.Time.{Instant}
use jaynshare.External.{External, Uuid}
use jaynshare.HashMap
use jaynshare.HashMap.{HashMap}
use jaynshare.Quota.{Kind}
use jaynshare.Account.{
  Account, Provider, anthropic, codex, provider_eq, Source, api_key_entry, portable_json,
  explicit_file, managed_store, browser, ensure_expected_buckets,
}
use jaynshare.Account.Persisted.{RecordJson, Record, record_of}
use jaynshare.Account.Persisted.RoundTrip.{account_of-record_of}
use jaynshare.Account.Persisted.Json.{
  kind_text, kind_of, source_text, source_of, provider_name, provider_of, written, required,
  defaulted, nullable, doubled, or_null, double_option, double_time, unless_none, members,
  to_record, read_as, read_members, is_known, read_record, from_record,
}

module _ {V : Type 0} where
  -- What the member of the name holds.
  abbrev member_of : List (String × Option V) → String → Option V
  member_of [] k = none
  member_of ((i, o) ∷ slots) k = if i == k then o else member_of slots k

  abbrev is_fresh : String → List (String × Option V) → Bool
  is_fresh k = all (λ (e : String × Option V). not (e.0 == k))

  abbrev is_distinct : List (String × Option V) → Bool
  is_distinct [] = true
  is_distinct ((k, o) ∷ slots) = is_fresh k slots && is_distinct slots

  get-written_fresh :
      (slots : List (String × Option V)) (k : String)
      → is_fresh k slots ≡ true
      → HashMap.get (written slots) k ≡ none
  unfolding written HashMap.get
  get-written_fresh [] k h = refl
  get-written_fresh ((i, none) ∷ slots) k h = get-written_fresh slots k (ground (arith, h))
  get-written_fresh ((i, some v) ∷ slots) k h = ground (arith, get-written_fresh slots k)

  get-written :
      (slots : List (String × Option V)) (k : String)
      → is_distinct slots ≡ true
      → HashMap.get (written slots) k ≡ member_of slots k
  unfolding written HashMap.get
  get-written [] k h = refl
  get-written ((i, none) ∷ slots) k h =
      ground (arith, get-written slots k, get-written_fresh slots k, string_eq.same_iff i k)
  get-written ((i, some v) ∷ slots) k h = ground (arith, get-written slots k)

  all-written :
      (p : String → Bool) (slots : List (String × Option V))
      → all (λ (e : String × Option V). p e.0) slots ≡ true
      → all (λ (e : String × V). p e.0) (written slots) ≡ true
  unfolding written
  all-written p [] h = refl
  all-written p ((i, none) ∷ slots) h = ground (arith, all-written p slots)
  all-written p ((i, some v) ∷ slots) h = ground (arith, all-written p slots)

kind_of-kind_text : (k : Kind) → kind_of (kind_text k) ≡ some k
kind_of-kind_text Kind.oauth = refl
kind_of-kind_text Kind.api_key = refl

source_of-source_text : (s : Source) → source_of (source_text s) ≡ some s
source_of-source_text api_key_entry = refl
source_of-source_text portable_json = refl
source_of-source_text explicit_file = refl
source_of-source_text managed_store = refl
source_of-source_text browser = refl

-- What the crates promise: a value that is written reads as what it was, and only `null` is null.
pub record IsFaithful ⦃x : External⦄ (j : RecordJson) : Type 0 where
  pub nulls : j.is_null j.null ≡ true
  pub bools : (b : Bool) → j.to_bool (j.from_bool b) ≡ some b
  pub texts :
      (s : String) → (j.is_null (j.from_text s) ≡ false) × (j.to_text (j.from_text s) ≡ some s)
  pub uuids :
      (u : Uuid) → (j.is_null (j.from_uuid u) ≡ false) × (j.to_uuid (j.from_uuid u) ≡ some u)
  pub times :
      (t : Instant) → (j.is_null (j.from_time t) ≡ false) × (j.to_time (j.from_time t) ≡ some t)
  pub formats : (t : Instant) → j.parse_time (j.format_time t) ≡ some t

module _ ⦃x : External⦄ (j : RecordJson) (laws : IsFaithful j) where
  open j use {Value, null, is_null, from_text, to_text, format_time, parse_time}

  -- A writer of values that are not null, and its reader.
  abbrev Reverses {ℓ} : {A : Type ℓ} → (A → Value) → (Value → Option A) → Type ℓ
  Reverses {A = A} write read = (a : A) → (is_null (write a) ≡ false) × (read (write a) ≡ some a)

  required-some :
      {A : Type 0} (read : Value → Option A) (v : Value) (a : A)
      → read v ≡ some a
      → required read (some v) ≡ ok a
  unfolding required
  required-some read v a h = rw h refl

  nullable-or_null :
      {A : Type 0} (write : A → Value) (read : Value → Option A) (o : Option A)
      → Reverses write read
      → nullable is_null read (some (or_null j write o)) ≡ ok o
  unfolding nullable
  nullable-or_null write read none h = rw laws.nulls refl
  nullable-or_null write read (some a) h = rw ((h a).0, (h a).1) refl

  nullable-unless_none :
      {A : Type 0} (write : A → Value) (read : Value → Option A) (o : Option A)
      → Reverses write read
      → nullable is_null read (unless_none j (or_null j write) o) ≡ ok o
  unfolding nullable
  nullable-unless_none write read none h = refl
  nullable-unless_none write read (some a) h = rw ((h a).0, (h a).1) refl

  doubled-double_option :
      (o : Option (Option String))
      → doubled is_null to_text (unless_none j (double_option j) o) ≡ ok o
  unfolding doubled
  doubled-double_option none = refl
  doubled-double_option (some none) = rw laws.nulls refl
  doubled-double_option (some (some s)) = rw ((laws.texts s).0, (laws.texts s).1) refl

  doubled-double_time :
      (o : Option (Option Instant))
      → doubled is_null (read_as j parse_time) (unless_none j (double_time j) o) ≡ ok o
  unfolding doubled
  doubled-double_time none = refl
  doubled-double_time (some none) = rw laws.nulls refl
  doubled-double_time (some (some t)) =
      rw ((laws.texts (format_time t)).0, (laws.texts (format_time t)).1, laws.formats t) refl

  defaulted-provider :
      (p : Provider)
      → defaulted anthropic
          (read_as j provider_of)
          (if p == anthropic then none else some (from_text (provider_name p)))
        ≡ ok p
  unfolding defaulted
  defaulted-provider anthropic = refl
  defaulted-provider codex = rw ((laws.texts "codex").1) refl

  read_kind : (k : Kind) → read_as j kind_of (from_text (kind_text k)) ≡ some k
  read_kind k = rw ((laws.texts (kind_text k)).1) (kind_of-kind_text k)

  read_source : (s : Source) → read_as j source_of (from_text (source_text s)) ≡ some s
  read_source s = rw ((laws.texts (source_text s)).1) (source_of-source_text s)

  -- A record's quota is not null.
  abbrev IsPlain : Record j → Type 0
  IsPlain r = (v : Value) → r.quota ≡ some v → is_null v ≡ false

  nullable-quota :
      (o : Option Value)
      → ((v : Value) → o ≡ some v → is_null v ≡ false)
      → nullable is_null (λ v. some v) (some (or_null j (λ v. v) o)) ≡ ok o
  unfolding nullable
  nullable-quota none h = rw laws.nulls refl
  nullable-quota (some v) h = rw (h v refl) refl

  read_members-members :
      (r : Record j) → IsPlain r → read_members j (member_of (members j r)) ≡ ok r
  unfolding read_members
  read_members-members r plain =
      rw
        (
          required-some (read_as j kind_of) (from_text (kind_text r.kind)) r.kind
              (read_kind r.kind),
          required-some j.to_uuid (j.from_uuid r.handle) r.handle (laws.uuids r.handle).1,
          defaulted-provider r.provider,
          required-some to_text (from_text r.display_name) r.display_name
              (laws.texts r.display_name).1,
          nullable-or_null from_text to_text r.profile_email laws.texts,
          nullable-or_null j.from_uuid j.to_uuid r.account_uuid laws.uuids,
          nullable-or_null j.from_uuid j.to_uuid r.organization_uuid laws.uuids,
          nullable-or_null from_text to_text r.organization_name laws.texts,
          nullable-unless_none from_text to_text r.chatgpt_account_id laws.texts,
          required-some (read_as j source_of) (from_text (source_text r.source)) r.source
              (read_source r.source),
          required-some j.to_bool (j.from_bool r.enabled) r.enabled (laws.bools r.enabled),
          required-some j.to_bool (j.from_bool r.errored) r.errored (laws.bools r.errored),
          nullable-or_null from_text to_text r.error_reason laws.texts,
          nullable-or_null j.from_time j.to_time r.error_at laws.times,
          nullable-unless_none from_text to_text r.api_key laws.texts,
          nullable-unless_none from_text to_text r.access_token laws.texts,
          doubled-double_option r.refresh_token,
          nullable-unless_none j.from_time j.to_time r.expires_at laws.times,
          doubled-double_time r.last_refresh_attempt_at,
          doubled-double_time r.last_refresh_success_at,
          doubled-double_time r.refresh_not_before,
          nullable-quota r.quota plain,
          nullable-unless_none from_text to_text r.owner laws.texts,
        )
        refl

  read_record-written : (r : Record j) → IsPlain r → read_record j (written (members j r)) ≡ ok r
  unfolding read_record is_known
  read_record-written r plain =
      let all_known = all-written is_known (members j r) refl in
      let found : HashMap.get (written (members j r)) ≡ member_of (members j r) =
        λ i k. get-written (members j r) k refl i in
      rw all_known (ap (read_members j) found ∙ read_members-members r plain)

  record_of-IsPlain :
      (a : Account) → is_null (j.from_buckets a.quota) ≡ false → IsPlain (record_of j a)
  unfolding record_of
  record_of-IsPlain a h v e = ground arith

  -- Reading what a named account is persisted as, the members that its record is written with,
  -- gives the account with its expected buckets; where JSON reads back each value that it wrote and
  -- has none but `null` as null, an instant is read back from its RFC 3339 text, and the buckets of
  -- the account are read back.
  pub from_record-to_record :
      (a : Account)
      → is_null (j.from_buckets a.quota) ≡ false
      → j.to_buckets (j.from_buckets a.quota) ≡ some a.quota
      → a.display_name ≢ ""
      → from_record j (to_record j a) ≡ ok (ensure_expected_buckets a)
  unfolding from_record to_record
  from_record-to_record a plain codec name =
      rw (read_record-written (record_of j a) (record_of-IsPlain a plain))
        (account_of-record_of j a codec name)
