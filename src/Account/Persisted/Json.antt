-- ===== src/Account/Persisted/Json.antt =====
-- The members of a persisted record, as the attributes of `Record` in src/pool/account.rs write and read
-- them, with its modules `double_option` and `double_time`.
use jaynshare.Prelude.{
  String, Bool, List, [], ◌∷◌, Option, none, some, Result, ok, err, ◌>>=◌, ok_or, any, all,
  and_then, map_some, ◌==◌, string_eq, if◌then◌else◌,
}
use jaynshare.Time.{Instant}
use jaynshare.External.{External}
use jaynshare.HashMap
use jaynshare.HashMap.{HashMap}
use jaynshare.Quota.{Kind}
use jaynshare.Account.{
  Account, Provider, anthropic, codex, provider_eq, Source, api_key_entry, portable_json,
  explicit_file, managed_store, browser,
}
use jaynshare.Account.Persisted.{
  RecordJson, Record, RecordError, malformed, flatten, record_of, account_of,
}

-- The names that serde gives the variants.
abbrev pub kind_text : Kind → String
kind_text Kind.oauth = "oauth"
kind_text Kind.api_key = "api_key"

abbrev pub kind_of : String → Option Kind
kind_of s =
    if s == "oauth" then some Kind.oauth else if s == "api_key" then some Kind.api_key else none

abbrev pub source_text : Source → String
source_text api_key_entry = "api-key-entry"
source_text portable_json = "portable-json"
source_text explicit_file = "explicit-file"
source_text managed_store = "managed-store"
source_text browser = "browser"

abbrev pub source_of : String → Option Source
source_of s =
    if s == "api-key-entry"
    then some api_key_entry
    else if s == "portable-json"
    then some portable_json
    else if s == "explicit-file"
    then some explicit_file
    else if s == "managed-store"
    then some managed_store
    else if s == "browser"
    then some browser
    else none

abbrev pub provider_name : Provider → String
provider_name anthropic = "anthropic"
provider_name codex = "codex"

abbrev pub provider_of : String → Option Provider
provider_of s =
    if s == "anthropic" then some anthropic else if s == "codex" then some codex else none

-- `deny_unknown_fields`
abbrev pub fields : List String
fields =
    "kind" ∷ "handle" ∷ "provider" ∷ "display_name" ∷ "profile_email" ∷ "account_uuid"
    ∷ "organization_uuid" ∷ "organization_name" ∷ "chatgpt_account_id" ∷ "source" ∷ "enabled"
    ∷ "errored" ∷ "error_reason" ∷ "error_at" ∷ "api_key" ∷ "access_token" ∷ "refresh_token"
    ∷ "expires_at" ∷ "last_refresh_attempt_at" ∷ "last_refresh_success_at" ∷ "refresh_not_before"
    ∷ "quota" ∷ "owner" ∷ []

unfoldable pub is_known : String → Bool
is_known name = any (λ f. f == name) fields

-- A member that is skipped has no value.
module _ {V : Type 0} where
  unfoldable pub written : List (String × Option V) → HashMap String V
  written [] = []
  written ((k, none) ∷ slots) = written slots
  written ((k, some v) ∷ slots) = (k, v) ∷ written slots

-- How a member is read: a missing required one, or one that does not read, is an error.
module _ {V A : Type 0} where
  unfoldable pub required : (V → Option A) → Option V → Result {0, 0} A RecordError
  required read none = err malformed
  required read (some v) = ok_or (read v) malformed

  -- `default`
  unfoldable pub defaulted : A → (V → Option A) → Option V → Result {0, 0} A RecordError
  defaulted d read none = ok d
  defaulted d read (some v) = ok_or (read v) malformed

  -- An `Option`, which is `None` for `null` and where the member is missing.
  unfoldable pub nullable :
      (V → Bool) → (V → Option A) → Option V → Result {0, 0} (Option A) RecordError
  nullable is_null read none = ok none
  nullable is_null read (some v) =
      if is_null v then ok none else ok_or (map_some (λ a. some a) (read v)) malformed

  -- `double_option::deserialize`, `double_time::deserialize`, and `None` where the member is missing.
  unfoldable pub doubled :
      (V → Bool) → (V → Option A) → Option V → Result {0, 0} (Option (Option A)) RecordError
  doubled is_null read none = ok none
  doubled is_null read (some v) =
      if is_null v then ok (some none) else ok_or (map_some (λ a. some (some a)) (read v)) malformed

module _ ⦃x : External⦄ (j : RecordJson) where
  open j use {
    Value, null, is_null, from_bool, to_bool, from_text, to_text, from_uuid, to_uuid, from_time,
    to_time, format_time, parse_time,
  }

  abbrev pub or_null {ℓ} : {A : Type ℓ} → (A → Value) → Option A → Value
  or_null f none = null
  or_null f (some a) = f a

  -- `double_option::serialize`
  abbrev pub double_option : Option (Option String) → Value
  double_option v = or_null from_text (flatten v)

  -- `double_time::serialize`
  abbrev pub double_time : Option (Option Instant) → Value
  double_time v = or_null (λ t. from_text (format_time t)) (flatten v)

  -- `skip_serializing_if = "Option::is_none"`
  abbrev pub unless_none {ℓ} : {A : Type ℓ} → (Option A → Value) → Option A → Option Value
  unless_none f none = none
  unless_none f (some a) = some (f (some a))

  -- The members in order.
  abbrev pub members : Record j → List (String × Option Value)
  members r =
      ("kind", some (from_text (kind_text r.kind)))
      ∷ ("handle", some (from_uuid r.handle))
      ∷ (
        "provider",
        if r.provider == anthropic then none else some (from_text (provider_name r.provider)),
      )
      ∷ ("display_name", some (from_text r.display_name))
      ∷ ("profile_email", some (or_null from_text r.profile_email))
      ∷ ("account_uuid", some (or_null from_uuid r.account_uuid))
      ∷ ("organization_uuid", some (or_null from_uuid r.organization_uuid))
      ∷ ("organization_name", some (or_null from_text r.organization_name))
      ∷ ("chatgpt_account_id", unless_none (or_null from_text) r.chatgpt_account_id)
      ∷ ("source", some (from_text (source_text r.source)))
      ∷ ("enabled", some (from_bool r.enabled))
      ∷ ("errored", some (from_bool r.errored))
      ∷ ("error_reason", some (or_null from_text r.error_reason))
      ∷ ("error_at", some (or_null from_time r.error_at))
      ∷ ("api_key", unless_none (or_null from_text) r.api_key)
      ∷ ("access_token", unless_none (or_null from_text) r.access_token)
      ∷ ("refresh_token", unless_none double_option r.refresh_token)
      ∷ ("expires_at", unless_none (or_null from_time) r.expires_at)
      ∷ ("last_refresh_attempt_at", unless_none double_time r.last_refresh_attempt_at)
      ∷ ("last_refresh_success_at", unless_none double_time r.last_refresh_success_at)
      ∷ ("refresh_not_before", unless_none double_time r.refresh_not_before)
      ∷ ("quota", some (or_null (λ v. v) r.quota))
      ∷ ("owner", unless_none (or_null from_text) r.owner)
      ∷ []

  -- `to_record`, as the members of the object.
  unfoldable pub to_record : Account → HashMap String Value
  to_record a = written (members (record_of j a))

  abbrev pub read_as {ℓ} : {A : Type ℓ} → (String → Option A) → Value → Option A
  read_as of v = and_then (to_text v) of

  -- The record, by what a member holds.
  unfoldable pub read_members : (String → Option Value) → Result {0, 0} (Record j) RecordError
  read_members member = do
    kind ← required (read_as kind_of) (member "kind")
    handle ← required to_uuid (member "handle")
    provider ← defaulted anthropic (read_as provider_of) (member "provider")
    display_name ← required to_text (member "display_name")
    profile_email ← nullable is_null to_text (member "profile_email")
    account_uuid ← nullable is_null to_uuid (member "account_uuid")
    organization_uuid ← nullable is_null to_uuid (member "organization_uuid")
    organization_name ← nullable is_null to_text (member "organization_name")
    chatgpt_account_id ← nullable is_null to_text (member "chatgpt_account_id")
    source ← required (read_as source_of) (member "source")
    enabled ← required to_bool (member "enabled")
    errored ← required to_bool (member "errored")
    error_reason ← nullable is_null to_text (member "error_reason")
    error_at ← nullable is_null to_time (member "error_at")
    api_key ← nullable is_null to_text (member "api_key")
    access_token ← nullable is_null to_text (member "access_token")
    refresh_token ← doubled is_null to_text (member "refresh_token")
    expires_at ← nullable is_null to_time (member "expires_at")
    last_refresh_attempt_at ←
        doubled is_null (read_as parse_time) (member "last_refresh_attempt_at")
    last_refresh_success_at ←
        doubled is_null (read_as parse_time) (member "last_refresh_success_at")
    refresh_not_before ← doubled is_null (read_as parse_time) (member "refresh_not_before")
    quota ← nullable is_null (λ v. some v) (member "quota")
    owner ← nullable is_null to_text (member "owner")
    ok (record {
      kind = kind;
      handle = handle;
      provider = provider;
      display_name = display_name;
      profile_email = profile_email;
      account_uuid = account_uuid;
      organization_uuid = organization_uuid;
      organization_name = organization_name;
      chatgpt_account_id = chatgpt_account_id;
      source = source;
      enabled = enabled;
      errored = errored;
      error_reason = error_reason;
      error_at = error_at;
      api_key = api_key;
      access_token = access_token;
      refresh_token = refresh_token;
      expires_at = expires_at;
      last_refresh_attempt_at = last_refresh_attempt_at;
      last_refresh_success_at = last_refresh_success_at;
      refresh_not_before = refresh_not_before;
      quota = quota;
      owner = owner;
    })

  unfoldable pub read_record : HashMap String Value → Result {0, 0} (Record j) RecordError
  read_record object =
      if all (λ (m : String × Value). is_known m.0) object
      then read_members (HashMap.get object)
      else err malformed

  -- `from_record`, on the members of an object.
  unfoldable pub from_record : HashMap String Value → Result {0, 0} Account RecordError
  from_record object = read_record object >>= account_of j
