-- ===== src/Account/Persisted.antt =====
-- The persisted record of src/pool/account.rs and the rules that `from_record` checks; Persisted/Json has
-- its members. What `serde_json`, `uuid` and `time` make of one value is a parameter.
pub mod Json
pub mod RoundTrip
use jaynshare.Prelude.{
  String, Bool, ◌||◌, List, [], Option, none, some, Result, ok, err, ◌>>=◌, ok_or, is_some,
  unwrap_or, and_then, ◌==◌, string_eq, if◌then◌else◌,
}
use jaynshare.Time.{Instant, unix_epoch}
use jaynshare.External.{External, Uuid}
use jaynshare.Quota.{Kind, Bucket}
use jaynshare.Account.{Account, Provider, Source, Credential, ensure_expected_buckets, kind}

-- The errors of `from_record`.
pub data RecordError : Type 0 where
  oauth_fields_on_api_key api_key_missing api_key_on_oauth access_token_missing : RecordError
  expires_at_missing display_name_empty malformed : RecordError

-- `Option::flatten`
abbrev pub flatten {ℓ} : {A : Type ℓ} → Option (Option A) → Option A
flatten none = none
flatten (some o) = o

-- The values of JSON, and what each type is written as and read from: `from_time` is `time`'s own form of
-- an instant as a value, and `format_time` its RFC 3339 text.
pub record RecordJson ⦃x : External⦄ : Type 1 where
  pub Value : Type 0
  pub null : Value
  pub is_null : Value → Bool
  pub from_bool : Bool → Value
  pub to_bool : Value → Option Bool
  pub from_text : String → Value
  pub to_text : Value → Option String
  pub from_uuid : Uuid → Value
  pub to_uuid : Value → Option Uuid
  pub from_time : Instant → Value
  pub to_time : Value → Option Instant
  pub format_time : Instant → String
  pub parse_time : String → Option Instant
  pub from_buckets : List Bucket → Value
  pub to_buckets : Value → Option (List Bucket)

module _ ⦃x : External⦄ (j : RecordJson) where
  open j use {Value, from_buckets, to_buckets}

  pub record Record : Type 0 where
    pub kind : Kind
    pub handle : Uuid
    pub provider : Provider
    pub display_name : String
    pub profile_email : Option String
    pub account_uuid : Option Uuid
    pub organization_uuid : Option Uuid
    pub organization_name : Option String
    pub chatgpt_account_id : Option String
    pub source : Source
    pub enabled : Bool
    pub errored : Bool
    pub error_reason : Option String
    pub error_at : Option Instant
    pub api_key : Option String
    pub access_token : Option String
    pub refresh_token : Option (Option String)
    pub expires_at : Option Instant
    pub last_refresh_attempt_at : Option (Option Instant)
    pub last_refresh_success_at : Option (Option Instant)
    pub refresh_not_before : Option (Option Instant)
    pub quota : Option Value
    pub owner : Option String

  -- The fields that both kinds share.
  abbrev shared_record : Account → Record
  shared_record a = record {
    kind = kind a;
    handle = a.handle;
    provider = a.provider;
    display_name = a.display_name;
    profile_email = a.profile.email;
    account_uuid = a.profile.account_uuid;
    organization_uuid = a.profile.organization_uuid;
    organization_name = a.profile.organization_name;
    chatgpt_account_id = a.profile.chatgpt_account_id;
    source = a.source;
    enabled = a.enabled;
    errored = is_some a.errored;
    error_reason = elim a.errored [ none ↦ none | some e ↦ some e.reason ];
    error_at = elim a.errored [ none ↦ none | some e ↦ some e.at ];
    api_key = none;
    access_token = none;
    refresh_token = none;
    expires_at = none;
    last_refresh_attempt_at = none;
    last_refresh_success_at = none;
    refresh_not_before = none;
    quota = some (from_buckets a.quota);
    owner = a.owner;
  }

  -- `From<&Account> for Record`
  unfoldable pub record_of : Account → Record
  record_of a = elim a.credential [
    | Credential.api_key key ↦ record (shared_record a) { api_key = some key }
    | Credential.oauth c ↦ record (shared_record a) {
      access_token = some c.access_token;
      refresh_token = some c.refresh_token;
      expires_at = some c.expires_at;
      last_refresh_attempt_at = some c.last_refresh_attempt_at;
      last_refresh_success_at = some c.last_refresh_success_at;
      refresh_not_before = some c.refresh_not_before;
    }
  ]

  -- The credential that the per-kind rules admit.
  pub record_credential : Kind → Record → Result Credential RecordError
  record_credential Kind.api_key r =
      if is_some r.access_token
        || is_some r.refresh_token
        || is_some r.expires_at
        || is_some r.last_refresh_attempt_at
        || is_some r.last_refresh_success_at
        || is_some r.refresh_not_before
      then err oauth_fields_on_api_key
      else do key ← ok_or r.api_key api_key_missing; ok (Credential.api_key key)
  record_credential Kind.oauth r = if is_some r.api_key then err api_key_on_oauth else do
    access_token ← ok_or r.access_token access_token_missing
    expires_at ← ok_or r.expires_at expires_at_missing
    ok (
        Credential.oauth (record {
          access_token = access_token;
          refresh_token = flatten r.refresh_token;
          expires_at = expires_at;
          last_refresh_attempt_at = flatten r.last_refresh_attempt_at;
          last_refresh_success_at = flatten r.last_refresh_success_at;
          refresh_not_before = flatten r.refresh_not_before;
        }))

  -- The account that `from_record` puts together.
  pub restored : Record → Credential → Account
  restored r credential = record {
    handle = r.handle;
    provider = r.provider;
    display_name = r.display_name;
    profile = record {
      email = r.profile_email;
      account_uuid = r.account_uuid;
      organization_uuid = r.organization_uuid;
      organization_name = r.organization_name;
      chatgpt_account_id = r.chatgpt_account_id;
    };
    source = r.source;
    enabled = r.enabled;
    errored =
        if r.errored
        then some (record {
          reason = unwrap_or r.error_reason "unrecorded";
          at = unwrap_or r.error_at unix_epoch;
        })
        else none;
    credential = credential;
    quota = unwrap_or (and_then r.quota to_buckets) [];
    owner = r.owner;
  }

  -- What `from_record` does with the record that was read.
  pub account_of : Record → Result Account RecordError
  account_of r = do
    credential ← record_credential r.kind r
    if r.display_name == ""
        then err display_name_empty
        else ok (ensure_expected_buckets (restored r credential))
