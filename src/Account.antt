-- ===== src/Account.antt =====
-- src/pool/account.rs and `references` of src/pool/mod.rs: one pooled account, its credential, and
-- the refresh floors. Secrets are texts; what they hide when printed is not modelled.
pub mod Floors
pub mod Persisted
mod Tests
use jaynshare.Prelude.{
  ℕ, ◌+◌, String, Bool, true, false, ◌&&◌, ◌||◌, List, [], ◌∷◌, ◌++◌, Option, none, some, leb, ltb,
  ◌==◌, nat_eq, string_eq, option_eq, if◌then◌else◌, is_some_and, is_none, any, or, Eq, ◌↔◌, ◌≡◌,
  arith,
}
use jaynshare.Time.{Instant, seconds}
use jaynshare.External.{External, Uuid}
use jaynshare.Quota.{Kind, Bucket, expected_buckets, named}

-- src/provider/mod.rs
pub data Provider : Type 0 where
  anthropic codex : Provider

abbrev pub provider_beq : Provider → Provider → Bool
provider_beq anthropic anthropic = true
provider_beq codex codex = true
provider_beq _ _ = false

pub provider_beq_iff : (p q : Provider) → (provider_beq p q ≡ true) ↔ (p ≡ q)
provider_beq_iff p q = ground arith

instance abbrev pub provider_eq : Eq Provider
provider_eq = record { same = provider_beq; same_iff = provider_beq_iff }

-- Source class.
pub data Source : Type 0 where
  api_key_entry portable_json explicit_file managed_store browser : Source

pub record Profile : Type 0 where
  pub email : Option String
  pub account_uuid : Option Uuid
  pub organization_uuid : Option Uuid
  pub organization_name : Option String
  pub chatgpt_account_id : Option String

pub record OAuthCredential : Type 0 where
  pub access_token : String
  pub refresh_token : Option String
  pub expires_at : Instant
  pub last_refresh_attempt_at : Option Instant
  pub last_refresh_success_at : Option Instant
  pub refresh_not_before : Option Instant

pub data Credential : Type 0 where
  oauth : OAuthCredential → Credential
  api_key : String → Credential

-- `Credential::kind`
abbrev pub credential_kind : Credential → Kind
credential_kind (oauth c) = Kind.oauth
credential_kind (api_key k) = Kind.api_key

pub record Errored : Type 0 where
  pub reason : String
  pub at : Instant

module _ ⦃x : External⦄ where
  open x use {fold, parse_uuid}

  pub record Account : Type 0 where
    pub handle : Uuid
    pub provider : Provider
    pub display_name : String
    pub profile : Profile
    pub source : Source
    pub enabled : Bool
    pub errored : Option Errored
    pub credential : Credential
    pub quota : List Bucket
    pub owner : Option String

  abbrev pub kind : Account → Kind
  kind a = credential_kind a.credential

  -- Enabled and not errored.
  unfoldable pub is_usable : Account → Bool
  is_usable a = a.enabled && is_none a.errored

  -- `Account::new`, on the handle that `Uuid::new_v4` draws.
  unfoldable pub new : Uuid → Provider → String → Profile → Source → Credential → Account
  new handle provider display_name profile source credential = record {
    handle = handle;
    provider = provider;
    display_name = display_name;
    profile = profile;
    source = source;
    enabled = true;
    errored = none;
    credential = credential;
    quota = expected_buckets (credential_kind credential);
    owner = none;
  }

  -- The loop of `ensure_expected_buckets`.
  unfoldable pub push_missing : List Bucket → List Bucket → List Bucket
  push_missing quota [] = quota
  push_missing quota (e ∷ es) =
      push_missing (if any (named e.name) quota then quota else quota ++ (e ∷ [])) es

  unfoldable pub ensure_expected_buckets : Account → Account
  ensure_expected_buckets a = record a { quota = push_missing a.quota (expected_buckets (kind a)) }

  -- `references`: the display name, profile email, handle, account UUID or organisation UUID.
  unfoldable pub references : Account → String → Bool
  references a reference =
      let by_uuid : Bool = elim (parse_uuid reference) [
        | none ↦ false
        | some uuid ↦
            a.handle == uuid
            || a.profile.account_uuid == some uuid
            || a.profile.organization_uuid == some uuid
      ] in
      fold a.display_name == fold reference
      || is_some_and a.profile.email (λ e. fold e == fold reference)
      || by_uuid

-- The refresh floors of `OAuthCredential`.
unfoldable pub expires_within : OAuthCredential → ℕ → Instant → Bool
expires_within c margin_seconds now = leb c.expires_at (now + seconds margin_seconds)

unfoldable pub is_expired : OAuthCredential → Instant → Bool
is_expired c now = leb c.expires_at now

unfoldable pub in_success_floor : OAuthCredential → Instant → Bool
in_success_floor c now =
    is_some_and c.last_refresh_success_at (λ at. leb at now && ltb now (at + seconds 10))

unfoldable pub in_transient_floor : OAuthCredential → Instant → Bool
in_transient_floor c now = is_some_and c.refresh_not_before (λ at. ltb now at)

unfoldable pub replaced_by : OAuthCredential → OAuthCredential → Instant → OAuthCredential
replaced_by old fresh now = record fresh {
  refresh_token = or fresh.refresh_token old.refresh_token;
  last_refresh_attempt_at = some now;
  last_refresh_success_at = some now;
  refresh_not_before = none;
}
