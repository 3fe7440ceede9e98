-- ===== src/Fixtures.antt =====
-- Accounts and settings that the tests and witnesses share.
use jaynshare.Prelude.{ℕ, String, true, false, none, some, [], ◌∷◌}
use jaynshare.Scaled.{scaled}
use jaynshare.Time.{seconds}
use jaynshare.Ramp.{RampSettings}
use jaynshare.Selection.Bars.{SelectionSettings}
use jaynshare.Quota.{Bucket, Scope, unknown_bucket}
use jaynshare.Account.{Account, Provider, Source, Profile, OAuthCredential, Credential}

abbrev pub no_profile : Profile
no_profile = record {
  email = none;
  account_uuid = none;
  organization_uuid = none;
  organization_name = none;
  chatgpt_account_id = none;
}

abbrev pub family : OAuthCredential
family = record {
  access_token = "access";
  refresh_token = some "refresh";
  expires_at = seconds 1000;
  last_refresh_attempt_at = none;
  last_refresh_success_at = none;
  refresh_not_before = none;
}

-- A weekly bucket of the given utilisation, observed at second 5.
abbrev pub weekly_at : ℕ → Bucket
weekly_at u = record (unknown_bucket "weekly" Scope.account) {
  utilization = some u;
  observed_at = some (seconds 5);
}

-- A subscription with an unknown session window.
abbrev pub subscription : ℕ → String → ℕ → Account
subscription handle name u = record {
  handle = handle;
  provider = Provider.anthropic;
  display_name = name;
  profile = record no_profile { account_uuid = some handle };
  source = Source.portable_json;
  enabled = true;
  errored = none;
  credential = Credential.oauth family;
  quota = unknown_bucket "session" Scope.account ∷ weekly_at u ∷ [];
  owner = none;
}

abbrev pub alice : Account
alice = subscription 1 "alice" 100

abbrev pub bob : Account
bob = subscription 2 "bob" 990

abbrev pub no_ramp : RampSettings
no_ramp = record {
  enabled = false;
  initial_concurrency = 1;
  concurrency_step = 1;
  step_interval_ms = 1000;
  window_seconds = 60;
}

-- A threshold of 95 %, and no routes.
abbrev pub plain_settings : SelectionSettings
plain_settings = record {
  switch_threshold = 950;
  distribute_sessions = false;
  failover = true;
  blocked_models = [];
  priorities = [];
  routes = [];
  ramp = no_ramp;
}
