-- ===== src/Pool/Tests.antt =====
-- Runs of the pool, and the theorems of Pool at concrete inputs.
use jaynshare.Prelude.{◌≡◌, ◌≢◌, refl, true, false, [], ◌∷◌, none, some, ok, inl, find, least_from}
use jaynshare.Scaled.{scaled}
use jaynshare.Time.{seconds}
use jaynshare.Fixtures.{alice, bob, weekly_at, plain_settings}
use jaynshare.HashMap
use jaynshare.Quota.{
  Bucket, Observation, Scope, Source, Classification, unknown_bucket, classify, governed,
  exhausted_among, proved, proved_oauth, named, observes, apply, change_named, observe,
  hold_exhausted, hold_end, effective_utilization, state, expire, expire_bucket,
}
use jaynshare.Account.{Account, references, kind, is_usable}
use jaynshare.Selection.{default_facts, Choice, Cause}
use jaynshare.Sessions.{reap, active_per_account, in_flight_per_account, add_active, add_in_flight}
use jaynshare.Selection.Bars.{
  quota_bar, governs, governing_weekly, governing_buckets, priority_of, weekly_reset_rank,
  first_bar, bucket_bar,
}
use jaynshare.Selection.Pass.{
  select, run, pinned, preferred, route_preference, bound_answer, moves, binds, from_pool,
  over_eligible, ranked, ranking_key, moved_cause, pass_bar, models_bar, model_bar, excluded,
  route_allows, org_hold, priority,
}
use jaynshare.Pool.{
  Pool, get, predict, refreshed, expire_quota, snapshot, accounts_of, default_account,
  organisation_holds,
}
use jaynshare.Pool.Bookkeeping.{
  Response, record_429, classified, hold_classified, hold_exhaustion, hold_all, hold_named,
  change_account, change_admission, throttle_hold_end,
}
use jaynshare.Pool.Holding.{record_429-barred}
use jaynshare.Pool.Operating.{
  QuotaSettings, resolve, resolve_among, one_of, release_waiting_revalidation,
}
use jaynshare.Ramp.{idle}
use jaynshare.Pool.Predicting.{Fresh, predict-Fresh}

abbrev pool : Pool
pool = record {
  accounts = alice ∷ bob ∷ [];
  usage = [];
  sessions = [];
  operator = record { defaults = []; route_preferences = [] };
  organisation_quota = [];
  families = [];
  admission = [];
  next_revalidation = none;
}

-- The weekly window is rejected.
abbrev rejected : Observation
rejected = record {
  name = "weekly";
  scope = Scope.account;
  utilization = some 1000;
  status = some "rejected";
  limit = none;
  remaining = none;
  reset_at = some (seconds 500);
}

abbrev exhausting : Response
exhausting = record { is_spend_cap = false; fresh = rejected ∷ []; retry_after = some 30 }

abbrev throttling : Response
throttling = record { is_spend_cap = false; fresh = []; retry_after = some 30 }

alice-get : get pool 1 ≡ some alice
unfolding get
alice-get = refl

exhausting-classified :
    classified pool alice none exhausting ≡ Classification.exhaustion ("weekly" ∷ [])
unfolding classified classify governed exhausted_among proved proved_oauth named observes
    effective_utilization jaynshare.Pool.family_for
exhausting-classified = refl

throttling-classified : classified pool alice none throttling ≡ Classification.throttle
unfolding classified classify governed exhausted_among proved proved_oauth named observes
    effective_utilization jaynshare.Pool.family_for
throttling-classified = refl

-- The weekly bucket and the account as the 429 leaves them.
abbrev full_week : Bucket
full_week = record (weekly_at 1000) {
  observed_at = some (seconds 100);
  source = some Source.response_headers;
  status = some "rejected";
  reset_at = some (seconds 500);
  exhaustion_hold_until = some (seconds 500);
}

abbrev held_alice : Account
held_alice = record alice { quota = unknown_bucket "session" Scope.account ∷ full_week ∷ [] }

alice_held-get : get (record_429 pool 1 none exhausting (seconds 100)).0 1 ≡ some held_alice
unfolding get record_429 hold_classified hold_exhaustion hold_all hold_named change_account
    change_admission apply change_named observe hold_exhausted hold_end classified classify governed
    exhausted_among proved proved_oauth named observes effective_utilization
    jaynshare.Pool.family_for
alice_held-get = refl

week_found : find (named "weekly") held_alice.quota ≡ some full_week
unfolding named
week_found = refl

week_governs : governs (kind held_alice) (governing_weekly none none) full_week ≡ true
unfolding governs governing_weekly
week_governs = refl

record_429-barred_example :
    quota_bar held_alice plain_settings (seconds 100) true none none none ≢ ok tt
record_429-barred_example =
    record_429-barred pool 1 alice held_alice none exhausting (seconds 100) ("weekly" ∷ []) "weekly"
      full_week plain_settings true none none none alice-get refl exhausting-classified (inl refl)
      alice_held-get week_found week_governs

-- The ranking picks alice.
abbrev to_alice : Choice
to_alice = record {
  handle = 1;
  cause = Cause.by_ranking;
  default_moved_from = none;
  default_moved_cause = none;
  binds = false;
  advisor_fallback = false;
}

alice_predicted : (predict pool default_facts plain_settings (seconds 100)).1 ≡ ok to_alice
unfolding predict refreshed expire_quota expire expire_bucket snapshot accounts_of default_account
    organisation_holds reap active_per_account in_flight_per_account add_active add_in_flight select
    run pinned preferred route_preference bound_answer moves binds from_pool over_eligible ranked
    ranking_key moved_cause pass_bar models_bar model_bar excluded route_allows org_hold priority
    priority_of weekly_reset_rank governing_buckets governs governing_weekly quota_bar first_bar
    bucket_bar state effective_utilization least_from is_usable named HashMap.get HashMap.retain
    HashMap.map_values jaynshare.Selection.Bars.family_for
alice_predicted = refl

predict-Fresh_example : (a : Account) × Fresh pool default_facts (seconds 100) to_alice a
predict-Fresh_example =
    predict-Fresh pool default_facts plain_settings (seconds 100) to_alice alice_predicted

alice_resolved : resolve pool "alice" ≡ ok alice
unfolding resolve resolve_among one_of references
alice_resolved = refl

abbrev gate : QuotaSettings
gate = record {
  probe_enabled = true;
  probe_interval_seconds = 300;
  probe_deadline_seconds = 10;
  revalidation_floor_seconds = 30;
  revalidation_interval_seconds = 60;
}

-- Alice is throttled until second 400, and saw her last 429 at second 100.
abbrev paused_pool : Pool
paused_pool = record pool {
  admission =
      (1, record idle { throttle_hold_until = some (seconds 400); last_429 = some (seconds 100) })
      ∷ [];
}

released : (release_waiting_revalidation paused_pool 1 gate (seconds 130)).1 ≡ true
unfolding release_waiting_revalidation throttle_hold_end HashMap.get
released = refl
