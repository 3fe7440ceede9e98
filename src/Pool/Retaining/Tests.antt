-- ===== src/Pool/Retaining/Tests.antt =====
-- Runs of the reload and of the restored quota.
use jaynshare.Prelude.{◌≡◌, refl, [], ◌∷◌, none, some, map_some, or, nat_eq, string_eq}
use jaynshare.Scaled.{scaled}
use jaynshare.Time.{seconds}
use jaynshare.External.{Uuid}
use jaynshare.HashMap
use jaynshare.Fixtures.{weekly_at}
use jaynshare.Quota.{Bucket, expire_bucket}
use jaynshare.Selection.{Route}
use jaynshare.Pool.{Pool}
use jaynshare.Pool.Retaining.{
  OrganisationJson, sort, is_configured, retain_route_preferences, organisation_quota_records,
  restore_organisation_quota,
}
use jaynshare.Pool.Retaining.Reloading.{restore_organisation_quota-records}

abbrev lawn : Pool
lawn = record {
  accounts = [];
  usage = [];
  sessions = [];
  operator = record {
    defaults = [];
    route_preferences = ("slow", 2) ∷ ("fast", 1) ∷ ("cheap", 1) ∷ [];
  };
  organisation_quota = (9, weekly_at 700) ∷ (4, weekly_at 300) ∷ [];
  families = [];
  admission = [];
  next_revalidation = none;
}

abbrev fast : Route
fast = record { name = "fast"; patterns = []; accounts = none; bucket = none }

dropped : (retain_route_preferences lawn (fast ∷ [])).1 ≡ ("cheap", 1) ∷ ("slow", 2) ∷ []
unfolding retain_route_preferences is_configured sort
dropped = refl

-- A JSON value as what it was written from.
abbrev plain_json : OrganisationJson
plain_json = record {
  Value = Uuid × Bucket;
  to_value = λ b. (0, b);
  with_organisation = λ v o. (o, v.1);
  organisation_of = λ v. some v.0;
  from_value = λ v. some v.1;
}

abbrev empty_pool : Pool
empty_pool = record lawn { organisation_quota = [] }

written_by_uuid :
    organisation_quota_records plain_json lawn ≡ (4, weekly_at 300) ∷ (9, weekly_at 700) ∷ []
unfolding organisation_quota_records sort
written_by_uuid = refl

restore_organisation_quota-records_example :
    HashMap.get
      (restore_organisation_quota plain_json empty_pool
        (organisation_quota_records plain_json lawn)
        (seconds 6)).organisation_quota
      9
    ≡ map_some
        (λ b. (expire_bucket b (seconds 6)).0)
        (or (HashMap.get lawn.organisation_quota 9) (HashMap.get empty_pool.organisation_quota 9))
unfolding HashMap.get
restore_organisation_quota-records_example =
    restore_organisation_quota-records plain_json lawn empty_pool (seconds 6) 9
      (λ o b at. (refl, refl)) (refl, (refl, tt))
