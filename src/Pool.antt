-- ===== src/Pool.antt =====
-- src/pool/mod.rs: the pool's state, its expiry and the reads that an attempt starts with. Handles are
-- the keys that the pool draws at random; a lookup sees the first account of a handle.
pub mod Bookkeeping
pub mod Holding
pub mod Pausing
pub mod Predicting
pub mod Operating
pub mod Publishing
pub mod Naming
pub mod Operations
pub mod Selecting
pub mod Retaining
mod Tests
use jaynshare.Prelude.{
  ℕ, String, Bool, ◌||◌, true, false, List, [], ◌∷◌, Option, none, some, Result, ok, err, ◌==◌,
  nat_eq, string_eq, any, find, filter, filter_map, map, map_some, and_then,
}
use jaynshare.Time.{Instant, running}
use jaynshare.External.{External, Uuid}
use jaynshare.HashMap
use jaynshare.HashMap.{HashMap}
use jaynshare.Quota.{Bucket, expire, expire_bucket}
use jaynshare.Account.{Account, Provider, provider_eq, ensure_expected_buckets}
use jaynshare.Ramp.{Admission}
use jaynshare.Sessions.{
  Sessions, SessionKey, reap, begin, end, active_per_account, in_flight_per_account,
}
use jaynshare.Selection.{RequestFacts, Choice, Nobody}
use jaynshare.Selection.Bars.{SelectionSettings}
use jaynshare.Selection.Pass.{Snapshot, select}

pub record Usage : Type 0 where
  pub input_tokens : ℕ
  pub output_tokens : ℕ
  pub requests : ℕ

-- src/pool/operator.rs
pub record DefaultAccount : Type 0 where
  pub handle : Uuid
  pub chosen : Bool
  pub since : Instant

pub record Operator : Type 0 where
  pub defaults : HashMap Provider DefaultAccount
  pub route_preferences : HashMap String Uuid

module _ ⦃x : External⦄ where
  pub record Pool : Type 0 where
    pub accounts : List Account
    pub usage : HashMap Uuid Usage
    pub sessions : Sessions
    pub operator : Operator
    pub organisation_quota : HashMap Uuid Bucket
    pub families : HashMap String (List String)
    pub admission : HashMap Uuid Admission
    pub next_revalidation : Option Instant

  unfoldable pub from_accounts : List Account → Instant → Pool
  from_accounts accounts now = record {
    accounts =
        map
          (λ a.
            let full = ensure_expected_buckets a in
            record full { quota = (expire full.quota now).0 })
          accounts;
    usage = [];
    sessions = [];
    operator = record { defaults = []; route_preferences = [] };
    organisation_quota = [];
    families = [];
    admission = [];
    next_revalidation = none;
  }

  unfoldable pub accounts_of : Pool → Provider → List Account
  accounts_of p provider = filter (λ a. a.provider == provider) p.accounts

  unfoldable pub default_account : Pool → Provider → Option Uuid
  default_account p provider = map_some (λ d. d.handle) (HashMap.get p.operator.defaults provider)

  -- `Pool::get`
  unfoldable pub get : Pool → Uuid → Option Account
  get p handle = find (λ (a : Account). a.handle == handle) p.accounts

  -- The buckets of every account and organisation, and whether any of them changed.
  unfoldable pub expire_quota : Pool → Instant → Pool × Bool
  expire_quota p now = (
    record p {
      accounts = map (λ (a : Account). record a { quota = (expire a.quota now).0 }) p.accounts;
      organisation_quota = HashMap.map_values (λ b. (expire_bucket b now).0) p.organisation_quota;
    },
    any (λ (a : Account). (expire a.quota now).1) p.accounts
        || any (λ b. (expire_bucket b now).1) (HashMap.values p.organisation_quota),
  )

  unfoldable pub organisation_hold : Pool → Account → Instant → Option Instant
  organisation_hold p a now =
      running
        (and_then (and_then a.profile.organization_uuid (λ o. HashMap.get p.organisation_quota o))
          (λ b. b.exhaustion_hold_until))
        now

  unfoldable pub organisation_holds : Pool → Instant → HashMap Uuid Instant
  organisation_holds p now =
      filter_map
        (λ (e : Uuid × Bucket). map_some (λ t. (e.0, t)) (running e.1.exhaustion_hold_until now))
        p.organisation_quota

  -- `Pool::family_for`
  unfoldable pub family_for : Pool → Option String → Option String
  family_for p model = and_then model (λ m.
      map_some (λ e. e.0) (find (λ (e : String × List String). any (λ k. k == m) e.1) p.families))

  unfoldable pub session_begin : Pool → SessionKey → Instant → Pool
  session_begin p key now = record p { sessions = begin (reap p.sessions now) key now }

  unfoldable pub session_end : Pool → SessionKey → Option Uuid → Instant → Pool
  session_end p key served now = record p { sessions = end p.sessions key served now }

  -- The expiry and the reaping that `predict` starts with.
  unfoldable pub refreshed : Pool → Instant → Pool
  refreshed p now =
      let expired = (expire_quota p now).0 in
      record expired { sessions = reap expired.sessions now }

  -- The snapshot of one provider's accounts.
  unfoldable pub snapshot : Pool → Provider → Instant → Snapshot
  snapshot p provider now = record {
    accounts = accounts_of p provider;
    default = default_account p provider;
    route_preferences = p.operator.route_preferences;
    active_sessions = active_per_account p.sessions now;
    in_flight = in_flight_per_account p.sessions;
    families = p.families;
    organisation_holds = organisation_holds p now;
    now = now;
  }

  unfoldable pub predict :
      Pool → RequestFacts → SelectionSettings → Instant → Pool × Result {0, 0} Choice Nobody
  predict p facts settings now =
      let ready = refreshed p now in
      (ready, select facts (snapshot ready facts.provider now) settings)
