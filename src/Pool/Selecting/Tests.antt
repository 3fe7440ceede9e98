-- ===== src/Pool/Selecting/Tests.antt =====
-- Runs of the selection over the pool of src/pool/mod.rs.
use jaynshare.Prelude.{◌≡◌, ◌⊎◌, refl, true, false, [], ◌∷◌, none, some, ok, arith}
use jaynshare.Scaled.{scaled}
use jaynshare.Time.{seconds}
use jaynshare.HashMap
use jaynshare.Fixtures.{alice, bob, plain_settings}
use jaynshare.Account.{anthropic}
use jaynshare.Quota.{state, effective_utilization}
use jaynshare.Selection.{default_facts, Choice, Nobody, all_held_or_over_threshold, by_ranking}
use jaynshare.Pool.{Pool, get, default_account}
use jaynshare.Pool.Bookkeeping.{throttle_hold_end}
use jaynshare.Pool.Operating.{QuotaSettings, release_waiting_revalidation}
use jaynshare.Pool.Operations.Settled.{Settled}
use jaynshare.Pool.Selecting.{
  select, offer_revalidation, choose_initial_default, revalidation_ready, least_ranked,
  candidate_rank, rank_buckets, rank_le,
}
use jaynshare.Pool.Selecting.Moving.{select-Follows, offered_once, choose_initial_default-Settled}

abbrev pair : Pool
pair = record {
  accounts = alice ∷ bob ∷ [];
  usage = [];
  sessions = [];
  operator = record { defaults = []; route_preferences = [] };
  organisation_quota = [];
  families = [];
  admission = [];
  next_revalidation = none;
}

abbrev gate : QuotaSettings
gate = record {
  probe_enabled = true;
  probe_interval_seconds = 300;
  probe_deadline_seconds = 10;
  revalidation_floor_seconds = 30;
  revalidation_interval_seconds = 60;
}

-- Everyone is over the threshold.
abbrev barred : Nobody
barred = record {
  reason = all_held_or_over_threshold;
  retry_at = none;
  named_account = none;
  revalidation_pool = 1 ∷ 2 ∷ [];
  clears = true;
}

-- Alice has the lower utilisation.
alice_offered : (offer_revalidation pair barred none gate (seconds 100)).1 ≡ some 1
unfolding offer_revalidation revalidation_ready get throttle_hold_end HashMap.get state least_ranked
    candidate_rank rank_buckets rank_le effective_utilization jaynshare.Quota.named
    jaynshare.Pool.family_for
alice_offered = refl

offered_once_example :
    ((offer_revalidation
        (offer_revalidation pair barred none gate (seconds 100)).0
        barred
        none
        gate
        (seconds 159)).1
      ≡ none)
    × ((release_waiting_revalidation
          (offer_revalidation pair barred none gate (seconds 100)).0
          2
          gate
          (seconds 159)).1
        ≡ false)
offered_once_example =
    offered_once pair barred barred none none 1 2 gate gate (seconds 100) (seconds 159)
      alice_offered (omega arith)

select-Follows_example :
    (default_account (select pair default_facts none gate plain_settings (seconds 100)).0 anthropic
      ≡ default_account pair anthropic)
    ⊎ ((c : Choice) × ((select pair default_facts none gate plain_settings (seconds 100)).1 ≡ ok c)
        × (c.cause ≡ by_ranking)
        × (anthropic ≡ anthropic)
        × (default_account
              (select pair default_facts none gate plain_settings (seconds 100)).0
              anthropic
            ≡ some c.handle))
select-Follows_example =
    select-Follows pair default_facts none gate plain_settings (seconds 100) anthropic

choose_initial_default-Settled_example :
    Settled (choose_initial_default pair plain_settings (seconds 100))
choose_initial_default-Settled_example =
    choose_initial_default-Settled pair plain_settings (seconds 100)
