-- ===== src/Selection/Tests.antt =====
-- Runs of the selection, and the theorems of Selection at concrete inputs.
use jaynshare.Prelude.{
  ◌≡◌, ◌↔◌, refl, ℕ, true, false, [], ◌∷◌, none, some, Option, ok, inl, inr, All, least_from,
}
use jaynshare.Scaled.{scaled}
use jaynshare.Time.{seconds}
use jaynshare.Fixtures.{alice, bob, no_ramp}
use jaynshare.HashMap
use jaynshare.Quota.{weekly_of, state, effective_utilization, named}
use jaynshare.Account.{is_usable, references}
use jaynshare.Selection.{
  RequestFacts, default_facts, Route, Choice, Cause, MoveCause, ineligible_of, move_cause_of,
}
use jaynshare.Selection.Bars.{
  SelectionSettings, quota_bar, governing_buckets, priority_of, weekly_reset_rank, governs,
  governing_weekly, first_bar, bucket_bar, family_for,
}
use jaynshare.Selection.Glob.{as_bytes, route_for, glob_matches, go, Matches, go-Matches}
use jaynshare.Selection.Pass.{
  Snapshot, Pass, pass, run, select, choice, account, eligible, pinned, preferred, route_preference,
  bound, bound_answer, moves, binds, from_pool, over_eligible, ranked, ranking_key, moved_cause,
  pass_bar, models_bar, model_bar, excluded, route_allows, org_hold, priority,
}
use jaynshare.Selection.Barring.{Clear, quota_bar_ok}
use jaynshare.Selection.Completeness.{Answered, run-Answered}
use jaynshare.Selection.Answers.{Pinned, select-Pinned, ServedBy, select-ServedBy}

abbrev opus : Route
opus = record {
  name = "opus";
  patterns = "claude-Opus-*" ∷ [];
  accounts = some ("bob" ∷ "alice" ∷ []);
  bucket = none;
}

-- A threshold of 95 %.
abbrev settings : SelectionSettings
settings = record {
  switch_threshold = 950;
  distribute_sessions = false;
  failover = true;
  blocked_models = "*-mini" ∷ [];
  priorities = [];
  routes = opus ∷ [];
  ramp = no_ramp;
}

abbrev both : Snapshot
both = record {
  accounts = bob ∷ alice ∷ [];
  default = some 2;
  route_preferences = [];
  active_sessions = [];
  in_flight = [];
  families = [];
  organisation_holds = [];
  now = seconds 100;
}

-- A session bound to bob, who is over the threshold.
abbrev bound_to_bob : RequestFacts
bound_to_bob = record default_facts {
  session = true;
  binding = some 2;
  model = some "claude-opus-4";
}

abbrev opus_facts : RequestFacts
opus_facts = record default_facts { model = some "claude-opus-4" }

abbrev to_alice : Choice
to_alice = record (choice false 1 Cause.by_ranking) {
  default_moved_from = some 2;
  default_moved_cause = some MoveCause.over_threshold;
}

glob_opus : glob_matches "claude-Opus-*" "claude-opus-4" ≡ true
unfolding glob_matches go
glob_opus = refl

abbrev opus_pass : Pass
opus_pass = pass opus_facts both settings ("claude-opus-4" ∷ [])

abbrev bound_pass : Pass
bound_pass = pass bound_to_bob both settings ("claude-opus-4" ∷ [])

select_alice : select opus_facts both settings ≡ ok to_alice
unfolding select run glob_matches go route_for pinned preferred route_preference bound_answer moves
    binds from_pool over_eligible ranked ranking_key moved_cause pass_bar models_bar model_bar
    eligible excluded route_allows account org_hold priority priority_of weekly_reset_rank
    governing_buckets governs governing_weekly quota_bar first_bar bucket_bar family_for
    ineligible_of move_cause_of state effective_utilization least_from is_usable references named
    bound HashMap.get weekly_of
select_alice = refl

alice-eligible : eligible opus_pass alice false ≡ true
unfolding select run glob_matches go route_for pinned preferred route_preference bound_answer moves
    binds from_pool over_eligible ranked ranking_key moved_cause pass_bar models_bar model_bar
    eligible excluded route_allows account org_hold priority priority_of weekly_reset_rank
    governing_buckets governs governing_weekly quota_bar first_bar bucket_bar family_for
    ineligible_of move_cause_of state effective_utilization least_from is_usable references named
    bound HashMap.get weekly_of
alice-eligible = refl

bob_bound : eligible bound_pass bob true ≡ true
unfolding select run glob_matches go route_for pinned preferred route_preference bound_answer moves
    binds from_pool over_eligible ranked ranking_key moved_cause pass_bar models_bar model_bar
    eligible excluded route_allows account org_hold priority priority_of weekly_reset_rank
    governing_buckets governs governing_weekly quota_bar first_bar bucket_bar family_for
    ineligible_of move_cause_of state effective_utilization least_from is_usable references named
    bound HashMap.get weekly_of
bob_bound = refl

bob_found : account bound_pass 2 ≡ some bob
unfolding account
bob_found = refl

no_preference : preferred bound_pass (binds bound_pass) Cause.by_preference none ≡ none
unfolding preferred
no_preference = refl

no_route_preference :
    preferred bound_pass (binds bound_pass) Cause.by_route_preference (route_preference bound_pass)
    ≡ none
unfolding preferred route_preference route_for glob_matches go HashMap.get
no_route_preference = refl

go-Matches_example :
    (go (as_bytes "*-Mini") (as_bytes "gpt-mini") ≡ true)
    ↔ Matches (as_bytes "*-Mini") (as_bytes "gpt-mini")
go-Matches_example = go-Matches (as_bytes "*-Mini") (as_bytes "gpt-mini")

quota_bar_ok_example : (quota_bar bob settings (seconds 100) true none none none ≡ ok tt) ↔ (
    (is_usable bob ≡ true)
    × (◌≡◌ {A = Option ℕ} none none)
    × All (Clear settings (seconds 100) true) (governing_buckets bob none none))
quota_bar_ok_example = quota_bar_ok bob settings (seconds 100) true none none none

alice_clear : quota_bar alice settings (seconds 100) false none none none ≡ ok tt
unfolding select run glob_matches go route_for pinned preferred route_preference bound_answer moves
    binds from_pool over_eligible ranked ranking_key moved_cause pass_bar models_bar model_bar
    eligible excluded route_allows account org_hold priority priority_of weekly_reset_rank
    governing_buckets governs governing_weekly quota_bar first_bar bucket_bar family_for
    ineligible_of move_cause_of state effective_utilization least_from is_usable references named
    bound HashMap.get weekly_of
alice_clear = refl

select-Pinned_example : Pinned 2 (select (record bound_to_bob { pin = some 2 }) both settings)
select-Pinned_example =
    select-Pinned (record bound_to_bob { pin = some 2 }) both settings 2 refl refl

select-ServedBy_example : ServedBy opus_facts both settings to_alice
select-ServedBy_example = select-ServedBy opus_facts both settings to_alice refl select_alice

run-Answered_example : Answered (run opus_pass)
run-Answered_example = run-Answered opus_pass alice (inr (inl refl)) alice-eligible refl (inl refl)
