-- ===== src/Quota/Tests.antt =====
-- Runs of the quota functions, and the theorems of Quota at concrete inputs.
use jaynshare.Prelude.{◌≡◌, refl, ◌↔◌, [], ◌∷◌, List, none, some, find, String}
use jaynshare.Scaled.{scaled}
use jaynshare.Time.{seconds}
use jaynshare.Quota.{
  Bucket, Observation, Scope, State, Source, Kind, Classification, unknown_bucket, state,
  hold_exhausted, apply, named, classify, governed, observe, exhausted_among, proved, observes,
  effective_utilization, counter_utilization, exhaustion_fallback_seconds,
}
use jaynshare.Quota.Observing.{observe_all, find-apply}
use jaynshare.Quota.Classifying.{InScope, IsProved, classify_sound}

-- A session bucket, full, that resets at second 10.
abbrev full_session : Bucket
full_session = record (unknown_bucket "session" Scope.account) {
  utilization = some 1000;
  observed_at = some (seconds 5);
  reset_at = some (seconds 10);
}

-- A counter bucket whose response says that it resets at the instant of the observation.
abbrev replenished : Observation
replenished = record {
  name = "tokens";
  scope = Scope.account;
  utilization = none;
  status = none;
  limit = some 10_000_000;
  remaining = some 9_000_000;
  reset_at = some (seconds 7);
}

abbrev stored : List Bucket
stored = full_session ∷ []

hold_at_reset :
    hold_exhausted full_session none (seconds 6)
    ≡ record full_session { exhaustion_hold_until = some (seconds 10) }
unfolding hold_exhausted exhaustion_fallback_seconds
hold_at_reset = refl

classify_full : classify Kind.oauth none [] stored ≡ Classification.exhaustion ("session" ∷ [])
unfolding classify exhausted_among governed proved named observes effective_utilization
classify_full = refl

replenished-state :
    state
      (observe replenished Source.usage (seconds 7) (unknown_bucket "tokens" Scope.account))
      (seconds 7)
    ≡ State.available
unfolding state observe effective_utilization counter_utilization
replenished-state = refl

find-apply_example :
    find (named "tokens") (apply stored (replenished ∷ []) Source.usage (seconds 7))
    ≡ observe_all "tokens"
        (replenished ∷ [])
        Source.usage
        (seconds 7)
        (find (named "tokens") stored)
find-apply_example = find-apply "tokens" stored (replenished ∷ []) Source.usage (seconds 7)

classify_sound_example :
    (classify Kind.oauth none [] stored ≡ Classification.throttle)
    ↔ ((n : String) → InScope Kind.oauth none n → ¬ IsProved Kind.oauth [] stored n)
classify_sound_example = (classify_sound Kind.oauth none [] stored).0
