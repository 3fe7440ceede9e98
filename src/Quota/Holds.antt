-- ===== src/Quota/Holds.antt =====
-- `hold_exhausted` of src/pool/quota.rs: where an exhaustion hold ends.
use jaynshare.Prelude.{ℕ, ◌≡◌, ◌+◌, ◌≤◌, ◌<◌, refl, ◌⊎◌, some, Option, none, arith}
use jaynshare.External.{External}
use jaynshare.Time.{Instant, seconds, running}
use jaynshare.Quota.{
  Bucket, State, state, hold_exhausted, hold_end, exhaustion_fallback_seconds,
  throttle_hold_seconds,
}

-- A throttle hold lasts one second to five minutes, whatever the `retry-after` says.
pub throttle_hold_seconds_bounds :
    (r : Option ℕ) → (1 ≤ throttle_hold_seconds r) × (throttle_hold_seconds r ≤ 300)
unfolding throttle_hold_seconds
throttle_hold_seconds_bounds r = omega arith

pub exhaustion_fallback_seconds_bounds :
    (r : Option ℕ) → (1 ≤ exhaustion_fallback_seconds r) × (exhaustion_fallback_seconds r ≤ 3600)
unfolding exhaustion_fallback_seconds
exhaustion_fallback_seconds_bounds r = omega arith

module _ ⦃x : External⦄ where
  -- What a hold's end satisfies: it lies after `now`; it is the reset, where one is to come, and else
  -- at most an hour away or the end of the hold that ran before; and it never comes before the end of
  -- a fallback hold that still runs.
  pub record IsHeld (now : Instant) (b : Bucket) (end : Instant) : Type 0 where
    pub ahead : now < end
    pub at_reset : (r : Instant) → running b.reset_at now ≡ some r → end ≡ r
    pub no_shorter :
        (h : Instant) → running b.reset_at now ≡ none → b.exhaustion_hold_until ≡ some h → h ≤ end
    pub bounded :
        running b.reset_at now ≡ none
        → (end ≤ now + seconds 3600) ⊎ (b.exhaustion_hold_until ≡ some end)

  hold_end-IsHeld :
      (b : Bucket) (retry_after : Option ℕ) (now : Instant)
      → IsHeld now b (hold_end b retry_after now)
  unfolding hold_end
  hold_end-IsHeld b retry_after now = record {
    ahead = ground (arith, exhaustion_fallback_seconds_bounds retry_after);
    at_reset = λ r h. ground arith;
    no_shorter = λ h e e'. ground (arith, exhaustion_fallback_seconds_bounds retry_after);
    bounded = λ e. ground (arith, exhaustion_fallback_seconds_bounds retry_after);
  }

  -- `hold_exhausted` sets a hold that ends after now and changes no other field; the end is the
  -- coming reset, or else at most an hour away or the end of the hold before, and no fallback hold
  -- gets shorter; until that end the bucket is exhausted.
  pub hold_exhausted-IsHeld :
      (b : Bucket) (retry_after : Option ℕ) (now : Instant)
      → (end : Instant) × (hold_exhausted b retry_after now
          ≡ record b { exhaustion_hold_until = some end })
        × IsHeld now b end
        × ((t : Instant) → t < end → state (hold_exhausted b retry_after now) t ≡ State.exhausted)
  unfolding hold_exhausted state
  hold_exhausted-IsHeld b retry_after now =
      (hold_end b retry_after now, refl, hold_end-IsHeld b retry_after now, λ t h. ground arith)
