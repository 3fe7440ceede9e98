-- ===== src/Ramp/Limit.antt =====
-- `Ramp::limit` of src/pool/ramp.rs: how the cap grows, and when it lifts.
use native.Mathlib.Nat.{div-div-eq-div-mul, mul_comm}
use jaynshare.Prelude.{ℕ, ◌≡◌, refl, ◌↔◌, ◌+◌, ◌-◌, ◌*◌, ◌/◌, ◌≤◌, ◌<◌, some, none, arith, max, min}
use jaynshare.Time.{Instant, seconds, milliseconds}
use jaynshare.Ramp.{Ramp, limit, elapsed_ms, cap_after, u64_max}

-- A ramp lifts exactly when its window has passed since its start, for a window of at least a
-- second that fits 64 bits in milliseconds.
pub limit_lifts :
    (r : Ramp) (now : Instant)
    → 0 < r.window_seconds
    → r.window_seconds * 1_000 ≤ u64_max
    → (limit r now ≡ none) ↔ (r.started_at + seconds r.window_seconds ≤ now)
unfolding limit elapsed_ms
limit_lifts r now pos fits = (λ e. ground arith, λ h. ground arith)

steps_mono : (d e i : ℕ) → d ≤ e → d / max i 1 ≤ e / max i 1
steps_mono d e i h = grind arith

times_mono : (s d e : ℕ) → d ≤ e → s * d ≤ s * e
times_mono s d e h = grind arith

elapsed_ms_mono :
    (r : Ramp) (now later : Instant) → now ≤ later → elapsed_ms r now ≤ elapsed_ms r later
unfolding elapsed_ms
elapsed_ms_mono r now later h = omega arith

cap_after_mono : (r : Ramp) (d e : ℕ) → d ≤ e → cap_after r d ≤ cap_after r e
unfolding cap_after
cap_after_mono r d e h = omega (
  arith,
  times_mono r.step (d / max r.step_interval_ms 1) (e / max r.step_interval_ms 1)
      (steps_mono d e r.step_interval_ms h),
)

pub cap_after_bounds :
    (r : Ramp) (d : ℕ) → (min r.initial u64_max ≤ cap_after r d) × (cap_after r d ≤ u64_max)
unfolding cap_after
cap_after_bounds r d = omega arith

pub limit-le : (r : Ramp) (now : Instant) {cap : ℕ} → limit r now ≡ some cap → cap ≤ u64_max
unfolding limit
limit-le r now e = ground (arith, cap_after_bounds r (elapsed_ms r now))

-- While a ramp runs its cap never falls, and it is at least the configured start or the largest
-- `u64`.
pub limit_mono :
    (r : Ramp) (now later : Instant) {cap : ℕ}
    → now ≤ later
    → limit r later ≡ some cap
    → (before : ℕ) × (limit r now ≡ some before) × (before ≤ cap) × (min r.initial u64_max ≤ before)
unfolding limit
limit_mono r now later {cap} h e = (
  cap_after r (elapsed_ms r now),
  ground (arith, elapsed_ms_mono r now later h),
  ground (
    arith,
    cap_after_mono r (elapsed_ms r now) (elapsed_ms r later) (elapsed_ms_mono r now later h),
  ),
  (cap_after_bounds r (elapsed_ms r now)).0,
)

-- The steps counted in whole milliseconds are those counted in nanoseconds.
intervals :
    (s t i : ℕ)
    → 0 < i
    → t < milliseconds u64_max
    → s * (min (t / 1_000_000) u64_max / max i 1) ≡ s * (t / (i * 1_000_000))
intervals s t i pos near =
    let whole : min (t / 1_000_000) u64_max ≡ t / 1_000_000 = omega arith in
    let interval : max i 1 ≡ i = omega arith in
    rw (whole, interval, div-div-eq-div-mul, mul_comm 1_000_000 i) refl

-- The cap of a running ramp is its start and one step for each whole interval since it began, for
-- an interval above zero and short of 64-bit saturation.
pub limit_steps :
    (r : Ramp) (now : Instant) {cap : ℕ}
    → limit r now ≡ some cap
    → 0 < r.step_interval_ms
    → now < r.started_at + milliseconds u64_max
    → r.initial + r.step * ((now - r.started_at) / milliseconds r.step_interval_ms) ≤ u64_max
    → cap ≡ r.initial + r.step * ((now - r.started_at) / milliseconds r.step_interval_ms)
unfolding limit elapsed_ms cap_after
limit_steps r now {cap} e pos near small =
    ground (arith, intervals r.step (now - r.started_at) r.step_interval_ms pos)
