-- ===== src/Ramp.antt =====
-- src/pool/ramp.rs with `Admission` of src/pool/mod.rs and the throttle hold of src/pool/holds.rs:
-- the pacing of attempts on one account. Counters are `u64`: what saturates in Rust is cut off at
-- `u64_max` here, and the slot counter wraps as in a release build.
pub mod Limit
pub mod Settling
pub mod Admitting
pub mod Slots
mod Tests
use jaynshare.Prelude.{
  ℕ, ◌+◌, ◌-◌, ◌*◌, ◌/◌, ◌%◌, ◌^◌, Bool, true, false, ◌||◌, Option, none, some, leb, ltb,
  if◌then◌else◌, min, max, is_some_and, is_none, is_some, map_some, and_then, keep_if,
}
use jaynshare.Time.{Instant, milliseconds, running}

abbrev pub u64_max : ℕ
u64_max = 2 ^ 64 - 1

-- `u64::saturating_add`, `u64::saturating_mul`
abbrev pub saturating_add : ℕ → ℕ → ℕ
saturating_add a b = min (a + b) u64_max

abbrev pub saturating_mul : ℕ → ℕ → ℕ
saturating_mul a b = min (a * b) u64_max

pub record RampSettings : Type 0 where
  pub enabled : Bool
  pub initial_concurrency : ℕ
  pub concurrency_step : ℕ
  pub step_interval_ms : ℕ
  pub window_seconds : ℕ

pub record Ramp : Type 0 where
  pub started_at : Instant
  pub initial : ℕ
  pub step : ℕ
  pub step_interval_ms : ℕ
  pub window_seconds : ℕ

pub data RampCause : Type 0 where
  default_moved pause_end : RampCause

-- `Ramp::start`
unfoldable pub start : RampSettings → Instant → Option Ramp
start settings now =
    if settings.enabled
    then some (record {
      started_at = now;
      initial = settings.initial_concurrency;
      step = settings.concurrency_step;
      step_interval_ms = settings.step_interval_ms;
      window_seconds = settings.window_seconds;
    })
    else none

-- `whole_milliseconds` of a difference, clamped to a `u64`: a clock behind the start reads as zero.
unfoldable pub elapsed_ms : Ramp → Instant → ℕ
elapsed_ms r now = min ((now - r.started_at) / 1_000_000) u64_max

-- The cap once `elapsed` milliseconds have passed.
unfoldable pub cap_after : Ramp → ℕ → ℕ
cap_after r elapsed =
    let steps = elapsed / max r.step_interval_ms 1 in
    saturating_add r.initial (saturating_mul r.step steps)

-- `Ramp::limit`
unfoldable pub limit : Ramp → Instant → Option ℕ
limit r now =
    let elapsed = elapsed_ms r now in
    if leb (saturating_mul r.window_seconds 1_000) elapsed then none else some (cap_after r elapsed)

-- `Admission`, without the notification that wakes the waiters.
pub record Admission : Type 0 where
  pub throttle_hold_until : Option Instant
  pub last_429 : Option Instant
  pub ramp : Option Ramp
  pub slots_held : ℕ

-- `Admission::default`
abbrev pub idle : Admission
idle = record { throttle_hold_until = none; last_429 = none; ramp = none; slots_held = 0 }

pub record Settled : Type 0 where
  pub pause_ended : Option Instant
  pub ramp_began : Option RampCause

-- The two steps of `Admission::settle`: a hold that has ended becomes a fresh ramp, and a ramp whose
-- window has passed goes.
unfoldable pub end_pause : RampSettings → Instant → Admission → Admission × Settled
end_pause settings now a =
    let nothing : Settled = record { pause_ended = none; ramp_began = none } in
    elim a.throttle_hold_until [
      | none ↦ (a, nothing)
      | some end ↦
          if leb end now
          then (
            record a { throttle_hold_until = none; ramp = start settings end },
            record {
              pause_ended = some end;
              ramp_began = map_some (λ _. RampCause.pause_end) (start settings end);
            },
          )
          else (a, nothing)
    ]

unfoldable pub lift_ramp : Instant → Admission × Settled → Admission × Settled
lift_ramp now (a, s) =
    if is_some_and a.ramp (λ r. is_none (limit r now))
    then (record a { ramp = none }, record s { ramp_began = none })
    else (a, s)

unfoldable pub settle : RampSettings → Instant → Admission → Admission × Settled
unfolding end_pause lift_ramp
settle settings now a = lift_ramp now (end_pause settings now a)

-- `Admission::ramp_at`
unfoldable pub ramp_at : RampSettings → Instant → Admission → Option Ramp
ramp_at settings now a =
    keep_if (λ r. is_some (limit r now))
      (elim a.throttle_hold_until [
        | none ↦ a.ramp
        | some end ↦ if leb end now then start settings end else none
      ])

-- What admission says to one attempt.
pub data Admit : Type 0 where
  admitted : Admit
  paused : Instant → Admit
  ramping : ℕ → Admit

-- The tests of `Pool::admit` on a settled admission.
unfoldable pub take_if_open : Instant → Admission → Admission × Admit
take_if_open now a = elim (running a.throttle_hold_until now) [
  | some until ↦ (a, paused until)
  | none ↦ elim (and_then a.ramp (λ r. limit r now)) [
    | some cap ↦
        if leb cap a.slots_held
        then (a, ramping cap)
        else (record a { slots_held = (a.slots_held + 1) % 2 ^ 64 }, admitted)
    | none ↦ (record a { slots_held = (a.slots_held + 1) % 2 ^ 64 }, admitted)
  ]
]

-- `Pool::admit`, on the account's admission.
unfoldable pub admit : RampSettings → Instant → Admission → Admission × Admit
unfolding take_if_open settle
admit settings now a = take_if_open now (settle settings now a).0

-- `Pool::start_ramp`
unfoldable pub start_ramp : RampSettings → Instant → Admission → Admission
start_ramp settings now a = elim (start settings now) [
  | none ↦ a
  | some r ↦ record a { ramp = some r }
]

-- `Pool::hold_throttle`
unfoldable pub hold_throttle : Instant → Admission → Admission
hold_throttle until a =
    if is_none a.throttle_hold_until || is_some_and a.throttle_hold_until (λ t. ltb t until)
    then record a { throttle_hold_until = some until; ramp = none }
    else a

-- `Pool::clear_throttle_hold`
unfoldable pub clear_throttle_hold : RampSettings → Instant → Admission → Admission
unfolding settle
clear_throttle_hold settings now a =
    if is_some_and a.throttle_hold_until (λ t. ltb now t)
    then (settle settings now (record a { throttle_hold_until = some now })).0
    else a

-- `Pool::take_slot`, `Pool::release_slot`
unfoldable pub take_slot : Admission → Admission
take_slot a = record a { slots_held = (a.slots_held + 1) % 2 ^ 64 }

unfoldable pub release_slot : Admission → Admission
release_slot a = record a { slots_held = a.slots_held - 1 }

-- `Pool::ramp_view`
unfoldable pub ramp_view : RampSettings → Instant → Admission → Option (Instant × ℕ)
ramp_view settings now a =
    and_then (ramp_at settings now a) (λ r. map_some (λ cap. (r.started_at, cap)) (limit r now))
