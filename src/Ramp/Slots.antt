-- ===== src/Ramp/Slots.antt =====
-- Attempts in flight on one account, in every order in which the data plane, the 429 bookkeeping, the
-- ranking and a revalidation can call src/pool/ramp.rs. The settings of each call are its own, since a
-- reload may change them.
use jaynshare.Prelude.{ℕ, zero, suc, ◌≡◌, ◌≢◌, refl, ◌∙◌, ◌+◌, ◌≤◌, ◌<◌, ◌^◌, some, arith}
use jaynshare.Time.{Instant}
use jaynshare.Ramp.Admitting.{admit-view, admit_counts, admit_within_cap}
use jaynshare.Ramp.{
  RampSettings, Admission, idle, admitted, admit, ramp_view, release_slot, hold_throttle,
  clear_throttle_hold, start_ramp, take_slot,
}

-- An account's admission, and how many attempts stand between their admission and their response
-- headers. Fewer than 2^64 attempts are ever in flight at once.
pub data Step : Admission → ℕ → Admission → ℕ → Type 0 where
  admits :
      (s : RampSettings) (now : Instant) (a : Admission) (n : ℕ)
      → (admit s now a).1 ≡ admitted
      → suc n < 2 ^ 64
      → Step a n (admit s now a).0 (suc n)
  waits :
      (s : RampSettings) (now : Instant) (a : Admission) (n : ℕ)
      → (admit s now a).1 ≢ admitted
      → Step a n (admit s now a).0 n
  takes : (a : Admission) (n : ℕ) → suc n < 2 ^ 64 → Step a n (take_slot a) (suc n)
  releases : (a : Admission) (n : ℕ) → Step a (suc n) (release_slot a) n
  holds : (until : Instant) (a : Admission) (n : ℕ) → Step a n (hold_throttle until a) n
  clears :
      (s : RampSettings) (now : Instant) (a : Admission) (n : ℕ)
      → Step a n (clear_throttle_hold s now a) n
  ramps :
      (s : RampSettings) (now : Instant) (a : Admission) (n : ℕ) → Step a n (start_ramp s now a) n

pub data Reach : Admission → ℕ → Type 0 where
  begin : Reach idle zero
  next : {a b : Admission} {n m : ℕ} → Reach a n → Step a n b m → Reach b m

hold_throttle-slots :
    (until : Instant) (a : Admission) → (hold_throttle until a).slots_held ≡ a.slots_held
unfolding hold_throttle
hold_throttle-slots until a = ground arith

clear_throttle_hold-slots :
    (s : RampSettings) (now : Instant) (a : Admission)
    → (clear_throttle_hold s now a).slots_held ≡ a.slots_held
unfolding clear_throttle_hold
clear_throttle_hold-slots s now a = ground arith

start_ramp-slots :
    (s : RampSettings) (now : Instant) (a : Admission)
    → (start_ramp s now a).slots_held ≡ a.slots_held
unfolding start_ramp
start_ramp-slots s now a = ground arith

Step-slots :
    {a b : Admission} {n m : ℕ}
    → Step a n b m
    → a.slots_held ≡ n
    → n < 2 ^ 64
    → (b.slots_held ≡ m) × (m < 2 ^ 64)
unfolding take_slot release_slot
Step-slots (admits s now a n e h) eq lt =
    let counted = admit_counts s now a e in (omega arith, omega arith)
Step-slots (waits s now a n e) eq lt = ((admit-view s now a).1 e ∙ eq, omega arith)
Step-slots (takes a n h) eq lt = (omega arith, omega arith)
Step-slots (releases a n) eq lt = (omega arith, omega arith)
Step-slots (holds until a n) eq lt = (hold_throttle-slots until a ∙ eq, lt)
Step-slots (clears s now a n) eq lt = (clear_throttle_hold-slots s now a ∙ eq, lt)
Step-slots (ramps s now a n) eq lt = (start_ramp-slots s now a ∙ eq, lt)

Reach-slots_within : {a : Admission} {n : ℕ} → Reach a n → (a.slots_held ≡ n) × (n < 2 ^ 64)
Reach-slots_within begin = (refl, omega arith)
Reach-slots_within (next r st) = let (eq, lt) = Reach-slots_within r in Step-slots st eq lt

-- After any sequence of admissions, refusals, taken and released slots, holds, clearings and ramp
-- starts from an idle account, with fewer than 2^64 attempts in flight, the slot counter is the
-- number of attempts in flight.
pub Reach-slots : {a : Admission} {n : ℕ} → Reach a n → a.slots_held ≡ n
Reach-slots r = (Reach-slots_within r).0

-- In every reachable state, an attempt that is admitted while a ramp is in force brings the
-- attempts in flight to at most the cap.
pub Reach-admit_within_cap :
    {a : Admission} {n : ℕ} (s : RampSettings) (now began : Instant) {cap : ℕ}
    → Reach a n
    → ramp_view s now a ≡ some (began, cap)
    → (admit s now a).1 ≡ admitted
    → n + 1 ≤ cap
Reach-admit_within_cap {a} {n} s now began {cap} r view e =
    let counted = Reach-slots r in let within = admit_within_cap s now began a view e in omega arith
