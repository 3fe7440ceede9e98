-- ===== src/Ramp/Admitting.antt =====
-- `Pool::admit` of src/pool/ramp.rs: what one attempt is told.
use jaynshare.Prelude.{
  ℕ, ◌≡◌, ◌≢◌, ◌+◌, ◌≤◌, ◌<◌, ◌^◌, none, some, Option, arith, leb, if◌then◌else◌, Option-cases, inl,
  inr, ◌%◌, sym, ◌∙◌, max,
}
use jaynshare.Time.{Instant, running}
use jaynshare.Ramp.Limit.{limit-le}
use jaynshare.Ramp.{
  RampSettings, Admission, Admit, admitted, paused, ramping, admit, ramp_at, ramp_view, limit,
  release_slot, hold_throttle, clear_throttle_hold, u64_max,
}

-- The verdict that the read-only facts call for: wait for a running hold, wait for a slot under the
-- cap that `status` shows, or proceed.
pub expected : Option Instant → Option (Instant × ℕ) → ℕ → Admit
expected (some until) view slots = paused until
expected none (some (began, cap)) slots = if leb cap slots then ramping cap else admitted
expected none none slots = admitted

-- `admit` answers exactly what the running throttle hold and the read-only ramp view call for, and
-- leaves the slots as they are unless it admits.
pub admit-view :
    (settings : RampSettings) (now : Instant) (a : Admission)
    → ((admit settings now a).1
        ≡ expected (running a.throttle_hold_until now) (ramp_view settings now a) a.slots_held)
      × ((admit settings now a).1 ≢ admitted → (admit settings now a).0.slots_held ≡ a.slots_held)
unfolding admit expected ramp_view ramp_at
admit-view settings now a = (ground arith, λ h. ground arith)

ramp_view-le :
    (settings : RampSettings) (now began : Instant) (a : Admission) {cap : ℕ}
    → ramp_view settings now a ≡ some (began, cap)
    → cap ≤ u64_max
unfolding ramp_view
ramp_view-le settings now began a {cap} view = elim (Option-cases (ramp_at settings now a)) [
  | inl gone ↦ ground arith
  | inr (r, at) ↦ ground (arith, λ (h : limit r now ≡ some cap). limit-le r now h)
]

pub admit_counts :
    (settings : RampSettings) (now : Instant) (a : Admission)
    → (admit settings now a).1 ≡ admitted
    → (admit settings now a).0.slots_held ≡ (a.slots_held + 1) % 2 ^ 64
unfolding admit
admit_counts settings now a e = ground arith

expected_open :
    (held : Option Instant) (began : Instant) (cap slots : ℕ)
    → expected held (some (began, cap)) slots ≡ admitted
    → slots < cap
unfolding expected
expected_open none began cap slots e = ground arith
expected_open (some until) began cap slots e = cc

-- Under a ramp an admitted attempt takes one slot, the counter does not wrap, and the slots held stay
-- within the cap.
pub admit_within_cap :
    (settings : RampSettings) (now began : Instant) (a : Admission) {cap : ℕ}
    → ramp_view settings now a ≡ some (began, cap)
    → (admit settings now a).1 ≡ admitted
    → ((admit settings now a).0.slots_held ≡ a.slots_held + 1)
      × ((admit settings now a).0.slots_held ≤ cap)
admit_within_cap settings now began a {cap} view e =
    let small = ramp_view-le settings now began a view in
    let open_slot =
      expected_open (running a.throttle_hold_until now) began cap a.slots_held
        (rw view at (sym (admit-view settings now a).0 ∙ e)) in
    let counted = admit_counts settings now a e in (omega arith, omega arith)

-- Where only the cap is in the way and it is just reached, a released slot lets the next attempt in
-- at the same instant.
pub release-admit :
    (settings : RampSettings) (now : Instant) (a : Admission)
    → (admit settings now a).1 ≡ ramping a.slots_held
    → 0 < a.slots_held
    → (admit settings now (release_slot a)).1 ≡ admitted
unfolding admit release_slot
release-admit settings now a e pos = ground arith

-- A throttle hold past now pauses every attempt until an end that is no earlier than the new hold
-- or the hold in force.
pub hold_throttle-admit :
    (settings : RampSettings) (now until : Instant) (a : Admission)
    → now < until
    → (end : Instant) × ((admit settings now (hold_throttle until a)).1 ≡ paused end)
      × (until ≤ end)
      × ((h : Instant) → a.throttle_hold_until ≡ some h → h ≤ end)
unfolding admit hold_throttle
hold_throttle-admit settings now until a h = (
  elim a.throttle_hold_until [ none ↦ until | some held ↦ max held until ],
  ground arith,
  ground arith,
  λ held e. ground arith,
)

-- Once a revalidation clears a running hold, no attempt is paused any more, and where the policy ramps
-- the fresh ramp begins at the clearing.
pub clear_throttle_hold-admit :
    (settings : RampSettings) (now until later : Instant) (a : Admission)
    → running a.throttle_hold_until now ≡ some until
    → (end : Instant) → (admit settings later (clear_throttle_hold settings now a)).1 ≢ paused end
unfolding admit clear_throttle_hold
clear_throttle_hold-admit settings now until later a h end = ground arith
