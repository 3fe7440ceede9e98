-- ===== src/Ramp/Tests.antt =====
-- Runs of the pacing, after the unit tests of src/pool/ramp.rs, and the theorems at concrete inputs.
use jaynshare.Prelude.{◌≡◌, ◌≢◌, refl, ◌+◌, ◌≤◌, true, none, some, arith}
use jaynshare.Time.{seconds, milliseconds}
use jaynshare.Ramp.{
  Ramp, RampSettings, Admission, idle, limit, elapsed_ms, cap_after, start, admit, admitted,
  ramping, ramp_view, ramp_at, start_ramp,
}
use jaynshare.Ramp.Admitting.{expected, admit-view}
use jaynshare.Ramp.Slots.{Reach, Step, Reach-slots, Reach-admit_within_cap}

abbrev settings : RampSettings
settings = record {
  enabled = true;
  initial_concurrency = 1;
  concurrency_step = 1;
  step_interval_ms = 250;
  window_seconds = 30;
}

abbrev ramp : Ramp
ramp = record {
  started_at = seconds 100;
  initial = 1;
  step = 1;
  step_interval_ms = 250;
  window_seconds = 30;
}

abbrev ramped : Admission
ramped = record idle { ramp = some ramp }

abbrev full : Admission
full = record ramped { slots_held = 1 }

cap_at_start : limit ramp (seconds 100) ≡ some 1
unfolding limit elapsed_ms cap_after
cap_at_start = refl

cap_late : limit ramp (milliseconds 129_999) ≡ some 120
unfolding limit elapsed_ms cap_after
cap_late = refl

cap_lifted : limit ramp (seconds 130) ≡ none
unfolding limit elapsed_ms cap_after
cap_lifted = refl

cap_behind : limit ramp (seconds 99) ≡ some 1
unfolding limit elapsed_ms cap_after
cap_behind = refl

admit_twice : (admit settings (seconds 100) (admit settings (seconds 100) ramped).0).1 ≡ ramping 1
unfolding admit limit elapsed_ms cap_after
admit_twice = refl

admit-view_example :
    ((admit settings (seconds 100) full).1
      ≡ expected none (ramp_view settings (seconds 100) full) 1)
    × ((admit settings (seconds 100) full).1 ≢ admitted
        → (admit settings (seconds 100) full).0.slots_held ≡ 1)
admit-view_example = admit-view settings (seconds 100) full

view_of_ramped : ramp_view settings (seconds 100) ramped ≡ some (seconds 100, 1)
unfolding ramp_view ramp_at limit elapsed_ms cap_after
view_of_ramped = refl

admitted_ramped : (admit settings (seconds 100) ramped).1 ≡ admitted
unfolding admit limit elapsed_ms cap_after
admitted_ramped = refl

full_waits : (admit settings (seconds 100) full).1 ≡ ramping 1
unfolding admit limit elapsed_ms cap_after
full_waits = refl

abbrev held : Admission
held = record full { throttle_hold_until = some (seconds 160); ramp = none }

ramped_Reach : Reach ramped 0
unfolding start_ramp start
ramped_Reach = Reach.next Reach.begin (Step.ramps settings (seconds 100) idle 0)

Reach-slots_example : (admit settings (seconds 100) ramped).0.slots_held ≡ 1
Reach-slots_example = Reach-slots (
    Reach.next ramped_Reach
      (Step.admits settings (seconds 100) ramped 0 admitted_ramped (omega arith)))

Reach-admit_within_cap_example : 0 + 1 ≤ 1
Reach-admit_within_cap_example =
    Reach-admit_within_cap settings (seconds 100) (seconds 100) ramped_Reach view_of_ramped
      admitted_ramped
