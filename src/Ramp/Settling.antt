-- ===== src/Ramp/Settling.antt =====
-- `Admission::settle` of src/pool/ramp.rs, and the view of it that moves nothing.
use jaynshare.Prelude.{◌≡◌, none, some, arith}
use jaynshare.Time.{Instant, running}
use jaynshare.Ramp.{RampSettings, Admission, settle, ramp_at, start}

-- A second settling at the same instant changes nothing and reports no further end of a pause.
pub settle_twice :
    (settings : RampSettings) (now : Instant) (a : Admission)
    → settle settings now (settle settings now a).0
      ≡ ((settle settings now a).0, record { pause_ended = none; ramp_began = none })
unfolding settle start
settle_twice settings now a = ground arith

-- Without a running throttle hold the read-only view of the ramp is the ramp that settling arrives
-- at; under a running hold the view shows none.
pub ramp_at-settle :
    (settings : RampSettings) (now : Instant) (a : Admission)
    → ramp_at settings now a ≡ (elim (running a.throttle_hold_until now) [
      | some _ ↦ none
      | none ↦ (settle settings now a).0.ramp
    ])
unfolding settle ramp_at
ramp_at-settle settings now a = ground arith
