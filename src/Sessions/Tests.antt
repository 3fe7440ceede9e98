-- ===== src/Sessions/Tests.antt =====
-- Runs of the sessions, after the unit tests of src/pool/sessions.rs, and the theorems at concrete
-- inputs.
use jaynshare.Prelude.{List, arith, ◌≡◌, refl, none, some, [], ◌∷◌, nat_eq, option_eq}
use jaynshare.Time.{seconds}
use jaynshare.HashMap
use jaynshare.HashMap.{IsDistinct}
use jaynshare.Sessions.{Sessions, SessionKey, SessionRecord, key_eq, reap, is_forgotten}
use jaynshare.Sessions.Records.{Event, run}
use jaynshare.Sessions.Counting.{open_exchanges, in_flight_of, in_flight_of-run}

abbrev first : SessionKey
first = record { principal = "loopback"; session_id = "s1" }

abbrev second : SessionKey
second = record { principal = "loopback"; session_id = "s2" }

abbrev seen : SessionRecord
seen = record { bound = some 1; last_served = none; last_seen = seconds 100; in_flight = 1 }

abbrev two : Sessions
two = (first, seen) ∷ (second, record seen { bound = none; in_flight = 0 }) ∷ []

two-IsDistinct : IsDistinct two
unfolding HashMap.get
two-IsDistinct = (refl, (refl, tt))

reaped_at_the_hour : reap two (seconds 3700) ≡ (first, seen) ∷ []
unfolding reap HashMap.retain is_forgotten
reaped_at_the_hour = refl

abbrev life : List Event
life =
    Event.begins first 1
    ∷ Event.begins first 2
    ∷ Event.binds first 7
    ∷ Event.ends first (some 7) 3
    ∷ Event.reaps (seconds 4000)
    ∷ Event.unbinds 7
    ∷ []

one_open : open_exchanges first 0 life ≡ 1
one_open = refl

in_flight_of-run_example : in_flight_of (run two life) first ≡ open_exchanges first 1 life
unfolding HashMap.get
in_flight_of-run_example = in_flight_of-run two first life two-IsDistinct (omega arith)
