-- ===== src/Time.antt =====
-- Instants of the `time` crate: `OffsetDateTime` is read as the nanoseconds since the earliest instant
-- of the crate, so that the natural numbers hold every instant and comparisons are exact. A sum that
-- leaves the crate's range panics in Rust; the model has no such bound.
use jaynshare.Prelude.{ℕ, ◌*◌, ◌<◌, Option, none, some, ltb, leb, if◌then◌else◌}

abbrev pub Instant : Type 0
Instant = ℕ

-- `Duration::seconds`, `Duration::milliseconds`
abbrev pub seconds : ℕ → ℕ
seconds s = s * 1_000_000_000

abbrev pub milliseconds : ℕ → ℕ
milliseconds ms = ms * 1_000_000

-- `Option::max`, where `None` is below every instant.
abbrev pub option_max : Option Instant → Option Instant → Option Instant
option_max none b = b
option_max (some a) none = some a
option_max (some a) (some b) = some (if leb a b then b else a)

-- `filter(|t| *t > now)`
abbrev pub running : Option Instant → Instant → Option Instant
running none now = none
running (some t) now = if ltb now t then some t else none

-- The instant, if there is one, lies after `now`.
abbrev pub After : Instant → Option Instant → Type 0
After now none = Unit
After now (some t) = now < t

-- `OffsetDateTime::UNIX_EPOCH`: 1970-01-01 is 4,371,587 days after the crate's earliest day,
-- -9999-01-01.
abbrev pub unix_epoch : Instant
unix_epoch = seconds (4_371_587 * 86_400)
