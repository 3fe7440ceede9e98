-- ===== src/Sessions.antt =====
-- src/pool/sessions.rs: the sessions, their bindings and their exchanges in flight. The count of
-- exchanges is a `u32`, which wraps as in a release build.
pub mod Records
pub mod Counting
pub mod Bindings
pub mod Loads
mod Tests
use jaynshare.Prelude.{
  ℕ, ◌+◌, ◌-◌, ◌*◌, ◌%◌, ◌^◌, String, Bool, true, false, not, ◌&&◌, ◌||◌, List, [], ◌∷◌, Option,
  none, some, ltb, leb, ◌==◌, nat_eq, string_eq, option_eq, if◌then◌else◌, is_some, and_then,
  keep_if, unwrap_or, filter, length, Eq, ◌≡◌, ◌↔◌, arith, map_some,
}
use jaynshare.Time.{Instant, seconds}
use jaynshare.External.{Uuid}
use jaynshare.HashMap
use jaynshare.HashMap.{HashMap}

-- `ACTIVE_WINDOW`, `KNOWN_WINDOW`
abbrev pub active_window : ℕ
active_window = seconds 120

abbrev pub known_window : ℕ
known_window = seconds 3600

pub record SessionKey : Type 0 where
  pub principal : String
  pub session_id : String

abbrev pub key_beq : SessionKey → SessionKey → Bool
key_beq a b = a.principal == b.principal && a.session_id == b.session_id

pub key_beq_iff : (a b : SessionKey) → (key_beq a b ≡ true) ↔ (a ≡ b)
key_beq_iff a b = ground (
  arith,
  string_eq.same_iff a.principal b.principal,
  string_eq.same_iff a.session_id b.session_id,
)

instance abbrev pub key_eq : Eq SessionKey
key_eq = record { same = key_beq; same_iff = key_beq_iff }

pub record SessionRecord : Type 0 where
  pub bound : Option Uuid
  pub last_served : Option Uuid
  pub last_seen : Instant
  pub in_flight : ℕ

-- `now - last_seen < ACTIVE_WINDOW`, the difference being signed.
unfoldable pub is_active : SessionRecord → Instant → Bool
is_active r now = ltb 0 r.in_flight || ltb now (r.last_seen + active_window)

unfoldable pub is_forgotten : SessionRecord → Instant → Bool
is_forgotten r now = r.in_flight == 0 && leb (r.last_seen + known_window) now

abbrev pub Sessions : Type 0
Sessions = HashMap SessionKey SessionRecord

pub record Counts : Type 0 where
  pub known : ℕ
  pub active : ℕ

unfoldable pub reap : Sessions → Instant → Sessions
reap s now = HashMap.retain (λ _ r. not (is_forgotten r now)) s

unfoldable pub binding : Sessions → SessionKey → Option Uuid
binding s key = and_then (HashMap.get s key) (λ r. r.bound)

abbrev pub fresh_record : Instant → SessionRecord
fresh_record now = record { bound = none; last_served = none; last_seen = now; in_flight = 0 }

unfoldable pub begin : Sessions → SessionKey → Instant → Sessions
begin s key now =
    HashMap.update s key (fresh_record now)
      (λ r. record r { in_flight = (r.in_flight + 1) % 2 ^ 32; last_seen = now })

-- The sessions after the binding, and the other account that the session was bound to.
unfoldable pub bind : Sessions → SessionKey → Uuid → Sessions × Option Uuid
bind s key handle = elim (HashMap.get s key) [
  | none ↦ (s, none)
  | some r ↦ (
    HashMap.insert s key (record r { bound = some handle }),
    keep_if (λ old. not (old == handle)) r.bound,
  )
]

unfoldable pub end : Sessions → SessionKey → Option Uuid → Instant → Sessions
end s key served now = elim (HashMap.get s key) [
  | none ↦ s
  | some r ↦ HashMap.insert s key (record r {
    in_flight = r.in_flight - 1;
    last_seen = now;
    last_served = if is_some served then served else r.last_served;
  })
]

unfoldable pub unbind_account : Sessions → Uuid → Sessions
unbind_account s handle =
    HashMap.map_values (λ r. if r.bound == some handle then record r { bound = none } else r) s

unfoldable pub counts : Sessions → Instant → Counts
counts s now = record {
  known = length s;
  active = length (filter (λ r. is_active r now) (HashMap.values s));
}

-- One round of the loops of `active_per_account` and `in_flight_per_account`, and the loops, from the map
-- so far.
unfoldable pub count_active : Instant → HashMap Uuid ℕ → SessionRecord → HashMap Uuid ℕ
count_active now out r = elim r.bound [
  | none ↦ out
  | some handle ↦ if is_active r now then HashMap.update out handle 0 (λ n. n + 1) else out
]

unfoldable pub add_active : Instant → HashMap Uuid ℕ → List SessionRecord → HashMap Uuid ℕ
add_active now out [] = out
add_active now out (r ∷ rs) = add_active now (count_active now out r) rs

unfoldable pub active_per_account : Sessions → Instant → HashMap Uuid ℕ
active_per_account s now = add_active now [] (HashMap.values s)

unfoldable pub count_in_flight : HashMap Uuid ℕ → SessionRecord → HashMap Uuid ℕ
count_in_flight out r = elim r.bound [
  | none ↦ out
  | some handle ↦
      if ltb 0 r.in_flight then HashMap.update out handle 0 (λ n. n + r.in_flight) else out
]

unfoldable pub add_in_flight : HashMap Uuid ℕ → List SessionRecord → HashMap Uuid ℕ
add_in_flight out [] = out
add_in_flight out (r ∷ rs) = add_in_flight (count_in_flight out r) rs

unfoldable pub in_flight_per_account : Sessions → HashMap Uuid ℕ
in_flight_per_account s = add_in_flight [] (HashMap.values s)
