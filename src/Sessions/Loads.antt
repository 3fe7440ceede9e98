-- ===== src/Sessions/Loads.antt =====
-- The load of each account that `status` and the distribution of sessions read, in
-- src/pool/sessions.rs.
use jaynshare.Prelude.{
  ℕ, zero, suc, ◌≡◌, refl, ◌+◌, ◌&&◌, List, [], ◌∷◌, Option, none, some, arith, if◌then◌else◌, ◌==◌,
  nat_eq, option_eq, Option-cases, inl, inr, ◌∙◌, unwrap_or,
}
use jaynshare.Time.{Instant}
use jaynshare.External.{Uuid}
use jaynshare.HashMap
use jaynshare.HashMap.{HashMap}
use jaynshare.HashMap.Laws.{get-insert}
use jaynshare.Sessions.{
  Sessions, SessionRecord, is_active, active_per_account, add_active, in_flight_per_account,
  add_in_flight, count_active, count_in_flight, unbind_account, key_eq,
}

-- A record's part of an account's load: as an active session bound to it, and in exchanges in flight.
abbrev pub active_part : Uuid → Instant → SessionRecord → ℕ
active_part handle now r = if r.bound == some handle && is_active r now then 1 else 0

abbrev pub in_flight_part : Uuid → SessionRecord → ℕ
in_flight_part handle r = if r.bound == some handle then r.in_flight else 0

abbrev pub total : (SessionRecord → ℕ) → List SessionRecord → ℕ
total part [] = 0
total part (r ∷ rs) = part r + total part rs

-- A count that stands in the map only where it is not zero.
abbrev pub plus : Option ℕ → ℕ → Option ℕ
plus none zero = none
plus none (suc n) = some (suc n)
plus (some m) n = some (m + n)

plus-plus : (o : Option ℕ) (a b : ℕ) → plus (plus o a) b ≡ plus o (a + b)
plus-plus none a b = ground arith
plus-plus (some m) a b = ground arith

get-count_active :
    (handle : Uuid) (now : Instant) (out : HashMap Uuid ℕ) (r : SessionRecord)
    → HashMap.get (count_active now out r) handle
      ≡ plus (HashMap.get out handle) (active_part handle now r)
unfolding count_active
get-count_active handle now out r = elim (Option-cases r.bound) [
  | inl e ↦ ground arith
  | inr (h, e) ↦ ground (arith, get-insert out h handle (unwrap_or (HashMap.get out h) 0 + 1))
]

get-count_in_flight :
    (handle : Uuid) (out : HashMap Uuid ℕ) (r : SessionRecord)
    → HashMap.get (count_in_flight out r) handle
      ≡ plus (HashMap.get out handle) (in_flight_part handle r)
unfolding count_in_flight
get-count_in_flight handle out r = elim (Option-cases r.bound) [
  | inl e ↦ ground arith
  | inr (h, e) ↦
      ground (arith, get-insert out h handle (unwrap_or (HashMap.get out h) 0 + r.in_flight))
]

get-add_active :
    (handle : Uuid) (now : Instant) (out : HashMap Uuid ℕ) (rs : List SessionRecord)
    → HashMap.get (add_active now out rs) handle
      ≡ plus (HashMap.get out handle) (total (active_part handle now) rs)
unfolding add_active
get-add_active handle now out [] = ground arith
get-add_active handle now out (r ∷ rs) =
    get-add_active handle now (count_active now out r) rs
    ∙ rw (get-count_active handle now out r)
        (plus-plus (HashMap.get out handle) (active_part handle now r) _)

get-add_in_flight :
    (handle : Uuid) (out : HashMap Uuid ℕ) (rs : List SessionRecord)
    → HashMap.get (add_in_flight out rs) handle
      ≡ plus (HashMap.get out handle) (total (in_flight_part handle) rs)
unfolding add_in_flight
get-add_in_flight handle out [] = ground arith
get-add_in_flight handle out (r ∷ rs) =
    get-add_in_flight handle (count_in_flight out r) rs
    ∙ rw (get-count_in_flight handle out r)
        (plus-plus (HashMap.get out handle) (in_flight_part handle r) _)

-- The load maps hold an account exactly if active sessions, or exchanges in flight, are bound to
-- it, with their number.
pub get-active_per_account :
    (s : Sessions) (now : Instant) (handle : Uuid)
    → (HashMap.get (active_per_account s now) handle
        ≡ plus none (total (active_part handle now) (HashMap.values s)))
      × (HashMap.get (in_flight_per_account s) handle
          ≡ plus none (total (in_flight_part handle) (HashMap.values s)))
unfolding active_per_account in_flight_per_account HashMap.get
get-active_per_account s now handle = (
  get-add_active handle now [] (HashMap.values s),
  get-add_in_flight handle [] (HashMap.values s),
)

active_part-unbound :
    (handle : Uuid) (now : Instant) (s : Sessions)
    → total (active_part handle now) (HashMap.values (unbind_account s handle)) ≡ 0
unfolding unbind_account HashMap.map_values
active_part-unbound handle now [] = refl
active_part-unbound handle now ((k, r) ∷ s) = ground (arith, active_part-unbound handle now s)

-- A removed account carries no load.
pub unbind_account-active :
    (s : Sessions) (handle : Uuid) (now : Instant)
    → HashMap.get (active_per_account (unbind_account s handle) now) handle ≡ none
unbind_account-active s handle now =
    (get-active_per_account (unbind_account s handle) now handle).0
    ∙ rw (active_part-unbound handle now s) refl
