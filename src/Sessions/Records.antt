-- ===== src/Sessions/Records.antt =====
-- The lifetime of a session's record, in src/pool/sessions.rs.
use jaynshare.Prelude.{
  ◌≡◌, ◌↔◌, ◌⊎◌, ◌+◌, ◌^◌, ◌≤◌, ◌<◌, refl, ap, true, false, not, List, [], ◌∷◌, Option, none, some,
  arith, keep_if, length, filter, if◌then◌else◌, inl, inr, length-filter-le, is_some, Option-cases,
  ◌==◌, nat_eq, suc, ◌-◌, ◌%◌, ◌∙◌,
}
use jaynshare.Time.{Instant}
use jaynshare.External.{Uuid}
use jaynshare.HashMap
use jaynshare.HashMap.{IsDistinct}
use jaynshare.HashMap.Laws.{get-insert_self, get-retain}
use jaynshare.HashMap.Distinct.{insert-IsDistinct, retain-IsDistinct, map_values-IsDistinct}
use jaynshare.Sessions.{
  Sessions, SessionKey, SessionRecord, key_eq, reap, begin, end, bind, unbind_account, counts,
  is_active, is_forgotten, known_window,
}

-- Reaping keeps a session's record, as it is, exactly while an exchange of it is in flight or it
-- was seen less than an hour ago, in a map with one record for each session.
pub get-reap :
    (s : Sessions) (now : Instant) (key : SessionKey) (r : SessionRecord)
    → IsDistinct s
    → (HashMap.get (reap s now) key ≡ some r)
      ↔ ((HashMap.get s key ≡ some r) × ((0 < r.in_flight) ⊎ (now < r.last_seen + known_window)))
unfolding reap is_forgotten
get-reap s now key r d = (
  λ e. ground (arith, get-retain (λ _ r. not (is_forgotten r now)) s key d),
  λ h. ground (arith, get-retain (λ _ r. not (is_forgotten r now)) s key d),
)

active_kept :
    (r : SessionRecord) (now : Instant) → is_active r now ≡ true → is_forgotten r now ≡ false
unfolding is_active is_forgotten
active_kept r now h = ground arith

active_filter :
    (s : Sessions) (now : Instant)
    → length (filter (λ r. is_active r now) (HashMap.values (reap s now)))
      ≡ length (filter (λ r. is_active r now) (HashMap.values s))
unfolding reap HashMap.retain
active_filter [] now = refl
active_filter ((k, r) ∷ s) now = ground (arith, active_kept r now, active_filter s now)

length-values : (s : Sessions) → length (HashMap.values s) ≡ length s
length-values [] = refl
length-values (e ∷ s) = ap suc (length-values s)

length-reap-le : (s : Sessions) (now : Instant) → length (reap s now) ≤ length s
unfolding reap HashMap.retain
length-reap-le s now = length-filter-le (λ e. not (is_forgotten e.1 now)) s

-- Reaping keeps the number of active sessions, knows no more sessions than before, and there are
-- never more active sessions than known ones.
pub counts-reap :
    (s : Sessions) (now : Instant)
    → ((counts (reap s now) now).active ≡ (counts s now).active)
      × ((counts (reap s now) now).known ≤ (counts s now).known)
      × ((counts s now).active ≤ (counts s now).known)
unfolding counts
counts-reap s now = (
  active_filter s now,
  length-reap-le s now,
  omega (arith, length-filter-le (λ r. is_active r now) (HashMap.values s), length-values s),
)

pub end_known :
    (s : Sessions) (key : SessionKey) (served : Option Uuid) (now : Instant) {r : SessionRecord}
    → HashMap.get s key ≡ some r
    → end s key served now
      ≡ HashMap.insert s key (record r {
        in_flight = r.in_flight - 1;
        last_seen = now;
        last_served = if is_some served then served else r.last_served;
      })
unfolding end
end_known s key served now e = rw (e, end) refl

pub end_unknown :
    (s : Sessions) (key : SessionKey) (served : Option Uuid) (now : Instant)
    → HashMap.get s key ≡ none
    → end s key served now ≡ s
unfolding end
end_unknown s key served now e = rw (e, end) refl

pub bind_known :
    (s : Sessions) (key : SessionKey) (handle : Uuid) {r : SessionRecord}
    → HashMap.get s key ≡ some r
    → bind s key handle ≡ (
      HashMap.insert s key (record r { bound = some handle }),
      keep_if (λ old. not (old == handle)) r.bound,
    )
unfolding bind
bind_known s key handle e = rw (e, bind) refl

pub bind_unknown :
    (s : Sessions) (key : SessionKey) (handle : Uuid)
    → HashMap.get s key ≡ none
    → bind s key handle ≡ (s, none)
unfolding bind
bind_unknown s key handle e = rw (e, bind) refl

get-begin :
    (s : Sessions) (key : SessionKey) (now : Instant) {r : SessionRecord}
    → HashMap.get s key ≡ some r
    → HashMap.get (begin s key now) key
      ≡ some (record r { in_flight = (r.in_flight + 1) % 2 ^ 32; last_seen = now })
unfolding begin
get-begin s key now {r} e = rw e (get-insert_self s key _)

-- For a known session, an exchange that begins and ends leaves its count of exchanges as it was,
-- its binding too, and records the end as last seen and the account that served, if one did; for a
-- count that has room for one more.
pub end-begin :
    (s : Sessions) (key : SessionKey) (start stop : Instant) (served : Option Uuid)
    (r : SessionRecord)
    → HashMap.get s key ≡ some r
    → r.in_flight + 1 < 2 ^ 32
    → HashMap.get (end (begin s key start) key served stop) key
      ≡ some (record r {
        last_seen = stop;
        last_served = if is_some served then served else r.last_served;
      })
end-begin s key start stop served r e small =
    let back : (r.in_flight + 1) % 2 ^ 32 - 1 ≡ r.in_flight = omega arith in
    rw (end_known (begin s key start) key served stop (get-begin s key start e)) (
      get-insert_self (begin s key start) key _
      ∙ ap
          (λ n. some (record r {
            in_flight = n;
            last_seen = stop;
            last_served = if is_some served then served else r.last_served;
          }))
          back)

-- What the pool does to its sessions.
pub data Event : Type 0 where
  begins : SessionKey → Instant → Event
  binds : SessionKey → Uuid → Event
  ends : SessionKey → Option Uuid → Instant → Event
  reaps : Instant → Event
  unbinds : Uuid → Event

unfoldable pub after : Sessions → Event → Sessions
after s (begins key now) = begin s key now
after s (binds key handle) = (bind s key handle).0
after s (ends key served now) = end s key served now
after s (reaps now) = reap s now
after s (unbinds handle) = unbind_account s handle

unfoldable pub run : Sessions → List Event → Sessions
run s [] = s
run s (e ∷ es) = run (after s e) es

bind-IsDistinct :
    (s : Sessions) (key : SessionKey) (handle : Uuid)
    → IsDistinct s
    → IsDistinct (bind s key handle).0
bind-IsDistinct s key handle d = elim (Option-cases (HashMap.get s key)) [
  | inl e ↦ rw (bind_unknown s key handle e) d
  | inr (r, e) ↦ rw (bind_known s key handle e) (insert-IsDistinct s key _ d)
]

end-IsDistinct :
    (s : Sessions) (key : SessionKey) (served : Option Uuid) (now : Instant)
    → IsDistinct s
    → IsDistinct (end s key served now)
end-IsDistinct s key served now d = elim (Option-cases (HashMap.get s key)) [
  | inl e ↦ rw (end_unknown s key served now e) d
  | inr (r, e) ↦ rw (end_known s key served now e) (insert-IsDistinct s key _ d)
]

-- The representation keeps one record for each session.
pub after-IsDistinct : (s : Sessions) (e : Event) → IsDistinct s → IsDistinct (after s e)
unfolding after begin reap unbind_account
after-IsDistinct s (begins key now) d = insert-IsDistinct s key _ d
after-IsDistinct s (binds key handle) d = bind-IsDistinct s key handle d
after-IsDistinct s (ends key served now) d = end-IsDistinct s key served now d
after-IsDistinct s (reaps now) d = retain-IsDistinct _ s d
after-IsDistinct s (unbinds handle) d = map_values-IsDistinct _ s d
