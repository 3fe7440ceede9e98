-- ===== src/Sessions/Counting.antt =====
-- The exchanges of a session in flight, in src/pool/sessions.rs.
use jaynshare.Prelude.{
  ℕ, ◌≡◌, ◌+◌, ◌-◌, ◌^◌, ◌<◌, refl, ap, sym, subst, ◌∙◌, List, [], ◌∷◌, Option, none, some, arith,
  length, not, if◌then◌else◌, inl, inr, Option-cases, Bool-cases, ◌==◌, nat_eq, option_eq, eq_of_==,
}
use jaynshare.Time.{Instant}
use jaynshare.External.{Uuid}
use jaynshare.HashMap
use jaynshare.HashMap.{IsDistinct}
use jaynshare.HashMap.Laws.{get-insert, get-map_values, get-retain}
use jaynshare.Sessions.{
  Sessions, SessionKey, SessionRecord, key_eq, begin, bind, end, reap, unbind_account, is_forgotten,
}
use jaynshare.Sessions.Records.{
  Event, begins, binds, ends, reaps, unbinds, after, run, after-IsDistinct, bind_known,
  bind_unknown, end_known, end_unknown,
}

-- What an event does to the number of one session's exchanges that have begun and not ended.
abbrev pub open_after : SessionKey → ℕ → Event → ℕ
open_after key n (begins k now) = if k == key then n + 1 else n
open_after key n (ends k served now) = if k == key then n - 1 else n
open_after key n (binds k handle) = n
open_after key n (reaps now) = n
open_after key n (unbinds handle) = n

abbrev pub open_exchanges : SessionKey → ℕ → List Event → ℕ
open_exchanges key n [] = n
open_exchanges key n (e ∷ es) = open_exchanges key (open_after key n e) es

-- The count that the session's record keeps, none where there is no record.
abbrev pub count_of : Option SessionRecord → ℕ
count_of none = 0
count_of (some r) = r.in_flight

abbrev pub in_flight_of : Sessions → SessionKey → ℕ
in_flight_of s key = count_of (HashMap.get s key)

in_flight_of-insert :
    (s : Sessions) (k key : SessionKey) (r : SessionRecord)
    → in_flight_of (HashMap.insert s k r) key
      ≡ (if k == key then r.in_flight else in_flight_of s key)
in_flight_of-insert s k key r =
    ap count_of (get-insert s k key r)
    ∙ elim (Bool-cases (k == key)) [ inl e ↦ rw e refl | inr e ↦ rw e refl ]

-- A record for the session with the count that it had.
in_flight_of-insert_same :
    (s : Sessions) (k key : SessionKey) (r : SessionRecord)
    → r.in_flight ≡ in_flight_of s k
    → in_flight_of (HashMap.insert s k r) key ≡ in_flight_of s key
in_flight_of-insert_same s k key r same =
    in_flight_of-insert s k key r ∙ elim (Bool-cases (k == key)) [
      | inl e ↦ rw e (same ∙ ap (in_flight_of s) (eq_of_== k key e))
      | inr e ↦ rw e refl
    ]

in_flight_of-begin :
    (s : Sessions) (k key : SessionKey) (now : Instant)
    → in_flight_of s key + 1 < 2 ^ 32
    → in_flight_of (begin s k now) key
      ≡ (if k == key then in_flight_of s key + 1 else in_flight_of s key)
unfolding begin
in_flight_of-begin s k key now room = in_flight_of-insert s k key _ ∙ elim (Bool-cases (k == key)) [
  | inl e ↦
      rw (e, eq_of_== k key e)
        (elim (Option-cases (HashMap.get s key)) [
          | inl f ↦ rw f refl
          | inr (r, f) ↦
              let small : r.in_flight + 1 < 2 ^ 32 = subst (λ o. count_of o + 1 < 2 ^ 32) f room in
              rw f (omega (arith, small))
        ])
  | inr e ↦ rw e refl
]

in_flight_of-bind :
    (s : Sessions) (k key : SessionKey) (handle : Uuid)
    → in_flight_of (bind s k handle).0 key ≡ in_flight_of s key
in_flight_of-bind s k key handle = elim (Option-cases (HashMap.get s k)) [
  | inl e ↦ ap (λ (p : Sessions × Option Uuid). in_flight_of p.0 key) (bind_unknown s k handle e)
  | inr (r, e) ↦
      ap (λ (p : Sessions × Option Uuid). in_flight_of p.0 key) (bind_known s k handle e)
      ∙ in_flight_of-insert_same s k key _ (sym (ap count_of e))
]

in_flight_of-end :
    (s : Sessions) (k key : SessionKey) (served : Option Uuid) (now : Instant)
    → in_flight_of (end s k served now) key
      ≡ (if k == key then in_flight_of s key - 1 else in_flight_of s key)
in_flight_of-end s k key served now = elim (Option-cases (HashMap.get s k)) [
  | inl e ↦
      ap (λ (t : Sessions). in_flight_of t key) (end_unknown s k served now e)
      ∙ elim (Bool-cases (k == key)) [
        | inl f ↦
            let nothing : in_flight_of s key ≡ 0 =
              ap (in_flight_of s) (sym (eq_of_== k key f)) ∙ ap count_of e in
            rw f (omega (arith, nothing))
        | inr f ↦ rw f refl
      ]
  | inr (r, e) ↦
      ap (λ (t : Sessions). in_flight_of t key) (end_known s k served now e)
      ∙ in_flight_of-insert s k key _
      ∙ elim (Bool-cases (k == key)) [
        | inl f ↦
            rw f (ap (λ n. n - 1) (sym (ap count_of e) ∙ ap (in_flight_of s) (eq_of_== k key f)))
        | inr f ↦ rw f refl
      ]
]

in_flight_of-reap :
    (s : Sessions) (key : SessionKey) (now : Instant)
    → IsDistinct s
    → in_flight_of (reap s now) key ≡ in_flight_of s key
unfolding reap is_forgotten
in_flight_of-reap s key now d =
    ap count_of (get-retain (λ _ r. not (is_forgotten r now)) s key d)
    ∙ elim (Option-cases (HashMap.get s key)) [
      | inl e ↦ rw e refl
      | inr (r, e) ↦ rw e (ground arith)
    ]

in_flight_of-unbind_account :
    (s : Sessions) (key : SessionKey) (handle : Uuid)
    → in_flight_of (unbind_account s handle) key ≡ in_flight_of s key
unfolding unbind_account
in_flight_of-unbind_account s key handle =
    ap count_of (get-map_values _ s key) ∙ elim (Option-cases (HashMap.get s key)) [
      | inl e ↦ rw e refl
      | inr (r, e) ↦ rw e (ground arith)
    ]

in_flight_of-after :
    (s : Sessions) (key : SessionKey) (e : Event)
    → IsDistinct s
    → in_flight_of s key + 1 < 2 ^ 32
    → in_flight_of (after s e) key ≡ open_after key (in_flight_of s key) e
unfolding after
in_flight_of-after s key (begins k now) d room = in_flight_of-begin s k key now room
in_flight_of-after s key (binds k handle) d room = in_flight_of-bind s k key handle
in_flight_of-after s key (ends k served now) d room = in_flight_of-end s k key served now
in_flight_of-after s key (reaps now) d room = in_flight_of-reap s key now d
in_flight_of-after s key (unbinds handle) d room = in_flight_of-unbind_account s key handle

open_after-le : (key : SessionKey) (n : ℕ) (e : Event) → open_after key n e < n + 2
open_after-le key n (begins k now) = ground arith
open_after-le key n (ends k served now) = ground arith
open_after-le key n (binds k handle) = omega arith
open_after-le key n (reaps now) = omega arith
open_after-le key n (unbinds handle) = omega arith

-- After any sequence of begins, binds, ends, reaps and unbinds, a session has as many exchanges in
-- flight as it had, plus one for each that began, less one for each that ended while any was open;
-- where the representation has one record for each session, and the count and the number of the
-- events stay below 2^32.
pub in_flight_of-run :
    (s : Sessions) (key : SessionKey) (es : List Event)
    → IsDistinct s
    → in_flight_of s key + length es < 2 ^ 32
    → in_flight_of (run s es) key ≡ open_exchanges key (in_flight_of s key) es
unfolding run
in_flight_of-run s key [] d room = refl
in_flight_of-run s key (e ∷ es) d room =
    let next = in_flight_of-after s key e d (omega arith) in
    in_flight_of-run (after s e) key es (after-IsDistinct s e d)
      (omega (arith, next, open_after-le key (in_flight_of s key) e))
    ∙ ap (λ n. open_exchanges key n es) next
