-- ===== src/Sessions/Bindings.antt =====
-- Which account a session is bound to, in src/pool/sessions.rs.
use jaynshare.Prelude.{
  ◌≡◌, ◌≢◌, ◌↔◌, refl, Option, none, some, arith, if◌then◌else◌, ◌==◌, nat_eq, option_eq,
  Option-cases, inl, inr, Bool-cases, eq_of_==, ap, sym, ◌∙◌,
}
use jaynshare.Time.{Instant}
use jaynshare.External.{Uuid}
use jaynshare.HashMap
use jaynshare.HashMap.Laws.{get-insert, get-map_values}
use jaynshare.Sessions.{
  Sessions, SessionKey, SessionRecord, key_eq, binding, begin, bind, end, unbind_account,
}
use jaynshare.Sessions.Records.{bind_known, end_known, end_unknown}

binding-insert :
    (s : Sessions) (key other : SessionKey) (r : SessionRecord)
    → binding (HashMap.insert s key r) other ≡ (if key == other then r.bound else binding s other)
unfolding binding
binding-insert s key other r =
    rw (get-insert s key other r)
      (elim (Bool-cases (key == other)) [ inl e ↦ rw e refl | inr e ↦ rw e refl ])

-- A write of the same binding changes no binding.
binding-insert_same :
    (s : Sessions) (key other : SessionKey) (r : SessionRecord)
    → r.bound ≡ binding s key
    → binding (HashMap.insert s key r) other ≡ binding s other
binding-insert_same s key other r same =
    binding-insert s key other r ∙ elim (Bool-cases (key == other)) [
      | inl e ↦ rw e (same ∙ ap (binding s) (eq_of_== key other e))
      | inr e ↦ rw e refl
    ]

binding_known :
    (s : Sessions) (key : SessionKey) {r : SessionRecord}
    → HashMap.get s key ≡ some r
    → binding s key ≡ r.bound
unfolding binding
binding_known s key e = rw e refl

binding_unknown :
    (s : Sessions) (key : SessionKey) → HashMap.get s key ≡ none → binding s key ≡ none
unfolding binding
binding_unknown s key e = rw e refl

-- Binding a known session binds it to the account and no other session, and reports the account it
-- was bound to before exactly if that was another one.
pub binding-bind :
    (s : Sessions) (key other : SessionKey) (handle : Uuid) (r : SessionRecord)
    → HashMap.get s key ≡ some r
    → (binding (bind s key handle).0 other
        ≡ (if key == other then some handle else binding s other))
      × ((old : Uuid)
          → ((bind s key handle).1 ≡ some old) ↔ ((binding s key ≡ some old) × (old ≢ handle)))
binding-bind s key other handle r e =
    rw (bind_known s key handle e, binding_known s key e)
      (
        binding-insert s key other (record r { bound = some handle }),
        λ old. (λ h. ground arith, λ h. ground arith),
      )

-- The start and the end of an exchange leave every binding as it is.
pub binding-begin :
    (s : Sessions) (key other : SessionKey) (now : Instant)
    → binding (begin s key now) other ≡ binding s other
unfolding begin
binding-begin s key other now =
    binding-insert_same s key other _ (elim (Option-cases (HashMap.get s key)) [
      | inl e ↦ rw (binding_unknown s key e, e) refl
      | inr (r, e) ↦ rw (binding_known s key e, e) refl
    ])

pub binding-end :
    (s : Sessions) (key other : SessionKey) (served : Option Uuid) (now : Instant)
    → binding (end s key served now) other ≡ binding s other
binding-end s key other served now = elim (Option-cases (HashMap.get s key)) [
  | inl e ↦ rw (end_unknown s key served now e) refl
  | inr (r, e) ↦
      rw (end_known s key served now e)
        (binding-insert_same s key other _ (sym (binding_known s key e)))
]

-- Removing an account unbinds exactly the sessions that were bound to it.
pub binding-unbind_account :
    (s : Sessions) (handle : Uuid) (key : SessionKey)
    → binding (unbind_account s handle) key
      ≡ (if binding s key == some handle then none else binding s key)
unfolding binding unbind_account
binding-unbind_account s handle key =
    rw (get-map_values _ s key) (elim (Option-cases (HashMap.get s key)) [
      | inl e ↦ rw e refl
      | inr (r, e) ↦ rw e (ground arith)
    ])
