-- ===== src/Registry/History.antt =====
-- Every sequence of the operations of src/registry.rs, from an empty registry on.
use jaynshare.Prelude.{
  String, ℕ, ◌≡◌, refl, sym, ◌∙◌, List, ◌++◌, inl, inr, Bool, true, false, [], ◌∷◌, none, some,
  Option-cases, arith, is_some, is_some_and, All, All_In, find, find_sound, change_first, ◌==◌,
  string_eq, subst, ◌&&◌,
}
use mathlib.Core.Option.{some-injective}
use jaynshare.Time.{Instant}
use jaynshare.Secret.{Hashing, Role, enrollment_code, client_secret, verifier_of, domain}
use jaynshare.Registry.{
  Registry, RegistryEntry, EntryState, pending, active, revoked, Unicode, entry, change_entry,
  issue, reissue, claim, set_no_account, rotate, revoke, rename, provision_operator_secret,
  remove_operator_secret, activated, reissued, rotated, refusal, retired, active_of, pending_entry,
  is_active, is_pending,
}
use jaynshare.Registry.Entries.{
  ids, ids-change_first, Unique, Unique-append, All-change_first, change_first-none,
}
use jaynshare.Registry.Claiming.{claim-cases, activated-id}
use jaynshare.Registry.Refusing.{reissue-cases, rotate-cases, revoke-cases, rename-cases}
use jaynshare.Registry.Enrolling.{issue-cases}

-- The entry's verifier is of the role.
abbrev pub Verifies : Role → RegistryEntry → Type 0
Verifies role e = is_some_and e.verifier (λ v. v.domain == domain role) ≡ true

-- What the state says of the other fields.
abbrev pub InState : EntryState → RegistryEntry → Type 0
InState pending e =
    Verifies enrollment_code e
    × (is_some e.expires_at ≡ true)
    × (e.activated_at ≡ none)
    × (e.revoked_at ≡ none)
InState active e =
    Verifies client_secret e
    × (e.expires_at ≡ none)
    × (is_some e.activated_at ≡ true)
    × (e.revoked_at ≡ none)
InState revoked e = (e.verifier ≡ none) × (e.expires_at ≡ none) × (is_some e.revoked_at ≡ true)

abbrev pub Coherent : RegistryEntry → Type 0
Coherent e = InState e.state e

abbrev pub Sound : Registry → Type 0
Sound r = Unique (ids r.clients) × All Coherent r.clients

All-last :
    (P : RegistryEntry → Type 0) (l : List RegistryEntry) (e : RegistryEntry)
    → All P l
    → P e
    → All P (l ++ (e ∷ []))
All-last P [] e all good = (good, tt)
All-last P (a ∷ l) e all good = (all.0, All-last P l e all.1 good)

and_right : (a b : Bool) → (a && b) ≡ true → b ≡ true
and_right true b e = e
and_right false b e = cc

module _ ⦃h : Hashing⦄ ⦃u : Unicode⦄ where
  pub data Step : Registry → Registry → Type 0 where
    issues :
        (r : Registry) (id name drawn : String) (now : Instant) (lifetime : ℕ)
        → Step r (issue r id name now lifetime drawn).0
    reissues :
        (r : Registry) (id drawn : String) (now : Instant) (lifetime : ℕ)
        → Step r (reissue r id now lifetime drawn).0
    claims :
        (r : Registry) (id code drawn : String) (now : Instant)
        → Step r (claim r id code now drawn).0
    sets :
        (r : Registry) (id : String) (no_account : Bool) → Step r (set_no_account r id no_account)
    rotates : (r : Registry) (id drawn : String) → Step r (rotate r id drawn).0
    revokes : (r : Registry) (id : String) (now : Instant) → Step r (revoke r id now).0
    renames : (r : Registry) (id name : String) → Step r (rename r id name).0
    provisions :
        (r : Registry) (now : Instant) (drawn : String)
        → Step r (provision_operator_secret r now drawn).0
    removes : (r : Registry) → Step r (remove_operator_secret r)

  pub data Reach : Registry → Type 0 where
    begin : Reach (record { clients = []; operator = none })
    next : {r s : Registry} → Reach r → Step r s → Reach s

  changed-Sound :
      (r : Registry) (p : RegistryEntry → Bool) (f : RegistryEntry → RegistryEntry)
      (e : RegistryEntry)
      → ((a : RegistryEntry) → (f a).id ≡ a.id)
      → find p r.clients ≡ some e
      → (Coherent e → Coherent (f e))
      → Sound r
      → Sound (record r { clients = change_first p f r.clients })
  changed-Sound r p f e keeps at good i = (
    subst Unique (sym (ids-change_first p f r.clients keeps)) i.0,
    All-change_first Coherent p f r.clients e at
        (good (All_In Coherent r.clients e i.1 (find_sound p r.clients e at).0)) i.1,
  )

  -- What an operation does to the entry that it finds.
  reissued-Coherent :
      (now : Instant) (lifetime : ℕ) (code : String) (e : RegistryEntry)
      → Coherent (reissued now lifetime code e)
  unfolding reissued verifier_of
  reissued-Coherent now lifetime code e = (refl, refl, refl, refl)

  pending_entry-Coherent :
      (id name code : String) (now : Instant) (lifetime : ℕ)
      → Coherent (pending_entry id name now lifetime code)
  unfolding pending_entry verifier_of
  pending_entry-Coherent id name code now lifetime = (refl, refl, refl, refl)

  never_revoked :
      (s : EntryState) (e : RegistryEntry) → is_pending s ≡ true → InState s e → e.revoked_at ≡ none
  never_revoked pending e on i = i.3
  never_revoked active e on i = cc
  never_revoked revoked e on i = cc

  refusal-pending :
      (e : RegistryEntry) (code : String) (now : Instant)
      → refusal e code now ≡ none
      → is_pending e.state ≡ true
  unfolding refusal
  refusal-pending e code now fine = ground arith

  activated-Coherent :
      (now later : Instant) (secret code : String) (e : RegistryEntry)
      → refusal e code later ≡ none
      → Coherent e
      → Coherent (activated now secret e)
  unfolding activated verifier_of
  activated-Coherent now later secret code e fine i =
      (refl, refl, refl, never_revoked e.state e (refusal-pending e code later fine) i)

  rotated-InState :
      (s : EntryState) (secret : String) (e : RegistryEntry)
      → is_active s ≡ true
      → InState s e
      → InState s (rotated secret e)
  unfolding rotated verifier_of
  rotated-InState pending secret e on i = cc
  rotated-InState active secret e on i = (refl, i.1, i.2, i.3)
  rotated-InState revoked secret e on i = cc

  rotated-Coherent :
      (secret : String) (e : RegistryEntry)
      → is_active e.state ≡ true
      → Coherent e
      → Coherent (rotated secret e)
  unfolding rotated
  rotated-Coherent secret e on i = rotated-InState e.state secret e on i

  renamed-InState :
      (s : EntryState) (name : String) (e : RegistryEntry)
      → InState s e
      → InState s (record e { display_name = name })
  renamed-InState pending name e i = i
  renamed-InState active name e i = i
  renamed-InState revoked name e i = i

  set-InState :
      (s : EntryState) (b : Bool) (e : RegistryEntry)
      → InState s e
      → InState s (record e { no_account = b })
  set-InState pending b e i = i
  set-InState active b e i = i
  set-InState revoked b e i = i

  pub reissued-id :
      (now : Instant) (lifetime : ℕ) (code : String) (e : RegistryEntry)
      → (reissued now lifetime code e).id ≡ e.id
  unfolding reissued
  reissued-id now lifetime code e = refl

  pub rotated-id : (secret : String) (e : RegistryEntry) → (rotated secret e).id ≡ e.id
  unfolding rotated
  rotated-id secret e = refl

  -- A change of the entry of an id, or of none if the id is unknown.
  entry-Sound :
      (r : Registry) (id : String) (f : RegistryEntry → RegistryEntry)
      → ((a : RegistryEntry) → (f a).id ≡ a.id)
      → ((e : RegistryEntry) → entry r id ≡ some e → Coherent e → Coherent (f e))
      → Sound r
      → Sound (change_entry id f r)
  unfolding entry change_entry
  entry-Sound r id f keeps good i = elim (Option-cases (entry r id)) [
    | inl gone ↦ rw (change_first-none _ f r.clients gone) i
    | inr (e, at) ↦ changed-Sound r _ f e keeps at (good e at) i
  ]

  issued-Sound :
      (r : Registry) (id name code : String) (now : Instant) (lifetime : ℕ)
      → entry r id ≡ none
      → Sound r
      → Sound (record r { clients = r.clients ++ (pending_entry id name now lifetime code ∷ []) })
  unfolding entry pending_entry
  issued-Sound r id name code now lifetime free i = (
    Unique-append r.clients (pending_entry id name now lifetime code) free i.0,
    All-last Coherent r.clients (pending_entry id name now lifetime code) i.1
        (pending_entry-Coherent id name code now lifetime),
  )

  Step-Sound : {r s : Registry} → Step r s → Sound r → Sound s
  unfolding set_no_account provision_operator_secret remove_operator_secret
  Step-Sound (issues r id name drawn now lifetime) i =
      elim (issue-cases r id name drawn now lifetime) [
        | inl (cause, same) ↦ rw same i
        | inr (text, free, same) ↦ rw same (issued-Sound r id text _ now lifetime free i)
      ]
  Step-Sound (reissues r id drawn now lifetime) i = elim (reissue-cases r id drawn now lifetime) [
    | inl (gone, same) ↦ rw same i
    | inr (e, at, same) ↦ rw same (
        entry-Sound r id _ (reissued-id now lifetime _)
          (λ a found c. reissued-Coherent now lifetime _ a) i)
  ]
  Step-Sound (claims r id code drawn now) i = elim (claim-cases r id code drawn now) [
    | inl (cause, same) ↦ rw same i
    | inr (e, at, fine, same) ↦ rw same (
        entry-Sound r id _ (activated-id now _)
          (λ a found c.
            activated-Coherent now now _ code a
              (subst (λ b. refusal b code now ≡ none) (some-injective e a (sym at ∙ found)) fine) c)
          i)
  ]
  Step-Sound (sets r id no_account) i =
      entry-Sound r id _ (λ a. refl) (λ e at c. set-InState e.state no_account e c) i
  Step-Sound (rotates r id drawn) i = elim (rotate-cases r id drawn) [
    | inl same ↦ rw same i
    | inr (e, at, same) ↦ rw same (
        changed-Sound r (active_of id) _ e (rotated-id _) at
          (rotated-Coherent _ e (
            and_right (e.id == id) (is_active e.state)
              (find_sound (active_of id) r.clients e at).1))
          i)
  ]
  Step-Sound (revokes r id now) i = elim (revoke-cases r id now) [
    | inl (gone, same) ↦ rw same i
    | inr (e, at, inl (already, same)) ↦ rw same i
    | inr (e, at, inr (not_yet, same)) ↦
        rw same (entry-Sound r id (retired now) (λ a. refl) (λ a found c. (refl, refl, refl)) i)
  ]
  Step-Sound (renames r id name) i = elim (rename-cases r id name) [
    | inl (cause, same) ↦ rw same i
    | inr (text, same) ↦
        rw same (entry-Sound r id _ (λ a. refl) (λ a found c. renamed-InState a.state text a c) i)
  ]
  Step-Sound (provisions r now drawn) i = i
  Step-Sound (removes r) i = i

  -- Every registry that the operations lead to from an empty one has each id once, and every
  -- entry's verifier and dates are those of its state: a pending one has an enrollment code and a
  -- deadline, an active one a client's secret and no deadline, a revoked one no verifier.
  pub Reach-Sound : (r : Registry) → Reach r → Sound r
  Reach-Sound r begin = (tt, tt)
  Reach-Sound r (next before step) = Step-Sound step (Reach-Sound _ before)
