-- ===== src/Registry/Refusing.antt =====
-- The two ways that an operation of src/registry.rs can end.
use jaynshare.Prelude.{
  String, ℕ, ◌≡◌, ◌⊎◌, ◌+◌, refl, ap, inl, inr, true, false, none, some, Result, ok, err,
  Option-cases, Result-cases, Bool-cases, find, change_first,
}
use jaynshare.Time.{Instant}
use jaynshare.Secret.{Hashing, enrollment_code, client_secret, generate}
use jaynshare.Registry.{
  Registry, RegistryEntry, unknown, Unicode, entry, change_entry, issue, reissue, claim, rotate,
  revoke, rename, reissued, rotated, retired, active_of, is_revoked, duration_seconds,
  validate_display_name,
}
use jaynshare.Registry.Claiming.{claim-cases}
use jaynshare.Registry.Enrolling.{issue-cases}

-- The operation is refused and the registry is as before, or it succeeds.
abbrev pub Ends : {A E : Type 0} → Registry → Registry × Result {0, 0} A E → Type 0
Ends {A} {E} r answer =
    ((cause : E) × (answer ≡ (r, err cause))) ⊎ ((value : A) × (answer.1 ≡ ok value))

Ends-ok :
    {A E : Type 0} {r s : Registry} {value : A} {answer : Registry × Result {0, 0} A E}
    → answer ≡ (s, ok value)
    → Ends r answer
Ends-ok {value} e = inr (value, ap (λ p. p.1) e)

pub revoke-cases :
    (r : Registry) (id : String) (now : Instant)
    → ((entry r id ≡ none) × (revoke r id now ≡ (r, err tt)))
      ⊎ ((e : RegistryEntry) × (entry r id ≡ some e)
          × (((is_revoked e.state ≡ true) × (revoke r id now ≡ (r, ok tt)))
              ⊎ ((is_revoked e.state ≡ false)
                  × (revoke r id now ≡ (change_entry id (retired now) r, ok tt)))))
unfolding revoke
revoke-cases r id now = elim (Option-cases (entry r id)) [
  | inl gone ↦ inl (gone, rw (gone, revoke) refl)
  | inr (e, at) ↦ inr (
    e,
    at,
    elim (Bool-cases (is_revoked e.state)) [
      | inl already ↦ inl (already, rw (at, revoke) (rw already refl))
      | inr not_yet ↦ inr (not_yet, rw (at, revoke) (rw not_yet refl))
    ],
  )
]

pub rename-cases :
    ⦃u : Unicode⦄ (r : Registry) (id display_name : String)
    → ((cause : String) × (rename r id display_name ≡ (r, err cause)))
      ⊎ ((name : String) × (rename r id display_name
            ≡ (change_entry id (λ c. record c { display_name = name }) r, ok tt)))
unfolding rename
rename-cases r id display_name = elim (Result-cases (validate_display_name display_name)) [
  | inr (cause, bad) ↦ inl (cause, rw (bad, rename) refl)
  | inl (name, good) ↦ elim (Option-cases (entry r id)) [
    | inl gone ↦ inl ("no client has this id", rw (good, rename) (rw (gone, rename) refl))
    | inr (e, at) ↦ inr (name, rw (good, rename) (rw (at, rename) refl))
  ]
]

module _ ⦃h : Hashing⦄ where
  pub reissue-cases :
      (r : Registry) (id drawn : String) (now : Instant) (lifetime_seconds : ℕ)
      → ((entry r id ≡ none) × (reissue r id now lifetime_seconds drawn ≡ (r, err unknown)))
        ⊎ ((e : RegistryEntry) × (entry r id ≡ some e)
            × (reissue r id now lifetime_seconds drawn ≡ (
              change_entry id (reissued now lifetime_seconds (generate enrollment_code drawn)) r,
              ok (generate enrollment_code drawn, now + duration_seconds lifetime_seconds),
            )))
  unfolding reissue
  reissue-cases r id drawn now lifetime_seconds = elim (Option-cases (entry r id)) [
    | inl gone ↦ inl (gone, rw (gone, reissue) refl)
    | inr (e, at) ↦ inr (e, at, rw (at, reissue) refl)
  ]

  pub rotate-cases :
      (r : Registry) (id drawn : String)
      → (rotate r id drawn ≡ (r, err tt))
        ⊎ ((e : RegistryEntry) × (find (active_of id) r.clients ≡ some e)
            × (rotate r id drawn ≡ (
              record r {
                clients =
                    change_first (active_of id) (rotated (generate client_secret drawn)) r.clients;
              },
              ok (generate client_secret drawn),
            )))
  unfolding rotate
  rotate-cases r id drawn = elim (Option-cases (find (active_of id) r.clients)) [
    | inl gone ↦ inl (rw (gone, rotate) refl)
    | inr (e, at) ↦ inr (e, at, rw (at, rotate) refl)
  ]

  -- An invite, a reissue, a claim, a rotation, a revocation or a renaming that is refused leaves
  -- the registry as it is.
  pub refused_unchanged :
      ⦃u : Unicode⦄ (r : Registry) (id name code drawn : String) (now : Instant)
      (lifetime_seconds : ℕ)
      → Ends r (issue r id name now lifetime_seconds drawn)
        × Ends r (reissue r id now lifetime_seconds drawn)
        × Ends r (claim r id code now drawn)
        × Ends r (rotate r id drawn)
        × Ends r (revoke r id now)
        × Ends r (rename r id name)
  refused_unchanged r id name code drawn now lifetime_seconds = (
    elim (issue-cases r id name drawn now lifetime_seconds) [
      | inl refusal ↦ inl refusal
      | inr (text, free, e) ↦ Ends-ok e
    ],
    elim (reissue-cases r id drawn now lifetime_seconds) [
      | inl (gone, e) ↦ inl (_, e)
      | inr (found, at, e) ↦ Ends-ok e
    ],
    elim (claim-cases r id code drawn now) [
      | inl refusal ↦ inl refusal
      | inr (found, at, fine, e) ↦ Ends-ok e
    ],
    elim (rotate-cases r id drawn) [ inl e ↦ inl (_, e) | inr (found, at, e) ↦ Ends-ok e ],
    elim (revoke-cases r id now) [
      | inl (gone, e) ↦ inl (_, e)
      | inr (found, at, inl (already, e)) ↦ Ends-ok e
      | inr (found, at, inr (not_yet, e)) ↦ Ends-ok e
    ],
    elim (rename-cases r id name) [ inl refusal ↦ inl refusal | inr (text, e) ↦ Ends-ok e ],
  )
