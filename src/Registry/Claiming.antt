-- ===== src/Registry/Claiming.antt =====
-- The life of an enrollment code in src/registry.rs.
use jaynshare.Prelude.{String, ◌≡◌, refl, inl, inr, none, some, ok, err, Option-cases, ◌⊎◌}
use jaynshare.Time.{Instant}
use jaynshare.Secret.{Hashing, enrollment_code, client_secret, generate, other_role}
use jaynshare.Registry.{
  Registry, RegistryEntry, ClaimCause, unknown_id, wrong_code, entry, change_entry, claim,
  activated, refusal,
}

module _ ⦃h : Hashing⦄ where
  refusal-activated :
      (e : RegistryEntry) (now later : Instant) (secret code : String)
      → refusal (activated now secret e) code later ≡ some wrong_code
  unfolding refusal activated
  refusal-activated e now later secret code =
      rw (other_role client_secret enrollment_code secret code (λ same. cc)) refl

  -- A claim is refused and the registry stays as it is, or it activates the entry.
  pub claim-cases :
      (r : Registry) (id code drawn : String) (now : Instant)
      → ((cause : ClaimCause) × (claim r id code now drawn ≡ (r, err cause)))
        ⊎ ((e : RegistryEntry) × (entry r id ≡ some e)
            × (refusal e code now ≡ none)
            × (claim r id code now drawn ≡ (
              change_entry id (activated now (generate client_secret drawn)) r,
              ok (activated now (generate client_secret drawn) e, generate client_secret drawn),
            )))
  unfolding claim
  claim-cases r id code drawn now = elim (Option-cases (entry r id)) [
    | inl gone ↦ inl (unknown_id, rw (gone, claim) refl)
    | inr (e, at) ↦ elim (Option-cases (refusal e code now)) [
      | inl fine ↦ inr (e, at, fine, rw (at, claim) (rw (fine, claim) refl))
      | inr (cause, bad) ↦ inl (cause, rw (at, claim) (rw (bad, claim) refl))
    ]
  ]

  pub activated-id :
      (now : Instant) (secret : String) (e : RegistryEntry) → (activated now secret e).id ≡ e.id
  unfolding activated
  activated-id now secret e = refl

  pub refused_claim :
      (r : Registry) (id code drawn : String) (now : Instant) (e : RegistryEntry)
      (cause : ClaimCause)
      → entry r id ≡ some e
      → refusal e code now ≡ some cause
      → claim r id code now drawn ≡ (r, err cause)
  unfolding claim
  refused_claim r id code drawn now e cause at bad = rw (at, claim) (rw (bad, claim) refl)
