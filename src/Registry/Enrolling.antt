-- ===== src/Registry/Enrolling.antt =====
-- From the invite to the first request of a client, in src/registry.rs.
use jaynshare.Prelude.{
  String, ℕ, ◌+◌, ◌≡◌, ◌≤◌, refl, sym, ◌∙◌, ap, inl, inr, Bool, true, ◌&&◌, List, [], ◌∷◌, ◌++◌,
  Option, none, some, Result, ok, err, Option-cases, Result-cases, arith, is_some_and, find,
  change_first, ◌⊎◌, ◌==◌, string_eq, ==_refl, ok_injective, subst,
}
use jaynshare.Time.{Instant}
use jaynshare.Secret.{Hashing, enrollment_code, client_secret, matches, generate, matches_itself}
use jaynshare.Registry.{
  Registry, RegistryEntry, Unicode, entry, change_entry, claim, activated, refusal, issue,
  pending_entry, client_by_secret, is_active, validate_id, validate_display_name, duration_seconds,
}

module _ ⦃h : Hashing⦄ ⦃u : Unicode⦄ where
  abbrev pub enrolled : Registry → RegistryEntry → Registry
  enrolled r e = record r { clients = r.clients ++ (e ∷ []) }

  -- An invite is refused and the registry stays as it is, or its id was free and its entry comes last.
  pub issue-cases :
      (r : Registry) (id display_name drawn : String) (now : Instant) (lifetime_seconds : ℕ)
      → ((cause : Option String) × (issue r id display_name now lifetime_seconds drawn
            ≡ (r, err cause)))
        ⊎ ((name : String) × (entry r id ≡ none)
            × (issue r id display_name now lifetime_seconds drawn ≡ (
              enrolled r
                  (pending_entry id name now lifetime_seconds (generate enrollment_code drawn)),
              ok (generate enrollment_code drawn, now + duration_seconds lifetime_seconds),
            )))
  unfolding issue
  issue-cases r id display_name drawn now lifetime_seconds = elim (Result-cases (validate_id id)) [
    | inr (cause, bad) ↦ inl (some cause, rw (bad, issue) refl)
    | inl (valid, good) ↦ elim (Result-cases (validate_display_name display_name)) [
      | inr (cause, bad) ↦ inl (some cause, rw (good, issue) (rw (bad, issue) refl))
      | inl (name, fine) ↦ elim (Option-cases (entry r id)) [
        | inr (e, at) ↦ inl (none, rw (good, issue) (rw (fine, issue) (rw (at, issue) refl)))
        | inl free ↦ inr (name, free, rw (good, issue) (rw (fine, issue) (rw (free, issue) refl)))
      ]
    ]
  ]

  find-last :
      (p : RegistryEntry → Bool) (l : List RegistryEntry) (e : RegistryEntry)
      → find p l ≡ none
      → p e ≡ true
      → find p (l ++ (e ∷ [])) ≡ some e
  find-last p [] e gone hit = ground arith
  find-last p (a ∷ l) e gone hit = ground (arith, find-last p l e)

  find_changed_last :
      (p q : RegistryEntry → Bool) (f : RegistryEntry → RegistryEntry) (l : List RegistryEntry)
      (e : RegistryEntry)
      → find p l ≡ none
      → p e ≡ true
      → find q l ≡ none
      → q (f e) ≡ true
      → find q (change_first p f (l ++ (e ∷ []))) ≡ some (f e)
  find_changed_last p q f [] e gone hit unseen seen = ground arith
  find_changed_last p q f (a ∷ l) e gone hit unseen seen =
      ground (arith, find_changed_last p q f l e)

  entry-enrolled :
      (r : Registry) (e : RegistryEntry) → entry r e.id ≡ none → entry (enrolled r e) e.id ≡ some e
  unfolding entry
  entry-enrolled r e free = find-last _ r.clients e free (==_refl e.id)

  fresh_refusal :
      (id name code : String) (now later : Instant) (lifetime_seconds : ℕ)
      → later ≤ now + duration_seconds lifetime_seconds
      → refusal (pending_entry id name now lifetime_seconds code) code later ≡ none
  unfolding refusal pending_entry
  fresh_refusal id name code now later lifetime_seconds soon =
      rw (matches_itself enrollment_code code) (ground arith)

  accepted_claim :
      (r : Registry) (id code drawn : String) (now : Instant) (e : RegistryEntry)
      → entry r id ≡ some e
      → refusal e code now ≡ none
      → claim r id code now drawn ≡ (
        change_entry id (activated now (generate client_secret drawn)) r,
        ok (activated now (generate client_secret drawn) e, generate client_secret drawn),
      )
  unfolding claim
  accepted_claim r id code drawn now e at fine = rw (at, claim) (rw (fine, claim) refl)

  authenticates : String → RegistryEntry → Bool
  authenticates secret e =
      is_active e.state && is_some_and e.verifier (λ v. matches v client_secret secret)

  activated-authenticates :
      (now : Instant) (secret : String) (e : RegistryEntry)
      → authenticates secret (activated now secret e) ≡ true
  unfolding activated authenticates
  activated-authenticates now secret e = matches_itself client_secret secret

  unseen_before :
      (r : Registry) (secret : String)
      → client_by_secret r secret ≡ none
      → find (authenticates secret) r.clients ≡ none
  unfolding client_by_secret authenticates
  unseen_before r secret e = elim (Option-cases (find (authenticates secret) r.clients)) [
    | inl none_there ↦ none_there
    | inr (found, at) ↦ cc
  ]

  last_authenticates :
      (r : Registry) (e : RegistryEntry) (now : Instant) (secret : String)
      → entry r e.id ≡ none
      → client_by_secret r secret ≡ none
      → client_by_secret (change_entry e.id (activated now secret) (enrolled r e)) secret
        ≡ some e.id
  unfolding client_by_secret change_entry entry authenticates activated
  last_authenticates r e now secret free unseen =
      rw
        (find_changed_last (λ a. a.id == e.id) (authenticates secret) (activated now secret)
          r.clients e free (==_refl e.id) (unseen_before r secret unseen)
          (activated-authenticates now secret e))
        refl

  claimed_fresh :
      (r : Registry) (id name code drawn_secret : String) (now later : Instant)
      (lifetime_seconds : ℕ)
      → entry r id ≡ none
      → later ≤ now + duration_seconds lifetime_seconds
      → client_by_secret r (generate client_secret drawn_secret) ≡ none
      → (e : RegistryEntry) × ((claim
            (enrolled r (pending_entry id name now lifetime_seconds code))
            id
            code
            later
            drawn_secret).1
          ≡ ok (e, generate client_secret drawn_secret))
        × (client_by_secret
              (claim
                (enrolled r (pending_entry id name now lifetime_seconds code))
                id
                code
                later
                drawn_secret).0
              (generate client_secret drawn_secret)
            ≡ some id)
  unfolding pending_entry
  claimed_fresh r id name code drawn_secret now later lifetime_seconds free soon unseen =
      let secret = generate client_secret drawn_secret in
      let first = pending_entry id name now lifetime_seconds code in
      let claimed =
        accepted_claim (enrolled r first) id code drawn_secret later first
          (entry-enrolled r first free)
          (fresh_refusal id name code now later lifetime_seconds soon) in
      (
        activated later secret first,
        rw claimed refl,
        rw claimed (last_authenticates r first later secret free unseen),
      )

  -- Whoever claims an invite by its code, in the registry that the invite leaves and no later than
  -- it expires, gets a secret by which the registry that the claim leaves knows the client; where
  -- the secret drawn was nobody's before the invite.
  pub issue-claim :
      (r : Registry) (id display_name drawn drawn_secret : String) (now until later : Instant)
      (lifetime_seconds : ℕ) (code : String)
      → (issue r id display_name now lifetime_seconds drawn).1 ≡ ok (code, until)
      → later ≤ until
      → client_by_secret r (generate client_secret drawn_secret) ≡ none
      → (e : RegistryEntry) × ((claim
            (issue r id display_name now lifetime_seconds drawn).0
            id
            code
            later
            drawn_secret).1
          ≡ ok (e, generate client_secret drawn_secret))
        × (client_by_secret
              (claim
                (issue r id display_name now lifetime_seconds drawn).0
                id
                code
                later
                drawn_secret).0
              (generate client_secret drawn_secret)
            ≡ some id)
  issue-claim r id display_name drawn drawn_secret now until later lifetime_seconds code e soon
        unseen =
      elim (issue-cases r id display_name drawn now lifetime_seconds) [
        | inl (cause, bad) ↦ cc
        | inr (name, free, issued) ↦
            let same : (generate enrollment_code drawn, now + duration_seconds lifetime_seconds)
                ≡ (code, until) =
              ok_injective (
                sym (
                  ap (λ (p : Registry × Result {0, 0} (String × Instant) (Option String)). p.1)
                    issued)
                ∙ e) in
            rw (issued, sym (ap (λ (p : String × Instant). p.0) same))
              (claimed_fresh r id name (generate enrollment_code drawn) drawn_secret now later
                lifetime_seconds free
                (subst (λ t. later ≤ t) (sym (ap (λ (p : String × Instant). p.1) same)) soon)
                unseen)
      ]
