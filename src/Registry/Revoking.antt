-- ===== src/Registry/Revoking.antt =====
-- Who is locked out, and by which operation of src/registry.rs.
use jaynshare.Prelude.{
  String, ℕ, ◌≡◌, ◌≢◌, refl, sym, ◌∙◌, ap, subst, inl, inr, Bool, true, false, some, Result, ok,
  err, Option, Option-cases, arith, is_some_and, In, find, find_sound, ◌&&◌, ◌==◌, string_eq,
}
use mathlib.Core.Option.{some-injective}
use jaynshare.Time.{Instant}
use jaynshare.Secret.{Hashing, client_secret, enrollment_code, matches, generate}
use jaynshare.Registry.{
  Registry, RegistryEntry, ReissueError, wrong_code, Unicode, entry, claim, revoke, reissue,
  reissued, retired, change_entry, is_active, is_revoked, is_pending, client_by_secret,
}
use jaynshare.Registry.Entries.{ids, Unique, In-Unique, entry-change_entry}
use jaynshare.Registry.Refusing.{revoke-cases, reissue-cases}
use jaynshare.Registry.Keeping.{
  Keeps, Since, Since-Keeps, Since-Reach, gone, gone-IsStable, not_pending, claim-not_pending, has,
}
use jaynshare.Registry.History.{Reach, Step, Reach-Sound, reissued-id}

and_left : (a b : Bool) → (a && b) ≡ true → a ≡ true
and_left true b e = refl
and_left false b e = e

not_active : (e : RegistryEntry) → is_revoked e.state ≡ true → is_active e.state ≡ false
not_active e gone = ground arith

pending_not_active : (e : RegistryEntry) → is_pending e.state ≡ true → is_active e.state ≡ false
pending_not_active e waits = ground arith

module _ ⦃h : Hashing⦄ ⦃u : Unicode⦄ where
  known_client :
      (r : Registry) (secret id : String)
      → client_by_secret r secret ≡ some id
      → (e : RegistryEntry) × In e r.clients × (is_active e.state ≡ true) × (e.id ≡ id)
  unfolding client_by_secret
  known_client r secret id e =
      let knows : RegistryEntry → Bool =
        λ a. is_active a.state && is_some_and a.verifier (λ v. matches v client_secret secret) in
      elim (Option-cases (find knows r.clients)) [
        | inl none_there ↦ cc
        | inr (found, at) ↦
            let (m, on) = find_sound knows r.clients found at in
            (
              found,
              m,
              and_left (is_active found.state) _ on,
              some-injective found.id id (sym (rw at refl) ∙ e),
            )
      ]

  -- An id whose entry is not active is nobody's.
  inactive :
      (r : Registry) (secret id : String)
      → Unique (ids r.clients)
      → ((e : RegistryEntry) → entry r id ≡ some e → is_active e.state ≡ false)
      → client_by_secret r secret ≢ some id
  unfolding entry
  inactive r secret id u off known =
      let (e, m, on, same) = known_client r secret id known in
      let dead = off e (
        subst (λ i. find (λ (a : RegistryEntry). a.id == i) r.clients ≡ some e) same
          (In-Unique r.clients e u m)) in
      cc

  revoked_entry :
      (r : Registry) (id : String) (now : Instant) (e : RegistryEntry)
      → entry (revoke r id now).0 id ≡ some e
      → is_revoked e.state ≡ true
  revoked_entry r id now e found = elim (revoke-cases r id now) [
    | inl (gone, same) ↦ cc
    | inr (a, at, inl (already, same)) ↦
        subst (λ b. is_revoked b.state ≡ true)
          (some-injective a e (
            sym at
            ∙ sym (ap (λ (s : Registry × Result {0, 0} Unit Unit). entry s.0 id) same)
            ∙ found))
          already
    | inr (a, at, inr (not_yet, same)) ↦
        subst (λ b. is_revoked b.state ≡ true)
          (some-injective (retired now a) e (
            sym (
              ap (λ (s : Registry × Result {0, 0} Unit Unit). entry s.0 id) same
              ∙ entry-change_entry r id (retired now) (λ b. refl)
              ∙ rw at refl)
            ∙ found))
          refl
  ]

  reissued-pending :
      (now : Instant) (lifetime : ℕ) (code : String) (e : RegistryEntry)
      → is_pending (reissued now lifetime code e).state ≡ true
  unfolding reissued
  reissued-pending now lifetime code e = refl

  reissued_entry :
      (r : Registry) (id drawn : String) (now : Instant) (lifetime : ℕ) (e : RegistryEntry)
      → entry (reissue r id now lifetime drawn).0 id ≡ some e
      → is_pending e.state ≡ true
  reissued_entry r id drawn now lifetime e found = elim (reissue-cases r id drawn now lifetime) [
    | inl (gone, same) ↦ cc
    | inr (a, at, same) ↦
        subst (λ b. is_pending b.state ≡ true)
          (some-injective (reissued now lifetime (generate enrollment_code drawn) a) e (
            sym (
              ap (λ (s : Registry × Result {0, 0} (String × Instant) ReissueError). entry s.0 id)
                same
              ∙ entry-change_entry r id _ (reissued-id now lifetime _)
              ∙ rw at refl)
            ∙ found))
          (reissued-pending now lifetime _ a)
  ]

  revoke-Keeps :
      (r : Registry) (id : String) (now : Instant)
      → (revoke r id now).1 ≡ ok tt
      → Keeps gone id (revoke r id now).0
  unfolding entry
  revoke-Keeps r id now done = elim (revoke-cases r id now) [
    | inl (missing, same) ↦ elim (unfinished same done) [ ]
    | inr (a, at, inl (already, same)) ↦
        rw (ap (λ (p : Registry × Result {0, 0} Unit Unit). p.0) same)
          (ap (λ (o : Option RegistryEntry). is_some_and o gone) at ∙ already)
    | inr (a, at, inr (not_yet, same)) ↦
        let there : entry (change_entry id (retired now) r) id ≡ some (retired now a) =
          entry-change_entry r id (retired now) (λ b. refl) ∙ rw at refl in
        rw (ap (λ (p : Registry × Result {0, 0} Unit Unit). p.0) same)
          (ap (λ (o : Option RegistryEntry). is_some_and o gone) there)
  ]
    where
      unfinished : revoke r id now ≡ (r, err tt) → (revoke r id now).1 ≡ ok tt → ⊥
      unfinished same out =
          let bad : ◌≡◌ {A = Result {0, 0} Unit Unit} (err tt) (ok tt) =
            sym (ap (λ (p : Registry × Result {0, 0} Unit Unit). p.1) same) ∙ out in
          cc

  gone-not_pending : (s : Registry) (id : String) → Keeps gone id s → Keeps not_pending id s
  gone-not_pending s id k = elim (Option-cases (find (has id) s.clients)) [
    | inl missing ↦ ground (arith, missing)
    | inr (e, at) ↦ ground (arith, at)
  ]

  -- In every registry that the operations lead to after a revocation of an id, without a reissue of
  -- it, no secret is known as that client's, and every claim of the id is refused as a wrong code
  -- and changes nothing; and as a reissue leaves such a registry, no secret is known as that
  -- client's either.
  pub locked_out :
      (r s : Registry) (id secret guess drawn again : String) (now later : Instant) (lifetime : ℕ)
      → Reach r
      → (revoke r id now).1 ≡ ok tt
      → Since id (revoke r id now).0 s
      → (client_by_secret s secret ≢ some id)
        × (claim s id guess later again ≡ (s, err wrong_code))
        × (client_by_secret (reissue s id later lifetime drawn).0 secret ≢ some id)
  unfolding entry
  locked_out r s id secret guess drawn again now later lifetime reached done since =
      let there = Since-Reach since (Reach.next reached (Step.revokes r id now)) in
      let out = Since-Keeps id gone-IsStable since (revoke-Keeps r id now done) in
      (
        inactive s secret id (Reach-Sound _ there).0
            (λ e found. not_active e (sym (rw found refl) ∙ out)),
        claim-not_pending s id guess again later (gone-not_pending s id out),
        inactive (reissue s id later lifetime drawn).0 secret id
            (Reach-Sound _ (Reach.next there (Step.reissues s id drawn later lifetime))).0
            (λ e found. pending_not_active e (reissued_entry s id drawn later lifetime e found)),
      )
