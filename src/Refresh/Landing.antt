-- ===== src/Refresh/Landing.antt =====
-- What the end of `run` in src/pool/refresh.rs does to the live pool, which other operations may have
-- changed since the start.
use jaynshare.Prelude.{
  ℕ, String, ◌≡◌, ◌⊎◌, ◌≤◌, refl, ◌∙◌, inl, inr, Bool, true, false, Option, some, Result, ok, err,
  Result-cases, ◌==◌, nat_eq,
}
use jaynshare.Time.{Instant}
use jaynshare.External.{External, Uuid}
use jaynshare.Account.{Account, OAuthCredential, replaced_by}
use jaynshare.Pool.{Pool, get}
use jaynshare.Pool.Publishing.{
  Stale, Holds, family_if_unchanged, change_family, replace_family, note_refresh_attempt,
  set_refresh_not_before, mark_refresh_errored, mark_errored, family_if_unchanged-Holds,
  get-change_account, get-change_family,
}
use jaynshare.Refresh.{
  RefreshFailure, permanent, transient, Trigger, Outcome, ready, refused, mutate_pool,
  publish_family, persist_errored, note_transient, publish_transient, land, start, run,
  rejected_reason,
}
use jaynshare.Refresh.Retrying.{call_endpoint_breaks}

module _ ⦃x : External⦄ where
  not_held :
      (p : Pool) (handle : Uuid) (sent : Option String)
      → ((a : Account) (family : OAuthCredential) → ¬ Holds p handle sent a family)
      → (stale : Stale) × (family_if_unchanged p handle sent ≡ err stale)
  not_held p handle sent gone = elim (Result-cases (family_if_unchanged p handle sent)) [
    | inl (family, e) ↦
        let (a, held) = family_if_unchanged-Holds p handle sent family e in
        elim (gone a family held) [ ]
    | inr refusal ↦ refusal
  ]

  refused_change :
      (live : Pool) (written : Bool) (stale : Stale) (f : Pool → Pool × Result {0, 0} Unit Stale)
      → (f live).1 ≡ err stale
      → mutate_pool live written f ≡ (live, err (refused stale))
  unfolding mutate_pool
  refused_change live written stale f e = rw (e, mutate_pool) refl

  stale_change :
      (p : Pool) (handle : Uuid) (sent : Option String) (stale : Stale)
      (f : OAuthCredential → OAuthCredential)
      → family_if_unchanged p handle sent ≡ err stale
      → (change_family p handle sent f).1 ≡ err stale
  unfolding change_family
  stale_change p handle sent stale f e = rw (e, change_family) refl

  stale_mark :
      (p : Pool) (handle : Uuid) (sent : Option String) (stale : Stale) (reason : String)
      (now : Instant)
      → family_if_unchanged p handle sent ≡ err stale
      → (mark_refresh_errored p handle sent reason now).1 ≡ err stale
  unfolding mark_refresh_errored note_refresh_attempt
  stale_mark p handle sent stale reason now e =
      let noted =
        stale_change p handle sent stale (λ c. record c { last_refresh_attempt_at = some now }) e in
      rw (noted, mark_refresh_errored) noted

  stale_note :
      (p : Pool) (handle : Uuid) (sent : Option String) (stale : Stale) (now : Instant)
      → family_if_unchanged p handle sent ≡ err stale
      → (note_transient handle sent now p).1 ≡ err stale
  unfolding note_transient note_refresh_attempt
  stale_note p handle sent stale now e =
      let noted =
        stale_change p handle sent stale (λ c. record c { last_refresh_attempt_at = some now }) e in
      rw (noted, note_transient) noted

  -- A result whose family is no longer the account's leaves the live pool as it is, and the account
  -- ready: whether the account was removed, its credential replaced, or its tokens rotated since.
  pub land_stale :
      (live : Pool) (written : Bool) (handle : Uuid) (family : OAuthCredential)
      (result : Result {0, 0} OAuthCredential RefreshFailure) (now : Instant)
      → ((a : Account) (held : OAuthCredential) → ¬ Holds live handle family.refresh_token a held)
      → land live written handle family result now ≡ (live, ready)
  unfolding land publish_family persist_errored publish_transient replace_family
  land_stale live written handle family (ok fresh) now gone =
      let (stale, e) = not_held live handle family.refresh_token gone in
      let next = replaced_by family fresh now in
      rw
        (refused_change live written stale (λ p. replace_family p handle family.refresh_token next)
          (stale_change live handle family.refresh_token stale (λ _. next) e))
        refl
  land_stale live written handle family (err (permanent status code)) now gone =
      let (stale, e) = not_held live handle family.refresh_token gone in
      let reason = rejected_reason status code in
      rw
        (refused_change live written stale
          (λ p. mark_refresh_errored p handle family.refresh_token reason now)
          (stale_mark live handle family.refresh_token stale reason now e))
        refl
  land_stale live written handle family (err (transient cause)) now gone =
      let (stale, e) = not_held live handle family.refresh_token gone in
      rw
        (refused_change live written stale (note_transient handle family.refresh_token now)
          (stale_note live handle family.refresh_token stale now e))
        refl

  unwritten :
      {A E : Type 0} (live : Pool) (f : Pool → Pool × Result {0, 0} A E)
      → (mutate_pool live false f).0 ≡ live
  unfolding mutate_pool
  unwritten live f = elim (Result-cases (f live).1) [
    | inl (out, e) ↦ rw (e, mutate_pool) refl
    | inr (cause, e) ↦ rw (e, mutate_pool) refl
  ]

  -- The change leaves the account of the other handle as it is.
  abbrev Spares : Uuid → (Pool → Pool × Result {0, 0} Unit Stale) → Type 0
  Spares other f = (p : Pool) → get (f p).0 other ≡ get p other

  mutate_pool-get :
      (live : Pool) (written : Bool) (other : Uuid) (f : Pool → Pool × Result {0, 0} Unit Stale)
      → Spares other f
      → get (mutate_pool live written f).0 other ≡ get live other
  unfolding mutate_pool
  mutate_pool-get live true other f spares = elim (Result-cases (f live).1) [
    | inl (out, e) ↦ rw (e, mutate_pool) (spares live)
    | inr (cause, e) ↦ rw (e, mutate_pool) refl
  ]
  mutate_pool-get live false other f spares = rw (unwritten live f) refl

  change_family-Spares :
      (handle other : Uuid) (sent : Option String) (f : OAuthCredential → OAuthCredential)
      → (handle == other) ≡ false
      → Spares other (λ p. change_family p handle sent f)
  unfolding change_family
  change_family-Spares handle other sent f apart p =
      elim (Result-cases (family_if_unchanged p handle sent)) [
        | inl (family, e) ↦ (get-change_family p handle other sent family f e).1 ∙ rw apart refl
        | inr (stale, e) ↦ rw (e, change_family) refl
      ]

  mark_errored-get :
      (p : Pool) (handle other : Uuid) (reason : String) (now : Instant)
      → (handle == other) ≡ false
      → get (mark_errored p handle reason now) other ≡ get p other
  unfolding mark_errored get
  mark_errored-get p handle other reason now apart =
      get-change_account handle other _ p.accounts (λ a. refl) ∙ rw apart refl

  mark_refresh_errored-Spares :
      (handle other : Uuid) (sent : Option String) (reason : String) (now : Instant)
      → (handle == other) ≡ false
      → Spares other (λ p. mark_refresh_errored p handle sent reason now)
  unfolding mark_refresh_errored note_refresh_attempt
  mark_refresh_errored-Spares handle other sent reason now apart p =
      let noted = change_family-Spares handle other sent _ apart p in
      elim (Result-cases (note_refresh_attempt p handle sent now).1) [
        | inl (done, e) ↦
            rw (e, mark_refresh_errored) (mark_errored-get _ handle other reason now apart ∙ noted)
        | inr (stale, e) ↦ rw (e, mark_refresh_errored) noted
      ]

  note_transient-Spares :
      (handle other : Uuid) (sent : Option String) (now : Instant)
      → (handle == other) ≡ false
      → Spares other (note_transient handle sent now)
  unfolding note_transient note_refresh_attempt set_refresh_not_before
  note_transient-Spares handle other sent now apart p =
      let noted = change_family-Spares handle other sent _ apart p in
      elim (Result-cases (note_refresh_attempt p handle sent now).1) [
        | inl (done, e) ↦
            rw (e, note_transient) (change_family-Spares handle other sent _ apart _ ∙ noted)
        | inr (stale, e) ↦ rw (e, note_transient) noted
      ]

  -- Whatever the endpoint answered, a landing leaves every other account as it is, and the whole
  -- pool where the state file is not written.
  pub land_scope :
      (live : Pool) (written : Bool) (handle other : Uuid) (family : OAuthCredential)
      (result : Result {0, 0} OAuthCredential RefreshFailure) (now : Instant)
      → (handle == other) ≡ false
      → (get (land live written handle family result now).0 other ≡ get live other)
        × ((land live false handle family result now).0 ≡ live)
  unfolding land publish_family persist_errored publish_transient replace_family
  land_scope live written handle other family (ok fresh) now apart = (
    mutate_pool-get live written other _ (change_family-Spares handle other _ _ apart),
    unwritten live _,
  )
  land_scope live written handle other family (err (permanent status code)) now apart = (
    mutate_pool-get live written other _ (mark_refresh_errored-Spares handle other _ _ now apart),
    unwritten live _,
  )
  land_scope live written handle other family (err (transient cause)) now apart = (
    mutate_pool-get live written other _ (note_transient-Spares handle other _ now apart),
    unwritten live _,
  )

  -- A run always ends: with the outcome that needs no call, or with the landing of the answer to
  -- one of at most three calls.
  pub run_returns :
      (p later : Pool) (written : Bool) (handle : Uuid) (trigger : Trigger) (margin_seconds : ℕ)
      (now landing : Instant) (answer : ℕ → Result {0, 0} OAuthCredential RefreshFailure)
      → ((outcome : Outcome) × ((start p written handle trigger margin_seconds now).1 ≡ err outcome)
          × (run p later written handle trigger margin_seconds now landing answer
              ≡ some ((start p written handle trigger margin_seconds now).0, outcome)))
        ⊎ ((family : OAuthCredential) × (n : ℕ) × ((start p written handle trigger margin_seconds
                now).1
              ≡ ok family)
            × (n ≤ 3)
            × (run p later written handle trigger margin_seconds now landing answer
                ≡ some (land later written handle family (answer n) landing)))
  unfolding run
  run_returns p later written handle trigger margin_seconds now landing answer =
      elim (Result-cases (start p written handle trigger margin_seconds now).1) [
        | inl (family, e) ↦
            let (c, broke, few, slept, result, before, last) = call_endpoint_breaks answer in
            inr (family, c.call, e, few, rw (e, run) (rw broke (rw result refl)))
        | inr (outcome, e) ↦ inl (outcome, e, rw (e, run) refl)
      ]
