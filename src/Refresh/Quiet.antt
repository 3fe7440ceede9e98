-- ===== src/Refresh/Quiet.antt =====
-- The floors that a landing in src/pool/refresh.rs leaves behind, met by the next attempt.
use jaynshare.Prelude.{
  ℕ, String, ◌≡◌, ◌≢◌, ◌≤◌, ◌<◌, ◌+◌, refl, ◌∙◌, sym, true, false, Option, none, some, Result, ok,
  err, Bool, Option-cases, inl, inr, arith, ==_refl, nat_eq,
}
use jaynshare.Time.{Instant, seconds}
use jaynshare.External.{External, Uuid}
use jaynshare.Account.{
  Account, OAuthCredential, Credential, replaced_by, in_success_floor, in_transient_floor,
}
use jaynshare.Pool.{Pool, get}
use jaynshare.Pool.Publishing.{
  Holds, change_family, replace_family, note_refresh_attempt, set_refresh_not_before,
  get-change_family, Holds-family_if_unchanged,
}
use jaynshare.Refresh.{
  transient, Trigger, forced, Outcome, ready, mutate_pool, publish_family, publish_transient,
  note_transient, land, start, without_refresh, needs_refresh,
}
use jaynshare.Refresh.Deciding.{without_refresh-IsDue}

apart_floor :
    (c d : OAuthCredential) (now : Instant)
    → Credential.oauth c ≡ Credential.oauth d
    → in_transient_floor c now ≡ true
    → in_transient_floor d now ≡ false
    → ⊥
apart_floor c d now same e f = cc

err_ok :
    {outcome : Outcome} {family : OAuthCredential}
    → ◌≡◌ {A = Result {0, 0} OAuthCredential Outcome} (err outcome) (ok family)
    → ⊥
err_ok e = cc

module _ ⦃x : External⦄ where
  -- The family that the account ends up with where nothing else changed.
  abbrev with_family : Account → OAuthCredential → Account
  with_family a family = record a { credential = Credential.oauth family }

  changed_at :
      (p : Pool) (handle : Uuid) (sent : Option String) (a : Account) (held : OAuthCredential)
      (f : OAuthCredential → OAuthCredential)
      → Holds p handle sent a held
      → ((change_family p handle sent f).1 ≡ ok tt)
        × (get (change_family p handle sent f).0 handle ≡ some (with_family a (f held)))
  changed_at p handle sent a held f holds =
      let (done, at) =
        get-change_family p handle handle sent held f
          (Holds-family_if_unchanged p handle sent a held holds) in
      (done, at ∙ rw (==_refl handle) (rw holds.0 refl))

  landed_fresh :
      (live : Pool) (handle : Uuid) (a : Account) (old held fresh : OAuthCredential) (now : Instant)
      → Holds live handle old.refresh_token a held
      → get (land live true handle old (ok fresh) now).0 handle
        ≡ some (with_family a (replaced_by old fresh now))
  unfolding land publish_family mutate_pool replace_family
  landed_fresh live handle a old held fresh now holds =
      let (done, at) =
        changed_at live handle old.refresh_token a held (λ _. replaced_by old fresh now) holds in
      rw (done, mutate_pool) at

  floor_of_fresh :
      (a : Account) (old fresh : OAuthCredential) (margin_seconds : ℕ) (now later : Instant)
      → a.errored ≡ none
      → now ≤ later
      → later < now + seconds 10
      → without_refresh
          (some (with_family a (replaced_by old fresh now)))
          forced
          margin_seconds
          later
        ≡ some ready
  unfolding without_refresh needs_refresh replaced_by in_success_floor
  floor_of_fresh a old fresh margin_seconds now later e low high = rw e (ground arith)

  -- Once a fresh family is written, a request whose token the upstream rejects within ten seconds
  -- finds the account ready, and no further call of the token endpoint is made for it.
  pub land-start_forced :
      (live : Pool) (written : Bool) (handle : Uuid) (a : Account)
      (old held fresh : OAuthCredential) (margin_seconds : ℕ) (now later : Instant)
      → Holds live handle old.refresh_token a held
      → a.errored ≡ none
      → now ≤ later
      → later < now + seconds 10
      → start
          (land live true handle old (ok fresh) now).0
          written
          handle
          forced
          margin_seconds
          later
        ≡ ((land live true handle old (ok fresh) now).0, err ready)
  unfolding start
  land-start_forced live written handle a old held fresh margin_seconds now later holds e low high =
      rw (landed_fresh live handle a old held fresh now holds, start)
        (rw (floor_of_fresh a old fresh margin_seconds now later e low high, start) refl)

  -- The two writes of the last transient failure.
  abbrev pub paused : OAuthCredential → Instant → OAuthCredential
  paused held now = record held {
    last_refresh_attempt_at = some now;
    refresh_not_before = some (now + seconds 30);
  }

  noted_transient :
      (live : Pool) (handle : Uuid) (sent : Option String) (a : Account) (held : OAuthCredential)
      (now : Instant)
      → Holds live handle sent a held
      → ((note_transient handle sent now live).1 ≡ ok tt)
        × (get (note_transient handle sent now live).0 handle
            ≡ some (with_family a (paused held now)))
  unfolding note_transient note_refresh_attempt set_refresh_not_before
  noted_transient live handle sent a held now holds =
      let attempted : OAuthCredential → OAuthCredential =
        λ c. record c { last_refresh_attempt_at = some now } in
      let held_back : OAuthCredential → OAuthCredential =
        λ c. record c { refresh_not_before = some (now + seconds 30) } in
      let (done, at) = changed_at live handle sent a held attempted holds in
      rw (done, note_transient)
        (changed_at (change_family live handle sent attempted).0 handle sent
          (with_family a (attempted held)) (attempted held) held_back (at, refl, holds.2))

  landed_transient :
      (live : Pool) (handle : Uuid) (a : Account) (old held : OAuthCredential) (cause : String)
      (now : Instant)
      → Holds live handle old.refresh_token a held
      → get (land live true handle old (err (transient cause)) now).0 handle
        ≡ some (with_family a (paused held now))
  unfolding land publish_transient mutate_pool
  landed_transient live handle a old held cause now holds =
      let (done, at) = noted_transient live handle old.refresh_token a held now holds in
      rw (done, mutate_pool) at

  in_floor :
      (held : OAuthCredential) (now later : Instant)
      → later < now + seconds 30
      → in_transient_floor (paused held now) later ≡ true
  unfolding in_transient_floor
  in_floor held now later high = ground arith

  floor_of_paused :
      (a : Account) (held : OAuthCredential) (trigger : Trigger) (margin_seconds : ℕ)
      (now later : Instant)
      → later < now + seconds 30
      → (outcome : Outcome) × (without_refresh
            (some (with_family a (paused held now)))
            trigger
            margin_seconds
            later
          ≡ some outcome)
  floor_of_paused a held trigger margin_seconds now later high =
      elim (Option-cases
        (without_refresh (some (with_family a (paused held now))) trigger margin_seconds later)) [
          | inl due ↦
              let (family, (fine, on, same, needed, out)) =
                (without_refresh-IsDue (with_family a (paused held now)) trigger margin_seconds
                    later).0
                  due in
              elim (apart_floor (paused held now) family later same (in_floor held now later high)
                out) [ ]
          | inr done ↦ done
        ]

  started_err :
      (p : Pool) (handle : Uuid) (written : Bool) (trigger : Trigger) (margin_seconds : ℕ)
      (now : Instant) (a : Account) (outcome : Outcome)
      → get p handle ≡ some a
      → without_refresh (some a) trigger margin_seconds now ≡ some outcome
      → (start p written handle trigger margin_seconds now).1 ≡ err outcome
  unfolding start
  started_err p handle written trigger margin_seconds now a outcome at decided =
      rw (at, start) (rw (decided, start) refl)

  -- In the pool as a written transient failure leaves it, where the account still held the family
  -- that the failure was for, no attempt on the account, whatever its trigger, calls the token
  -- endpoint until thirty seconds after the failure.
  pub land-start_paused :
      (live : Pool) (written : Bool) (handle : Uuid) (a : Account)
      (old held family : OAuthCredential) (cause : String) (trigger : Trigger) (margin_seconds : ℕ)
      (now later : Instant)
      → Holds live handle old.refresh_token a held
      → later < now + seconds 30
      → (start
          (land live true handle old (err (transient cause)) now).0
          written
          handle
          trigger
          margin_seconds
          later).1
        ≢ ok family
  land-start_paused live written handle a old held family cause trigger margin_seconds now later
        holds high calls =
      let (outcome, decided) = floor_of_paused a held trigger margin_seconds now later high in
      err_ok (
        sym (
          started_err _ handle written trigger margin_seconds later _ outcome
            (landed_transient live handle a old held cause now holds) decided)
        ∙ calls)
