-- ===== src/Pool/Publishing.antt =====
-- What reaches an account from the outside, in src/pool/mod.rs: the refreshed token family, which is
-- published only over the family that was sent, the quota that headers and usage report, and the
-- counts of traffic. What the provider's code reads in the headers is an argument.
use jaynshare.Prelude.{
  ℕ, String, ◌+◌, ◌%◌, ◌^◌, ◌≡◌, refl, Bool, true, false, not, List, [], ◌∷◌, ◌++◌, Option, none,
  some, Result, ok, err, ◌==◌, nat_eq, string_eq, option_eq, if◌then◌else◌, any, find, is_empty,
  map_some, arith, ◌||◌, Bool-cases, ==_refl, inl, inr, eq_of_==, ap, ok_or, ◌>>=◌, >>=-ok,
  ok_injective, sym, ◌∙◌, subst, ◌⊎◌, Result-cases,
}
use jaynshare.Time.{Instant}
use jaynshare.External.{External, Uuid}
use jaynshare.HashMap
use jaynshare.Quota.{Kind, Observation, Source, family_fable, apply}
use jaynshare.Account.{Account, OAuthCredential, Credential, kind}
use jaynshare.Pool.{Pool, Usage, get}
use jaynshare.Pool.Bookkeeping.{change_account}

pub data Stale : Type 0 where
  account_removed family_replaced : Stale

-- `Kind`, compared by `!=`.
abbrev pub is_oauth : Kind → Bool
is_oauth Kind.oauth = true
is_oauth Kind.api_key = false

-- `Usage::default`
abbrev pub no_usage : Usage
no_usage = record { input_tokens = 0; output_tokens = 0; requests = 0 }

module _ ⦃x : External⦄ where
  unfoldable pub mark_errored : Pool → Uuid → String → Instant → Pool
  mark_errored p handle reason now = record p {
    accounts =
        change_account handle
          (λ (a : Account). record a { errored = some (record { reason = reason; at = now }) })
          p.accounts;
  }

  -- The account's family, if it is still the one that was sent.
  unfoldable pub unchanged_family : Option String → Credential → Result {0, 0} OAuthCredential Stale
  unchanged_family sent (Credential.api_key key) = err family_replaced
  unchanged_family sent (Credential.oauth family) =
      if family.refresh_token == sent then ok family else err family_replaced

  -- The family that a refresh may still change, read.
  unfoldable pub family_if_unchanged :
      Pool → Uuid → Option String → Result {0, 0} OAuthCredential Stale
  family_if_unchanged p handle sent =
      ok_or (get p handle) account_removed >>= λ a. unchanged_family sent a.credential

  -- A write through the reference that `family_if_unchanged` returns.
  unfoldable pub change_family :
      Pool
      → Uuid
      → Option String
      → (OAuthCredential → OAuthCredential)
      → Pool × Result {0, 0} Unit Stale
  change_family p handle sent f = elim (family_if_unchanged p handle sent) [
    | err stale ↦ (p, err stale)
    | ok family ↦ (
      record p {
        accounts =
            change_account handle
              (λ (a : Account). record a { credential = Credential.oauth (f family) }) p.accounts;
      },
      ok tt,
    )
  ]

  unfoldable pub replace_family :
      Pool → Uuid → Option String → OAuthCredential → Pool × Result {0, 0} Unit Stale
  replace_family p handle sent family = change_family p handle sent (λ _. family)

  unfoldable pub note_refresh_attempt :
      Pool → Uuid → Option String → Instant → Pool × Result {0, 0} Unit Stale
  note_refresh_attempt p handle sent now =
      change_family p handle sent (λ c. record c { last_refresh_attempt_at = some now })

  unfoldable pub set_refresh_not_before :
      Pool → Uuid → Option String → Instant → Pool × Result {0, 0} Unit Stale
  set_refresh_not_before p handle sent until =
      change_family p handle sent (λ c. record c { refresh_not_before = some until })

  unfoldable pub mark_refresh_errored :
      Pool → Uuid → Option String → String → Instant → Pool × Result {0, 0} Unit Stale
  mark_refresh_errored p handle sent reason now =
      let noted = note_refresh_attempt p handle sent now in
      elim noted.1 [ err stale ↦ noted | ok done ↦ (mark_errored noted.0 handle reason now, ok tt) ]

  -- Whether the header names the family is the provider code's to say.
  unfoldable pub learn_family : Pool → Option String → Bool → Pool
  learn_family p none fable = p
  learn_family p (some model) fable = if not fable then p else record p {
    families =
        HashMap.update p.families family_fable []
          (λ models. if any (λ m. m == model) models then models else models ++ (model ∷ []));
  }

  -- The pool, and whether quota changed.
  unfoldable pub observe_response_headers :
      Pool → Uuid → Option String → Bool → List Observation → Instant → Pool × Bool
  observe_response_headers p handle model fable observations now =
      let taught = learn_family p model fable in
      elim (get taught handle) [
        | none ↦ (taught, false)
        | some a ↦ if is_empty observations then (taught, false) else (
          record taught {
            accounts =
                change_account handle
                  (λ (b : Account). record b {
                    quota = apply b.quota observations Source.response_headers now;
                  })
                  taught.accounts;
          },
          true,
        )
      ]

  unfoldable pub observe_usage : Pool → Uuid → List Observation → Instant → Pool × Bool
  observe_usage p handle observations now = elim (get p handle) [
    | none ↦ (p, false)
    | some a ↦ if not (is_oauth (kind a)) || is_empty observations then (p, false) else (
      record p {
        accounts =
            change_account handle
              (λ (b : Account). record b { quota = apply b.quota observations Source.usage now })
              p.accounts;
      },
      true,
    )
  ]

  unfoldable pub add_usage : Pool → Uuid → ℕ → ℕ → Pool
  add_usage p handle input_tokens output_tokens = record p {
    usage = HashMap.update p.usage handle no_usage (λ u. record u {
      input_tokens = (u.input_tokens + input_tokens) % 2 ^ 64;
      output_tokens = (u.output_tokens + output_tokens) % 2 ^ 64;
    });
  }

  unfoldable pub count_request : Pool → Uuid → Pool
  count_request p handle = record p {
    usage =
        HashMap.update p.usage handle no_usage
          (λ u. record u { requests = (u.requests + 1) % 2 ^ 64 });
  }

  -- What a lookup sees after a change of one account, where the change keeps the handle.
  pub get-change_account :
      (handle other : Uuid) (f : Account → Account) (l : List Account)
      → ((a : Account) → (f a).handle ≡ a.handle)
      → find (λ (a : Account). a.handle == other) (change_account handle f l) ≡ (
          if handle == other
          then map_some f (find (λ (a : Account). a.handle == other) l)
          else find (λ (a : Account). a.handle == other) l)
  unfolding change_account
  get-change_account handle other f [] keeps = ground arith
  get-change_account handle other f (a ∷ l) keeps = ground (
    arith,
    keeps a,
    nat_eq.same_iff a.handle handle,
    nat_eq.same_iff a.handle other,
    nat_eq.same_iff handle other,
    nat_eq.same_iff (f a).handle other,
    get-change_account handle other f l keeps,
  )

  unchanged_family-ok :
      (sent : Option String) (c : Credential) (family : OAuthCredential)
      → unchanged_family sent c ≡ ok family
      → (c ≡ Credential.oauth family) × (family.refresh_token ≡ sent)
  unfolding unchanged_family
  unchanged_family-ok sent (Credential.api_key key) family e = cc
  unchanged_family-ok sent (Credential.oauth held) family e =
      elim (Bool-cases (held.refresh_token == sent)) [
        | inl same ↦
            let found = ok_injective (sym (rw (same, unchanged_family) refl) ∙ e) in
            (
              ap Credential.oauth found,
              subst (λ c. c.refresh_token ≡ sent) found (eq_of_== held.refresh_token sent same),
            )
        | inr other ↦ ground arith
      ]

  -- The account has the family, and its refresh token is the one that was sent.
  abbrev pub Holds : Pool → Uuid → Option String → Account → OAuthCredential → Type 0
  Holds p handle sent a family =
      (get p handle ≡ some a)
      × (a.credential ≡ Credential.oauth family)
      × (family.refresh_token ≡ sent)

  ok_or-ok :
      (o : Option Account) (s : Stale) (a : Account)
      → ◌≡◌ {A = Result {0, 0} Account Stale} (ok_or o s) (ok a)
      → o ≡ some a
  ok_or-ok none s a e = cc
  ok_or-ok (some b) s a e = ap some (ok_injective e)

  pub family_if_unchanged-Holds :
      (p : Pool) (handle : Uuid) (sent : Option String) (family : OAuthCredential)
      → family_if_unchanged p handle sent ≡ ok family
      → (a : Account) × Holds p handle sent a family
  unfolding family_if_unchanged
  family_if_unchanged-Holds p handle sent family e =
      let (a, held, found) =
        >>=-ok (ok_or (get p handle) account_removed) (λ a. unchanged_family sent a.credential) e in
      let (credential, token) = unchanged_family-ok sent a.credential family held in
      (a, (ok_or-ok (get p handle) account_removed a found, credential, token))

  pub Holds-family_if_unchanged :
      (p : Pool) (handle : Uuid) (sent : Option String) (a : Account) (family : OAuthCredential)
      → Holds p handle sent a family
      → family_if_unchanged p handle sent ≡ ok family
  unfolding family_if_unchanged unchanged_family
  Holds-family_if_unchanged p handle sent a family (at, credential, token) =
      rw (at, family_if_unchanged)
        (rw (credential, unchanged_family) (rw (token, ==_refl sent) refl))

  pub get-change_family :
      (p : Pool) (handle other : Uuid) (sent : Option String) (family : OAuthCredential)
      (f : OAuthCredential → OAuthCredential)
      → family_if_unchanged p handle sent ≡ ok family
      → ((change_family p handle sent f).1 ≡ ok tt)
        × (get (change_family p handle sent f).0 other ≡ (
            if handle == other
            then map_some
                (λ (a : Account). record a { credential = Credential.oauth (f family) })
                (get p other)
            else get p other))
  unfolding change_family get
  get-change_family p handle other sent family f e =
      rw (e, change_family) (refl, get-change_account handle other _ p.accounts (λ a. refl))

  -- A refreshed family lands only on the account whose family still has the refresh token that was
  -- sent, and then it is that account's family and every other account is as before; otherwise the
  -- refusal leaves the pool as it is.
  pub replace_family-Holds :
      (p : Pool) (handle other : Uuid) (sent : Option String) (fresh : OAuthCredential)
      → (((a : Account) × (family : OAuthCredential) × Holds p handle sent a family)
          × (((replace_family p handle sent fresh).1 ≡ ok tt)
              × (get (replace_family p handle sent fresh).0 other ≡ (
                  if handle == other
                  then map_some
                      (λ (a : Account). record a { credential = Credential.oauth fresh })
                      (get p other)
                  else get p other))))
        ⊎ ((stale : Stale) × (replace_family p handle sent fresh ≡ (p, err stale)))
  unfolding replace_family change_family
  replace_family-Holds p handle other sent fresh =
      elim (Result-cases (family_if_unchanged p handle sent)) [
        | inl (family, e) ↦
            let (a, held) = family_if_unchanged-Holds p handle sent family e in
            inl ((a, family, held), (get-change_family p handle other sent family (λ _. fresh) e))
        | inr (stale, e) ↦ inr (stale, rw (e, change_family) refl)
      ]
