-- ===== src/Pool/Predicting.antt =====
-- `predict` of src/pool/mod.rs: an answer over a pool that is brought up to date first.
use jaynshare.Prelude.{
  ◌≡◌, inl, inr, ok, In, In-filter, is_empty, false, Bool-cases, List, arith, ◌==◌, eq_of_==, map,
  subst, sym, All, [], ◌∷◌,
}
use jaynshare.Time.{Instant}
use jaynshare.External.{External}
use jaynshare.Account.{Account, provider_eq}
use jaynshare.Quota.{expire}
use jaynshare.Quota.Expiry.{IsCurrent, expire-IsCurrent}
use jaynshare.Selection.{RequestFacts, Choice}
use jaynshare.Selection.Bars.{SelectionSettings}
use jaynshare.Selection.Pass.{select}
use jaynshare.Selection.Answers.{select-ServedBy}
use jaynshare.Pool.{Pool, predict, refreshed, snapshot, accounts_of, expire_quota}

module _ ⦃x : External⦄ where
  -- The account is of the request's provider, its quota holds nothing that ran out, and it has the
  -- chosen handle.
  abbrev pub Fresh : Pool → RequestFacts → Instant → Choice → Account → Type 0
  Fresh p facts now c a =
      In a (refreshed p now).accounts
      × (a.provider ≡ facts.provider)
      × All (IsCurrent now) a.quota
      × (a.handle ≡ c.handle)

  expired-IsCurrent :
      (accounts : List Account) (now : Instant) (a : Account)
      → In a (map (λ (b : Account). record b { quota = (expire b.quota now).0 }) accounts)
      → All (IsCurrent now) a.quota
  expired-IsCurrent [] now a m = elim m [ ]
  expired-IsCurrent (b ∷ accounts) now a (inl e) =
      subst (λ (y : Account). All (IsCurrent now) y.quota) (sym e) (expire-IsCurrent b.quota now)
  expired-IsCurrent (b ∷ accounts) now a (inr m) = expired-IsCurrent accounts now a m

  offered-Fresh :
      (p : Pool) (facts : RequestFacts) (now : Instant) (c : Choice) (a : Account)
      → In a (accounts_of (refreshed p now) facts.provider)
      → a.handle ≡ c.handle
      → Fresh p facts now c a
  unfolding accounts_of refreshed expire_quota
  offered-Fresh p facts now c a m same =
      let (listed, provided) =
        In-filter (λ (b : Account). b.provider == facts.provider) (refreshed p now).accounts a m in
      (
        listed,
        eq_of_== a.provider facts.provider provided,
        expired-IsCurrent p.accounts now a listed,
        same,
      )

  select_none_empty :
      (facts : RequestFacts) (p : Pool) (settings : SelectionSettings) (now : Instant) (c : Choice)
      → select facts (snapshot p facts.provider now) settings ≡ ok c
      → is_empty (accounts_of p facts.provider) ≡ false
  unfolding select snapshot accounts_of
  select_none_empty facts p settings now c e =
      elim (Bool-cases (is_empty (accounts_of p facts.provider))) [
        | inl gone ↦ ground arith
        | inr some_account ↦ some_account
      ]

  -- The account that `predict` answers with is one of the pool after the expiry, of the request's
  -- provider, and its quota holds no reset, and no hold without a reset, that is not after now.
  pub predict-Fresh :
      (p : Pool) (facts : RequestFacts) (settings : SelectionSettings) (now : Instant) (c : Choice)
      → (predict p facts settings now).1 ≡ ok c
      → (a : Account) × Fresh p facts now c a
  unfolding predict snapshot
  predict-Fresh p facts settings now c e =
      let ready = refreshed p now in
      elim (select-ServedBy facts (snapshot ready facts.provider now) settings c
        (select_none_empty facts ready settings now c e) e) [
          | inl (a, m, same, _) ↦ (a, offered-Fresh p facts now c a m same)
          | inr (_, (a, m, same, _)) ↦ (a, offered-Fresh p facts now c a m same)
        ]
