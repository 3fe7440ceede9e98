-- ===== src/Pool/Selecting/Moving.antt =====
-- What `Pool::select` of src/pool/mod.rs changes, and the defaults that the startup chooses.
use jaynshare.Prelude.{
  ◌≡◌, ◌⊎◌, ◌<◌, ◌+◌, refl, sym, ◌∙◌, ap, subst, inl, inr, Bool, true, false, List, [], ◌∷◌, Option,
  none, some, ok, Result-cases, Bool-cases, arith, ltb, is_some_and, is_none, is_some, ◌==◌, ◌&&◌,
  ◌||◌, eq_of_==, filter, filter_map, is_empty, In, In-filter, String,
}
use jaynshare.Time.{Instant, seconds}
use jaynshare.External.{External, Uuid}
use jaynshare.Account.{Account, Provider, provider_eq, anthropic, codex}
use jaynshare.Ramp.{RampSettings}
use jaynshare.Sessions.{SessionKey}
use jaynshare.Selection.{RequestFacts, default_facts, Choice, Nobody, Cause, by_ranking}
use jaynshare.Selection.Bars.{SelectionSettings}
use jaynshare.Selection.Pass
use jaynshare.Selection.Answers.{select-ServedBy}
use jaynshare.Pool.{
  Pool, accounts_of, default_account, predict, refreshed, expire_quota, get, family_for,
}
use jaynshare.Pool.Bookkeeping.{change_admission}
use jaynshare.Pool.Operating.{QuotaSettings, move_default, release_waiting_revalidation}
use jaynshare.Pool.Operations.Settled.{
  Settled, SettledAt, default_account-move_default, move_default-accounts, first_fits,
}
use jaynshare.Pool.Operations.Endings.{shape, shapes}
use jaynshare.Pool.Selecting.{
  select, follow_ranking, ramp_default, bind_choice, challenge, offer_revalidation, with_session,
  is_by_ranking, is_all_held, initial_choice, initial_default, choose_initial_default,
  startup_snapshot, revalidation_ready, least_ranked,
}

List-cases : {A : Type 0} (l : List A) → (l ≡ []) ⊎ ((a : A) × (r : List A) × (l ≡ a ∷ r))
List-cases [] = inl refl
List-cases (a ∷ r) = inr (a, r, refl)

and_first : (a b : Bool) → (a && b) ≡ true → a ≡ true
and_first true b e = refl
and_first false b e = e

module _ ⦃x : External⦄ where
  -- An offer changes nothing, or it closes the gate for the interval.
  offer-cases :
      (p : Pool) (nobody : Nobody) (model : Option String) (settings : QuotaSettings)
      (now : Instant)
      → (offer_revalidation p nobody model settings now ≡ (p, none))
        ⊎ ((handle : Uuid) × (offer_revalidation p nobody model settings now ≡ (
          record p {
            next_revalidation = some (now + seconds settings.revalidation_interval_seconds);
          },
          some handle,
        )))
  unfolding offer_revalidation
  offer-cases p nobody model settings now =
      let ready =
        filter (λ a. revalidation_ready p a settings now)
          (filter_map (get p) nobody.revalidation_pool) in
      elim (Bool-cases (is_some_and p.next_revalidation (λ t. ltb now t))) [
        | inl shut ↦ inl (rw (shut, offer_revalidation) refl)
        | inr open_gate ↦ elim (List-cases ready) [
          | inl nobody_ready ↦ inl (rw (open_gate, offer_revalidation) (rw nobody_ready refl))
          | inr (a, l, some_ready) ↦ inr (
            (least_ranked (family_for p model) a l).handle,
            rw (open_gate, offer_revalidation) (rw some_ready refl),
          )
        ]
      ]

  shut_gate :
      (p : Pool) (nobody : Nobody) (model : Option String) (other : Uuid) (settings : QuotaSettings)
      (now : Instant)
      → is_some_and p.next_revalidation (λ t. ltb now t) ≡ true
      → ((offer_revalidation p nobody model settings now).1 ≡ none)
        × ((release_waiting_revalidation p other settings now).1 ≡ false)
  unfolding offer_revalidation release_waiting_revalidation
  shut_gate p nobody model other settings now shut =
      (rw (shut, offer_revalidation) refl, rw (shut, release_waiting_revalidation) refl)

  challenge-default_account :
      (p : Pool) (facts : RequestFacts) (nobody : Nobody) (quota : QuotaSettings) (now : Instant)
      (other : Provider)
      → default_account (challenge p facts nobody quota now).0 other ≡ default_account p other
  unfolding challenge default_account
  challenge-default_account p facts nobody quota now other =
      elim (Bool-cases (is_all_held nobody.reason && is_none facts.pin && is_none facts.binding)) [
        | inl may ↦
            rw (may, challenge)
              (elim (offer-cases p nobody facts.model quota now) [
                | inl e ↦ rw (e, e) refl
                | inr (handle, e) ↦ rw (e, e) refl
              ])
        | inr hard ↦ rw (hard, challenge) refl
      ]

  ramp_default-default_account :
      (p : Pool) (handle : Uuid) (ramp : RampSettings) (now : Instant) (other : Provider)
      → default_account (ramp_default p handle ramp now) other ≡ default_account p other
  unfolding ramp_default change_admission default_account
  ramp_default-default_account p handle ramp now other = ground arith

  -- The default of the provider stays, or it is the choice of a ranking for that provider.
  abbrev pub Follows : Pool → Pool → Provider → Provider → Choice → Type 0
  Follows p q provider other c =
      (default_account q other ≡ default_account p other)
      ⊎ ((c.cause ≡ by_ranking) × (provider ≡ other) × (default_account q other ≡ some c.handle))

  by_ranking_only : (c : Cause) → is_by_ranking c ≡ true → c ≡ by_ranking
  by_ranking_only c e = ground arith

  follow_ranking-Follows :
      (p : Pool) (provider other : Provider) (c : Choice) (ramp : RampSettings) (now : Instant)
      → Follows p (follow_ranking p provider c ramp now) provider other c
  unfolding follow_ranking
  follow_ranking-Follows p provider other c ramp now =
      elim (Bool-cases (
        is_by_ranking c.cause
        && (is_none (default_account p provider) || is_some c.default_moved_from))) [
          | inr stays ↦ inl (rw stays refl)
          | inl goes ↦
              let q = move_default p provider (some c.handle) now in
              rw goes (
                let kept = ramp_default-default_account q c.handle ramp now other in
                let now_default =
                  default_account-move_default p provider other (some c.handle) now in
                elim (Bool-cases (provider == other)) [
                  | inl same ↦ inr (
                    by_ranking_only c.cause (and_first _ _ goes),
                    eq_of_== provider other same,
                    kept ∙ now_default ∙ rw same refl,
                  )
                  | inr apart ↦ inl (kept ∙ now_default ∙ rw apart refl)
                ])
        ]

  bind_choice-default_account :
      (p : Pool) (key : Option SessionKey) (c : Choice) (other : Provider)
      → default_account (bind_choice p key c) other ≡ default_account p other
  unfolding bind_choice default_account
  bind_choice-default_account p none c other = refl
  bind_choice-default_account p (some key) c other = ground arith

  predict-default_account :
      (p : Pool) (facts : RequestFacts) (settings : SelectionSettings) (now : Instant)
      (other : Provider)
      → default_account (predict p facts settings now).0 other ≡ default_account p other
  unfolding predict refreshed expire_quota default_account
  predict-default_account p facts settings now other = refl

  -- A selection moves a default only for the request's provider, only to the account that it
  -- answers with, and only where the answer came by the ranking.
  pub select-Follows :
      (p : Pool) (facts : RequestFacts) (key : Option SessionKey) (quota : QuotaSettings)
      (settings : SelectionSettings) (now : Instant) (other : Provider)
      → (default_account (select p facts key quota settings now).0 other ≡ default_account p other)
        ⊎ ((c : Choice) × ((select p facts key quota settings now).1 ≡ ok c)
            × (c.cause ≡ by_ranking)
            × (facts.provider ≡ other)
            × (default_account (select p facts key quota settings now).0 other ≡ some c.handle))
  unfolding select
  select-Follows p facts key quota settings now other =
      let known = with_session p facts key in
      let ready = (predict p known settings now).0 in
      let before = predict-default_account p known settings now other in
      elim (Result-cases (predict p known settings now).1) [
        | inr (nobody, e) ↦
            inl (
              rw (e, select)
                (challenge-default_account ready known nobody quota now other ∙ before))
        | inl (c, e) ↦
            let bound =
              bind_choice-default_account (follow_ranking ready facts.provider c settings.ramp now)
                key c other in
            elim (follow_ranking-Follows ready facts.provider other c settings.ramp now) [
              | inl same ↦ inl (rw (e, select) (bound ∙ same ∙ before))
              | inr (cause, mine, default_now) ↦
                  inr (c, rw (e, select) refl, cause, mine, rw (e, select) (bound ∙ default_now))
            ]
      ]

  -- Once one account is offered for a revalidation, nothing is offered, and no waiting attempt is
  -- released, under any settings, until the interval that was in force has passed.
  pub offered_once :
      (p : Pool) (nobody other_nobody : Nobody) (model other_model : Option String)
      (handle other : Uuid) (settings later_settings : QuotaSettings) (now later : Instant)
      → (offer_revalidation p nobody model settings now).1 ≡ some handle
      → later < now + seconds settings.revalidation_interval_seconds
      → ((offer_revalidation
            (offer_revalidation p nobody model settings now).0
            other_nobody
            other_model
            later_settings
            later).1
          ≡ none)
        × ((release_waiting_revalidation
              (offer_revalidation p nobody model settings now).0
              other
              later_settings
              later).1
            ≡ false)
  offered_once p nobody other_nobody model other_model handle other settings later_settings now
        later e soon =
      elim (offer-cases p nobody model settings now) [
        | inl nothing ↦ cc
        | inr (h, offered) ↦
            rw offered
              (shut_gate _ other_nobody other_model other later_settings later (ground arith))
      ]

  In-shapes : (l : List Account) (a : Account) → In a l → In (shape a) (shapes l)
  In-shapes [] a m = elim m [ ]
  In-shapes (b ∷ l) a (inl e) = inl (ap shape e)
  In-shapes (b ∷ l) a (inr m) = inr (In-shapes l a m)

  offered :
      (p : Pool) (provider : Provider) (c : Choice) (a : Account)
      → In a (accounts_of p provider)
      → a.handle ≡ c.handle
      → In (c.handle, provider) (shapes p.accounts)
  unfolding accounts_of
  offered p provider c a m same =
      let (listed, mine) = In-filter (λ (b : Account). b.provider == provider) p.accounts a m in
      subst (λ h. In (h, provider) (shapes p.accounts)) same
        (subst (λ q. In (a.handle, q) (shapes p.accounts)) (eq_of_== a.provider provider mine)
          (In-shapes p.accounts a listed))

  startup_none_empty :
      (facts : RequestFacts) (p : Pool) (provider : Provider) (settings : SelectionSettings)
      (now : Instant) (c : Choice)
      → Pass.select facts (startup_snapshot p provider now) settings ≡ ok c
      → is_empty (startup_snapshot p provider now).accounts ≡ false
  unfolding Pass.select
  startup_none_empty facts p provider settings now c e =
      elim (Bool-cases (is_empty (startup_snapshot p provider now).accounts)) [
        | inl gone ↦ ground arith
        | inr there ↦ there
      ]

  initial_choice-SettledAt :
      (p : Pool) (provider : Provider) (settings : SelectionSettings) (now : Instant)
      → SettledAt (initial_choice p provider settings now) provider (shapes p.accounts)
  unfolding initial_choice accounts_of startup_snapshot
  initial_choice-SettledAt p provider settings now =
      let facts = record default_facts { provider = provider } in
      elim (Result-cases (Pass.select facts (startup_snapshot p provider now) settings)) [
        | inr (nobody, e) ↦ rw (e, initial_choice) (first_fits provider p.accounts)
        | inl (c, e) ↦
            rw (e, initial_choice)
              (elim (select-ServedBy facts (startup_snapshot p provider now) settings c
                (startup_none_empty facts p provider settings now c e) e) [
                  | inl (a, m, same, _) ↦ offered p provider c a m same
                  | inr (_, (a, m, same, _)) ↦ offered p provider c a m same
                ])
      ]

  -- The defaults after the startup's choice for one provider.
  initial_default-SettledAt :
      (p : Pool) (provider other : Provider) (settings : SelectionSettings) (now : Instant)
      → ((provider == other) ≡ false
          → SettledAt (default_account p other) other (shapes p.accounts))
      → SettledAt
          (default_account (initial_default p provider settings now) other)
          other
          (shapes (initial_default p provider settings now).accounts)
  unfolding initial_default
  initial_default-SettledAt p provider other settings now rest =
      let choice = initial_choice p provider settings now in
      subst
        (λ l.
          SettledAt (default_account (move_default p provider choice now) other) other (shapes l))
        (sym (move_default-accounts p provider choice now))
        (subst (λ d. SettledAt d other (shapes p.accounts))
          (sym (default_account-move_default p provider other choice now))
          (elim (Bool-cases (provider == other)) [
            | inl mine ↦ rw mine (
                subst (λ q. SettledAt choice q (shapes p.accounts)) (eq_of_== provider other mine)
                  (initial_choice-SettledAt p provider settings now))
            | inr apart ↦ rw apart (rest apart)
          ]))

  -- The startup gives every provider that has accounts one of them as its default, whatever the
  -- settings are, and no other provider any.
  pub choose_initial_default-Settled :
      (p : Pool) (settings : SelectionSettings) (now : Instant)
      → Settled (choose_initial_default p settings now)
  unfolding choose_initial_default
  choose_initial_default-Settled p settings now anthropic =
      initial_default-SettledAt (initial_default p anthropic settings now) codex anthropic settings
        now (λ apart. initial_default-SettledAt p anthropic anthropic settings now (λ same. cc))
  choose_initial_default-Settled p settings now codex =
      initial_default-SettledAt (initial_default p anthropic settings now) codex codex settings now
        (λ same. cc)
