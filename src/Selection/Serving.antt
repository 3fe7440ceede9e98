-- ===== src/Selection/Serving.antt =====
-- Whom `Pass::run` and `select` of src/pool/selection.rs may serve.
use jaynshare.Prelude.{
  ◌≡◌, ◌⊎◌, inl, inr, refl, sym, subst, ◌∙◌, ap, Bool, true, false, List, [], ◌∷◌, Option, some,
  ok_injective, Result, ok, arith, In, keep_if-some, find_sound, any_sound, eq_of_==, In-filter,
  is_some_and, keep_if, any, not, ◌&&◌, Option-cases, Bool-cases, filter, nat_eq, ◌==◌, least_from,
  min_by_key_sound, min_by_key-some, pair_order, int_order, bool_order, option_order, nat_order,
  Order,
}
use jaynshare.External.{External, Uuid}
use jaynshare.Account.{Account, is_usable}
use jaynshare.Selection.{Choice, Nobody, Cause}
use jaynshare.Selection.Bars.{is_ok}
use jaynshare.Selection.Pass.{
  Pass, account, eligible, route_allows, excluded, pass_bar, pinned, preferred, bound, bound_answer,
  binds, choice, distribution_key, ranking_key, ranked, over_eligible, from_pool, run,
}
use jaynshare.Selection.Rules.{
  Ruled, run-Ruled, rule_pin, rule_preference, rule_route, rule_bound, rule_pool,
}

module _ ⦃x : External⦄ where
  -- The choice names an account of the snapshot that is eligible, or that this session is bound to and
  -- that a bound attempt may use.
  abbrev pub Served : Pass → Choice → Type 0
  Served p c =
      (a : Account) × In a p.snapshot.accounts
      × (a.handle ≡ c.handle)
      × ((eligible p a false ≡ true)
          ⊎ ((p.facts.binding ≡ some c.handle) × (eligible p a true ≡ true)))

  abbrev AllServed : Pass → Result {0, 0} Choice Nobody → Type 0
  AllServed p r = (c : Choice) → r ≡ ok c → Served p c

  pub account_found :
      (p : Pass) (h : Uuid) (a : Account)
      → account p h ≡ some a
      → In a p.snapshot.accounts × (a.handle ≡ h)
  unfolding account
  account_found p h a e =
      let found = find_sound (λ (a : Account). a.handle == h) p.snapshot.accounts a e in
      (found.0, ground (arith, found.1))

  serve_found :
      (p : Pass) (h : Uuid) (c : Choice)
      → c.handle ≡ h
      → is_some_and (account p h) (λ a. eligible p a false) ≡ true
      → Served p c
  serve_found p h c same e = elim (Option-cases (account p h)) [
    | inl gone ↦ ground arith
    | inr (a, at) ↦
        let found = account_found p h a at in (a, found.0, found.1 ∙ sym same, inl (ground arith))
  ]

  pinned-Served : (p : Pass) (b : Bool) (pin : Uuid) → AllServed p (pinned p b pin)
  unfolding pinned
  pinned-Served p b pin c e = serve_found p pin c (ground arith) (ground arith)

  pub preferred_ok :
      (p : Pass) (b : Bool) (cause : Cause) (o : Option Uuid) (c : Choice)
      → preferred p b cause o ≡ some c
      → (h : Uuid) × (o ≡ some h)
        × (c ≡ choice b h cause)
        × (is_some_and (account p h) (λ a. eligible p a false) ≡ true)
  unfolding preferred
  preferred_ok p b cause o c e = elim (Option-cases o) [
    | inl gone ↦ ground arith
    | inr (h, at) ↦ (h, at, ground arith, ground arith)
  ]

  preferred-Served :
      (p : Pass) (b : Bool) (cause : Cause) (o : Option Uuid) (c : Choice)
      → preferred p b cause o ≡ some c
      → Served p c
  preferred-Served p b cause o c e =
      let (h, at, same, fit) = preferred_ok p b cause o c e in
      serve_found p h c (ap (λ (k : Choice). k.handle) same) fit

  pub bound_ok :
      (p : Pass) (h : Uuid) (c : Choice)
      → bound p h ≡ some (ok c)
      → (a : Account) × (account p h ≡ some a)
        × (eligible p a true ≡ true)
        × (c ≡ choice false h Cause.by_session)
  unfolding bound eligible
  bound_ok p h c e = elim (Option-cases (account p h)) [
    | inl gone ↦ ground arith
    | inr (a, at) ↦ (a, at, ground arith, ground arith)
  ]

  bound_answer-Served : (p : Pass) (c : Choice) → bound_answer p ≡ some (ok c) → Served p c
  unfolding bound_answer
  bound_answer-Served p c e = elim (Option-cases p.facts.binding) [
    | inl free ↦ ground arith
    | inr (h, bd) ↦
        let (a, at, fit, chosen) = bound_ok p h c (ground arith) in
        let same = ap (λ (k : Choice). k.handle) chosen in
        let found = account_found p h a at in
        (a, found.0, found.1 ∙ sym same, inr (bd ∙ ap some (sym same), fit))
  ]

  least-In :
      {K : Type 0} ⦃o : Order K⦄ (key : Account → K) (e : Account) (es : List Account)
      → In (least_from key e es) (e ∷ es)
  least-In key e es =
      (min_by_key_sound key (e ∷ es) (least_from key e es) (min_by_key-some key e es)).0

  ranked-In :
      (p : Pass) (b : Bool) (e : Account) (es : List Account)
      → (a : Account) × In a (e ∷ es) × (a.handle ≡ (ranked p b e es).handle)
  unfolding ranked
  ranked-In p b e es = elim (Bool-cases (p.settings.distribute_sessions && b)) [
    | inl spread ↦
        (least_from (distribution_key p) e es, least-In (distribution_key p) e es, ground arith)
    | inr stay ↦
        elim (Option-cases
          (keep_if (λ d. any (λ (a : Account). a.handle == d) (e ∷ es)) p.snapshot.default)) [
            | inl gone ↦ (
              least_from (ranking_key p) e es,
              least-In (ranking_key p) e es,
              rw stay (rw gone refl),
            )
            | inr (d, at) ↦
                let (a, m, same) =
                  any_sound (λ (a : Account). a.handle == d) (e ∷ es)
                    (keep_if-some _ p.snapshot.default at).1 in
                (a, m, eq_of_== a.handle d same ∙ rw stay (rw at refl))
          ]
  ]

  -- The accounts that the ranking runs over: the list `eligible` of `run`.
  abbrev pub usable_accounts : Pass → List Account
  usable_accounts p =
      filter is_usable
        (filter (λ a. not (excluded p a)) (filter (route_allows p) p.snapshot.accounts))

  abbrev pub eligible_accounts : Pass → List Account
  eligible_accounts p = filter (λ a. is_ok (pass_bar p a false)) (usable_accounts p)

  over_eligible_ok :
      (p : Pass) (b : Bool) (us es : List Account) (c : Choice)
      → over_eligible p b us es ≡ ok c
      → (e : Account) × (l : List Account) × (es ≡ e ∷ l) × (ranked p b e l ≡ c)
  unfolding over_eligible
  over_eligible_ok p b [] es c h = cc
  over_eligible_ok p b (u ∷ us) [] c h = cc
  over_eligible_ok p b (u ∷ us) (e ∷ es) c h = (e, es, refl, ok_injective h)

  pub from_pool_ok :
      (p : Pass) (b : Bool) (c : Choice)
      → from_pool p b ≡ ok c
      → (e : Account) × (l : List Account) × (eligible_accounts p ≡ e ∷ l) × (ranked p b e l ≡ c)
  unfolding from_pool
  from_pool_ok p b c h =
      over_eligible_ok p b (usable_accounts p) (eligible_accounts p) c (ground arith)

  pub eligible_accounts_sound :
      (p : Pass) (a : Account)
      → In a (eligible_accounts p)
      → In a p.snapshot.accounts × (eligible p a false ≡ true)
  unfolding eligible
  eligible_accounts_sound p a m =
      let (m1, fit) = In-filter (λ b. is_ok (pass_bar p b false)) (usable_accounts p) a m in
      let (m2, _) = In-filter is_usable _ a m1 in
      let (m3, kept) = In-filter (λ b. not (excluded p b)) _ a m2 in
      let (m4, allowed) = In-filter (route_allows p) p.snapshot.accounts a m3 in (m4, ground arith)

  from_pool-Served : (p : Pass) (b : Bool) → AllServed p (from_pool p b)
  from_pool-Served p b c h =
      let (e, l, list, same) = from_pool_ok p b c h in
      let (a, m, at) = ranked-In p b e l in
      let found = eligible_accounts_sound p a (subst (In a) (sym list) m) in
      (a, found.0, at ∙ ap (λ (k : Choice). k.handle) same, inl found.1)

  Ruled-Served : (p : Pass) (r : Result {0, 0} Choice Nobody) → Ruled p r → AllServed p r
  Ruled-Served p _ (rule_pin pin e) = pinned-Served p (binds p) pin
  Ruled-Served p _ (rule_preference c e f) =
      λ k same. subst (Served p) (ok_injective same) (preferred-Served p (binds p) _ _ c f)
  Ruled-Served p _ (rule_route c e f g) =
      λ k same. subst (Served p) (ok_injective same) (preferred-Served p (binds p) _ _ c g)
  Ruled-Served p _ (rule_bound answer e f g h stays) =
      λ k same. bound_answer-Served p k (h ∙ ap some same)
  Ruled-Served p _ (rule_pool e f g h) = from_pool-Served p (binds p)

  -- A pass serves only an account of the snapshot that its routes allow, that was not tried before and
  -- that nothing bars; the account that the session is bound to alone may be over the threshold.
  pub run-Served : (p : Pass) (c : Choice) → run p ≡ ok c → Served p c
  run-Served p c h = Ruled-Served p (run p) (run-Ruled p) c h
