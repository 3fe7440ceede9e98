-- ===== src/Selection/Completeness.antt =====
-- When `Pass::run` of src/pool/selection.rs is sure to serve.
use jaynshare.Prelude.{
  ◌≡◌, ◌⊎◌, refl, Bool, true, false, List, [], ◌∷◌, Option, none, some, Result, ok, err, arith, In,
  In-filter, filter-In, not, is_empty, if◌then◌else◌, map, String,
}
use jaynshare.External.{External}
use jaynshare.Account.{Account, is_usable}
use jaynshare.Selection.{Choice, Nobody}
use jaynshare.Selection.Bars.{is_ok}
use jaynshare.Selection.Barring.{quota_bar_ok}
use jaynshare.Selection.Pass.{
  Pass, eligible, route_allows, excluded, pass_bar, models_bar, model_bar, bound_answer, moves,
  binds, ranked, over_eligible, from_pool, run,
}
use jaynshare.Selection.Rules.{
  Ruled, run-Ruled, rule_pin, rule_preference, rule_route, rule_bound, rule_pool,
}
use jaynshare.Selection.Serving.{usable_accounts, eligible_accounts}

module _ ⦃x : External⦄ where
  model_bar-usable :
      (p : Pass) (a : Account) (b : Bool) (m : Option String)
      → model_bar p a b m ≡ ok tt
      → is_usable a ≡ true
  unfolding model_bar
  model_bar-usable p a b m h = ((quota_bar_ok a p.settings p.snapshot.now b _ _ _).0 h).0

  models_bar-usable :
      (p : Pass) (a : Account) (b : Bool) (ms : List String)
      → is_ok (models_bar p a b (if is_empty ms then none ∷ [] else map some ms)) ≡ true
      → is_usable a ≡ true
  unfolding models_bar
  models_bar-usable p a b [] h = model_bar-usable p a b none (ground arith)
  models_bar-usable p a b (m ∷ ms) h = model_bar-usable p a b (some m) (ground arith)

  In-eligible_accounts :
      (p : Pass) (a : Account)
      → In a p.snapshot.accounts
      → eligible p a false ≡ true
      → In a (eligible_accounts p)
  unfolding eligible pass_bar
  In-eligible_accounts p a m fit =
      filter-In _ _ a
        (filter-In is_usable _ a
          (filter-In _ _ a (filter-In (route_allows p) _ a m (ground arith)) (ground arith))
          (models_bar-usable p a false p.models (ground arith)))
        (ground arith)

  over_eligible_found :
      (p : Pass) (b : Bool) (us es : List Account) (a : Account)
      → In a us
      → In a es
      → (c : Choice) × (over_eligible p b us es ≡ ok c)
  unfolding over_eligible
  over_eligible_found p b us [] a m k = elim k [ ]
  over_eligible_found p b [] (e ∷ es) a m k = elim m [ ]
  over_eligible_found p b (u ∷ us) (e ∷ es) a m k = (ranked p b e es, refl)

  nonempty : (l : List Account) (a : Account) → In a l → is_empty l ≡ false
  nonempty [] a m = elim m [ ]
  nonempty (b ∷ l) a m = refl

  from_pool_found :
      (p : Pass) (b : Bool) (a : Account)
      → In a p.snapshot.accounts
      → eligible p a false ≡ true
      → (c : Choice) × (from_pool p b ≡ ok c)
  unfolding from_pool eligible
  from_pool_found p b a m fit =
      let k = In-eligible_accounts p a m fit in
      let allowed = filter-In (route_allows p) _ a m (ground arith) in
      let untried = filter-In (λ c. not (excluded p c)) _ a allowed (ground arith) in
      let (us, _) = In-filter (λ c. is_ok (pass_bar p c false)) (usable_accounts p) a k in
      let (c, e) = over_eligible_found p b (usable_accounts p) (eligible_accounts p) a us k in
      (c, rw (nonempty _ a allowed) (rw (nonempty _ a untried) e))

  -- The answer is a choice.
  abbrev pub Answered : Result {0, 0} Choice Nobody → Type 0
  Answered r = (c : Choice) × (r ≡ ok c)

  stays-Answered :
      (p : Pass) (answer : Result {0, 0} Choice Nobody)
      → (p.facts.binding ≡ none) ⊎ (p.settings.failover ≡ true)
      → bound_answer p ≡ some answer
      → moves p ≡ false
      → Answered answer
  unfolding bound_answer moves
  stays-Answered p (ok c) free h stays = (c, refl)
  stays-Answered p (err n) free h stays = ground arith

  Ruled-Answered :
      (p : Pass) (a : Account)
      → In a p.snapshot.accounts
      → eligible p a false ≡ true
      → p.facts.pin ≡ none
      → (p.facts.binding ≡ none) ⊎ (p.settings.failover ≡ true)
      → (r : Result {0, 0} Choice Nobody) → Ruled p r
      → Answered r
  Ruled-Answered p a m fit e free _ (rule_pin pin f) = cc
  Ruled-Answered p a m fit e free _ (rule_preference c _ _) = (c, refl)
  Ruled-Answered p a m fit e free _ (rule_route c _ _ _) = (c, refl)
  Ruled-Answered p a m fit e free _ (rule_bound answer _ _ _ h stays) =
      stays-Answered p answer free h stays
  Ruled-Answered p a m fit e free _ (rule_pool _ _ _ _) = from_pool_found p (binds p) a m fit

  -- While some account of the snapshot is eligible, `Pass::run` makes a choice, for an attempt that
  -- is not pinned and whose session is not bound or may fail over.
  pub run-Answered :
      (p : Pass) (a : Account)
      → In a p.snapshot.accounts
      → eligible p a false ≡ true
      → p.facts.pin ≡ none
      → (p.facts.binding ≡ none) ⊎ (p.settings.failover ≡ true)
      → Answered (run p)
  run-Answered p a m fit e free = Ruled-Answered p a m fit e free (run p) (run-Ruled p)
