-- ===== src/Selection/Rules.antt =====
-- The order of precedence in `Pass::run` of src/pool/selection.rs: which rule produced an answer, and
-- that the rules before it did not apply.
use jaynshare.Prelude.{
  ◌≡◌, ◌⊎◌, inl, inr, sym, subst, true, false, none, some, Result, ok, arith, keep_if-some, keep_if,
  not, Option-cases, nat_eq, pair_order, int_order, bool_order, option_order, nat_order,
}
use jaynshare.External.{External, Uuid}
use jaynshare.Selection.{Choice, Nobody, Cause}
use jaynshare.Selection.Pass.{
  Pass, pinned, preferred, bound_answer, moves, binds, from_pool, run, route_preference,
}

module _ ⦃x : External⦄ where
  -- Which rule produced the answer of a pass.
  pub data Ruled (p : Pass) : Result {0, 0} Choice Nobody → Type 0 where
    rule_pin : (pin : Uuid) → p.facts.pin ≡ some pin → Ruled p (pinned p (binds p) pin)
    rule_preference :
        (c : Choice)
        → p.facts.pin ≡ none
        → preferred p (binds p) Cause.by_preference p.facts.preference ≡ some c
        → Ruled p (ok c)
    rule_route :
        (c : Choice)
        → p.facts.pin ≡ none
        → preferred p (binds p) Cause.by_preference p.facts.preference ≡ none
        → preferred p (binds p) Cause.by_route_preference (route_preference p) ≡ some c
        → Ruled p (ok c)
    rule_bound :
        (answer : Result {0, 0} Choice Nobody)
        → p.facts.pin ≡ none
        → preferred p (binds p) Cause.by_preference p.facts.preference ≡ none
        → preferred p (binds p) Cause.by_route_preference (route_preference p) ≡ none
        → bound_answer p ≡ some answer
        → moves p ≡ false
        → Ruled p answer
    rule_pool :
        p.facts.pin ≡ none
        → preferred p (binds p) Cause.by_preference p.facts.preference ≡ none
        → preferred p (binds p) Cause.by_route_preference (route_preference p) ≡ none
        → (moves p ≡ true) ⊎ (bound_answer p ≡ none)
        → Ruled p (from_pool p (binds p))

  after_preferences :
      (p : Pass)
      → p.facts.pin ≡ none
      → preferred p (binds p) Cause.by_preference p.facts.preference ≡ none
      → preferred p (binds p) Cause.by_route_preference (route_preference p) ≡ none
      → Ruled p (run p)
  unfolding run
  after_preferences p e f g = elim (Option-cases (keep_if (λ _. not (moves p)) (bound_answer p))) [
    | inr (answer, h) ↦
        let same : run p ≡ answer = ground arith in
        let (k, stays) = keep_if-some _ (bound_answer p) h in
        subst (Ruled p) (sym same) (rule_bound answer e f g k (ground arith))
    | inl h ↦
        let same : run p ≡ from_pool p (binds p) = ground arith in
        subst (Ruled p) (sym same) (rule_pool e f g (ground arith))
  ]

  pub run-Ruled : (p : Pass) → Ruled p (run p)
  unfolding run
  run-Ruled p = elim (Option-cases p.facts.pin) [
    | inr (pin, e) ↦
        let same : run p ≡ pinned p (binds p) pin = ground arith in
        subst (Ruled p) (sym same) (rule_pin pin e)
    | inl e ↦ elim (Option-cases (preferred p (binds p) Cause.by_preference p.facts.preference)) [
      | inr (c, f) ↦
          let same : run p ≡ ok c = ground arith in
          subst (Ruled p) (sym same) (rule_preference c e f)
      | inl f ↦
          elim (Option-cases
            (preferred p (binds p) Cause.by_route_preference (route_preference p))) [
              | inr (c, g) ↦
                  let same : run p ≡ ok c = ground arith in
                  subst (Ruled p) (sym same) (rule_route c e f g)
              | inl g ↦ after_preferences p e f g
            ]
    ]
  ]
