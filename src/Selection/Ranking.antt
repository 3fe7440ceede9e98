-- ===== src/Selection/Ranking.antt =====
-- The ranking and the default's moves in `Pass::run` of src/pool/selection.rs.
use jaynshare.Prelude.{
  ◌≡◌, ◌⊎◌, ◌∙◌, sym, subst, ap, Bool, true, false, List, ◌∷◌, none, some, ok, arith, In,
  min_by_key_sound, min_by_key-some, least_from, pair_order, int_order, bool_order, option_order,
  nat_eq,
}
use jaynshare.External.{External, Uuid}
use jaynshare.Account.{Account}
use jaynshare.Selection.{Choice, Cause}
use jaynshare.Selection.Bars.{is_ok}
use jaynshare.Selection.Pass.{Pass, account, pass_bar, ranking_key, ranked, from_pool}
use jaynshare.Selection.Serving.{eligible_accounts, from_pool_ok}

module _ ⦃x : External⦄ where
  -- The account comes first among the eligible ones, by tier and then by weekly reset.
  abbrev pub First : Pass → Account → Type 0
  First p a =
      (o : Account)
      → In o (eligible_accounts p)
      → pair_order.le (ranking_key p a) (ranking_key p o) ≡ true

  ranked_first :
      (p : Pass) (b : Bool) (e : Account) (es : List Account)
      → (ranked p b e es).cause ≡ Cause.by_ranking
      → (least_from (ranking_key p) e es).handle ≡ (ranked p b e es).handle
  unfolding ranked
  ranked_first p b e es h = ground arith

  -- The winner of the ranking comes first among the eligible accounts.
  pub from_pool-First :
      (p : Pass) (b : Bool) (c : Choice)
      → from_pool p b ≡ ok c
      → c.cause ≡ Cause.by_ranking
      → (a : Account) × (a.handle ≡ c.handle) × In a (eligible_accounts p) × First p a
  from_pool-First p b c h by =
      let (e, l, list, same) = from_pool_ok p b c h in
      let winner = least_from (ranking_key p) e l in
      let (m, least) =
        min_by_key_sound (ranking_key p) (e ∷ l) winner (min_by_key-some (ranking_key p) e l) in
      (
        winner,
        ranked_first p b e l (ap (λ (k : Choice). k.cause) same ∙ by)
            ∙ ap (λ (k : Choice). k.handle) same,
        subst (In winner) (sym list) m,
        λ o mo. least o (subst (In o) list mo),
      )

  -- The default's own reason to move.
  abbrev pub MayMove : Pass → Choice → Type 0
  MayMove p c =
      ((c.default_moved_from ≡ none) × (c.default_moved_cause ≡ none))
      ⊎ ((d : Uuid) × (p.snapshot.default ≡ some d)
          × (c.default_moved_from ≡ some d)
          × (c.cause ≡ Cause.by_ranking)
          × ((a : Account) → account p d ≡ some a → is_ok (pass_bar p a false) ≡ false))

  -- What an answer says of the ranking and of the default.
  abbrev pub Ranked : Pass → Choice → Type 0
  Ranked p c =
      MayMove p c
      × (c.cause ≡ Cause.by_ranking
          → (a : Account) × (a.handle ≡ c.handle) × In a (eligible_accounts p) × First p a)
