-- ===== src/Config/References/Tests.antt =====
-- A renaming that a route of the configuration stands in the way of, in src/config/references.rs.
use jaynshare.Prelude.{◌≡◌, ◌⊎◌, refl, true, [], ◌∷◌, none, some, err}
use jaynshare.Scaled.{scaled}
use jaynshare.Fixtures.{alice, bob, plain_settings}
use jaynshare.Account.{references}
use jaynshare.Selection.Bars.{SelectionSettings}
use jaynshare.Pool.{Pool, get, accounts_of}
use jaynshare.Pool.Bookkeeping.{change_account}
use jaynshare.Pool.Operating.{resolve_in, resolve_among, one_of}
use jaynshare.Pool.Naming.{name_taken, OperationError, reference_conflict, unresolvable}
use jaynshare.Pool.Operations.{rename}
use jaynshare.Config.{Printing}
use jaynshare.Config.References.{
  guarded, conflicts, routes_conflicts, route_conflicts, priority_conflicts, with_conflict,
  resolution, resolve, introduced,
}
use jaynshare.Config.References.Guarding.{Keeps, mutate_pool-guarded}
use jaynshare.Refresh.{MutateError, mutate_pool}

instance abbrev plain_print : Printing
plain_print = record { decimal = λ n. "0"; quoted = λ s. s }

abbrev pair : Pool
pair = record {
  accounts = alice ∷ bob ∷ [];
  usage = [];
  sessions = [];
  operator = record { defaults = []; route_preferences = [] };
  organisation_quota = [];
  families = [];
  admission = [];
  next_revalidation = none;
}

-- One route, over alice.
abbrev routed : SelectionSettings
routed = record plain_settings {
  routes =
      record { name = "fast"; patterns = "*" ∷ []; accounts = some ("alice" ∷ []); bucket = none }
      ∷ [];
}

mutate_pool-guarded_example :
    ((cause : MutateError OperationError) × (mutate_pool pair true
          (guarded routed (λ p. rename p 1 "carol"))
        ≡ (pair, err cause)))
    ⊎ Keeps routed
        (λ p. rename p 1 "carol")
        pair
        (mutate_pool pair true (guarded routed (λ p. rename p 1 "carol")))
mutate_pool-guarded_example = mutate_pool-guarded routed (λ p. rename p 1 "carol") pair true

broken_route :
    (guarded routed (λ p. rename p 1 "carol") pair).1
    ≡ err (
        reference_conflict
          (record { entry = "route fast"; reference = "alice"; why = unresolvable } ∷ []))
unfolding guarded conflicts routes_conflicts route_conflicts priority_conflicts with_conflict
    resolution resolve introduced rename name_taken get change_account resolve_in resolve_among
    one_of accounts_of references
broken_route = refl
