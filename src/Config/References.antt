-- ===== src/Config/References.antt =====
-- src/config/references.rs: the account references of a configuration against a pool, and `guarded` of
-- src/control/accounts.rs, which runs an operation and refuses it for the references that it breaks.
mod Guarding
mod Tests
use Prim.Native.String.{◌++◌ as append}
use jaynshare.Prelude.{
  ℕ, String, ◌+◌, Bool, true, false, not, ◌&&◌, List, [], ◌∷◌, ◌++◌, Option, none, some, Result, ok,
  err, ◌>>=◌, ◌==◌, nat_eq, string_eq, if◌then◌else◌, any, filter, find, map, is_empty, unwrap_or,
  map_some,
}
use jaynshare.External.{External, Uuid}
use jaynshare.Account.{Account, Provider, anthropic, codex}
use jaynshare.Selection.{Route, Priority}
use jaynshare.Selection.Bars.{SelectionSettings}
use jaynshare.Pool.{Pool}
use jaynshare.Pool.Operating.{Resolve, not_found, ambiguous, resolve_in}
use jaynshare.Pool.Naming.{
  ReferenceConflict, Why, unresolvable, OperationError, reference_conflict, provider_text,
}
use jaynshare.Config.{Printing, ConfigError, Site, route, priority, ReferenceSite}

-- `join(", ")`
abbrev pub joined : List String → String
joined [] = ""
joined (a ∷ []) = a
joined (a ∷ b ∷ l) = append a (append ", " (joined (b ∷ l)))

-- `Resolve::listed` of src/pool/mod.rs
unfoldable pub listed : List (String × Provider) → String
listed matches = joined (
    map (λ (m : String × Provider). append m.0 (append " (" (append (provider_text m.1) ")")))
      matches)

-- The conflicts after that were not there before.
unfoldable pub introduced : List ReferenceConflict → List ReferenceConflict → List ReferenceConflict
introduced before after =
    filter
      (λ (c : ReferenceConflict).
        not (
          any (λ (b : ReferenceConflict). b.entry == c.entry && b.reference == c.reference) before))
      after

module _ ⦃x : External⦄ where
  -- One round of the loop over the providers.
  abbrev pub also_in :
      Pool → String → Provider → List Account → Result {0, 0} (List Account) Resolve
  also_in p reference provider accounts = elim (resolve_in p provider reference) [
    | ok a ↦ ok (accounts ++ (a ∷ []))
    | err why ↦ elim why [ not_found ↦ ok accounts | ambiguous names ↦ err (ambiguous names) ]
  ]

  abbrev pub at_least_one : List Account → Result {0, 0} (List Account) Resolve
  at_least_one accounts = if is_empty accounts then err not_found else ok accounts

  unfoldable pub resolve : Pool → String → Result {0, 0} (List Account) Resolve
  resolve p reference =
      also_in p reference anthropic [] >>= also_in p reference codex >>= at_least_one

  unfoldable pub resolution : Pool → String → Option Why
  resolution p reference = elim (resolve p reference) [
    | ok accounts ↦ none
    | err why ↦ elim why [ not_found ↦ some unresolvable | ambiguous names ↦ some Why.ambiguous ]
  ]

  -- The entry's conflict, in front of the others.
  unfoldable pub with_conflict :
      Pool → String → String → List ReferenceConflict → List ReferenceConflict
  with_conflict p entry reference others = elim (resolution p reference) [
    | none ↦ others
    | some why ↦ record { entry = entry; reference = reference; why = why } ∷ others
  ]

  unfoldable pub route_conflicts :
      Pool → String → List String → List ReferenceConflict → List ReferenceConflict
  route_conflicts p entry [] others = others
  route_conflicts p entry (reference ∷ references) others =
      with_conflict p entry reference (route_conflicts p entry references others)

  unfoldable pub routes_conflicts :
      Pool → List Route → List ReferenceConflict → List ReferenceConflict
  routes_conflicts p [] others = others
  routes_conflicts p (r ∷ routes) others =
      route_conflicts p (append "route " r.name) (unwrap_or r.accounts [])
        (routes_conflicts p routes others)

module _ ⦃x : External⦄ ⦃print : Printing⦄ where
  open print use {decimal, quoted}

  unfoldable pub priority_conflicts : Pool → ℕ → List Priority → List ReferenceConflict
  priority_conflicts p index [] = []
  priority_conflicts p index (entry ∷ priorities) =
      with_conflict p (append "priority " (decimal index)) entry.account
        (priority_conflicts p (index + 1) priorities)

  unfoldable pub conflicts : SelectionSettings → Pool → List ReferenceConflict
  conflicts selection p =
      routes_conflicts p selection.routes (priority_conflicts p 0 selection.priorities)

  unfoldable pub guarded :
      {A : Type 0}
      → SelectionSettings
      → (Pool → Pool × Result {0, 0} A OperationError)
      → Pool
      → Pool × Result {0, 0} A OperationError
  guarded selection apply p =
      let out = apply p in
      elim out.1 [
        | err cause ↦ out
        | ok value ↦
            let broken = introduced (conflicts selection p) (conflicts selection out.0) in
            if is_empty broken then out else (out.0, err (reference_conflict broken))
      ]

  unfoldable pub describe : String → Resolve → String
  describe reference not_found = append "no account matches " (quoted reference)
  describe reference (ambiguous names) =
      append (quoted reference) (append " matches several accounts: " (listed names))

  -- The first account that an earlier entry covers.
  abbrev pub covered_account : List Uuid → List Account → Option Account
  covered_account covered accounts =
      find (λ (a : Account). any (λ h. h == a.handle) covered) accounts

  -- The error of one site, and the handles that are covered after it.
  unfoldable pub site_error : Pool → List Uuid → ReferenceSite → Option String × List Uuid
  site_error p covered site = elim (resolve p site.literal) [
    | ok accounts ↦ elim site.site [
      | route name ↦ (none, covered)
      | priority ↦ elim (covered_account covered accounts) [
        | some a ↦ (
          some (
              append (quoted site.literal) (
                append " resolves to "
                  (append a.display_name ", which an earlier entry already covers"))),
          covered,
        )
        | none ↦ (none, covered ++ map (λ (a : Account). a.handle) accounts)
      ]
    ]
    | err why ↦ elim site.site [
      | route name ↦
          (some (append "route " (append name (append ": " (describe site.literal why)))), covered)
      | priority ↦ (some (describe site.literal why), covered)
    ]
  ]

  unfoldable pub errors_from : Pool → List Uuid → List ReferenceSite → List ConfigError
  errors_from p covered [] = []
  errors_from p covered (site ∷ sites) =
      let here = site_error p covered site in
      let rest = errors_from p here.1 sites in
      elim here.0 [
        | none ↦ rest
        | some message ↦ record { target = site.target; message = message } ∷ rest
      ]

  unfoldable pub errors : List ReferenceSite → Pool → List ConfigError
  errors sites p = errors_from p [] sites
