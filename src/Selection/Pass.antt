-- ===== src/Selection/Pass.antt =====
-- `Snapshot`, `Pass` and `select` of src/pool/selection.rs: the precedence rules over one provider's
-- accounts. `Pass::run` is cut into the functions below in the order of its early returns; the
-- `expect("non-empty")` of the source are lists given by head and tail.
use jaynshare.Prelude.{
  ℕ, String, Bool, true, false, not, ◌&&◌, ◌||◌, List, [], ◌∷◌, ◌++◌, Option, none, some, Result,
  ok, err, ◌==◌, nat_eq, string_eq, if◌then◌else◌, is_some, is_some_and, is_none, any, all, find,
  filter, unwrap_or, and_then, ℤ, keep_if, map_some, find_map, filter_map, is_empty, map, nat_order,
  int_order, bool_order, option_order, pair_order, least_from, min_by_key, leb_ℤ,
}
use jaynshare.Time.{Instant, option_max, running}
use jaynshare.External.{External, Uuid}
use jaynshare.HashMap
use jaynshare.HashMap.{HashMap}
use jaynshare.Quota.{Bucket}
use jaynshare.Account.{Account, references, is_usable}
use jaynshare.Selection.{
  RequestFacts, Bar, ineligible_of, MoveCause, move_cause_of, Choice, Nobody, Cause, NoService,
  by_pin, by_preference, by_route_preference, by_session, by_default, by_ranking,
  no_account_configured, all_disabled_or_errored, all_held_or_over_threshold, pinned_unavailable,
  route_exhausted, all_tried,
}
use jaynshare.Selection.Glob.{route_for, flatten}
use jaynshare.Selection.Bars.{
  SelectionSettings, is_ok, quota_bar, governing_buckets, priority_of, family_for,
  weekly_reset_rank,
}

module _ ⦃x : External⦄ where
  pub record Snapshot : Type 0 where
    pub accounts : List Account
    pub default : Option Uuid
    pub route_preferences : HashMap String Uuid
    pub active_sessions : HashMap Uuid ℕ
    pub in_flight : HashMap Uuid ℕ
    pub families : HashMap String (List String)
    pub organisation_holds : HashMap Uuid Instant
    pub now : Instant

  -- One pass of the rules for one model set.
  pub record Pass : Type 0 where
    pub facts : RequestFacts
    pub snapshot : Snapshot
    pub settings : SelectionSettings
    pub models : List String

  unfoldable pub account : Pass → Uuid → Option Account
  account p handle = find (λ (a : Account). a.handle == handle) p.snapshot.accounts

  unfoldable pub priority : Pass → Account → ℤ
  priority p a = priority_of a p.settings

  unfoldable pub route_allows : Pass → Account → Bool
  route_allows p a =
      all
        (λ m. elim (and_then (route_for p.settings.routes m) (λ r. r.accounts)) [
          | some list ↦ any (references a) list
          | none ↦ true
        ])
        p.models

  unfoldable pub excluded : Pass → Account → Bool
  excluded p a = any (λ h. h == a.handle) p.facts.exclusion

  unfoldable pub org_hold : Pass → Account → Option Instant
  org_hold p a =
      running
        (and_then a.profile.organization_uuid (λ o. HashMap.get p.snapshot.organisation_holds o))
        p.snapshot.now

  -- `Pass::quota_bar` for one model, and the loop over the models.
  unfoldable pub model_bar : Pass → Account → Bool → Option String → Result {0, 0} Unit Bar
  model_bar p a bound model =
      quota_bar a p.settings p.snapshot.now bound
        (family_for model p.snapshot.families a p.snapshot.now)
        (and_then (and_then model (route_for p.settings.routes)) (λ r. r.bucket)) (org_hold p a)

  unfoldable pub models_bar : Pass → Account → Bool → List (Option String) → Result {0, 0} Unit Bar
  models_bar p a bound [] = ok tt
  models_bar p a bound (m ∷ ms) = elim (model_bar p a bound m) [
    | err bar ↦ err bar
    | ok done ↦ models_bar p a bound ms
  ]

  unfoldable pub pass_bar : Pass → Account → Bool → Result {0, 0} Unit Bar
  pass_bar p a bound =
      models_bar p a bound (if is_empty p.models then none ∷ [] else map some p.models)

  unfoldable pub eligible : Pass → Account → Bool → Bool
  eligible p a bound = route_allows p a && not (excluded p a) && is_ok (pass_bar p a bound)

  -- The closure `nobody` of `bound`.
  abbrev pub unbound : Uuid → NoService → Option Instant → Bool → Nobody
  unbound handle reason retry_at clears = record {
    reason = reason;
    retry_at = retry_at;
    named_account = some handle;
    revalidation_pool = [];
    clears = clears;
  }

  -- `Pass::bound`: a bound account is served or names the reason it cannot be.
  unfoldable pub bound : Pass → Uuid → Option (Result {0, 0} Choice Nobody)
  bound p handle =
      map_some
        (λ a.
          if not (route_allows p a)
          then err (unbound handle route_exhausted none false)
          else if excluded p a
          then err (unbound handle all_tried none false)
          else elim (pass_bar p a true) [
            | ok done ↦ ok (record {
              handle = handle;
              cause = by_session;
              default_moved_from = none;
              default_moved_cause = none;
              binds = false;
              advisor_fallback = false;
            })
            | err Bar.disabled ↦ err (unbound handle all_disabled_or_errored none false)
            | err Bar.errored ↦ err (unbound handle all_disabled_or_errored none false)
            | err (Bar.held at) ↦ err (unbound handle all_held_or_over_threshold at true)
            | err (Bar.over_threshold at) ↦ err (unbound handle all_held_or_over_threshold at true)
          ])
        (account p handle)

  unfoldable pub route_preference : Pass → Option Uuid
  route_preference p =
      find_map
        (λ m.
          and_then (route_for p.settings.routes m)
            (λ r. HashMap.get p.snapshot.route_preferences r.name))
        p.models

  -- The closure `choice` of `run`.
  abbrev pub choice : Bool → Uuid → Cause → Choice
  choice binds handle cause = record {
    handle = handle;
    cause = cause;
    default_moved_from = none;
    default_moved_cause = none;
    binds = binds;
    advisor_fallback = false;
  }

  -- The closure `nobody` of `run`.
  abbrev pub nobody : NoService → Option Instant → List Uuid → Nobody
  nobody reason retry_at pool = record {
    reason = reason;
    retry_at = retry_at;
    named_account = none;
    revalidation_pool = pool;
    clears = false;
  }

  -- Rule 1.
  unfoldable pub pinned : Pass → Bool → Uuid → Result {0, 0} Choice Nobody
  pinned p binds pin =
      if is_some_and (account p pin) (λ a. eligible p a false)
      then ok (choice binds pin by_pin)
      else err (record (nobody pinned_unavailable none []) { named_account = some pin })

  -- Rules 2 and 3.
  unfoldable pub preferred : Pass → Bool → Cause → Option Uuid → Option Choice
  preferred p binds cause preference = and_then preference (λ handle.
      if is_some_and (account p handle) (λ a. eligible p a false)
      then some (choice binds handle cause)
      else none)

  -- The soonest hold end or reset of one account.
  unfoldable pub soonest : Pass → Account → Option Instant
  soonest p a =
      min_by_key (λ (t : Instant). t)
        (filter_map (λ t. running (some t) p.snapshot.now)
          (filter_map (λ (b : Bucket). option_max b.exhaustion_hold_until b.reset_at)
              (governing_buckets a none none)
            ++ elim (org_hold p a) [ none ↦ [] | some end ↦ end ∷ [] ]))

  -- Every usable account is barred: the answer names the soonest end and the highest tier.
  unfoldable pub all_barred : Pass → Account → List Account → Nobody
  all_barred p u us =
      let routed =
        any (λ m. is_some_and (route_for p.settings.routes m) (λ r. is_some r.accounts)) p.models in
      let top = least_from (λ (v : ℤ). v) (priority p u) (map (priority p) us) in
      record (nobody (if routed then route_exhausted else all_held_or_over_threshold)
        (min_by_key (λ (t : Instant). t) (filter_map (soonest p) (u ∷ us)))
        (map (λ (a : Account). a.handle)
          (filter (λ a. leb_ℤ (priority p a) top && leb_ℤ top (priority p a)) (u ∷ us)))) {
            clears = true;
          }

  abbrev pub load : HashMap Uuid ℕ → Account → ℕ
  load counts a = unwrap_or (HashMap.get counts a.handle) 0

  -- What a distributed session is placed by: tier, active sessions, exchanges in flight, weekly reset.
  unfoldable pub distribution_key : Pass → Account → ℤ × (ℕ × (ℕ × (Bool × Option Instant)))
  distribution_key p a = (
    priority p a,
    (load p.snapshot.active_sessions a, (load p.snapshot.in_flight a, weekly_reset_rank a)),
  )

  unfoldable pub ranking_key : Pass → Account → ℤ × (Bool × Option Instant)
  ranking_key p a = (priority p a, weekly_reset_rank a)

  -- Why the default moves, where it moves.
  unfoldable pub moved_cause : Pass → Option MoveCause
  moved_cause p = and_then p.snapshot.default (λ d. elim (account p d) [
    | none ↦ some MoveCause.removed
    | some a ↦ elim (pass_bar p a false) [
      | ok done ↦ none
      | err bar ↦ some (move_cause_of (ineligible_of bar))
    ]
  ])

  -- Distribution, rule 5 and rule 6 over the eligible accounts.
  unfoldable pub ranked : Pass → Bool → Account → List Account → Choice
  ranked p binds e es =
      if p.settings.distribute_sessions && binds
      then choice binds (least_from (distribution_key p) e es).handle by_session
      else let winner = least_from (ranking_key p) e es in
        let moved = record (choice binds winner.handle by_ranking) {
          default_moved_from = keep_if (λ d. is_some (moved_cause p)) p.snapshot.default;
          default_moved_cause = moved_cause p;
        } in
        elim (keep_if (λ d. any (λ (a : Account). a.handle == d) (e ∷ es)) p.snapshot.default) [
          | some d ↦ choice binds d by_default
          | none ↦ moved
        ]

  -- The answer over the usable accounts and the eligible among them.
  unfoldable pub over_eligible :
      Pass → Bool → List Account → List Account → Result {0, 0} Choice Nobody
  over_eligible p binds [] _ = err (nobody all_disabled_or_errored none [])
  over_eligible p binds (u ∷ us) [] = err (all_barred p u us)
  over_eligible p binds (u ∷ us) (e ∷ es) = ok (ranked p binds e es)

  -- `run` from the list `allowed` on.
  unfoldable pub from_pool : Pass → Bool → Result {0, 0} Choice Nobody
  from_pool p binds =
      let allowed = filter (route_allows p) p.snapshot.accounts in
      let not_tried = filter (λ a. not (excluded p a)) allowed in
      let usable = filter is_usable not_tried in
      if is_empty allowed
      then err (nobody route_exhausted none [])
      else if is_empty not_tried
      then err (nobody all_tried none [])
      else over_eligible p binds usable (filter (λ a. is_ok (pass_bar p a false)) usable)

  abbrev pub is_refused : Option (Result {0, 0} Choice Nobody) → Bool
  is_refused (some (err n)) = true
  is_refused _ = false

  -- The bound session's answer, when it has one, and whether failover moves the session off it.
  unfoldable pub bound_answer : Pass → Option (Result {0, 0} Choice Nobody)
  bound_answer p = and_then p.facts.binding (bound p)

  unfoldable pub moves : Pass → Bool
  moves p = p.settings.failover && is_refused (bound_answer p)

  unfoldable pub binds : Pass → Bool
  binds p = p.facts.session && (is_none p.facts.binding || moves p)

  -- `Pass::run`
  unfoldable pub run : Pass → Result {0, 0} Choice Nobody
  run p = elim p.facts.pin [
    | some pin ↦ pinned p (binds p) pin
    | none ↦ elim (preferred p (binds p) by_preference p.facts.preference) [
      | some c ↦ ok c
      | none ↦ elim (preferred p (binds p) by_route_preference (route_preference p)) [
        | some c ↦ ok c
        | none ↦ elim (keep_if (λ _. not (moves p)) (bound_answer p)) [
          | some answer ↦ answer
          | none ↦ from_pool p (binds p)
        ]
      ]
    ]
  ]

  -- The pass for the request model alone, its answer marked.
  unfoldable pub fallback : Result {0, 0} Choice Nobody → Result {0, 0} Choice Nobody
  fallback (ok c) = ok (record c { advisor_fallback = true })
  fallback (err n) = err n

  abbrev pub pass : RequestFacts → Snapshot → SelectionSettings → List String → Pass
  pass facts snapshot settings models = record {
    facts = facts;
    snapshot = snapshot;
    settings = settings;
    models = models;
  }

  unfoldable pub select : RequestFacts → Snapshot → SelectionSettings → Result {0, 0} Choice Nobody
  select facts snapshot settings =
      if is_empty snapshot.accounts
      then err (nobody no_account_configured none [])
      else elim (run (pass facts snapshot settings (flatten facts.model facts.advisor_model))) [
        | ok c ↦ ok c
        | err n ↦ elim facts.advisor_model [
          | none ↦ err n
          | some advisor ↦ fallback (run (pass facts snapshot settings (flatten facts.model none)))
        ]
      ]
