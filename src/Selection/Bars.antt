-- ===== src/Selection/Bars.antt =====
-- The bars on one account of src/pool/selection.rs, with `SelectionSettings` of src/config/mod.rs.
use jaynshare.Prelude.{
  String, Bool, true, false, not, ◌&&◌, ◌||◌, List, [], ◌∷◌, Option, none, some, Result, ok, err,
  ◌==◌, nat_eq, string_eq, if◌then◌else◌, is_some, is_some_and, any, all, find, filter, and_then, ℤ,
  pos, keep_if, head, leb, map_some, find_map, is_empty,
}
use jaynshare.Time.{Instant}
use jaynshare.External.{External}
use jaynshare.HashMap.{HashMap}
use jaynshare.Ramp.{RampSettings}
use jaynshare.Quota.{
  Kind, Bucket, State, state, effective_utilization, named, session, weekly, weekly_of,
}
use jaynshare.Account.{Account, kind, references}
use jaynshare.Selection.{Priority, Route, default_facts, Ineligible, Bar, ineligible_of}
use jaynshare.Selection.Glob.{as_bytes, star, blocked_by}

abbrev pub is_ok : {A E : Type 0} → Result A E → Bool
is_ok (ok a) = true
is_ok (err e) = false

-- `map_err`
abbrev pub map_err : {A E F : Type 0} → (E → F) → Result A E → Result A F
map_err f (ok a) = ok a
map_err f (err e) = err (f e)

module _ ⦃x : External⦄ where
  open x use {F64, f64_le}

  pub record SelectionSettings : Type 0 where
    pub switch_threshold : F64
    pub distribute_sessions : Bool
    pub failover : Bool
    pub blocked_models : List String
    pub priorities : List Priority
    pub routes : List Route
    pub ramp : RampSettings

  -- The weekly window that governs: the route's override, else the verified family's, else the shared.
  unfoldable pub governing_weekly : Option String → Option String → String
  governing_weekly fam (some bucket) = bucket
  governing_weekly (some f) none = weekly_of f
  governing_weekly none none = weekly

  unfoldable pub governs : Kind → String → Bucket → Bool
  governs Kind.oauth window b = b.name == session || b.name == window
  governs Kind.api_key window b = is_some b.limit

  unfoldable pub governing_buckets : Account → Option String → Option String → List Bucket
  governing_buckets a fam override =
      filter (governs (kind a) (governing_weekly fam override)) a.quota

  -- What one governing bucket bars.
  unfoldable pub bucket_bar : SelectionSettings → Instant → Bool → Bucket → Option Bar
  bucket_bar settings now bound b = elim (state b now) [
    | State.exhausted ↦ some (Bar.held b.exhaustion_hold_until)
    | _ ↦
        if not bound
          && is_some_and (effective_utilization b) (λ u. f64_le settings.switch_threshold u)
        then some (Bar.over_threshold b.reset_at)
        else none
  ]

  -- The loop of `quota_bar` over the governing buckets.
  unfoldable pub first_bar :
      SelectionSettings → Instant → Bool → List Bucket → Result {0, 0} Unit Bar
  first_bar settings now bound [] = ok tt
  first_bar settings now bound (b ∷ bs) = elim (bucket_bar settings now bound b) [
    | some bar ↦ err bar
    | none ↦ first_bar settings now bound bs
  ]

  unfoldable pub quota_bar :
      Account
      → SelectionSettings
      → Instant
      → Bool
      → Option String
      → Option String
      → Option Instant
      → Result {0, 0} Unit Bar
  quota_bar a settings now bound fam override org_hold =
      if not a.enabled
      then err Bar.disabled
      else if is_some a.errored
      then err Bar.errored
      else elim org_hold [
        | some end ↦ err (Bar.held (some end))
        | none ↦ first_bar settings now bound (governing_buckets a fam override)
      ]

  unfoldable pub priority_of : Account → SelectionSettings → ℤ
  priority_of a settings =
      elim (find (λ (p : Priority). references a p.account) settings.priorities) [
        | none ↦ pos 0
        | some p ↦ p.value
      ]

  -- `HashMap<String, Vec<String>>`: the models seen under each verified family.
  unfoldable pub family_for :
      Option String → HashMap String (List String) → Account → Instant → Option String
  family_for model families a now = and_then model (λ m.
      keep_if
        (λ f.
          is_some_and (find (named (weekly_of f)) a.quota)
            (λ b. is_some_and b.observed_at (λ t. leb t now)))
        (map_some (λ e. e.0) (find (λ (e : String × List String). any (λ k. k == m) e.1) families)))

  -- Unknown weekly resets first, then the soonest.
  unfoldable pub weekly_reset_rank : Account → Bool × Option Instant
  weekly_reset_rank a =
      let reset =
        find_map (λ (b : Bucket). b.reset_at)
          (filter (named weekly) (governing_buckets a none none)) in
      (is_some reset, reset)

  unfoldable pub eligibility :
      Account → SelectionSettings → Instant → Option Instant → Result {0, 0} Unit Ineligible
  eligibility a settings now org_hold =
      map_err ineligible_of (quota_bar a settings now false none none org_hold)

  unfoldable pub eligibility_for_route :
      Account
      → Route
      → SelectionSettings
      → HashMap String (List String)
      → Instant
      → Option Instant
      → Result {0, 0} Unit Ineligible
  eligibility_for_route a route settings families now org_hold = map_err ineligible_of (
      quota_bar a settings now false (family_for (head route.patterns) families a now) route.bucket
        org_hold)

  -- The last test of `selectable`, for one learned model.
  unfoldable pub serves_model :
      Account
      → SelectionSettings
      → HashMap String (List String)
      → Instant
      → Option Instant
      → String
      → Bool
  serves_model a settings families now org_hold model =
      if is_some (blocked_by settings.blocked_models (record default_facts { model = some model }))
      then false
      else is_ok
          (quota_bar a settings now false (family_for (some model) families a now) none org_hold)

  unfoldable pub selectable :
      Account → SelectionSettings → HashMap String (List String) → Instant → Option Instant → Bool
  selectable a settings families now org_hold =
      let blocks_every_model =
        any (λ p. not (is_empty (as_bytes p)) && all (λ b. b == star) (as_bytes p))
          settings.blocked_models in
      if not a.enabled || is_some a.errored
      then false
      else if not blocks_every_model && is_ok (quota_bar a settings now false none none org_hold)
      then true
      else any
          (λ (e : String × List String). any (serves_model a settings families now org_hold) e.1)
          families
