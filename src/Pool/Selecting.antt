-- ===== src/Pool/Selecting.antt =====
-- `Pool::select` of src/pool/mod.rs with the candidate of a revalidation in src/pool/holds.rs, and the
-- choice of the defaults at startup.
mod Moving
mod Tests
use Prim.Native.Nat.{Ordering}
use Prim.Native.String.{compare as compare_text, ◌++◌ as append}
use jaynshare.Prelude.{
  ℕ, String, ◌+◌, Bool, true, false, not, ◌&&◌, ◌||◌, List, [], ◌∷◌, Option, none, some, Result, ok,
  err, ◌==◌, nat_eq, string_eq, if◌then◌else◌, any, filter, filter_map, head, map, map_some,
  and_then, or, is_none, is_some, is_some_and, unwrap_or, leb, ltb, nat_order, bool_order,
  option_order, leb_pair,
}
use jaynshare.Time.{Instant, seconds}
use jaynshare.External.{External, Uuid}
use jaynshare.HashMap
use jaynshare.Quota.{Bucket, Kind, State, state, session, weekly, effective_utilization, named}
use jaynshare.Account.{Account, Provider, anthropic, codex, kind}
use jaynshare.Ramp.{RampSettings, start, start_ramp}
use jaynshare.Sessions.{SessionKey, binding, bind}
use jaynshare.Selection.{
  RequestFacts, default_facts, Choice, Nobody, Cause, NoService, all_held_or_over_threshold,
  by_ranking, by_revalidation,
}
use jaynshare.Selection.Bars.{SelectionSettings}
use jaynshare.Selection.Pass
use jaynshare.Selection.Pass.{Snapshot}
use jaynshare.Pool.{Pool, get, accounts_of, default_account, family_for, predict}
use jaynshare.Pool.Bookkeeping.{change_admission, throttle_hold_end}
use jaynshare.Pool.Operating.{QuotaSettings, move_default}

abbrev pub is_exhausted : State → Bool
is_exhausted State.exhausted = true
is_exhausted _ = false

abbrev pub is_by_ranking : Cause → Bool
is_by_ranking by_ranking = true
is_by_ranking _ = false

abbrev pub is_all_held : NoService → Bool
is_all_held all_held_or_over_threshold = true
is_all_held _ = false

-- `a.cmp(b) != Greater`
abbrev pub text_le : String → String → Bool
text_le a b = elim (compare_text a b) [ Ordering.gt ↦ false | _ ↦ true ]

-- The last of several greatest ages.
abbrev pub Age : Type 0
Age = Bool × Option Instant

abbrev pub greatest : List Age → Option Age
greatest [] = none
greatest (a ∷ l) = elim (greatest l) [
  | none ↦ some a
  | some b ↦ some (if leb_pair a b then b else a)
]

module _ ⦃x : External⦄ where
  open x use {F64, neg_infinity, f64_max, total_le, uuid_text}

  pub record Rank : Type 0 where
    pub utilization : F64
    pub age : Age
    pub reference : String

  -- The buckets that a candidate is ranked by.
  unfoldable pub rank_buckets : Account → Option String → List Bucket
  rank_buckets a family =
      let week = unwrap_or (map_some (λ f. append weekly (append ":" f)) family) weekly in
      filter
        (λ b. elim (kind a) [
          | Kind.oauth ↦ named session b || named week b
          | Kind.api_key ↦ is_some b.limit
        ])
        a.quota

  -- `fold(f64::NEG_INFINITY, f64::max)`
  abbrev pub max_from : F64 → List F64 → F64
  max_from most [] = most
  max_from most (u ∷ us) = max_from (f64_max most u) us

  unfoldable pub candidate_rank : Account → Option String → Rank
  candidate_rank a family =
      let governed = rank_buckets a family in
      record {
        utilization = max_from neg_infinity (filter_map effective_utilization governed);
        age =
            unwrap_or
              (greatest (map (λ (b : Bucket). (is_none b.observed_at, b.observed_at)) governed))
              (true, none);
        reference = uuid_text (unwrap_or a.profile.account_uuid a.handle);
      }

  -- `util.total_cmp().then(age.cmp()).then(ref.cmp())` is not greater.
  unfoldable pub rank_le : Rank → Rank → Bool
  rank_le r s =
      if not (total_le r.utilization s.utilization)
      then false
      else if not (total_le s.utilization r.utilization)
      then true
      else if not (leb_pair r.age s.age)
      then false
      else if not (leb_pair s.age r.age)
      then true
      else text_le r.reference s.reference

  -- `min_by`: the first of several least ones.
  unfoldable pub least_ranked : Option String → Account → List Account → Account
  least_ranked family best [] = best
  least_ranked family best (a ∷ l) =
      least_ranked family
        (if rank_le (candidate_rank best family) (candidate_rank a family) then best else a) l

  unfoldable pub revalidation_ready : Pool → Account → QuotaSettings → Instant → Bool
  revalidation_ready p a settings now =
      let is_held =
        is_some (throttle_hold_end p a.handle now)
        || any (λ b. is_exhausted (state b now)) a.quota
        || is_some_and
            (and_then a.profile.organization_uuid (λ o. HashMap.get p.organisation_quota o))
            (λ b. is_exhausted (state b now)) in
      not is_held
      || is_some_and (and_then (HashMap.get p.admission a.handle) (λ m. m.last_429))
          (λ t. leb (t + seconds settings.revalidation_floor_seconds) now)

  unfoldable pub revalidation_allowed : Pool → Uuid → QuotaSettings → Instant → Bool
  revalidation_allowed p handle settings now =
      (is_none p.next_revalidation || is_some_and p.next_revalidation (λ t. leb t now))
      && is_some_and (get p handle) (λ a. revalidation_ready p a settings now)

  -- The pool, and the account to challenge.
  unfoldable pub offer_revalidation :
      Pool → Nobody → Option String → QuotaSettings → Instant → Pool × Option Uuid
  offer_revalidation p nobody model settings now =
      if is_some_and p.next_revalidation (λ t. ltb now t)
      then (p, none)
      else elim (filter (λ a. revalidation_ready p a settings now)
          (filter_map (get p) nobody.revalidation_pool)) [
            | [] ↦ (p, none)
            | a ∷ l ↦ (
              record p {
                next_revalidation = some (now + seconds settings.revalidation_interval_seconds);
              },
              some (least_ranked (family_for p model) a l).handle,
            )
          ]

  -- `Pool::start_ramp`, which leaves no admission behind where ramps are off.
  unfoldable pub ramp_default : Pool → Uuid → RampSettings → Instant → Pool
  ramp_default p handle settings now =
      if is_none (start settings now)
      then p
      else change_admission handle (start_ramp settings now) p

  -- The default moves to the winner of a ranking, if it was barred for a cause of its own or there
  -- was none.
  unfoldable pub follow_ranking : Pool → Provider → Choice → RampSettings → Instant → Pool
  follow_ranking p provider c ramp now =
      if is_by_ranking c.cause
        && (is_none (default_account p provider) || is_some c.default_moved_from)
      then ramp_default (move_default p provider (some c.handle) now) c.handle ramp now
      else p

  unfoldable pub bind_choice : Pool → Option SessionKey → Choice → Pool
  bind_choice p none c = p
  bind_choice p (some key) c =
      if c.binds then record p { sessions = (bind p.sessions key c.handle).0 } else p

  -- The answer when the ordinary rules yield nobody.
  unfoldable pub challenge :
      Pool → RequestFacts → Nobody → QuotaSettings → Instant → Pool × Result {0, 0} Choice Nobody
  challenge p facts nobody quota now =
      if is_all_held nobody.reason && is_none facts.pin && is_none facts.binding
      then (let offered = offer_revalidation p nobody facts.model quota now in
          elim offered.1 [
            | none ↦ (offered.0, err nobody)
            | some handle ↦ (
              offered.0,
              ok (record {
                handle = handle;
                cause = by_revalidation;
                default_moved_from = none;
                default_moved_cause = none;
                binds = false;
                advisor_fallback = false;
              }),
            )
          ])
      else (p, err nobody)

  -- The facts, with what the session store knows.
  abbrev pub with_session : Pool → RequestFacts → Option SessionKey → RequestFacts
  with_session p facts key = record facts {
    session = is_some key;
    binding = and_then key (binding p.sessions);
  }

  -- `Pool::select`
  unfoldable pub select :
      Pool
      → RequestFacts
      → Option SessionKey
      → QuotaSettings
      → SelectionSettings
      → Instant
      → Pool × Result {0, 0} Choice Nobody
  select p facts key quota settings now =
      let known = with_session p facts key in
      let answer = predict p known settings now in
      elim answer.1 [
        | ok c ↦
            (bind_choice (follow_ranking answer.0 known.provider c settings.ramp now) key c, ok c)
        | err nobody ↦ challenge answer.0 known nobody quota now
      ]

  -- The snapshot that the startup ranks.
  unfoldable pub startup_snapshot : Pool → Provider → Instant → Snapshot
  startup_snapshot p provider now = record {
    accounts = accounts_of p provider;
    default = none;
    route_preferences = [];
    active_sessions = [];
    in_flight = [];
    families = [];
    organisation_holds = [];
    now = now;
  }

  unfoldable pub initial_choice : Pool → Provider → SelectionSettings → Instant → Option Uuid
  initial_choice p provider settings now =
      let ranked : Option Uuid =
        elim (Pass.select (record default_facts { provider = provider })
          (startup_snapshot p provider now) settings) [
            | ok c ↦ some c.handle
            | err nobody ↦ none
          ] in
      or ranked (map_some (λ (a : Account). a.handle) (head (accounts_of p provider)))

  unfoldable pub initial_default : Pool → Provider → SelectionSettings → Instant → Pool
  initial_default p provider settings now =
      move_default p provider (initial_choice p provider settings now) now

  -- The loop over `Provider::ALL`.
  unfoldable pub choose_initial_default : Pool → SelectionSettings → Instant → Pool
  choose_initial_default p settings now =
      initial_default (initial_default p anthropic settings now) codex settings now
