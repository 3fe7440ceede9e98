-- ===== src/Quota.antt =====
-- src/pool/quota.rs: quota buckets, the observations that update them, the classification of a 429
-- and the hold arithmetic. Times are instants, utilisations `f64`.
pub mod Expiry
pub mod Holds
pub mod Observing
pub mod Classifying
mod Tests
use Prim.Native.Char.{code}
use Prim.Native.String
use jaynshare.Prelude.{
  ℕ, String, ◌+◌, Bool, true, false, ◌&&◌, ◌||◌, Option, none, some, List, [], ◌∷◌, ◌==◌, string_eq,
  nat_eq, ltb, leb, if◌then◌else◌, find, any, is_some_and, unwrap_or, or, and_then, min, max, map,
  is_empty, is_none, is_some,
}
use jaynshare.External.{External}
use jaynshare.Time.{Instant, seconds, running}

-- The text operations under other names than the lists'.
abbrev pub concat : String → String → String
concat = String.◌++◌

abbrev pub strip_prefix : String → String → Option String
strip_prefix String.[] s = some s
strip_prefix (String.◌∷◌ c p) String.[] = none
strip_prefix (String.◌∷◌ c p) (String.◌∷◌ d s) =
    let rest = strip_prefix p s in if code c == code d then rest else none

abbrev pub session : String
session = "session"

abbrev pub weekly : String
weekly = "weekly"

abbrev pub spend_cap : String
spend_cap = "spend-cap"

abbrev pub api_key_buckets : List String
api_key_buckets = "requests" ∷ "tokens" ∷ "input-tokens" ∷ "output-tokens" ∷ []

abbrev pub family_fable : String
family_fable = "fable"

abbrev pub family_sonnet : String
family_sonnet = "sonnet"

-- `format!("{WEEKLY}:{f}")`
unfoldable pub weekly_of : String → String
weekly_of f = concat "weekly:" f

unfoldable pub is_bucket_name : String → Bool
is_bucket_name name =
    name == session
    || name == weekly
    || name == spend_cap
    || any (λ b. b == name) api_key_buckets
    || is_some_and (strip_prefix "weekly:" name) (λ f. f == family_fable || f == family_sonnet)

pub data Kind : Type 0 where
  oauth api_key : Kind

pub data Scope : Type 0 where
  account organisation family : Scope

pub data Source : Type 0 where
  response_headers usage revalidation : Source

pub data State : Type 0 where
  unknown available exhausted : State

-- What one 429 is.
pub data Classification : Type 0 where
  exhaustion : List String → Classification
  throttle : Classification

module _ ⦃x : External⦄ where
  open x use {F64, zero_f64, one_f64, f64_lt, f64_le, f64_eq, f64_sub, f64_div, is_finite}

  pub record Bucket : Type 0 where
    pub name : String
    pub scope : Scope
    pub utilization : Option F64
    pub status : Option String
    pub limit : Option F64
    pub remaining : Option F64
    pub reset_at : Option Instant
    pub observed_at : Option Instant
    pub source : Option Source
    pub exhaustion_hold_until : Option Instant

  pub record Observation : Type 0 where
    pub name : String
    pub scope : Scope
    pub utilization : Option F64
    pub status : Option String
    pub limit : Option F64
    pub remaining : Option F64
    pub reset_at : Option Instant

  -- `Bucket::unknown`
  abbrev pub unknown_bucket : String → Scope → Bucket
  unknown_bucket name scope = record {
    name = name;
    scope = scope;
    utilization = none;
    status = none;
    limit = none;
    remaining = none;
    reset_at = none;
    observed_at = none;
    source = none;
    exhaustion_hold_until = none;
  }

  unfoldable pub expected_buckets : Kind → List Bucket
  expected_buckets oauth = unknown_bucket session account ∷ unknown_bucket weekly account ∷ []
  expected_buckets api_key = map (λ n. unknown_bucket n account) api_key_buckets

  -- `Bucket::state`
  unfoldable pub state : Bucket → Instant → State
  state b now =
      if is_some_and b.exhaustion_hold_until (λ t. ltb now t)
      then exhausted
      else if is_some b.observed_at
      then available
      else unknown

  -- The share of a counter bucket, where its limit and what remains make sense.
  unfoldable pub counter_utilization : F64 → F64 → Option F64
  counter_utilization limit remaining =
      if f64_lt zero_f64 limit
        && is_finite remaining
        && f64_le zero_f64 remaining
        && f64_le remaining limit
      then some (f64_sub one_f64 (f64_div remaining limit))
      else none

  unfoldable pub effective_utilization : Bucket → Option F64
  effective_utilization b = or b.utilization (
      and_then b.limit
        (λ limit. and_then b.remaining (λ remaining. counter_utilization limit remaining)))

  -- `Bucket::expire`: the bucket after it, and whether it changed.
  unfoldable pub expire_bucket : Bucket → Instant → Bucket × Bool
  expire_bucket b now =
      let reset_passed = is_some_and b.reset_at (λ t. leb t now) in
      let hold_passed =
        is_none b.reset_at && is_some_and b.exhaustion_hold_until (λ t. leb t now) in
      if reset_passed || hold_passed then (unknown_bucket b.name b.scope, true) else (b, false)

  -- `Observation::is_empty`
  unfoldable pub is_empty_observation : Observation → Bool
  is_empty_observation o =
      is_none o.utilization
      && is_none o.status
      && is_none o.limit
      && is_none o.remaining
      && is_none o.reset_at

-- The throttle hold length: `retry-after`, 60 s fallback, 1…300 s.
unfoldable pub throttle_hold_seconds : Option ℕ → ℕ
throttle_hold_seconds retry_after = min (max (unwrap_or retry_after 60) 1) 300

-- The reset-less exhaustion fallback: `retry-after`, 60 s fallback, 1…3600 s.
unfoldable pub exhaustion_fallback_seconds : Option ℕ → ℕ
exhaustion_fallback_seconds retry_after = min (max (unwrap_or retry_after 60) 1) 3600

module _ ⦃x : External⦄ where
  open x use {F64, zero_f64, one_f64, f64_lt, f64_le, f64_eq}

  -- The end of a hold that no reset bounds: the fallback, or a running hold that lasts longer.
  abbrev pub extended_hold : Option Instant → ℕ → Instant
  extended_hold held fallback = elim held [
    | none ↦ fallback
    | some existing ↦ max existing fallback
  ]

  unfoldable pub hold_end : Bucket → Option ℕ → Instant → Instant
  hold_end b retry_after now =
      let fallback = now + seconds (exhaustion_fallback_seconds retry_after) in
      elim (running b.reset_at now) [
        | some reset ↦ reset
        | none ↦ extended_hold (running b.exhaustion_hold_until now) fallback
      ]

  unfoldable pub hold_exhausted : Bucket → Option ℕ → Instant → Bucket
  unfolding hold_end
  hold_exhausted b retry_after now = record b {
    exhaustion_hold_until = some (hold_end b retry_after now);
  }

  unfoldable pub named : String → Bucket → Bool
  named name b = b.name == name

  unfoldable pub observes : String → Observation → Bool
  observes name o = o.name == name

  -- The two tests of `classify`, for one governed bucket.
  unfoldable pub proved_oauth : Option Observation → Option Bucket → Bool
  proved_oauth fresh stored =
      let status = or (and_then fresh (λ o. o.status)) (and_then stored (λ b. b.status)) in
      let util = or (and_then fresh (λ o. o.utilization)) (and_then stored effective_utilization) in
      is_some_and status (λ s. s == "rejected") || is_some_and util (λ u. f64_le one_f64 u)

  unfoldable pub proved_api_key : Option Observation → Option Bucket → Bool
  proved_api_key fresh stored =
      is_some_and (or (and_then fresh (λ o. o.remaining)) (and_then stored (λ b. b.remaining)))
        (λ r. f64_eq r zero_f64)

  unfoldable pub proved : Kind → Option Observation → Option Bucket → Bool
  unfolding proved_oauth proved_api_key
  proved oauth fresh stored = proved_oauth fresh stored
  proved api_key fresh stored = proved_api_key fresh stored

  -- The buckets that can be exhausted by a 429 of a model of the family.
  unfoldable pub governed : Kind → Option String → List String
  governed oauth fam = session ∷ elim fam [ none ↦ weekly | some f ↦ weekly_of f ] ∷ []
  governed api_key fam = api_key_buckets

  -- The loop of `classify`: the governed names that are proved exhausted, in order.
  unfoldable pub exhausted_among : Kind → List Observation → List Bucket → List String → List String
  exhausted_among kind observations buckets [] = []
  exhausted_among kind observations buckets (name ∷ names) =
      let rest = exhausted_among kind observations buckets names in
      if proved kind (find (observes name) observations) (find (named name) buckets)
      then name ∷ rest
      else rest

  unfoldable pub classify : Kind → Option String → List Observation → List Bucket → Classification
  classify kind fam observations buckets =
      let names = exhausted_among kind observations buckets (governed kind fam) in
      if is_empty names then throttle else exhaustion names

  -- The body of the loop of `apply`, on the bucket that the observation names.
  unfoldable pub observe : Observation → Source → Instant → Bucket → Bucket
  observe o source now b =
      if is_some_and b.observed_at (λ t. ltb now t)
      then b
      else let replenished_now =
          any (λ n. n == o.name) api_key_buckets && is_some_and o.reset_at (λ t. leb t now) in
        let updated = record b {
          observed_at = some now;
          source = some source;
          utilization = or o.utilization b.utilization;
          status = or o.status b.status;
          limit = or o.limit b.limit;
          remaining = or o.remaining b.remaining;
          reset_at = if replenished_now then none else or o.reset_at b.reset_at;
        } in
        if is_some_and (effective_utilization updated) (λ u. f64_lt u one_f64)
        then record updated { exhaustion_hold_until = none }
        else updated

  -- The first bucket of the name changed by `f`; a fresh one is pushed where none has it.
  unfoldable pub change_named : String → Scope → (Bucket → Bucket) → List Bucket → List Bucket
  change_named name scope f [] = f (unknown_bucket name scope) ∷ []
  change_named name scope f (b ∷ bs) =
      if named name b then f b ∷ bs else b ∷ change_named name scope f bs

  unfoldable pub apply : List Bucket → List Observation → Source → Instant → List Bucket
  apply buckets [] source now = buckets
  apply buckets (o ∷ os) source now =
      apply (change_named o.name o.scope (observe o source now) buckets) os source now

  -- `expire`: the buckets after it, and whether any changed.
  unfoldable pub expire : List Bucket → Instant → List Bucket × Bool
  expire [] now = ([], false)
  expire (b ∷ bs) now =
      let (b', changed) = expire_bucket b now in
      let (bs', more) = expire bs now in (b' ∷ bs', changed || more)
