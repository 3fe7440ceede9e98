-- ===== src/Selection.antt =====
-- src/pool/selection.rs with the settings of src/config/mod.rs: the facts, the answers, the bars on one
-- account and the models' routes. The passes over a snapshot are in Selection/Pass.
pub mod Glob
pub mod Bars
pub mod Pass
pub mod Barring
pub mod Rules
pub mod Serving
pub mod Completeness
pub mod Answers
pub mod Ranking
mod Tests
use jaynshare.Prelude.{
  ℕ, String, Bool, true, false, not, ◌&&◌, ◌||◌, List, [], ◌∷◌, Option, none, some, Result, ok, err,
  ◌==◌, string_eq, if◌then◌else◌, is_some, is_some_and, is_none, any, all, find, filter, unwrap_or,
  and_then, or, ℤ, pos, keep_if, head, leb, map_some, find_map, is_empty, map,
}
use Prim.Native.Char.{code}
use jaynshare.Time.{Instant}
use jaynshare.External.{External, Uuid}
use jaynshare.HashMap
use jaynshare.HashMap.{HashMap}
use jaynshare.Ramp.{RampSettings}
use jaynshare.Quota.{
  Kind, Bucket, State, state, effective_utilization, named, session, weekly, weekly_of,
}
use jaynshare.Account.{Account, Provider, kind, references}

pub record Priority : Type 0 where
  pub account : String
  pub value : ℤ

pub record Route : Type 0 where
  pub name : String
  pub patterns : List String
  pub accounts : Option (List String)
  pub bucket : Option String

pub record RequestFacts : Type 0 where
  pub provider : Provider
  pub model : Option String
  pub advisor_model : Option String
  pub exclusion : List Uuid
  pub pin : Option Uuid
  pub preference : Option Uuid
  pub session : Bool
  pub binding : Option Uuid

-- `RequestFacts::default`
abbrev pub default_facts : RequestFacts
default_facts = record {
  provider = Provider.anthropic;
  model = none;
  advisor_model = none;
  exclusion = [];
  pin = none;
  preference = none;
  session = false;
  binding = none;
}

-- The rule that produced an answer.
pub data Cause : Type 0 where
  by_pin by_preference by_route_preference by_session by_default by_ranking : Cause
  by_revalidation : Cause

-- Why nobody serves.
pub data NoService : Type 0 where
  no_account_configured all_disabled_or_errored all_held_or_over_threshold : NoService
  pinned_unavailable route_exhausted all_tried : NoService

-- Why one account is ineligible now.
pub data Ineligible : Type 0 where
  disabled errored held over_threshold : Ineligible

-- Why the default moved.
pub data MoveCause : Type 0 where
  disabled errored held over_threshold removed : MoveCause

pub record Choice : Type 0 where
  pub handle : Uuid
  pub cause : Cause
  pub default_moved_from : Option Uuid
  pub default_moved_cause : Option MoveCause
  pub binds : Bool
  pub advisor_fallback : Bool

pub record Nobody : Type 0 where
  pub reason : NoService
  pub retry_at : Option Instant
  pub named_account : Option Uuid
  pub revalidation_pool : List Uuid
  pub clears : Bool

-- The bars on one account, with the hold end or reset behind the bar.
pub data Bar : Type 0 where
  disabled errored : Bar
  held over_threshold : Option Instant → Bar

-- `From<Bar> for Ineligible`, `From<Ineligible> for MoveCause`
unfoldable pub ineligible_of : Bar → Ineligible
ineligible_of Bar.disabled = Ineligible.disabled
ineligible_of Bar.errored = Ineligible.errored
ineligible_of (Bar.held at) = Ineligible.held
ineligible_of (Bar.over_threshold at) = Ineligible.over_threshold

unfoldable pub move_cause_of : Ineligible → MoveCause
move_cause_of Ineligible.disabled = MoveCause.disabled
move_cause_of Ineligible.errored = MoveCause.errored
move_cause_of Ineligible.held = MoveCause.held
move_cause_of Ineligible.over_threshold = MoveCause.over_threshold
