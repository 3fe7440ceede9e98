-- ===== src/Pool/Retaining.antt =====
-- The reads and the reload of src/pool/mod.rs and src/pool/operator.rs: the persisted quota of the
-- organisations, and the preferences that a reload keeps. The JSON layer below is a parameter.
mod Reloading
mod Tests
use Prim.Native.Nat.{Ordering}
use Prim.Native.String.{compare as compare_text}
use jaynshare.Prelude.{
  ℕ, String, Bool, true, false, not, List, [], ◌∷◌, Option, none, some, ◌==◌, nat_eq, string_eq,
  if◌then◌else◌, any, filter, map, unwrap_or, leb,
}
use jaynshare.Time.{Instant}
use jaynshare.External.{External, Uuid}
use jaynshare.HashMap
use jaynshare.HashMap.{HashMap}
use jaynshare.Quota.{Bucket, expire_bucket}
use jaynshare.Sessions.{Sessions, reap}
use jaynshare.Selection.{Route}
use jaynshare.Pool.{Pool, Usage}
use jaynshare.Pool.Publishing.{no_usage}

-- The standard library's stable sort: an element goes in front of the first one that is not below it.
module _ {A : Type 0} (le : A → A → Bool) where
  abbrev pub put : A → List A → List A
  put a [] = a ∷ []
  put a (b ∷ l) = let rest = put a l in if le a b then a ∷ b ∷ l else b ∷ rest

  unfoldable pub sort : List A → List A
  sort [] = []
  sort (a ∷ l) = put a (sort l)

-- The order of the pairs of a text and a handle.
abbrev pub preference_le : String × Uuid → String × Uuid → Bool
preference_le (a, h) (b, k) = elim (compare_text a b) [
  | Ordering.lt ↦ true
  | Ordering.eq ↦ leb h k
  | Ordering.gt ↦ false
]

-- What `serde_json` and `uuid` do: `organisation_of` reads the member `organization_uuid` as a text
-- and parses it.
pub record OrganisationJson ⦃x : External⦄ : Type 1 where
  pub Value : Type 0
  pub to_value : Bucket → Value
  pub with_organisation : Value → Uuid → Value
  pub organisation_of : Value → Option Uuid
  pub from_value : Value → Option Bucket

module _ ⦃x : External⦄ where
  open x use {fold}

  unfoldable pub usage : Pool → Uuid → Usage
  usage p handle = unwrap_or (HashMap.get p.usage handle) no_usage

  -- `Pool::sessions`, which reaps first.
  unfoldable pub sessions : Pool → Instant → Pool × Sessions
  sessions p now = let left = reap p.sessions now in (record p { sessions = left }, left)

  unfoldable pub is_configured : List Route → String → Bool
  is_configured routes name = any (λ (r : Route). fold r.name == fold name) routes

  -- The pool, and what was dropped.
  unfoldable pub retain_route_preferences : Pool → List Route → Pool × List (String × Uuid)
  retain_route_preferences p routes = (
    record p {
      operator = record p.operator {
        route_preferences =
            HashMap.retain (λ name account. is_configured routes name) p.operator.route_preferences;
      };
    },
    sort preference_le (
        filter (λ (e : String × Uuid). not (is_configured routes e.0))
          p.operator.route_preferences),
  )

module _ ⦃x : External⦄ (j : OrganisationJson) where
  open j use {Value, to_value, with_organisation, organisation_of, from_value}

  abbrev pub written : Uuid × Bucket → Value
  written (organisation, b) = with_organisation (to_value b) organisation

  unfoldable pub organisation_quota_records : Pool → List Value
  organisation_quota_records p = map written (sort (λ a b. leb a.0 b.0) p.organisation_quota)

  -- One round of the loop over the entries.
  unfoldable pub restore_entry : HashMap Uuid Bucket → Value → HashMap Uuid Bucket
  restore_entry m entry = elim (organisation_of entry) [
    | none ↦ m
    | some organisation ↦ elim (from_value entry) [
      | none ↦ m
      | some b ↦ HashMap.insert m organisation b
    ]
  ]

  unfoldable pub restore_entries : HashMap Uuid Bucket → List Value → HashMap Uuid Bucket
  restore_entries m [] = m
  restore_entries m (entry ∷ entries) = restore_entries (restore_entry m entry) entries

  unfoldable pub restore_organisation_quota : Pool → List Value → Instant → Pool
  restore_organisation_quota p entries now = record p {
    organisation_quota =
        HashMap.map_values (λ b. (expire_bucket b now).0)
          (restore_entries p.organisation_quota entries);
  }
