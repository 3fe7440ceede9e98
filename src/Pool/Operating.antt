-- ===== src/Pool/Operating.antt =====
-- src/pool/operator.rs with `resolve` of src/pool/mod.rs and the revalidation gate of
-- src/pool/holds.rs: the operator's references and choices, and the release of a waiting attempt.
use jaynshare.Prelude.{
  ℕ, String, ◌+◌, ◌≡◌, ◌<◌, refl, sym, subst, Bool, true, false, not, ◌||◌, List, [], ◌∷◌, Option,
  none, some, Result, ok, err, ◌==◌, nat_eq, string_eq, any, filter, map, map_some, and_then,
  keep_if, if◌then◌else◌, ltb, is_some_and, is_none, arith, In, In-filter, filter-In, Bool-cases,
  inl, inr,
}
use jaynshare.Time.{Instant, seconds}
use jaynshare.External.{External, Uuid}
use jaynshare.HashMap
use jaynshare.HashMap.Laws.{get-insert}
use jaynshare.Account.{Account, Provider, provider_eq, references}
use jaynshare.Selection.{Route}
use jaynshare.Pool.{Pool, DefaultAccount, get, accounts_of, default_account}
use jaynshare.Pool.Bookkeeping.{throttle_hold_end}

pub data Resolve : Type 0 where
  not_found : Resolve
  ambiguous : List (String × Provider) → Resolve

pub data RouteRefusal : Type 0 where
  not_listed : RouteRefusal

-- src/config/mod.rs
pub record QuotaSettings : Type 0 where
  pub probe_enabled : Bool
  pub probe_interval_seconds : ℕ
  pub probe_deadline_seconds : ℕ
  pub revalidation_floor_seconds : ℕ
  pub revalidation_interval_seconds : ℕ

module _ ⦃x : External⦄ where
  -- The last step of `resolve_among`, on the matches.
  unfoldable pub one_of : List Account → Result {0, 0} Account Resolve
  one_of [] = err not_found
  one_of (a ∷ []) = ok a
  one_of (a ∷ b ∷ more) =
      err (ambiguous (map (λ (c : Account). (c.display_name, c.provider)) (a ∷ b ∷ more)))

  unfoldable pub resolve_among : List Account → String → Result {0, 0} Account Resolve
  resolve_among accounts reference = one_of (filter (λ a. references a reference) accounts)

  unfoldable pub resolve : Pool → String → Result {0, 0} Account Resolve
  resolve p reference = resolve_among p.accounts reference

  unfoldable pub resolve_in : Pool → Provider → String → Result {0, 0} Account Resolve
  resolve_in p provider reference = resolve_among (accounts_of p provider) reference

  -- The pool, and the default before.
  unfoldable pub set_default : Pool → Provider → Uuid → Bool → Instant → Pool × Option Uuid
  set_default p provider handle chosen now =
      let previous = HashMap.get p.operator.defaults provider in
      let since : Instant = elim (keep_if (λ (d : DefaultAccount). d.handle == handle) previous) [
        | none ↦ now
        | some d ↦ d.since
      ] in
      let default : DefaultAccount = record { handle = handle; chosen = chosen; since = since } in
      (
        record p {
          operator = record p.operator {
            defaults = HashMap.insert p.operator.defaults provider default;
          };
        },
        map_some (λ d. d.handle) previous,
      )

  unfoldable pub switch_default : Pool → Uuid → Instant → Pool × Option Uuid
  switch_default p handle now = elim (get p handle) [
    | none ↦ (p, none)
    | some a ↦ set_default p a.provider handle true now
  ]

  unfoldable pub move_default : Pool → Provider → Option Uuid → Instant → Pool
  move_default p provider (some handle) now = (set_default p provider handle false now).0
  move_default p provider none now = record p {
    operator = record p.operator { defaults = HashMap.remove p.operator.defaults provider };
  }

  unfoldable pub set_route_preference : Pool → Route → Uuid → Pool × Result {0, 0} Unit RouteRefusal
  set_route_preference p route handle =
      let listed : Bool = elim route.accounts [
        | none ↦ true
        | some list ↦ elim (get p handle) [ some a ↦ any (references a) list | none ↦ false ]
      ] in
      if not listed then (p, err not_listed) else (
        record p {
          operator = record p.operator {
            route_preferences = HashMap.insert p.operator.route_preferences route.name handle;
          };
        },
        ok tt,
      )

  -- The pool, and the preference that is dropped.
  unfoldable pub clear_route_preference : Pool → String → Pool × Option Uuid
  clear_route_preference p route = (
    record p {
      operator = record p.operator {
        route_preferences = HashMap.remove p.operator.route_preferences route;
      };
    },
    HashMap.get p.operator.route_preferences route,
  )

  -- The pool, and whether a waiting attempt is released.
  unfoldable pub release_waiting_revalidation : Pool → Uuid → QuotaSettings → Instant → Pool × Bool
  release_waiting_revalidation p handle settings now =
      let within_floor =
        is_some_and (and_then (HashMap.get p.admission handle) (λ m. m.last_429))
          (λ t. ltb now (t + seconds settings.revalidation_floor_seconds)) in
      if is_some_and p.next_revalidation (λ t. ltb now t)
        || is_none (throttle_hold_end p handle now)
      then (p, false)
      else if within_floor
      then (p, false)
      else (
        record p {
          next_revalidation = some (now + seconds settings.revalidation_interval_seconds);
        },
        true,
      )

  one_of-ok : (l : List Account) (a : Account) → one_of l ≡ ok a → l ≡ a ∷ []
  unfolding one_of
  one_of-ok [] a e = cc
  one_of-ok (b ∷ []) a e = cc
  one_of-ok (b ∷ c ∷ more) a e = cc

  -- A reference resolves to an account only if it is the pool's, goes by that reference, and every
  -- account of the pool that does is that account.
  pub resolve_only :
      (p : Pool) (reference : String) (a : Account)
      → resolve p reference ≡ ok a
      → In a p.accounts
        × (references a reference ≡ true)
        × ((b : Account) → In b p.accounts → references b reference ≡ true → b ≡ a)
  unfolding resolve resolve_among
  resolve_only p reference a e =
      let matches = one_of-ok (filter (λ b. references b reference) p.accounts) a e in
      let (m, matched) =
        In-filter (λ b. references b reference) p.accounts a
          (subst (In a) (sym matches) (inl refl)) in
      (
        m,
        matched,
        λ b mb fits.
            elim (subst (In b) matches
              (filter-In (λ c. references c reference) p.accounts b mb fits)) [
                | inl same ↦ same
                | inr nowhere ↦ elim nowhere [ ]
              ],
      )

  -- Setting the default of a provider makes the account its default, leaves the other providers'
  -- alone, and reports the default before.
  pub set_default-default_account :
      (p : Pool) (provider other : Provider) (handle : Uuid) (chosen : Bool) (now : Instant)
      → (default_account (set_default p provider handle chosen now).0 other
          ≡ (if provider == other then some handle else default_account p other))
        × ((set_default p provider handle chosen now).1 ≡ default_account p provider)
  unfolding set_default default_account
  set_default-default_account p provider other handle chosen now = (
    rw (get-insert p.operator.defaults provider other _)
        (elim (Bool-cases (provider == other)) [ inl e ↦ rw e refl | inr e ↦ rw e refl ]),
    refl,
  )

  -- Once a waiting attempt is released as the revalidation, no waiting attempt on any account is,
  -- under any settings, until the interval that was in force at the release has passed.
  pub released_once :
      (p : Pool) (handle other : Uuid) (settings later_settings : QuotaSettings)
      (now later : Instant)
      → (release_waiting_revalidation p handle settings now).1 ≡ true
      → later < now + seconds settings.revalidation_interval_seconds
      → (release_waiting_revalidation
          (release_waiting_revalidation p handle settings now).0
          other
          later_settings
          later).1
        ≡ false
  unfolding release_waiting_revalidation
  released_once p handle other settings later_settings now later e h = ground arith
