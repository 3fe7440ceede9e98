-- ===== src/Pool/Bookkeeping.antt =====
-- The 429 and hold bookkeeping of src/pool/holds.rs. What the provider's code reads in the headers and
-- the body of a response is an argument, and so are the families as the headers taught them.
use jaynshare.Prelude.{
  ℕ, String, ◌+◌, Bool, List, [], ◌∷◌, Option, none, some, ◌==◌, nat_eq, string_eq, if◌then◌else◌,
  max, map, map_some, and_then, unwrap_or, filter_map, min_by_key, nat_order, is_some_and, ltb,
}
use jaynshare.Time.{Instant, seconds, running, option_max}
use jaynshare.External.{External, Uuid}
use jaynshare.HashMap
use jaynshare.Quota.{
  Bucket, Observation, Scope, Source, Classification, unknown_bucket, spend_cap, named, apply,
  classify, hold_exhausted, throttle_hold_seconds, exhaustion_fallback_seconds,
}
use jaynshare.Account.{Account, kind}
use jaynshare.Ramp.{RampSettings, Admission, idle, hold_throttle, clear_throttle_hold}
use jaynshare.Pool.{Pool, get, family_for, organisation_hold}

module _ ⦃x : External⦄ where
  -- What one 429 says: its error is an organisation's spend cap, its quota headers, its `retry-after`.
  pub record Response : Type 0 where
    pub is_spend_cap : Bool
    pub fresh : List Observation
    pub retry_after : Option ℕ

  -- `get_mut(handle)`, changed by `f`.
  unfoldable pub change_account : Uuid → (Account → Account) → List Account → List Account
  change_account handle f [] = []
  change_account handle f (a ∷ others) =
      if a.handle == handle then f a ∷ others else a ∷ change_account handle f others

  unfoldable pub hold_fallback : Bucket → Option ℕ → Instant → Bucket
  hold_fallback b retry_after now =
      let fallback = now + seconds (exhaustion_fallback_seconds retry_after) in
      record b {
        exhaustion_hold_until = some (elim (running b.exhaustion_hold_until now) [
          | some existing ↦ max existing fallback
          | none ↦ fallback
        ]);
      }

  -- The account's own `spend-cap` bucket, pushed where it has none.
  unfoldable pub hold_spend_cap : Option ℕ → Instant → List Bucket → List Bucket
  hold_spend_cap retry_after now [] =
      hold_fallback (unknown_bucket spend_cap Scope.organisation) retry_after now ∷ []
  hold_spend_cap retry_after now (b ∷ bs) =
      if named spend_cap b
      then hold_fallback b retry_after now ∷ bs
      else b ∷ hold_spend_cap retry_after now bs

  -- The loop over the exhausted names: each holds the first bucket of its name.
  unfoldable pub hold_named : Option ℕ → Instant → String → List Bucket → List Bucket
  hold_named retry_after now name [] = []
  hold_named retry_after now name (b ∷ bs) =
      if named name b
      then hold_exhausted b retry_after now ∷ bs
      else b ∷ hold_named retry_after now name bs

  unfoldable pub hold_all : Option ℕ → Instant → List String → List Bucket → List Bucket
  hold_all retry_after now [] bs = bs
  hold_all retry_after now (name ∷ names) bs =
      hold_all retry_after now names (hold_named retry_after now name bs)

  -- `admission.entry(handle).or_default()`, changed by `f`.
  unfoldable pub change_admission : Uuid → (Admission → Admission) → Pool → Pool
  change_admission handle f p = record p { admission = HashMap.update p.admission handle idle f }

  unfoldable pub classified : Pool → Account → Option String → Response → Classification
  classified p a model r =
      if r.is_spend_cap
      then Classification.exhaustion (spend_cap ∷ [])
      else classify (kind a) (family_for p model) r.fresh a.quota

  -- The holds that an exhaustion sets.
  unfoldable pub hold_exhaustion : Uuid → Account → Response → Instant → List String → Pool → Pool
  hold_exhaustion handle a r now names p =
      if r.is_spend_cap
      then elim a.profile.organization_uuid [
        | some organisation ↦ record p {
          organisation_quota =
              HashMap.update p.organisation_quota organisation
                (unknown_bucket spend_cap Scope.organisation)
                (λ b. hold_fallback b r.retry_after now);
        }
        | none ↦ record p {
          accounts =
              change_account handle
                (λ b. record b { quota = hold_spend_cap r.retry_after now b.quota }) p.accounts;
        }
      ]
      else record p {
        accounts =
            change_account handle
              (λ b. record b {
                quota =
                    hold_all r.retry_after now names
                      (apply b.quota r.fresh Source.response_headers now);
              })
              p.accounts;
      }

  unfoldable pub hold_classified :
      Uuid → Account → Response → Instant → Classification → Pool → Pool
  hold_classified handle a r now (Classification.exhaustion names) p =
      hold_exhaustion handle a r now names p
  hold_classified handle a r now Classification.throttle p =
      change_admission handle (hold_throttle (now + seconds (throttle_hold_seconds r.retry_after)))
        p

  -- `record_429`, once `learn_family` has run.
  unfoldable pub record_429 :
      Pool → Uuid → Option String → Response → Instant → Pool × Classification
  record_429 p handle model r now = elim (get p handle) [
    | none ↦ (p, Classification.throttle)
    | some a ↦
        let class = classified p a model r in
        (
          change_admission handle (λ m. record m { last_429 = some now })
              (hold_classified handle a r now class p),
          class,
        )
  ]

  unfoldable pub throttle_hold_end : Pool → Uuid → Instant → Option Instant
  throttle_hold_end p handle now =
      running (and_then (HashMap.get p.admission handle) (λ m. m.throttle_hold_until)) now

  unfoldable pub quota_hold_end : Pool → Uuid → Instant → Option Instant
  quota_hold_end p handle now = and_then (get p handle) (λ a.
      option_max
        (option_max
          (min_by_key (λ (t : Instant). t)
            (filter_map (λ (b : Bucket). running b.exhaustion_hold_until now) a.quota))
          (organisation_hold p a now))
        (throttle_hold_end p handle now))

  -- A bucket whose hold runs is unknown again.
  unfoldable pub forget_held : Instant → Bucket → Bucket
  forget_held now b =
      if is_some_and b.exhaustion_hold_until (λ t. ltb now t)
      then unknown_bucket b.name b.scope
      else b

  unfoldable pub forget_cap : Instant → Bucket → Bucket
  forget_cap now b =
      if is_some_and b.exhaustion_hold_until (λ t. ltb now t)
      then unknown_bucket spend_cap Scope.organisation
      else b

  unfoldable pub clear_holds_after_revalidation : Pool → Uuid → RampSettings → Instant → Pool
  clear_holds_after_revalidation p handle ramp now =
      let organisation = and_then (get p handle) (λ a. a.profile.organization_uuid) in
      let capped = and_then organisation (λ o.
        map_some (λ b. HashMap.insert p.organisation_quota o (forget_cap now b))
          (HashMap.get p.organisation_quota o)) in
      let admission =
        map_some (λ m. HashMap.insert p.admission handle (clear_throttle_hold ramp now m))
          (HashMap.get p.admission handle) in
      record p {
        accounts =
            change_account handle
              (λ (a : Account). record a { quota = map (forget_held now) a.quota }) p.accounts;
        organisation_quota = unwrap_or capped p.organisation_quota;
        admission = unwrap_or admission p.admission;
      }
