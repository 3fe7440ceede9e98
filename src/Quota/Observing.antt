-- ===== src/Quota/Observing.antt =====
-- `apply` of src/pool/quota.rs: what observations do to the buckets, name by name.
use jaynshare.Prelude.{
  String, ◌≡◌, refl, ◌<◌, true, false, List, [], ◌∷◌, Option, some, arith, All, find, ◌==◌,
  string_eq, if◌then◌else◌, unwrap_or, any, ◌∙◌, ap, Bool-cases, inl, inr,
}
use jaynshare.External.{External}
use jaynshare.Time.{Instant, After}
use jaynshare.Quota.Expiry.{IsCurrent, expire_current}
use jaynshare.Quota.{
  Bucket, Observation, Scope, Source, unknown_bucket, observe, named, change_named, apply, expire,
  api_key_buckets,
}

module _ ⦃x : External⦄ where
  observe-name :
      (o : Observation) (source : Source) (now : Instant) (b : Bucket)
      → (observe o source now b).name ≡ b.name
  unfolding observe
  observe-name o source now b = ground arith

  find-change_named :
      (name k : String) (scope : Scope) (f : Bucket → Bucket) (bs : List Bucket)
      → ((b : Bucket) → (f b).name ≡ b.name)
      → find (named k) (change_named name scope f bs) ≡ (
          if name == k
          then some (f (unwrap_or (find (named name) bs) (unknown_bucket name scope)))
          else find (named k) bs)
  unfolding change_named named
  find-change_named name k scope f [] keep =
      ground (arith, keep (unknown_bucket name scope), string_eq.same_iff name k)
  find-change_named name k scope f (b ∷ bs) keep = ground (
    arith,
    keep b,
    string_eq.same_iff b.name name,
    string_eq.same_iff b.name k,
    string_eq.same_iff name k,
    find-change_named name k scope f bs keep,
  )

  -- The observations of one name, on the bucket of that name: the reference that `apply` meets.
  pub observe_all : String → List Observation → Source → Instant → Option Bucket → Option Bucket
  observe_all k [] source now b = b
  observe_all k (o ∷ os) source now b = observe_all k os source now (
      if o.name == k
      then some (observe o source now (unwrap_or b (unknown_bucket o.name o.scope)))
      else b)

  find-observed :
      (k : String) (o : Observation) (source : Source) (now : Instant) (bs : List Bucket)
      → find (named k) (change_named o.name o.scope (observe o source now) bs) ≡ (
          if o.name == k
          then some
              (observe o source now (unwrap_or (find (named k) bs) (unknown_bucket o.name o.scope)))
          else find (named k) bs)
  find-observed k o source now bs = ground (
    arith,
    string_eq.same_iff o.name k,
    find-change_named o.name k o.scope (observe o source now) bs (observe-name o source now),
  )

  -- `apply` works on each bucket name by itself: the bucket of a name afterwards is the one before,
  -- or a fresh one, changed in order by just the observations of that name.
  pub find-apply :
      (k : String) (bs : List Bucket) (os : List Observation) (source : Source) (now : Instant)
      → find (named k) (apply bs os source now) ≡ observe_all k os source now (find (named k) bs)
  unfolding apply observe_all
  find-apply k bs [] source now = refl
  find-apply k bs (o ∷ os) source now =
      find-apply k (change_named o.name o.scope (observe o source now) bs) os source now
      ∙ ap (observe_all k os source now) (find-observed k o source now bs)

  observe_all_older :
      (k : String) (os : List Observation) (source : Source) (now t : Instant) (b : Bucket)
      → b.observed_at ≡ some t
      → now < t
      → observe_all k os source now (some b) ≡ some b
  unfolding observe_all observe
  observe_all_older k [] source now t b seen h = refl
  observe_all_older k (o ∷ os) source now t b seen h =
      ground (arith, observe_all_older k os source now t b seen h)

  -- A bucket observed after now is left as it is by observations made now.
  pub apply_older :
      (k : String) (bs : List Bucket) (os : List Observation) (source : Source) (now t : Instant)
      (b : Bucket)
      → find (named k) bs ≡ some b
      → b.observed_at ≡ some t
      → now < t
      → find (named k) (apply bs os source now) ≡ some b
  apply_older k bs os source now t b e seen h =
      rw (find-apply k bs os source now, e) (observe_all_older k os source now t b seen h)

  -- Neither a reset nor a hold of the bucket has run out.
  abbrev pub IsAhead : Instant → Bucket → Type 0
  IsAhead now b = After now b.reset_at × After now b.exhaustion_hold_until

  observe-IsAhead :
      (o : Observation) (source : Source) (now : Instant) (b : Bucket)
      → any (λ n. n == o.name) api_key_buckets ≡ true
      → IsAhead now b
      → IsAhead now (observe o source now b)
  unfolding observe
  observe-IsAhead o source now b api h = ground arith

  change_named-IsAhead :
      (o : Observation) (source : Source) (now : Instant) (bs : List Bucket)
      → any (λ n. n == o.name) api_key_buckets ≡ true
      → All (IsAhead now) bs
      → All (IsAhead now) (change_named o.name o.scope (observe o source now) bs)
  unfolding change_named
  change_named-IsAhead o source now [] api h =
      (observe-IsAhead o source now (unknown_bucket o.name o.scope) api (tt, tt), tt)
  change_named-IsAhead o source now (b ∷ bs) api h = elim (Bool-cases (named o.name b)) [
    | inl e ↦ rw e (observe-IsAhead o source now b api h.0, h.1)
    | inr e ↦ rw e (h.0, change_named-IsAhead o source now bs api h.1)
  ]

  -- The observation names a bucket of an API-key account.
  abbrev pub IsApiKeyName : Observation → Type 0
  IsApiKeyName o = any (λ n. n == o.name) api_key_buckets ≡ true

  pub apply-IsAhead :
      (bs : List Bucket) (os : List Observation) (source : Source) (now : Instant)
      → All IsApiKeyName os
      → All (IsAhead now) bs
      → All (IsAhead now) (apply bs os source now)
  unfolding apply
  apply-IsAhead bs [] source now api h = h
  apply-IsAhead bs (o ∷ os) source now api h =
      apply-IsAhead (change_named o.name o.scope (observe o source now) bs) os source now api.1
        (change_named-IsAhead o source now bs api.0 h)

  IsAhead-IsCurrent :
      (now : Instant) (bs : List Bucket) → All (IsAhead now) bs → All (IsCurrent now) bs
  IsAhead-IsCurrent now [] h = tt
  IsAhead-IsCurrent now (b ∷ bs) h =
      (record { reset_ahead = h.0.0; hold_ahead = λ _. h.0.1 }, IsAhead-IsCurrent now bs h.1)

  -- The counters of an API-key account survive the response that reports them: an expiry at the
  -- instant of the observation finds nothing to expire, where nothing had run out before.
  pub expire-apply_api_key :
      (bs : List Bucket) (os : List Observation) (source : Source) (now : Instant)
      → All IsApiKeyName os
      → All (IsAhead now) bs
      → expire (apply bs os source now) now ≡ (apply bs os source now, false)
  expire-apply_api_key bs os source now api h =
      expire_current _ now (IsAhead-IsCurrent now _ (apply-IsAhead bs os source now api h))
