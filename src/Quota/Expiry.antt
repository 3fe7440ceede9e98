-- ===== src/Quota/Expiry.antt =====
-- `Bucket::expire` and `expire` of src/pool/quota.rs: what is left after an expiry.
use jaynshare.Prelude.{
  ◌≡◌, refl, ◌↔◌, ◌≤◌, false, List, [], ◌∷◌, none, arith, All, map, ap, subst, String,
}
use mathlib.Core.Path.{ap₂}
use jaynshare.External.{External}
use jaynshare.Time.{Instant, After}
use jaynshare.Quota.{Bucket, expire_bucket, expire}

module _ ⦃x : External⦄ where
  -- Nothing of the bucket has run out: its reset is to come, and so is the end of a hold that has no
  -- reset beside it.
  pub record IsCurrent (now : Instant) (b : Bucket) : Type 0 where
    pub reset_ahead : After now b.reset_at
    pub hold_ahead : b.reset_at ≡ none → After now b.exhaustion_hold_until

  expire_bucket-IsCurrent : (b : Bucket) (now : Instant) → IsCurrent now (expire_bucket b now).0
  unfolding expire_bucket
  expire_bucket-IsCurrent b now = record { reset_ahead = ground arith; hold_ahead = ground arith }

  expire_bucket_current :
      (b : Bucket) (now : Instant) → IsCurrent now b → expire_bucket b now ≡ (b, false)
  unfolding expire_bucket
  expire_bucket_current b now h = ground (arith, h.hold_ahead)

  expire_bucket_unchanged :
      (b : Bucket) (now : Instant) → (expire_bucket b now).1 ≡ false → (expire_bucket b now).0 ≡ b
  unfolding expire_bucket
  expire_bucket_unchanged b now h = ground arith

  expire_bucket_later :
      (b : Bucket) (now later : Instant)
      → now ≤ later
      → (expire_bucket (expire_bucket b now).0 later).0 ≡ (expire_bucket b later).0
  unfolding expire_bucket
  expire_bucket_later b now later h = ground arith

  -- After `expire` at `now` no bucket keeps a reset, or a hold without a reset, that is not after
  -- `now`.
  pub expire-IsCurrent : (bs : List Bucket) (now : Instant) → All (IsCurrent now) (expire bs now).0
  unfolding expire
  expire-IsCurrent [] now = tt
  expire-IsCurrent (b ∷ bs) now = (expire_bucket-IsCurrent b now, expire-IsCurrent bs now)

  -- `expire` reports no change exactly when every bucket was current, and then it leaves the buckets
  -- as they are.
  pub expire_current :
      (bs : List Bucket) (now : Instant) → All (IsCurrent now) bs → expire bs now ≡ (bs, false)
  unfolding expire
  expire_current [] now h = refl
  expire_current (b ∷ bs) now h =
      rw (expire_bucket_current b now h.0, expire_current bs now h.1) refl

  pub expire_unchanged :
      (bs : List Bucket) (now : Instant) → (expire bs now).1 ≡ false → (expire bs now).0 ≡ bs
  unfolding expire
  expire_unchanged [] now h = refl
  expire_unchanged (b ∷ bs) now h =
      ground (arith, expire_bucket_unchanged b now, expire_unchanged bs now)

  -- `expire` reports no change exactly when every bucket was current.
  pub expire_flag :
      (bs : List Bucket) (now : Instant) → ((expire bs now).1 ≡ false) ↔ All (IsCurrent now) bs
  expire_flag bs now = (
    λ h. subst (All (IsCurrent now)) (expire_unchanged bs now h) (expire-IsCurrent bs now),
    λ h. ap (λ r. r.1) (expire_current bs now h),
  )

  -- Expiring early loses nothing: an expiry now and one later leave what the later one alone
  -- leaves.
  pub expire_compose :
      (bs : List Bucket) (now later : Instant)
      → now ≤ later
      → (expire (expire bs now).0 later).0 ≡ (expire bs later).0
  unfolding expire
  expire_compose [] now later h = refl
  expire_compose (b ∷ bs) now later h =
      ap₂ ◌∷◌ (expire_bucket_later b now later h) (expire_compose bs now later h)

  pub names : List Bucket → List String
  names bs = map (λ b. b.name) bs

  expire_bucket-name : (b : Bucket) (now : Instant) → (expire_bucket b now).0.name ≡ b.name
  unfolding expire_bucket
  expire_bucket-name b now = ground arith

  pub expire-names : (bs : List Bucket) (now : Instant) → names (expire bs now).0 ≡ names bs
  unfolding expire names
  expire-names [] now = refl
  expire-names (b ∷ bs) now = ap₂ ◌∷◌ (expire_bucket-name b now) (expire-names bs now)
