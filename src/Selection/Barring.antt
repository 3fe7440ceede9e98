-- ===== src/Selection/Barring.antt =====
-- What `quota_bar` of src/pool/selection.rs lets through.
use jaynshare.Prelude.{
  String, ◌≡◌, ◌≢◌, ◌↔◌, ◌⊎◌, inl, refl, Bool, true, false, List, [], ◌∷◌, Option, none, ok, arith,
  All, is_some_and,
}
use jaynshare.Time.{Instant}
use jaynshare.External.{External}
use jaynshare.Quota.{Bucket, State, state, effective_utilization}
use jaynshare.Account.{Account, is_usable}
use jaynshare.Selection.Bars.{
  SelectionSettings, bucket_bar, first_bar, quota_bar, governing_buckets,
}

module _ ⦃x : External⦄ where
  open x use {f64_le}

  -- The bucket neither is exhausted nor, for an attempt that is not bound, at or over the threshold.
  abbrev pub Clear : SelectionSettings → Instant → Bool → Bucket → Type 0
  Clear settings now bound b =
      (state b now ≢ State.exhausted)
      × ((bound ≡ true)
          ⊎ (is_some_and (effective_utilization b) (λ u. f64_le settings.switch_threshold u)
              ≡ false))

  bucket_bar-Clear :
      (settings : SelectionSettings) (now : Instant) (bound : Bool) (b : Bucket)
      → (bucket_bar settings now bound b ≡ none) ↔ Clear settings now bound b
  unfolding bucket_bar
  bucket_bar-Clear settings now bound b = ground arith

  first_bar-Clear :
      (settings : SelectionSettings) (now : Instant) (bound : Bool) (bs : List Bucket)
      → (first_bar settings now bound bs ≡ ok tt) ↔ All (Clear settings now bound) bs
  unfolding first_bar
  first_bar-Clear settings now bound [] = (λ h. tt, λ h. refl)
  first_bar-Clear settings now bound (b ∷ bs) =
      ground (arith, bucket_bar-Clear settings now bound b, first_bar-Clear settings now bound bs)

  -- `quota_bar` lets an account through exactly when it is enabled and not errored, no organisation
  -- spend-cap hold is given, and every governing bucket is not exhausted and, for an attempt that
  -- is not bound, not at or over the switch threshold.
  pub quota_bar_ok :
      (a : Account) (settings : SelectionSettings) (now : Instant) (bound : Bool)
      (fam override : Option String) (org_hold : Option Instant)
      → (quota_bar a settings now bound fam override org_hold ≡ ok tt) ↔ (
          (is_usable a ≡ true)
          × (org_hold ≡ none)
          × All (Clear settings now bound) (governing_buckets a fam override))
  unfolding quota_bar is_usable
  quota_bar_ok a settings now bound fam override org_hold =
      ground (arith, first_bar-Clear settings now bound (governing_buckets a fam override))

  relaxed :
      (settings : SelectionSettings) (now : Instant) (bs : List Bucket)
      → All (Clear settings now false) bs
      → All (Clear settings now true) bs
  relaxed settings now [] h = tt
  relaxed settings now (b ∷ bs) h = ((h.0.0, inl refl), relaxed settings now bs h.1)

  -- Whatever an attempt of its own may use, a bound session may use too.
  pub quota_bar_bound :
      (a : Account) (settings : SelectionSettings) (now : Instant) (fam override : Option String)
      (org_hold : Option Instant)
      → quota_bar a settings now false fam override org_hold ≡ ok tt
      → quota_bar a settings now true fam override org_hold ≡ ok tt
  quota_bar_bound a settings now fam override org_hold h =
      let clear = (quota_bar_ok a settings now false fam override org_hold).0 h in
      (quota_bar_ok a settings now true fam override org_hold).1
        (clear.0, clear.1, relaxed settings now (governing_buckets a fam override) clear.2)
