-- ===== src/Refresh/Deciding.antt =====
-- When src/pool/refresh.rs calls the token endpoint, and that what it publishes keeps the next attempt
-- from calling again at once.
use jaynshare.Prelude.{ℕ, ◌≡◌, ◌↔◌, refl, true, false, not, ◌&&◌, none, some, arith}
use jaynshare.Time.{Instant}
use jaynshare.External.{External}
use jaynshare.Account.{Account, OAuthCredential, Credential, in_transient_floor}
use jaynshare.Refresh.{Trigger, is_startup, needs_refresh, without_refresh, transient_floor_end}

floor_end :
    (family : OAuthCredential) (now : Instant)
    → transient_floor_end family now ≡ none
    → in_transient_floor family now ≡ false
unfolding in_transient_floor
floor_end family now e = ground arith

module _ ⦃x : External⦄ where
  -- The account's family that an attempt with the trigger has to refresh now.
  abbrev pub IsDue : Account → OAuthCredential → Trigger → ℕ → Instant → Type 0
  IsDue a family trigger margin_seconds now =
      (a.errored ≡ none)
      × (is_startup trigger && not a.enabled ≡ false)
      × (a.credential ≡ Credential.oauth family)
      × (needs_refresh family trigger margin_seconds now ≡ true)
      × (in_transient_floor family now ≡ false)

  IsDue-family :
      (a : Account) (trigger : Trigger) (margin_seconds : ℕ) (now : Instant) (c : Credential)
      → a.credential ≡ c
      → without_refresh (some a) trigger margin_seconds now ≡ none
      → (family : OAuthCredential) × IsDue a family trigger margin_seconds now
  unfolding without_refresh
  IsDue-family a trigger margin_seconds now (Credential.api_key key) is e = ground arith
  IsDue-family a trigger margin_seconds now (Credential.oauth family) is e =
      (family, ground (arith, floor_end family now))

  -- An account needs the token endpoint exactly if it is not errored, is enabled where the trigger
  -- is the startup, and holds a token family that is due and not in its transient floor.
  pub without_refresh-IsDue :
      (a : Account) (trigger : Trigger) (margin_seconds : ℕ) (now : Instant)
      → (without_refresh (some a) trigger margin_seconds now ≡ none)
        ↔ ((family : OAuthCredential) × IsDue a family trigger margin_seconds now)
  unfolding without_refresh
  without_refresh-IsDue a trigger margin_seconds now =
      (IsDue-family a trigger margin_seconds now a.credential refl, λ due. ground arith)
