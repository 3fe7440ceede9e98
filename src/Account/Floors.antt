-- ===== src/Account/Floors.antt =====
-- The refresh floors of src/pool/account.rs: when a fresh token family may be refreshed again.
use jaynshare.Prelude.{ℕ, ◌≡◌, ◌≢◌, ◌↔◌, ◌+◌, ◌≤◌, ◌<◌, true, false, none, some, arith, String}
use jaynshare.Time.{Instant, seconds}
use jaynshare.Account.{
  OAuthCredential, expires_within, is_expired, in_success_floor, in_transient_floor, replaced_by,
}

-- A family installed now is in its success floor for exactly the ten seconds from now, and in no
-- transient floor.
pub replaced_by_floors :
    (old fresh : OAuthCredential) (now t : Instant)
    → ((in_success_floor (replaced_by old fresh now) t ≡ true)
        ↔ ((now ≤ t) × (t < now + seconds 10)))
      × (in_transient_floor (replaced_by old fresh now) t ≡ false)
unfolding replaced_by in_success_floor in_transient_floor
replaced_by_floors old fresh now t =
    ((λ h. (ground arith, ground arith), λ h. ground arith), ground arith)

-- A refresh never loses the refresh token: one that the endpoint leaves out stays the old one, and the
-- rest of the new family is taken over.
pub replaced_by_token :
    (old fresh : OAuthCredential) (now : Instant) {token : String}
    → old.refresh_token ≡ some token
    → ((replaced_by old fresh now).refresh_token ≢ none)
      × ((replaced_by old fresh now).access_token ≡ fresh.access_token)
      × ((replaced_by old fresh now).expires_at ≡ fresh.expires_at)
unfolding replaced_by
replaced_by_token old fresh now e = (λ h. ground arith, ground arith, ground arith)

-- An expired family is within every margin, and once within a margin it stays there: later, and for
-- every wider margin.
pub expires_within_mono :
    (c : OAuthCredential) (m n : ℕ) (now later : Instant)
    → m ≤ n
    → now ≤ later
    → (is_expired c now ≡ true → expires_within c m now ≡ true)
      × (expires_within c m now ≡ true → expires_within c n later ≡ true)
unfolding is_expired expires_within
expires_within_mono c m n now later h k = (λ e. ground arith, λ e. ground arith)
