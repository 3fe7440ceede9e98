-- ===== src/Refresh/Tests.antt =====
-- Runs of src/pool/refresh.rs on one account.
use jaynshare.Prelude.{
  ℕ, ◌≡◌, ◌≢◌, ◌≤◌, ◌<◌, refl, true, [], ◌∷◌, none, some, Result, ok, err, zero, suc, arith,
}
use jaynshare.Scaled.{scaled}
use jaynshare.Time.{seconds}
use jaynshare.Fixtures.{alice, bob, family}
use jaynshare.Account.{Account, OAuthCredential}
use jaynshare.Pool.{Pool, get}
use jaynshare.Pool.Publishing.{Holds}
use jaynshare.Refresh.{
  RefreshFailure, transient, permanent, Trigger, forced, proactive, Outcome, ready, Called,
  call_endpoint, land, start, run, without_refresh,
}
use jaynshare.Refresh.Retrying.{IsTransient, call_endpoint_breaks}
use jaynshare.Refresh.Landing.{land_stale}
use jaynshare.Refresh.Quiet.{land-start_paused}

abbrev live : Pool
live = record {
  accounts = alice ∷ bob ∷ [];
  usage = [];
  sessions = [];
  operator = record { defaults = []; route_preferences = [] };
  organisation_quota = [];
  families = [];
  admission = [];
  next_revalidation = none;
}

-- Alice was removed while the endpoint was called.
abbrev without_alice : Pool
without_alice = record live { accounts = bob ∷ [] }

abbrev fresh : OAuthCredential
fresh = record family { access_token = "next"; expires_at = seconds 5000 }

-- The endpoint answers the second call.
abbrev answer : ℕ → Result {0, 0} OAuthCredential RefreshFailure
answer zero = err (transient "no call")
answer (suc zero) = err (transient "timed out")
answer (suc (suc n)) = ok fresh

alice-Holds : Holds live 1 (some "refresh") alice family
unfolding get
alice-Holds = (refl, refl, refl)

alice_gone :
    (a : Account) (held : OAuthCredential) → ¬ Holds without_alice 1 family.refresh_token a held
unfolding get
alice_gone a held (at, credential, token) = cc

call_endpoint_breaks_example :
    (c : Called) × (call_endpoint 3 answer 1 0 ≡ some c)
    × (c.call ≤ 3)
    × (c.slept_ms ≤ 1500)
    × (c.result ≡ answer c.call)
    × ((k : ℕ) → 1 ≤ k → k < c.call → IsTransient (answer k))
    × (IsTransient c.result → c.call ≡ 3)
call_endpoint_breaks_example = call_endpoint_breaks answer

second_call :
    call_endpoint 3 answer 1 0 ≡ some (record { result = ok fresh; call = 2; slept_ms = 500 })
unfolding call_endpoint jaynshare.Refresh.retried jaynshare.Refresh.retry_delay
second_call = refl

land_stale_example :
    land without_alice true 1 family (ok fresh) (seconds 995) ≡ (without_alice, ready)
land_stale_example = land_stale without_alice true 1 family (ok fresh) (seconds 995) alice_gone

land-start_paused_example :
    (start
      (land live true 1 family (err (transient "timed out")) (seconds 995)).0
      true
      1
      forced
      60
      (seconds 1020)).1
    ≢ ok family
land-start_paused_example =
    land-start_paused live true 1 alice family family family "timed out" forced 60 (seconds 995)
      (seconds 1020) alice-Holds (omega arith)
