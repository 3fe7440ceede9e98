-- ===== src/Refresh.antt =====
-- src/pool/refresh.rs: when a token family is refreshed, the calls of the token endpoint and their
-- retries, and the operations in flight. The endpoint's answers are arguments; so is the pool that a
-- result lands on, since no lock is held across the calls, and whether the state file is written.
pub mod Flights
mod Deciding
mod Retrying
mod Landing
mod Quiet
mod Tests
use jaynshare.Prelude.{
  ℕ, String, ◌+◌, Bool, true, false, not, ◌&&◌, ◌||◌, Option, none, some, Result, ok, err, zero,
  suc, if◌then◌else◌, is_some, unwrap_or, map_some, and_then,
}
use Prim.Native.String.{◌++◌}
use jaynshare.Time.{Instant, seconds, milliseconds}
use jaynshare.External.{External, Uuid}
use jaynshare.Account.{
  Account, OAuthCredential, Credential, expires_within, is_expired, in_success_floor,
  in_transient_floor, replaced_by,
}
use jaynshare.Pool.{Pool, get}
use jaynshare.Pool.Publishing.{
  Stale, replace_family, note_refresh_attempt, set_refresh_not_before, mark_refresh_errored,
}

pub data Trigger : Type 0 where
  startup proactive forced : Trigger

abbrev pub is_forced : Trigger → Bool
is_forced forced = true
is_forced _ = false

abbrev pub is_startup : Trigger → Bool
is_startup startup = true
is_startup _ = false

pub data Outcome : Type 0 where
  ready : Outcome
  errored : Outcome
  wait : Instant → Outcome

-- src/data_plane/upstream.rs; the status is the text that the HTTP library prints of it.
pub data RefreshFailure : Type 0 where
  permanent : String → Option String → RefreshFailure
  transient : String → RefreshFailure

-- src/server.rs; the cause of a failed write is the operating system's.
pub data MutateError {κ} (E : Type κ) : Type κ where
  refused : E → MutateError E
  persist : MutateError E

unfoldable pub needs_refresh : OAuthCredential → Trigger → ℕ → Instant → Bool
needs_refresh family forced margin_seconds now = not (in_success_floor family now)
needs_refresh family startup margin_seconds now = expires_within family margin_seconds now
needs_refresh family proactive margin_seconds now = expires_within family margin_seconds now

-- The end of the transient floor that the family is in.
abbrev pub transient_floor_end : OAuthCredential → Instant → Option Instant
transient_floor_end family now =
    if in_transient_floor family now then family.refresh_not_before else none

-- In milliseconds.
unfoldable pub retry_delay : ℕ → Option ℕ
retry_delay (suc zero) = some 500
retry_delay (suc (suc zero)) = some 1000
retry_delay _ = none

-- What the loop of `run` breaks with.
pub record Called : Type 0 where
  pub result : Result {0, 0} OAuthCredential RefreshFailure
  pub call : ℕ
  pub slept_ms : ℕ

-- What a round of the loop does with the result of its call: the delay before the next, or none.
unfoldable pub retried : ℕ → Result {0, 0} OAuthCredential RefreshFailure → Option ℕ
retried call (err (transient cause)) = retry_delay call
retried call _ = none

-- The loop, on fuel; `answer` is what the token endpoint answers to each call.
unfoldable pub call_endpoint :
    ℕ → (ℕ → Result {0, 0} OAuthCredential RefreshFailure) → ℕ → ℕ → Option Called
call_endpoint zero answer call slept_ms = none
call_endpoint (suc fuel) answer call slept_ms = elim (retried call (answer call)) [
  | none ↦ some (record { result = answer call; call = call; slept_ms = slept_ms })
  | some delay ↦ call_endpoint fuel answer (call + 1) (slept_ms + delay)
]

-- The reasons that `run` records.
abbrev pub no_token_reason : Trigger → String
no_token_reason trigger =
    if is_forced trigger
    then "upstream 401 on oauth credential"
    else "access token expired and no refresh token is held"

abbrev pub rejected_reason : String → Option String → String
rejected_reason status code =
    "refresh rejected by the token endpoint (HTTP "
    ++ status
    ++ unwrap_or (map_some (λ c. ", " ++ c) code) ""
    ++ ")"

module _ ⦃x : External⦄ where
  -- The family that the pattern `Credential::OAuth` binds.
  abbrev pub oauth_family : Account → Option OAuthCredential
  oauth_family a = elim a.credential [
    | Credential.api_key key ↦ none
    | Credential.oauth family ↦ some family
  ]

  unfoldable pub without_refresh : Option Account → Trigger → ℕ → Instant → Option Outcome
  without_refresh none trigger margin_seconds now = some ready
  without_refresh (some a) trigger margin_seconds now =
      if is_some a.errored
      then some errored
      else if is_startup trigger && not a.enabled
      then some ready
      else elim a.credential [
        | Credential.api_key key ↦ some ready
        | Credential.oauth family ↦
            if not (needs_refresh family trigger margin_seconds now)
            then some ready
            else elim (transient_floor_end family now) [
              | none ↦ none
              | some until ↦
                  some (if is_forced trigger || is_expired family now then wait until else ready)
            ]
      ]

  -- `Server::mutate_pool`: the live pool is replaced only once the candidate is written.
  unfoldable pub mutate_pool {κ μ} :
      {A : Type κ} {E : Type μ}
      → Pool
      → Bool
      → (Pool → Pool × Result A E)
      → Pool × Result A (MutateError E)
  mutate_pool live written f = elim (f live).1 [
    | err cause ↦ (live, err (refused cause))
    | ok out ↦ if written then ((f live).0, ok out) else (live, err persist)
  ]

  unfoldable pub publish_family :
      Pool
      → Bool
      → Uuid
      → Option String
      → OAuthCredential
      → OAuthCredential
      → Instant
      → Pool × Outcome
  publish_family live written handle sent old fresh now =
      let published =
        mutate_pool live written (λ p. replace_family p handle sent (replaced_by old fresh now)) in
      (
        published.0,
        elim published.1 [
          | ok done ↦ ready
          | err (refused stale) ↦ ready
          | err persist ↦ wait (now + seconds 30)
        ],
      )

  unfoldable pub persist_errored :
      Pool → Bool → Uuid → Option String → String → Instant → Pool × Outcome
  persist_errored live written handle sent reason now =
      let marked = mutate_pool live written (λ p. mark_refresh_errored p handle sent reason now) in
      (
        marked.0,
        elim marked.1 [
          | ok done ↦ errored
          | err (refused stale) ↦ ready
          | err persist ↦ wait (now + seconds 30)
        ],
      )

  -- What the last transient failure writes.
  unfoldable pub note_transient :
      Uuid → Option String → Instant → Pool → Pool × Result {0, 0} Unit Stale
  note_transient handle sent now p =
      let noted = note_refresh_attempt p handle sent now in
      elim noted.1 [
        | err stale ↦ noted
        | ok done ↦ set_refresh_not_before noted.0 handle sent (now + seconds 30)
      ]

  unfoldable pub publish_transient :
      Pool → Bool → Uuid → Option String → OAuthCredential → Instant → Pool × Outcome
  publish_transient live written handle sent family now =
      let noted = mutate_pool live written (note_transient handle sent now) in
      (
        noted.0,
        elim noted.1 [
          | ok done ↦ if is_expired family now then wait (now + seconds 30) else ready
          | err (refused stale) ↦ ready
          | err persist ↦ wait (now + seconds 30)
        ],
      )

  -- The end of `run`: the result of the calls meets the live pool.
  unfoldable pub land :
      Pool
      → Bool
      → Uuid
      → OAuthCredential
      → Result {0, 0} OAuthCredential RefreshFailure
      → Instant
      → Pool × Outcome
  land live written handle family (ok fresh) now =
      publish_family live written handle family.refresh_token family fresh now
  land live written handle family (err (permanent status code)) now =
      persist_errored live written handle family.refresh_token (rejected_reason status code) now
  land live written handle family (err (transient cause)) now =
      publish_transient live written handle family.refresh_token family now

  -- The start of `run`, up to the calls: the family to refresh, or the outcome without any.
  unfoldable pub start :
      Pool → Bool → Uuid → Trigger → ℕ → Instant → Pool × Result {0, 0} OAuthCredential Outcome
  start p written handle trigger margin_seconds now =
      elim (without_refresh (get p handle) trigger margin_seconds now) [
        | some outcome ↦ (p, err outcome)
        | none ↦ elim (and_then (get p handle) oauth_family) [
          | none ↦ (p, err ready)
          | some family ↦
              if is_some family.refresh_token
              then (p, ok family)
              else if is_forced trigger || is_expired family now
              then (let marked =
                    persist_errored p written handle none (no_token_reason trigger) now in
                  (marked.0, err marked.1))
              else (p, err ready)
        ]
      ]

  -- `run`, where `later` is the pool that the result of the calls meets, at `landing`. None only if
  -- the calls outran the fuel.
  unfoldable pub run :
      Pool
      → Pool
      → Bool
      → Uuid
      → Trigger
      → ℕ
      → Instant
      → Instant
      → (ℕ → Result {0, 0} OAuthCredential RefreshFailure)
      → Option (Pool × Outcome)
  run p later written handle trigger margin_seconds now landing answer =
      let started = start p written handle trigger margin_seconds now in
      elim started.1 [
        | err outcome ↦ some (started.0, outcome)
        | ok family ↦
            map_some (λ (c : Called). land later written handle family c.result landing)
              (call_endpoint 3 answer 1 0)
      ]
