-- ===== src/Refresh/Retrying.antt =====
-- The loop around the token endpoint in src/pool/refresh.rs.
use jaynshare.Prelude.{
  ℕ, ◌≡◌, ◌≤◌, ◌<◌, ◌+◌, refl, inl, inr, zero, suc, Option, none, some, Result, ok, err, arith,
  Option-cases,
}
use jaynshare.Account.{OAuthCredential}
use jaynshare.Refresh.{
  RefreshFailure, permanent, transient, Called, retry_delay, retried, call_endpoint,
}

-- The result is one that the same call could have again.
abbrev pub IsTransient : Result {0, 0} OAuthCredential RefreshFailure → Type 0
IsTransient (ok family) = ⊥
IsTransient (err (permanent status code)) = ⊥
IsTransient (err (transient cause)) = Unit

retried-IsTransient :
    (call delay : ℕ) (r : Result {0, 0} OAuthCredential RefreshFailure)
    → retried call r ≡ some delay
    → IsTransient r × (retry_delay call ≡ some delay)
unfolding retried
retried-IsTransient call delay (ok family) e = cc
retried-IsTransient call delay (err (permanent status code)) e = cc
retried-IsTransient call delay (err (transient cause)) e = (tt, e)

IsTransient-retried :
    (call : ℕ) (r : Result {0, 0} OAuthCredential RefreshFailure)
    → IsTransient r
    → retried call r ≡ none
    → retry_delay call ≡ none
unfolding retried
IsTransient-retried call (ok family) t e = elim t [ ]
IsTransient-retried call (err (permanent status code)) t e = elim t [ ]
IsTransient-retried call (err (transient cause)) t e = e

third_call : (r : Result {0, 0} OAuthCredential RefreshFailure) → retried 3 r ≡ none
unfolding retried retry_delay
third_call (ok family) = refl
third_call (err (permanent status code)) = refl
third_call (err (transient cause)) = refl

some-none : {n : ℕ} → ◌≡◌ {A = Option ℕ} (some n) none → ⊥
some-none e = cc

none_below : (m k : ℕ) → m ≤ k → k < m → ⊥
none_below m k low high = omega arith

module _ (P : ℕ → Type 0) where
  below_two : P 1 → (k : ℕ) → 1 ≤ k → k < 2 → P k
  below_two p zero low high = elim (none_below 1 zero low (omega arith)) [ ]
  below_two p (suc zero) low high = p
  below_two p (suc (suc k)) low high = elim (none_below 2 _ (omega arith) high) [ ]

  below_three : P 1 → P 2 → (k : ℕ) → 1 ≤ k → k < 3 → P k
  below_three p q zero low high = elim (none_below 1 zero low (omega arith)) [ ]
  below_three p q (suc zero) low high = p
  below_three p q (suc (suc zero)) low high = q
  below_three p q (suc (suc (suc k))) low high = elim (none_below 3 _ (omega arith) high) [ ]

-- Whatever the token endpoint answers, the loop breaks within three calls and after at most a
-- second and a half of sleep, with the answer to its last call; every call before that failed
-- transiently, and the last one did only if it was the third.
pub call_endpoint_breaks :
    (answer : ℕ → Result {0, 0} OAuthCredential RefreshFailure)
    → (c : Called) × (call_endpoint 3 answer 1 0 ≡ some c)
      × (c.call ≤ 3)
      × (c.slept_ms ≤ 1500)
      × (c.result ≡ answer c.call)
      × ((k : ℕ) → 1 ≤ k → k < c.call → IsTransient (answer k))
      × (IsTransient c.result → c.call ≡ 3)
unfolding call_endpoint retry_delay
call_endpoint_breaks answer = elim (Option-cases (retried 1 (answer 1))) [
  | inl e ↦ (
    record { result = answer 1; call = 1; slept_ms = 0 },
    rw (e, call_endpoint) refl,
    omega arith,
    omega arith,
    refl,
    λ k low high. elim (none_below 1 k low high) [ ],
    λ t. elim (some-none (IsTransient-retried 1 (answer 1) t e)) [ ],
  )
  | inr (d, e) ↦
      let (t1, p1) = retried-IsTransient 1 d (answer 1) e in
      elim (Option-cases (retried 2 (answer 2))) [
        | inl f ↦ (
          record { result = answer 2; call = 2; slept_ms = 0 + d },
          rw (e, call_endpoint) (rw (f, call_endpoint) refl),
          omega arith,
          ground arith,
          refl,
          below_two (λ k. IsTransient (answer k)) t1,
          λ t. elim (some-none (IsTransient-retried 2 (answer 2) t f)) [ ],
        )
        | inr (d2, f) ↦
            let (t2, p2) = retried-IsTransient 2 d2 (answer 2) f in
            (
              record { result = answer 3; call = 3; slept_ms = 0 + d + d2 },
              rw (e, call_endpoint)
                  (rw (f, call_endpoint) (rw (third_call (answer 3), call_endpoint) refl)),
              omega arith,
              ground arith,
              refl,
              below_three (λ k. IsTransient (answer k)) t1 t2,
              λ t. refl,
            )
      ]
]
