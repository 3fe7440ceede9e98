-- ===== src/DataPlane/Principal/Resolving.antt =====
-- What each principal has shown.
use jaynshare.Prelude.{
  ℕ, String, Bool, true, false, ◌&&◌, List, Option, none, some, ◌≡◌, refl, sym, subst, arith,
  Bool-cases, Option-cases, inl, inr, ◌⊎◌, &&_true,
}
use mathlib.Core.Option.{some-injective}
use jaynshare.Secret.{Hashing}
use jaynshare.Registry.{Registry, is_bootstrap, client_by_secret, operator_by_secret}
use jaynshare.DataPlane.Principal.{
  IpAddr, is_loopback_peer, Headers, Presented, one, malformed, Principal, operator, client,
  presented_credential, is_own_secret, own_presented, principal_by_secret, principal_of, resolve,
  the_loopback,
}

module _ ⦃h : Hashing⦄ where
  -- What a principal of a kind has shown: a loopback peer, or the secret that the registry knows.
  abbrev pub IsShown : Registry → Bool → Presented → Principal → Type 0
  IsShown r from_loopback presented principal =
      ((principal ≡ the_loopback) × (from_loopback ≡ true))
      ⊎ ((secret : String) × (presented ≡ one secret)
          × (((principal ≡ record { kind = operator; id = none })
                × (operator_by_secret r secret ≡ true))
              ⊎ ((id : String) × (principal ≡ record { kind = client; id = some id })
                  × (client_by_secret r secret ≡ some id))))

  principal_by_secret_sound :
      (r : Registry) (from_loopback : Bool) (secret : String) (principal : Principal)
      → principal_by_secret r secret ≡ some principal
      → IsShown r from_loopback (one secret) principal
  unfolding principal_by_secret
  principal_by_secret_sound r from_loopback secret principal e =
      elim (Bool-cases (operator_by_secret r secret)) [
        | inl k ↦
            let is_it : principal ≡ record { kind = operator; id = none } = ground (arith, k, e) in
            inr (secret, refl, inl (is_it, k))
        | inr k ↦ elim (Option-cases (client_by_secret r secret)) [
          | inl c ↦ ground (arith, k, c, e)
          | inr (id, c) ↦
              let is_it : principal ≡ record { kind = client; id = some id } =
                ground (arith, k, c, e) in
              inr (secret, refl, inr (id, is_it, c))
        ]
      ]

  principal_of_sound :
      (r : Registry) (from_loopback : Bool) (presented : Presented) (principal : Principal)
      → principal_of r from_loopback (own_presented from_loopback presented) ≡ some principal
      → IsShown r from_loopback presented principal
  unfolding principal_of own_presented
  principal_of_sound r true Presented.none principal e =
      inl (sym (some-injective the_loopback principal e), refl)
  principal_of_sound r false Presented.none principal e = cc
  principal_of_sound r from_loopback malformed principal e = cc
  principal_of_sound r false (one secret) principal e =
      principal_by_secret_sound r false secret principal e
  principal_of_sound r true (one secret) principal e = elim (Bool-cases (is_own_secret secret)) [
    | inl k ↦
        let kept : own_presented true (one secret) ≡ one secret = rw k refl in
        principal_by_secret_sound r true secret principal
          (subst (λ q. principal_of r true q ≡ some principal) kept e)
    | inr k ↦
        let none_kept : own_presented true (one secret) ≡ Presented.none = rw k refl in
        inl (
          sym (
              some-injective the_loopback principal
                (subst (λ q. principal_of r true q ≡ some principal) none_kept e)),
          refl,
        )
  ]

  -- Nobody is a loopback principal but a loopback peer, the operator but who shows the operator's
  -- secret, or a client but who shows a secret by which the registry knows that client.
  pub resolve_sound :
      (to_str : List ℕ → Option String) (r : Registry) (peer : IpAddr) (headers : Headers)
      (principal : Principal)
      → resolve to_str r peer headers ≡ some principal
      → IsShown r (is_loopback_peer peer) (presented_credential to_str headers) principal
  unfolding resolve
  resolve_sound to_str r peer headers principal e =
      elim (Bool-cases (is_loopback_peer peer && is_bootstrap r)) [
        | inl k ↦
            let is_it : principal ≡ the_loopback = ground (arith, k, e) in
            inl (is_it, (&&_true (is_loopback_peer peer) (is_bootstrap r) k).0)
        | inr k ↦
            let presented = presented_credential to_str headers in
            let answer : principal_of r (is_loopback_peer peer)
                  (own_presented (is_loopback_peer peer) presented)
                ≡ some principal =
              ground (arith, k, e) in
            principal_of_sound r (is_loopback_peer peer) presented principal answer
      ]

  -- A secret with one of the server's prefixes that the registry knows neither as the operator's
  -- nor as a client's is refused, from the loopback too, once the registry has a client or an
  -- operator.
  pub resolve_refused :
      (to_str : List ℕ → Option String) (r : Registry) (peer : IpAddr) (headers : Headers)
      (secret : String)
      → is_bootstrap r ≡ false
      → presented_credential to_str headers ≡ one secret
      → is_own_secret secret ≡ true
      → operator_by_secret r secret ≡ false
      → client_by_secret r secret ≡ none
      → resolve to_str r peer headers ≡ none
  unfolding resolve principal_of own_presented principal_by_secret
  resolve_refused to_str r peer headers secret started shown own no_operator no_client =
      elim (Bool-cases (is_loopback_peer peer)) [
        | inl k ↦ rw (started, k, shown, own, no_operator, no_client) refl
        | inr k ↦ rw (started, k, shown, no_operator, no_client) refl
      ]
