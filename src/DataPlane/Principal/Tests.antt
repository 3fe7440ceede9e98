-- ===== src/DataPlane/Principal/Tests.antt =====
-- Runs of the resolution, over a digest that is its input.
use jaynshare.Prelude.{
  ℕ, String, ◌+◌, ◌*◌, ◌^◌, ◌≡◌, refl, true, false, List, [], ◌∷◌, Option, some, none,
}
use jaynshare.Time.{seconds}
use jaynshare.Secret.{Hashing, client_secret, verifier_of, matches}
use jaynshare.Secret.Comparing.{constant_time_eq, difference}
use jaynshare.Registry.{Registry, is_bootstrap, client_by_secret, operator_by_secret, active}
use jaynshare.DataPlane.Principal.{
  IpAddr, v6, is_loopback_peer, Headers, one, presented_credential, bearer_secret, is_own_secret,
  own_presented, principal_of, resolve, the_loopback,
}
use jaynshare.DataPlane.Principal.Resolving.{IsShown, resolve_sound, resolve_refused}

instance abbrev plain_hash : Hashing
plain_hash = record { sha256_hex = λ s. s }

-- A registry with the client `web`.
abbrev with_web : Registry
with_web = record {
  clients =
      record {
        id = "web";
        display_name = "Web";
        state = active;
        generation = 1;
        issued_at = seconds 100;
        expires_at = none;
        activated_at = some (seconds 200);
        revoked_at = none;
        no_account = false;
        verifier = some (verifier_of client_secret "jsc2_y");
      }
      ∷ [];
  operator = none;
}

-- A header's value is its first byte's text.
abbrev to_str : List ℕ → Option String
to_str [] = none
to_str (b ∷ l) = some "Bearer jsc2_x"

abbrev wrong : Headers
wrong = record { authorization = (1 ∷ []) ∷ []; x_api_key = [] }

abbrev bare : Headers
bare = record { authorization = []; x_api_key = [] }

abbrev home : IpAddr
home = v6 (65535 * 2 ^ 32 + 127 * 2 ^ 24 + 1)

mapped_loopback : is_loopback_peer home ≡ true
unfolding is_loopback_peer
mapped_loopback = refl

wrong_shown : presented_credential to_str wrong ≡ one "jsc2_x"
unfolding presented_credential bearer_secret
wrong_shown = refl

home_resolved : resolve to_str with_web home bare ≡ some the_loopback
unfolding resolve is_bootstrap is_loopback_peer presented_credential own_presented principal_of
home_resolved = refl

resolve_sound_example :
    IsShown with_web (is_loopback_peer home) (presented_credential to_str bare) the_loopback
resolve_sound_example = resolve_sound to_str with_web home bare the_loopback home_resolved

wrong_own : is_own_secret "jsc2_x" ≡ true
unfolding is_own_secret
wrong_own = refl

wrong_client : client_by_secret with_web "jsc2_x" ≡ none
unfolding client_by_secret matches verifier_of constant_time_eq difference
wrong_client = refl

no_operator : operator_by_secret with_web "jsc2_x" ≡ false
unfolding operator_by_secret
no_operator = refl

begun : is_bootstrap with_web ≡ false
unfolding is_bootstrap
begun = refl

resolve_refused_example : resolve to_str with_web home wrong ≡ none
resolve_refused_example =
    resolve_refused to_str with_web home wrong "jsc2_x" begun wrong_shown wrong_own no_operator
      wrong_client
