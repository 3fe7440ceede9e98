-- ===== src/Secret.antt =====
-- src/secret.rs: the three roles of a secret, its verifier and the comparison of digests. The SHA-256
-- digest in lower-case hexadecimal is a parameter; so are the random characters of a new secret.
pub mod Comparing
mod Tests
use Prim.Native.Char.{nul}
use Prim.Native.String.{◌++◌}
use jaynshare.Prelude.{
  ℕ, String, Bool, ◌&&◌, List, [], ◌∷◌, ◌==◌, string_eq, ◌≡◌, ◌≢◌, refl, ==_refl, true, false,
  arith,
}
use jaynshare.Secret.Comparing.{constant_time_eq, constant_time_eq_iff}
use jaynshare.Selection.Glob.{as_bytes}

pub record Hashing : Type 0 where
  -- The digest of the text's bytes, in lower-case hexadecimal.
  pub sha256_hex : String → String

pub data Role : Type 0 where
  enrollment_code client_secret operator_secret : Role

abbrev pub prefix : Role → String
prefix enrollment_code = "jse2_"
prefix client_secret = "jsc2_"
prefix operator_secret = "jso2_"

abbrev pub domain : Role → String
domain enrollment_code = "jaynshare/enrollment"
domain client_secret = "jaynshare/client"
domain operator_secret = "jaynshare/operator"

-- `Secret::generate`, on the base64url text of the bytes that are drawn.
abbrev pub generate : Role → String → String
generate role drawn = prefix role ++ drawn

pub record Verifier : Type 0 where
  pub algorithm : String
  pub domain : String
  pub digest : String

module _ ⦃h : Hashing⦄ where
  -- `Verifier::new`; the domain and the secret are hashed with a zero byte between them.
  unfoldable pub verifier_of : Role → String → Verifier
  verifier_of role secret = record {
    algorithm = "sha256";
    domain = domain role;
    digest = h.sha256_hex (domain role ++ String.◌∷◌ nul String.[] ++ secret);
  }

  unfoldable pub matches : Verifier → Role → String → Bool
  matches v role secret =
      v.domain == domain role
      && constant_time_eq (as_bytes v.digest) (as_bytes (verifier_of role secret).digest)

  domain_injective : (a b : Role) → domain a ≡ domain b → a ≡ b
  domain_injective enrollment_code enrollment_code e = refl
  domain_injective enrollment_code client_secret e = cc
  domain_injective enrollment_code operator_secret e = cc
  domain_injective client_secret enrollment_code e = cc
  domain_injective client_secret client_secret e = refl
  domain_injective client_secret operator_secret e = cc
  domain_injective operator_secret enrollment_code e = cc
  domain_injective operator_secret client_secret e = cc
  domain_injective operator_secret operator_secret e = refl

  pub matches_itself :
      (role : Role) (secret : String) → matches (verifier_of role secret) role secret ≡ true
  unfolding matches verifier_of
  matches_itself role secret = rw (==_refl (domain role)) ((constant_time_eq_iff _ _).1 refl)

  pub matches_domain :
      (v : Verifier) (role : Role) (guess : String)
      → v.domain ≢ domain role
      → matches v role guess ≡ false
  unfolding matches
  matches_domain v role guess apart = ground (arith, string_eq.same_iff v.domain (domain role))

  pub other_role :
      (role other : Role) (secret guess : String)
      → role ≢ other
      → matches (verifier_of role secret) other guess ≡ false
  unfolding verifier_of
  other_role role other secret guess apart =
      matches_domain (verifier_of role secret) other guess
        (λ e. apart (domain_injective role other e))

  -- The verifier of a secret matches the secret in its own role, and no text in another role.
  pub matches-verifier_of :
      (role other : Role) (secret guess : String)
      → role ≢ other
      → (matches (verifier_of role secret) role secret ≡ true)
        × (matches (verifier_of role secret) other guess ≡ false)
  matches-verifier_of role other secret guess apart =
      (matches_itself role secret, other_role role other secret guess apart)
