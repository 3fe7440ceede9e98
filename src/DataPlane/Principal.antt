-- ===== src/DataPlane/Principal.antt =====
-- src/data_plane/principal.rs: who sent a request. An address is the number that its bytes make.
mod Resolving
mod Tests
use Prim.Native.Char.{code}
use jaynshare.Prelude.{
  ℕ, String, ◌/◌, ◌%◌, ◌^◌, Bool, true, false, not, ◌&&◌, ◌||◌, List, [], ◌∷◌, Option, some, ◌==◌,
  nat_eq, if◌then◌else◌, any, or, is_some, filter_map,
}
use jaynshare.Secret.{Hashing, Role, enrollment_code, client_secret, operator_secret, prefix}
use jaynshare.Registry.{Registry, is_bootstrap, client_by_secret, operator_by_secret}

pub data IpAddr : Type 0 where
  v4 : ℕ → IpAddr
  v6 : ℕ → IpAddr

-- `Ipv4Addr::is_loopback`
abbrev pub is_loopback : ℕ → Bool
is_loopback n = n / 2 ^ 24 == 127

-- `Ipv6Addr::is_loopback`, or an address of `::ffff:0:0/96` whose last four bytes are one.
unfoldable pub is_loopback_peer : IpAddr → Bool
is_loopback_peer (v4 n) = is_loopback n
is_loopback_peer (v6 n) = n == 1 || (n / 2 ^ 32 == 65535 && is_loopback (n % 2 ^ 32))

-- The values of the two headers, in order.
pub record Headers : Type 0 where
  pub authorization : List (List ℕ)
  pub x_api_key : List (List ℕ)

pub data Presented : Type 0 where
  none : Presented
  one : String → Presented
  malformed : Presented

pub data PrincipalKind : Type 0 where
  loopback operator client : PrincipalKind

pub record Principal : Type 0 where
  pub kind : PrincipalKind
  pub id : Option String

abbrev pub is_empty_text : String → Bool
is_empty_text String.[] = true
is_empty_text (String.◌∷◌ c s) = false

-- `str::strip_prefix`
abbrev pub strip_text : String → String → Option String
strip_text String.[] s = some s
strip_text (String.◌∷◌ c p) String.[] = Option.none
strip_text (String.◌∷◌ c p) (String.◌∷◌ d s) =
    let rest = strip_text p s in if code c == code d then rest else Option.none

-- The secret behind the scheme.
unfoldable pub bearer_secret : String → Presented
bearer_secret value = elim (or (strip_text "Bearer " value) (strip_text "bearer " value)) [
  | Option.none ↦ malformed
  | some secret ↦ if is_empty_text secret then malformed else one secret
]

abbrev pub presented_of : List String → List String → Presented
presented_of [] [] = Presented.none
presented_of (value ∷ []) [] = bearer_secret value
presented_of [] (key ∷ []) = if is_empty_text key then malformed else one key
presented_of _ _ = malformed

-- On what `HeaderValue::to_str` makes of a value.
unfoldable pub presented_credential : (List ℕ → Option String) → Headers → Presented
presented_credential to_str headers =
    presented_of (filter_map to_str headers.authorization) (filter_map to_str headers.x_api_key)

unfoldable pub is_own_secret : String → Bool
is_own_secret value =
    any (λ role. is_some (strip_text (prefix role) value))
      (client_secret ∷ operator_secret ∷ enrollment_code ∷ [])

abbrev pub the_loopback : Principal
the_loopback = record { kind = loopback; id = Option.none }

-- A credential that is not the server's own counts as none on the loopback.
unfoldable pub own_presented : Bool → Presented → Presented
own_presented from_loopback (one secret) =
    if from_loopback && not (is_own_secret secret) then Presented.none else one secret
own_presented from_loopback Presented.none = Presented.none
own_presented from_loopback malformed = malformed

module _ ⦃h : Hashing⦄ where
  unfoldable pub principal_by_secret : Registry → String → Option Principal
  principal_by_secret r secret =
      if operator_by_secret r secret
      then some (record { kind = operator; id = Option.none })
      else elim (client_by_secret r secret) [
        | Option.none ↦ Option.none
        | some id ↦ some (record { kind = client; id = some id })
      ]

  unfoldable pub principal_of : Registry → Bool → Presented → Option Principal
  principal_of r from_loopback Presented.none =
      if from_loopback then some the_loopback else Option.none
  principal_of r from_loopback malformed = Option.none
  principal_of r from_loopback (one secret) = principal_by_secret r secret

  unfoldable pub resolve : (List ℕ → Option String) → Registry → IpAddr → Headers → Option Principal
  resolve to_str r peer headers =
      let from_loopback = is_loopback_peer peer in
      if from_loopback && is_bootstrap r
      then some the_loopback
      else principal_of r from_loopback
          (own_presented from_loopback (presented_credential to_str headers))
