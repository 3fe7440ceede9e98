-- ===== src/Registry.antt =====
-- src/registry.rs: the client registry and the operator's slot. What the standard library knows of
-- Unicode white space and control characters is a parameter; the random text of a new secret is an
-- argument. An operation returns the registry and its result.
mod Entries
mod Claiming
mod Enrolling
mod Refusing
mod Revoking
mod History
mod Keeping
mod Tests
use Prim.Native.Char.{Char, code}
use Prim.Native.String.{len}
use jaynshare.Prelude.{
  ℕ, String, ◌+◌, ◌%◌, ◌^◌, ◌-◌, Bool, true, false, not, ◌&&◌, ◌||◌, List, [], ◌∷◌, ◌++◌, Option,
  none, some, Result, ok, err, ◌>>=◌, leb, ltb, ◌==◌, nat_eq, string_eq, if◌then◌else◌, find,
  change_first, is_some, is_some_and, is_none, is_empty, map_some, min,
}
use jaynshare.Time.{Instant, seconds}
use jaynshare.Secret.{
  Hashing, Role, enrollment_code, client_secret, operator_secret, Verifier, verifier_of, matches,
  generate, domain,
}

pub record Unicode : Type 0 where
  -- `str::trim`
  pub trim : String → String
  -- `char::is_control`
  pub is_control : Char → Bool

pub data EntryState : Type 0 where
  pending active revoked : EntryState

abbrev pub is_pending : EntryState → Bool
is_pending pending = true
is_pending _ = false

abbrev pub is_active : EntryState → Bool
is_active active = true
is_active _ = false

abbrev pub is_revoked : EntryState → Bool
is_revoked revoked = true
is_revoked _ = false

pub record RegistryEntry : Type 0 where
  pub id : String
  pub display_name : String
  pub state : EntryState
  pub generation : ℕ
  pub issued_at : Instant
  pub expires_at : Option Instant
  pub activated_at : Option Instant
  pub revoked_at : Option Instant
  pub verifier : Option Verifier
  pub no_account : Bool

pub record OperatorEntry : Type 0 where
  pub algorithm : String
  pub domain : String
  pub digest : String
  pub rotated_at : Instant

abbrev pub as_verifier : OperatorEntry → Verifier
as_verifier o = record { algorithm = "sha256"; domain = domain operator_secret; digest = o.digest }

pub record Registry : Type 0 where
  pub clients : List RegistryEntry
  pub operator : Option OperatorEntry

pub data ClaimCause : Type 0 where
  unknown_id wrong_code expired : ClaimCause

pub data ReissueError : Type 0 where
  unknown : ReissueError

unfoldable pub is_bootstrap : Registry → Bool
is_bootstrap r = is_empty r.clients && is_none r.operator

unfoldable pub entry : Registry → String → Option RegistryEntry
entry r id = find (λ e. e.id == id) r.clients

unfoldable pub adds_accounts : Registry → String → Bool
adds_accounts r id = is_some_and (entry r id) (λ e. not e.no_account)

-- `chars().all(p)`
abbrev pub all_chars : (Char → Bool) → String → Bool
all_chars p String.[] = true
all_chars p (String.◌∷◌ c s) = p c && all_chars p s

-- `chars().next().is_some_and(p)`
abbrev pub first_char : (Char → Bool) → String → Bool
first_char p String.[] = false
first_char p (String.◌∷◌ c s) = p c

abbrev pub is_alphanumeric : Char → Bool
is_alphanumeric c = (leb 97 (code c) && leb (code c) 122) || (leb 48 (code c) && leb (code c) 57)

abbrev pub in_id : Char → Bool
in_id c = is_alphanumeric c || code c == 95 || code c == 45

unfoldable pub validate_id : String → Result {0, 0} Unit String
validate_id id =
    if not (len id == 0) && leb (len id) 63 && all_chars in_id id && first_char is_alphanumeric id
    then ok tt
    else err
        "a client id is 1–63 ASCII lowercase letters, digits, `_` or `-`, beginning with a letter or digit"

-- `i64::try_from(seconds).unwrap_or(i64::MAX)`
abbrev pub duration_seconds : ℕ → Instant
duration_seconds s = seconds (min s (2 ^ 63 - 1))

unfoldable pub change_entry : String → (RegistryEntry → RegistryEntry) → Registry → Registry
change_entry id f r = record r { clients = change_first (λ e. e.id == id) f r.clients }

unfoldable pub set_no_account : Registry → String → Bool → Registry
set_no_account r id no_account = change_entry id (λ e. record e { no_account = no_account }) r

-- What `revoke` leaves of the entry.
abbrev pub retired : Instant → RegistryEntry → RegistryEntry
retired now e = record e {
  state = revoked;
  revoked_at = some now;
  expires_at = none;
  verifier = none;
}

unfoldable pub revoke : Registry → String → Instant → Registry × Result {0, 0} Unit Unit
revoke r id now = elim (entry r id) [
  | none ↦ (r, err tt)
  | some e ↦ if is_revoked e.state then (r, ok tt) else (change_entry id (retired now) r, ok tt)
]

unfoldable pub remove_operator_secret : Registry → Registry
remove_operator_secret r = record r { operator = none }

module _ ⦃u : Unicode⦄ where
  unfoldable pub validate_display_name : String → Result {0, 0} String String
  validate_display_name name =
      let trimmed = u.trim name in
      if not (len trimmed == 0)
        && leb (len trimmed) 128
        && all_chars (λ c. not (u.is_control c)) trimmed
      then ok trimmed
      else err
          "a display name is 1–128 UTF-8 bytes after surrounding whitespace is removed and carries no control character"

  unfoldable pub rename : Registry → String → String → Registry × Result {0, 0} Unit String
  rename r id display_name = elim (validate_display_name display_name) [
    | err cause ↦ (r, err cause)
    | ok name ↦ elim (entry r id) [
      | none ↦ (r, err "no client has this id")
      | some e ↦ (change_entry id (λ c. record c { display_name = name }) r, ok tt)
    ]
  ]

module _ ⦃h : Hashing⦄ where
  unfoldable pub client_by_secret : Registry → String → Option String
  client_by_secret r secret =
      map_some (λ e. e.id)
        (find
          (λ e. is_active e.state && is_some_and e.verifier (λ v. matches v client_secret secret))
          r.clients)

  unfoldable pub operator_by_secret : Registry → String → Bool
  operator_by_secret r secret =
      is_some_and r.operator (λ o. matches (as_verifier o) operator_secret secret)

  -- The entry of a fresh enrollment.
  unfoldable pub pending_entry : String → String → Instant → ℕ → String → RegistryEntry
  pending_entry id display_name now lifetime_seconds code = record {
    id = id;
    display_name = display_name;
    state = pending;
    generation = 1;
    issued_at = now;
    expires_at = some (now + duration_seconds lifetime_seconds);
    activated_at = none;
    revoked_at = none;
    verifier = some (verifier_of enrollment_code code);
    no_account = false;
  }

  -- An error of none is a duplicate id.
  unfoldable pub issue :
      ⦃u : Unicode⦄
      → Registry
      → String
      → String
      → Instant
      → ℕ
      → String
      → Registry × Result {0, 0} (String × Instant) (Option String)
  issue r id display_name now lifetime_seconds drawn = elim (validate_id id) [
    | err cause ↦ (r, err (some cause))
    | ok valid ↦ elim (validate_display_name display_name) [
      | err cause ↦ (r, err (some cause))
      | ok name ↦ if is_some (entry r id) then (r, err none) else (
        record r {
          clients =
              r.clients
              ++ (pending_entry id name now lifetime_seconds (generate enrollment_code drawn) ∷ []);
        },
        ok (generate enrollment_code drawn, now + duration_seconds lifetime_seconds),
      )
    ]
  ]

  unfoldable pub reissued : Instant → ℕ → String → RegistryEntry → RegistryEntry
  reissued now lifetime_seconds code e = record e {
    state = pending;
    generation = (e.generation + 1) % 2 ^ 64;
    issued_at = now;
    expires_at = some (now + duration_seconds lifetime_seconds);
    activated_at = none;
    revoked_at = none;
    verifier = some (verifier_of enrollment_code code);
  }

  unfoldable pub reissue :
      Registry
      → String
      → Instant
      → ℕ
      → String
      → Registry × Result {0, 0} (String × Instant) ReissueError
  reissue r id now lifetime_seconds drawn = elim (entry r id) [
    | none ↦ (r, err unknown)
    | some e ↦ (
      change_entry id (reissued now lifetime_seconds (generate enrollment_code drawn)) r,
      ok (generate enrollment_code drawn, now + duration_seconds lifetime_seconds),
    )
  ]

  unfoldable pub activated : Instant → String → RegistryEntry → RegistryEntry
  activated now secret e = record e {
    state = active;
    activated_at = some now;
    expires_at = none;
    verifier = some (verifier_of client_secret secret);
  }

  -- The guards of `claim` on the entry.
  unfoldable pub refusal : RegistryEntry → String → Instant → Option ClaimCause
  refusal e code now =
      if not (is_some_and e.verifier (λ v. matches v enrollment_code code))
      then some wrong_code
      else if not (is_pending e.state)
      then some wrong_code
      else if is_some_and e.expires_at (λ at. ltb at now)
      then some expired
      else none

  unfoldable pub claim :
      Registry
      → String
      → String
      → Instant
      → String
      → Registry × Result {0, 0} (RegistryEntry × String) ClaimCause
  claim r id code now drawn = elim (entry r id) [
    | none ↦ (r, err unknown_id)
    | some e ↦ elim (refusal e code now) [
      | some cause ↦ (r, err cause)
      | none ↦ (
        change_entry id (activated now (generate client_secret drawn)) r,
        ok (activated now (generate client_secret drawn) e, generate client_secret drawn),
      )
    ]
  ]

  unfoldable pub rotated : String → RegistryEntry → RegistryEntry
  rotated secret e = record e {
    generation = (e.generation + 1) % 2 ^ 64;
    verifier = some (verifier_of client_secret secret);
  }

  -- The entry that `rotate` looks for.
  abbrev pub active_of : String → RegistryEntry → Bool
  active_of id e = e.id == id && is_active e.state

  unfoldable pub rotate : Registry → String → String → Registry × Result {0, 0} String Unit
  rotate r id drawn = elim (find (active_of id) r.clients) [
    | none ↦ (r, err tt)
    | some e ↦ (
      record r {
        clients = change_first (active_of id) (rotated (generate client_secret drawn)) r.clients;
      },
      ok (generate client_secret drawn),
    )
  ]

  unfoldable pub provision_operator_secret : Registry → Instant → String → Registry × String
  provision_operator_secret r now drawn =
      let secret = generate operator_secret drawn in
      let v = verifier_of operator_secret secret in
      (
        record r {
          operator = some (record {
            algorithm = v.algorithm;
            domain = v.domain;
            digest = v.digest;
            rotated_at = now;
          });
        },
        secret,
      )
