-- ===== src/Account/Tests.antt =====
-- The theorems of Account at concrete inputs.
use Prim.Native.Char.{nul}
use jaynshare.Prelude.{
  ℕ, zero, suc, ap, String, Bool, false, true, ◌≡◌, refl, Option, none, some, ok, err, List, [],
  ◌∷◌,
}
use jaynshare.Time.{Instant}
use jaynshare.External.{Uuid}
use jaynshare.HashMap
use jaynshare.Scaled.{scaled}
use jaynshare.Fixtures.{alice}
use jaynshare.Quota.{Bucket}
use jaynshare.Account.{ensure_expected_buckets}
use jaynshare.Account.Persisted.{RecordJson, malformed}
use jaynshare.Account.Persisted.Json.{
  to_record, from_record, read_record, is_known, read_members, required,
}
use jaynshare.Account.Persisted.RoundTrip.Members.{IsFaithful, from_record-to_record}

-- A value as what it was written from; an instant's text is its number of letters.
data Written : Type 0 where
  null : Written
  a_bool : Bool → Written
  a_text : String → Written
  a_uuid : Uuid → Written
  a_time : Instant → Written
  buckets : List Bucket → Written

abbrev is_null : Written → Bool
is_null null = true
is_null _ = false

abbrev to_bool : Written → Option Bool
to_bool (a_bool b) = some b
to_bool _ = none

abbrev to_text : Written → Option String
to_text (a_text s) = some s
to_text _ = none

abbrev to_uuid : Written → Option Uuid
to_uuid (a_uuid u) = some u
to_uuid _ = none

abbrev to_time : Written → Option Instant
to_time (a_time t) = some t
to_time _ = none

abbrev to_buckets : Written → Option (List Bucket)
to_buckets (buckets bs) = some bs
to_buckets _ = none

abbrev letters : ℕ → String
letters zero = String.[]
letters (suc n) = String.◌∷◌ nul (letters n)

abbrev count : String → ℕ
count String.[] = zero
count (String.◌∷◌ c s) = suc (count s)

count-letters : (n : ℕ) → count (letters n) ≡ n
count-letters zero = refl
count-letters (suc n) = ap suc (count-letters n)

abbrev plain_json : RecordJson
plain_json = record {
  Value = Written;
  null = null;
  is_null = is_null;
  from_bool = a_bool;
  to_bool = to_bool;
  from_text = a_text;
  to_text = to_text;
  from_uuid = a_uuid;
  to_uuid = to_uuid;
  from_time = a_time;
  to_time = to_time;
  format_time = letters;
  parse_time = λ s. some (count s);
  from_buckets = buckets;
  to_buckets = to_buckets;
}

plain_json-IsFaithful : IsFaithful plain_json
plain_json-IsFaithful = record {
  nulls = refl;
  bools = λ b. refl;
  texts = λ s. (refl, refl);
  uuids = λ u. (refl, refl);
  times = λ t. (refl, refl);
  formats = λ t. ap some (count-letters t);
}

-- A member that no field is named for.
unknown_member : from_record plain_json (("colour", a_text "red") ∷ []) ≡ err malformed
unfolding from_record read_record is_known
unknown_member = refl

absent_handle : from_record plain_json (("kind", a_text "oauth") ∷ []) ≡ err malformed
unfolding from_record read_record is_known read_members required HashMap.get
absent_handle = refl

from_record-to_record_example :
    from_record plain_json (to_record plain_json alice) ≡ ok (ensure_expected_buckets alice)
from_record-to_record_example =
    from_record-to_record plain_json plain_json-IsFaithful alice refl refl (λ e. cc)
