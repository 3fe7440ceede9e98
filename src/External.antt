-- ===== src/External.antt =====
-- What the program takes from outside its own text: the machine's `f64`, Unicode case folding and the
-- text forms of a UUID. A UUID is its 128-bit value.
use jaynshare.Prelude.{ℕ, String, Bool, Option}

abbrev pub Uuid : Type 0
Uuid = ℕ

pub record External : Type 1 where
  pub F64 : Type 0
  pub zero_f64 : F64
  pub one_f64 : F64
  pub neg_infinity : F64
  -- `<`, `<=` and `==`, all false at a NaN.
  pub f64_lt : F64 → F64 → Bool
  pub f64_le : F64 → F64 → Bool
  pub f64_eq : F64 → F64 → Bool
  pub f64_sub : F64 → F64 → F64
  pub f64_div : F64 → F64 → F64
  pub f64_max : F64 → F64 → F64
  pub is_finite : F64 → Bool
  -- `total_cmp(a, b) != Greater`
  pub total_le : F64 → F64 → Bool
  -- `unicase`'s `to_folded_case`
  pub fold : String → String
  -- `str::parse::<Uuid>` and `Uuid::to_string`
  pub parse_uuid : String → Option Uuid
  pub uuid_text : Uuid → String
