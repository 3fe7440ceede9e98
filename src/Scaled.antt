-- ===== src/Scaled.antt =====
-- A concrete instance of what the program takes from outside, for tests and witnesses: an `f64` in
-- thousandths, texts that are their own folding, and UUIDs that print as one letter.
use jaynshare.Prelude.{ℕ, ◌*◌, ◌-◌, ◌/◌, max, true, none, leb, ltb, ◌==◌, nat_eq, if◌then◌else◌}
use jaynshare.External.{External}

instance abbrev pub scaled : External
scaled = record {
  F64 = ℕ;
  zero_f64 = 0;
  one_f64 = 1000;
  neg_infinity = 0;
  f64_lt = ltb;
  f64_le = leb;
  f64_eq = λ a b. a == b;
  f64_sub = λ a b. a - b;
  f64_div = λ a b. a * 1000 / b;
  f64_max = max;
  is_finite = λ a. true;
  total_le = leb;
  fold = λ s. s;
  parse_uuid = λ s. none;
  uuid_text = λ u. if u == 1 then "a" else "b";
}
