-- ===== src/DataPlane.antt =====
-- The data plane of src/data_plane: what `serde_json` reads in a body is a parameter here.
pub mod Usage
pub mod Intent
pub mod Principal
use jaynshare.Prelude.{ℕ, String, Bool, List, Option}

-- `serde_json::Value`, and `from_slice` on the bytes of a text.
pub record Json : Type 1 where
  pub Value : Type 0
  pub from_slice : List ℕ → Option Value
  -- `get`, which finds nothing in what is no object.
  pub get : Value → String → Option Value
  pub as_str : Value → Option String
  pub as_u64 : Value → Option ℕ
  pub is_object : Value → Bool
