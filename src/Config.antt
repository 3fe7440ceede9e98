-- ===== src/Config.antt =====
-- src/config/mod.rs: the places of a configuration that name accounts, and its validation errors. How
-- the standard library prints a number and quotes a text is a parameter.
pub mod References
use jaynshare.Prelude.{ℕ, String}

pub record Printing : Type 0 where
  -- `{}` of a number
  pub decimal : ℕ → String
  -- `{:?}` of a text
  pub quoted : String → String

pub record ConfigError : Type 0 where
  pub target : String
  pub message : String

pub data Site : Type 0 where
  route : String → Site
  priority : Site

pub record ReferenceSite : Type 0 where
  pub target : String
  pub literal : String
  pub site : Site
