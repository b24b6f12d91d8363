-- ===== src/Platform.antt =====
-- What the code uses of the JavaScript engine where the model has no definition of its own: the
-- floating-point numbers behind `Number(text)`, and the tables of Unicode.
use agentic_warden.Prelude.{ℕ, Bool, Text}

pub record Platform : Type 1 where
  pub Number : Type 0
  pub of_ℕ : ℕ → Number
  -- `Number(text)`, NaN included
  pub number : Text → Number
  pub is_finite : Number → Bool
  -- `a - b` and `a < b`
  pub sub : Number → Number → Number
  pub lt : Number → Number → Bool
  -- `text.toLowerCase()`
  pub to_lower : Text → Text
  -- `text.replace(/[^\p{L}\p{N} _-]/gu, "")`
  pub keep_letters : Text → Text
