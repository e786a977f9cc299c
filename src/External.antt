-- ===== src/External.antt =====
-- What the query engine takes from other crates and from the platform: Unicode tables and
-- normalisation (unicode-normalization, icu_casemap), substring search (memchr), regular
-- expressions (pcre2), floating-point numbers, JSON values (serde_json), identifier sets
-- (roaring's `RoaringTreemap`) and instants (chrono).
pub mod Plain
use apfsearch.Prelude.{ℕ, Bool, Option}
use apfsearch.Result.{Result}
use apfsearch.Text.{Text, Bytes}
use apfsearch.Integer.{ℤ}

pub record External : Type 1 where
  pub Regex : Type 0
  pub Float : Type 0
  pub Value : Type 0
  pub Treemap : Type 0
  pub Instant : Type 0
  pub nfc : Text → Text
  pub nfd : Text → Text
  -- `CaseMapper::new().fold_string`
  pub case_fold : Text → Text
  pub is_combining_mark : ℕ → Bool
  pub is_alphanumeric : ℕ → Bool
  pub is_whitespace : ℕ → Bool
  -- `Finder::new(needle).find(haystack)`
  pub find : Bytes → Bytes → Option ℕ
  pub regex_is_match : Regex → Bytes → Result Bool
  pub float_lt : Float → Float → Bool
  pub float_le : Float → Float → Bool
  pub float_of_u64 : ℕ → Float
  pub float_of_i64 : ℤ → Float
  pub as_str : Value → Option Text
  pub as_f64 : Value → Option Float
  pub treemap_contains : Treemap → ℕ → Bool
