-- ===== src/Query/Ast.antt =====
-- The query tree of core/src/query.rs, and the row that it is evaluated on
-- (core/src/entry_table.rs, `trait FileEntry`).
use apfsearch.Prelude.{ℕ, Bool, Option, List}
use apfsearch.Integer.{ℤ}
use apfsearch.Text.{Text, Bytes, TextView}
use apfsearch.External.{External}

pub data Field : Type 0 where
  name path parent : Field

pub data TextTarget : Type 0 where
  field : Field → TextTarget
  content : TextTarget
  property : Text → TextTarget
  extension : TextTarget

module _ (x : External) where
  pub record MatchOptions : Type 0 where
    pub now : x.Instant
    pub field : Field
    pub sensitive : Bool
    pub regex : Bool
    pub diacritics : Bool
    pub prefix : Bool
    pub suffix : Bool
    pub whole : Bool
    pub start : Bool
    pub end : Bool
    pub wildcards : Bool
    pub target : Option TextTarget
    pub dot_all : Bool
    pub multiline : Bool

  pub record TextMatcher : Type 0 where
    pub needle : Text
    pub finder : Bytes
    pub candidate_needle : Text
    pub regex : Option x.Regex
    pub options : MatchOptions

  pub record ResolvedPredicate : Type 0 where
    pub positive : x.Treemap
    pub unknown : x.Treemap

  mutual
    pub data Query : Type 0 where
      all : Query
      and : Queries → Query
      or : Queries → Query
      not : Query → Query
      term : Term → Query

    -- `Vec<Query>`
    pub data Queries : Type 0 where
      nil : Queries
      cons : Query → Queries → Queries

    -- `text` holds the field, the needle, the searcher's bytes and the case mode; `number` the
    -- field, the two bounds, whether each is included, and the negation.
    pub data Term : Type 0 where
      text : Field → Text → Bytes → Bool → Term
      pattern : Field → x.Regex → Term
      related : Bool → Query → Term
      resolved : ResolvedPredicate → Term
      extension : List Text → Term
      is_dir : Bool → Term
      is_symlink : Term
      hidden : Term
      flags : ℕ → Term
      unknown : Text → Bool → Term
      number : Text → x.Float → x.Float → Bool → Bool → Bool → Term
      content : Text → Bool → Term
      property_text : Text → Text → Term
      matched : TextTarget → TextMatcher → Term

  -- The getters of `FileEntry` that a query reads.
  pub record FileEntry : Type 0 where
    pub id : ℤ
    pub size : ℕ
    pub modified : ℤ
    pub created : ℤ
    pub flags : ℕ
    pub path : TextView
    pub name : Text
    pub folded_name : Text
    pub folded_path : TextView
    pub search_name : Text
    pub search_path : TextView
    pub parent : Text
    pub extension : Text
    pub folded_extension : Text
    pub is_dir : Bool
    pub is_symlink : Bool
    pub properties : Text → Option x.Value
