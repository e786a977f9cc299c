-- ===== src/Query/Truth.antt =====
-- The evaluation of a query on a row in core/src/query.rs: the full evaluation, and the three-valued
-- ones that leave open what content, extraction or descendants have still to decide.
mod Agree
pub mod Stable
pub mod Metadata
pub mod Content
pub mod Indexed
pub mod Extraction
pub mod Examples
use apfsearch.Prelude.{Bool, true, false, not, ◌&&◌, ◌||◌, Option, none, some, if◌then◌else◌}
use apfsearch.Result.{Result, ok, err, needs_snapshot, ◌>>=◌}
use apfsearch.Text.{Text, as_bytes, contains}
use apfsearch.TextView.{is_some}
use apfsearch.External.{External}
use apfsearch.Query.Fold.{fold_search}
use apfsearch.Query.Ast.{
  TextTarget, property, Query, all, and, or, term, Queries, nil, cons, Term, related, resolved,
  unknown, number, property_text, matched, FileEntry, TextMatcher,
}
use apfsearch.Query.Matcher.{matches_normalized, is_some_and}
use apfsearch.Query.Leaf.{is_metric, numeric_property, resolved_truth, term_matches}

pub data Turn : Type 0 where
  stop next : Bool → Turn

-- `map(|v| !v)` on a three-valued truth
abbrev pub negated : Option Bool → Option Bool
negated none = none
negated (some value) = some (not value)

-- One turn of the loops over the children: `decisive` is the value that ends the loop, and
-- `doubt` says whether a child was undecided so far.
abbrev pub turn : Bool → Bool → Option Bool → Turn
turn decisive doubt none = next true
turn true doubt (some true) = stop true
turn true doubt (some false) = next doubt
turn false doubt (some true) = next doubt
turn false doubt (some false) = stop false

-- The end of the loops.
abbrev pub undecided : Bool → Bool → Option Bool
undecided true value = none
undecided false value = some value

abbrev pub decided : Bool → Result Bool → Result (Option Bool)
decided true value = ok none
decided false value = value >>= λ v. ok (some v)

-- `*truth == Some(true)`
abbrev pub certain : Result (Option Bool) → Result Bool
certain truth = truth >>= λ v. ok (elim v [ none ↦ false | some value ↦ value ])

-- `Ok(truth != Some(false))`
abbrev possible : Result (Option Bool) → Result Bool
possible truth = truth >>= λ v. ok (elim v [ none ↦ true | some value ↦ value ])

module _ (x : External) where
  unfoldable mutual
    pub requires_content : Query x → Bool
    requires_content all = false
    requires_content (and queries) = any_requires_content queries
    requires_content (or queries) = any_requires_content queries
    requires_content (Query.not query) = requires_content query
    requires_content (term t) = term_requires_content t

    pub any_requires_content : Queries x → Bool
    any_requires_content nil = false
    any_requires_content (cons query queries) =
        requires_content query || any_requires_content queries

    pub term_requires_content : Term x → Bool
    term_requires_content (related recursive query) = requires_content query
    term_requires_content (Term.content needle sensitive) = true
    term_requires_content (matched TextTarget.content matcher) = true
    term_requires_content _ = false

  pub term_requires_relations : Term x → Bool
  term_requires_relations (related recursive query) = true
  term_requires_relations (resolved result) = true
  term_requires_relations (number field low high include_low include_high negate) = is_metric field
  term_requires_relations (unknown field negate) = is_metric field
  term_requires_relations _ = false

  unfoldable mutual
    unfolding term_requires_relations

    pub requires_relations : Query x → Bool
    requires_relations all = false
    requires_relations (and queries) = any_requires_relations queries
    requires_relations (or queries) = any_requires_relations queries
    requires_relations (Query.not query) = requires_relations query
    requires_relations (term t) = term_requires_relations t

    pub any_requires_relations : Queries x → Bool
    any_requires_relations nil = false
    any_requires_relations (cons query queries) =
        requires_relations query || any_requires_relations queries

  -- `matcher.regex.is_none() && !sensitive && !diacritics`
  abbrev pub is_plain : TextMatcher x → Bool
  is_plain matcher =
      not (is_some matcher.regex)
      && (not matcher.options.sensitive && not matcher.options.diacritics)

  -- The terms of `matches_inner`: a plain content literal shares one folded copy of the content.
  pub inner_term : Term x → FileEntry x → Option Text → Result Bool
  inner_term (Term.content needle false) file content =
      ok (is_some_and content (λ body. contains (as_bytes (fold_search x body)) (as_bytes needle)))
  inner_term (matched TextTarget.content matcher) file content =
      if is_plain matcher
      then ok (is_some_and content (λ body. matches_normalized x matcher (fold_search x body)))
      else term_matches x (matched TextTarget.content matcher) file content
  inner_term t file content = term_matches x t file content

  unfoldable mutual
    unfolding inner_term

    pub matches_inner : Query x → FileEntry x → Option Text → Result Bool
    matches_inner all file content = ok true
    matches_inner (and queries) file content = every_inner queries file content
    matches_inner (or queries) file content = some_inner queries file content
    matches_inner (Query.not query) file content =
        matches_inner query file content >>= λ value. ok (not value)
    matches_inner (term t) file content = inner_term t file content

    -- The loops over the children end at the first that decides.
    pub every_inner : Queries x → FileEntry x → Option Text → Result Bool
    every_inner nil file content = ok true
    every_inner (cons query queries) file content = matches_inner query file content >>= λ value.
        elim value [ true ↦ every_inner queries file content | false ↦ ok false ]

    pub some_inner : Queries x → FileEntry x → Option Text → Result Bool
    some_inner nil file content = ok false
    some_inner (cons query queries) file content = matches_inner query file content >>= λ value.
        elim value [ true ↦ ok true | false ↦ some_inner queries file content ]

  pub metadata_term : Term x → FileEntry x → Result (Option Bool)
  metadata_term (related recursive query) file = ok none
  metadata_term (resolved result) file = ok (resolved_truth x result file)
  metadata_term (Term.content needle sensitive) file = ok none
  metadata_term (matched TextTarget.content matcher) file = ok none
  metadata_term t file = term_matches x t file none >>= λ value. ok (some value)

  unfoldable mutual
    unfolding metadata_term

    pub metadata_truth : Query x → FileEntry x → Result (Option Bool)
    metadata_truth all file = ok (some true)
    metadata_truth (and queries) file = metadata_loop false queries file false
    metadata_truth (or queries) file = metadata_loop true queries file false
    metadata_truth (Query.not query) file = metadata_truth query file >>= λ v. ok (negated v)
    metadata_truth (term t) file = metadata_term t file

    pub metadata_loop : Bool → Queries x → FileEntry x → Bool → Result (Option Bool)
    metadata_loop decisive nil file doubt = ok (undecided doubt (not decisive))
    metadata_loop decisive (cons query queries) file doubt = metadata_truth query file >>= λ v.
        elim (turn decisive doubt v) [
          | stop value ↦ ok (some value)
          | next doubt' ↦ metadata_loop decisive queries file doubt'
        ]

  -- The terms of `indexed_truth`, in the order of its arms.
  abbrev pub has_number : FileEntry x → Text → Bool
  has_number file field = elim (file.properties field) [
    | none ↦ false
    | some value ↦ is_some (x.as_f64 value)
  ]

  pub indexed_term : Term x → FileEntry x → Option Text → Result (Option Bool)
  unfolding inner_term
  indexed_term (resolved result) file content = ok (resolved_truth x result file)
  indexed_term (related recursive query) file content = err needs_snapshot
  indexed_term (property_text key needle) file content =
      decided (not (is_some (file.properties key)))
        (inner_term (property_text key needle) file content)
  indexed_term (matched (property key) matcher) file content =
      decided (not (is_some (file.properties key)))
        (inner_term (matched (property key) matcher) file content)
  indexed_term (matched TextTarget.content matcher) file content =
      decided (not (is_some content)) (inner_term (matched TextTarget.content matcher) file content)
  indexed_term (Term.content needle sensitive) file content =
      decided (not (is_some content)) (inner_term (Term.content needle sensitive) file content)
  indexed_term (number field low high include_low include_high negate) file content =
      decided (numeric_property field && not (has_number file field))
        (inner_term (number field low high include_low include_high negate) file content)
  indexed_term t file content = inner_term t file content >>= λ v. ok (some v)

  unfoldable mutual
    unfolding indexed_term

    pub indexed_truth : Query x → FileEntry x → Option Text → Result (Option Bool)
    indexed_truth all file content = ok (some true)
    indexed_truth (and queries) file content = indexed_loop false queries file content false
    indexed_truth (or queries) file content = indexed_loop true queries file content false
    indexed_truth (Query.not query) file content =
        indexed_truth query file content >>= λ v. ok (negated v)
    indexed_truth (term t) file content = indexed_term t file content

    pub indexed_loop : Bool → Queries x → FileEntry x → Option Text → Bool → Result (Option Bool)
    indexed_loop decisive nil file content doubt = ok (undecided doubt (not decisive))
    indexed_loop decisive (cons query queries) file content doubt =
        indexed_truth query file content >>= λ v. elim (turn decisive doubt v) [
          | stop value ↦ ok (some value)
          | next doubt' ↦ indexed_loop decisive queries file content doubt'
        ]

  -- `Query::matches`
  pub matches : Query x → FileEntry x → Option Text → Result Bool
  matches query file content =
      if requires_relations query
      then certain (indexed_truth query file content)
      else matches_inner query file content

  pub matches_available : Query x → FileEntry x → Option Text → Result Bool
  unfolding matches
  matches_available query file content =
      if not (is_some content) && requires_content query
      then certain (metadata_truth query file)
      else matches query file content

  pub may_match_without_content : Query x → FileEntry x → Result Bool
  may_match_without_content query file = possible (metadata_truth query file)

  pub extraction_term : Term x → FileEntry x → Result (Option Bool)
  unfolding matches
  extraction_term (related recursive query) file = ok none
  extraction_term (resolved result) file = ok (resolved_truth x result file)
  extraction_term (Term.content needle sensitive) file = ok none
  extraction_term (property_text key needle) file = ok none
  extraction_term (matched TextTarget.content matcher) file = ok none
  extraction_term (matched (property key) matcher) file = ok none
  extraction_term (number field low high include_low include_high negate) file =
      decided (numeric_property field)
        (matches (term (number field low high include_low include_high negate)) file none)
  extraction_term (unknown field negate) file =
      decided (numeric_property field) (matches (term (unknown field negate)) file none)
  extraction_term t file = matches (term t) file none >>= λ v. ok (some v)

  unfoldable mutual
    unfolding extraction_term

    pub extraction_truth : Query x → FileEntry x → Result (Option Bool)
    extraction_truth all file = ok (some true)
    extraction_truth (and queries) file = extraction_loop false queries file false
    extraction_truth (or queries) file = extraction_loop true queries file false
    extraction_truth (Query.not query) file = extraction_truth query file >>= λ v. ok (negated v)
    extraction_truth (term t) file = extraction_term t file

    pub extraction_loop : Bool → Queries x → FileEntry x → Bool → Result (Option Bool)
    extraction_loop decisive nil file doubt = ok (undecided doubt (not decisive))
    extraction_loop decisive (cons query queries) file doubt = extraction_truth query file >>= λ v.
        elim (turn decisive doubt v) [
          | stop value ↦ ok (some value)
          | next doubt' ↦ extraction_loop decisive queries file doubt'
        ]

  pub may_match_before_extraction : Query x → FileEntry x → Result Bool
  may_match_before_extraction query file = possible (extraction_truth query file)
