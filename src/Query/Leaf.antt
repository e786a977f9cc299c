-- ===== src/Query/Leaf.antt =====
-- `Term::matches_with_scratch` and `is_metric`: one predicate on one row.
-- Sources: core/src/query.rs, core/src/relations.rs.
use Prim.Native.Nat.{bit_and}
use apfsearch.Prelude.{
  Bool, true, false, not, ◌&&◌, ◌||◌, Option, none, some, List, [], ◌∷◌, ◌==◌, if◌then◌else◌,
}
use apfsearch.Integer.{as_u64}
use apfsearch.Result.{Result, ok, err, needs_snapshot}
use apfsearch.Text.{Text, Bytes, as_bytes, is_ascii, contains, is, text_eq, with_scratch}
use apfsearch.TextView.{TextView_contains, is_some}
use apfsearch.External.{External}
use apfsearch.Query.Fold.{fold_search}
use apfsearch.Query.Ast.{
  Field, name, path, parent, TextTarget, property, ResolvedPredicate, Term, pattern, related,
  resolved, is_dir, is_symlink, hidden, flags, unknown, number, property_text, matched, FileEntry,
}
use apfsearch.Query.Matcher.{matches, matches_file, entry_text, normalized_parent, is_some_and}

unfoldable pub is_metric : Text → Bool
is_metric field =
    is field "foldersize"
    || (is field "childcount"
        || (is field "childfilecount"
            || (is field "childfoldercount"
                || (is field "descendantcount"
                    || (is field "descendantfilecount" || is field "descendantfoldercount")))))

unfoldable pub numeric_property : Text → Bool
numeric_property key =
    is key "width"
    || (is key "height"
        || (is key "duration"
            || (is key "pages"
                || (is key "orientation"
                    || (is key "iso"
                        || (is key "focallength"
                            || (is key "aperture" || is key "exposuretime")))))))

abbrev pub is_true : Option Bool → Bool
is_true (some true) = true
is_true _ = false

module _ (x : External) where
  -- `ResolvedPredicate::truth`
  unfoldable pub resolved_truth : ResolvedPredicate x → FileEntry x → Option Bool
  resolved_truth result file =
      if x.treemap_contains result.positive (as_u64 file.id)
      then some true
      else if x.treemap_contains result.unknown (as_u64 file.id)
      then none
      else some false

  -- The value that a numeric predicate reads.
  pub numeric_value : Text → FileEntry x → Option x.Float
  numeric_value field file =
      if is field "size"
      then (if file.is_dir then none else some (x.float_of_u64 file.size))
      else if is field "modified"
      then some (x.float_of_i64 file.modified)
      else if is field "created"
      then some (x.float_of_i64 file.created)
      else elim (file.properties field) [ none ↦ none | some value ↦ x.as_f64 value ]

  abbrev inside : x.Float → x.Float → Bool → Bool → x.Float → Bool
  inside low high include_low include_high n =
      (if include_low then x.float_le low n else x.float_lt low n)
      && (if include_high then x.float_le n high else x.float_lt n high)

  unknown_value : Text → FileEntry x → Bool
  unknown_value field file =
      if is field "size"
      then file.is_dir
      else if is field "modified" || is field "created"
      then false
      else not
          (is_some (elim (file.properties field) [ none ↦ none | some value ↦ x.as_f64 value ]))

  -- `extensions.contains(..)`
  abbrev any_eq : List Text → Text → Bool
  any_eq [] text = false
  any_eq (e ∷ extensions) text = text_eq e text || any_eq extensions text

  abbrev starts_with_dot : Text → Bool
  starts_with_dot [] = false
  starts_with_dot (c ∷ text) = c == b'.'

  -- A literal in one field, in the case-insensitive mode.
  text_insensitive : Field → Bytes → FileEntry x → Bool
  text_insensitive name finder file = is_some (x.find finder (as_bytes file.search_name))
  text_insensitive path finder file = TextView_contains x.find file.search_path finder
  text_insensitive parent finder file =
      with_scratch file.search_path
        (λ text. is_some (x.find finder (as_bytes (normalized_parent text))))

  abbrev nfc_of : Text → Text
  nfc_of text = if is_ascii text then text else x.nfc text

  abbrev of_option : Option Text → (Text → Result Bool) → Result Bool
  of_option none f = ok false
  of_option (some s) f = f s

  abbrev text_of : Option x.Value → Option Text
  text_of none = none
  text_of (some value) = x.as_str value

  unfoldable pub term_matches : Term x → FileEntry x → Option Text → Result Bool
  unfolding resolved_truth numeric_value unknown_value text_insensitive
  term_matches (related recursive query) file content = err needs_snapshot
  term_matches (resolved result) file content = ok (is_true (resolved_truth result file))
  term_matches (flags mask) file content = ok (not (bit_and file.flags mask == 0))
  term_matches (Term.text field needle finder true) file content =
      ok (
        with_scratch (entry_text x file field) (λ t. is_some (x.find finder (as_bytes (nfc_of t)))))
  term_matches (Term.text field needle finder false) file content =
      ok (text_insensitive field finder file)
  term_matches (pattern field regex) file content =
      with_scratch (entry_text x file field) (λ t. x.regex_is_match regex (as_bytes (nfc_of t)))
  term_matches (matched (TextTarget.field f) matcher) file content = matches_file x matcher file f
  term_matches (matched TextTarget.content matcher) file content =
      of_option content (matches x matcher)
  term_matches (matched (property key) matcher) file content =
      of_option (text_of (file.properties key)) (matches x matcher)
  term_matches (matched TextTarget.extension matcher) file content =
      matches x matcher file.extension
  term_matches (Term.extension extensions) file content =
      if is_ascii file.folded_extension
      then ok (any_eq extensions file.folded_extension)
      else ok (any_eq extensions (fold_search x file.extension))
  term_matches (is_dir dir) file content = ok (if dir then file.is_dir else not file.is_dir)
  term_matches is_symlink file content = ok file.is_symlink
  term_matches hidden file content =
      ok (starts_with_dot file.name || not (bit_and file.flags 0x8000 == 0))
  term_matches (Term.content needle sensitive) file content = ok (
      is_some_and content (λ s.
        contains (as_bytes (if sensitive then x.nfc s else fold_search x s)) (as_bytes needle)))
  term_matches (property_text key needle) file content = ok (
      is_some_and (text_of (file.properties key))
        (λ s. contains (as_bytes (fold_search x s)) (as_bytes needle)))
  term_matches (unknown field negate) file content =
      ok (if negate then not (unknown_value field file) else unknown_value field file)
  term_matches (number field low high include_low include_high negate) file content = ok (
      is_some_and (numeric_value field file) (λ n.
        if negate
        then not (inside low high include_low include_high n)
        else inside low high include_low include_high n))
