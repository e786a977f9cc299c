-- ===== src/Query/Truth/Examples.antt =====
-- Tests of the evaluation of queries: one row, and queries on its name, its content and its width.
use apfsearch.Prelude.{Option, if◌then◌else◌, ◌≡◌, ◌≢◌, refl, true, false, none, some}
use apfsearch.Result.{ok}
use apfsearch.Integer.{pos}
use apfsearch.Text.{Text, codes, as_bytes, contains, is_ascii, to_ascii_lowercase}
use apfsearch.External.Plain.{plain}
use apfsearch.Query.Ast.{Query, Term, FileEntry, name, nil, cons}
use apfsearch.Query.Leaf.{term_matches, numeric_property}
use apfsearch.Query.Truth.Stable.{Every, extracted}
use apfsearch.Query.Keyword.{text_property}
use apfsearch.TextView.{is_some}
use apfsearch.Query.Truth.Extraction.{IsExtraction, may_match_before_extraction_sound}
use apfsearch.Query.Truth.{
  may_match_before_extraction, extraction_truth, requires_content, requires_relations,
  matches_inner, metadata_truth, indexed_truth, may_match_without_content, matches_available,
}
use apfsearch.Query.Truth.Metadata.{may_match_without_content_sound, metadata_truth_sound}
use apfsearch.Query.Truth.Content.{matches_inner_content_free, matches_available_sound}
use apfsearch.Query.Truth.Indexed.{IsIndexing, indexed_truth_sound}

abbrev pub report : FileEntry plain
report = record {
  id = pos 7;
  size = 10;
  modified = pos 100;
  created = pos 90;
  flags = 0;
  path = record { prefix = codes "/tmp/"; suffix = codes "report.txt" };
  name = codes "report.txt";
  folded_name = codes "report.txt";
  folded_path = record { prefix = codes "/tmp/"; suffix = codes "report.txt" };
  search_name = codes "report.txt";
  search_path = record { prefix = codes "/tmp/"; suffix = codes "report.txt" };
  parent = codes "/tmp";
  extension = codes "txt";
  folded_extension = codes "txt";
  is_dir = false;
  is_symlink = false;
  properties = λ key. none;
}

abbrev pub named : Text → Query plain
named word = Query.term (Term.text name word (as_bytes word) false)

abbrev body : Text
body = codes "alpha beta"

-- A name that the row does not have, a word of the content, and an artist.
abbrev rejected : Query plain
rejected = Query.and (
    cons (Query.term (Term.content (codes "beta") false)) (
      cons (Query.term (Term.property_text (codes "artist") (codes "alpha")))
        (cons (named (codes "draft")) nil)))

-- The row's name, or a word of the content.
abbrev accepted : Query plain
accepted =
    Query.or
      (cons (Query.term (Term.content (codes "gamma") false)) (cons (named (codes "report")) nil))

may_match_without_content_sound_example : matches_inner plain rejected report (some body) ≢ ok true
unfolding may_match_without_content metadata_truth matches_inner term_matches as_bytes contains
    is_ascii to_ascii_lowercase
may_match_without_content_sound_example =
    may_match_without_content_sound plain report (some body) rejected refl

metadata_truth_sound_example : matches_inner plain accepted report (some body) ≢ ok false
unfolding metadata_truth matches_inner term_matches as_bytes contains is_ascii to_ascii_lowercase
metadata_truth_sound_example = metadata_truth_sound plain report (some body) accepted true refl

matches_available_sound_example : matches_available plain accepted report (some body) ≢ ok false
unfolding matches_available metadata_truth matches_inner term_matches requires_relations
    requires_content as_bytes contains is_ascii to_ascii_lowercase
matches_available_sound_example = matches_available_sound plain report accepted body refl refl

matches_inner_content_free_example :
    matches_inner plain (named (codes "report")) report none
    ≡ matches_inner plain (named (codes "report")) report (some body)
unfolding requires_content
matches_inner_content_free_example =
    matches_inner_content_free plain report none (some body) (named (codes "report")) refl

-- After extraction the row has its numbers and its texts.
abbrev later : Text → Option Text
later key =
    if numeric_property key
    then some (codes "100")
    else if text_property key
    then some (codes "alpha")
    else none

later-IsExtraction : IsExtraction plain report later
later-IsExtraction key h k = rw (h, k) refl

nothing_lost :
    (key value : Text)
    → report.properties key ≡ some value
    → (numeric_property key ≡ true → is_some (plain.as_f64 value) ≡ true)
    → later key ≡ some value
nothing_lost key value h = cc

no_content : (text : Text) → none ≡ some text → some body ≡ some text
no_content text h = cc

later-IsIndexing : IsIndexing plain report later none (some body)
later-IsIndexing = (nothing_lost, (later-IsExtraction, no_content))

indexed_truth_sound_example :
    matches_inner plain rejected (extracted plain report later) (some body) ≢ ok true
unfolding indexed_truth matches_inner term_matches as_bytes contains is_ascii to_ascii_lowercase
    Every numeric_property
indexed_truth_sound_example =
    indexed_truth_sound plain report later none (some body) later-IsIndexing rejected false
      (tt, (refl, (tt, tt))) refl

may_match_before_extraction_sound_example :
    matches_inner plain rejected (extracted plain report later) (some body) ≢ ok true
unfolding may_match_before_extraction extraction_truth matches_inner term_matches requires_relations
    requires_content as_bytes contains is_ascii to_ascii_lowercase Every
may_match_before_extraction_sound_example =
    may_match_before_extraction_sound plain report later (some body) later-IsExtraction rejected
      (tt, (tt, (tt, tt))) refl
