-- ===== src/Query/Matcher.antt =====
-- `TextMatcher` of core/src/query.rs: word and end boundaries around literal occurrences, and
-- regular expressions.
use apfsearch.Prelude.{
  ℕ, zero, suc, ◌+◌, Bool, true, false, not, ◌&&◌, ◌||◌, Option, none, some, [], ◌∷◌, ◌==◌,
  if◌then◌else◌, drop,
}
use apfsearch.Result.{Result, ok}
use apfsearch.Text.{
  Text, TextView, as_bytes, byte_length, split_at, is_ascii, len_utf8, with_scratch, text_eq,
  to_ascii_lowercase, parent_path,
}
use apfsearch.External.{External}
use apfsearch.Query.Fold.{fold, without_marks}
use apfsearch.Query.Ast.{
  Field, name, path, parent, TextTarget, content, MatchOptions, TextMatcher, FileEntry,
}

abbrev is_content : Option TextTarget → Bool
is_content (some content) = true
is_content _ = false

-- `text.chars().next_back()`, `text.chars().next()`
abbrev last_char : Text → Option ℕ
last_char [] = none
last_char (c ∷ []) = some c
last_char (c ∷ d ∷ text) = last_char (d ∷ text)

abbrev first_char : Text → Option ℕ
first_char [] = none
first_char (c ∷ text) = some c

-- `is_some_and`
abbrev pub is_some_and {ℓ} : {A : Type ℓ} → Option A → (A → Bool) → Bool
is_some_and none p = false
is_some_and (some a) p = p a

-- The parent of a path as text, with "" where there is none.
pub normalized_parent : Text → Text
normalized_parent text = elim (parent_path text) [ some p ↦ p | none ↦ [] ]

module _ (x : External) where
  pub normalized : Text → MatchOptions x → Text
  normalized s options =
      if is_ascii s
      then (if options.sensitive then s else to_ascii_lowercase s)
      else let text = if options.diacritics then x.nfc s else without_marks x s in
        if options.sensitive then text else fold x text

  -- The closure `word`.
  word : MatchOptions x → ℕ → Bool
  word options c =
      x.is_alphanumeric c || (is_content options.target && c == b'_' || x.is_combining_mark c)

  -- The test `boundary` of one occurrence.
  boundary : MatchOptions x → Text → ℕ → ℕ → Bool
  unfolding word
  boundary options haystack start end =
      (not options.start || start == 0)
      && ((not options.end || end == byte_length haystack)
          && ((not options.prefix
                || not (is_some_and (last_char (split_at start haystack).0) (word options)))
              && (not options.suffix
                  || not (is_some_and (first_char (split_at end haystack).1) (word options)))))

  -- The loop over the occurrences. Each turn raises `offset` by at least one byte, so that the
  -- length of the haystack and one more turn are fuel enough.
  search_from : ℕ → TextMatcher x → Text → ℕ → Bool
  unfolding boundary
  search_from zero m haystack offset = false
  search_from (suc fuel) m haystack offset =
      elim (x.find m.finder (drop offset (as_bytes haystack))) [
        | none ↦ false
        | some relative ↦
            let start = offset + relative in
            let rest = first_char (split_at start haystack).1 in
            elim (boundary m.options haystack start (start + byte_length m.needle)) [
              | true ↦ true
              | false ↦ elim rest [
                | none ↦ false
                | some c ↦ search_from fuel m haystack (start + len_utf8 c)
              ]
            ]
      ]

  pub matches_normalized : TextMatcher x → Text → Bool
  unfolding search_from
  matches_normalized m haystack =
      if m.options.whole
      then text_eq haystack m.needle
      else search_from (suc (byte_length haystack)) m haystack 0

  abbrev haystack_for : TextMatcher x → Text → Text
  haystack_for m haystack =
      if m.options.diacritics then x.nfc haystack else without_marks x haystack

  matches_regex : TextMatcher x → Option x.Regex → Text → Result Bool
  unfolding matches_normalized normalized
  matches_regex m (some regex) haystack =
      if is_ascii haystack
      then x.regex_is_match regex (as_bytes haystack)
      else x.regex_is_match regex (as_bytes (haystack_for m haystack))
  matches_regex m none haystack =
      if is_ascii haystack && m.options.sensitive
      then ok (matches_normalized m haystack)
      else ok (matches_normalized m (normalized haystack m.options))

  pub matches : TextMatcher x → Text → Result Bool
  unfolding matches_regex
  matches m haystack = matches_regex m m.regex haystack

  abbrev whole_view : Text → TextView
  whole_view text = record { prefix = []; suffix = text }

  -- `file.text(field)`
  abbrev pub entry_text : FileEntry x → Field → TextView
  entry_text file name = whole_view file.name
  entry_text file path = file.path
  entry_text file parent = whole_view file.parent

  -- The stored folded form that a case-insensitive literal is matched against.
  abbrev folded_text : FileEntry x → Field → Bool → TextView
  folded_text file name true = whole_view file.folded_name
  folded_text file name false = whole_view file.search_name
  folded_text file _ true = file.folded_path
  folded_text file _ false = file.search_path

  abbrev of_field : Field → Text → Text
  of_field parent text = normalized_parent text
  of_field _ text = text

  matches_folded : TextMatcher x → FileEntry x → Field → Result Bool
  unfolding matches_normalized normalized_parent
  matches_folded m file field =
      with_scratch (folded_text file field m.options.diacritics)
        (λ text. ok (matches_normalized m (of_field field text)))

  matches_entry : TextMatcher x → Option x.Regex → FileEntry x → Field → Result Bool
  unfolding matches matches_folded
  matches_entry m none file field =
      if m.options.sensitive
      then with_scratch (entry_text file field) (matches m)
      else matches_folded m file field
  matches_entry m (some regex) file field = with_scratch (entry_text file field) (matches m)

  unfoldable pub matches_file : TextMatcher x → FileEntry x → Field → Result Bool
  unfolding matches_entry
  matches_file m file field = matches_entry m m.regex file field
