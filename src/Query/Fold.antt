-- ===== src/Query/Fold.antt =====
-- The folding of query texts and of haystacks, core/src/query.rs.
use apfsearch.Prelude.{not, if◌then◌else◌}
use apfsearch.Text.{Text, is_ascii, to_ascii_lowercase, filter}
use apfsearch.External.{External}

module _ (x : External) where
  abbrev pub fold : Text → Text
  fold s = if is_ascii s then to_ascii_lowercase s else x.case_fold (x.nfc s)

  -- `s.nfd().filter(|c| !is_combining_mark(*c))`
  abbrev pub without_marks : Text → Text
  without_marks s = filter (λ c. not (x.is_combining_mark c)) (x.nfd s)

  abbrev pub fold_search : Text → Text
  fold_search s = if is_ascii s then to_ascii_lowercase s else fold (without_marks s)
