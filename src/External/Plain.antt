-- ===== src/External/Plain.antt =====
-- A small instance of what the query engine takes from elsewhere, for the tests: ASCII text,
-- numbers for floats, texts for values.
use apfsearch.Prelude.{
  ℕ, suc, Bool, true, false, ◌&&◌, ◌||◌, Option, none, some, List, [], ◌∷◌, ltb, leb, ◌==◌,
  if◌then◌else◌,
}
use apfsearch.Result.{ok}
use apfsearch.Text.{Text, Bytes, starts_with}
use apfsearch.Integer.{as_u64}
use apfsearch.External.{External}

abbrev pub find : Bytes → Bytes → Option ℕ
find needle [] = if starts_with [] needle then some 0 else none
find needle (b ∷ haystack) = elim (starts_with (b ∷ haystack) needle) [
  | true ↦ some 0
  | false ↦ elim (find needle haystack) [ some i ↦ some (suc i) | none ↦ none ]
]

abbrev has : List ℕ → ℕ → Bool
has [] n = false
has (m ∷ ms) n = (m == n) || has ms n

abbrev pub plain : External
plain = record {
  Regex = Unit {0};
  Float = ℕ;
  Value = Text;
  Treemap = List ℕ;
  Instant = Unit {0};
  nfc = λ s. s;
  nfd = λ s. s;
  case_fold = λ s. s;
  is_combining_mark = λ c. false;
  is_alphanumeric = λ c. leb b'0' c && leb c b'9' || leb b'a' c && leb c b'z';
  is_whitespace = λ c. c == b' ';
  find = find;
  regex_is_match = λ r haystack. ok true;
  float_lt = ltb;
  float_le = leb;
  float_of_u64 = λ n. n;
  float_of_i64 = as_u64;
  as_str = λ v. some v;
  as_f64 = λ v. none;
  treemap_contains = has;
}
