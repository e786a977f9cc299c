-- ===== src/Query/Truth/Stable.antt =====
-- Which terms of core/src/query.rs read what the extraction of a file sets, and that the others do
-- not notice it.
use apfsearch.Prelude.{◌≡◌, refl, Bool, true, false, Option, none, some}
use apfsearch.Result.{Result, ok, err}
use apfsearch.Text.{Text}
use apfsearch.External.{External}
use apfsearch.Query.Ast.{
  Field, name, path, parent, TextTarget, property, TextMatcher, Query, all, and, or, term, Queries,
  nil, cons, Term, pattern, unknown, number, property_text, matched, FileEntry,
}
use apfsearch.Query.Keyword.{text_property}
use apfsearch.Query.Matcher.{matches_file}
use apfsearch.Query.Leaf.{term_matches, numeric_property}
use apfsearch.Query.Truth.{inner_term, decided}
use apfsearch.Query.Truth.Agree.{Agree, Agree-lifted}

pub Agree-open : (m n : Result Bool) → Agree (decided true m) n
Agree-open (ok r) (ok s) = tt
Agree-open (ok r) (err e) = tt
Agree-open (err e) n = tt

-- Open, or decided by an evaluation that stays the same.
pub Agree-unless : (b : Bool) (m n : Result Bool) → (b ≡ false → m ≡ n) → Agree (decided b m) n
Agree-unless true m n f = Agree-open m n
Agree-unless false m n f = rw (f refl) (Agree-lifted n)

module _ (x : External) where
  -- A property of every term of a query, relations and what they ask for being one term.
  unfoldable mutual
    pub Every : (Term x → Type 0) → Query x → Type 0
    Every P all = Unit {0}
    Every P (and queries) = EveryIn P queries
    Every P (or queries) = EveryIn P queries
    Every P (Query.not query) = Every P query
    Every P (term t) = P t

    pub EveryIn : (Term x → Type 0) → Queries x → Type 0
    EveryIn P nil = Unit {0}
    EveryIn P (cons query queries) = Every P query × EveryIn P queries

  -- A numeric predicate names no text property, as the parser makes it.
  abbrev pub NamesNumber : Term x → Type 0
  NamesNumber (number field low high include_low include_high negate) = text_property field ≡ false
  NamesNumber (unknown field negate) = text_property field ≡ false
  NamesNumber _ = Unit {0}

  -- Besides, a text predicate names no number, and that a property is unknown is asked only of
  -- properties that extraction does not set.
  abbrev pub NamesSettled : Term x → Type 0
  NamesSettled (number field low high include_low include_high negate) = text_property field ≡ false
  NamesSettled (unknown field negate) =
      (numeric_property field ≡ false) × (text_property field ≡ false)
  NamesSettled (property_text key needle) = numeric_property key ≡ false
  NamesSettled (matched (property key) matcher) = numeric_property key ≡ false
  NamesSettled _ = Unit {0}

module _ (x : External) (file : FileEntry x) (later : Text → Option x.Value) where
  abbrev pub extracted : FileEntry x
  extracted = record file { properties = later }

  matches_file_same :
      (m : TextMatcher x) (regex : Option x.Regex) (f : Field)
      → m.regex ≡ regex
      → matches_file x m file f ≡ matches_file x m extracted f
  unfolding matches_file
  matches_file_same m none name h = rw h refl
  matches_file_same m none path h = rw h refl
  matches_file_same m none parent h = rw h refl
  matches_file_same m (some r) name h = rw h refl
  matches_file_same m (some r) path h = rw h refl
  matches_file_same m (some r) parent h = rw h refl

  -- The contents before and after extraction.
  module _ (before content : Option Text) where
    pub field_stable :
        (m : TextMatcher x) (f : Field)
        → inner_term x (matched (TextTarget.field f) m) file before
          ≡ inner_term x (matched (TextTarget.field f) m) extracted content
    unfolding inner_term term_matches
    field_stable m f = matches_file_same m m.regex f refl

    pub text_stable :
        (f : Field) (needle finder : Text) (sensitive : Bool)
        → inner_term x (Term.text f needle finder sensitive) file before
          ≡ inner_term x (Term.text f needle finder sensitive) extracted content
    unfolding inner_term term_matches
    text_stable name needle finder true = refl
    text_stable path needle finder true = refl
    text_stable parent needle finder true = refl
    text_stable name needle finder false = refl
    text_stable path needle finder false = refl
    text_stable parent needle finder false = refl

    pub pattern_stable :
        (f : Field) (regex : x.Regex)
        → inner_term x (pattern f regex) file before
          ≡ inner_term x (pattern f regex) extracted content
    unfolding inner_term term_matches
    pattern_stable name regex = refl
    pattern_stable path regex = refl
    pattern_stable parent regex = refl
