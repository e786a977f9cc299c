-- ===== src/Query/Parser/Examples.antt =====
-- Tests of the parser.
use apfsearch.Prelude.{◌≡◌, true, false, Option, none, some, [], ◌∷◌, ℕ, List}
use apfsearch.Result.{Result, ok}
use apfsearch.Text.{Text, codes}
use apfsearch.External.Plain.{plain}
use apfsearch.Query.Ast.{MatchOptions, Query, name}
use apfsearch.Query.Truth.Examples.{named}
use apfsearch.Query.Lexer.{Token, Token.atom, left, right}
use apfsearch.Query.Parser.{run, start}
use apfsearch.Query.Parser.Ends.{parser_ends}

abbrev options : MatchOptions plain
options = record {
  now = tt;
  field = name;
  sensitive = false;
  regex = false;
  diacritics = false;
  prefix = false;
  suffix = false;
  whole = false;
  start = false;
  end = false;
  wildcards = true;
  target = none;
  dot_all = false;
  multiline = false;
}

abbrev no_macros : Text → Option Text
no_macros key = none

abbrev name_atom : Text → MatchOptions plain → Option ℕ → Result (Query plain)
name_atom text _ literal_from = ok (named text)

abbrev tokens : List Token
tokens =
    Token.not
    ∷ left
    ∷ atom (codes "a") none
    ∷ Token.or
    ∷ atom (codes "b") none
    ∷ right
    ∷ atom (codes "c") none
    ∷ []

parser_ends_example :
    (r : Result (Query plain)) × (run plain no_macros name_atom 24577
        (start plain no_macros name_atom tokens options)
      ≡ some r)
parser_ends_example = parser_ends plain no_macros name_atom tokens options
