-- ===== src/Query/Lexer/Examples.antt =====
-- Tests of the lexer.
use apfsearch.Prelude.{◌≡◌, refl, true, none, some, [], ◌∷◌}
use apfsearch.Result.{ok, err, unclosed_quotation}
use apfsearch.Text.{Text, codes, byte_length, split_at, to_ascii_lowercase}
use apfsearch.Query.Keyword.{keyword}
use apfsearch.Query.Leaf.{is_metric, numeric_property}
use apfsearch.External.Plain.{plain}
use apfsearch.Query.Lexer.{atom, left, right, or, not, lex, lex_from, scan, turn, take_key}
use apfsearch.Query.Lexer.Total.{ended, lex_ends}

abbrev grouped : Text
grouped = codes "!(a OR size:>3) \"b c\""

lex-grouped :
    lex plain.is_whitespace grouped
    ≡ ok (
        not
        ∷ left
        ∷ atom (codes "a") none
        ∷ or
        ∷ atom (codes "size:>3") none
        ∷ right
        ∷ atom (codes "b c") (some 0)
        ∷ [])
unfolding lex byte_length split_at keyword to_ascii_lowercase is_metric numeric_property lex_from
    scan turn take_key
lex-grouped = refl

lex-unclosed : lex plain.is_whitespace (codes "a \"b") ≡ err unclosed_quotation
unfolding lex byte_length split_at keyword to_ascii_lowercase is_metric numeric_property lex_from
    scan turn take_key
lex-unclosed = refl

lex_ends_example : ended (lex plain.is_whitespace grouped) ≡ true
lex_ends_example = lex_ends plain.is_whitespace grouped
