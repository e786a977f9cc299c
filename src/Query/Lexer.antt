-- ===== src/Query/Lexer.antt =====
-- The lexer of core/src/query.rs.
use apfsearch.Prelude.{
  ℕ, zero, suc, ◌+◌, ◌-◌, Bool, true, false, not as Bool_not, ◌&&◌, ◌||◌, Option, none, some, List,
  [], ◌∷◌, ◌++◌, ltb, leb, ◌==◌, if◌then◌else◌, length,
}
use apfsearch.Result.{
  Result, ok, err, ◌>>=◌, query_too_long, too_many_tokens, unclosed_quotation, unexpected_character,
  out_of_fuel,
}
use apfsearch.Text.{Text, byte_length, split_at, is, is_empty}
use apfsearch.Query.Keyword.{keyword}
use apfsearch.Query.Leaf.{is_metric, numeric_property}
pub mod Total
mod Examples

-- An atom has its text and the byte offset from which it is literal.
pub data Token : Type 0 where
  atom : Text → Option ℕ → Token
  left right or not and : Token

-- The variables of the loop over the characters of one atom.
pub record Scan : Type 0 where
  pub text : Text
  pub quoted : Bool
  pub had_quote : Bool
  pub literal_from : Option ℕ
  pub regex_parentheses : ℕ
  pub regex_mode : Bool
  pub regex_escaped : Bool
  pub regex_class : Bool
  pub numeric_comparison : Bool
  pub component_start : ℕ

abbrev start_scan : Scan
start_scan = record {
  text = [];
  quoted = false;
  had_quote = false;
  literal_from = none;
  regex_parentheses = 0;
  regex_mode = false;
  regex_escaped = false;
  regex_class = false;
  numeric_comparison = false;
  component_start = 0;
}

-- `s.ends_with(c)`
abbrev ends_with : Text → ℕ → Bool
ends_with [] c = false
ends_with (d ∷ []) c = d == c
ends_with (d ∷ e ∷ text) c = ends_with (e ∷ text) c

-- What one turn does with its character: leave it and stop, take it, or take the next one too.
pub data Action : Type 0 where
  stop : Action
  take_one take_two : Scan → Action

-- A quotation mark is not part of the text.
quotation : Scan → Scan
quotation s = record s {
  quoted = Bool_not s.quoted;
  had_quote = true;
  literal_from =
      if s.quoted
      then s.literal_from
      else elim s.literal_from [ none ↦ some (byte_length s.text) | some offset ↦ some offset ];
}

-- `s.regex_mode && !regex_escaped && !regex_class`
abbrev in_regex : Scan → Bool
in_regex s = s.regex_mode && (Bool_not s.regex_escaped && Bool_not s.regex_class)

-- The tests for which the loop ends before an unquoted character.
breaks : Scan → ℕ → Bool
breaks s c =
    if in_regex s
    then (c == b'<' && ends_with s.text b':')
      || ((c == b')' || c == b'>') && s.regex_parentheses == 0)
    else Bool_not s.regex_mode
      && ((c == b'(' || (c == b')' || c == b'|'))
          || ((c == b'<' || c == b'>')
              && (Bool_not s.numeric_comparison && Bool_not (ends_with s.text b'='))))

-- The nesting of an unquoted regular expression.
parentheses : Scan → ℕ → ℕ
parentheses s c =
    if in_regex s && Bool_not s.quoted
    then (if c == b'('
        then s.regex_parentheses + 1
        else if c == b')'
        then s.regex_parentheses - 1
        else s.regex_parentheses)
    else s.regex_parentheses

numeric_key : Text → Bool
numeric_key key =
    numeric_property key
    || (is_metric key
        || (is key "size"
            || (is key "width"
                || (is key "height"
                    || (is key "duration"
                        || (is key "pages"
                            || (is key "dm"
                                || (is key "dc"
                                    || (is key "modified"
                                        || (is key "created"
                                            || (is key "datemodified"
                                                || is key "datecreated")))))))))))

-- The mode after the key before a colon.
mode_after : Bool → Text → Bool
mode_after mode key = if is key "noregex" then false else if is key "regex" then true else mode

abbrev take_key : Scan → Text → Scan
unfolding mode_after numeric_key
take_key s key = record s {
  regex_mode = mode_after s.regex_mode key;
  numeric_comparison = numeric_key key;
  component_start = byte_length s.text + 1;
}

colon : Scan → ℕ → Scan
colon s c =
    if c == b':'
    then take_key s (keyword (split_at s.component_start s.text).1)
    else record s { numeric_comparison = false }

-- Escapes and classes of an unquoted regular expression.
regex_state : Scan → ℕ → Scan
regex_state s c =
    if s.regex_mode && Bool_not s.quoted
    then (if s.regex_escaped
        then record s { regex_escaped = false }
        else if c == b'\\'
        then record s { regex_escaped = true }
        else if c == b'['
        then record s { regex_class = true }
        else if c == b']'
        then record s { regex_class = false }
        else s)
    else s

-- The end of a turn: the character is added to the text.
take_char : Scan → ℕ → Scan
unfolding parentheses colon regex_state
take_char s c =
    let nested = record s { regex_parentheses = parentheses s c } in
    let r = regex_state (colon nested c) c in record r { text = r.text ++ (c ∷ []) }

abbrev escapable : Option ℕ → Bool
escapable none = false
escapable (some c) = c == b'"' || c == b'\\'

abbrev or_backslash : Option ℕ → ℕ
or_backslash none = b'\\'
or_backslash (some c) = c

token_of : Scan → Result Token
token_of s =
    if s.quoted
    then err unclosed_quotation
    else if is_empty s.text && Bool_not s.had_quote
    then err unexpected_character
    else if Bool_not s.had_quote && is s.text "OR"
    then ok or
    else if Bool_not s.had_quote && is s.text "AND"
    then ok and
    else if Bool_not s.had_quote && is s.text "NOT"
    then ok not
    else ok (atom s.text s.literal_from)

abbrev punctuation : ℕ → Option Token
punctuation c =
    if c == b'(' || c == b'<'
    then some left
    else if c == b')' || c == b'>'
    then some right
    else if c == b'|'
    then some or
    else if c == b'!'
    then some not
    else none

module _ (is_whitespace : ℕ → Bool) where
  turn : Scan → ℕ → Option ℕ → Action
  unfolding quotation breaks take_char
  turn s c next =
      if c == b'"'
      then take_one (quotation s)
      else if c == b'\\' && s.quoted
      then (if escapable next
          then take_two (record s { text = s.text ++ (or_backslash next ∷ []) })
          else take_one (record s { text = s.text ++ (b'\\' ∷ []) }))
      else if Bool_not s.quoted && (is_whitespace c || breaks s c)
      then stop
      else take_one (take_char s c)

  -- The loop over the characters of an atom, with what is left of the input.
  pub scan : Scan → Text → Scan × Text
  scan s [] = (s, [])
  scan s (c ∷ []) = elim (turn s c none) [
    | stop ↦ (s, c ∷ [])
    | take_one s' ↦ (s', [])
    | take_two s' ↦ (s', [])
  ]
  scan s (c ∷ d ∷ input) = elim (turn s c (some d)) [
    | stop ↦ (s, c ∷ d ∷ input)
    | take_one s' ↦ scan s' (d ∷ input)
    | take_two s' ↦ scan s' input
  ]

  -- The outer loop: `count` tokens are out. Each turn consumes a character, so that one turn more
  -- than the input has characters is fuel enough.
  pub lex_from : ℕ → ℕ → Text → Result (List Token)
  unfolding token_of
  lex_from zero count input = err out_of_fuel
  lex_from (suc fuel) count [] = ok []
  lex_from (suc fuel) count (c ∷ input) = elim (leb 8192 count) [
    | true ↦ err too_many_tokens
    | false ↦ elim (is_whitespace c) [
      | true ↦ lex_from fuel count input
      | false ↦ elim (punctuation c) [
        | some token ↦ lex_from fuel (count + 1) input >>= λ tokens. ok (token ∷ tokens)
        | none ↦ token_of (scan start_scan (c ∷ input)).0 >>= λ token.
            lex_from fuel (count + 1) (scan start_scan (c ∷ input)).1 >>= λ tokens.
            ok (token ∷ tokens)
      ]
    ]
  ]

  pub lex : Text → Result (List Token)
  lex input =
      if ltb 65536 (byte_length input)
      then err query_too_long
      else lex_from (suc (length input)) 0 input
