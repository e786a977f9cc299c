-- ===== src/Query/Parser.antt =====
-- The expression parser of core/src/query.rs: an explicit stack of frames, and a budget of
-- expressions. `macros` is the caller's map, `atom` is `atom_with_options`.
use apfsearch.Prelude.{
  ℕ, zero, suc, ◌+◌, ◌-◌, ◌*◌, Bool, true, false, ◌&&◌, Option, none, some, List, [], ◌∷◌, ◌++◌,
  leb, ◌==◌, if◌then◌else◌, length, drop,
}
use apfsearch.Result.{
  Error, Result, ok, err, ◌>>=◌, unclosed_group, unexpected_closing_group, closing_group_in_macro,
  nesting_too_deep, too_many_expressions, missing_expression, macro_too_deep, expected_expression,
  out_of_fuel,
}
use apfsearch.Text.{Text, is_empty}
use apfsearch.External.{External}
use apfsearch.Query.Ast.{MatchOptions, Query, Queries, Term, nil, cons}
use apfsearch.Query.Keyword.{relation_scope, scoped_options, restrict_type, strip_colon}
use apfsearch.Query.Lexer.{Token, Token.atom, left, right, lex}
pub mod Ends
mod Examples

pub data ExpressionScope : Type 0 where
  root : ExpressionScope
  group : Option Bool → Option Bool → ExpressionScope
  macro : ExpressionScope

-- A group of queries as the tree holds it.
pub queries : (x : External) → List (Query x) → Queries x
queries x [] = nil
queries x (q ∷ qs) = cons q (queries x qs)

-- Whether the loop goes on.
pub data Turn {ℓ} (S : Type ℓ) (R : Type ℓ) : Type ℓ where
  more : S → Turn S R
  done : R → Turn S R

-- `if let Some(a) = o { taken(a) } else { otherwise }`
abbrev pub if_some {ℓ κ} : {A : Type ℓ} {B : Type κ} → Option A → (A → B) → B → B
if_some (some a) taken otherwise = taken a
if_some none taken otherwise = otherwise

-- A condition for which the loop returns with an error.
abbrev pub reject_if : Bool → Error → Result Bool
reject_if true e = err e
reject_if false e = ok true

-- The budget less one expression.
abbrev pub spend : ℕ → Result ℕ
spend zero = err too_many_expressions
spend (suc remaining) = ok remaining

abbrev pub next_token : List Token → Result (Token × List Token)
next_token [] = err missing_expression
next_token (t ∷ tokens) = ok (t, tokens)

module _ (x : External) where
  pub record ExpressionFrame : Type 0 where
    pub tokens : List Token
    pub options : MatchOptions x
    pub scope : ExpressionScope
    pub macro_depth : ℕ
    pub nesting : ℕ
    pub negations : ℕ
    pub expecting_operand : Bool
    pub conjunction : List (Query x)
    pub disjunction : List (Query x)

  abbrev pub new_frame : List Token → MatchOptions x → ExpressionScope → ℕ → ℕ → ExpressionFrame
  new_frame tokens options scope macro_depth nesting = record {
    tokens = tokens;
    options = options;
    scope = scope;
    macro_depth = macro_depth;
    nesting = nesting;
    negations = 0;
    expecting_operand = true;
    conjunction = [];
    disjunction = [];
  }

  pub negate : ℕ → Query x → Query x
  negate zero query = query
  negate (suc count) query = negate count (Query.not query)

  abbrev pub accept : ExpressionFrame → Query x → ExpressionFrame
  accept frame query = record frame {
    negations = 0;
    disjunction = frame.disjunction ++ (negate frame.negations query ∷ []);
    expecting_operand = false;
  }

  abbrev pub any_of : List (Query x) → Query x
  any_of [] = Query.or nil
  any_of (q ∷ []) = q
  any_of (p ∷ q ∷ qs) = Query.or (queries x (p ∷ q ∷ qs))

  abbrev pub finish_disjunction : ExpressionFrame → Query x
  finish_disjunction frame = any_of frame.disjunction

  abbrev pub finish : ExpressionFrame → Query x
  finish frame = elim frame.conjunction [
    | [] ↦ finish_disjunction frame
    | q ∷ qs ↦ Query.and (queries x ((q ∷ qs) ++ (finish_disjunction frame ∷ [])))
  ]

  -- The variables of the loop.
  pub record Parser : Type 0 where
    pub remaining : ℕ
    pub frame : ExpressionFrame
    pub suspended : List ExpressionFrame

  abbrev pub Step : Type 0
  Step = Result (Turn Parser (Query x))

  -- The tokens after the end of a frame's expression, if it may end here.
  pub close : ExpressionScope → List Token → Result (List Token)
  close (group is_dir related) (right ∷ tokens) = ok tokens
  close (group is_dir related) tokens = err unclosed_group
  close root [] = ok []
  close root (t ∷ tokens) = err unexpected_closing_group
  close macro [] = ok []
  close macro (t ∷ tokens) = err closing_group_in_macro

  abbrev pub relate : Query x → Option Bool → Query x
  relate query none = query
  relate query (some recursive) = Query.term (Term.related recursive query)

  -- A group consumes its parent's tokens; a macro has its own.
  pub resume : ExpressionScope → List Token → Query x → ExpressionFrame → ExpressionFrame
  resume (group is_dir related) tokens query parent =
      accept (record parent { tokens = tokens }) (relate (restrict_type x query is_dir) related)
  resume root tokens query parent = accept parent query
  resume macro tokens query parent = accept parent query

  -- The frame's query goes to the frame that waits for it.
  pub return_to : List ExpressionFrame → Parser → List Token → Turn Parser (Query x)
  unfolding resume
  return_to [] p tokens = done (finish p.frame)
  return_to (parent ∷ rest) p tokens =
      more
        record p { frame = resume p.frame.scope tokens (finish p.frame) parent; suspended = rest }

  pub close_frame : Parser → Step
  unfolding close return_to
  close_frame p =
      close p.frame.scope p.frame.tokens >>= λ tokens. ok (return_to p.suspended p tokens)

  -- What an atom before a group says of the group: its options and its scope.
  pub group_scope :
      Text → Option ℕ → List Token → MatchOptions x → Option (MatchOptions x × ExpressionScope)
  group_scope text literal_from [] options = none
  group_scope text (some zero) (t ∷ tokens) options = none
  group_scope text literal_from (left ∷ tokens) options =
      if_some (relation_scope x text options) (λ r. some (r.2, group r.1 (some r.0)))
        (if_some (scoped_options x text options) (λ s. some (s.0, group s.1 none)) none)
  group_scope text literal_from (t ∷ tokens) options = none

  -- The frame waits while its child is parsed.
  abbrev pub suspend : Parser → ExpressionFrame → Turn Parser (Query x)
  suspend p child = more record p { frame = child; suspended = p.frame ∷ p.suspended }

  -- The child has what was left of the frame's tokens.
  abbrev pub suspend_group :
      Parser → List Token → MatchOptions x → ExpressionScope → Turn Parser (Query x)
  suspend_group p tokens options scope =
      suspend (record p { frame = record p.frame { tokens = [] } })
        (new_frame tokens options scope p.frame.macro_depth
          (p.frame.nesting + p.frame.negations + 1))

  pub enter_macro : Parser → List Token → Turn Parser (Query x)
  enter_macro p [] = more record p { frame = accept p.frame Query.all }
  enter_macro p (t ∷ tokens) = suspend p (
      new_frame (t ∷ tokens) p.frame.options macro (p.frame.macro_depth + 1)
        (p.frame.nesting + p.frame.negations + 1))

  module _ (macros : Text → Option Text)
      (atom_with_options : Text → MatchOptions x → Option ℕ → Result (Query x)) where
    macro_value : Text → Option ℕ → Option Text
    macro_value text (some zero) = none
    macro_value text literal_from = if_some (strip_colon text) macros none

    expand_macro : Parser → Text → Step
    unfolding enter_macro
    expand_macro p value = reject_if (leb 16 p.frame.macro_depth) macro_too_deep >>= λ fits.
        lex x.is_whitespace value >>= λ tokens. ok (enter_macro p tokens)

    take_atom : Parser → Text → Option ℕ → Step
    unfolding macro_value expand_macro
    take_atom p text literal_from =
        if_some (group_scope text literal_from p.frame.tokens p.frame.options)
          (λ s. ok (suspend_group p (drop 1 p.frame.tokens) s.0 s.1))
          (if_some (macro_value text literal_from) (λ value. expand_macro p value)
            (atom_with_options text p.frame.options literal_from >>= λ query.
              ok (more record p { frame = accept p.frame query })))

    take_token : Parser → Token → Step
    unfolding take_atom
    take_token p Token.not =
        ok (more record p { frame = record p.frame { negations = p.frame.negations + 1 } })
    take_token p left = ok (suspend_group p p.frame.tokens p.frame.options (group none none))
    take_token p (Token.atom text literal_from) = take_atom p text literal_from
    take_token p t = err expected_expression

    -- The second half of a turn of the loop.
    operand : Parser → Step
    unfolding take_token
    operand p =
        reject_if (leb 128 (p.frame.nesting + p.frame.negations)) nesting_too_deep >>= λ fits.
        spend p.remaining >>= λ remaining. next_token p.frame.tokens >>= λ next.
        take_token (record p { remaining = remaining; frame = record p.frame { tokens = next.1 } })
          next.0

    -- An operand follows an operand, or `AND`: the disjunction is over.
    abbrev next_disjunction : Parser → List Token → Parser
    next_disjunction p tokens = record p {
      frame = record p.frame {
        tokens = tokens;
        conjunction = p.frame.conjunction ++ (finish_disjunction p.frame ∷ []);
        disjunction = [];
        expecting_operand = true;
      };
    }

    after_operand : Parser → List Token → Step
    unfolding close_frame operand
    after_operand p (Token.or ∷ tokens) =
        ok (more record p { frame = record p.frame { tokens = tokens; expecting_operand = true } })
    after_operand p [] = close_frame p
    after_operand p (right ∷ tokens) = close_frame p
    after_operand p (Token.and ∷ tokens) = operand (next_disjunction p tokens)
    after_operand p (t ∷ tokens) = operand (next_disjunction p (t ∷ tokens))

    -- One turn of the loop.
    pub step : Parser → Step
    unfolding after_operand operand
    step p = if p.frame.expecting_operand then operand p else after_operand p p.frame.tokens

    pub run : ℕ → Parser → Option (Result (Query x))
    run zero p = none
    run (suc fuel) p = elim (step p) [
      | err e ↦ some (err e)
      | ok t ↦ elim t [ done query ↦ some (ok query) | more p' ↦ run fuel p' ]
    ]

    abbrev pub start : List Token → MatchOptions x → Parser
    start tokens options = record {
      remaining = 8192;
      frame = new_frame tokens options root 0 0;
      suspended = [];
    }

    -- A query of no tokens is `All`. `options` is the default with the instant of the query.
    pub parse : Text → MatchOptions x → Result (Query x)
    unfolding run
    parse input options = lex x.is_whitespace input >>= λ tokens. elim tokens [
      | [] ↦ ok Query.all
      | t ∷ rest ↦ elim (run 24577 (start (t ∷ rest) options)) [
        | none ↦ err out_of_fuel
        | some r ↦ r
      ]
    ]
