-- ===== src/Query/Parser/Ends.antt =====
-- The loop of the parser ends: a measure of its variables falls with each turn.
use apfsearch.Prelude.{
  ℕ, zero, suc, ◌+◌, ◌*◌, ◌≤◌, ◌<◌, ◌≡◌, refl, Bool, true, false, Option, none, some, List, [], ◌∷◌,
  length, leb, if◌then◌else◌, arith,
}
use apfsearch.Result.{macro_too_deep, nesting_too_deep, Result, ok, err, ◌>>=◌}
use apfsearch.Text.{Text}
use apfsearch.External.{External}
use apfsearch.Query.Ast.{MatchOptions, Query}
use apfsearch.Query.Lexer.{Token, left, right, lex}
use apfsearch.Query.Parser.{
  ExpressionFrame, ExpressionScope, Parser, Turn, more, done, group, root, macro, close, resume,
  finish, close_frame, group_scope, macro_value, expand_macro, take_atom, take_token, operand,
  after_operand, step, run, start, if_some, spend, Step, return_to, enter_macro, next_disjunction,
  reject_if, next_token,
}

module _ (x : External) where
  abbrev waiting : Bool → ℕ
  waiting true = 0
  waiting false = 1

  -- An expression of the budget pays for a suspended frame and for an accepted operand.
  abbrev pub measure : Parser x → ℕ
  measure p = 3 * p.remaining + length p.suspended + waiting p.frame.expecting_operand

  abbrev Falls : ℕ → Turn (Parser x) (Query x) → Type 0
  Falls bound (more p) = measure p < bound
  Falls bound (done r) = Unit {0}

  -- What follows a turn has less than `bound`.
  abbrev Under : ℕ → Step x → Type 0
  Under bound (ok t) = Falls bound t
  Under bound (err e) = Unit {0}

  Under->>= {ℓ} :
      {A : Type ℓ} (bound : ℕ) (m : Result A) (f : A → Step x)
      → ((a : A) → m ≡ ok a → Under bound (f a))
      → Under bound (m >>= f)
  Under->>= bound (ok a) f h = h a refl
  Under->>= bound (err e) f h = tt

  Under-if_some {ℓ} :
      {A : Type ℓ} (bound : ℕ) (o : Option A) (f : A → Step x) (s : Step x)
      → ((a : A) → Under bound (f a))
      → Under bound s
      → Under bound (if_some o f s)
  Under-if_some bound (some a) f s h k = h a
  Under-if_some bound none f s h k = k

  Under-if :
      (bound : ℕ) (b : Bool) (s t : Step x)
      → (b ≡ true → Under bound s)
      → (b ≡ false → Under bound t)
      → Under bound (if b then s else t)
  Under-if bound true s t h k = h refl
  Under-if bound false s t h k = k refl

  resume_waits :
      (s : ExpressionScope) (tokens : List Token) (q : Query x) (parent : ExpressionFrame x)
      → (resume x s tokens q parent).expecting_operand ≡ false
  unfolding resume
  resume_waits (group d r) tokens q parent = refl
  resume_waits root tokens q parent = refl
  resume_waits macro tokens q parent = refl

  return_to-Falls :
      (fs : List (ExpressionFrame x)) (p : Parser x) (tokens : List Token) (bound : ℕ)
      → 3 * p.remaining + length fs < bound
      → Falls bound (return_to x fs p tokens)
  unfolding return_to
  return_to-Falls [] p tokens bound h = tt
  return_to-Falls (parent ∷ rest) p tokens bound h =
      rw (resume_waits p.frame.scope tokens (finish x p.frame) parent) (omega arith)

  close_frame-Under :
      (p : Parser x) (bound : ℕ)
      → 3 * p.remaining + length p.suspended < bound
      → Under bound (close_frame x p)
  unfolding close_frame
  close_frame-Under p bound h =
      Under->>= bound (close x p.frame.scope p.frame.tokens) _
        (λ tokens e. return_to-Falls p.suspended p tokens bound h)

  enter_macro-Falls :
      (p : Parser x) (tokens : List Token) (bound : ℕ)
      → 3 * p.remaining + length p.suspended + 1 < bound
      → Falls bound (enter_macro x p tokens)
  unfolding enter_macro
  enter_macro-Falls p [] bound h = omega arith
  enter_macro-Falls p (t ∷ tokens) bound h = omega arith

  waiting_le : (b : Bool) → waiting b ≤ 1
  waiting_le true = omega arith
  waiting_le false = omega arith

  spend_lem : (n r : ℕ) → spend n ≡ ok r → n ≡ suc r
  spend_lem zero r h = cc
  spend_lem (suc n) r h = cc

  module _ (macros : Text → Option Text)
      (atom_with_options : Text → MatchOptions x → Option ℕ → Result (Query x)) where
    take_atom-Under :
        (p : Parser x) (text : Text) (literal_from : Option ℕ) (bound : ℕ)
        → 3 * p.remaining + length p.suspended + 1 < bound
        → Under bound (take_atom x macros atom_with_options p text literal_from)
    unfolding take_atom expand_macro
    take_atom-Under p text literal_from bound h =
        Under-if_some bound (group_scope x text literal_from p.frame.tokens p.frame.options) _ _
          (λ s. omega arith)
          (Under-if_some bound (macro_value x macros atom_with_options text literal_from) _ _
            (λ value.
              Under->>= bound (reject_if (leb 16 p.frame.macro_depth) macro_too_deep) _ (λ fits e.
                Under->>= bound (lex x.is_whitespace value) _
                  (λ tokens e'. enter_macro-Falls p tokens bound h)))
            (Under->>= bound (atom_with_options text p.frame.options literal_from) _
              (λ q e. omega arith)))

    take_token-Under :
        (p : Parser x) (t : Token) (bound : ℕ)
        → 3 * p.remaining + length p.suspended + 1 < bound
        → Under bound (take_token x macros atom_with_options p t)
    unfolding take_token
    take_token-Under p Token.not bound h = omega (arith, waiting_le p.frame.expecting_operand)
    take_token-Under p Token.or bound h = tt
    take_token-Under p Token.and bound h = tt
    take_token-Under p right bound h = tt
    take_token-Under p left bound h = omega arith
    take_token-Under p (Token.atom text literal_from) bound h =
        take_atom-Under p text literal_from bound h

    operand-Under :
        (p : Parser x) (bound : ℕ)
        → 3 * p.remaining + length p.suspended ≤ bound
        → Under bound (operand x macros atom_with_options p)
    unfolding operand
    operand-Under p bound h =
        Under->>= bound (reject_if (leb 128 (p.frame.nesting + p.frame.negations)) nesting_too_deep)
          _
          (λ fits e. Under->>= bound (spend p.remaining) _ (λ r e'.
            Under->>= bound (next_token p.frame.tokens) _ (λ next e''.
              take_token-Under
                (record p { remaining = r; frame = record p.frame { tokens = next.1 } }) next.0
                bound (omega (arith, spend_lem p.remaining r e')))))

    after_operand-Under :
        (p : Parser x) (tokens : List Token) (bound : ℕ)
        → 3 * p.remaining + length p.suspended < bound
        → Under bound (after_operand x macros atom_with_options p tokens)
    unfolding after_operand
    after_operand-Under p (Token.or ∷ tokens) bound h = omega arith
    after_operand-Under p [] bound h = close_frame-Under p bound h
    after_operand-Under p (right ∷ tokens) bound h = close_frame-Under p bound h
    after_operand-Under p (Token.and ∷ tokens) bound h =
        operand-Under (next_disjunction x macros atom_with_options p tokens) bound (omega arith)
    after_operand-Under p (Token.not ∷ tokens) bound h =
        operand-Under (next_disjunction x macros atom_with_options p (Token.not ∷ tokens)) bound
          (omega arith)
    after_operand-Under p (left ∷ tokens) bound h =
        operand-Under (next_disjunction x macros atom_with_options p (left ∷ tokens)) bound
          (omega arith)
    after_operand-Under p (Token.atom s o ∷ tokens) bound h =
        operand-Under (next_disjunction x macros atom_with_options p (Token.atom s o ∷ tokens))
          bound (omega arith)

    -- A turn that goes on lowers the measure.
    step-Under : (p : Parser x) → Under (measure p) (step x macros atom_with_options p)
    unfolding step
    step-Under p =
        Under-if (measure p) p.frame.expecting_operand _ _
          (λ e. operand-Under p (measure p) (omega arith))
          (λ e.
            let costs : waiting p.frame.expecting_operand ≡ 1 = rw e refl in
            after_operand-Under p p.frame.tokens (measure p) (omega arith))

    pub run_ends :
        (fuel : ℕ) (p : Parser x)
        → measure p < fuel
        → (r : Result (Query x)) × (run x macros atom_with_options fuel p ≡ some r)
    unfolding run
    run_ends zero p h = absurd (omega arith)
    run_ends (suc fuel) p h =
        go (step x macros atom_with_options p) refl (step-Under p)
          (λ p' less. run_ends fuel p' (omega arith))
      where
        go :
            (s : Step x)
            → step x macros atom_with_options p ≡ s
            → Under (measure p) s
            → ((p' : Parser x)
                → measure p' < measure p
                → (r : Result (Query x)) × (run x macros atom_with_options fuel p' ≡ some r))
            → (r : Result (Query x)) × (run x macros atom_with_options (suc fuel) p ≡ some r)
        go (err m) e u rec = (err m, rw (e, run) refl)
        go (ok (done q)) e u rec = (ok q, rw (e, run) refl)
        go (ok (more p')) e u rec = let (r, h') = rec p' u in (r, rw (e, run) h')

    -- The loop of the parser returns a query or an error: for every list of tokens, all macros and
    -- every reading of the atoms, no more than 24577 turns are taken, by the budget of 8192
    -- expressions.
    pub parser_ends :
        (tokens : List Token) (options : MatchOptions x)
        → (r : Result (Query x)) × (run x macros atom_with_options 24577
              (start x macros atom_with_options tokens options)
            ≡ some r)
    parser_ends tokens options =
        run_ends 24577 (start x macros atom_with_options tokens options) (omega arith)
