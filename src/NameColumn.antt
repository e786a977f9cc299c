-- ===== src/NameColumn.antt =====
-- core/src/name_column.rs: a query on names alone is compiled to an expression that is evaluated on
-- the folded bytes of a name.
pub mod Compiled
mod Examples
use apfsearch.Prelude.{
  Bool, true, false, not as Bool_not, ◌&&◌, ◌||◌, Option, none, some, List, [], ◌∷◌, if◌then◌else◌,
  ◌>>=◌,
}
use apfsearch.Text.{Bytes, text_eq}
use apfsearch.TextView.{is_some}
use apfsearch.External.{External}
use apfsearch.Query.Ast.{Query, Queries, Term, name}

mutual
  pub data NameExpression : Type 0 where
    all : NameExpression
    text : Bytes → NameExpression
    and : NameExpressions → NameExpression
    or : NameExpressions → NameExpression
    not : NameExpression → NameExpression

  pub data NameExpressions : Type 0 where
    nil : NameExpressions
    cons : NameExpression → NameExpressions → NameExpressions

abbrev seen_before : List Bytes → Bytes → Bool
seen_before [] needle = false
seen_before (s ∷ seen) needle = text_eq s needle || seen_before seen needle

-- `compiled.retain(..)` with the set of the literals seen so far
pub retain : List Bytes → NameExpressions → NameExpressions
retain seen nil = nil
retain seen (cons (text needle) rest) =
    let dropped = retain seen rest in
    let kept = retain (needle ∷ seen) rest in
    if seen_before seen needle then dropped else cons (text needle) kept
retain seen (cons e rest) = cons e (retain seen rest)

-- A single child stands for itself.
pub combined : Bool → NameExpressions → NameExpression
combined conjunction (cons e nil) = e
combined true es = and es
combined false es = or es

module _ (x : External) where
  unfoldable mutual
    pub compile : Query x → Option NameExpression
    compile Query.all = some all
    compile (Query.term (Term.text name needle finder false)) = some (text finder)
    compile (Query.and children) =
        compile_all children >>= λ compiled. some (combined true (retain [] compiled))
    compile (Query.or children) =
        compile_all children >>= λ compiled. some (combined false (retain [] compiled))
    compile (Query.not child) = compile child >>= λ compiled. some (not compiled)
    compile _ = none

    -- `collect::<Option<Vec<_>>>()`
    pub compile_all : Queries x → Option NameExpressions
    compile_all Queries.nil = some nil
    compile_all (Queries.cons child children) =
        compile child >>= λ first. compile_all children >>= λ rest. some (cons first rest)

  unfoldable mutual
    pub name_matches : NameExpression → Bytes → Bool
    name_matches all bytes = true
    name_matches (text finder) bytes = is_some (x.find finder bytes)
    name_matches (and children) bytes = every_name children bytes
    name_matches (or children) bytes = some_name children bytes
    name_matches (not child) bytes = Bool_not (name_matches child bytes)

    pub every_name : NameExpressions → Bytes → Bool
    every_name nil bytes = true
    every_name (cons e rest) bytes = name_matches e bytes && every_name rest bytes

    pub some_name : NameExpressions → Bytes → Bool
    some_name nil bytes = false
    some_name (cons e rest) bytes = name_matches e bytes || some_name rest bytes
