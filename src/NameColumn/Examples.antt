-- ===== src/NameColumn/Examples.antt =====
-- Tests of core/src/name_column.rs.
use apfsearch.Prelude.{◌≡◌, refl, none}
use apfsearch.Result.{ok}
use apfsearch.Text.{codes, as_bytes}
use apfsearch.External.Plain.{plain}
use apfsearch.Query.Ast.{Query, nil, cons}
use apfsearch.Query.Truth.{matches_inner}
use apfsearch.Query.Truth.Examples.{report, named}
use apfsearch.NameColumn.{NameExpression, text, not, and, compile, retain, combined, name_matches}
use apfsearch.NameColumn.{cons as and_cons, nil as and_nil}
use apfsearch.NameColumn.Compiled.{compile_sound}

-- A literal twice, and the negation of another.
abbrev twice : Query plain
twice = Query.and (
    cons (named (codes "rep"))
      (cons (named (codes "rep")) (cons (Query.not (named (codes "draft"))) nil)))

abbrev compiled : NameExpression
compiled = and (
    and_cons (text (as_bytes (codes "rep")))
      (and_cons (not (text (as_bytes (codes "draft")))) and_nil))

compile_sound_example :
    matches_inner plain twice report none
    ≡ ok (name_matches plain compiled (as_bytes report.search_name))
unfolding compile retain combined as_bytes
compile_sound_example = compile_sound plain report none twice compiled refl
