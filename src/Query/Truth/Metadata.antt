-- ===== src/Query/Truth/Metadata.antt =====
-- What `metadata_truth` of core/src/query.rs decides without the content of a file.
use apfsearch.Prelude.{◌≡◌, ◌≢◌, refl, Bool, true, false, not, Option, none, some, arith}
use apfsearch.Result.{Result, ok, err, ◌>>=◌}
use apfsearch.Text.{Text}
use apfsearch.External.{External}
use apfsearch.Query.Ast.{
  TextTarget, Query, all, and, or, term, Queries, nil, cons, Term, related, resolved, matched,
  FileEntry,
}
use apfsearch.Query.Leaf.{term_matches, resolved_truth}
use apfsearch.Query.Truth.Agree.{
  Agree, Only, Agree-eq, not_self, Agree-not, Only-turn, Agree-every, Agree-some, Agree-lifted,
  Agree-is_true,
}
use apfsearch.Query.Truth.{
  inner_term, matches_inner, every_inner, some_inner, metadata_term, metadata_truth, metadata_loop,
  may_match_without_content,
}

pub rejected :
    (m : Result (Option Bool))
    → (m >>= λ v. ok (elim v [ none ↦ true | some value ↦ value ])) ≡ ok false
    → m ≡ ok (some false)
rejected (ok none) h = cc
rejected (ok (some b)) h = cc
rejected (err e) h = cc

pub affirmed :
    (m : Result (Option Bool))
    → (m >>= λ v. ok (elim v [ none ↦ false | some value ↦ value ])) ≡ ok true
    → m ≡ ok (some true)
affirmed (ok none) h = cc
affirmed (ok (some b)) h = cc
affirmed (err e) h = cc

module _ (x : External) (file : FileEntry x) (content : Option Text) where
  metadata_term-Agree : (t : Term x) → Agree (metadata_term x t file) (inner_term x t file content)
  unfolding metadata_term inner_term term_matches
  metadata_term-Agree (related recursive query) = tt
  metadata_term-Agree (resolved result) = Agree-is_true (resolved_truth x result file)
  metadata_term-Agree (Term.content needle sensitive) = tt
  metadata_term-Agree (matched TextTarget.content matcher) = tt
  metadata_term-Agree (Term.text field needle finder true) =
      Agree-lifted (term_matches x (Term.text field needle finder true) file none)
  metadata_term-Agree (Term.text field needle finder false) =
      Agree-lifted (term_matches x (Term.text field needle finder false) file none)
  metadata_term-Agree t = Agree-lifted (term_matches x t file none)

  Only-metadata_loop :
      (decisive : Bool) (qs : Queries x) → Only decisive (metadata_loop x decisive qs file true)
  unfolding metadata_loop
  Only-metadata_loop decisive nil = tt
  Only-metadata_loop decisive (cons q qs) =
      Only-turn true (metadata_loop x decisive qs file) decisive (metadata_truth x q file)
        (Only-metadata_loop decisive qs)

  mutual
    unfolding metadata_truth matches_inner

    metadata_Agree :
        (q : Query x) → Agree (metadata_truth x q file) (matches_inner x q file content)
    metadata_Agree all = refl
    metadata_Agree (and queries) = every_Agree queries false
    metadata_Agree (or queries) = some_Agree queries false
    metadata_Agree (Query.not query) =
        Agree-not (metadata_truth x query file) (matches_inner x query file content)
          (metadata_Agree query)
    metadata_Agree (term t) = metadata_term-Agree t

    every_Agree :
        (qs : Queries x) (doubt : Bool)
        → Agree (metadata_loop x false qs file doubt) (every_inner x qs file content)
    every_Agree nil doubt = ground arith
    every_Agree (cons q qs) doubt =
        Agree-every doubt (metadata_loop x false qs file) (metadata_truth x q file)
          (matches_inner x q file content) (every_inner x qs file content) (metadata_Agree q)
          (every_Agree qs) (Only-metadata_loop false qs)

    some_Agree :
        (qs : Queries x) (doubt : Bool)
        → Agree (metadata_loop x true qs file doubt) (some_inner x qs file content)
    some_Agree nil doubt = ground arith
    some_Agree (cons q qs) doubt =
        Agree-some doubt (metadata_loop x true qs file) (metadata_truth x q file)
          (matches_inner x q file content) (some_inner x qs file content) (metadata_Agree q)
          (some_Agree qs) (Only-metadata_loop true qs)

  -- A row that `may_match_without_content` rejects matches with no content at all: whatever the
  -- content of the file is, the full evaluation is false, if it succeeds.
  pub may_match_without_content_sound :
      (q : Query x)
      → may_match_without_content x q file ≡ ok false
      → matches_inner x q file content ≢ ok true
  unfolding may_match_without_content
  may_match_without_content_sound q h e =
      let same : true ≡ false =
        Agree-eq (metadata_truth x q file) (matches_inner x q file content) false true
          (metadata_Agree q) (rejected (metadata_truth x q file) h) e in
      cc

  -- What `metadata_truth` decides, true or false, is the result of the full evaluation on any
  -- content of the file, where that evaluation succeeds.
  pub metadata_truth_sound :
      (q : Query x) (b : Bool)
      → metadata_truth x q file ≡ ok (some b)
      → matches_inner x q file content ≢ ok (not b)
  metadata_truth_sound q b h e = not_self b (
      Agree-eq (metadata_truth x q file) (matches_inner x q file content) b (not b)
        (metadata_Agree q) h e)
