-- ===== src/Query/Truth/Extraction.antt =====
-- What `extraction_truth` of core/src/query.rs decides before the properties and the content of a
-- file are extracted.
use apfsearch.Prelude.{
  ◌≡◌, ◌≢◌, refl, Bool, true, false, Option, none, some, arith, Bool-cases, inl, inr,
}
use apfsearch.Result.{Result, ok, err, ◌>>=◌}
use apfsearch.Text.{Text}
use apfsearch.External.{External}
use apfsearch.Query.Ast.{
  TextTarget, property, Query, all, and, or, term, Queries, nil, cons, Term, related, resolved,
  pattern, unknown, number, property_text, matched, FileEntry,
}
use apfsearch.Query.Leaf.{term_matches, resolved_truth, numeric_property}
use apfsearch.Query.Truth.{
  inner_term, matches_inner, every_inner, some_inner, extraction_term, extraction_truth,
  extraction_loop, may_match_before_extraction, decided, matches, certain, indexed_truth,
  indexed_term, requires_relations,
}
use apfsearch.Query.Truth.Agree.{
  Agree, Only, Agree-eq, Agree-not, Only-turn, Agree-every, Agree-some, Agree-lifted, Agree-is_true,
}
use apfsearch.Query.Truth.Metadata.{rejected}
use apfsearch.Query.Keyword.{text_property}
use apfsearch.Query.Truth.Stable.{
  Every, EveryIn, NamesNumber, extracted, field_stable, text_stable, pattern_stable, Agree-open,
}

certain_lifted : (m : Result Bool) → certain (m >>= λ v. ok (some v)) ≡ m
certain_lifted (ok r) = refl
certain_lifted (err e) = refl

-- `later` are the properties after extraction.
module _ (x : External) (file : FileEntry x) (later : Text → Option x.Value) where
  -- Extraction sets the numbers and the text properties of the content, to any values; any other
  -- key, such as a metric of the descendants, stays.
  abbrev pub IsExtraction : Type 0
  IsExtraction =
      (key : Text)
      → numeric_property key ≡ false
      → text_property key ≡ false
      → later key ≡ file.properties key

  abbrev row : FileEntry x
  row = extracted x file later

  module _ (content : Option Text) (same : IsExtraction) where
    number_same :
        (field : Text) (low high : x.Float) (il ih negate : Bool)
        → numeric_property field ≡ false
        → text_property field ≡ false
        → inner_term x (number field low high il ih negate) file none
          ≡ inner_term x (number field low high il ih negate) row content
    unfolding inner_term term_matches
    number_same field low high il ih negate h k = rw (same field h k) refl

    unknown_same :
        (field : Text) (negate : Bool)
        → numeric_property field ≡ false
        → text_property field ≡ false
        → inner_term x (unknown field negate) file none
          ≡ inner_term x (unknown field negate) row content
    unfolding inner_term term_matches
    unknown_same field negate h k = rw (same field h k) refl

    -- `matches` of a term is that of its one predicate, by whichever evaluation.
    term_whole :
        (t : Term x)
        → certain (indexed_truth x (term t) file none) ≡ inner_term x t file none
        → matches x (term t) file none ≡ inner_term x t file none
    unfolding matches matches_inner
    term_whole t c = elim (Bool-cases (requires_relations x (term t))) [
      | inl e ↦ rw e c
      | inr n ↦ rw n refl
    ]

    Agree-number :
        (field : Text) (low high : x.Float) (il ih negate : Bool) (b : Bool)
        → numeric_property field ≡ b
        → text_property field ≡ false
        → Agree
            (decided b (matches x (term (number field low high il ih negate)) file none))
            (inner_term x (number field low high il ih negate) row content)
    unfolding indexed_truth
    Agree-number field low high il ih negate true h k =
        Agree-open (matches x (term (number field low high il ih negate)) file none)
          (inner_term x (number field low high il ih negate) row content)
    Agree-number field low high il ih negate false h k =
        let t = number field low high il ih negate in
        rw
          (
            term_whole t (rw (h, indexed_term) (certain_lifted (inner_term x t file none))),
            number_same field low high il ih negate h k,
          )
          (Agree-lifted (inner_term x t row content))

    Agree-unknown :
        (field : Text) (negate : Bool) (b : Bool)
        → numeric_property field ≡ b
        → text_property field ≡ false
        → Agree
            (decided b (matches x (term (unknown field negate)) file none))
            (inner_term x (unknown field negate) row content)
    unfolding indexed_truth
    Agree-unknown field negate true h k =
        Agree-open (matches x (term (unknown field negate)) file none)
          (inner_term x (unknown field negate) row content)
    Agree-unknown field negate false h k =
        let t : Term x = unknown field negate in
        rw (term_whole t (certain_lifted (inner_term x t file none)), unknown_same field negate h k)
          (Agree-lifted (inner_term x t row content))

    -- A term that reads neither properties nor the content.
    Agree-stable :
        (t : Term x)
        → certain (indexed_truth x (term t) file none) ≡ inner_term x t file none
        → inner_term x t file none ≡ inner_term x t row content
        → Agree (matches x (term t) file none >>= λ v. ok (some v)) (inner_term x t row content)
    Agree-stable t c e = rw (term_whole t c, e) (Agree-lifted (inner_term x t row content))

    extraction_term-Agree :
        (t : Term x)
        → NamesNumber x t
        → Agree (extraction_term x t file) (inner_term x t row content)
    unfolding extraction_term indexed_truth
    extraction_term-Agree (related recursive query) k = tt
    extraction_term-Agree (resolved result) k =
        unfold inner_term term_matches in Agree-is_true (resolved_truth x result file)
    extraction_term-Agree (Term.content needle sensitive) k = tt
    extraction_term-Agree (property_text key needle) k = tt
    extraction_term-Agree (matched TextTarget.content matcher) k = tt
    extraction_term-Agree (matched (property key) matcher) k = tt
    extraction_term-Agree (number field low high il ih negate) k =
        Agree-number field low high il ih negate (numeric_property field) refl k
    extraction_term-Agree (unknown field negate) k =
        Agree-unknown field negate (numeric_property field) refl k
    extraction_term-Agree (matched (TextTarget.field f) m) k =
        Agree-stable (matched (TextTarget.field f) m) (certain_lifted _)
          (field_stable x file later none content m f)
    extraction_term-Agree (Term.text f needle finder sensitive) k =
        Agree-stable (Term.text f needle finder sensitive) (certain_lifted _)
          (text_stable x file later none content f needle finder sensitive)
    extraction_term-Agree (pattern f regex) k =
        Agree-stable (pattern f regex) (certain_lifted _)
          (pattern_stable x file later none content f regex)
    extraction_term-Agree t k =
        Agree-stable t (certain_lifted _) (unfold inner_term term_matches in refl)

    Only-extraction_loop :
        (decisive : Bool) (qs : Queries x) → Only decisive (extraction_loop x decisive qs file true)
    unfolding extraction_loop
    Only-extraction_loop decisive nil = tt
    Only-extraction_loop decisive (cons q qs) =
        Only-turn true (extraction_loop x decisive qs file) decisive (extraction_truth x q file)
          (Only-extraction_loop decisive qs)

    mutual
      unfolding extraction_truth matches_inner Every

      extraction_Agree :
          (q : Query x)
          → Every x (NamesNumber x) q
          → Agree (extraction_truth x q file) (matches_inner x q row content)
      extraction_Agree all k = refl
      extraction_Agree (and queries) k = every_Agree queries false k
      extraction_Agree (or queries) k = some_Agree queries false k
      extraction_Agree (Query.not query) k =
          Agree-not (extraction_truth x query file) (matches_inner x query row content)
            (extraction_Agree query k)
      extraction_Agree (term t) k = extraction_term-Agree t k

      every_Agree :
          (qs : Queries x) (doubt : Bool)
          → EveryIn x (NamesNumber x) qs
          → Agree (extraction_loop x false qs file doubt) (every_inner x qs row content)
      every_Agree nil doubt k = ground arith
      every_Agree (cons q qs) doubt k =
          Agree-every doubt (extraction_loop x false qs file) (extraction_truth x q file)
            (matches_inner x q row content) (every_inner x qs row content) (extraction_Agree q k.0)
            (λ d. every_Agree qs d k.1) (Only-extraction_loop false qs)

      some_Agree :
          (qs : Queries x) (doubt : Bool)
          → EveryIn x (NamesNumber x) qs
          → Agree (extraction_loop x true qs file doubt) (some_inner x qs row content)
      some_Agree nil doubt k = ground arith
      some_Agree (cons q qs) doubt k =
          Agree-some doubt (extraction_loop x true qs file) (extraction_truth x q file)
            (matches_inner x q row content) (some_inner x qs row content) (extraction_Agree q k.0)
            (λ d. some_Agree qs d k.1) (Only-extraction_loop true qs)

    -- A row that is rejected before extraction is no match afterwards, whatever the content, the
    -- numbers and the text properties of the file turn out to be, if extraction leaves the other
    -- properties alone and no numeric predicate of the query names a text property.
    pub may_match_before_extraction_sound :
        (q : Query x)
        → Every x (NamesNumber x) q
        → may_match_before_extraction x q file ≡ ok false
        → matches_inner x q (extracted x file later) content ≢ ok true
    unfolding may_match_before_extraction
    may_match_before_extraction_sound q k h e =
        let contradiction : true ≡ false =
          Agree-eq (extraction_truth x q file) (matches_inner x q row content) false true
            (extraction_Agree q k) (rejected (extraction_truth x q file) h) e in
        cc
