-- ===== src/Query/Truth/Indexed.antt =====
-- What `indexed_truth` of core/src/query.rs decides from indexed properties.
use apfsearch.Prelude.{
  ◌≡◌, ◌≢◌, refl, Bool, true, false, not, ◌&&◌, Option, none, some, arith, sym, ◌∙◌,
}
use apfsearch.Result.{ok}
use apfsearch.Text.{Text}
use apfsearch.External.{External}
use apfsearch.Query.Ast.{
  TextTarget, TextMatcher, property, unknown, pattern, Query, all, and, or, term, Queries, nil,
  cons, Term, related, resolved, number, property_text, matched, FileEntry,
}
use apfsearch.Query.Leaf.{term_matches, resolved_truth, numeric_property}
use apfsearch.Query.Truth.{
  inner_term, matches_inner, every_inner, some_inner, indexed_term, indexed_truth, indexed_loop,
  has_number,
}
use apfsearch.Query.Truth.Agree.{
  Agree, Only, Agree-eq, not_self, Agree-not, Only-turn, Agree-every, Agree-some, Agree-lifted,
  Agree-is_true,
}
use apfsearch.TextView.{is_some}
use apfsearch.Query.Keyword.{text_property}
use apfsearch.Query.Truth.Stable.{
  Every, EveryIn, NamesSettled, extracted, field_stable, text_stable, pattern_stable, Agree-unless,
}

present : {A : Type 0} (o : Option A) → not (is_some o) ≡ false → (v : A) × (o ≡ some v)
present none h = cc
present (some v) h = (v, refl)

not_both : (b : Bool) → (true && not b) ≡ false → b ≡ true
not_both true h = refl
not_both false h = cc

module _ (x : External) (file : FileEntry x) (later : Text → Option x.Value)
    (content body : Option Text) where
  -- What is indexed stays: a value, unless it stands for a number and is none, and the content; so
  -- does, present or not, what extraction does not set. All else may get any value.
  abbrev pub IsIndexing : Type 0
  IsIndexing =
      ((key : Text) (v : x.Value)
        → file.properties key ≡ some v
        → (numeric_property key ≡ true → is_some (x.as_f64 v) ≡ true)
        → later key ≡ some v)
      × (((key : Text)
            → numeric_property key ≡ false
            → text_property key ≡ false
            → later key ≡ file.properties key)
          × ((text : Text) → content ≡ some text → body ≡ some text))

  abbrev row : FileEntry x
  row = extracted x file later

  module _ (same : IsIndexing) where
    property_kept :
        (key : Text)
        → numeric_property key ≡ false
        → not (is_some (file.properties key)) ≡ false
        → file.properties key ≡ later key
    property_kept key k h =
        let (v, e) = present (file.properties key) h in e ∙ sym (same.0 key v e (λ n. cc))

    content_kept : not (is_some content) ≡ false → content ≡ body
    content_kept h = let (text, e) = present content h in e ∙ sym (same.1.1 text e)

    has_value :
        (key : Text)
        → has_number x file key ≡ true
        → (v : x.Value) × ((file.properties key ≡ some v) × (is_some (x.as_f64 v) ≡ true))
    has_value key h = chosen (file.properties key) h
      where
        chosen :
            (o : Option x.Value)
            → (elim o [ none ↦ false | some value ↦ is_some (x.as_f64 value) ]) ≡ true
            → (v : x.Value) × ((o ≡ some v) × (is_some (x.as_f64 v) ≡ true))
        chosen none e = cc
        chosen (some v) e = (v, (refl, e))

    number_kept :
        (field : Text) (b : Bool)
        → numeric_property field ≡ b
        → text_property field ≡ false
        → (b && not (has_number x file field)) ≡ false
        → file.properties field ≡ later field
    number_kept field false e k h = sym (same.1.0 field e k)
    number_kept field true e k h =
        let (v, (g, f)) = has_value field (not_both (has_number x file field) h) in
        g ∙ sym (same.0 field v g (λ n. f))

    property_text_same :
        (key needle : Text)
        → file.properties key ≡ later key
        → inner_term x (property_text key needle) file content
          ≡ inner_term x (property_text key needle) row body
    unfolding inner_term term_matches
    property_text_same key needle h = rw h refl

    property_matched_same :
        (key : Text) (m : TextMatcher x)
        → file.properties key ≡ later key
        → inner_term x (matched (property key) m) file content
          ≡ inner_term x (matched (property key) m) row body
    unfolding inner_term term_matches
    property_matched_same key m h = rw h refl

    content_matched_same :
        (m : TextMatcher x)
        → content ≡ body
        → inner_term x (matched TextTarget.content m) file content
          ≡ inner_term x (matched TextTarget.content m) row body
    unfolding inner_term term_matches
    content_matched_same m h = rw h refl

    content_same :
        (needle : Text) (sensitive : Bool)
        → content ≡ body
        → inner_term x (Term.content needle sensitive) file content
          ≡ inner_term x (Term.content needle sensitive) row body
    unfolding inner_term term_matches
    content_same needle true h = rw h refl
    content_same needle false h = rw h refl

    number_same :
        (field : Text) (low high : x.Float) (il ih negate : Bool)
        → file.properties field ≡ later field
        → inner_term x (number field low high il ih negate) file content
          ≡ inner_term x (number field low high il ih negate) row body
    unfolding inner_term term_matches
    number_same field low high il ih negate h = rw h refl

    unknown_same :
        (field : Text) (negate : Bool)
        → file.properties field ≡ later field
        → inner_term x (unknown field negate) file content
          ≡ inner_term x (unknown field negate) row body
    unfolding inner_term term_matches
    unknown_same field negate h = rw h refl

    indexed_term-Agree :
        (t : Term x)
        → NamesSettled x t
        → Agree (indexed_term x t file content) (inner_term x t row body)
    unfolding indexed_term
    indexed_term-Agree (resolved result) k =
        unfold inner_term term_matches in Agree-is_true (resolved_truth x result file)
    indexed_term-Agree (related recursive query) k = tt
    indexed_term-Agree (property_text key needle) k =
        Agree-unless (not (is_some (file.properties key))) _ _
          (λ h. property_text_same key needle (property_kept key k h))
    indexed_term-Agree (matched (property key) m) k =
        Agree-unless (not (is_some (file.properties key))) _ _
          (λ h. property_matched_same key m (property_kept key k h))
    indexed_term-Agree (matched TextTarget.content m) k =
        Agree-unless (not (is_some content)) _ _ (λ h. content_matched_same m (content_kept h))
    indexed_term-Agree (Term.content needle sensitive) k =
        Agree-unless (not (is_some content)) _ _
          (λ h. content_same needle sensitive (content_kept h))
    indexed_term-Agree (number field low high il ih negate) k =
        Agree-unless (numeric_property field && not (has_number x file field)) _ _ (λ h.
          number_same field low high il ih negate
            (number_kept field (numeric_property field) refl k h))
    indexed_term-Agree (unknown field negate) (k, l) =
        rw (unknown_same field negate (sym (same.1.0 field k l)))
          (Agree-lifted (inner_term x (unknown field negate) row body))
    indexed_term-Agree (matched (TextTarget.field f) m) k =
        rw (field_stable x file later content body m f)
          (Agree-lifted (inner_term x (matched (TextTarget.field f) m) row body))
    indexed_term-Agree (Term.text f needle finder sensitive) k =
        rw (text_stable x file later content body f needle finder sensitive)
          (Agree-lifted (inner_term x (Term.text f needle finder sensitive) row body))
    indexed_term-Agree (pattern f regex) k =
        rw (pattern_stable x file later content body f regex)
          (Agree-lifted (inner_term x (pattern f regex) row body))
    indexed_term-Agree t k =
        unfold inner_term term_matches in Agree-lifted (inner_term x t row body)

    Only-indexed_loop :
        (decisive : Bool) (qs : Queries x)
        → Only decisive (indexed_loop x decisive qs file content true)
    unfolding indexed_loop
    Only-indexed_loop decisive nil = tt
    Only-indexed_loop decisive (cons q qs) =
        Only-turn true (indexed_loop x decisive qs file content) decisive
          (indexed_truth x q file content) (Only-indexed_loop decisive qs)

    mutual
      unfolding indexed_truth matches_inner Every

      indexed_Agree :
          (q : Query x)
          → Every x (NamesSettled x) q
          → Agree (indexed_truth x q file content) (matches_inner x q row body)
      indexed_Agree all k = refl
      indexed_Agree (and queries) k = every_Agree queries false k
      indexed_Agree (or queries) k = some_Agree queries false k
      indexed_Agree (Query.not query) k =
          Agree-not (indexed_truth x query file content) (matches_inner x query row body)
            (indexed_Agree query k)
      indexed_Agree (term t) k = indexed_term-Agree t k

      every_Agree :
          (qs : Queries x) (doubt : Bool)
          → EveryIn x (NamesSettled x) qs
          → Agree (indexed_loop x false qs file content doubt) (every_inner x qs row body)
      every_Agree nil doubt k = ground arith
      every_Agree (cons q qs) doubt k =
          Agree-every doubt (indexed_loop x false qs file content) (indexed_truth x q file content)
            (matches_inner x q row body) (every_inner x qs row body) (indexed_Agree q k.0)
            (λ d. every_Agree qs d k.1) (Only-indexed_loop false qs)

      some_Agree :
          (qs : Queries x) (doubt : Bool)
          → EveryIn x (NamesSettled x) qs
          → Agree (indexed_loop x true qs file content doubt) (some_inner x qs row body)
      some_Agree nil doubt k = ground arith
      some_Agree (cons q qs) doubt k =
          Agree-some doubt (indexed_loop x true qs file content) (indexed_truth x q file content)
            (matches_inner x q row body) (some_inner x qs row body) (indexed_Agree q k.0)
            (λ d. some_Agree qs d k.1) (Only-indexed_loop true qs)

    -- What `indexed_truth` decides stays the result of the full evaluation, where that succeeds,
    -- whatever is indexed later: properties, numbers and a content that are missing may get any
    -- value, which leaves open what depends on them. What is indexed already stays, as do
    -- properties that extraction does not set. Numeric predicates of the query name no text
    -- property, text predicates no number, and no predicate asks whether a property that extraction
    -- sets is unknown.
    pub indexed_truth_sound :
        (q : Query x) (b : Bool)
        → Every x (NamesSettled x) q
        → indexed_truth x q file content ≡ ok (some b)
        → matches_inner x q (extracted x file later) body ≢ ok (not b)
    indexed_truth_sound q b k h e = not_self b (
        Agree-eq (indexed_truth x q file content) (matches_inner x q row body) b (not b)
          (indexed_Agree q k) h e)
