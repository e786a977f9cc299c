-- ===== src/NameColumn/Compiled.antt =====
-- The compiled expressions of core/src/name_column.rs have the meaning of the queries that they
-- stand for.
use apfsearch.Prelude.{
  ◌≡◌, refl, ap, sym, ◌∙◌, Bool, true, false, not as Bool_not, ◌&&◌, ◌||◌, Option, none, some, List,
  [], ◌∷◌, arith, ◌>>=◌, Bool-cases, inl, inr, subst,
}
use apfsearch.Result.{Result, ok, ◌>>=◌ as and_then}
use apfsearch.Text.{Text, Bytes, text_eq, as_bytes}
use apfsearch.Text.Equal.{text_eq_sound}
use apfsearch.TextView.{is_some}
use apfsearch.External.{External}
use apfsearch.Query.Ast.{Query, Queries, Term, name, path, parent, FileEntry}
use apfsearch.Query.Leaf.{term_matches}
use apfsearch.Query.Truth.{matches_inner, every_inner, some_inner}
use apfsearch.NameColumn.{
  NameExpression, NameExpressions, all, text, not, nil, cons, seen_before, retain, combined,
  compile, compile_all, name_matches, every_name, some_name,
}

module _ (x : External) (bytes : Bytes) where
  abbrev found : Bytes → Bool
  found needle = is_some (x.find needle bytes)

  abbrev all_found : List Bytes → Bool
  all_found [] = true
  all_found (s ∷ seen) = found s && all_found seen

  abbrev any_found : List Bytes → Bool
  any_found [] = false
  any_found (s ∷ seen) = found s || any_found seen

  seen_all :
      (seen : List Bytes) (needle : Bytes)
      → seen_before seen needle ≡ true
      → all_found seen ≡ true
      → found needle ≡ true
  seen_all [] needle h a = cc
  seen_all (s ∷ seen) needle h a = elim (Bool-cases (text_eq s needle)) [
    | inl e ↦ rw (← text_eq_sound s needle e) (ground arith)
    | inr n ↦ ground (arith, seen_all seen needle)
  ]

  seen_any :
      (seen : List Bytes) (needle : Bytes)
      → seen_before seen needle ≡ true
      → found needle ≡ true
      → any_found seen ≡ true
  seen_any [] needle h a = cc
  seen_any (s ∷ seen) needle h a = elim (Bool-cases (text_eq s needle)) [
    | inl e ↦ rw (text_eq_sound s needle e) (ground arith)
    | inr n ↦ ground (arith, seen_any seen needle)
  ]

  -- A conjunction is not changed by what `retain` drops, where the seen literals hold.
  every-retain :
      (seen : List Bytes) (es : NameExpressions)
      → (all_found seen && every_name x (retain seen es) bytes)
        ≡ (all_found seen && every_name x es bytes)
  unfolding retain name_matches
  every-retain seen nil = refl
  every-retain seen (cons (text needle) es) =
      ground (arith, seen_all seen needle, every-retain seen es, every-retain (needle ∷ seen) es)
  every-retain seen (cons all es) = ground (arith, every-retain seen es)
  every-retain seen (cons e es) = ground (arith, every-retain seen es)

  some-retain :
      (seen : List Bytes) (es : NameExpressions)
      → (any_found seen || some_name x (retain seen es) bytes)
        ≡ (any_found seen || some_name x es bytes)
  unfolding retain name_matches
  some-retain seen nil = refl
  some-retain seen (cons (text needle) es) =
      ground (arith, seen_any seen needle, some-retain seen es, some-retain (needle ∷ seen) es)
  some-retain seen (cons all es) = ground (arith, some-retain seen es)
  some-retain seen (cons e es) = ground (arith, some-retain seen es)

  combined_every :
      (es : NameExpressions) → name_matches x (combined true es) bytes ≡ every_name x es bytes
  unfolding combined name_matches
  combined_every nil = refl
  combined_every (cons e nil) = ground arith
  combined_every (cons e (cons f es)) = refl

  combined_some :
      (es : NameExpressions) → name_matches x (combined false es) bytes ≡ some_name x es bytes
  unfolding combined name_matches
  combined_some nil = refl
  combined_some (cons e nil) = ground arith
  combined_some (cons e (cons f es)) = refl

  -- The query has the meaning of what it is compiled to, if it is compiled.
  abbrev Means : Option NameExpression → Result Bool → Type 0
  Means none r = Unit {0}
  Means (some e) r = r ≡ ok (name_matches x e bytes)

  abbrev MeansAll : Option NameExpressions → Result Bool → Result Bool → Type 0
  MeansAll none every some' = Unit {0}
  MeansAll (some es) every some' =
      (every ≡ ok (every_name x es bytes)) × (some' ≡ ok (some_name x es bytes))

  Means-not :
      (e : Option NameExpression) (r : Result Bool)
      → Means e r
      → Means (e >>= λ c. some (not c)) (and_then r (λ v. ok (Bool_not v)))
  unfolding name_matches
  Means-not none r h = tt
  Means-not (some e) r h = rw h

  Means-cons :
      (e : Option NameExpression) (es : Option NameExpressions) (r every some' : Result Bool)
      → Means e r
      → MeansAll es every some'
      → MeansAll
          (e >>= λ first. es >>= λ rest. some (cons first rest))
          (and_then r (λ v. elim v [ true ↦ every | false ↦ ok false ]))
          (and_then r (λ v. elim v [ true ↦ ok true | false ↦ some' ]))
  unfolding name_matches
  Means-cons none es r every some' h k = tt
  Means-cons (some e) none r every some' h k = tt
  Means-cons (some e) (some es) r every some' h k = rw h (decide (name_matches x e bytes))
    where
      decide :
          (b : Bool)
          → (elim b [ true ↦ every | false ↦ ok false ] ≡ ok (b && every_name x es bytes))
            × (elim b [ true ↦ ok true | false ↦ some' ] ≡ ok (b || some_name x es bytes))
      decide true = (k.0, refl)
      decide false = (refl, k.1)

  Means-and :
      (es : Option NameExpressions) (every some' : Result Bool)
      → MeansAll es every some'
      → Means (es >>= λ c. some (combined true (retain [] c))) every
  Means-and none every some' h = tt
  Means-and (some es) every some' h =
      h.0 ∙ ap (λ b. ok b) (sym (combined_every (retain [] es) ∙ every-retain [] es))

  Means-or :
      (es : Option NameExpressions) (every some' : Result Bool)
      → MeansAll es every some'
      → Means (es >>= λ c. some (combined false (retain [] c))) some'
  Means-or none every some' h = tt
  Means-or (some es) every some' h =
      h.1 ∙ ap (λ b. ok b) (sym (combined_some (retain [] es) ∙ some-retain [] es))

module _ (x : External) (file : FileEntry x) (content : Option Text) where
  abbrev folded_bytes : Bytes
  folded_bytes = as_bytes file.search_name

  mutual
    unfolding compile matches_inner name_matches term_matches

    compile-Means :
        (q : Query x) → Means x folded_bytes (compile x q) (matches_inner x q file content)
    compile-Means Query.all = refl
    compile-Means (Query.and queries) =
        Means-and x folded_bytes (compile_all x queries) (every_inner x queries file content)
          (some_inner x queries file content) (compile_all-Means queries)
    compile-Means (Query.or queries) =
        Means-or x folded_bytes (compile_all x queries) (every_inner x queries file content)
          (some_inner x queries file content) (compile_all-Means queries)
    compile-Means (Query.not query) =
        Means-not x folded_bytes (compile x query) (matches_inner x query file content)
          (compile-Means query)
    compile-Means (Query.term (Term.text name needle finder false)) = refl
    compile-Means (Query.term (Term.text name needle finder true)) = tt
    compile-Means (Query.term (Term.text path needle finder sensitive)) = tt
    compile-Means (Query.term (Term.text parent needle finder sensitive)) = tt
    compile-Means (Query.term t) = tt

    compile_all-Means :
        (qs : Queries x)
        → MeansAll x folded_bytes
            (compile_all x qs)
            (every_inner x qs file content)
            (some_inner x qs file content)
    compile_all-Means Queries.nil = (refl, refl)
    compile_all-Means (Queries.cons q qs) =
        Means-cons x folded_bytes (compile x q) (compile_all x qs) (matches_inner x q file content)
          (every_inner x qs file content) (some_inner x qs file content) (compile-Means q)
          (compile_all-Means qs)

  -- A query that is compiled to a name expression is evaluated without an error on every row and
  -- every content, and its truth is the expression's on the bytes of the row's folded name. The
  -- literals that compilation drops as repeated make no difference.
  pub compile_sound :
      (q : Query x) (e : NameExpression)
      → compile x q ≡ some e
      → matches_inner x q file content ≡ ok (name_matches x e folded_bytes)
  compile_sound q e h =
      subst (λ c. Means x folded_bytes c (matches_inner x q file content)) h (compile-Means q)
