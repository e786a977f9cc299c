-- ===== src/Query/Truth/Content.antt =====
-- A query that `requires_content` of core/src/query.rs clears reads no content.
use apfsearch.Prelude.{◌≡◌, ◌≢◌, refl, Bool, true, false, ◌||◌, Option, none, some, arith}
use apfsearch.Result.{Result, ok, ◌>>=◌}
use apfsearch.Text.{Text}
use apfsearch.External.{External}
use apfsearch.Query.Ast.{
  TextTarget, Query, all, and, or, term, Queries, nil, cons, Term, matched, FileEntry,
}
use apfsearch.Query.Leaf.{term_matches}
use apfsearch.Query.Truth.{
  inner_term, matches_inner, metadata_truth, every_inner, some_inner, requires_content,
  any_requires_content, term_requires_content, matches_available, requires_relations,
}
use apfsearch.Query.Truth.Metadata.{affirmed, metadata_truth_sound}

or_false : (a b : Bool) → (a || b) ≡ false → (a ≡ false) × (b ≡ false)
or_false a b h = ground arith

every_cong :
    {m m' n n' : Result Bool}
    → m ≡ m'
    → n ≡ n'
    → (m >>= λ v. elim v [ true ↦ n | false ↦ ok false ])
      ≡ (m' >>= λ v. elim v [ true ↦ n' | false ↦ ok false ])
every_cong p q = λ i. p i >>= λ v. elim v [ true ↦ q i | false ↦ ok false ]

some_cong :
    {m m' n n' : Result Bool}
    → m ≡ m'
    → n ≡ n'
    → (m >>= λ v. elim v [ true ↦ ok true | false ↦ n ])
      ≡ (m' >>= λ v. elim v [ true ↦ ok true | false ↦ n' ])
some_cong p q = λ i. p i >>= λ v. elim v [ true ↦ ok true | false ↦ q i ]

module _ (x : External) (file : FileEntry x) (content content' : Option Text) where
  inner_term_content :
      (t : Term x)
      → term_requires_content x t ≡ false
      → inner_term x t file content ≡ inner_term x t file content'
  unfolding term_requires_content inner_term term_matches
  inner_term_content (Term.content needle sensitive) h = cc
  inner_term_content (matched TextTarget.content matcher) h = cc
  inner_term_content (Term.text field needle finder true) h = refl
  inner_term_content (Term.text field needle finder false) h = refl
  inner_term_content t h = refl

  mutual
    unfolding requires_content matches_inner

    inner_content :
        (q : Query x)
        → requires_content x q ≡ false
        → matches_inner x q file content ≡ matches_inner x q file content'
    inner_content all h = refl
    inner_content (and queries) h = every_content queries h
    inner_content (or queries) h = some_content queries h
    inner_content (Query.not query) h = rw (inner_content query h)
    inner_content (term t) h = inner_term_content t h

    every_content :
        (qs : Queries x)
        → any_requires_content x qs ≡ false
        → every_inner x qs file content ≡ every_inner x qs file content'
    every_content nil h = refl
    every_content (cons q qs) h =
        let (one, rest) = or_false (requires_content x q) (any_requires_content x qs) h in
        every_cong (inner_content q one) (every_content qs rest)

    some_content :
        (qs : Queries x)
        → any_requires_content x qs ≡ false
        → some_inner x qs file content ≡ some_inner x qs file content'
    some_content nil h = refl
    some_content (cons q qs) h =
        let (one, rest) = or_false (requires_content x q) (any_requires_content x qs) h in
        some_cong (inner_content q one) (some_content qs rest)

  -- A query without content terms has the same result, or the same error, on every content.
  pub matches_inner_content_free :
      (q : Query x)
      → requires_content x q ≡ false
      → matches_inner x q file content ≡ matches_inner x q file content'
  matches_inner_content_free = inner_content

-- A row that `matches_available` accepts before its content is read is a match on every content, if
-- the query asks for no relations and the evaluation on that content succeeds.
pub matches_available_sound :
    (x : External) (file : FileEntry x) (q : Query x) (body : Text)
    → requires_relations x q ≡ false
    → matches_available x q file none ≡ ok true
    → matches_available x q file (some body) ≢ ok false
unfolding matches_available
matches_available_sound x file q body plain h e =
    accepted (requires_content x q) refl (rw plain at e)
  where
    accepted : (b : Bool) → requires_content x q ≡ b → matches_inner x q file (some body) ≢ ok false
    accepted true needed e' =
        metadata_truth_sound x file (some body) q true
          (affirmed (metadata_truth x q file) (rw needed at h)) e'
    accepted false free e' =
        let same = matches_inner_content_free x file none (some body) q free in
        let before : matches_inner x q file none ≡ ok true = rw plain at (rw free at h) in cc
