-- ===== src/ResultOrder/Changed.antt =====
-- Which changes of a row can move it in an order: `affected_by_change`.
use apfsearch.Prelude.{
  ◌≡◌, refl, sym, ap, ◌∙◌, Bool, true, false, not, ◌||◌, [], ◌∷◌, Ordering, if◌then◌else◌, arith,
  Bool-cases, inl, inr,
}
use apfsearch.Integer.{ℤ, pos, negsuc}
use apfsearch.Text.{text_eq}
use apfsearch.Text.Equal.{text_eq_sound}
use apfsearch.External.{External}
use apfsearch.Query.Ast.{FileEntry}
use apfsearch.Compare.{reverse, then_with, int_cmp, bool_cmp}
use apfsearch.NaturalOrder.{view_bytes, natural_cmp_folded}
use apfsearch.NaturalOrder.View.{view_natural_cmp-eq}
use apfsearch.TextOrder.{view_cmp, view_eq, is_eq}
use apfsearch.TextOrder.Spans.{view_cmp-eq}
use apfsearch.TextOrder.Equality.{view_eq_lem, str_cmp_sound}
use apfsearch.ResultOrder.{
  SortField, by_name, by_path, by_extension, by_size, by_modified, by_created, by_directory,
  ResultOrder, field_cmp, result_cmp, field_affected, some_affected, affected_by_change, int_eq,
}

pub int_cmp_sound : (a b : ℤ) → int_cmp a b ≡ Ordering.eq → a ≡ b
int_cmp_sound (pos m) (pos n) h = ground arith
int_cmp_sound (pos m) (negsuc n) h = cc
int_cmp_sound (negsuc m) (pos n) h = cc
int_cmp_sound (negsuc m) (negsuc n) h = ground arith

pub is_eq_sound : (o : Ordering) → is_eq o ≡ true → o ≡ Ordering.eq
is_eq_sound Ordering.lt h = cc
is_eq_sound Ordering.eq h = refl
is_eq_sound Ordering.gt h = cc

not_true : (b : Bool) → not b ≡ false → b ≡ true
not_true true h = refl
not_true false h = cc

bool_cmp_sound : (a b : Bool) → is_eq (bool_cmp a b) ≡ true → a ≡ b
bool_cmp_sound true true h = refl
bool_cmp_sound true false h = cc
bool_cmp_sound false true h = cc
bool_cmp_sound false false h = refl

no_first : (a b : Bool) → (a || b) ≡ false → (a ≡ false) × (b ≡ false)
no_first a b h = ground arith

module _ (x : External) where
  -- The folded forms of a row are functions of its name and of its path.
  abbrev pub IsFolded : FileEntry x → FileEntry x → Type 0
  IsFolded previous current =
      (previous.name ≡ current.name → previous.folded_name ≡ current.folded_name)
      × (view_bytes previous.path ≡ view_bytes current.path
          → view_bytes previous.folded_path ≡ view_bytes current.folded_path)

  field_unaffected :
      (field : SortField) (previous current row : FileEntry x)
      → IsFolded previous current
      → view_bytes previous.path ≡ view_bytes current.path
      → field_affected x field previous current ≡ false
      → field_cmp x field previous row ≡ field_cmp x field current row
  field_unaffected by_name previous current row (f, g) h k =
      let same : previous.name ≡ current.name =
        text_eq_sound previous.name current.name
          (not_true (text_eq previous.name current.name) k) in
      rw (f same) refl
  field_unaffected by_path previous current row (f, g) h k =
      view_natural_cmp-eq previous.folded_path row.folded_path
      ∙ (ap (λ b. natural_cmp_folded b (view_bytes row.folded_path)) (g h)
          ∙ sym (view_natural_cmp-eq current.folded_path row.folded_path))
  field_unaffected by_extension previous current row f h k =
      let same : previous.extension ≡ current.extension =
        text_eq_sound previous.extension current.extension
          (not_true (text_eq previous.extension current.extension) k) in
      rw same refl
  field_unaffected by_size previous current row f h k =
      let same : previous.size ≡ current.size = ground arith in rw same refl
  field_unaffected by_modified previous current row f h k =
      let same = int_cmp_sound previous.modified current.modified (
        is_eq_sound (int_cmp previous.modified current.modified)
          (not_true (int_eq previous.modified current.modified) k)) in
      rw same refl
  field_unaffected by_created previous current row f h k =
      let same = int_cmp_sound previous.created current.created (
        is_eq_sound (int_cmp previous.created current.created)
          (not_true (int_eq previous.created current.created) k)) in
      rw same refl
  field_unaffected by_directory previous current row f h k =
      let same =
        bool_cmp_sound previous.is_dir current.is_dir
          (not_true (is_eq (bool_cmp previous.is_dir current.is_dir)) k) in
      rw same refl

  order_unaffected :
      (order : ResultOrder) (previous current row : FileEntry x)
      → IsFolded previous current
      → view_bytes previous.path ≡ view_bytes current.path
      → previous.id ≡ current.id
      → some_affected x order previous current ≡ false
      → result_cmp x order previous row ≡ result_cmp x order current row
  unfolding result_cmp
  order_unaffected [] previous current row f h i k =
      rw (i, view_cmp-eq previous.path row.path, view_cmp-eq current.path row.path, h) refl
  order_unaffected ((field, ascending) ∷ order) previous current row f h i k =
      let (here, there) =
        no_first (field_affected x field previous current) (some_affected x order previous current)
          k in
      rw
        (
          field_unaffected field previous current row f h here,
          order_unaffected order previous current row f h i there,
        )
        refl

  -- When `affected_by_change` says that a change of a row does not concern an order, the row
  -- compares as before with every row, where the folded forms are functions of the name and the
  -- path.
  pub affected_by_change_lem :
      (order : ResultOrder) (previous current row : FileEntry x)
      → IsFolded previous current
      → affected_by_change x order previous current ≡ false
      → result_cmp x order previous row ≡ result_cmp x order current row
  unfolding affected_by_change
  affected_by_change_lem order previous current row f h =
      elim (Bool-cases
        (not (view_eq previous.path current.path) || not (int_eq previous.id current.id))) [
          | inl e ↦ cc (rw e at h)
          | inr n ↦
              let (paths, ids) =
                no_first (not (view_eq previous.path current.path))
                  (not (int_eq previous.id current.id)) n in
              let path =
                (view_eq_lem previous.path current.path).0
                  (not_true (view_eq previous.path current.path) paths) in
              let id = int_cmp_sound previous.id current.id (
                is_eq_sound (int_cmp previous.id current.id)
                  (not_true (int_eq previous.id current.id) ids)) in
              order_unaffected order previous current row f path id (rw n at h)
        ]

  -- Under every order, two rows compare equal only if they have the bytes of one path and one id.
  pub result_cmp_sound :
      (order : ResultOrder) (a b : FileEntry x)
      → result_cmp x order a b ≡ Ordering.eq
      → (view_bytes a.path ≡ view_bytes b.path) × (a.id ≡ b.id)
  unfolding result_cmp
  result_cmp_sound [] a b h =
      let (paths, ids) = both (view_cmp a.path b.path) (int_cmp a.id b.id) h in
      (
        str_cmp_sound (view_bytes a.path) (view_bytes b.path)
            (sym (view_cmp-eq a.path b.path) ∙ paths),
        int_cmp_sound a.id b.id ids,
      )
    where
      both : (o p : Ordering) → then_with o p ≡ Ordering.eq → (o ≡ Ordering.eq) × (p ≡ Ordering.eq)
      both Ordering.lt p h = cc
      both Ordering.eq p h = (refl, h)
      both Ordering.gt p h = cc
  result_cmp_sound ((field, ascending) ∷ order) a b h =
      result_cmp_sound order a b (last ascending (field_cmp x field a b) (result_cmp x order a b) h)
    where
      last :
          (d : Bool) (o p : Ordering)
          → (if not (is_eq o) then (if d then o else reverse o) else p) ≡ Ordering.eq
          → p ≡ Ordering.eq
      last true Ordering.lt p h = cc
      last false Ordering.lt p h = cc
      last d Ordering.eq p h = h
      last true Ordering.gt p h = cc
      last false Ordering.gt p h = cc
