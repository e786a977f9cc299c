-- ===== src/Roaring/Listed.antt =====
-- A set of slots as a list, which meets what the core asks of the crate `roaring`.
use apfsearch.Roaring.{Roaring}
use apfsearch.Prelude.{
  ℕ, zero, suc, ◌+◌, ◌-◌, ◌≡◌, refl, Bool, true, false, ◌&&◌, ◌||◌, not, List, [], ◌∷◌, leb, ◌==◌,
  if◌then◌else◌, arith,
}

abbrev pub contains : List ℕ → ℕ → Bool
contains [] x = false
contains (s ∷ l) x = (s == x) || contains l x

abbrev remove : List ℕ → ℕ → List ℕ
remove [] slot = []
remove (s ∷ l) slot = let rest = remove l slot in if s == slot then rest else s ∷ rest

abbrev add_run : ℕ → ℕ → List ℕ → List ℕ
add_run zero first l = l
add_run (suc n) first l = first ∷ add_run n (first + 1) l

abbrev is_empty : List ℕ → Bool
is_empty [] = true
is_empty (s ∷ l) = false

contains-add_run :
    (n first : ℕ) (l : List ℕ) (x : ℕ)
    → contains (add_run n first l) x ≡ ((leb first x && leb (x + 1) (first + n)) || contains l x)
contains-add_run zero first l x = ground arith
contains-add_run (suc n) first l x = ground (arith, contains-add_run n (first + 1) l x)

pub contains-insert_range :
    (l : List ℕ) (first last x : ℕ)
    → contains (add_run (last + 1 - first) first l) x
      ≡ ((leb first x && leb x last) || contains l x)
contains-insert_range l first last x = ground (arith, contains-add_run (last + 1 - first) first l x)

pub contains-remove :
    (l : List ℕ) (slot x : ℕ) → contains (remove l slot) x ≡ (not (slot == x) && contains l x)
contains-remove [] slot x = ground arith
contains-remove (s ∷ l) slot x = ground (arith, contains-remove l slot x)

pub is_empty_none : (l : List ℕ) (x : ℕ) → is_empty l ≡ true → contains l x ≡ false
is_empty_none [] x h = refl
is_empty_none (s ∷ l) x h = ground arith

pub is_empty_of : (l : List ℕ) → ((x : ℕ) → contains l x ≡ false) → is_empty l ≡ true
is_empty_of [] h = refl
is_empty_of (s ∷ l) h = ground (arith, h s)

abbrev pub listed : Roaring
listed = record {
  Bitmap = List ℕ;
  new = [];
  contains = contains;
  insert = λ l slot. slot ∷ l;
  insert_range = λ l first last. add_run (last + 1 - first) first l;
  remove = remove;
  is_empty = is_empty;
  contains-new = λ x. refl;
  contains-insert = λ l slot x. refl;
  contains-insert_range = contains-insert_range;
  contains-remove = contains-remove;
  is_empty_none = is_empty_none;
  is_empty_of = is_empty_of;
}
