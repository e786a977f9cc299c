-- ===== src/Compare.antt =====
-- Comparisons, as Rust's `Ord::cmp` and closures that return an `Ordering`: what the core uses of
-- them, and the laws of a comparison that sorting relies on.
pub mod Lawful
pub mod Numbers
use apfsearch.Prelude.{ℕ, Ordering, Bool, true, false, List, [], ◌∷◌, compare}
use apfsearch.Integer.{ℤ, pos, negsuc}

-- `first.then_with(|| second)`
abbrev pub then_with : Ordering → Ordering → Ordering
then_with Ordering.eq second = second
then_with Ordering.lt second = Ordering.lt
then_with Ordering.gt second = Ordering.gt

abbrev pub reverse : Ordering → Ordering
reverse Ordering.lt = Ordering.gt
reverse Ordering.eq = Ordering.eq
reverse Ordering.gt = Ordering.lt

-- Slices are compared item by item, and a proper prefix comes first.
unfoldable pub list_cmp {ℓ} : {A : Type ℓ} → (A → A → Ordering) → List A → List A → Ordering
list_cmp cmp [] [] = Ordering.eq
list_cmp cmp [] (b ∷ bs) = Ordering.lt
list_cmp cmp (a ∷ as') [] = Ordering.gt
list_cmp cmp (a ∷ as') (b ∷ bs) = then_with (cmp a b) (list_cmp cmp as' bs)

-- `false` comes first.
abbrev pub bool_cmp : Bool → Bool → Ordering
bool_cmp false false = Ordering.eq
bool_cmp false true = Ordering.lt
bool_cmp true false = Ordering.gt
bool_cmp true true = Ordering.eq

-- `i64::cmp`
abbrev pub int_cmp : ℤ → ℤ → Ordering
int_cmp (pos m) (pos n) = compare m n
int_cmp (pos m) (negsuc n) = Ordering.gt
int_cmp (negsuc m) (pos n) = Ordering.lt
int_cmp (negsuc m) (negsuc n) = compare n m
