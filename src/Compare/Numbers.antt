-- ===== src/Compare/Numbers.antt =====
-- The comparisons of numbers and truth values are lawful.
use apfsearch.Prelude.{compare, ◌≡◌, refl, arith}
use apfsearch.Integer.{ℤ, pos, negsuc}
use apfsearch.Compare.{bool_cmp, int_cmp, reverse}
use apfsearch.Compare.Lawful.{IsLawful}

pub compare-IsLawful : IsLawful compare
compare-IsLawful = record {
  swap = λ a b. ground arith;
  trans = λ a b c h k. ground arith;
  same = λ a b c h. ground arith;
}

int-swap : (a b : ℤ) → int_cmp b a ≡ reverse (int_cmp a b)
int-swap (pos m) (pos n) = ground arith
int-swap (pos m) (negsuc n) = refl
int-swap (negsuc m) (pos n) = refl
int-swap (negsuc m) (negsuc n) = ground arith

pub int-IsLawful : IsLawful int_cmp
int-IsLawful = record {
  swap = int-swap;
  trans = λ a b c h k. ground arith;
  same = λ a b c h. ground arith;
}

pub bool-IsLawful : IsLawful bool_cmp
bool-IsLawful = record {
  swap = λ a b. ground arith;
  trans = λ a b c h k. ground arith;
  same = λ a b c h. ground arith;
}
