-- ===== src/Text/Equal.antt =====
-- The Boolean equality of texts decides equality.
use apfsearch.Prelude.{ℕ, ◌≡◌, refl, true, List, [], ◌∷◌, arith}
use apfsearch.Text.{text_eq}

pub text_eq_sound : (a b : List ℕ) → text_eq a b ≡ true → a ≡ b
text_eq_sound [] [] h = refl
text_eq_sound [] (b ∷ bs) h = cc
text_eq_sound (a ∷ as') [] h = cc
text_eq_sound (a ∷ as') (b ∷ bs) h = ground (arith, text_eq_sound as' bs)

pub text_eq_refl : (a : List ℕ) → text_eq a a ≡ true
text_eq_refl [] = refl
text_eq_refl (a ∷ as') = ground (arith, text_eq_refl as')
