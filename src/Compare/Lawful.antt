-- ===== src/Compare/Lawful.antt =====
-- The laws of a comparison, which are those of a total preorder, and the comparisons that are made
-- of lawful ones.
use mathlib.Core.Path.{fun_ext}
use apfsearch.Prelude.{subst, ◌≡◌, refl, sym, ap, ◌∙◌, Ordering, List, [], ◌∷◌, arith}
use apfsearch.Compare.{then_with, reverse, list_cmp}

pub record IsLawful {ℓ} {A : Type ℓ} (cmp : A → A → Ordering) : Type ℓ where
  pub swap : (a b : A) → cmp b a ≡ reverse (cmp a b)
  pub trans : (a b c : A) → cmp a b ≡ Ordering.lt → cmp b c ≡ Ordering.lt → cmp a c ≡ Ordering.lt
  pub same : (a b c : A) → cmp a b ≡ Ordering.eq → cmp a c ≡ cmp b c

module _ {ℓ} {A : Type ℓ} {cmp : A → A → Ordering} (l : IsLawful cmp) where
  reverse_self : (o : Ordering) → o ≡ reverse o → o ≡ Ordering.eq
  reverse_self Ordering.lt h = cc
  reverse_self Ordering.eq h = refl
  reverse_self Ordering.gt h = cc

  pub cmp_refl : (a : A) → cmp a a ≡ Ordering.eq
  cmp_refl a = reverse_self (cmp a a) (l.swap a a)

  pub same_right : (a b c : A) → cmp b c ≡ Ordering.eq → cmp a b ≡ cmp a c
  same_right a b c h = l.swap b a ∙ (ap reverse (l.same b c a h) ∙ sym (l.swap c a))

  -- A comparison by a key.
  pub key-IsLawful {κ} : {B : Type κ} (key : B → A) → IsLawful (λ (a b : B). cmp (key a) (key b))
  key-IsLawful key = record {
    swap = λ a b. l.swap (key a) (key b);
    trans = λ a b c. l.trans (key a) (key b) (key c);
    same = λ a b c. l.same (key a) (key b) (key c);
  }

  pub reverse-IsLawful : IsLawful (λ (a b : A). reverse (cmp a b))
  reverse-IsLawful = record {
    swap = λ a b. ap reverse (l.swap a b);
    trans = λ a b c h k. ground (arith, l.trans c b a, l.swap a b, l.swap b c, l.swap a c);
    same = λ a b c h. ground (arith, l.same a b c);
  }

  list-swap : (as' bs : List A) → list_cmp cmp bs as' ≡ reverse (list_cmp cmp as' bs)
  unfolding list_cmp
  list-swap [] [] = refl
  list-swap [] (b ∷ bs) = refl
  list-swap (a ∷ as') [] = refl
  list-swap (a ∷ as') (b ∷ bs) = ground (arith, l.swap a b, list-swap as' bs)

  list-same :
      (as' bs cs : List A)
      → list_cmp cmp as' bs ≡ Ordering.eq
      → list_cmp cmp as' cs ≡ list_cmp cmp bs cs
  unfolding list_cmp
  list-same [] [] cs h = refl
  list-same [] (b ∷ bs) cs h = cc
  list-same (a ∷ as') [] cs h = cc
  list-same (a ∷ as') (b ∷ bs) [] h = refl
  list-same (a ∷ as') (b ∷ bs) (c ∷ cs) h = ground (arith, l.same a b c, list-same as' bs cs)

  list_trans :
      (as' bs cs : List A)
      → list_cmp cmp as' bs ≡ Ordering.lt
      → list_cmp cmp bs cs ≡ Ordering.lt
      → list_cmp cmp as' cs ≡ Ordering.lt
  unfolding list_cmp
  list_trans [] [] cs h k = cc
  list_trans [] (b ∷ bs) [] h k = cc
  list_trans [] (b ∷ bs) (c ∷ cs) h k = refl
  list_trans (a ∷ as') [] cs h k = cc
  list_trans (a ∷ as') (b ∷ bs) [] h k = cc
  list_trans (a ∷ as') (b ∷ bs) (c ∷ cs) h k =
      ground (arith, l.trans a b c, l.same a b c, same_right a b c, list_trans as' bs cs)

  pub list-IsLawful : IsLawful (list_cmp cmp)
  list-IsLawful = record { swap = list-swap; trans = list_trans; same = list-same }

module _ {ℓ} {A : Type ℓ} {cmp second : A → A → Ordering} (l : IsLawful cmp)
    (m : IsLawful second) where
  pub then_with-IsLawful : IsLawful (λ (a b : A). then_with (cmp a b) (second a b))
  then_with-IsLawful = record {
    swap = λ a b. ground (arith, l.swap a b, m.swap a b);
    trans =
        λ a b c h k. ground (arith, l.trans a b c, l.same a b c, same_right l a b c, m.trans a b c);
    same = λ a b c h. ground (arith, l.same a b c, m.same a b c);
  }

module _ {ℓ} {A : Type ℓ} {cmp other : A → A → Ordering} where
  pub agree-IsLawful : ((a b : A) → cmp a b ≡ other a b) → IsLawful cmp → IsLawful other
  agree-IsLawful h l = subst IsLawful (fun_ext λ a. fun_ext λ b. h a b) l
