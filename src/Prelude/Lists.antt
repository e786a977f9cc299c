-- ===== src/Prelude/Lists.antt =====
-- Lists measured and indexed by native numbers, under the library's names.
use Prim.Native.Nat.{ℕ, zero, suc, ◌+◌, ◌-◌, ◌≤◌, ◌<◌, min}
use mathlib.Core.Path.{◌≡◌, refl, ap}
use mathlib.Core.List.{List, [], ◌∷◌, ◌++◌}
use mathlib.Core.Option.{Option, none, some}
use native.Mathlib.Omega.{arith}

module _ {ℓ} {A : Type ℓ} where
  abbrev pub length : List A → ℕ
  length [] = 0
  length (x ∷ xs) = suc (length xs)

  abbrev pub get_elem? : List A → ℕ → Option A
  get_elem? [] i = none
  get_elem? (x ∷ xs) zero = some x
  get_elem? (x ∷ xs) (suc i) = get_elem? xs i

  -- A write out of bounds changes nothing.
  abbrev pub set : List A → ℕ → A → List A
  set [] i v = []
  set (x ∷ xs) zero v = v ∷ xs
  set (x ∷ xs) (suc i) v = x ∷ set xs i v

  abbrev pub take : ℕ → List A → List A
  take zero xs = []
  take (suc n) [] = []
  take (suc n) (x ∷ xs) = x ∷ take n xs

  abbrev pub drop : ℕ → List A → List A
  drop zero xs = xs
  drop (suc n) [] = []
  drop (suc n) (x ∷ xs) = drop n xs

  abbrev pub replicate : ℕ → A → List A
  replicate zero a = []
  replicate (suc n) a = a ∷ replicate n a

  -- Every element has the property.
  abbrev pub All {κ} : (A → Type κ) → List A → Type κ
  All P [] = Unit
  All P (x ∷ xs) = P x × All P xs

module _ {ℓ} {A : Type ℓ} where
  pub length-append : (xs ys : List A) → length (xs ++ ys) ≡ length xs + length ys
  length-append [] ys = omega arith
  length-append (x ∷ xs) ys = omega (arith, length-append xs ys)

  pub take-append-drop : (n : ℕ) (xs : List A) → take n xs ++ drop n xs ≡ xs
  take-append-drop zero xs = refl
  take-append-drop (suc n) [] = refl
  take-append-drop (suc n) (x ∷ xs) = rw (take-append-drop n xs)

  pub length-take : (n : ℕ) (xs : List A) → length (take n xs) ≡ min n (length xs)
  length-take zero xs = omega arith
  length-take (suc n) [] = omega arith
  length-take (suc n) (x ∷ xs) = omega (arith, length-take n xs)

  pub length-drop : (n : ℕ) (xs : List A) → length (drop n xs) ≡ length xs - n
  length-drop zero xs = omega arith
  length-drop (suc n) [] = omega arith
  length-drop (suc n) (x ∷ xs) = omega (arith, length-drop n xs)

  pub length-replicate : (n : ℕ) (a : A) → length (replicate n a) ≡ n
  length-replicate zero a = refl
  length-replicate (suc n) a = ap suc (length-replicate n a)

  -- Cutting an appended list where its parts meet, or before.
  pub take-append : (n : ℕ) (xs ys : List A) → n ≤ length xs → take n (xs ++ ys) ≡ take n xs
  take-append zero xs ys h = refl
  take-append (suc n) [] ys h = absurd (omega arith)
  take-append (suc n) (x ∷ xs) ys h = ap (◌∷◌ x) (take-append n xs ys (omega arith))

  pub drop-append : (n : ℕ) (xs ys : List A) → n ≤ length xs → drop n (xs ++ ys) ≡ drop n xs ++ ys
  drop-append zero xs ys h = refl
  drop-append (suc n) [] ys h = absurd (omega arith)
  drop-append (suc n) (x ∷ xs) ys h = drop-append n xs ys (omega arith)

  pub take-all : (n : ℕ) (xs : List A) → length xs ≤ n → take n xs ≡ xs
  take-all zero [] h = refl
  take-all zero (x ∷ xs) h = absurd (omega arith)
  take-all (suc n) [] h = refl
  take-all (suc n) (x ∷ xs) h = ap (◌∷◌ x) (take-all n xs (omega arith))

  pub drop-all : (n : ℕ) (xs : List A) → length xs ≤ n → drop n xs ≡ []
  drop-all zero [] h = refl
  drop-all zero (x ∷ xs) h = absurd (omega arith)
  drop-all (suc n) [] h = refl
  drop-all (suc n) (x ∷ xs) h = drop-all n xs (omega arith)

  pub drop-append_beyond :
      (n : ℕ) (xs ys : List A) → length xs ≤ n → drop n (xs ++ ys) ≡ drop (n - length xs) ys
  drop-append_beyond n [] ys h = ap (λ k. drop k ys) (omega arith)
  drop-append_beyond zero (x ∷ xs) ys h = absurd (omega arith)
  drop-append_beyond (suc n) (x ∷ xs) ys h =
      let e : suc n - suc (length xs) ≡ n - length xs = omega arith in
      rw e (drop-append_beyond n xs ys (omega arith))

  pub take-append_beyond :
      (n : ℕ) (xs ys : List A) → length xs ≤ n → take n (xs ++ ys) ≡ xs ++ take (n - length xs) ys
  take-append_beyond n [] ys h = ap (λ k. take k ys) (omega arith)
  take-append_beyond zero (x ∷ xs) ys h = absurd (omega arith)
  take-append_beyond (suc n) (x ∷ xs) ys h =
      let e : suc n - suc (length xs) ≡ n - length xs = omega arith in
      rw e (ap (◌∷◌ x) (take-append_beyond n xs ys (omega arith)))

  pub take-take : (m n : ℕ) (xs : List A) → m ≤ n → take m (take n xs) ≡ take m xs
  take-take zero n xs h = refl
  take-take (suc m) zero xs h = absurd (omega arith)
  take-take (suc m) (suc n) [] h = refl
  take-take (suc m) (suc n) (x ∷ xs) h = ap (◌∷◌ x) (take-take m n xs (omega arith))

  pub take_left : (n : ℕ) (xs ys : List A) → n ≡ length xs → take n (xs ++ ys) ≡ xs
  take_left zero [] ys h = refl
  take_left zero (x ∷ xs) ys h = absurd (omega arith)
  take_left (suc n) [] ys h = absurd (omega arith)
  take_left (suc n) (x ∷ xs) ys h = ap (◌∷◌ x) (take_left n xs ys (omega arith))

  pub drop_left : (n : ℕ) (xs ys : List A) → n ≡ length xs → drop n (xs ++ ys) ≡ ys
  drop_left zero [] ys h = refl
  drop_left zero (x ∷ xs) ys h = absurd (omega arith)
  drop_left (suc n) [] ys h = absurd (omega arith)
  drop_left (suc n) (x ∷ xs) ys h = drop_left n xs ys (omega arith)

  pub drop-drop : (m n k : ℕ) (xs : List A) → m + n ≡ k → drop m (drop n xs) ≡ drop k xs
  drop-drop m zero k xs h = ap (λ j. drop j xs) (omega arith)
  drop-drop zero (suc n) zero [] h = refl
  drop-drop (suc m) (suc n) zero [] h = refl
  drop-drop zero (suc n) (suc k) [] h = refl
  drop-drop (suc m) (suc n) (suc k) [] h = refl
  drop-drop m (suc n) zero (x ∷ xs) h = absurd (omega arith)
  drop-drop m (suc n) (suc k) (x ∷ xs) h = drop-drop m n k xs (omega arith)

  -- The last element of a non-empty prefix.
  pub take-suc :
      (n : ℕ) (xs : List A) → n < length xs → (y : A) × (take (suc n) xs ≡ take n xs ++ (y ∷ []))
  take-suc n [] h = absurd (omega arith)
  take-suc zero (x ∷ xs) h = (x, refl)
  take-suc (suc n) (x ∷ xs) h = let (y, e) = take-suc n xs (omega arith) in (y, ap (◌∷◌ x) e)

  pub take-nil : (k : ℕ) → take {A = A} k [] ≡ []
  take-nil zero = refl
  take-nil (suc k) = refl

  pub take-drop : (m n : ℕ) (xs : List A) → m ≤ n → take (n - m) (drop m xs) ≡ drop m (take n xs)
  take-drop zero n xs h = ap (λ k. take k xs) (omega arith)
  take-drop (suc m) zero xs h = absurd (omega arith)
  take-drop (suc m) (suc n) [] h = take-nil (suc n - suc m)
  take-drop (suc m) (suc n) (x ∷ xs) h =
      let e : suc n - suc m ≡ n - m = omega arith in rw e (take-drop m n xs (omega arith))

module _ {ℓ} {A : Type ℓ} where
  pub get-append_below :
      (l m : List A) (i : ℕ) → i < length l → get_elem? (l ++ m) i ≡ get_elem? l i
  get-append_below [] m i h = absurd (omega arith)
  get-append_below (a ∷ l) m zero h = refl
  get-append_below (a ∷ l) m (suc i) h = get-append_below l m i (omega arith)

  pub get-append_above :
      (l m : List A) (i : ℕ) → length l ≤ i → get_elem? (l ++ m) i ≡ get_elem? m (i - length l)
  get-append_above [] m i h = let whole : i - 0 ≡ i = omega arith in rw whole refl
  get-append_above (a ∷ l) m zero h = absurd (omega arith)
  get-append_above (a ∷ l) m (suc i) h =
      let less : suc i - suc (length l) ≡ i - length l = omega arith in
      rw less (get-append_above l m i (omega arith))
