-- ===== src/IntegerColumn/SetLists.antt =====
-- Lists of values with one value written, or one more at the end.
use apfsearch.Prelude.{
  ℕ, zero, suc, ◌<◌, ◌≡◌, ◌≢◌, refl, ap, some, List, [], ◌∷◌, ◌++◌, length, set, get_elem?, All,
  arith,
}

module _ {T : Type 0} where
  -- What a write at a slot makes of a list.
  abbrev pub IsWritten : List T → ℕ → T → List T → Type 0
  IsWritten items slot value m =
      (get_elem? m slot ≡ some value)
      × ((other : ℕ) → other ≢ slot → get_elem? m other ≡ get_elem? items other)

  pub get-set :
      (items : List T) (slot : ℕ) (value : T)
      → slot < length items
      → get_elem? (set items slot value) slot ≡ some value
  get-set [] slot value h = absurd (omega arith)
  get-set (i ∷ items) zero value h = refl
  get-set (i ∷ items) (suc slot) value h = get-set items slot value (omega arith)

  pub get-set_other :
      (items : List T) (slot other : ℕ) (value : T)
      → other ≢ slot
      → get_elem? (set items slot value) other ≡ get_elem? items other
  get-set_other [] slot other value h = refl
  get-set_other (i ∷ items) zero zero value h = absurd (h refl)
  get-set_other (i ∷ items) zero (suc other) value h = refl
  get-set_other (i ∷ items) (suc slot) zero value h = refl
  get-set_other (i ∷ items) (suc slot) (suc other) value h =
      get-set_other items slot other value (λ e. h (ap suc e))

  pub get-push :
      (items : List T) (value : T) → get_elem? (items ++ (value ∷ [])) (length items) ≡ some value
  get-push [] value = refl
  get-push (i ∷ items) value = get-push items value

  pub get-push_other :
      (items : List T) (other : ℕ) (value : T)
      → other ≢ length items
      → get_elem? (items ++ (value ∷ [])) other ≡ get_elem? items other
  get-push_other [] zero value h = absurd (h refl)
  get-push_other [] (suc other) value h = refl
  get-push_other (i ∷ items) zero value h = refl
  get-push_other (i ∷ items) (suc other) value h =
      get-push_other items other value (λ e. h (ap suc e))

  pub All-set :
      (P : T → Type 0) (items : List T) (slot : ℕ) (value : T)
      → All P items
      → P value
      → All P (set items slot value)
  All-set P [] slot value h k = tt
  All-set P (i ∷ items) zero value h k = (k, h.1)
  All-set P (i ∷ items) (suc slot) value h k = (h.0, All-set P items slot value h.1 k)

  pub All-push :
      (P : T → Type 0) (items : List T) (value : T)
      → All P items
      → P value
      → All P (items ++ (value ∷ []))
  All-push P [] value h k = (k, tt)
  All-push P (i ∷ items) value h k = (h.0, All-push P items value h.1 k)
