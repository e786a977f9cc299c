-- ===== src/IntegerColumn/Filled.antt =====
-- `fill_rank_range` sets exactly the bits of the values in the range.
use apfsearch.Prelude.{
  ℕ, zero, suc, ◌+◌, ◌-◌, ◌*◌, ◌/◌, ◌%◌, ◌≤◌, ◌<◌, ◌≡◌, refl, ap, ◌∙◌, Bool, true, false, ◌&&◌,
  some, List, [], ◌∷◌, if◌then◌else◌, ltb, leb, ◌==◌, length, get_elem?, take, drop, length-drop,
  map, min, All, holds_at, subst, arith, Bool-cases, inl, inr,
}
use native.Mathlib.Nat.{mod-eq_of_lt}
use apfsearch.Text.{Bytes}
use apfsearch.IntegerColumn.Fill.{pack, fill, fill_all, fill_offsets}

-- A bit of a byte, and a bit of the bytes.
abbrev pub bit : ℕ → ℕ → Bool
bit n zero = n % 2 == 1
bit n (suc i) = bit (n / 2) i

abbrev pub bit_at : Bytes → ℕ → Bool
bit_at output slot = holds_at (λ b. bit b (slot % 8)) (get_elem? output (slot / 8))

half : (b : Bool) (n : ℕ) → ((if b then 1 else 0) + 2 * n) / 2 ≡ n
half b n = ground arith

low_bit : (b : Bool) (n : ℕ) → (((if b then 1 else 0) + 2 * n) % 2 == 1) ≡ b
low_bit true n = ground arith
low_bit false n = ground arith

bit-pack : (bits : List Bool) (i : ℕ) (b : Bool) → get_elem? bits i ≡ some b → bit (pack bits) i ≡ b
bit-pack [] i b h = cc
bit-pack (c ∷ bits) zero b h = low_bit c (pack bits) ∙ (let same : c ≡ b = cc in same)
bit-pack (c ∷ bits) (suc i) b h = rw (half c (pack bits)) (bit-pack bits i b h)

module _ {V : Type 0} (p : V → Bool) where
  get-map-take :
      (n i : ℕ) (items : List V) (v : V)
      → i < n
      → get_elem? items i ≡ some v
      → get_elem? (map p (take n items)) i ≡ some (p v)
  get-map-take zero i items v h k = absurd (omega arith)
  get-map-take (suc n) i [] v h k = cc
  get-map-take (suc n) zero (w ∷ items) v h k = let same : w ≡ v = cc in ap (λ u. some (p u)) same
  get-map-take (suc n) (suc i) (w ∷ items) v h k = get-map-take n i items v (omega arith) k

  get-drop : (n i : ℕ) (items : List V) → get_elem? (drop n items) i ≡ get_elem? items (n + i)
  get-drop zero i items = let same : 0 + i ≡ i = omega arith in rw same refl
  get-drop (suc n) i [] = refl
  get-drop (suc n) i (w ∷ items) =
      let same : suc n + i ≡ suc (n + i) = omega arith in rw same (get-drop n i items)

  pub below-length :
      (i : ℕ) (items : List V) (v : V) → get_elem? items i ≡ some v → i < length items
  below-length i [] v h = cc
  below-length zero (w ∷ items) v h = omega arith
  below-length (suc i) (w ∷ items) v h = omega (arith, below-length i items v h)

  pub bit_at-fill :
      (output : Bytes) (items : List V) (slot : ℕ) (v : V)
      → length items ≤ 8 * length output
      → get_elem? items slot ≡ some v
      → bit_at (fill p items output) slot ≡ p v
  unfolding fill
  bit_at-fill output [] slot v h k = cc
  bit_at-fill [] (w ∷ items) slot v h k = absurd (omega arith)
  bit_at-fill (b ∷ output) (w ∷ items) slot v h k = elim (Bool-cases (ltb slot 8)) [
    | inl e ↦
        let first : slot / 8 ≡ 0 = ground arith in
        let small : slot < 8 = ground arith in
        let whole : slot % 8 ≡ slot = mod-eq_of_lt small in
        rw (first, whole)
          (bit-pack (map p (take 8 (w ∷ items))) slot (p v)
            (get-map-take 8 slot (w ∷ items) v small k))
    | inr n ↦
        let far : 8 ≤ slot = ground arith in
        let next : slot / 8 ≡ suc ((slot - 8) / 8) = omega arith in
        let same : slot % 8 ≡ (slot - 8) % 8 = omega arith in
        let back : 8 + (slot - 8) ≡ slot = omega arith in
        let found : get_elem? (drop 8 (w ∷ items)) (slot - 8) ≡ some v =
          get-drop 8 (slot - 8) (w ∷ items) ∙ (ap (get_elem? (w ∷ items)) back ∙ k) in
        rw (next, same)
          (bit_at-fill output (drop 8 (w ∷ items)) (slot - 8) v
            (omega (arith, length-drop 8 (w ∷ items))) found)
  ]

get-fill_all :
    (value : ℕ) (output : Bytes) (i : ℕ)
    → i < length output
    → get_elem? (fill_all value output) i ≡ some value
get-fill_all value [] i h = absurd (omega arith)
get-fill_all value (b ∷ output) zero h = refl
get-fill_all value (b ∷ output) (suc i) h = get-fill_all value output i (omega arith)

no_bits : (i : ℕ) → bit 0 i ≡ false
no_bits zero = refl
no_bits (suc i) = no_bits i

all_bits : (i : ℕ) → i < 8 → bit 255 i ≡ true
all_bits zero h = refl
all_bits (suc zero) h = refl
all_bits (suc (suc zero)) h = refl
all_bits (suc (suc (suc zero))) h = refl
all_bits (suc (suc (suc (suc zero)))) h = refl
all_bits (suc (suc (suc (suc (suc zero))))) h = refl
all_bits (suc (suc (suc (suc (suc (suc zero)))))) h = refl
all_bits (suc (suc (suc (suc (suc (suc (suc zero))))))) h = refl
all_bits (suc (suc (suc (suc (suc (suc (suc (suc i)))))))) h = absurd (omega arith)

pub bit_at-no_bits :
    (output : Bytes) (slot : ℕ) → slot < 8 * length output → bit_at (fill_all 0 output) slot ≡ false
bit_at-no_bits output slot h =
    rw (get-fill_all 0 output (slot / 8) (omega arith)) (no_bits (slot % 8))

pub bit_at-all_bits :
    (output : Bytes) (slot : ℕ)
    → slot < 8 * length output
    → bit_at (fill_all 255 output) slot ≡ true
bit_at-all_bits output slot h =
    rw (get-fill_all 255 output (slot / 8) (omega arith)) (all_bits (slot % 8) (omega arith))

get-All :
    (bound : ℕ) (l : List ℕ) (i d : ℕ) → All (λ e. e ≤ bound) l → get_elem? l i ≡ some d → d ≤ bound
get-All bound [] i d h k = cc
get-All bound (e ∷ l) zero d h k = let same : e ≡ d = cc in subst (λ n. n ≤ bound) same h.0
get-All bound (e ∷ l) (suc i) d h k = get-All bound l i d h.1 k

-- The range that a rank is looked for in.
abbrev pub in_range : ℕ → ℕ → ℕ → Bool
in_range lower upper n = leb lower n && leb n upper

relative_range :
    (base lower upper maximum d : ℕ)
    → d ≤ maximum
    → base ≤ upper
    → (leb (lower - base) d && leb d (min (upper - base) maximum)) ≡ in_range lower upper (base + d)
relative_range base lower upper maximum d h k = ground arith

pub bit_at-fill_offsets :
    (base lower upper maximum slot d : ℕ) (ds : List ℕ) (output : Bytes)
    → length ds ≤ 8 * length output
    → All (λ e. e ≤ maximum) ds
    → get_elem? ds slot ≡ some d
    → bit_at (fill_offsets base lower upper maximum ds output) slot
      ≡ in_range lower upper (base + d)
unfolding fill_offsets
bit_at-fill_offsets base lower upper maximum slot d ds output room fit found =
    let small : d ≤ maximum = get-All maximum ds slot d fit found in
    let inside : slot < 8 * length output =
      omega (arith, below-length (λ (e : ℕ). true) slot ds d found) in
    elim (Bool-cases (ltb upper base)) [
      | inl e ↦ rw (e, fill_offsets) (bit_at-no_bits output slot inside ∙ ground arith)
      | inr n ↦ elim (Bool-cases (leb (lower - base) (min (upper - base) maximum))) [
        | inr m ↦ rw (n, m, fill_offsets) (bit_at-no_bits output slot inside ∙ ground arith)
        | inl e ↦
            let low : (lower - base) % (maximum + 1) ≡ lower - base = mod-eq_of_lt (ground arith) in
            let high : min (upper - base) maximum % (maximum + 1) ≡ min (upper - base) maximum =
              mod-eq_of_lt (omega arith) in
            rw (n, e, fill_offsets, low, high)
              (bit_at-fill (λ d. leb (lower - base) d && leb d (min (upper - base) maximum)) output
                  ds slot d room found
                ∙ relative_range base lower upper maximum d small (ground arith))
      ]
    ]
