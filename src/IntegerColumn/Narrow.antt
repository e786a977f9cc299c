-- ===== src/IntegerColumn/Narrow.antt =====
-- The offsets that `compact` stores are those of the ranks.
use apfsearch.Prelude.{
  ℕ, zero, suc, ◌-◌, ◌%◌, ◌≤◌, ◌<◌, ◌≡◌, refl, sym, ap, none, some, List, [], ◌∷◌, if◌then◌else◌,
  ltb, leb, ◌==◌, length, get_elem?, map, replicate, All, subst, min, max, u32_max, arith,
  Bool-cases, inl, inr,
}
use native.Mathlib.Nat.{mod-eq_of_lt, mod-lt}
use apfsearch.Column.{owned}
use apfsearch.IntegerColumn.{
  Offsets, constant, byte, short, wide, deltas, offset_at, offsets_len, offset_width, offsets_of,
  least, greatest, width_of,
}
use apfsearch.IntegerColumn.Ranks.{IsFit}

pub length-replicated : (n : ℕ) → length (replicate {A = ℕ} n 0) ≡ n
length-replicated zero = refl
length-replicated (suc n) = ap suc (length-replicated n)

pub get-replicated :
    (n i : ℕ) → get_elem? (replicate {A = ℕ} n 0) i ≡ (if ltb i n then some 0 else none)
get-replicated zero i = ground arith
get-replicated (suc n) zero = ground arith
get-replicated (suc n) (suc i) = ground (arith, get-replicated n i)

-- The offsets as a list.
pub offset_at_lem :
    (offsets : Offsets) (slot : ℕ) → offset_at offsets slot ≡ get_elem? (deltas offsets) slot
offset_at_lem (constant count) slot = sym (get-replicated count slot)
offset_at_lem (byte column) slot = refl
offset_at_lem (short column) slot = refl
offset_at_lem (wide column) slot = refl

pub offsets_len_lem : (offsets : Offsets) → offsets_len offsets ≡ length (deltas offsets)
offsets_len_lem (constant count) = sym (length-replicated count)
offsets_len_lem (byte column) = refl
offsets_len_lem (short column) = refl
offsets_len_lem (wide column) = refl

-- All ranks are between the least and the greatest.
least-le : (n : ℕ) (ranks : List ℕ) → least n ranks ≤ n
least-le n [] = omega arith
least-le n (m ∷ ranks) = omega (arith, least-le (min n m) ranks)

greatest-le : (n : ℕ) (ranks : List ℕ) → n ≤ greatest n ranks
greatest-le n [] = omega arith
greatest-le n (m ∷ ranks) = omega (arith, greatest-le (max n m) ranks)

abbrev pub Between : ℕ → ℕ → List ℕ → Type 0
Between low high = All (λ r. (low ≤ r) × (r ≤ high))

above : (low n : ℕ) (ranks : List ℕ) → low ≤ least n ranks → All (λ r. low ≤ r) ranks
above low n [] h = tt
above low n (m ∷ ranks) h = (omega (arith, least-le (min n m) ranks), above low (min n m) ranks h)

pub below : (high n : ℕ) (ranks : List ℕ) → greatest n ranks ≤ high → All (λ r. r ≤ high) ranks
below high n [] h = tt
below high n (m ∷ ranks) h =
    (omega (arith, greatest-le (max n m) ranks), below high (max n m) ranks h)

both :
    (low high : ℕ) (ranks : List ℕ)
    → All (λ r. low ≤ r) ranks
    → All (λ r. r ≤ high) ranks
    → Between low high ranks
both low high [] h k = tt
both low high (r ∷ ranks) h k = ((h.0, k.0), both low high ranks h.1 k.1)

pub between : (n : ℕ) (ranks : List ℕ) → Between (least n ranks) (greatest n ranks) (n ∷ ranks)
between n ranks =
    both (least n ranks) (greatest n ranks) (n ∷ ranks)
      (least-le n ranks, above (least n ranks) n ranks (omega arith))
      (greatest-le n ranks, below (greatest n ranks) n ranks (omega arith))

-- The offsets fit their width.
cut-map :
    (bound low high : ℕ) (ranks : List ℕ)
    → Between low high ranks
    → high - low < suc bound
    → map (λ d. d % suc bound) (map (λ n. n - low) ranks) ≡ map (λ n. n - low) ranks
cut-map bound low high [] h k = refl
cut-map bound low high (r ∷ ranks) h k =
    let small : r - low < suc bound = omega arith in
    rw (mod-eq_of_lt small) (ap (λ l. (r - low) ∷ l) (cut-map bound low high ranks h.1 k))

cut-fits : (bound : ℕ) (l : List ℕ) → All (λ d. d ≤ bound) (map (λ d. d % suc bound) l)
cut-fits bound [] = tt
cut-fits bound (d ∷ l) =
    let less : d % suc bound < suc bound = mod-lt d (omega arith) in (omega arith, cut-fits bound l)

-- Offsets that fit are stored as they are.
cut :
    (bound low high : ℕ) (ranks : List ℕ)
    → Between low high ranks
    → high - low < suc bound
    → All (λ d. d ≤ bound) (map (λ d. d % suc bound) (map (λ n. n - low) ranks))
      × (map (λ d. d % suc bound) (map (λ n. n - low) ranks) ≡ map (λ n. n - low) ranks)
cut bound low high ranks h k =
    (cut-fits bound (map (λ n. n - low) ranks), cut-map bound low high ranks h k)

none_differ :
    (low high : ℕ) (ranks : List ℕ)
    → Between low high ranks
    → high - low ≡ 0
    → replicate (length (map (λ n. n - low) ranks)) 0 ≡ map (λ n. n - low) ranks
none_differ low high [] h k = refl
none_differ low high (r ∷ ranks) h k =
    let same : r - low ≡ 0 = omega arith in
    rw same (ap (λ l. 0 ∷ l) (none_differ low high ranks h.1 k))

pub offsets_of_lem :
    (low high : ℕ) (ranks : List ℕ)
    → Between low high ranks
    → width_of (high - low) < 8
    → (o : Offsets) × ((offsets_of (width_of (high - low)) (map (λ n. n - low) ranks) ≡ some o)
        × ((offset_width o ≡ width_of (high - low))
            × (IsFit o × (deltas o ≡ map (λ n. n - low) ranks))))
offsets_of_lem low high ranks h k =
    let span = high - low in
    let ds = map (λ n. n - low) ranks in
    elim (Bool-cases (span == 0)) [
      | inl e ↦
          rw (e, width_of, offsets_of)
            (
              constant (length ds),
              (refl, (refl, (tt, none_differ low high ranks h (ground arith)))),
            )
      | inr no_zero ↦ elim (Bool-cases (leb span 255)) [
        | inl e ↦
            rw (no_zero, e)
              (
                byte (owned (map (λ d. d % 256) ds)),
                (refl, (refl, cut 255 low high ranks h (ground arith))),
              )
        | inr no_byte ↦ elim (Bool-cases (leb span 65535)) [
          | inl e ↦
              rw (no_zero, no_byte, e)
                (
                  short (owned (map (λ d. d % 65536) ds)),
                  (refl, (refl, cut 65535 low high ranks h (ground arith))),
                )
          | inr no_short ↦ elim (Bool-cases (leb span u32_max)) [
            | inl e ↦
                rw (no_zero, no_byte, no_short, e)
                  (
                    wide (owned (map (λ d. d % 4294967296) ds)),
                    (refl, (refl, cut 4294967295 low high ranks h (ground arith))),
                  )
            | inr no_word ↦ absurd (ground arith)
          ]
        ]
      ]
    ]

-- What holds of all ranks holds of the least.
pub least-member : (P : ℕ → Type 0) (n : ℕ) (ranks : List ℕ) → P n → All P ranks → P (least n ranks)
least-member P n [] p h = p
least-member P n (m ∷ ranks) p h = elim (Bool-cases (leb n m)) [
  | inl e ↦
      let same : n ≡ min n m = ground arith in least-member P (min n m) ranks (subst P same p) h.1
  | inr k ↦
      let same : m ≡ min n m = ground arith in least-member P (min n m) ranks (subst P same h.0) h.1
]
