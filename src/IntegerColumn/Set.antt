-- ===== src/IntegerColumn/Set.antt =====
-- A write to a slot changes that slot alone.
use apfsearch.Prelude.{
  ℕ, zero, suc, ◌+◌, ◌%◌, ◌≤◌, ◌<◌, ◌≡◌, ◌≢◌, refl, sym, ap, ◌∙◌, true, ◌&&◌, Option, none, some,
  ◌>>=◌, ltb, ◌==◌, List, [], ◌∷◌, ◌++◌, length, set, get_elem?, holds_at, All, arith, Bool-cases,
  inl, inr,
}
use native.Mathlib.Nat.{mod-eq_of_lt}
use apfsearch.Column.{Column, owned, values, set_value}
use apfsearch.IntegerColumn.{
  Scalar, IntegerColumn, raw, packed, deltas, len, get, unpacked, write_slot, set_slot,
}
use apfsearch.IntegerColumn.Ranks.{IsRank, IsColumn}
use apfsearch.IntegerColumn.Stored.{IsStored}
use apfsearch.IntegerColumn.Narrow.{offset_at_lem, offsets_len_lem}
use apfsearch.IntegerColumn.SetLists.{
  IsWritten, get-set, get-set_other, get-push, get-push_other, All-set, All-push,
}

module _ {T : Type 0} (s : Scalar T) (IsValue : T → Type 0) (l : IsStored s IsValue) where
  found_same :
      (o : Option T) (value : T)
      → holds_at (λ found. s.value.same found value) o ≡ true
      → o ≡ some value
  found_same none value h = cc
  found_same (some v) value h = ap some (l.same_sound v value h)

  set_value_lem :
      (column : Column T) (slot : ℕ) (value : T)
      → All IsValue (values s.value column)
      → IsValue value
      → slot ≤ length (values s.value column)
      → (c : Column T) × ((set_value s.value column slot value ≡ some c)
          × (All IsValue (values s.value c)
              × IsWritten (values s.value column) slot value (values s.value c)))
  set_value_lem column slot value h k room =
      let items = values s.value column in
      elim (Bool-cases (holds_at (λ found. s.value.same found value) (get_elem? items slot))) [
        | inl e ↦
            (column, (rw e refl, (h, (found_same (get_elem? items slot) value e, λ other n. refl))))
        | inr differs ↦ elim (Bool-cases (slot == length items)) [
          | inl e ↦
              let last : slot ≡ length items = ground arith in
              (
                owned (items ++ (value ∷ [])),
                (
                  rw (differs, e) refl,
                  (
                    All-push IsValue items value h k,
                    rw last (get-push items value, λ other n. get-push_other items other value n),
                  ),
                ),
              )
          | inr no_last ↦
              let inside : slot < length items = ground arith in
              let test : ltb slot (length items) ≡ true = ground arith in
              (
                owned (set items slot value),
                (
                  rw (differs, no_last, test) refl,
                  (
                    All-set IsValue items slot value h k,
                    (
                      get-set items slot value inside,
                      λ other n. get-set_other items slot other value n,
                    ),
                  ),
                ),
              )
        ]
      ]

  -- The values that `for_each` visits.
  unpacked_lem :
      (base : ℕ) (ds : List ℕ)
      → All (λ d. IsRank s IsValue (base + d)) ds
      → (items : List T) × ((unpacked s base ds ≡ some items)
          × (All IsValue items
              × ((length items ≡ length ds)
                  × ((i : ℕ)
                      → get_elem? items i ≡ (
                          get_elem? ds i >>= λ d.
                          s.from_rank ((base + d) % 18446744073709551616))))))
  unpacked_lem base [] h = ([], (refl, (tt, (refl, λ i. refl))))
  unpacked_lem base (d ∷ ds) ((small, (v, (valid, e))), h) =
      let (items, (found, (all, (size, same)))) = unpacked_lem base ds h in
      let whole : (base + d) % 18446744073709551616 ≡ base + d = mod-eq_of_lt small in
      (
        v ∷ items,
        (
          rw (whole, e, found) refl,
          ((valid, all), (ap suc size, at_slot base d v items ds (rw whole e) same)),
        ),
      )
    where
      at_slot :
          (base d : ℕ) (v : T) (items : List T) (ds : List ℕ)
          → s.from_rank ((base + d) % 18446744073709551616) ≡ some v
          → ((i : ℕ)
              → get_elem? items i
                ≡ (get_elem? ds i >>= λ d. s.from_rank ((base + d) % 18446744073709551616)))
          → (i : ℕ)
          → get_elem? (v ∷ items) i
            ≡ (get_elem? (d ∷ ds) i >>= λ d. s.from_rank ((base + d) % 18446744073709551616))
      at_slot base d v items ds e same zero = sym e
      at_slot base d v items ds e same (suc i) = same i

  write_slot_lem :
      (column : IntegerColumn T) (slot : ℕ) (value : T)
      → IsColumn s IsValue column
      → IsValue value
      → slot ≤ len s column
      → (c : IntegerColumn T) × ((write_slot s column slot value ≡ some c)
          × (IsColumn s IsValue c
              × ((get s c slot ≡ some value)
                  × ((other : ℕ) → other ≢ slot → get s c other ≡ get s column other))))
  write_slot_lem (raw items) slot value h k room =
      let (c, (e, (valid, w))) = set_value_lem items slot value h k room in
      (raw c, (rw e refl, (valid, w)))
  write_slot_lem (packed base offsets) slot value (fit, (slim, (low, h))) k room =
      let (items, (found, (all, (size, same)))) = unpacked_lem base (deltas offsets) h in
      let inside : slot ≤ length items = omega (arith, size, offsets_len_lem offsets) in
      let (c, (e, (valid, w))) = set_value_lem (owned items) slot value all k inside in
      (
        raw c,
        (
          rw (found, e) refl,
          (
            valid,
            (
              w.0,
              λ other n.
                  w.1 other n
                  ∙ (same other
                      ∙ ap (λ o. o >>= λ d. s.from_rank ((base + d) % 18446744073709551616))
                          (sym (offset_at_lem offsets other))),
            ),
          ),
        ),
      )

  -- A write of a value of the type to a slot of a well-formed column, or to the slot behind its last,
  -- does not panic; the column is well formed again, the slot holds the value, and every other slot
  -- reads as before, also where the column was packed.
  pub set_slot_lem :
      (column : IntegerColumn T) (slot : ℕ) (value : T)
      → IsColumn s IsValue column
      → IsValue value
      → slot ≤ len s column
      → (c : IntegerColumn T) × ((set_slot s column slot value ≡ some c)
          × (IsColumn s IsValue c
              × ((get s c slot ≡ some value)
                  × ((other : ℕ) → other ≢ slot → get s c other ≡ get s column other))))
  unfolding set_slot
  set_slot_lem column slot value h k room =
      elim (Bool-cases (
        ltb slot (len s column)
        && holds_at (λ found. s.value.same found value) (get s column slot))) [
          | inl e ↦
              let there : holds_at (λ found. s.value.same found value) (get s column slot) ≡ true =
                ground arith in
              (
                column,
                (rw e refl, (h, (found_same (get s column slot) value there, λ other n. refl))),
              )
          | inr differs ↦ rw differs (write_slot_lem column slot value h k room)
        ]
