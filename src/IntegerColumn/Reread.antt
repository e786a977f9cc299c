-- ===== src/IntegerColumn/Reread.antt =====
-- A column that is written and read again has the same values.
use apfsearch.Prelude.{
  ℕ, ◌+◌, ◌-◌, ◌*◌, ◌/◌, ◌≤◌, ◌<◌, ◌≡◌, refl, sym, ap, ◌∙◌, subst, true, false, Option, none, some,
  ◌>>=◌, ltb, leb, if◌then◌else◌, ◌++◌, length, drop, replicate, usize_max, append_assoc, arith,
  length-append, length-replicate, drop_left,
}
use apfsearch.Text.{Bytes}
use apfsearch.Column.{to_le, of_le}
use apfsearch.IntegerColumn.{Scalar, IntegerColumn, raw, packed, len, get}
use apfsearch.IntegerColumn.Codec.{align, checked, get_range, encode, decode_data, decode}
use apfsearch.IntegerColumn.Ranks.{IsColumn}
use apfsearch.IntegerColumn.Stored.{IsStored, of_le-to_le, length-to_le}
use apfsearch.IntegerColumn.Written.{slice_at}
use apfsearch.IntegerColumn.RoundTrip.{
  base_in, width_in, payload, encode-written, length-payload, data_back,
}

get_range_at :
    (a x r m : Bytes) (start end : ℕ)
    → m ≡ a ++ (x ++ r)
    → start ≡ length a
    → end ≡ length a + length x
    → get_range m start end ≡ some x
get_range_at a x r m start end h k e =
    let size : length m ≡ length a + (length x + length r) =
      ap length h ∙ (length-append a (x ++ r) ∙ ap (λ n. length a + n) (length-append x r)) in
    let first : leb start end ≡ true = ground arith in
    let second : leb end (length m) ≡ true = ground arith in
    rw (first, second) (ap some (slice_at a x r m start end h k e))

checked_lem : (n : ℕ) → n ≤ usize_max → checked n ≡ some n
checked_lem n h = let small : leb n usize_max ≡ true = ground arith in rw small refl

-- The output up to the next multiple of eight.
abbrev padded : Bytes → Bytes
padded output = output ++ replicate (align (length output) - length output) 0

length-padded : (output : Bytes) → length (padded output) ≡ align (length output)
length-padded output =
    let zeros = replicate {A = ℕ} (align (length output) - length output) 0 in
    omega (
      arith,
      length-append output zeros,
      length-replicate {A = ℕ} (align (length output) - length output) 0,
    )

bind_to :
    {A : Type 0} {B : Type 0} {o : Option A} {b : Option B} (f : A → Option B) (a : A)
    → o ≡ some a
    → f a ≡ b
    → (o >>= f) ≡ b
bind_to f a h k = ap (λ o. o >>= f) h ∙ k

not_beyond : (n end : ℕ) → n ≤ end → (if ltb end n then none else some end) ≡ some end
not_beyond n end h = let less : ltb end n ≡ false = ground arith in rw less refl

-- The reads of `decode`, one after the other.
decode_steps :
    {T : Type 0} (s : Scalar T) (m : Bytes) (offset count end head size next : ℕ)
    (base width : Bytes) (column : IntegerColumn T)
    → offset + 7 ≤ usize_max
    → (align offset + 16 ≡ head) × (head ≤ usize_max)
    → next ≤ end
    → get_range m (align offset) (align offset + 8) ≡ some base
    → get_range m (align offset + 8) head ≡ some width
    → (count * of_le width ≡ size) × (head + size ≡ next)
    → next ≤ usize_max
    → decode_data s m (of_le base) (of_le width) count head next ≡ some column
    → decode s m offset count end ≡ some (column, next)
unfolding decode
decode_steps s m offset count end head size next base width column a (b, b') c d e (f, f') g h =
    bind_to _ (offset + 7) (checked_lem (offset + 7) a) (
      bind_to _ head (checked_lem (align offset + 16) (omega arith) ∙ ap some b) (
        bind_to _ end (not_beyond head end (omega arith)) (
          bind_to _ base d (
            bind_to _ width e (
              bind_to _ size (checked_lem (count * of_le width) (omega (arith, f)) ∙ ap some f) (
                bind_to _ next (checked_lem (head + size) (omega arith) ∙ ap some f')
                  (bind_to _ end (not_beyond next end c) (bind_to _ column h refl))))))))

module _ {T : Type 0} (s : Scalar T) (IsValue : T → Type 0) (l : IsStored s IsValue) where
  base_small :
      (column : IntegerColumn T)
      → IsColumn s IsValue column
      → base_in s IsValue l column < 18446744073709551616
  base_small (raw column) h = omega arith
  base_small (packed base offsets) (fit, (slim, ((small, v), all))) = small

  width_small :
      (column : IntegerColumn T)
      → IsColumn s IsValue column
      → width_in s IsValue l column < 18446744073709551616
  width_small (raw column) h = omega (arith, l.size_small)
  width_small (packed base offsets) (fit, (slim, rest)) = omega (arith, l.size_small)

  shape :
      (column : IntegerColumn T) (output rest : Bytes)
      → encode s column output ++ rest
        ≡ padded output
          ++ (to_le 8 (base_in s IsValue l column)
              ++ (to_le 8 (width_in s IsValue l column) ++ (payload s IsValue l column ++ rest)))
  shape column output rest =
      let a = padded output in
      let b = to_le 8 (base_in s IsValue l column) in
      let w = to_le 8 (width_in s IsValue l column) in
      let p = payload s IsValue l column in
      ap (λ m. m ++ rest) (encode-written s IsValue l column output)
      ∙ (append_assoc a (b ++ (w ++ p)) rest
          ∙ ap (λ m. a ++ m)
              (append_assoc b (w ++ p) rest ∙ ap (λ m. b ++ m) (append_assoc w p rest)))

  length-encode :
      (column : IntegerColumn T) (output : Bytes)
      → IsColumn s IsValue column
      → length (encode s column output)
        ≡ align (length output) + 16 + len s column * width_in s IsValue l column
  length-encode column output h =
      let a = padded output in
      let b = to_le 8 (base_in s IsValue l column) in
      let w = to_le 8 (width_in s IsValue l column) in
      let p = payload s IsValue l column in
      ap length (encode-written s IsValue l column output)
      ∙ omega (
        arith,
        length-append a (b ++ (w ++ p)),
        length-append b (w ++ p),
        length-append w p,
        length-padded output,
        length-to_le 8 (base_in s IsValue l column),
        length-to_le 8 (width_in s IsValue l column),
        length-payload s IsValue l column h,
      )

  -- A well-formed column that `encode` appends to an output is read back by `decode` at the end of
  -- that output, with the same value in every slot, whatever follows it in the mapping, and the
  -- offset behind it is returned; the bytes up to there are a `usize`, and within the section.
  pub decode-encode :
      (column : IntegerColumn T) (output rest : Bytes) (end : ℕ)
      → IsColumn s IsValue column
      → length (encode s column output) ≤ usize_max
      → length (encode s column output) ≤ end
      → (c : IntegerColumn T) × ((decode s
              (encode s column output ++ rest)
              (length output)
              (len s column)
              end
            ≡ some (c, length (encode s column output)))
          × ((slot : ℕ) → get s c slot ≡ get s column slot))
  decode-encode column output rest end h small inside =
      let m = encode s column output ++ rest in
      let a = padded output in
      let base = base_in s IsValue l column in
      let width = width_in s IsValue l column in
      let b = to_le 8 base in
      let w = to_le 8 width in
      let p = payload s IsValue l column in
      let at = align (length output) in
      let total = length-encode column output h in
      let whole : m ≡ a ++ (b ++ (w ++ (p ++ rest))) = shape column output rest in
      let behind : m ≡ (a ++ b) ++ (w ++ (p ++ rest)) =
        whole ∙ sym (append_assoc a b (w ++ (p ++ rest))) in
      let last : m ≡ ((a ++ b) ++ w) ++ (p ++ rest) =
        behind ∙ sym (append_assoc (a ++ b) w (p ++ rest)) in
      let head : length ((a ++ b) ++ w) ≡ at + 16 = omega (
        arith,
        length-append (a ++ b) w,
        length-append a b,
        length-padded output,
        length-to_le 8 base,
        length-to_le 8 width,
      ) in
      let next = length (encode s column output) in
      let room : at + 16 ≤ length m =
        omega (arith, length-append (encode s column output) rest, total) in
      let found : drop (at + 16) m ≡ p ++ rest =
        rw last (drop_left (at + 16) ((a ++ b) ++ w) (p ++ rest) (sym head)) in
      let (c, (made, same)) =
        data_back s IsValue l column m rest (at + 16) ((length output + 7) / 8 + 2) h (omega arith)
          room found in
      let sizes : length a ≡ at = length-padded output in
      let base_back : of_le b ≡ base = of_le-to_le 8 base (base_small column h) in
      let width_back : of_le w ≡ width = of_le-to_le 8 width (width_small column h) in
      let ends : at + 16 + len s column * width ≡ next = sym total in
      let wrote : decode_data s m (of_le b) (of_le w) (len s column) (at + 16) next ≡ some c =
        rw (base_back, width_back)
          (subst (λ n. decode_data s m base width (len s column) (at + 16) n ≡ some c) ends made) in
      (
        c,
        (
          decode_steps s m (length output) (len s column) end (at + 16) (len s column * width) next
              b w c (omega (arith, total)) (refl, omega (arith, total)) inside
              (get_range_at a b (w ++ (p ++ rest)) m at (at + 8) whole (sym sizes)
                (omega (arith, sizes)))
              (get_range_at (a ++ b) w (p ++ rest) m (at + 8) (at + 16) behind
                (omega (arith, sizes, length-append a b)) (omega (arith, sizes, length-append a b)))
              (ap (λ n. len s column * n) width_back, ends) small wrote,
          same,
        ),
      )
