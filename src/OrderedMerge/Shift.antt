-- ===== src/OrderedMerge/Shift.antt =====
-- The reverse loop of core/src/ordered_merge.rs puts each new slot at its insertion point.
use apfsearch.Prelude.{
  ℕ, suc, ◌+◌, ◌-◌, ◌≤◌, ◌≡◌, refl, ap, sym, ◌∙◌, List, [], ◌∷◌, ◌++◌, length, set, take, drop,
  arith, slice, some, length-append, take-append-drop, length-take, length-drop, take-append,
  drop-append, append_assoc, append-nil, take-all, drop-all, lt→ltb, take-suc, take_left, drop_left,
  drop-drop, take-take, take-drop,
}
use apfsearch.OrderedMerge.{copy_within, write, shift_one, shift}

-- The old slots with each new one at its position, where `base` old slots are already placed.
unfoldable pub weave : ℕ → List ℕ → List ℕ → List ℕ → List ℕ
weave base old [] new = old
weave base old (p ∷ ps) [] = old
weave base old (p ∷ ps) (r ∷ rs) = take (p - base) old ++ (r ∷ weave p (drop (p - base) old) ps rs)

-- The first position, or the end.
abbrev first : List ℕ → ℕ → ℕ
first [] end = end
first (p ∷ ps) end = p

-- One position for each new slot; positions grow from `base` to at most `end`.
abbrev pub IsPlan : ℕ → ℕ → List ℕ → List ℕ → Type 0
IsPlan base end [] [] = base ≤ end
IsPlan base end [] (r ∷ rs) = ⊥
IsPlan base end (p ∷ ps) [] = ⊥
IsPlan base end (p ∷ ps) (r ∷ rs) = (base ≤ p) × IsPlan p end ps rs

first_bounds :
    (base end : ℕ) (ps rs : List ℕ)
    → IsPlan base end ps rs
    → (base ≤ first ps end) × (first ps end ≤ end)
first_bounds base end [] [] h = omega arith
first_bounds base end (p ∷ ps) (r ∷ rs) h = omega (arith, first_bounds p end ps rs h.1)
first_bounds base end [] (r ∷ rs) h = absurd h
first_bounds base end (p ∷ ps) [] h = absurd h

set-append {ℓ} :
    {A : Type ℓ} (xs : List A) (y v : A) (ys : List A)
    → set (xs ++ (y ∷ ys)) (length xs) v ≡ xs ++ (v ∷ ys)
set-append [] y v ys = refl
set-append (x ∷ xs) y v ys = ap (◌∷◌ x) (set-append xs y v ys)

write-append :
    (xs : List ℕ) (y v : ℕ) (ys : List ℕ) (n : ℕ)
    → n ≡ length xs
    → write (xs ++ (y ∷ ys)) n v ≡ some (xs ++ (v ∷ ys))
unfolding write
write-append xs y v ys n e = rw e (
    rw (lt→ltb (length xs) (length (xs ++ (y ∷ ys))) (omega (arith, length-append xs (y ∷ ys))))
      (ap some (set-append xs y v ys)))

copy_within_in_range :
    (slots : List ℕ) (start end dest : ℕ)
    → start ≤ end
    → end ≤ length slots
    → dest + (end - start) ≤ length slots
    → copy_within slots start end dest
      ≡ some (take dest slots ++ (slice start end slots ++ drop (dest + (end - start)) slots))
unfolding copy_within
copy_within_in_range slots start end dest h k l = ground arith

-- The copy of one turn, on a buffer with `index + 1` free places behind the old slots.
copy_within_lem :
    (index start end : ℕ) (old gap done : List ℕ)
    → length gap ≡ suc index
    → start ≤ end
    → end ≡ length old
    → (y : ℕ) × (copy_within (old ++ (gap ++ done)) start end (start + index + 1)
        ≡ some (take (start + index) (old ++ (gap ++ done)) ++ (y ∷ (drop start old ++ done))))
copy_within_lem index start end old gap done lg le e =
    let buffer = old ++ (gap ++ done) in
    let size : length buffer ≡ end + (suc index + length done) =
      omega (arith, length-append old (gap ++ done), length-append gap done) in
    let (y, last) = take-suc (start + index) buffer (omega arith) in
    let next : start + index + 1 ≡ suc (start + index) = omega arith in
    let moved : slice start end buffer ≡ drop start old =
      ap (take (end - start)) (drop-append start old (gap ++ done) (omega arith))
      ∙ take_left (end - start) (drop start old) (gap ++ done)
          (omega (arith, length-drop start old)) in
    let tail : drop (start + index + 1 + (end - start)) buffer ≡ done =
      sym (drop-drop (suc index) end (start + index + 1 + (end - start)) buffer (omega arith))
      ∙ ap (drop (suc index)) (drop_left end old (gap ++ done) e)
      ∙ drop_left (suc index) gap done (sym lg) in
    let joined : take (start + index + 1) buffer
          ++ (slice start end buffer ++ drop (start + index + 1 + (end - start)) buffer)
        ≡ take (start + index) buffer ++ (y ∷ (drop start old ++ done)) =
      rw (moved, tail, next, last) (append_assoc (take (start + index) buffer) (y ∷ []) _) in
    (
      y,
      copy_within_in_range buffer start end (start + index + 1) le (omega arith) (omega arith)
          ∙ ap some joined,
    )

-- One turn of the loop: one free place fewer, and one new slot behind it.
shift_one_lem :
    (index start end r : ℕ) (old gap done : List ℕ)
    → length gap ≡ suc index
    → start ≤ end
    → end ≡ length old
    → (gap' : List ℕ) × (length gap' ≡ index)
      × (shift_one index start r (old ++ (gap ++ done), end)
          ≡ some (take start old ++ (gap' ++ (r ∷ (drop start old ++ done))), start))
unfolding shift_one
shift_one_lem index start end r old gap done lg le e =
    let buffer = old ++ (gap ++ done) in
    let size : length buffer ≡ end + (suc index + length done) =
      omega (arith, length-append old (gap ++ done), length-append gap done) in
    let prefix = take (start + index) buffer in
    let (y, copied) = copy_within_lem index start end old gap done lg le e in
    let front : prefix ≡ take start old ++ drop start prefix =
      sym (take-append-drop start prefix)
      ∙ ap (λ l. l ++ drop start prefix)
          (take-take start (start + index) buffer (omega arith)
            ∙ take-append start old (gap ++ done) (omega arith)) in
    let written =
      write-append prefix y r (drop start old ++ done) (start + index)
        (omega (arith, length-take (start + index) buffer)) in
    (
      drop start prefix,
      omega (arith, length-drop start prefix, length-take (start + index) buffer),
      rw (copied, written)
          (ap (λ l. some (l, start))
            (ap (λ l. l ++ (r ∷ (drop start old ++ done))) front
              ∙ append_assoc (take start old) (drop start prefix) _)),
    )

-- Weaving from a position on equals the old slots up to the next position, then the rest.
weave_skip :
    (p end : ℕ) (ps rs xs : List ℕ)
    → end ≡ length xs
    → IsPlan p end ps rs
    → weave p (drop p xs) ps rs
      ≡ drop p (take (first ps end) xs) ++ weave (first ps end) (drop (first ps end) xs) ps rs
unfolding weave
weave_skip p end [] [] xs e h =
    rw (take-all end xs (omega arith), drop-all end xs (omega arith)) (sym (append-nil (drop p xs)))
weave_skip p end (q ∷ qs) (r ∷ rs) xs e h =
    let none : q - q ≡ 0 = omega arith in
    rw (take-drop p q xs h.0, none, drop-drop (q - p) p q xs (omega (arith, h.0))) refl
weave_skip p end [] (r ∷ rs) xs e h = absurd h
weave_skip p end (q ∷ qs) [] xs e h = absurd h

-- The whole loop, from the last insertion point to the first.
shift_lem :
    (index base end : ℕ) (ps rs xs gap : List ℕ)
    → end ≡ length xs
    → length gap ≡ index + length rs
    → IsPlan base end ps rs
    → (gap' : List ℕ) × (length gap' ≡ index)
      × (shift index ps rs (xs ++ gap, end)
          ≡ some (
            take (first ps end) xs ++ (gap' ++ weave (first ps end) (drop (first ps end) xs) ps rs),
            first ps end,
          ))
unfolding shift weave
shift_lem index base end [] [] xs gap e lg h = (
  gap,
  omega arith,
  rw (take-all end xs (omega arith), drop-all end xs (omega arith), append-nil gap) refl,
)
shift_lem index base end (p ∷ ps) (r ∷ rs) xs gap e lg h =
    let (gap', lg', later) = shift_lem (index + 1) p end ps rs xs gap e (omega arith) h.1 in
    let next = first ps end in
    let bounds = first_bounds p end ps rs h.1 in
    let rest = weave next (drop next xs) ps rs in
    let (gap'', lg'', one) =
      shift_one_lem index p next r (take next xs) gap' rest (omega arith) bounds.0
        (omega (arith, length-take next xs, bounds)) in
    let none : p - p ≡ 0 = omega arith in
    (
      gap'',
      lg'',
      rw (later, one, take-take p next xs bounds.0, none, weave_skip p end ps rs xs e h.1) refl,
    )
shift_lem index base end [] (r ∷ rs) xs gap e lg h = absurd h
shift_lem index base end (p ∷ ps) [] xs gap e lg h = absurd h

-- The loop over all new slots fills the buffer: it does not panic, and no free place is left.
pub shift-eq-weave :
    (ps rs xs gap : List ℕ)
    → length gap ≡ length rs
    → IsPlan 0 (length xs) ps rs
    → (rest : ℕ) × (shift 0 ps rs (xs ++ gap, length xs) ≡ some (weave 0 xs ps rs, rest))
shift-eq-weave ps rs xs gap lg h =
    let (gap', full, done) = shift_lem 0 0 (length xs) ps rs xs gap refl (omega arith) h in
    let next = first ps (length xs) in
    (
      next,
      done
          ∙ ap (λ l. some (l, next))
              (ap (λ g. take next xs ++ (g ++ weave next (drop next xs) ps rs)) (empty gap' full)
                ∙ sym (weave_skip 0 (length xs) ps rs xs refl h)),
    )
  where
    empty : (l : List ℕ) → length l ≡ 0 → l ≡ []
    empty [] e = refl
    empty (x ∷ l) e = absurd (omega arith)
