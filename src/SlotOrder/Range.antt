-- ===== src/SlotOrder/Range.antt =====
-- The slots of a range of ranks.
use apfsearch.Prelude.{
  ℕ, zero, suc, ◌+◌, ◌-◌, ◌≤◌, ◌<◌, ◌≡◌, refl, sym, ap, ◌∙◌, true, false, Option, none, some, List,
  [], ◌∷◌, ◌++◌, flatten, leb, ◌==◌, length, get_elem?, arith, Bool-cases, inl, inr, length-append,
  length-take, slice, min, take, take-drop, take-append, take-append_beyond, take-all, drop-append,
  drop-append_beyond, append-nil, append_assoc, take-nil,
}
use apfsearch.SlotOrder.{
  ends_from, from_blocks, len, start, iter, extend_turn, extend_from, extend_range,
}
use apfsearch.SlotOrder.Ranks.{start_from, block_from, len-from_blocks}

extend_turn_same :
    (o : Option ℕ) (b : Option (List ℕ)) (s e : ℕ) (out : List ℕ) (f g : List ℕ → Option (List ℕ))
    → ((part : List ℕ) → f part ≡ g part)
    → extend_turn o b s e out f ≡ extend_turn o b s e out g
unfolding extend_turn
extend_turn_same none b s e out f g h = refl
extend_turn_same (some base) none s e out f g h = ground arith
extend_turn_same (some base) (some values) s e out f g h =
    ground (arith, h (slice (s - base) (min (length values) (e - base)) values))

-- The loop over blocks that begin at `base`.
loop_from : ℕ → List (List ℕ) → ℕ → ℕ → ℕ → ℕ → List ℕ → Option (List ℕ)
loop_from base blocks zero block s e out = some out
loop_from base blocks (suc turns) block s e out =
    extend_turn (start_from base blocks block) (get_elem? blocks block) s e out
      (λ part. loop_from base blocks turns (block + 1) s e (out ++ part))

start_same :
    (blocks : List (List ℕ)) (block : ℕ)
    → start (from_blocks blocks) block ≡ start_from 0 blocks block
unfolding start from_blocks
start_same blocks zero = refl
start_same blocks (suc block) = refl

extend_from-loop :
    (blocks : List (List ℕ)) (turns block s e : ℕ) (out : List ℕ)
    → extend_from turns (from_blocks blocks) block s e out ≡ loop_from 0 blocks turns block s e out
unfolding extend_from loop_from from_blocks
extend_from-loop blocks zero block s e out = refl
extend_from-loop blocks (suc turns) block s e out = rw (start_same blocks block) (
    extend_turn_same (start_from 0 blocks block) (get_elem? blocks block) s e out _ _
      (λ part. extend_from-loop blocks turns (block + 1) s e (out ++ part)))

start_next :
    (base : ℕ) (b : List ℕ) (blocks : List (List ℕ)) (k : ℕ)
    → start_from base (b ∷ blocks) (suc k) ≡ start_from (base + length b) blocks k
unfolding ends_from
start_next base b blocks zero = refl
start_next base b blocks (suc k) = refl

loop_shift :
    (base : ℕ) (b : List ℕ) (blocks : List (List ℕ)) (turns block s e : ℕ) (out : List ℕ)
    → loop_from base (b ∷ blocks) turns (suc block) s e out
      ≡ loop_from (base + length b) blocks turns block s e out
unfolding loop_from
loop_shift base b blocks zero block s e out = refl
loop_shift base b blocks (suc turns) block s e out =
    let after : suc block + 1 ≡ suc (block + 1) = omega arith in
    rw (start_next base b blocks block, after)
      (extend_turn_same (start_from (base + length b) blocks block) (get_elem? blocks block) s e out
        _ _ (λ part. loop_shift base b blocks turns (block + 1) s e (out ++ part)))

-- A cut of two parts is a cut of the first and a cut of the second.
take_parts :
    (c : ℕ) (b rest : List ℕ)
    → take (min (length b) c) b ++ take (c - length b) rest ≡ take c (b ++ rest)
take_parts c b rest = elim (Bool-cases (leb c (length b))) [
  | inl e ↦
      let short : min (length b) c ≡ c = ground arith in
      let over : c - length b ≡ 0 = ground arith in
      rw (short, over, append-nil (take c b)) (sym (take-append c b rest (ground arith)))
  | inr n ↦
      let long : min (length b) c ≡ length b = ground arith in
      rw (long, take-all (length b) b (omega arith))
        (sym (take-append_beyond c b rest (ground arith)))
]

slice_parts :
    (a c : ℕ) (b rest : List ℕ)
    → a ≤ length b
    → a ≤ c
    → slice a (min (length b) c) b ++ take (c - length b) rest ≡ slice a c (b ++ rest)
slice_parts a c b rest h k =
    rw
      (
        take-drop a (min (length b) c) b (omega arith),
        take-drop a c (b ++ rest) k,
        ← take_parts c b rest,
      )
      (sym (
        drop-append a (take (min (length b) c) b) (take (c - length b) rest)
          (omega (arith, length-take (min (length b) c) b))))

turn_lem :
    (base : ℕ) (values : List ℕ) (s e : ℕ) (out : List ℕ) (further : List ℕ → Option (List ℕ))
    → base < e
    → s ≤ base + length values
    → s ≤ e
    → extend_turn (some base) (some values) s e out further
      ≡ further (slice (s - base) (min (length values) (e - base)) values)
unfolding extend_turn
turn_lem base values s e out further h k l =
    let goes : leb e base ≡ false = ground arith in
    let low : leb (s - base) (min (length values) (e - base)) ≡ true = ground arith in
    let high : leb (min (length values) (e - base)) (length values) ≡ true = ground arith in
    rw (goes, low, high, extend_turn) refl

stop_lem :
    (base : ℕ) (values : List ℕ) (s e : ℕ) (out : List ℕ) (further : List ℕ → Option (List ℕ))
    → leb e base ≡ true
    → extend_turn (some base) (some values) s e out further ≡ some out
unfolding extend_turn
stop_lem base values s e out further h = rw (h, extend_turn) refl

-- A turn and those behind it, from a block in which the range begins or which is behind that one.
block_lem :
    (base : ℕ) (b : List ℕ) (blocks : List (List ℕ)) (s e : ℕ) (out : List ℕ)
    → base < e
    → s ≤ base + length b
    → s ≤ e
    → ((o : List ℕ)
        → loop_from (base + length b) blocks (length blocks) 0 s e o
          ≡ some (o ++ take (e - (base + length b)) (flatten blocks)))
    → loop_from base (b ∷ blocks) (suc (length blocks)) 0 s e out
      ≡ some (out ++ slice (s - base) (e - base) (b ++ flatten blocks))
unfolding loop_from
block_lem base b blocks s e out h k l behind =
    let part = slice (s - base) (min (length b) (e - base)) b in
    let last : e - (base + length b) ≡ e - base - length b = omega arith in
    turn_lem base b s e out (λ p. loop_from base (b ∷ blocks) (length blocks) 1 s e (out ++ p)) h k
      l
    ∙ (loop_shift base b blocks (length blocks) 0 s e (out ++ part)
        ∙ (behind (out ++ part)
            ∙ ap some (
                rw last (
                  append_assoc out part (take (e - base - length b) (flatten blocks))
                  ∙ ap (λ r. out ++ r)
                      (slice_parts (s - base) (e - base) b (flatten blocks) (omega arith)
                        (omega arith))))))

tail_lem :
    (base : ℕ) (blocks : List (List ℕ)) (s e : ℕ) (out : List ℕ)
    → s ≤ base
    → s ≤ e
    → loop_from base blocks (length blocks) 0 s e out
      ≡ some (out ++ take (e - base) (flatten blocks))
unfolding loop_from flatten
tail_lem base [] s e out h l =
    ap some (sym (ap (λ r. out ++ r) (take-nil (e - base)) ∙ append-nil out))
tail_lem base (b ∷ blocks) s e out h l = elim (Bool-cases (leb e base)) [
  | inl c ↦
      let none_left : e - base ≡ 0 = ground arith in
      rw (none_left, append-nil out)
        (stop_lem base b s e out
          (λ p. loop_from base (b ∷ blocks) (length blocks) (0 + 1) s e (out ++ p)) c)
  | inr n ↦
      let none_skipped : s - base ≡ 0 = omega arith in
      let whole : e - base - 0 ≡ e - base = omega arith in
      rw whole at (
        rw none_skipped at (
          block_lem base b blocks s e out (ground arith) (omega arith) l
            (λ o. tail_lem (base + length b) blocks s e o (omega arith) l)))
]

-- The range lies behind the first part.
slice_beyond :
    (a c n : ℕ) (b rest : List ℕ)
    → n ≡ length b
    → n ≤ a
    → slice (a - n) (c - n) rest ≡ slice a c (b ++ rest)
slice_beyond a c n b rest e h =
    let size : c - n - (a - n) ≡ c - a = omega arith in
    rw (size, e) (sym (ap (λ r. take (c - a) r) (drop-append_beyond a b rest (omega arith))))

range_lem :
    (base : ℕ) (blocks : List (List ℕ)) (s e : ℕ) (out : List ℕ)
    → base ≤ s
    → s < e
    → e ≤ base + length (flatten blocks)
    → loop_from base blocks
        (length blocks - block_from base blocks s)
        (block_from base blocks s)
        s
        e
        out
      ≡ some (out ++ slice (s - base) (e - base) (flatten blocks))
unfolding ends_from flatten
range_lem base [] s e out h k l = absurd (omega arith)
range_lem base (b ∷ blocks) s e out h k l = elim (Bool-cases (leb (base + length b) s)) [
  | inl c ↦
      let first = block_from (base + length b) blocks s in
      let turns : suc (length blocks) - suc first ≡ length blocks - first = omega arith in
      let low : s - (base + length b) ≡ s - base - length b = omega arith in
      let high : e - (base + length b) ≡ e - base - length b = omega arith in
      rw (c, turns)
        (loop_shift base b blocks (length blocks - first) first s e out
          ∙ (range_lem (base + length b) blocks s e out (ground arith) k
                (omega (arith, length-append b (flatten blocks)))
              ∙ rw (low, high)
                  (ap (λ r. some (out ++ r))
                    (slice_beyond (s - base) (e - base) (length b) b (flatten blocks) refl
                      (ground arith)))))
  | inr n ↦
      let turns : suc (length blocks) - 0 ≡ suc (length blocks) = omega arith in
      rw (n, turns)
        (block_lem base b blocks s e out (omega arith) (ground arith) (omega arith)
          (λ o. tail_lem (base + length b) blocks s e o (ground arith) (omega arith)))
]

-- For every range of ranks within the order, `extend_range` does not panic and puts out the slots
-- of the range in their order behind what is there, across any number of blocks.
pub extend_range-slice :
    (blocks : List (List ℕ)) (output : List ℕ) (first_rank end : ℕ)
    → first_rank ≤ end
    → end ≤ length (iter (from_blocks blocks))
    → extend_range (from_blocks blocks) output first_rank end
      ≡ some (output ++ slice first_rank end (iter (from_blocks blocks)))
unfolding extend_range iter from_blocks
extend_range-slice blocks output s e h l =
    let bound = len-from_blocks blocks in
    let in_order : leb s e ≡ true = ground arith in
    let within : leb e (len (from_blocks blocks)) ≡ true = ground arith in
    elim (Bool-cases (s == e)) [
      | inl c ↦
          let nothing : e - s ≡ 0 = ground arith in
          rw (in_order, within, c, nothing, append-nil output) refl
      | inr n ↦
          let first = block_from 0 blocks s in
          let low : s - 0 ≡ s = omega arith in
          let high : e - 0 ≡ e = omega arith in
          rw (in_order, within, n)
            (extend_from-loop blocks (length blocks - first) first s e output
              ∙ (range_lem 0 blocks s e output (omega arith) (ground arith) (omega arith)
                  ∙ rw (low, high) refl))
    ]
