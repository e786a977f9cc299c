-- ===== src/Query/Lexer/Total.antt =====
-- The loops of the lexer end, and what they put out is bounded.
use apfsearch.Prelude.{
  ℕ, zero, suc, ◌+◌, ◌≤◌, ◌<◌, ◌≡◌, refl, Bool, true, false, not as Bool_not, Option, none, some,
  [], ◌∷◌, leb, length, arith,
}
use apfsearch.Result.{Error, Result, ok, err, ◌>>=◌, out_of_fuel}
use apfsearch.Text.{Text}
use apfsearch.Query.Lexer.{
  Token, Scan, start_scan, Action, stop, take_one, take_two, turn, scan, token_of, punctuation,
  lex_from, lex,
}

abbrev pub cut_off : Error → Bool
cut_off out_of_fuel = true
cut_off e = false

-- The result is not that of a loop that was cut off.
abbrev pub ended {ℓ} : {A : Type ℓ} → Result A → Bool
ended (ok a) = true
ended (err e) = Bool_not (cut_off e)

pub ended->>= {ℓ κ} :
    {A : Type ℓ} {B : Type κ} (m : Result A) (f : A → Result B)
    → ended m ≡ true
    → ((a : A) → m ≡ ok a → ended (f a) ≡ true)
    → ended (m >>= f) ≡ true
ended->>= (ok a) f h k = k a refl
ended->>= (err e) f h k = h

token_of-ended : (s : Scan) → ended (token_of s) ≡ true
unfolding token_of
token_of-ended s = ground arith

module _ (is_whitespace : ℕ → Bool) where
  scan_shorter : (s : Scan) (input : Text) → length (scan is_whitespace s input).1 ≤ length input
  unfolding scan
  scan_shorter s [] = omega arith
  scan_shorter s (c ∷ []) = go (turn is_whitespace s c none) refl
    where
      go :
          (a : Action)
          → turn is_whitespace s c none ≡ a
          → length (scan is_whitespace s (c ∷ [])).1 ≤ 1
      go stop e = rw (e, length) (omega arith)
      go (take_one s') e = rw (e, length) (omega arith)
      go (take_two s') e = rw (e, length) (omega arith)
  scan_shorter s (c ∷ d ∷ input) =
      go (turn is_whitespace s c (some d)) refl (λ s'. scan_shorter s' (d ∷ input))
        (λ s'. scan_shorter s' input)
    where
      go :
          (a : Action)
          → turn is_whitespace s c (some d) ≡ a
          → ((s' : Scan) → length (scan is_whitespace s' (d ∷ input)).1 ≤ suc (length input))
          → ((s' : Scan) → length (scan is_whitespace s' input).1 ≤ length input)
          → length (scan is_whitespace s (c ∷ d ∷ input)).1 ≤ suc (suc (length input))
      go stop e one two = rw (e, length) (omega arith)
      go (take_one s') e one two = rw (e, length) (omega (arith, one s'))
      go (take_two s') e one two = rw (e, length) (omega (arith, two s'))

  -- A turn that makes a token consumes a character.
  scan_consumes :
      (c : ℕ) (input : Text) (t : Token)
      → token_of (scan is_whitespace start_scan (c ∷ input)).0 ≡ ok t
      → length (scan is_whitespace start_scan (c ∷ input)).1 < suc (length input)
  unfolding scan token_of
  scan_consumes c [] t = go (turn is_whitespace start_scan c none) refl
    where
      go :
          (a : Action)
          → turn is_whitespace start_scan c none ≡ a
          → token_of (scan is_whitespace start_scan (c ∷ [])).0 ≡ ok t
          → length (scan is_whitespace start_scan (c ∷ [])).1 < 1
      go stop e = rw (e, length, token_of, scan) (λ h. cc)
      go (take_one s') e = rw (e, length) (λ h. omega arith)
      go (take_two s') e = rw (e, length) (λ h. omega arith)
  scan_consumes c (d ∷ input) t = go (turn is_whitespace start_scan c (some d)) refl
    where
      go :
          (a : Action)
          → turn is_whitespace start_scan c (some d) ≡ a
          → token_of (scan is_whitespace start_scan (c ∷ d ∷ input)).0 ≡ ok t
          → length (scan is_whitespace start_scan (c ∷ d ∷ input)).1 < suc (suc (length input))
      go stop e = rw (e, length, token_of, scan) (λ h. cc)
      go (take_one s') e = rw (e, length) (λ h. omega (arith, scan_shorter s' (d ∷ input)))
      go (take_two s') e = rw (e, length) (λ h. omega (arith, scan_shorter s' input))

  lex_from-ended :
      (fuel count : ℕ) (input : Text)
      → length input < fuel
      → ended (lex_from is_whitespace fuel count input) ≡ true
  unfolding lex_from
  lex_from-ended zero count input h = absurd (omega arith)
  lex_from-ended (suc fuel) count [] h = refl
  lex_from-ended (suc fuel) count (c ∷ input) h =
      go (leb 8192 count) (is_whitespace c) (punctuation c) refl refl refl
        (λ n rest less. lex_from-ended fuel n rest (omega arith))
    where
      go :
          (full space : Bool) (mark : Option Token)
          → leb 8192 count ≡ full
          → is_whitespace c ≡ space
          → punctuation c ≡ mark
          → ((n : ℕ) (rest : Text)
              → length rest ≤ length input
              → ended (lex_from is_whitespace fuel n rest) ≡ true)
          → ended (lex_from is_whitespace (suc fuel) count (c ∷ input)) ≡ true
      go true space mark e1 e2 e3 rec = rw (e1, lex_from) refl
      go false true mark e1 e2 e3 rec = rw (e1, e2, lex_from) (rec count input (omega arith))
      go false false (some t) e1 e2 e3 rec =
          rw (e1, e2, e3, lex_from)
            (ended->>= (lex_from is_whitespace fuel (count + 1) input) _
              (rec (count + 1) input (omega arith)) (λ tokens e. refl))
      go false false none e1 e2 e3 rec =
          rw (e1, e2, e3, lex_from)
            (ended->>= (token_of (scan is_whitespace start_scan (c ∷ input)).0) _
              (token_of-ended (scan is_whitespace start_scan (c ∷ input)).0)
              (λ t e.
                let rest = (scan is_whitespace start_scan (c ∷ input)).1 in
                let less : length rest ≤ length input = omega (arith, scan_consumes c input t e) in
                ended->>= (lex_from is_whitespace fuel (count + 1) rest) _
                  (rec (count + 1) rest less) (λ tokens e. refl)))

  -- The lexer always ends with tokens or with one of its messages: its loop is never cut off.
  pub lex_ends : (input : Text) → ended (lex is_whitespace input) ≡ true
  unfolding lex
  lex_ends input = ground (arith, lex_from-ended (suc (length input)) 0 input (omega arith))
