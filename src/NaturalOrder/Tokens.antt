-- ===== src/NaturalOrder/Tokens.antt =====
-- A reading of a text as tokens, on which the natural order is lexicographic.
use apfsearch.Prelude.{
  ℕ, ◌≤◌, ◌≡◌, refl, sym, Bool, true, false, List, [], ◌∷◌, ◌++◌, ltb, if◌then◌else◌, length,
  Ordering, compare, arith, Bool-cases, inl, inr,
}
use apfsearch.Text.{Bytes}
use apfsearch.Compare.{reverse}
use apfsearch.Compare.Lawful.{IsLawful, key-IsLawful}
use apfsearch.Compare.Numbers.{compare-IsLawful}
use apfsearch.NaturalOrder.Value.{value}
use apfsearch.NaturalOrder.{is_digit, skip_zeros, digit_run, behind_run, ends_without_digit}

-- A whole run of digits, or a byte that is no digit.
pub data Token : Type 0 where
  number : Bytes → Token
  other : ℕ → Token

abbrev join : ℕ → List Token → List Token
join c (number ds ∷ ts) = if is_digit c then number (c ∷ ds) ∷ ts else other c ∷ number ds ∷ ts
join c ts = if is_digit c then number (c ∷ []) ∷ ts else other c ∷ ts

pub tokens : Bytes → List Token
tokens [] = []
tokens (c ∷ bytes) = join c (tokens bytes)

-- Numbers by their value in decimal, bytes by theirs, and a number among the bytes where its digits stand.
abbrev pub token_cmp : Token → Token → Ordering
token_cmp (number a) (number b) = compare (value a) (value b)
token_cmp (number a) (other d) = if ltb d b'0' then Ordering.gt else Ordering.lt
token_cmp (other c) (number b) = if ltb c b'0' then Ordering.lt else Ordering.gt
token_cmp (other c) (other d) = compare c d

number-IsLawful : IsLawful (λ (a b : Bytes). compare (value a) (value b))
number-IsLawful = key-IsLawful compare-IsLawful value

token-swap : (a b : Token) → token_cmp b a ≡ reverse (token_cmp a b)
token-swap (number a) (number b) = number-IsLawful.swap a b
token-swap (number a) (other d) = ground arith
token-swap (other c) (number b) = ground arith
token-swap (other c) (other d) = ground arith

token_trans :
    (a b c : Token)
    → token_cmp a b ≡ Ordering.lt
    → token_cmp b c ≡ Ordering.lt
    → token_cmp a c ≡ Ordering.lt
token_trans (number a) (number b) (number c) h k = number-IsLawful.trans a b c h k
token_trans (number a) (number b) (other c) h k = k
token_trans (number a) (other b) (number c) h k = ground arith
token_trans (number a) (other b) (other c) h k = ground arith
token_trans (other a) (number b) (number c) h k = h
token_trans (other a) (number b) (other c) h k = ground arith
token_trans (other a) (other b) (number c) h k = ground arith
token_trans (other a) (other b) (other c) h k = ground arith

token-same : (a b c : Token) → token_cmp a b ≡ Ordering.eq → token_cmp a c ≡ token_cmp b c
token-same (number a) (number b) (number c) h = number-IsLawful.same a b c h
token-same (number a) (number b) (other c) h = refl
token-same (number a) (other b) c h = ground arith
token-same (other a) (number b) c h = ground arith
token-same (other a) (other b) (number c) h = ground arith
token-same (other a) (other b) (other c) h = ground arith

pub token-IsLawful : IsLawful token_cmp
token-IsLawful = record { swap = token-swap; trans = token_trans; same = token-same }

pub tokens_of_other :
    (c : ℕ) (bytes : Bytes) → is_digit c ≡ false → tokens (c ∷ bytes) ≡ other c ∷ tokens bytes
unfolding tokens
tokens_of_other c bytes h = joined (tokens bytes)
  where
    joined : (ts : List Token) → join c ts ≡ other c ∷ ts
    joined [] = rw h refl
    joined (number ds ∷ ts) = rw h refl
    joined (other d ∷ ts) = rw h refl

-- A text that starts with a digit reads as its run of digits and the rest.
pub tokens_of_run :
    (c : ℕ) (bytes : Bytes)
    → is_digit c ≡ true
    → tokens (c ∷ bytes) ≡ number (digit_run (c ∷ bytes)) ∷ tokens (behind_run (c ∷ bytes))
unfolding tokens digit_run behind_run
tokens_of_run c [] h = rw h refl
tokens_of_run c (d ∷ bytes) h = elim (Bool-cases (is_digit d)) [
  | inl e ↦ rw (tokens_of_run d bytes e) (rw (h, e) refl)
  | inr n ↦ rw (tokens_of_other d bytes n) (rw (h, n) (rw (tokens_of_other d bytes n)))
]

-- Zeros in front of a run are part of it.
pub digit_run-skip_zeros :
    (bytes : Bytes) → digit_run (skip_zeros bytes) ≡ skip_zeros (digit_run bytes)
unfolding digit_run skip_zeros
digit_run-skip_zeros [] = refl
digit_run-skip_zeros (c ∷ bytes) = ground (arith, digit_run-skip_zeros bytes)

pub behind_run-skip_zeros : (bytes : Bytes) → behind_run (skip_zeros bytes) ≡ behind_run bytes
unfolding behind_run skip_zeros
behind_run-skip_zeros [] = refl
behind_run-skip_zeros (c ∷ bytes) = ground (arith, behind_run-skip_zeros bytes)

pub length-behind_run : (bytes : Bytes) → length (behind_run bytes) ≤ length bytes
unfolding behind_run
length-behind_run [] = omega arith
length-behind_run (c ∷ bytes) = ground (arith, length-behind_run bytes)

-- A turn on two runs takes at least one byte of each.
pub behind_run_shorter :
    (c : ℕ) (bytes : Bytes)
    → is_digit c ≡ true
    → length (behind_run (skip_zeros (c ∷ bytes))) ≤ length bytes
unfolding behind_run
behind_run_shorter c bytes h = rw (behind_run-skip_zeros (c ∷ bytes), h) (length-behind_run bytes)

pub tokens_of_nothing : tokens [] ≡ []
unfolding tokens
tokens_of_nothing = refl

-- Where the first text does not end in a digit, no run reaches across the join.
join-append :
    (c : ℕ) (t : Token) (ts us : List Token) → join c (t ∷ ts) ++ us ≡ join c ((t ∷ ts) ++ us)
join-append c (number ds) ts us = ground arith
join-append c (other d) ts us = ground arith

abbrev HasFirst : List Token → Type 0
HasFirst us = (t : Token) × (ts : List Token) × (us ≡ t ∷ ts)

either_HasFirst :
    (b : Bool) (t u : Token) (ts us : List Token) → HasFirst (if b then t ∷ ts else u ∷ us)
either_HasFirst true t u ts us = (t, ts, refl)
either_HasFirst false t u ts us = (u, us, refl)

join-HasFirst : (c : ℕ) (us : List Token) → HasFirst (join c us)
join-HasFirst c [] = either_HasFirst (is_digit c) (number (c ∷ [])) (other c) [] []
join-HasFirst c (number ds ∷ us) =
    either_HasFirst (is_digit c) (number (c ∷ ds)) (other c) us (number ds ∷ us)
join-HasFirst c (other d ∷ us) =
    either_HasFirst (is_digit c) (number (c ∷ [])) (other c) (other d ∷ us) (other d ∷ us)

pub tokens-append :
    (p a : Bytes) → ends_without_digit p ≡ true → tokens (p ++ a) ≡ tokens p ++ tokens a
unfolding tokens
tokens-append [] a h = refl
tokens-append (c ∷ []) a h =
    let plain : is_digit c ≡ false = ground arith in rw (tokens_of_other c a plain, plain) refl
tokens-append (c ∷ d ∷ p) a h =
    let (t, ts, e) = join-HasFirst d (tokens p) in
    rw (tokens-append (d ∷ p) a h, e) (sym (join-append c t ts (tokens a)))
