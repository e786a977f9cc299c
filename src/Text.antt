-- ===== src/Text.antt =====
-- Text as its Unicode scalar values, with the UTF-8 bytes that the searchers consume, and the views
-- of core/src/text_view.rs.
pub mod Equal
use Prim.Native.Char.{code}
use Prim.Native.String.{String}
use apfsearch.Prelude.{
  Option, none, some, ℕ, ◌+◌, ◌-◌, ◌/◌, ◌%◌, Bool, true, false, ◌&&◌, ◌||◌, List, [], ◌∷◌, ◌++◌,
  ltb, leb, ◌==◌, if◌then◌else◌,
}

abbrev pub Text : Type 0
Text = List ℕ

abbrev pub Bytes : Type 0
Bytes = List ℕ

-- The scalar values of a literal.
abbrev pub codes : String → Text
codes String.[] = []
codes (String.◌∷◌ c s) = code c ∷ codes s

abbrev pub text_eq : List ℕ → List ℕ → Bool
text_eq [] [] = true
text_eq [] (b ∷ bs) = false
text_eq (a ∷ as') [] = false
text_eq (a ∷ as') (b ∷ bs) = (a == b) && text_eq as' bs

abbrev pub is : Text → String → Bool
is text word = text_eq text (codes word)

abbrev pub encode_utf8 : ℕ → Bytes
encode_utf8 c =
    if ltb c 0x80
    then c ∷ []
    else if ltb c 0x800
    then (0xc0 + c / 64) ∷ (0x80 + c % 64) ∷ []
    else if ltb c 0x10000
    then (0xe0 + c / 4096) ∷ (0x80 + c / 64 % 64) ∷ (0x80 + c % 64) ∷ []
    else (0xf0 + c / 262144) ∷ (0x80 + c / 4096 % 64) ∷ (0x80 + c / 64 % 64) ∷ (0x80 + c % 64) ∷ []

abbrev pub len_utf8 : ℕ → ℕ
len_utf8 c = if ltb c 0x80 then 1 else if ltb c 0x800 then 2 else if ltb c 0x10000 then 3 else 4

unfoldable pub as_bytes : Text → Bytes
as_bytes [] = []
as_bytes (c ∷ text) = encode_utf8 c ++ as_bytes text

-- `str::len`, in bytes
unfoldable pub byte_length : Text → ℕ
byte_length [] = 0
byte_length (c ∷ text) = len_utf8 c + byte_length text

-- `(&s[..offset], &s[offset..])` at a byte offset
unfoldable pub split_at : ℕ → Text → Text × Text
split_at offset [] = ([], [])
split_at offset (c ∷ text) =
    let (before, behind) = split_at (offset - len_utf8 c) text in
    if offset == 0 then ([], c ∷ text) else (c ∷ before, behind)

unfoldable pub is_ascii : Text → Bool
is_ascii [] = true
is_ascii (c ∷ text) = ltb c 128 && is_ascii text

abbrev pub ascii_lower : ℕ → ℕ
ascii_lower c = if leb b'A' c && leb c b'Z' then c + 32 else c

unfoldable pub to_ascii_lowercase : Text → Text
to_ascii_lowercase [] = []
to_ascii_lowercase (c ∷ text) = ascii_lower c ∷ to_ascii_lowercase text

abbrev pub starts_with : List ℕ → List ℕ → Bool
starts_with text [] = true
starts_with [] (b ∷ bs) = false
starts_with (a ∷ as') (b ∷ bs) = (a == b) && starts_with as' bs

-- `haystack.contains(needle)`
unfoldable pub contains : List ℕ → List ℕ → Bool
contains [] needle = starts_with [] needle
contains (a ∷ haystack) needle = starts_with (a ∷ haystack) needle || contains haystack needle

abbrev pub filter : (ℕ → Bool) → Text → Text
filter keep [] = []
filter keep (c ∷ text) = let rest = filter keep text in if keep c then c ∷ rest else rest

abbrev pub is_empty {ℓ} : {A : Type ℓ} → List A → Bool
is_empty [] = true
is_empty (a ∷ l) = false

-- A text of at most two stored regions.
pub record TextView : Type 0 where
  pub prefix : Text
  pub suffix : Text

-- The concatenation is written to a buffer only if both regions have bytes.
abbrev pub with_scratch {ℓ} : {R : Type ℓ} → TextView → (Text → R) → R
with_scratch view work =
    if is_empty view.prefix
    then work view.suffix
    else if is_empty view.suffix
    then work view.prefix
    else work (view.prefix ++ view.suffix)

-- Without the separators at the end.
abbrev trim_separators : Text → Text
trim_separators [] = []
trim_separators (c ∷ text) =
    let rest = trim_separators text in if is_empty rest && c == b'/' then [] else c ∷ rest

-- What stands before the last separator.
abbrev before_separator : Text → Option Text
before_separator [] = none
before_separator (c ∷ text) = elim (before_separator text) [
  | some before ↦ some (c ∷ before)
  | none ↦ if c == b'/' then some [] else none
]

-- The standard library's `Path::parent`, for a path without `.` components.
pub parent_path : Text → Option Text
parent_path text =
    let trimmed = trim_separators text in
    if is_empty trimmed then none else elim (before_separator trimmed) [
      | none ↦ some []
      | some before ↦
          let above = trim_separators before in
          if is_empty above then some (b'/' ∷ []) else some above
    ]
