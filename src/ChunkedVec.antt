-- ===== src/ChunkedVec.antt =====
-- core/src/chunked_vec.rs: entries in blocks of 4096. A block that snapshots share is copied when
-- one of them writes to it (`Arc::make_mut`), so that blocks are values here.
pub mod Flat
pub mod Built
pub mod Written
mod Examples
use apfsearch.Prelude.{
  ℕ, zero, suc, ◌+◌, ◌-◌, ◌/◌, ◌%◌, Bool, true, false, Option, none, some, List, [], ◌∷◌, ◌++◌,
  flatten, ltb, ◌==◌, if◌then◌else◌, length, get_elem?, set, take, drop, ◌>>=◌,
}

abbrev pub chunk_length : ℕ
chunk_length = 4096

pub record ChunkedVec {ℓ} (T : Type ℓ) : Type ℓ where
  pub chunks : List (List T)
  pub length : ℕ

module _ {ℓ} {T : Type ℓ} where
  pub empty : ChunkedVec T
  empty = record { chunks = []; length = 0 }

  pub get : ChunkedVec T → ℕ → Option T
  get v slot =
      get_elem? v.chunks (slot / chunk_length) >>= λ chunk. get_elem? chunk (slot % chunk_length)

  pub last : ChunkedVec T → Option T
  unfolding get
  last v = elim v.length [ zero ↦ none | suc slot ↦ get v slot ]

  pub iter : ChunkedVec T → List T
  iter v = flatten v.chunks

  -- `chunks.last_mut().unwrap().push(value)`; `none` is the panic of `unwrap`.
  pub push_last : List (List T) → T → Option (List (List T))
  push_last [] value = none
  push_last (c ∷ []) value = some ((c ++ (value ∷ [])) ∷ [])
  push_last (c ∷ d ∷ chunks) value = push_last (d ∷ chunks) value >>= λ rest. some (c ∷ rest)

  pub push : ChunkedVec T → T → Option (ChunkedVec T)
  unfolding push_last
  push v value =
      let chunks = if v.length % chunk_length == 0 then v.chunks ++ ([] ∷ []) else v.chunks in
      push_last chunks value >>= λ pushed. some record { chunks = pushed; length = v.length + 1 }

  -- The loop of `from_iter`; each turn but the last takes an entry.
  pub collect : ℕ → List T → List (List T) × ℕ
  collect zero values = ([], 0)
  collect (suc fuel) [] = ([], 0)
  collect (suc fuel) (a ∷ values) =
      let (chunks, length) = collect fuel (drop chunk_length (a ∷ values)) in
      let chunk = take chunk_length (a ∷ values) in
      (chunk ∷ chunks, apfsearch.Prelude.length chunk + length)

  pub from_iter : List T → ChunkedVec T
  unfolding collect
  from_iter values =
      let (chunks, total) = collect (apfsearch.Prelude.length values) values in
      record { chunks = chunks; length = total }

  abbrev write_block : ChunkedVec T → ℕ → T → List T → Option (ChunkedVec T)
  write_block v slot value chunk =
      if ltb (slot % chunk_length) (apfsearch.Prelude.length chunk)
      then some record v {
        chunks = set v.chunks (slot / chunk_length) (set chunk (slot % chunk_length) value);
      }
      else none

  -- `v[slot] = value`: `none` is a panic.
  pub write : ChunkedVec T → ℕ → T → Option (ChunkedVec T)
  write v slot value =
      if ltb slot v.length
      then (get_elem? v.chunks (slot / chunk_length) >>= write_block v slot value)
      else none
