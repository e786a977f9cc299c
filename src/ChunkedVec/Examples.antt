-- ===== src/ChunkedVec/Examples.antt =====
-- Tests of core/src/chunked_vec.rs.
use apfsearch.Prelude.{ℕ, ◌≡◌, ◌++◌, refl, List, [], ◌∷◌, flatten, some, get_elem?, set, arith}
use apfsearch.ChunkedVec.{ChunkedVec, get, iter, push, write, from_iter}
use apfsearch.ChunkedVec.Flat.{IsChunked, get-iter, push-iter}
use apfsearch.ChunkedVec.Built.{iter-from_iter}
use apfsearch.ChunkedVec.Written.{write-iter}

abbrev small : ChunkedVec ℕ
small = record { chunks = (5 ∷ 6 ∷ 7 ∷ []) ∷ []; length = 3 }

small-IsChunked : IsChunked small
unfolding iter flatten
small-IsChunked = ((omega arith, omega arith), refl)

get-iter_example : get small 1 ≡ get_elem? (iter small) 1
get-iter_example = get-iter small 1 small-IsChunked

push-iter_example :
    (pushed : ChunkedVec ℕ) × (push small 8 ≡ some pushed)
    × IsChunked pushed
    × (iter pushed ≡ iter small ++ (8 ∷ []))
push-iter_example = push-iter small 8 small-IsChunked

abbrev three : List ℕ
three = 1 ∷ 2 ∷ 3 ∷ []

iter-from_iter_example : IsChunked (from_iter three) × (iter (from_iter three) ≡ three)
iter-from_iter_example = iter-from_iter three

write-iter_example :
    (written : ChunkedVec ℕ) × (write small 1 9 ≡ some written)
    × IsChunked written
    × (iter written ≡ set (iter small) 1 9)
write-iter_example = write-iter small 1 9 small-IsChunked (omega arith)
