-- ===== src/Roaring.antt =====
-- The crate `roaring` is a dependency of the core, and its code is not in the repository. The
-- record below is what the core relies on: a set of slots with the documented meaning of its calls.
pub mod Listed
use apfsearch.Prelude.{ℕ, ◌≤◌, ◌≡◌, Bool, true, false, ◌&&◌, ◌||◌, not, leb, ◌==◌}

pub record Roaring : Type 1 where
  pub Bitmap : Type 0
  pub new : Bitmap
  pub contains : Bitmap → ℕ → Bool
  pub insert : Bitmap → ℕ → Bitmap
  -- `insert_range(first..=last)`
  pub insert_range : Bitmap → ℕ → ℕ → Bitmap
  pub remove : Bitmap → ℕ → Bitmap
  pub is_empty : Bitmap → Bool
  pub contains-new : (x : ℕ) → contains new x ≡ false
  pub contains-insert :
      (b : Bitmap) (slot x : ℕ) → contains (insert b slot) x ≡ ((slot == x) || contains b x)
  pub contains-insert_range :
      (b : Bitmap) (first last x : ℕ)
      → contains (insert_range b first last) x ≡ ((leb first x && leb x last) || contains b x)
  pub contains-remove :
      (b : Bitmap) (slot x : ℕ) → contains (remove b slot) x ≡ (not (slot == x) && contains b x)
  pub is_empty_none : (b : Bitmap) (x : ℕ) → is_empty b ≡ true → contains b x ≡ false
  pub is_empty_of : (b : Bitmap) → ((x : ℕ) → contains b x ≡ false) → is_empty b ≡ true
