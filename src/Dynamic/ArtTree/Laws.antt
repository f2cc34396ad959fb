-- ===== src/Dynamic/ArtTree/Laws.antt =====
-- What the index over the adaptive radix tree finds (src/dynamic_index/singlethread/art_tree_index.h).
use mathlib.Core.List.Perm
use index_zoo.Base.{ℕ, ◌≡◌, refl, List, [], ◌∷◌, Perm}
use index_zoo.Dynamic.ArtTree.{Art, swapped_key, insert, find, erase}

module _ (library : Art) (size : ℕ) where
  open library use {Tree}

  -- Inserts the pairs from the first to the last.
  unfoldable pub insert_all : List (ℕ × ℕ) → Tree → Tree
  insert_all [] t = t
  insert_all (x ∷ m) t = insert_all m (insert library ℕ (swapped_key size) t x.0 x.1)

  -- `erase` erases nothing: the offsets of the key are found as before.
  erase_keeps :
      (t : Tree) (key : ℕ) (out : List ℕ)
      → find library ℕ (swapped_key size) (erase library ℕ (swapped_key size) t key) key out
        ≡ find library ℕ (swapped_key size) t key out
  unfolding erase
  erase_keeps t key out = refl
