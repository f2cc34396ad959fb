-- ===== src/Dynamic/ArtTreeMulti/Laws.antt =====
-- What `find` of src/dynamic_index/multithread/art_tree_index.h leaves in the vector.
use mathlib.Core.List.Perm
use mathlib.Core.Logic.Or
use index_zoo.Base.{ℕ, ◌-◌, ◌<◌, ◌≡◌, List, [], ◌∷◌, Perm, done}
use index_zoo.Table.Generic.{GenericDataTable}
use index_zoo.Table.Numeric.{number_key}
use index_zoo.Table.Offset.{word, block_id, rel_offset}
use index_zoo.Dynamic.ArtTreeMulti.{Load, Tree, tid_of, load_key_internal, insert}

-- The pairs with the numbers that the tree holds for their offsets.
abbrev with_tids : List (ℕ × ℕ) → List (ℕ × ℕ)
with_tids [] = []
with_tids (x ∷ m) = (x.0, tid_of x.1) ∷ with_tids m

-- The offsets are below the largest 64-bit number.
abbrev pub AllOffsets : List (ℕ × ℕ) → Type 0
AllOffsets [] = Unit
AllOffsets (x ∷ m) = (x.1 < word - 1) × AllOffsets m

-- The tuple at each offset has the key that the offset stands with.
abbrev pub AllStored : GenericDataTable → List (ℕ × ℕ) → Type 0
AllStored table [] = Unit
AllStored table (x ∷ m) =
    (number_key table (block_id x.1) (rel_offset x.1) ≡ done x.0) × AllStored table m

module _ (size : ℕ) (library : Tree size) (table : GenericDataTable) where
  open library use {Container, entries}

  -- Inserts the pairs from the first to the last.
  unfoldable pub insert_all : List (ℕ × ℕ) → Container → Container
  insert_all [] c = c
  insert_all (x ∷ m) c = insert_all m (insert size library table c x.0 x.1)

  abbrev load : Load
  load = load_key_internal size table
