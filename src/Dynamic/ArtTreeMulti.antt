-- ===== src/Dynamic/ArtTreeMulti.antt =====
-- `ArtTreeIndex` of src/dynamic_index/multithread/art_tree_index.h, by one thread. The tree holds a tuple's
-- offset plus one.
pub mod Laws
pub mod Loads
use mathlib.Core.List.{Mem}
use index_zoo.Base.{
  ℕ, zero, suc, ◌+◌, ◌-◌, ◌%◌, ◌≡◌, List, [], ◌∷◌, ◌++◌, length, Bool, true, false, Run, done, fail,
  no_fuel, ◌>>=◌, Perm,
}
use index_zoo.Table.Offset.{word, block_id, rel_offset}
use index_zoo.Table.Generic.{GenericDataTable}
use index_zoo.Table.Numeric.{number_key}
use index_zoo.Dynamic.Keys.Bytes.{byte_strings}
use index_zoo.Dynamic.Spec.{offsets_for}
use index_zoo.Dynamic.ArtTree.{swapped_key}

-- How the tree finds the key of a number, `loadKey` with its argument.
abbrev pub Load : Type 0
Load = ℕ → Run (List ℕ)

-- Each number loads the key that it stands with.
abbrev pub AllLoaded : Load → List (List ℕ × ℕ) → Type 0
AllLoaded load m = (x : List ℕ × ℕ) → Mem x m → load x.1 ≡ done x.0

-- `art::Tree` over keys of `size` bytes, with the documented behaviour of its operations: the tree holds the
-- key-value pairs that were inserted, and `lookup` into an empty vector leaves the numbers with a key, as
-- long as every number loads its own key. Nothing is assumed of `lookup` into a vector that holds numbers,
-- whose first one the tree can take for its own and compare, nor of `lookupRange`, which returns whether
-- there is more, the next key and the numbers found.
pub record Tree (size : ℕ) : Type 1 where
  pub Container : Type 0
  pub empty : Container
  pub insert : Load → Container → List ℕ → ℕ → Container
  pub lookup : Load → Container → List ℕ → List ℕ → List ℕ
  pub lookup_range : Load → Container → List ℕ → List ℕ → ℕ → Bool × List ℕ × List ℕ
  pub entries : Container → List (List ℕ × ℕ)
  pub empty-entries : entries empty ≡ []
  pub insert-perm :
      (load : Load) (c : Container) (key : List ℕ) (tid : ℕ)
      → length key ≡ size
      → AllLoaded load (entries c)
      → load tid ≡ done key
      → Perm (entries (insert load c key tid)) ((key, tid) ∷ entries c)
  pub lookup_into_empty :
      (load : Load) (c : Container) (key : List ℕ)
      → length key ≡ size
      → AllLoaded load (entries c)
      → Perm (lookup load c key []) (offsets_for byte_strings key (entries c))

-- `offset + 1` and `tid - 1` on `uint64_t`.
abbrev pub tid_of : ℕ → ℕ
tid_of offset = (offset + 1) % word

abbrev pub offset_of : ℕ → ℕ
offset_of tid = (tid + word - 1) % word

-- `for (i = 0; i < offsets.size(); ++i) offsets[i] -= 1`
unfoldable pub shift_all : List ℕ → List ℕ
shift_all [] = []
shift_all (tid ∷ tids) = offset_of tid ∷ shift_all tids

-- `for (const auto &tid : tmp_result) offsets.push_back(tid - 1)`
unfoldable pub push_shifted : List ℕ → List ℕ → List ℕ
push_shifted offsets [] = offsets
push_shifted offsets (tid ∷ tids) = push_shifted (offsets ++ offset_of tid ∷ []) tids

-- `load_key_internal(ctx, tid, tree_key)`: the key of the tuple, from the table.
unfoldable pub load_key_internal : ℕ → GenericDataTable → ℕ → Run (List ℕ)
load_key_internal size table tid =
    number_key table (block_id (offset_of tid)) (rel_offset (offset_of tid)) >>= λ key.
    done (swapped_key size key)

-- `load_key(key, tree_key)`
unfoldable pub load_key : ℕ → ℕ → List ℕ
load_key size key = swapped_key size key

-- `table` is `table_ptr`, which the constructor hands to the tree with `load_key_internal`.
module _ (size : ℕ) (library : Tree size) (table : GenericDataTable) where
  open library use {Container}

  abbrev load : Load
  load = load_key_internal size table

  -- `insert(key, offset)`
  unfoldable pub insert : Container → ℕ → ℕ → Container
  insert container key offset = library.insert load container (load_key size key) (tid_of offset)

  -- `find(key, offsets)`
  unfoldable pub find : Container → ℕ → List ℕ → List ℕ
  find container key offsets = shift_all (library.lookup load container (load_key size key) offsets)

  -- `while (has_more)` of `find_range`, on fuel.
  unfoldable pub range_batches : ℕ → Container → List ℕ → List ℕ → List ℕ → Run (List ℕ)
  range_batches zero container curr_key end_key offsets = fail no_fuel
  range_batches (suc fuel) container curr_key end_key offsets =
      let batch = library.lookup_range load container curr_key end_key 1000 in
      let pushed = push_shifted offsets batch.2 in
      elim (batch.0) [
        | true ↦ range_batches fuel container batch.1 end_key pushed
        | false ↦ done pushed
      ]

  -- `find_range(lhs_key, rhs_key, offsets)`
  unfoldable pub find_range : ℕ → Container → ℕ → ℕ → List ℕ → Run (List ℕ)
  find_range fuel container lhs_key rhs_key offsets =
      range_batches fuel container (load_key size lhs_key) (load_key size rhs_key) offsets

  -- `erase(key)`, with its body commented out, and `size()`.
  unfoldable pub erase : Container → ℕ → Container
  erase container key = container

  unfoldable pub size_of : Container → ℕ
  size_of container = 0
