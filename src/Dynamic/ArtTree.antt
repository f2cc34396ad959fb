-- ===== src/Dynamic/ArtTree.antt =====
-- `ArtTreeIndex` and `ArtTreeGenericIndex` (src/dynamic_index/singlethread/art_tree_index.h and
-- art_tree_generic_index.h), which differ in the bytes that they hand to the tree.
pub mod Keyed
pub mod Laws
use index_zoo.Base.{
  ℕ, ◌≡◌, refl, List, [], ◌∷◌, ◌++◌, length, Perm, if◌then◌else◌, Run, done, ◌>>=◌,
}
use index_zoo.Table.Numeric.{to_bytes}
use index_zoo.GenericKey.{GenericKey, bytes}
use index_zoo.Dynamic.ByteSwap.{byte_swap}
use index_zoo.Dynamic.Keys.Bytes.{same_bytes}

-- `art_tree`, with the documented behaviour of `art_insert` and `art_search`: a search pushes to `rets` the
-- values that were inserted with the key, among keys of one length. Nothing is assumed of `art_range_scan`, `art_scan_limit` and
-- `art_size`.
pub record Art : Type 1 where
  pub Tree : Type 0
  pub art_tree_init : Tree
  pub art_insert : Tree → List ℕ → ℕ → Tree
  pub art_search : Tree → List ℕ → List ℕ → List ℕ
  pub art_range_scan : Tree → List ℕ → List ℕ → List ℕ → List ℕ
  pub art_scan_limit : Tree → List ℕ → ℕ → List ℕ
  pub art_size : Tree → ℕ
  pub search-init : (key rets : List ℕ) → art_search art_tree_init key rets ≡ rets
  pub search-insert :
      (t : Tree) (key : List ℕ) (value : ℕ) (other rets : List ℕ)
      → length key ≡ length other
      → Perm (art_search (art_insert t key value) other rets) (
          if same_bytes key other then value ∷ art_search t other rets else art_search t other rets)

-- `(unsigned char*)(&bs_key)` for `bs_key = byte_swap<KeyT>(key)`, a `KeyT` of `size` bytes.
unfoldable pub swapped_key : ℕ → ℕ → List ℕ
swapped_key size key = to_bytes size (byte_swap size key)

module _ (library : Art) (Key : Type 0) (tree_key : Key → List ℕ) where
  open library use {Tree}

  -- `insert(key, offset)`
  unfoldable pub insert : Tree → Key → ℕ → Tree
  insert container key offset = library.art_insert container (tree_key key) offset

  -- `find(key, offsets)`
  unfoldable pub find : Tree → Key → List ℕ → List ℕ
  find container key offsets = library.art_search container (tree_key key) offsets

  -- `find_range(lhs_key, rhs_key, offsets)`
  unfoldable pub find_range : Tree → Key → Key → List ℕ → List ℕ
  find_range container lhs_key rhs_key offsets =
      library.art_range_scan container (tree_key lhs_key) (tree_key rhs_key) offsets

  -- `scan_full(offsets, count)`
  unfoldable pub scan_full : Tree → List ℕ → ℕ → List ℕ
  scan_full container offsets count = library.art_scan_limit container offsets count

  -- `erase(key)`, with its body commented out.
  unfoldable pub erase : Tree → Key → Tree
  erase container key = container

  -- `size()`
  unfoldable pub size : Tree → ℕ
  size container = library.art_size container
