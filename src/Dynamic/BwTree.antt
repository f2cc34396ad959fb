-- ===== src/Dynamic/BwTree.antt =====
-- `BwTreeIndex` and `BwTreeGenericIndex` (src/dynamic_index/multithread/bw_tree_index.h and
-- bw_tree_generic_index.h), which have the same text up to the key type, by one thread.
pub mod Laws
use index_zoo.Base.{
  ℕ, zero, suc, ◌+◌, ◌≡◌, List, [], ◌∷◌, ◌++◌, length, Bool, true, false, not, ltb, ◌==◌, Run, done,
  fail, no_fuel, assert, at, ◌>>=◌, ◌>>◌,
}
use index_zoo.Dynamic.Keys.{Keys}
use index_zoo.Dynamic.Spec.{Entries, offsets_for}
use index_zoo.Dynamic.StxBtree.{IsOrdered, IsLowerBound}

-- `BwTree<KeyT, Uint64>`, with the documented behaviour of its operations. `entries` is what an iterator
-- from the smallest key visits, and an iterator is its distance from there. `UpdateThreadLocal` and
-- `AssignGCID` set the threads up for the collection of garbage.
pub record Library (keys : Keys) : Type 1 where
  pub Container : Type 0
  pub insert : Container → keys.Key → ℕ → Container
  pub get_value : Container → keys.Key → List ℕ → List ℕ
  pub begin_at : Container → keys.Key → ℕ
  pub update_thread_local : Container → ℕ → Container
  pub assign_gc_id : Container → ℕ → Container
  pub entries : Container → List (keys.Key × ℕ)
  pub ordered : (c : Container) → IsOrdered keys (entries c)
  pub get_value-offsets_for :
      (c : Container) (k : keys.Key) (values : List ℕ)
      → get_value c k values ≡ values ++ offsets_for keys k (entries c)
  pub begin_at-IsLowerBound :
      (c : Container) (k : keys.Key) → IsLowerBound keys (entries c) k (begin_at c k)

-- `class BwTreeIndex`
pub record BwTreeIndex (Container : Type 0) : Type 0 where
  pub container : Container
  pub thread_count : ℕ

module _ (keys : Keys) where
  open keys use {Key, less, equals}

  -- The loop of `find_range`, on fuel; `KeyCmpLessEqual(a, b)` is `not (b < a)`.
  unfoldable pub range_from : ℕ → Entries keys → ℕ → Key → List ℕ → Run (List ℕ)
  range_from zero entries it rhs_key offsets = fail no_fuel
  range_from (suc fuel) entries it rhs_key offsets = elim (it == length entries) [
    | true ↦ done offsets
    | false ↦ at entries it >>= λ x. elim (not (less rhs_key x.0)) [
      | true ↦ range_from fuel entries (it + 1) rhs_key (offsets ++ x.1 ∷ [])
      | false ↦ done offsets
    ]
  ]

module _ (keys : Keys) (library : Library keys) where
  open keys use {Key, less, equals}
  open library use {Container}

  -- `prepare_threads(thread_count)`
  unfoldable pub prepare_threads : BwTreeIndex Container → ℕ → BwTreeIndex Container
  prepare_threads index thread_count = record {
    container = library.update_thread_local index.container thread_count;
    thread_count = thread_count;
  }

  -- `register_thread(thread_id)`
  unfoldable pub register_thread : BwTreeIndex Container → ℕ → Run (BwTreeIndex Container)
  register_thread index thread_id =
      assert (ltb thread_id index.thread_count)
      >> done (record index { container = library.assign_gc_id index.container thread_id })

  -- `insert(key, offset)`
  unfoldable pub insert : BwTreeIndex Container → Key → ℕ → BwTreeIndex Container
  insert index key offset = record index { container = library.insert index.container key offset }

  -- `find(key, offsets)`
  unfoldable pub find : BwTreeIndex Container → Key → List ℕ → List ℕ
  find index key offsets = library.get_value index.container key offsets

  -- `find_range(lhs_key, rhs_key, offsets)`
  unfoldable pub find_range : BwTreeIndex Container → Key → Key → List ℕ → Run (List ℕ)
  find_range index lhs_key rhs_key offsets = elim (less rhs_key lhs_key) [
    | true ↦ done offsets
    | false ↦ elim (equals lhs_key rhs_key) [
      | true ↦ done (find index lhs_key offsets)
      | false ↦
          let entries = library.entries index.container in
          range_from keys (length entries + 1) entries (library.begin_at index.container lhs_key)
            rhs_key offsets
    ]
  ]

  -- `erase(key)`, with its body commented out, and `size()`.
  unfoldable pub erase : BwTreeIndex Container → Key → BwTreeIndex Container
  erase index key = index

  unfoldable pub size : BwTreeIndex Container → ℕ
  size index = 0
