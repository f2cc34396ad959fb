-- ===== src/Dynamic/BwTree/Laws.antt =====
-- What `find_range` of src/dynamic_index/multithread/bw_tree_index.h and bw_tree_generic_index.h returns.
use index_zoo.Base.{arith, ℕ, ◌≡◌, List, Bool, if◌then◌else◌, done, fail, trap, ltb}
use index_zoo.Dynamic.Keys.{Keys}
use index_zoo.Dynamic.Spec.{Entries, within}
use index_zoo.Dynamic.StxBtree.{IsOrdered, IsLowerBound}
use index_zoo.Dynamic.BwTree.{Library, BwTreeIndex, prepare_threads, register_thread}

module _ (keys : Keys) where
  open keys use {Key, less, equals}

  module _ (entries : Entries keys) (ordered : IsOrdered keys entries) (lhs_key rhs_key : Key)
      (l : ℕ) (lower : IsLowerBound keys entries lhs_key l) where
    abbrev inner : Key × ℕ → Bool
    inner = within keys lhs_key rhs_key

module _ (keys : Keys) (library : Library keys) where
  open keys use {Key, less, equals}
  open library use {Container, entries}

  -- A thread whose number is not below the count that `prepare_threads` was given last stops at the
  -- assertion; any other is registered.
  pub register_thread_lem :
      (index : BwTreeIndex Container) (count thread_id : ℕ)
      → register_thread keys library (prepare_threads keys library index count) thread_id ≡ (
          if ltb thread_id count
          then done (record {
            container =
                library.assign_gc_id (library.update_thread_local index.container count) thread_id;
            thread_count = count;
          })
          else fail trap)
  unfolding register_thread prepare_threads
  register_thread_lem index count thread_id = ground arith
