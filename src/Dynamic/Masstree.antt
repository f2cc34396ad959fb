-- ===== src/Dynamic/Masstree.antt =====
-- `MasstreeIndex` and `MasstreeGenericIndex` (src/dynamic_index/multithread/masstree_index.h and
-- masstree_generic_index.h), by one thread. They differ in the bytes that they hand to the tree.
pub mod Laws
use index_zoo.Base.{
  ℕ, zero, suc, ◌+◌, ◌≡◌, List, [], ◌∷◌, ◌++◌, Option, none, some, if◌then◌else◌, ◌==◌,
}
use index_zoo.Table.Numeric.{to_bytes, from_bytes}
use index_zoo.Dynamic.Keys.Bytes.{same_bytes}

-- A row of one column: the bytes of `create1`, and its timestamp.
pub record Row : Type 0 where
  pub column : List ℕ
  pub timestamp : ℕ

-- `loginfo::query_times`
pub record QueryTimes : Type 0 where
  pub ts : ℕ
  pub prev_ts : ℕ

-- `Masstree::default_table` and `threadinfo`. `lookup` is what a cursor finds, `assign` a cursor whose value
-- was set and that was finished, `node_timestamp` the timestamp of the node that an insertion changes.
-- The functions on the timestamp of the thread return it changed.
pub record Library : Type 1 where
  pub Table : Type 0
  pub initial : Table
  pub lookup : Table → List ℕ → Option Row
  pub assign : Table → List ℕ → Row → Table
  pub node_timestamp : Table → List ℕ → ℕ
  pub advance_timestamp : ℕ → ℕ → ℕ
  pub update_timestamp : ℕ → ℕ
  pub update_timestamp_from : ℕ → ℕ → ℕ
  pub lookup-initial : (k : List ℕ) → lookup initial k ≡ none
  pub lookup-assign :
      (t : Table) (k j : List ℕ) (row : Row)
      → lookup (assign t k row) j ≡ (if same_bytes k j then some row else lookup t j)

-- `class MasstreeIndex`, with the thread's timestamp `*ti_`.
pub record MasstreeIndex (Table : Type 0) : Type 0 where
  pub container : Table
  pub thread_ts : ℕ
  pub qtimes : QueryTimes

-- `qtimes_.prev_ts`
abbrev pub previous : Option Row → ℕ
previous none = 0
previous (some row) = row.timestamp

-- `offsets.push_back(*(Uint64*)(value.s))`, if there is a value.
abbrev pub pushed : List ℕ → Option Row → List ℕ
pushed offsets none = offsets
pushed offsets (some row) = offsets ++ from_bytes row.column ∷ []

module _ (library : Library) (Key : Type 0) (raw : Key → List ℕ) where
  open library use {Table}

  -- The thread's timestamp after the branch on `found`, which `qtimes_.ts` is set to.
  unfoldable pub next_timestamp : MasstreeIndex Table → List ℕ → Option Row → ℕ
  next_timestamp index key none =
      library.update_timestamp
        (library.advance_timestamp index.thread_ts (library.node_timestamp index.container key))
  next_timestamp index key (some row) = library.update_timestamp_from index.thread_ts row.timestamp

  -- `insert(key, offset)`
  unfoldable pub insert : MasstreeIndex Table → Key → ℕ → MasstreeIndex Table
  insert index key offset =
      let found = library.lookup index.container (raw key) in
      let ts = next_timestamp index (raw key) found in
      record {
        container =
            library.assign index.container (raw key)
              (record { column = to_bytes 8 offset; timestamp = ts });
        thread_ts = ts;
        qtimes = record { ts = ts; prev_ts = previous found };
      }

  -- `find(key, offsets)`
  unfoldable pub find : MasstreeIndex Table → Key → List ℕ → List ℕ
  find index key offsets = pushed offsets (library.lookup index.container (raw key))

  -- `find_range`, `erase` and `size`, which do nothing.
  unfoldable pub find_range : MasstreeIndex Table → Key → Key → List ℕ → List ℕ
  find_range index lhs_key rhs_key offsets = offsets

  unfoldable pub erase : MasstreeIndex Table → Key → MasstreeIndex Table
  erase index key = index

  unfoldable pub size : MasstreeIndex Table → ℕ
  size index = 0

-- `ti_` of each thread, by the number that `threadinfo::make` was given, and the counter `idx` of
-- `register_thread`, for the calls on one index, whose mutex makes a call one step. The source has one
-- counter for all indexes of a class, which their mutexes do not guard together. The
-- counter is an `int`; fewer than 2^31 threads are assumed.
pub record Threads : Type 0 where
  pub infos : ℕ → Option ℕ
  pub idx : ℕ

abbrev pub no_threads : Threads
no_threads = record { infos = λ thread. none; idx = 0 }

-- `register_thread(thread_id)`, called by the thread `thread`.
unfoldable pub register_thread : Threads → ℕ → Threads
register_thread threads thread = elim (threads.infos thread) [
  | none ↦ record {
    infos = λ other. if other == thread then some threads.idx else threads.infos other;
    idx = threads.idx + 1;
  }
  | some info ↦ threads
]
