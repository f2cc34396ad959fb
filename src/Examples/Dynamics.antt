-- ===== src/Examples/Dynamics.antt =====
-- Tests of the dynamic indexes (src/dynamic_index) over small stand-ins for the libraries.
use index_zoo.Base.{
  arith, ℕ, ◌+◌, ◌≡◌, refl, List, [], ◌∷◌, ◌++◌, Option, none, some, select, if◌then◌else◌, false,
  ltb, done, Returns, Perm, length, Bool-cases, inl, inr,
}
use mathlib.Core.List.Perm
use index_zoo.GenericKey.Order.{precedes}
use index_zoo.Table.Memory.{load}
use index_zoo.Table.Numeric.{to_bytes}
use index_zoo.Dynamic.ByteSwap.{byte_swap, byte_swap-precedes}
use index_zoo.Dynamic.Keys.{numbers}
use index_zoo.Dynamic.Keys.Bytes.{byte_strings, same_bytes}
use index_zoo.Dynamic.Spec.{
  Call, insertion, erasure, offsets_for, values, within, call_all, after_all,
}
use index_zoo.Dynamic.StxBtree as StxBtree
use index_zoo.Dynamic.StxBtree.{Multimap}
use index_zoo.Dynamic.StxBtree.Laws.{find_range_lem}
use index_zoo.Dynamic.StxBtree.Scans.{scan-find}
use index_zoo.Dynamic.StxBtree.Contract.{stx_btree, stx_btree_find}
use index_zoo.Dynamic.StxBtree.Sorted.{sorted_list}
use index_zoo.Dynamic.Libcuckoo as Libcuckoo
use index_zoo.Dynamic.Libcuckoo.{by_function}
use index_zoo.Dynamic.Libcuckoo.Laws.{libcuckoo, libcuckoo_find}
use index_zoo.Dynamic.ArtTree as ArtTree
use index_zoo.Dynamic.ArtTree.{Art}
use index_zoo.Dynamic.ArtTree.Laws.{insert_all}
use index_zoo.Dynamic.ArtTreeMulti as ArtTreeMulti
use index_zoo.Dynamic.ArtTreeMulti.{Tree}
use index_zoo.Dynamic.ArtTreeMulti.Laws as Multi
use index_zoo.Dynamic.BwTree as BwTree
use index_zoo.Dynamic.BwTree.{BwTreeIndex}
use index_zoo.Dynamic.Masstree as Masstree
use index_zoo.Dynamic.Masstree.{Row, MasstreeIndex, no_threads, register_thread}
use index_zoo.Dynamic.Masstree.Laws as Mass
use index_zoo.Dynamic.Masstree.Laws.{masstree_find-last, IsRegistry, register_thread-IsRegistry}

abbrev b_tree : Multimap numbers
b_tree = sorted_list numbers

abbrev some_calls : List (Call ℕ)
some_calls = insertion 5 50 ∷ insertion 7 70 ∷ insertion 5 51 ∷ erasure 7 ∷ []

stx_btree_find_example :
    Returns
      (StxBtree.find numbers b_tree
        (call_all numbers (stx_btree numbers b_tree) some_calls b_tree.empty)
        5
        [])
      (λ r. Perm r (offsets_for numbers 5 (after_all numbers some_calls [])))
stx_btree_find_example = stx_btree_find numbers b_tree some_calls 5

held : offsets_for numbers 5 (after_all numbers some_calls []) ≡ 50 ∷ 51 ∷ []
held = refl

abbrev two_keys : b_tree.Container
two_keys = b_tree.insert (b_tree.insert b_tree.empty (7, 70)) (5, 50)

find_range_lem_example :
    StxBtree.find_range numbers b_tree two_keys 4 6 []
    ≡ done ([] ++ values numbers (select (within numbers 4 6) (b_tree.entries two_keys)))
find_range_lem_example = find_range_lem numbers b_tree two_keys 4 6 []

scan-find_example :
    StxBtree.find numbers b_tree two_keys 7 [] ≡ done (StxBtree.scan numbers b_tree two_keys 7 [])
scan-find_example = scan-find numbers b_tree two_keys 7 []

libcuckoo_find_example :
    Returns
      (Libcuckoo.find numbers
        (by_function numbers)
        (call_all numbers
          (libcuckoo numbers (by_function numbers))
          some_calls
          (by_function numbers).empty)
        5
        [])
      (λ r. Perm r (offsets_for numbers 5 (after_all numbers some_calls [])))
libcuckoo_find_example = libcuckoo_find numbers (by_function numbers) some_calls 5

byte_swap-precedes_example :
    precedes (to_bytes 2 (byte_swap 2 255)) (to_bytes 2 (byte_swap 2 256)) ≡ ltb 255 256
byte_swap-precedes_example = byte_swap-precedes 2 255 256 (omega arith) (omega arith)

listed-search :
    (t : List (List ℕ × ℕ)) (key : List ℕ) (value : ℕ) (other rets : List ℕ)
    → length key ≡ length other
    → Perm (offsets_for byte_strings other ((key, value) ∷ t) ++ rets) (
        if same_bytes key other
        then value ∷ offsets_for byte_strings other t ++ rets
        else offsets_for byte_strings other t ++ rets)
listed-search t key value other rets same_length = elim (Bool-cases (same_bytes key other)) [
  | inl hit ↦ rw hit (Perm.refl (value ∷ offsets_for byte_strings other t ++ rets))
  | inr miss ↦ rw miss (Perm.refl (offsets_for byte_strings other t ++ rets))
]

abbrev listed : Art
listed = record {
  Tree = List (List ℕ × ℕ);
  art_tree_init = [];
  art_insert = λ t key value. (key, value) ∷ t;
  art_search = λ t key rets. offsets_for byte_strings key t ++ rets;
  art_range_scan = λ t lhs_key rhs_key rets. rets;
  art_scan_limit = λ t rets count. rets;
  art_size = λ t. 0;
  search-init = λ key rets. refl;
  search-insert = listed-search;
}

abbrev three_pairs : List (ℕ × ℕ)
three_pairs = (255, 10) ∷ (256, 20) ∷ (256, 30) ∷ []

abbrev listed_tree : (size : ℕ) → Tree size
listed_tree size = record {
  Container = List (List ℕ × ℕ);
  empty = [];
  insert = λ load c key tid. (key, tid) ∷ c;
  lookup = λ load c key results. results ++ offsets_for byte_strings key c;
  lookup_range = λ load c curr_key end_key batch. (false, curr_key, []);
  entries = λ c. c;
  empty-entries = refl;
  insert-perm = λ load c key tid long loaded reads. Perm.refl ((key, tid) ∷ c);
  lookup_into_empty = λ load c key long loaded. Perm.refl (offsets_for byte_strings key c);
}

abbrev bw_library : BwTree.Library numbers
bw_library = record {
  Container = b_tree.Container;
  insert = λ c key offset. b_tree.insert c (key, offset);
  get_value = λ c key out. out ++ offsets_for numbers key (b_tree.entries c);
  begin_at = b_tree.lower_bound;
  update_thread_local = λ c count. c;
  assign_gc_id = λ c thread_id. c;
  entries = b_tree.entries;
  ordered = b_tree.ordered;
  get_value-offsets_for = λ c key out. refl;
  begin_at-IsLowerBound = b_tree.lower_bound-IsLowerBound;
}

abbrev bw_index : BwTreeIndex b_tree.Container
bw_index = record { container = two_keys; thread_count = 1 }

abbrev row_of : List (List ℕ × Row) → List ℕ → Option Row
row_of [] k = none
row_of ((j, row) ∷ t) k = if same_bytes j k then some row else row_of t k

abbrev masstree_library : Masstree.Library
masstree_library = record {
  Table = List (List ℕ × Row);
  initial = [];
  lookup = row_of;
  assign = λ t k row. (k, row) ∷ t;
  node_timestamp = λ t k. 0;
  advance_timestamp = λ ts node_ts. ts;
  update_timestamp = λ ts. ts + 1;
  update_timestamp_from = λ ts row_ts. ts + 1;
  lookup-initial = λ k. refl;
  lookup-assign = λ t k j row. refl;
}

abbrev empty_masstree : MasstreeIndex (List (List ℕ × Row))
empty_masstree = record { container = []; thread_ts = 0; qtimes = record { ts = 0; prev_ts = 0 } }

abbrev updates : List (ℕ × ℕ)
updates = (5, 50) ∷ (7, 70) ∷ (5, 51) ∷ []

masstree_find-last_example :
    Masstree.find masstree_library ℕ
      (to_bytes 8)
      (Mass.insert_all masstree_library ℕ (to_bytes 8) updates empty_masstree)
      5
      []
    ≡ [] ++ Mass.last_for masstree_library ℕ (to_bytes 8) 5 updates []
masstree_find-last_example =
    masstree_find-last masstree_library ℕ (to_bytes 8) updates empty_masstree 5 [] refl
      (omega arith)

no_threads-IsRegistry : IsRegistry no_threads
no_threads-IsRegistry = record { below = λ thread i e. cc; distinct = λ thread other i e f. cc }

register_thread-IsRegistry_example :
    IsRegistry (register_thread no_threads 4)
    × (i : ℕ) × ((register_thread no_threads 4).infos 4 ≡ some i)
register_thread-IsRegistry_example = register_thread-IsRegistry no_threads 4 no_threads-IsRegistry
