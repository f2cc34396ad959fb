-- ===== src/Examples/Lookups.antt =====
-- Tests of the binary index over a table of two tuples, and of the scans (src/base_static_index.h,
-- src/static_index/binary_index.h).
use mathlib.Core.Path.{subst}
use index_zoo.Base.{
  arith, ◌-◌, ◌≤◌, ◌≡◌, ◌^◌, refl, List, [], ◌∷◌, ◌++◌, length, done, Returns, ◌>>=◌, Perm,
}
use index_zoo.Table.Offset.{construct_raw_data}
use index_zoo.Table.Block.{new_block, get_next_rel_offset, get_tuple}
use index_zoo.Table.Memory.{memcpy, write_bytes, load, read_bytes}
use index_zoo.Table.Generic.{
  GenericDataTable, insert_tuple, insert_loop, store, grow, size, get_tuple_key, get_tuple_value,
}
use index_zoo.Table.Numeric.{from_bytes}
use index_zoo.Table.Generic.Valid.{IsValid}
use index_zoo.Table.Generic.Laws.{Inserted, insert_tuple-Inserted}
use index_zoo.Table.Iterator.{IteratorEntry, entry_at}
use index_zoo.Table.Iterator.Order.{entries_from}
use index_zoo.Table.Iterator.Total.{entries_from-length}
use index_zoo.Static.Entry.{matching}
use index_zoo.Static.Sorting.{by_insertion}
use index_zoo.Static.Reorganize.Sorted.{pairs_of}
use index_zoo.Static.Binary.{new_index, reorganize, find}
use index_zoo.Static.Binary.Reorganize.{Reorganized, reorganize-Reorganized}
use index_zoo.Static.Binary.Lookup.{reorganize_find}
use index_zoo.Static.KAry.Laws.{kary_find_no_layers}
use index_zoo.Static.KAry as KAry
use index_zoo.Examples.Tables.{
  one_tuple, one_tuple-IsValid, one_few, second_fits_key, second_fits_value,
}

abbrev pub two_tuples : GenericDataTable
two_tuples = record {
  max_key_size = 1;
  max_value_size = 1;
  max_block_capacity = 2;
  data_blocks =
      record {
        block_id = 0;
        tuple_size = 2;
        max_rel_offset = 2;
        next_rel_offset = 2;
        tuples = 5 ∷ 6 ∷ 7 ∷ 0 ∷ [];
      }
      ∷ record {
        block_id = 1;
        tuple_size = 2;
        max_rel_offset = 2;
        next_rel_offset = 0;
        tuples = 0 ∷ 0 ∷ 0 ∷ 0 ∷ [];
      }
      ∷ [];
  active_data_block = 1;
}

second_insert : insert_tuple 1 one_tuple (7 ∷ []) [] ≡ done (two_tuples, 1)
unfolding insert_tuple insert_loop store grow new_block get_next_rel_offset get_tuple memcpy
    write_bytes construct_raw_data
second_insert = refl

second_Inserted : Inserted one_tuple (7 ∷ []) [] two_tuples 1
second_Inserted =
    subst (λ m. Returns m (λ r. Inserted one_tuple (7 ∷ []) [] r.0 r.1)) second_insert
      (insert_tuple-Inserted one_tuple one_tuple-IsValid (7 ∷ []) [] second_fits_key
        second_fits_value one_few 0)

pub two_tuples-IsValid : IsValid two_tuples
two_tuples-IsValid = second_Inserted.valid

pub two_tuples-size : size two_tuples ≡ done 2
unfolding size
two_tuples-size = refl

abbrev pub two_entries : List IteratorEntry
two_entries =
    record { offset = 0; key = 5 ∷ []; value = 6 ∷ [] }
    ∷ record { offset = 1; key = 7 ∷ []; value = 0 ∷ [] }
    ∷ []

pub two_entries_read : entries_from two_tuples 0 2 ≡ done two_entries
unfolding entries_from entry_at get_tuple_key get_tuple_value get_tuple load read_bytes
    construct_raw_data
two_entries_read = refl

entries_from-length_example : Returns (entries_from two_tuples 0 2) (λ entries. length entries ≡ 2)
entries_from-length_example = entries_from-length two_tuples two_tuples-IsValid 2 two_tuples-size

one_layer : 2 ^ 1 ≤ 2
one_layer = omega arith

small : 2 ≤ 2 ^ 30 - 1
small = omega arith

reorganize-Reorganized_example :
    Returns (reorganize by_insertion (new_index 1) two_tuples) (Reorganized two_tuples 2 1)
reorganize-Reorganized_example =
    reorganize-Reorganized by_insertion 1 2 two_tuples two_tuples-IsValid two_tuples-size one_layer
      small

found_at : from_bytes (7 ∷ []) ≡ 7
unfolding from_bytes
found_at = omega arith

reorganize_find_example :
    Returns
      (reorganize by_insertion (new_index 1) two_tuples >>= λ index. find index 7 [])
      (λ r. Perm r ([] ++ matching 7 (pairs_of two_entries)))
reorganize_find_example =
    reorganize_find by_insertion 1 2 two_tuples two_tuples-IsValid two_tuples-size one_layer small
      two_entries two_entries_read 7 [] 1 (record { key = from_bytes (7 ∷ []); offset = 1 }) refl
      found_at

kary_find_no_layers_example :
    Returns
      (KAry.new_index 0 3 >>= λ index.
        KAry.reorganize by_insertion index two_tuples >>= λ built. KAry.find built 5 [])
      (λ r. Perm r ([] ++ matching 5 (pairs_of two_entries)))
kary_find_no_layers_example =
    kary_find_no_layers by_insertion 3 2 two_tuples two_tuples-IsValid two_tuples-size (omega arith)
      (omega arith) small two_entries two_entries_read 5 []
