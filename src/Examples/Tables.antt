-- ===== src/Examples/Tables.antt =====
-- Tests of the tables on blocks of two slots of two bytes (src/generic_data_table.h,
-- src/data_table.h).
use mathlib.Core.Path.{subst}
use index_zoo.Base.{
  arith, ℕ, ◌+◌, ◌<◌, ◌≤◌, ◌≡◌, ◌^◌, ◌/◌, ◌%◌, ◌≢◌, refl, [], ◌∷◌, length, done, Returns, ◌>>=◌,
}
use index_zoo.Table.Offset.{word, construct_raw_data, block_id, rel_offset, offset_aliases}
use index_zoo.Table.Block.{new_block, get_next_rel_offset, get_tuple}
use index_zoo.Table.Memory.{memcpy, write_bytes}
use index_zoo.Table.Generic.{
  GenericDataTable, new_table, insert_tuple, insert_loop, store, grow, size,
}
use index_zoo.Table.Generic.Valid.{IsValid, HasSizes, new_table-IsValid}
use index_zoo.Table.Generic.Laws.{Inserted, Kept, insert_tuple-Inserted, insert_tuple_keeps}
use index_zoo.Table.Iterator.{new_iterator, iterate}
use index_zoo.Table.Iterator.Order.{entries_from}
use index_zoo.Table.Iterator.Start.{iterate_table}
use index_zoo.Table.Numeric.{insert_number, number_key, number_value, insert_number_reads}
use index_zoo.Dynamic.ArtTreeMulti.{tid_of, load_key, load_key_internal}
use index_zoo.Dynamic.ArtTreeMulti.Loads.{inserted_loads}

abbrev no_tuples : GenericDataTable
no_tuples = new_table 1 1 2

small_sizes : HasSizes 1 1 2
small_sizes = record { some_slot = omega arith; positions = omega arith; bytes = omega arith }

no_tuples-IsValid : IsValid no_tuples
unfolding new_table
no_tuples-IsValid = new_table-IsValid 1 1 2 small_sizes

abbrev pub one_tuple : GenericDataTable
one_tuple = record {
  max_key_size = 1;
  max_value_size = 1;
  max_block_capacity = 2;
  data_blocks =
      record {
        block_id = 0;
        tuple_size = 2;
        max_rel_offset = 2;
        next_rel_offset = 1;
        tuples = 5 ∷ 6 ∷ 0 ∷ 0 ∷ [];
      }
      ∷ [];
  active_data_block = 0;
}

first_insert : insert_tuple 1 no_tuples (5 ∷ []) (6 ∷ []) ≡ done (one_tuple, 0)
unfolding insert_tuple insert_loop store grow new_table new_block get_next_rel_offset get_tuple
    memcpy write_bytes construct_raw_data
first_insert = refl

key_fits : length {A = ℕ} (5 ∷ []) ≤ 1
key_fits = omega arith

value_fits : length {A = ℕ} (6 ∷ []) ≤ 1
value_fits = omega arith

few : length no_tuples.data_blocks < 2 ^ 40
unfolding new_table
few = omega arith

-- A table with keys of up to two bytes.
abbrev wide_table : GenericDataTable
wide_table = new_table 2 1 2

wide_table-IsValid : IsValid wide_table
unfolding new_table
wide_table-IsValid =
    new_table-IsValid 2 1 2
      (record { some_slot = omega arith; positions = omega arith; bytes = omega arith })

insert_tuple-Inserted_example :
    Returns
      (insert_tuple 1 wide_table (5 ∷ []) (6 ∷ []))
      (λ r. Inserted wide_table (5 ∷ []) (6 ∷ []) r.0 r.1)
unfolding new_table
insert_tuple-Inserted_example =
    insert_tuple-Inserted wide_table wide_table-IsValid (5 ∷ []) (6 ∷ []) (omega arith)
      (omega arith) (omega arith) 0

first_Inserted : Inserted no_tuples (5 ∷ []) (6 ∷ []) one_tuple 0
unfolding new_table
first_Inserted =
    subst (λ m. Returns m (λ r. Inserted no_tuples (5 ∷ []) (6 ∷ []) r.0 r.1)) first_insert
      (insert_tuple-Inserted no_tuples no_tuples-IsValid (5 ∷ []) (6 ∷ []) key_fits value_fits few
        0)

pub one_tuple-IsValid : IsValid one_tuple
one_tuple-IsValid = first_Inserted.valid

one_tuple-size : size one_tuple ≡ done 1
unfolding size
one_tuple-size = refl

pub second_fits_key : length {A = ℕ} (7 ∷ []) ≤ 1
second_fits_key = omega arith

pub second_fits_value : length {A = ℕ} [] ≤ 1
second_fits_value = omega arith

pub one_few : length one_tuple.data_blocks < 2 ^ 40
one_few = omega arith

insert_tuple_keeps_example :
    Returns (insert_tuple 1 one_tuple [] (7 ∷ [])) (λ res. Kept one_tuple res.0 0 0)
insert_tuple_keeps_example =
    insert_tuple_keeps one_tuple one_tuple-IsValid [] (7 ∷ []) second_fits_value second_fits_key
      one_few 0 0 0 (_, refl, held)
  where
    held : 0 < 1
    held = omega arith

iterate_table_example :
    (new_iterator one_tuple >>= iterate 2 one_tuple) ≡ entries_from one_tuple 0 1
iterate_table_example =
    iterate_table one_tuple one_tuple-IsValid 1 2 one_tuple-size (omega arith) (omega arith)

insert_number_reads_example : Returns (insert_number 1 one_tuple 9 255) (λ r.
    IsValid r.0
    × (r.1 < word)
    × (number_key r.0 (block_id r.1) (rel_offset r.1) ≡ done 9)
    × (number_value r.0 (block_id r.1) (rel_offset r.1) ≡ done 255))
insert_number_reads_example =
    insert_number_reads one_tuple one_tuple-IsValid 9 255 (omega arith) (omega arith) one_few 0

offset_aliases_example :
    (construct_raw_data 0 16_777_221
      ≡ construct_raw_data (0 + 16_777_221 / 2 ^ 24) (16_777_221 % 2 ^ 24))
    × (block_id (construct_raw_data 0 16_777_221) ≢ 0)
    × (rel_offset (construct_raw_data 0 16_777_221) ≢ 16_777_221)
offset_aliases_example = offset_aliases 0 16_777_221 (omega arith) (omega arith)

inserted_loads_example :
    Returns
      (insert_number 1 one_tuple 9 255)
      (λ r. load_key_internal 1 r.0 (tid_of r.1) ≡ done (load_key 1 9))
inserted_loads_example =
    inserted_loads one_tuple one_tuple-IsValid 9 255 (omega arith) (omega arith) one_few 0
