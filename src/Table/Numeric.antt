-- ===== src/Table/Numeric.antt =====
-- The table of numbers (src/data_table.h): keys and values of fixed sizes, copied as they lie in
-- memory. The class repeats the code of the table of byte strings with `sizeof(KeyT)` and
-- `sizeof(ValueT)` for the maximal sizes, and so does the model.
use index_zoo.Base.{
  ℕ, zero, suc, ◌+◌, ◌-◌, ◌*◌, ◌%◌, ◌/◌, ◌^◌, ◌<◌, ◌≡◌, refl, ap, List, [], ◌∷◌, arith, length, Run,
  done, ◌>>=◌, Returns, Returns-map, le→leb, ◌-◌,
}
use native.Mathlib.Nat.{pow-suc}
use index_zoo.Table.Generic.{
  GenericDataTable, new_table, insert_loop, insert_tuple, get_tuple_key, get_tuple_value,
  get_tuple_key_at, get_tuple_value_at,
}
use mathlib.Core.List.{append-nil}
use index_zoo.Table.Generic.Reads.{padded}
use index_zoo.Table.Generic.Valid.{IsValid}
use index_zoo.Table.Generic.Laws.{Inserted, insert_tuple-Inserted}
use index_zoo.Table.Offset.{word, block_id, rel_offset}

-- `memcpy(data, &key, size)`: the `size` bytes of a number, the lowest first.
unfoldable pub to_bytes : ℕ → ℕ → List ℕ
to_bytes zero x = []
to_bytes (suc size) x = x % 256 ∷ to_bytes size (x / 256)

-- `*(KeyT*)(data)`
unfoldable pub from_bytes : List ℕ → ℕ
from_bytes [] = 0
from_bytes (b ∷ bs) = b + 256 * from_bytes bs

pub length-to_bytes : (size x : ℕ) → length (to_bytes size x) ≡ size
unfolding to_bytes
length-to_bytes zero x = refl
length-to_bytes (suc size) x = ap suc (length-to_bytes size (x / 256))

-- A number that fits in `size` bytes is read back from its bytes.
pub from_bytes-to_bytes : (size x : ℕ) → x < 256 ^ size → from_bytes (to_bytes size x) ≡ x
unfolding from_bytes to_bytes
from_bytes-to_bytes zero x h = omega arith
from_bytes-to_bytes (suc size) x h = rw (from_bytes-to_bytes size (x / 256) below) (omega arith)
  where
    below : x / 256 < 256 ^ size
    below = omega (arith, pow-suc 256 size)

-- `DataTable<KeyT, ValueT>` with keys of `key_size` and values of `value_size` bytes.
abbrev pub new_data_table : ℕ → ℕ → ℕ → GenericDataTable
new_data_table key_size value_size capacity = new_table key_size value_size capacity

-- `insert_tuple(key, value)`
unfoldable pub insert_number : ℕ → GenericDataTable → ℕ → ℕ → Run (GenericDataTable × ℕ)
insert_number fuel t key value =
    insert_loop fuel t (to_bytes t.max_key_size key) (to_bytes t.max_value_size value)

-- `*get_tuple_key(block_id, rel_offset)`
unfoldable pub number_key : GenericDataTable → ℕ → ℕ → Run ℕ
number_key t bid rel = do bytes ← get_tuple_key t bid rel; done (from_bytes bytes)

-- `*get_tuple_value(block_id, rel_offset)`
unfoldable pub number_value : GenericDataTable → ℕ → ℕ → Run ℕ
number_value t bid rel = do bytes ← get_tuple_value t bid rel; done (from_bytes bytes)

padded_exact : (n : ℕ) (bs : List ℕ) → length bs ≡ n → padded n bs ≡ bs
padded_exact n bs h = rw (none_left, append-nil)
  where
    none_left : n - length bs ≡ 0
    none_left = omega arith

insert_number-insert_tuple :
    (fuel : ℕ) (t : GenericDataTable) (key value : ℕ)
    → insert_number fuel t key value
      ≡ insert_tuple fuel t (to_bytes t.max_key_size key) (to_bytes t.max_value_size value)
unfolding insert_number insert_tuple
insert_number-insert_tuple fuel t key value =
    rw
      (
        length-to_bytes t.max_key_size key,
        length-to_bytes t.max_value_size value,
        le→leb t.max_key_size t.max_key_size (omega arith),
        le→leb t.max_value_size t.max_value_size (omega arith),
      )
      refl

module _ (t : GenericDataTable) (v : IsValid t) (key value : ℕ)
    (fits_key : key < 256 ^ t.max_key_size) (fits_value : value < 256 ^ t.max_value_size)
    (few : length t.data_blocks < 2 ^ 40) where
  -- On a valid table with fewer than 2^40 blocks, inserting a key and a value that fit in their
  -- sizes returns at the first round of the loop a 64-bit offset; the table stays valid, and the key and the
  -- value are read back, as numbers, at the block and the position in the offset returned.
  pub insert_number_reads :
      (fuel : ℕ)
      → Returns (insert_number (suc fuel) t key value) (λ r.
        IsValid r.0
        × (r.1 < word)
        × (number_key r.0 (block_id r.1) (rel_offset r.1) ≡ done key)
        × (number_value r.0 (block_id r.1) (rel_offset r.1) ≡ done value))
  unfolding number_key number_value get_tuple_key_at get_tuple_value_at
  insert_number_reads fuel = rw (insert_number-insert_tuple (suc fuel) t key value) (
      Returns-map
        (insert_tuple (suc fuel) t (to_bytes t.max_key_size key) (to_bytes t.max_value_size value))
        as_numbers
        (insert_tuple-Inserted t v (to_bytes t.max_key_size key) (to_bytes t.max_value_size value)
          (omega (arith, length-to_bytes t.max_key_size key))
          (omega (arith, length-to_bytes t.max_value_size value)) few fuel))
    where
      as_numbers :
          (r : GenericDataTable × ℕ)
          → Inserted t (to_bytes t.max_key_size key) (to_bytes t.max_value_size value) r.0 r.1
          → IsValid r.0
            × (r.1 < word)
            × (number_key r.0 (block_id r.1) (rel_offset r.1) ≡ done key)
            × (number_value r.0 (block_id r.1) (rel_offset r.1) ≡ done value)
      as_numbers r i = (
        i.valid,
        i.is_word,
        rw
            (
              i.key_back,
              padded_exact _ _ (length-to_bytes t.max_key_size key),
              from_bytes-to_bytes t.max_key_size key fits_key,
            )
            refl,
        rw
            (
              i.value_back,
              padded_exact _ _ (length-to_bytes t.max_value_size value),
              from_bytes-to_bytes t.max_value_size value fits_value,
            )
            refl,
      )
