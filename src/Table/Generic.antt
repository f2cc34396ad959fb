-- ===== src/Table/Generic.antt =====
-- The table of byte strings (src/generic_data_table.h).
pub mod Valid
pub mod Insert
pub mod Preserve
pub mod Reads
pub mod Size
pub mod Laws
use index_zoo.Base.{
  ℕ, zero, suc, ◌+◌, ◌-◌, ◌*◌, ◌%◌, List, [], ◌∷◌, ◌++◌, ltb, leb, ◌==◌, if◌then◌else◌, Run, done,
  fail, no_fuel, assert, at, ◌>>=◌, ◌>>◌, length, set,
}
use index_zoo.Table.Offset.{word, invalid_offset, construct_raw_data, block_id, rel_offset}
use index_zoo.Table.Memory.{memcpy, load}
use index_zoo.Table.Block.{DataBlock, new_block, get_next_rel_offset, get_tuple, block_size}

-- `class GenericDataTable`. The pointer `active_data_block_` is the index of its block in
-- `data_blocks_`.
pub record GenericDataTable : Type 0 where
  pub max_key_size : ℕ
  pub max_value_size : ℕ
  pub max_block_capacity : ℕ
  pub data_blocks : List DataBlock
  pub active_data_block : ℕ

abbrev pub tuple_size : GenericDataTable → ℕ
tuple_size t = (t.max_key_size + t.max_value_size) % word

-- The constructor.
unfoldable pub new_table : ℕ → ℕ → ℕ → GenericDataTable
new_table key_size value_size capacity = record {
  max_key_size = key_size;
  max_value_size = value_size;
  max_block_capacity = capacity;
  data_blocks = new_block 0 ((key_size + value_size) % word) capacity ∷ [];
  active_data_block = 0;
}

-- After the last slot of block `b` has been given out a new block becomes the active one.
unfoldable pub grow : GenericDataTable → DataBlock → ℕ → GenericDataTable
grow t b rel =
    if rel == (b.max_rel_offset + word - 1) % word
    then record t {
      data_blocks =
          t.data_blocks
          ++ new_block ((b.block_id + 1) % word) (tuple_size t) t.max_block_capacity ∷ [];
      active_data_block = length t.data_blocks;
    }
    else t

-- The body of the `if`: the two copies into slot `rel` of the active block `b`, then `grow`.
unfoldable pub store :
    GenericDataTable → DataBlock → ℕ → List ℕ → List ℕ → Run (GenericDataTable × ℕ)
store t b rel key value = do
  slot ← get_tuple b rel
  with_key ← memcpy b.tuples slot key
  with_value ← memcpy with_key (slot + t.max_key_size) value
  let b' = record b { tuples = with_value }
  let t' = record t { data_blocks = set t.data_blocks t.active_data_block b' }
  done (grow t' b' rel, construct_raw_data b.block_id rel)

-- `while (true)`: another round whenever the active block has no slot left.
unfoldable pub insert_loop : ℕ → GenericDataTable → List ℕ → List ℕ → Run (GenericDataTable × ℕ)
insert_loop zero t key value = fail no_fuel
insert_loop (suc fuel) t key value = do
  b ← at t.data_blocks t.active_data_block
  let b' = (get_next_rel_offset b).0
  let rel = (get_next_rel_offset b).1
  let t' = record t { data_blocks = set t.data_blocks t.active_data_block b' }
  let again = insert_loop fuel t' key value
  if rel == invalid_offset then again else store t' b' rel key value

-- `insert_tuple(key, key_size, value, value_size)`: the table afterwards and the offset. The ASSERT lets a key of
-- `max_key_size_` bytes pass, for which a comment above it has no room.
unfoldable pub insert_tuple : ℕ → GenericDataTable → List ℕ → List ℕ → Run (GenericDataTable × ℕ)
insert_tuple fuel t key value = do
  assert (leb (length key) t.max_key_size)
  assert (leb (length value) t.max_value_size)
  insert_loop fuel t key value

-- `get_tuple_key(block_id, rel_offset)`: the bytes behind the pointer, `max_key_size_` of them.
unfoldable pub get_tuple_key : GenericDataTable → ℕ → ℕ → Run (List ℕ)
get_tuple_key t bid rel = do
  b ← at t.data_blocks bid
  slot ← get_tuple b rel
  load b.tuples slot t.max_key_size

-- `get_tuple_value(block_id, rel_offset)`
unfoldable pub get_tuple_value : GenericDataTable → ℕ → ℕ → Run (List ℕ)
get_tuple_value t bid rel = do
  b ← at t.data_blocks bid
  slot ← get_tuple b rel
  load b.tuples (slot + t.max_key_size) t.max_value_size

-- The two overloads on an `OffsetT`.
unfoldable pub get_tuple_key_at : GenericDataTable → ℕ → Run (List ℕ)
get_tuple_key_at t offset = get_tuple_key t (block_id offset) (rel_offset offset)

unfoldable pub get_tuple_value_at : GenericDataTable → ℕ → Run (List ℕ)
get_tuple_value_at t offset = get_tuple_value t (block_id offset) (rel_offset offset)

unfoldable pub size : GenericDataTable → Run ℕ
size t = do
  assert (ltb 0 (length t.data_blocks))
  last ← at t.data_blocks (length t.data_blocks - 1)
  done (
      if length t.data_blocks == 1
      then block_size last
      else ((length t.data_blocks - 1) * t.max_block_capacity + block_size last) % word)

unfoldable pub size_approx : GenericDataTable → Run ℕ
size_approx t = do
  assert (ltb 0 (length t.data_blocks))
  done (length t.data_blocks * t.max_block_capacity % word)
