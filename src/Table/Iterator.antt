-- ===== src/Table/Iterator.antt =====
-- The iterators over a table (src/generic_data_table.h, src/data_table.h).
pub mod Order
pub mod Start
pub mod Total
use index_zoo.Base.{
  ℕ, zero, suc, ◌+◌, ◌-◌, ◌%◌, List, [], ◌∷◌, ltb, ◌==◌, ◌&&◌, ◌||◌, not, if◌then◌else◌, Bool, true,
  false, Run, done, fail, no_fuel, assert, at, ◌>>=◌, ◌>>◌, length,
}
use index_zoo.Table.Offset.{word, construct_raw_data}
use index_zoo.Table.Block.{DataBlock, block_size}
use index_zoo.Table.Generic.{GenericDataTable, get_tuple_key, get_tuple_value}

-- `struct IteratorEntry`, with the bytes behind its two pointers.
pub record IteratorEntry : Type 0 where
  pub offset : ℕ
  pub key : List ℕ
  pub value : List ℕ

-- `class GenericDataTableIterator`; the table is an argument of the operations.
pub record TableIterator : Type 0 where
  pub curr_block_id : ℕ
  pub curr_rel_offset : ℕ
  pub last_block_id : ℕ
  pub last_rel_offset : ℕ
  pub max_rel_offset : ℕ

-- The constructor. Its second ASSERT refuses an empty table.
unfoldable pub new_iterator : GenericDataTable → Run TableIterator
new_iterator t = do
  assert (ltb 0 (length t.data_blocks))
  first ← at t.data_blocks 0
  assert (not (length t.data_blocks == 1 && block_size first == 0))
  last ← at t.data_blocks (length t.data_blocks - 1)
  let last_id = length t.data_blocks - 1
  let max_rel = (t.max_block_capacity + word - 1) % word
  done (
      if block_size last == 0
      then record {
        curr_block_id = 0;
        curr_rel_offset = 0;
        last_block_id = (last_id + word - 1) % word;
        last_rel_offset = max_rel;
        max_rel_offset = max_rel;
      }
      else record {
        curr_block_id = 0;
        curr_rel_offset = 0;
        last_block_id = last_id;
        last_rel_offset = (block_size last + word - 1) % word;
        max_rel_offset = max_rel;
      })

unfoldable pub has_next : TableIterator → Bool
has_next it =
    if ltb it.last_block_id it.curr_block_id
      || it.curr_block_id == it.last_block_id && ltb it.last_rel_offset it.curr_rel_offset
    then false
    else true

-- The step of the position in `next()`.
unfoldable pub advance : TableIterator → TableIterator
advance it =
    if not (it.curr_rel_offset == it.max_rel_offset)
    then record it { curr_rel_offset = (it.curr_rel_offset + 1) % word }
    else record it { curr_block_id = (it.curr_block_id + 1) % word; curr_rel_offset = 0 }

-- The entry that `next()` returns.
unfoldable pub entry_at : GenericDataTable → ℕ → ℕ → Run IteratorEntry
entry_at t bid rel = do
  key ← get_tuple_key t bid rel
  value ← get_tuple_value t bid rel
  done (record { offset = construct_raw_data bid rel; key = key; value = value })

unfoldable pub next : GenericDataTable → TableIterator → Run (TableIterator × IteratorEntry)
next t it = do entry ← entry_at t it.curr_block_id it.curr_rel_offset; done (advance it, entry)

-- `while (iterator.has_next()) { auto entry = iterator.next(); ... }`: the entries in order.
unfoldable pub iterate : ℕ → GenericDataTable → TableIterator → Run (List IteratorEntry)
iterate zero t it = fail no_fuel
iterate (suc fuel) t it =
    let step = do (it', entry) ← next t it; rest ← iterate fuel t it'; done (entry ∷ rest)
    in if has_next it then step else done []
