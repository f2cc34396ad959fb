-- ===== src/Table/Block.antt =====
-- Data blocks (src/data_block.h): an array of tuples of one size and a counter of slots given out.
use index_zoo.Base.{
  ℕ, ◌+◌, ◌*◌, ◌%◌, ◌<◌, ◌≤◌, ◌≡◌, List, arith, ltb, if◌then◌else◌, Run, done, assert, ◌>>◌, length,
  replicate, length-replicate, get_or,
}
use index_zoo.Table.Offset.{word, invalid_offset}
use index_zoo.Table.Memory.{get_or-zeros}

-- `class DataBlock`; `tuples` holds the bytes of `tuples_`.
pub record DataBlock : Type 0 where
  pub block_id : ℕ
  pub tuple_size : ℕ
  pub max_rel_offset : ℕ
  pub next_rel_offset : ℕ
  pub tuples : List ℕ

-- The constructor: all slots free, all bytes zero.
unfoldable pub new_block : ℕ → ℕ → ℕ → DataBlock
new_block id size capacity = record {
  block_id = id;
  tuple_size = size;
  max_rel_offset = capacity;
  next_rel_offset = 0;
  tuples = replicate (size * capacity % word) 0;
}

-- `next_rel_offset_.fetch_add(1)`, and the slot that it gives, or `INVALID_OFFSET`.
unfoldable pub get_next_rel_offset : DataBlock → DataBlock × ℕ
get_next_rel_offset b = (
  record b { next_rel_offset = (b.next_rel_offset + 1) % word },
  if ltb b.next_rel_offset b.max_rel_offset then b.next_rel_offset else invalid_offset,
)

-- The address of a slot, as an index into `tuples_`.
unfoldable pub get_tuple : DataBlock → ℕ → Run ℕ
get_tuple b rel = do assert (ltb rel b.max_rel_offset); done (rel * b.tuple_size % word)

-- `size()`
abbrev pub block_size : DataBlock → ℕ
block_size b = b.next_rel_offset

-- What holds of block number `id` of a table with tuples of `size` bytes and `cap` slots a block.
-- The bytes of a slot that has not been given out are zero.
pub record IsBlock (id size cap : ℕ) (b : DataBlock) : Type 0 where
  pub named : b.block_id ≡ id
  pub stride : b.tuple_size ≡ size
  pub room : b.max_rel_offset ≡ cap
  pub bytes : length b.tuples ≡ size * cap
  pub counted : b.next_rel_offset ≤ cap
  pub clean : (q : ℕ) → b.next_rel_offset * size ≤ q → get_or b.tuples q 0 ≡ 0

pub new_block-IsBlock :
    (id size cap : ℕ) → size * cap < word → IsBlock id size cap (new_block id size cap)
unfolding new_block
new_block-IsBlock id size cap h = record {
  named = omega arith;
  stride = omega arith;
  room = omega arith;
  bytes = omega (arith, length-replicate {A = ℕ} (size * cap % word) 0);
  counted = omega arith;
  clean = λ q p. get_or-zeros (size * cap % word) q;
}

-- A slot lies inside the block's bytes.
pub slot_fits : (i cap size : ℕ) → i < cap → i * size + size ≤ size * cap
slot_fits i cap size h = grind arith

-- Slots do not overlap.
pub slots_apart : (i j size : ℕ) → i < j → i * size + size ≤ j * size
slots_apart i j size h = grind arith
