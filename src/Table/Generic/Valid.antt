-- ===== src/Table/Generic/Valid.antt =====
-- The invariant of a table: all blocks but the last are full, and the last has a free slot.
use index_zoo.Base.{
  ℕ, suc, ◌+◌, ◌*◌, ◌^◌, ◌<◌, ◌≤◌, ◌≡◌, some, arith, length, get_elem?, get_elem?-singleton,
}
use native.Mathlib.Nat.{mod-eq_of_lt}
use index_zoo.Table.Offset.{word}
use index_zoo.Table.Block.{DataBlock, IsBlock, new_block-IsBlock, new_block}
use index_zoo.Table.Generic.{GenericDataTable, new_table}

-- The sizes that a table is made with: a block has a slot, its positions fit in the 24 bits that
-- an offset has for them, and its bytes can be counted by a `size_t`.
pub record HasSizes (key_size value_size cap : ℕ) : Type 0 where
  pub some_slot : 0 < cap
  pub positions : cap ≤ 2 ^ 24
  pub bytes : (key_size + value_size) * cap < word

pub record IsValid (t : GenericDataTable) : Type 0 where
  pub sizes : HasSizes t.max_key_size t.max_value_size t.max_block_capacity
  pub some_block : 0 < length t.data_blocks
  pub few : length t.data_blocks ≤ 2 ^ 40
  pub active : t.active_data_block + 1 ≡ length t.data_blocks
  pub blocks :
      (i : ℕ) (b : DataBlock)
      → get_elem? t.data_blocks i ≡ some b
      → IsBlock i (t.max_key_size + t.max_value_size) t.max_block_capacity b
  pub full :
      (i : ℕ) (b : DataBlock)
      → get_elem? t.data_blocks i ≡ some b
      → suc i < length t.data_blocks
      → b.next_rel_offset ≡ t.max_block_capacity
  pub free :
      (i : ℕ) (b : DataBlock)
      → get_elem? t.data_blocks i ≡ some b
      → suc i ≡ length t.data_blocks
      → b.next_rel_offset < t.max_block_capacity

pub sizes_small :
    {key_size value_size cap : ℕ} → HasSizes key_size value_size cap → key_size + value_size < word
sizes_small s = grind (arith, s.some_slot, s.bytes)

-- A new table is valid.
pub new_table-IsValid :
    (key_size value_size cap : ℕ)
    → HasSizes key_size value_size cap
    → IsValid (new_table key_size value_size cap)
unfolding new_table new_block
new_table-IsValid k v cap s = record {
  sizes = s;
  some_block = omega arith;
  few = omega arith;
  active = omega arith;
  blocks = λ i b e.
      let (at_zero, is_new) = get_elem?-singleton _ i b e in
      rw (at_zero, is_new, mod-eq_of_lt (sizes_small s)) (new_block-IsBlock 0 (k + v) cap s.bytes);
  full = λ i b e h. absurd (omega arith);
  free = λ i b e h. let (at_zero, is_new) = get_elem?-singleton _ i b e in rw is_new s.some_slot;
}
