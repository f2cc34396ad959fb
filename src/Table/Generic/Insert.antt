-- ===== src/Table/Generic/Insert.antt =====
-- What `insert_tuple` of src/generic_data_table.h does to a valid table.
use index_zoo.Base.{
  ℕ, suc, ◌+◌, ◌*◌, ◌%◌, ◌<◌, ◌≤◌, ◌≡◌, refl, some, List, arith, length, get_elem?, set, done,
  lt→ltb, le→leb, ◌==◌, set-set, false,
}
use index_zoo.Table.Offset.{word, construct_raw_data, invalid_offset}
use index_zoo.Table.Memory.{write_bytes, memcpy_fits, length-write_bytes}
use index_zoo.Table.Block.{DataBlock, IsBlock, get_next_rel_offset, get_tuple, slot_fits}
use index_zoo.Table.Generic.{GenericDataTable, grow, store, insert_loop, insert_tuple}
use index_zoo.Table.Generic.Valid.{IsValid}
use native.Mathlib.Nat.{mod-eq_of_lt}

-- The bytes of a block after both copies into its next slot.
abbrev pub written : GenericDataTable → DataBlock → List ℕ → List ℕ → List ℕ
written t b key value =
    let slot = b.next_rel_offset * (t.max_key_size + t.max_value_size) in
    write_bytes (write_bytes b.tuples slot key) (slot + t.max_key_size) value

abbrev pub filled : GenericDataTable → DataBlock → List ℕ → List ℕ → DataBlock
filled t b key value = record b {
  next_rel_offset = b.next_rel_offset + 1;
  tuples = written t b key value;
}

-- The table after an insertion that finds the active block `b`.
abbrev pub inserted : GenericDataTable → DataBlock → List ℕ → List ℕ → GenericDataTable
inserted t b key value =
    grow (record t { data_blocks = set t.data_blocks t.active_data_block (filled t b key value) })
      (filled t b key value) b.next_rel_offset

module _ (t : GenericDataTable) (v : IsValid t) (b : DataBlock)
    (e : get_elem? t.data_blocks t.active_data_block ≡ some b) (key value : List ℕ)
    (fits_key : length key ≤ t.max_key_size) (fits_value : length value ≤ t.max_value_size) where
  abbrev size : ℕ
  size = t.max_key_size + t.max_value_size

  abbrev cap : ℕ
  cap = t.max_block_capacity

  block : IsBlock t.active_data_block size cap b
  block = v.blocks _ b e

  has_slot : b.next_rel_offset < cap
  has_slot = v.free _ b e (omega (arith, v.active))

  small : b.next_rel_offset * size < word
  small = omega (arith, slot_fits b.next_rel_offset cap size has_slot, v.sizes.bytes)

  get_next :
      get_next_rel_offset b
      ≡ (record b { next_rel_offset = b.next_rel_offset + 1 }, b.next_rel_offset)
  unfolding get_next_rel_offset
  get_next = ground (arith, v.sizes.positions, has_slot, block.room)

  slot_eq : b.next_rel_offset * b.tuple_size % word ≡ b.next_rel_offset * size
  slot_eq = rw block.stride (mod-eq_of_lt small)

  room_in_block : b.next_rel_offset * size + size ≤ length b.tuples
  room_in_block = omega (arith, slot_fits b.next_rel_offset cap size has_slot, block.bytes)

  store_lem :
      store
        (record t {
          data_blocks =
              set t.data_blocks t.active_data_block
                (record b { next_rel_offset = b.next_rel_offset + 1 });
        })
        (record b { next_rel_offset = b.next_rel_offset + 1 })
        b.next_rel_offset
        key
        value
      ≡ done (inserted t b key value, construct_raw_data t.active_data_block b.next_rel_offset)
  unfolding store get_tuple
  store_lem =
      rw
        (
          lt→ltb b.next_rel_offset b.max_rel_offset (omega (arith, has_slot, block.room)),
          slot_eq,
          memcpy_fits b.tuples (b.next_rel_offset * size) key (omega (arith, room_in_block)),
          memcpy_fits (write_bytes b.tuples (b.next_rel_offset * size) key)
              (b.next_rel_offset * size + t.max_key_size) value
              (omega
                (arith, room_in_block, length-write_bytes b.tuples (b.next_rel_offset * size) key)),
          set-set,
          block.named,
        )
        refl

  -- With the active block `b`, `insert_tuple` returns at its first round: the two copies go into
  -- the next slot of `b`, and the result is the position of that slot.
  pub insert_tuple_lem :
      (fuel : ℕ)
      → insert_tuple (suc fuel) t key value
        ≡ done (inserted t b key value, construct_raw_data t.active_data_block b.next_rel_offset)
  unfolding insert_tuple insert_loop
  insert_tuple_lem fuel =
      rw (le→leb _ _ fits_key, le→leb _ _ fits_value, e, get_next, not_invalid) store_lem
    where
      not_invalid : (b.next_rel_offset == invalid_offset) ≡ false
      not_invalid = ground (arith, has_slot, v.sizes.positions)
