-- ===== src/Table/Generic/Reads.antt =====
-- What `get_tuple_key` and `get_tuple_value` of src/generic_data_table.h read after an insertion.
use index_zoo.Base.{
  ℕ, ◌+◌, ◌-◌, ◌*◌, ◌<◌, ◌≤◌, ◌≡◌, refl, ◌∙◌, some, List, ◌++◌, arith, length, get_elem?, inl, inr,
  lt→ltb, replicate, done,
}
use index_zoo.Table.Offset.{word}
use index_zoo.Table.Memory.{
  write_bytes, length-write_bytes, get_or-write_ne, read_bytes, load_fits, read_bytes-write_ne,
  read_bytes-padded,
}
use index_zoo.Table.Block.{DataBlock, IsBlock, get_tuple, slot_fits, slots_apart}
use index_zoo.Table.Generic.{GenericDataTable, get_tuple_key, get_tuple_value}
use index_zoo.Table.Generic.Valid.{IsValid, HasSizes}
use index_zoo.Table.Generic.Insert.{written}
use native.Mathlib.Nat.{mod-eq_of_lt}

-- `bs` followed by zeros, `n` bytes in all.
abbrev pub padded : ℕ → List ℕ → List ℕ
padded n bs = bs ++ replicate (n - length bs) 0

-- Both reads go to the bytes of the slot.
module _ (t : GenericDataTable)
    (sizes : HasSizes t.max_key_size t.max_value_size t.max_block_capacity) (i : ℕ) (c : DataBlock)
    (at_i : get_elem? t.data_blocks i ≡ some c)
    (block : IsBlock i (t.max_key_size + t.max_value_size) t.max_block_capacity c) (r : ℕ)
    (slot : r < t.max_block_capacity) where
  in_block :
      r * (t.max_key_size + t.max_value_size) + (t.max_key_size + t.max_value_size)
      ≤ length c.tuples
  in_block = omega (arith, slot_fits r t.max_block_capacity _ slot, block.bytes)

  address : get_tuple c r ≡ done (r * (t.max_key_size + t.max_value_size))
  unfolding get_tuple
  address =
      rw (lt→ltb r c.max_rel_offset (omega (arith, block.room)), block.stride, mod-eq_of_lt (small))
        refl
    where
      small : r * (t.max_key_size + t.max_value_size) < word
      small = omega (arith, slot_fits r t.max_block_capacity _ slot, sizes.bytes)

  pub get_tuple_key_lem :
      get_tuple_key t i r
      ≡ done (read_bytes c.tuples (r * (t.max_key_size + t.max_value_size)) t.max_key_size)
  unfolding get_tuple_key
  get_tuple_key_lem = rw (at_i, address) (load_fits c.tuples _ _ (omega (arith, in_block)))

  pub get_tuple_value_lem :
      get_tuple_value t i r
      ≡ done (
          read_bytes c.tuples
            (r * (t.max_key_size + t.max_value_size) + t.max_key_size)
            t.max_value_size)
  unfolding get_tuple_value
  get_tuple_value_lem = rw (at_i, address) (load_fits c.tuples _ _ (omega (arith, in_block)))

module _ (t : GenericDataTable) (v : IsValid t) (b : DataBlock)
    (e : get_elem? t.data_blocks t.active_data_block ≡ some b) (key value : List ℕ)
    (fits_key : length key ≤ t.max_key_size) (fits_value : length value ≤ t.max_value_size) where
  abbrev size : ℕ
  size = t.max_key_size + t.max_value_size

  abbrev address_of_new : ℕ
  address_of_new = b.next_rel_offset * size

  abbrev with_key : List ℕ
  with_key = write_bytes b.tuples address_of_new key

  block : IsBlock t.active_data_block size t.max_block_capacity b
  block = v.blocks _ b e

  has_slot : b.next_rel_offset < t.max_block_capacity
  has_slot = v.free _ b e (omega (arith, v.active))

  inside : address_of_new + size ≤ length b.tuples
  inside =
      omega (arith, slot_fits b.next_rel_offset t.max_block_capacity size has_slot, block.bytes)

  pub read_new_key :
      read_bytes (written t b key value) address_of_new t.max_key_size ≡ padded t.max_key_size key
  read_new_key =
      read_bytes-write_ne with_key (address_of_new + t.max_key_size) value address_of_new
        t.max_key_size (inl (omega arith))
      ∙ read_bytes-padded b.tuples address_of_new key t.max_key_size fits_key
          (omega (arith, inside)) block.clean

  pub read_new_value :
      read_bytes (written t b key value) (address_of_new + t.max_key_size) t.max_value_size
      ≡ padded t.max_value_size value
  read_new_value =
      read_bytes-padded with_key (address_of_new + t.max_key_size) value t.max_value_size fits_value
        (omega (arith, inside, length-write_bytes b.tuples address_of_new key))
        (λ q lo.
          get_or-write_ne b.tuples address_of_new key q (inr (omega arith))
          ∙ block.clean q (omega arith))

  -- The slots of before read as before.
  pub read_old :
      (r p n : ℕ)
      → r < b.next_rel_offset
      → p + n ≤ size
      → read_bytes (written t b key value) (r * size + p) n ≡ read_bytes b.tuples (r * size + p) n
  read_old r p n old part =
      read_bytes-write_ne with_key (address_of_new + t.max_key_size) value (r * size + p) n
        (inl (omega (arith, slots_apart r b.next_rel_offset size old)))
      ∙ read_bytes-write_ne b.tuples address_of_new key (r * size + p) n
          (inl (omega (arith, slots_apart r b.next_rel_offset size old)))
