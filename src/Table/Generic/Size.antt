-- ===== src/Table/Generic/Size.antt =====
-- `size()` of src/generic_data_table.h counts the insertions.
use index_zoo.Base.{
  ℕ, ◌+◌, ◌-◌, ◌*◌, ◌^◌, ◌<◌, ◌≤◌, ◌≡◌, sym, ◌∙◌, ap, some, List, arith, length, get_elem?, lt→ltb,
  done, dec_lt, length-set, set, get_elem?-append_length,
}
use index_zoo.Table.Offset.{word}
use index_zoo.Table.Block.{DataBlock, new_block}
use index_zoo.Table.Generic.{GenericDataTable, size}
use index_zoo.Table.Generic.Valid.{IsValid}
use index_zoo.Table.Generic.Insert.{inserted, filled}
use index_zoo.Table.Generic.Preserve.{
  inserted_room, inserted_full, inserted_active, inserted-IsValid,
}
use native.Mathlib.Nat.{mod-eq_of_lt}

-- The tuples of a valid table whose active block is `b`.
abbrev pub count : GenericDataTable → DataBlock → ℕ
count t b = t.active_data_block * t.max_block_capacity + b.next_rel_offset

carry : (a l c n : ℕ) → l ≡ a + 1 → n + 1 ≡ c → l * c + 0 ≡ a * c + n + 1
carry a l c n h k = rw h (omega arith)

position_small : (a c n : ℕ) → a < 2 ^ 40 → c ≤ 2 ^ 24 → n < c → a * c + n < word
position_small a c n ha hc hn = let bound : a * c + c ≤ 2 ^ 40 * c = grind arith in omega arith

module _ (t : GenericDataTable) (v : IsValid t) (b : DataBlock)
    (e : get_elem? t.data_blocks t.active_data_block ≡ some b) where
  has_slot : b.next_rel_offset < t.max_block_capacity
  has_slot = v.free _ b e (omega (arith, v.active))

  pub count_small : count t b < word
  count_small =
      position_small t.active_data_block t.max_block_capacity b.next_rel_offset
        (omega (arith, v.active, v.few)) v.sizes.positions has_slot

  pub size-count : size t ≡ done (count t b)
  unfolding size
  size-count =
      rw (lt→ltb 0 (length t.data_blocks) v.some_block, last, e)
        (elim (dec_lt 0 t.active_data_block) [
          | yes more ↦ rw (mod-eq_of_lt count_small) (ground (arith, v.active, more))
          | no single ↦ ground (arith, v.active, single, none_before single)
        ])
    where
      none_before : ¬ (0 < t.active_data_block) → t.active_data_block * t.max_block_capacity ≡ 0
      none_before h = grind arith

      last : length t.data_blocks - 1 ≡ t.active_data_block
      last = omega (arith, v.active)

module _ (t : GenericDataTable) (v : IsValid t) (b : DataBlock)
    (e : get_elem? t.data_blocks t.active_data_block ≡ some b) (key value : List ℕ)
    (fits_key : length key ≤ t.max_key_size) (fits_value : length value ≤ t.max_value_size)
    (few : length t.data_blocks < 2 ^ 40) where
  abbrev with_filled : List DataBlock
  with_filled = set t.data_blocks t.active_data_block (filled t b key value)

  slots : b.next_rel_offset < t.max_block_capacity
  slots = v.free _ b e (omega (arith, v.active))

  valid : IsValid (inserted t b key value)
  valid = inserted-IsValid t v b e key value fits_key fits_value few

  -- One more tuple is counted after an insertion, whether or not a block was added.
  pub size-inserted : size (inserted t b key value) ≡ done (count t b + 1)
  unfolding new_block
  size-inserted = elim (dec_lt (b.next_rel_offset + 1) t.max_block_capacity) [
    | yes room ↦
        let eq = inserted_room t v b e key value fits_key fits_value room in
        rw eq (
          size-count _ (rw eq at valid) (filled t b key value)
            (rw eq at (inserted_active t v b e key value fits_key fits_value))
          ∙ ap done (omega arith))
    | no full ↦
        let eq = inserted_full t v b e key value fits_key fits_value (omega (arith, slots)) in
        rw eq (
          size-count _ (rw eq at valid)
            (new_block (t.active_data_block + 1) (t.max_key_size + t.max_value_size)
              t.max_block_capacity)
            (get_elem?-append_length with_filled _)
          ∙ ap done (
              carry t.active_data_block (length with_filled) t.max_block_capacity b.next_rel_offset
                (length-set t.data_blocks t.active_data_block (filled t b key value) ∙ sym v.active)
                (omega (arith, slots))))
  ]
