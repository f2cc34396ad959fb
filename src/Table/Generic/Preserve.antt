-- ===== src/Table/Generic/Preserve.antt =====
-- `insert_tuple` of src/generic_data_table.h keeps a table valid; the blocks that it leaves.
use index_zoo.Base.{
  ℕ, ◌+◌, ◌-◌, ◌*◌, ◌^◌, ◌%◌, ◌<◌, ◌≤◌, ◌≡◌, ◌≢◌, refl, sym, some, List, ◌∷◌, [], ◌++◌, arith,
  length, get_elem?, set, length-set, get_elem?-set_cases, get_elem?-append_cases, length-append,
  ◌⊎◌, inl, inr, ◌∙◌, ◌==◌, get_or, get_elem?-set_self, get_elem?-lt, get_elem?-append_left,
  get_elem?-set_ne, true, dec_lt,
}
use index_zoo.Table.Offset.{word}
use index_zoo.Table.Memory.{write_bytes, length-write_bytes, get_or-write_ne}
use index_zoo.Table.Block.{DataBlock, IsBlock, new_block-IsBlock, new_block}
use index_zoo.Table.Generic.{GenericDataTable, grow}
use index_zoo.Table.Generic.Valid.{IsValid, sizes_small}
use index_zoo.Table.Generic.Insert.{inserted, filled, written}
use native.Mathlib.Nat.{mod-eq_of_lt}

module _ (t : GenericDataTable) (v : IsValid t) (b : DataBlock)
    (e : get_elem? t.data_blocks t.active_data_block ≡ some b) (key value : List ℕ)
    (fits_key : length key ≤ t.max_key_size) (fits_value : length value ≤ t.max_value_size) where
  abbrev size : ℕ
  size = t.max_key_size + t.max_value_size

  abbrev cap : ℕ
  cap = t.max_block_capacity

  abbrev next_block : DataBlock
  next_block = new_block (t.active_data_block + 1) size cap

  abbrev with_filled : List DataBlock
  with_filled = set t.data_blocks t.active_data_block (filled t b key value)

  block : IsBlock t.active_data_block size cap b
  block = v.blocks _ b e

  has_slot : b.next_rel_offset < cap
  has_slot = v.free _ b e (omega (arith, v.active))

  next_slot : (b.next_rel_offset + 1) * size ≡ b.next_rel_offset * size + size
  next_slot = grind arith

  length-written : length (written t b key value) ≡ size * cap
  length-written = omega (
    arith,
    block.bytes,
    length-write_bytes b.tuples (b.next_rel_offset * size) key,
    length-write_bytes (write_bytes b.tuples (b.next_rel_offset * size) key)
        (b.next_rel_offset * size + t.max_key_size) value,
  )

  written_clean :
      (q : ℕ) → (b.next_rel_offset + 1) * size ≤ q → get_or (written t b key value) q 0 ≡ 0
  written_clean q h =
      get_or-write_ne (write_bytes b.tuples (b.next_rel_offset * size) key)
        (b.next_rel_offset * size + t.max_key_size) value q (inr (omega (arith, next_slot)))
      ∙ get_or-write_ne b.tuples (b.next_rel_offset * size) key q (inr (omega (arith, next_slot)))
      ∙ block.clean q (omega (arith, next_slot))

  pub filled-IsBlock : IsBlock t.active_data_block size cap (filled t b key value)
  filled-IsBlock = record {
    named = block.named;
    stride = block.stride;
    room = block.room;
    bytes = length-written;
    counted = omega (arith, has_slot);
    clean = written_clean;
  }

  pub inserted_room :
      b.next_rel_offset + 1 < cap → inserted t b key value ≡ record t { data_blocks = with_filled }
  unfolding grow
  inserted_room h = ground (arith, block.room, v.sizes.positions)

  pub inserted_full :
      b.next_rel_offset + 1 ≡ cap
      → inserted t b key value ≡ record t {
        data_blocks = with_filled ++ next_block ∷ [];
        active_data_block = length with_filled;
      }
  unfolding grow
  inserted_full h = rw (test, block.named, mod-eq_of_lt (sizes_small v.sizes), wrap) refl
    where
      wrap : (t.active_data_block + 1) % word ≡ t.active_data_block + 1
      wrap = mod-eq_of_lt (omega (arith, v.few, v.active))

      test : (b.next_rel_offset == (b.max_rel_offset + word - 1) % word) ≡ true
      test = ground (arith, block.room, v.sizes.positions)

  -- The block at an index of the changed list: the filled one, or one of before.
  with_filled_cases :
      (i : ℕ) (c : DataBlock)
      → get_elem? with_filled i ≡ some c
      → ((i ≡ t.active_data_block) × (c ≡ filled t b key value))
        ⊎ ((i ≢ t.active_data_block) × (get_elem? t.data_blocks i ≡ some c))
  with_filled_cases i c h =
      get_elem?-set_cases t.data_blocks t.active_data_block (filled t b key value) i c h

  length-with_filled : length with_filled ≡ t.active_data_block + 1
  length-with_filled =
      length-set t.data_blocks t.active_data_block (filled t b key value) ∙ sym v.active

  with_filled-IsBlock :
      (i : ℕ) (c : DataBlock) → get_elem? with_filled i ≡ some c → IsBlock i size cap c
  with_filled-IsBlock i c h = elim (with_filled_cases i c h) [
    | inl p ↦ rw (p.0, p.1) filled-IsBlock
    | inr p ↦ v.blocks i c p.1
  ]

  room-IsValid : b.next_rel_offset + 1 < cap → IsValid (record t { data_blocks = with_filled })
  room-IsValid h = record {
    sizes = v.sizes;
    some_block = omega (arith, length-with_filled);
    few = omega (arith, length-with_filled, v.few, v.active);
    active = omega (arith, length-with_filled);
    blocks = with_filled-IsBlock;
    full = λ i c at_i inner. elim (with_filled_cases i c at_i) [
      | inl p ↦ absurd (omega (arith, p.0, length-with_filled))
      | inr p ↦ v.full i c p.1 (omega (arith, length-with_filled, v.active))
    ];
    free = λ i c at_i last. elim (with_filled_cases i c at_i) [
      | inl p ↦ rw p.1 h
      | inr p ↦ absurd (p.0 (omega (arith, length-with_filled)))
    ];
  }

  full-IsValid :
      b.next_rel_offset + 1 ≡ cap
      → length t.data_blocks < 2 ^ 40
      → IsValid (record t {
        data_blocks = with_filled ++ next_block ∷ [];
        active_data_block = length with_filled;
      })
  unfolding new_block
  full-IsValid h few = record {
    sizes = v.sizes;
    some_block = omega (arith, longer);
    few = omega (arith, longer, length-with_filled, v.active);
    active = omega (arith, longer);
    blocks = λ i c at_i. elim (get_elem?-append_cases with_filled next_block i c at_i) [
      | inl p ↦
          rw (p.1, p.0, length-with_filled)
            (new_block-IsBlock (t.active_data_block + 1) size cap v.sizes.bytes)
      | inr p ↦ with_filled-IsBlock i c p.1
    ];
    full = λ i c at_i inner. elim (get_elem?-append_cases with_filled next_block i c at_i) [
      | inl p ↦ absurd (omega (arith, p.0, longer))
      | inr p ↦ elim (with_filled_cases i c p.1) [
        | inl q ↦ rw q.1 h
        | inr q ↦ v.full i c q.1 (
            omega
              (arith, length-with_filled, v.active, p.0, λ (x : i ≡ t.active_data_block). q.0 x))
      ]
    ];
    free = λ i c at_i last. elim (get_elem?-append_cases with_filled next_block i c at_i) [
      | inl p ↦ rw p.1 v.sizes.some_slot
      | inr p ↦ absurd (omega (arith, p.0, longer))
    ];
  }
    where
      longer : length (with_filled ++ next_block ∷ []) ≡ length with_filled + 1
      longer = length-append with_filled (next_block ∷ [])

  -- The table after an insertion is valid, unless it would need block number 2^40.
  pub inserted-IsValid : length t.data_blocks < 2 ^ 40 → IsValid (inserted t b key value)
  inserted-IsValid few = elim (dec_lt (b.next_rel_offset + 1) cap) [
    | yes h ↦ rw (inserted_room h) (room-IsValid h)
    | no h ↦
        let last : b.next_rel_offset + 1 ≡ cap = omega (arith, has_slot) in
        rw (inserted_full last) (full-IsValid last few)
  ]

  -- The active block of before holds the new tuple, and all others are as they were.
  pub inserted_active :
      get_elem? (inserted t b key value).data_blocks t.active_data_block
      ≡ some (filled t b key value)
  inserted_active = elim (dec_lt (b.next_rel_offset + 1) cap) [
    | yes h ↦ rw (inserted_room h) here
    | no h ↦
        rw (inserted_full (omega (arith, has_slot)))
          (get_elem?-append_left with_filled _ _ (omega (arith, length-with_filled)) ∙ here)
  ]
    where
      here : get_elem? with_filled t.active_data_block ≡ some (filled t b key value)
      here = get_elem?-set_self t.data_blocks t.active_data_block _ (omega (arith, v.active))

  pub inserted_other :
      (i : ℕ) (c : DataBlock)
      → i ≢ t.active_data_block
      → get_elem? t.data_blocks i ≡ some c
      → get_elem? (inserted t b key value).data_blocks i ≡ some c
  inserted_other i c other h = elim (dec_lt (b.next_rel_offset + 1) cap) [
    | yes r ↦ rw (inserted_room r) there
    | no r ↦ rw (inserted_full (omega (arith, has_slot))) (
        get_elem?-append_left with_filled _ i
          (omega (arith, length-with_filled, v.active, get_elem?-lt t.data_blocks i c h))
        ∙ there)
  ]
    where
      there : get_elem? with_filled i ≡ some c
      there = get_elem?-set_ne t.data_blocks t.active_data_block i _ (λ q. other (omega arith)) ∙ h

  -- An insertion keeps the three sizes.
  pub inserted_shape : inserted t b key value ≡ record t {
    data_blocks = (inserted t b key value).data_blocks;
    active_data_block = (inserted t b key value).active_data_block;
  }
  unfolding grow
  inserted_shape = ground arith
