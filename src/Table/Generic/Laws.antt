-- ===== src/Table/Generic/Laws.antt =====
-- `GenericDataTable` of src/generic_data_table.h: an insertion as its callers see it.
use index_zoo.Base.{
  ℕ, suc, ◌+◌, ◌*◌, ◌^◌, ◌%◌, ◌/◌, ◌<◌, ◌≤◌, ◌≡◌, ◌≢◌, refl, sym, ap, ◌∙◌, some, List, arith,
  length, get_elem?, done, Returns, ℕ_discrete, get_elem?-some,
}
use index_zoo.Table.Offset.{word, construct_raw_data, block_id, rel_offset, offset_fields}
use index_zoo.Table.Block.{DataBlock, IsBlock}
use index_zoo.Table.Memory.{read_bytes}
use index_zoo.Table.Generic.{
  GenericDataTable, get_tuple_key, get_tuple_value, get_tuple_key_at, get_tuple_value_at, size,
  insert_tuple,
}
use index_zoo.Table.Generic.Valid.{IsValid}
use index_zoo.Table.Generic.Insert.{inserted, filled, written, insert_tuple_lem}
use index_zoo.Table.Generic.Preserve.{
  filled-IsBlock, inserted_active, inserted_other, inserted-IsValid, inserted_shape,
}
use index_zoo.Table.Generic.Reads.{
  padded, get_tuple_key_lem, get_tuple_value_lem, read_new_key, read_new_value, read_old,
}
use index_zoo.Table.Generic.Size.{size-count, size-inserted, count}
use mathlib.Core.Path.{subst}
use native.Mathlib.Nat.{add-zero, div-eq_of_lt-le, mod-eq-sub-div-mul}

-- A slot that has been given out.
abbrev pub Holds : GenericDataTable → ℕ → ℕ → Type 0
Holds t i r = (c : DataBlock) × (get_elem? t.data_blocks i ≡ some c) × (r < c.next_rel_offset)

-- Slot `r` of block `i` reads in `t'` as it does in `t`, and has been given out.
abbrev pub Kept : GenericDataTable → GenericDataTable → ℕ → ℕ → Type 0
Kept t t' i r =
    (get_tuple_key t' i r ≡ get_tuple_key t i r)
    × (get_tuple_value t' i r ≡ get_tuple_value t i r)
    × Holds t' i r

pub div_part : (a n c : ℕ) → n < c → (a * c + n) / c ≡ a
div_part a n c h = div-eq_of_lt-le {k = a} c (omega arith) (omega arith)

pub mod_part : (a n c : ℕ) → n < c → (a * c + n) % c ≡ n
mod_part a n c h = mod-eq-sub-div-mul (a * c + n) c ∙ rw (div_part a n c h) (omega arith)

-- What a caller may rely on after an insertion into `t` that returned the table `t'` and `offset`.
pub record Inserted (t : GenericDataTable) (key value : List ℕ) (t' : GenericDataTable) (offset : ℕ)
    : Type 0 where
  pub valid : IsValid t'
  pub is_word : offset < word
  pub same_key_size : t'.max_key_size ≡ t.max_key_size
  pub same_value_size : t'.max_value_size ≡ t.max_value_size
  pub key_back : get_tuple_key_at t' offset ≡ done (padded t.max_key_size key)
  pub value_back : get_tuple_value_at t' offset ≡ done (padded t.max_value_size value)

module _ (t : GenericDataTable) (v : IsValid t) (key value : List ℕ)
    (fits_key : length key ≤ t.max_key_size) (fits_value : length value ≤ t.max_value_size)
    (few : length t.data_blocks < 2 ^ 40) where
  active_block : (b : DataBlock) × (get_elem? t.data_blocks t.active_data_block ≡ some b)
  active_block = get_elem?-some t.data_blocks t.active_data_block (omega (arith, v.active))

  module _ (b : DataBlock) (e : get_elem? t.data_blocks t.active_data_block ≡ some b) where
    block : IsBlock t.active_data_block (t.max_key_size + t.max_value_size) t.max_block_capacity b
    block = v.blocks _ b e

    has_slot : b.next_rel_offset < t.max_block_capacity
    has_slot = v.free _ b e (omega (arith, v.active))

    fields :
        (block_id (construct_raw_data t.active_data_block b.next_rel_offset) ≡ t.active_data_block)
        × (rel_offset (construct_raw_data t.active_data_block b.next_rel_offset)
            ≡ b.next_rel_offset)
    fields =
        offset_fields _ _ (omega (arith, v.few, v.active))
          (omega (arith, has_slot, v.sizes.positions))

    key_back :
        get_tuple_key (inserted t b key value) t.active_data_block b.next_rel_offset
        ≡ done (padded t.max_key_size key)
    key_back = rw (inserted_shape t v b e key value fits_key fits_value) (
        get_tuple_key_lem _ v.sizes t.active_data_block (filled t b key value)
          (inserted_active t v b e key value fits_key fits_value)
          (filled-IsBlock t v b e key value fits_key fits_value) b.next_rel_offset has_slot
        ∙ ap done (read_new_key t v b e key value fits_key fits_value))

    value_back :
        get_tuple_value (inserted t b key value) t.active_data_block b.next_rel_offset
        ≡ done (padded t.max_value_size value)
    value_back = rw (inserted_shape t v b e key value fits_key fits_value) (
        get_tuple_value_lem _ v.sizes t.active_data_block (filled t b key value)
          (inserted_active t v b e key value fits_key fits_value)
          (filled-IsBlock t v b e key value fits_key fits_value) b.next_rel_offset has_slot
        ∙ ap done (read_new_value t v b e key value fits_key fits_value))

    inserted-Inserted :
        Inserted t key value
          (inserted t b key value)
          (construct_raw_data t.active_data_block b.next_rel_offset)
    unfolding get_tuple_key_at get_tuple_value_at construct_raw_data
    inserted-Inserted = record {
      valid = inserted-IsValid t v b e key value fits_key fits_value few;
      is_word = omega arith;
      same_key_size =
          ap (λ u. u.max_key_size) (inserted_shape t v b e key value fits_key fits_value);
      same_value_size =
          ap (λ u. u.max_value_size) (inserted_shape t v b e key value fits_key fits_value);
      key_back = rw (fields.0, fields.1) key_back;
      value_back = rw (fields.0, fields.1) value_back;
    }

  -- On a valid table with fewer than 2^40 blocks, `insert_tuple` with a key and a value of at
  -- most the maximal sizes, these sizes included, as its ASSERTs have it, returns at the first round of its loop. The table that it leaves is
  -- valid and has the same sizes, and the key and the value, padded with zero bytes to those
  -- sizes, are read back at the offset that it returns.
  pub insert_tuple-Inserted :
      (fuel : ℕ) → Returns (insert_tuple (suc fuel) t key value) (λ r. Inserted t key value r.0 r.1)
  insert_tuple-Inserted fuel =
      let (b, e) = active_block in
      rw (insert_tuple_lem t v b e key value fits_key fits_value fuel) (inserted-Inserted b e)

  -- On a valid table with fewer than 2^40 blocks, `insert_tuple` with a key and a value of at most
  -- the maximal sizes counts one more tuple: if `size` gave `n` before, it gives `n + 1`
  -- afterwards, and the offset returned is position `n % capacity` of block `n / capacity`.
  pub insert_tuple-size :
      (fuel n : ℕ)
      → size t ≡ done n
      → Returns (insert_tuple (suc fuel) t key value) (λ r.
        (size r.0 ≡ done (n + 1))
        × (r.1 ≡ construct_raw_data (n / t.max_block_capacity) (n % t.max_block_capacity)))
  insert_tuple-size fuel n counted =
      let (b, e) = active_block in
      let is_count : n ≡ count t b = cc (size-count t v b e) in
      rw (insert_tuple_lem t v b e key value fits_key fits_value fuel) (
        rw is_count (size-inserted t v b e key value fits_key fits_value few),
        rw (is_count, div_part _ _ _ (has_slot b e), mod_part _ _ _ (has_slot b e)) refl,
      )

  module _ (b : DataBlock) (e : get_elem? t.data_blocks t.active_data_block ≡ some b) where
    elsewhere :
        (i r : ℕ) (c : DataBlock)
        → get_elem? t.data_blocks i ≡ some c
        → r < c.next_rel_offset
        → i ≢ t.active_data_block
        → Kept t (inserted t b key value) i r
    elsewhere i r c at_i held other =
        let there = inserted_other t v b e key value fits_key fits_value i c other at_i in
        let shape = inserted_shape t v b e key value fits_key fits_value in
        let old_block = v.blocks i c at_i in
        let slot : r < t.max_block_capacity = omega (arith, held, old_block.counted) in
        (
          rw shape (get_tuple_key_lem _ v.sizes i c there old_block r slot)
              ∙ sym (get_tuple_key_lem t v.sizes i c at_i old_block r slot),
          rw shape (get_tuple_value_lem _ v.sizes i c there old_block r slot)
              ∙ sym (get_tuple_value_lem t v.sizes i c at_i old_block r slot),
          (c, there, held),
        )

    same_block :
        (r : ℕ) → r < b.next_rel_offset → Kept t (inserted t b key value) t.active_data_block r
    same_block r held =
        let there = inserted_active t v b e key value fits_key fits_value in
        let shape = inserted_shape t v b e key value fits_key fits_value in
        let new_block = filled-IsBlock t v b e key value fits_key fits_value in
        let slot : r < t.max_block_capacity = omega (arith, has_slot b e) in
        (
          rw shape (get_tuple_key_lem _ v.sizes _ _ there new_block r slot)
              ∙ ap done (
                  subst
                    (λ p.
                      read_bytes (written t b key value) p t.max_key_size
                      ≡ read_bytes b.tuples p t.max_key_size)
                    (add-zero (r * (t.max_key_size + t.max_value_size)))
                    (read_old t v b e key value fits_key fits_value r 0 t.max_key_size held
                      (omega arith)))
              ∙ sym (get_tuple_key_lem t v.sizes _ b e (block b e) r slot),
          rw shape (get_tuple_value_lem _ v.sizes _ _ there new_block r slot)
              ∙ ap done (
                  read_old t v b e key value fits_key fits_value r t.max_key_size t.max_value_size
                    held (omega arith))
              ∙ sym (get_tuple_value_lem t v.sizes _ b e (block b e) r slot),
          (filled t b key value, there, omega arith),
        )

  -- On a valid table with fewer than 2^40 blocks, `insert_tuple` with a key and a value of at most
  -- the maximal sizes, these sizes included, as its ASSERTs have it, leaves every tuple of before in place: a slot that had been given out still
  -- is, and its key and its value read the same.
  pub insert_tuple_keeps :
      (fuel i r : ℕ)
      → Holds t i r
      → Returns (insert_tuple (suc fuel) t key value) (λ res. Kept t res.0 i r)
  insert_tuple_keeps fuel i r (c, at_i, held) =
      let (b, e) = active_block in
      rw (insert_tuple_lem t v b e key value fits_key fits_value fuel)
        (elim (ℕ_discrete i t.active_data_block) [
          | no other ↦ elsewhere b e i r c at_i held other
          | yes same ↦
              let one_block : c ≡ b = cc (at_i, same, e) in
              rw same (same_block b e r (rw (← one_block) held))
        ])
