-- ===== src/Table/Iterator/Start.antt =====
-- The iterator's constructor on a table that holds tuples, and the whole loop over a table.
use index_zoo.Base.{
  ℕ, zero, suc, ◌+◌, ◌-◌, ◌*◌, ◌%◌, ◌<◌, ◌≡◌, refl, some, arith, length, get_elem?, get_elem?-some,
  done, ◌>>=◌, Bool-cases, true, false, inl, inr, ◌==◌, dec_lt, ℕ_discrete, lt→ltb, ◌&&◌, not,
  if◌then◌else◌,
}
use index_zoo.Table.Offset.{word}
use index_zoo.Table.Block.{DataBlock}
use index_zoo.Table.Generic.{GenericDataTable, size}
use index_zoo.Table.Generic.Valid.{IsValid}
use index_zoo.Table.Generic.Size.{size-count, count, count_small}
use index_zoo.Table.Iterator.{TableIterator, new_iterator, iterate}
use index_zoo.Table.Iterator.Order.{Stands, entries_from, iterate-entries_from}

pred_word : (x : ℕ) → 0 < x → x + 1 < word → (x + word - 1) % word ≡ x - 1
pred_word x h k = omega arith

last_block_full : (a c : ℕ) → 0 < a → (a - 1) * c + c ≡ a * c
last_block_full zero c h = elim h [ ]
last_block_full (suc a) c h = grind arith

module _ (t : GenericDataTable) (v : IsValid t) (b : DataBlock)
    (e : get_elem? t.data_blocks t.active_data_block ≡ some b) (held : 0 < count t b) where
  abbrev cap : ℕ
  cap = t.max_block_capacity

  abbrev start : TableIterator
  start =
      if b.next_rel_offset == 0
      then record {
        curr_block_id = 0;
        curr_rel_offset = 0;
        last_block_id = (t.active_data_block + word - 1) % word;
        last_rel_offset = (cap + word - 1) % word;
        max_rel_offset = (cap + word - 1) % word;
      }
      else record {
        curr_block_id = 0;
        curr_rel_offset = 0;
        last_block_id = t.active_data_block;
        last_rel_offset = (b.next_rel_offset + word - 1) % word;
        max_rel_offset = (cap + word - 1) % word;
      }

  has_slot : b.next_rel_offset < cap
  has_slot = v.free _ b e (omega (arith, v.active))

  some_before : b.next_rel_offset ≡ 0 → 0 < t.active_data_block
  some_before h = elim (dec_lt 0 t.active_data_block) [
    | yes p ↦ p
    | no p ↦ absurd (grind (arith, held))
  ]

  start-Stands : Stands cap 0 (count t b) start
  start-Stands = elim (Bool-cases (b.next_rel_offset == 0)) [
    | inl none_in_last ↦ rw none_in_last (record {
      max_rel = omega (arith, has_slot, v.sizes.positions);
      inside = omega (arith, has_slot);
      last_inside = omega (arith, has_slot, v.sizes.positions);
      here = omega arith;
      last = rw (pred_word t.active_data_block (some_before (is_zero none_in_last)) block_small) (
          omega (
            arith,
            has_slot,
            v.sizes.positions,
            is_zero none_in_last,
            last_block_full t.active_data_block cap (some_before (is_zero none_in_last)),
          ));
      small = count_small t v b e;
      few = omega (arith, block_small, some_before (is_zero none_in_last));
      positions = v.sizes.positions;
    })
    | inr some_in_last ↦ rw some_in_last (record {
      max_rel = omega (arith, has_slot, v.sizes.positions);
      inside = omega (arith, has_slot);
      last_inside = omega (arith, has_slot, v.sizes.positions, is_positive some_in_last);
      here = omega arith;
      last = omega (arith, has_slot, v.sizes.positions, is_positive some_in_last);
      small = count_small t v b e;
      few = omega (arith, block_small);
      positions = v.sizes.positions;
    })
  ]
    where
      block_small : t.active_data_block + 1 < word
      block_small = omega (arith, v.few, v.active)

      is_zero : (b.next_rel_offset == 0) ≡ true → b.next_rel_offset ≡ 0
      is_zero h = ground arith

      is_positive : (b.next_rel_offset == 0) ≡ false → 0 < b.next_rel_offset
      is_positive h = ground arith

  not_empty :
      (f : DataBlock)
      → get_elem? t.data_blocks 0 ≡ some f
      → not (length t.data_blocks == 1 && f.next_rel_offset == 0) ≡ true
  not_empty f first = elim (ℕ_discrete (length t.data_blocks) 1) [
    | no more ↦ ground arith
    | yes one ↦
        let zeroth : t.active_data_block ≡ 0 = omega (arith, v.active) in
        let same : f ≡ b = cc (first, e, zeroth) in
        let used : 0 < b.next_rel_offset = grind (arith, held) in rw same (ground arith)
  ]

  new_iterator_lem : new_iterator t ≡ done start
  unfolding new_iterator
  new_iterator_lem =
      let (f, first) = get_elem?-some t.data_blocks 0 v.some_block in
      rw (lt→ltb 0 (length t.data_blocks) v.some_block, first, not_empty f first, last, e) refl
    where
      last : length t.data_blocks - 1 ≡ t.active_data_block
      last = omega (arith, v.active)

module _ (t : GenericDataTable) (v : IsValid t) (n fuel : ℕ) (counted : size t ≡ done n)
    (held : 0 < n) (enough : n < fuel) where
  -- On a valid table of `n` tuples, `n` above 0, the loop over a new iterator ends within
  -- `n + 1` tests of `has_next`, and its entries are those of the positions 0 to `n - 1` in
  -- order: position `p` is slot `p % capacity` of block `p / capacity`.
  pub iterate_table : (new_iterator t >>= iterate fuel t) ≡ entries_from t 0 n
  iterate_table =
      let (b, e) = get_elem?-some t.data_blocks t.active_data_block (omega (arith, v.active)) in
      let is_count : n ≡ count t b = cc (size-count t v b e) in
      rw (new_iterator_lem t v b e (rw is_count at held)) (
        iterate-entries_from t n 0 n fuel _
          (rw (← is_count) at (start-Stands t v b e (rw is_count at held))) (omega arith) enough)
