-- ===== src/Table/Iterator/Total.antt =====
-- Every tuple that a valid table holds can be read.
use index_zoo.Base.{
  ℕ, zero, suc, ◌+◌, ◌*◌, ◌/◌, ◌%◌, ◌<◌, ◌≤◌, ◌≡◌, refl, sym, ap, ◌∷◌, arith, length, get_elem?,
  get_elem?-some, some, done, Returns, Returns-bind,
}
use native.Mathlib.Nat.{mod-lt, div-lt_iff_lt-mul}
use native.Mathlib.Numerals.{add-one}
use index_zoo.Table.Offset.{construct_raw_data}
use index_zoo.Table.Memory.{read_bytes}
use index_zoo.Table.Block.{DataBlock}
use index_zoo.Table.Generic.{GenericDataTable, size}
use index_zoo.Table.Generic.Valid.{IsValid}
use index_zoo.Table.Generic.Reads.{get_tuple_key_lem, get_tuple_value_lem}
use index_zoo.Table.Generic.Size.{size-count, count}
use index_zoo.Table.Iterator.{IteratorEntry, entry_at}
use index_zoo.Table.Iterator.Order.{entries_from}

within : (a n c l : ℕ) → a + 1 ≡ l → n < c → a * c + n ≤ l * c
within a m c l h k = rw (sym h) (omega arith)

module _ (t : GenericDataTable) (v : IsValid t) where
  abbrev cap : ℕ
  cap = t.max_block_capacity

  entry_read :
      (p : ℕ)
      → p < length t.data_blocks * cap
      → (entry : IteratorEntry) × (entry_at t (p / cap) (p % cap) ≡ done entry)
  unfolding entry_at
  entry_read p h =
      let (b, e) =
        get_elem?-some t.data_blocks (p / cap) ((div-lt_iff_lt-mul v.sizes.some_slot).1 h) in
      let slot : p % cap < cap = mod-lt p v.sizes.some_slot in
      let block = v.blocks _ b e in
      (
        record {
          offset = construct_raw_data (p / cap) (p % cap);
          key = read_bytes b.tuples (p % cap * (t.max_key_size + t.max_value_size)) t.max_key_size;
          value =
              read_bytes b.tuples (p % cap * (t.max_key_size + t.max_value_size) + t.max_key_size)
                t.max_value_size;
        },
        rw
            (
              get_tuple_key_lem t v.sizes (p / cap) b e block (p % cap) slot,
              get_tuple_value_lem t v.sizes (p / cap) b e block (p % cap) slot,
            )
            refl,
      )

  read_on :
      (p k : ℕ)
      → p + k ≤ length t.data_blocks * cap
      → Returns (entries_from t p k) (λ entries. length entries ≡ k)
  unfolding entries_from
  read_on p zero h = refl
  read_on p (suc k) h =
      let (entry, e) = entry_read p (omega arith) in
      rw (e, add-one p)
        (Returns-bind (λ rest. length rest ≡ k) (λ entries. length entries ≡ suc k)
          (entries_from t (suc p) k) (λ rest. done (entry ∷ rest)) (read_on (suc p) k (omega arith))
          (λ rest same. ap suc same))

  -- A valid table of `n` tuples has an entry for each of them: reading the positions from 0 to
  -- `n - 1` ends normally and gives `n` entries.
  pub entries_from-length :
      (n : ℕ) → size t ≡ done n → Returns (entries_from t 0 n) (λ entries. length entries ≡ n)
  entries_from-length n counted =
      let (b, e) = get_elem?-some t.data_blocks t.active_data_block (omega (arith, v.active)) in
      let is_count : n ≡ count t b = cc (size-count t v b e) in
      read_on 0 n (omega (arith, is_count, in_blocks b e))
    where
      in_blocks :
          (b : DataBlock)
          → get_elem? t.data_blocks t.active_data_block ≡ some b
          → count t b ≤ length t.data_blocks * t.max_block_capacity
      in_blocks b e =
          within t.active_data_block b.next_rel_offset t.max_block_capacity (length t.data_blocks)
            v.active (v.free _ b e (omega (arith, v.active)))
