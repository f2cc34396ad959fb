-- ===== src/Dynamic/ArtTreeMulti/Loads.antt =====
-- The keys that the tree of src/dynamic_index/multithread/art_tree_index.h reads from the table
-- (src/data_table.h).
use index_zoo.Base.{arith, ℕ, suc, ◌^◌, ◌<◌, ◌≡◌, refl, length, done, Returns, Returns-map}
use index_zoo.Table.Offset.{word, block_id, rel_offset}
use index_zoo.Table.Generic.{GenericDataTable}
use index_zoo.Table.Generic.Valid.{IsValid}
use index_zoo.Table.Numeric.{insert_number, number_key, insert_number_reads}
use index_zoo.Dynamic.ArtTreeMulti.{tid_of, offset_of, load_key, load_key_internal}

tid-offset : (offset : ℕ) → offset < word → offset_of (tid_of offset) ≡ offset
tid-offset offset h = omega arith

module _ (size key offset : ℕ) (table : GenericDataTable) (is_word : offset < word)
    (reads : number_key table (block_id offset) (rel_offset offset) ≡ done key) where
  -- For a tuple whose key is `key`, the tree reads from the table the very bytes that `insert` gave it.
  pub loads_same : load_key_internal size table (tid_of offset) ≡ done (load_key size key)
  unfolding load_key_internal load_key
  loads_same = rw (tid-offset offset is_word, reads) refl

module _ (t : GenericDataTable) (v : IsValid t) (key value : ℕ)
    (fits_key : key < 256 ^ t.max_key_size) (fits_value : value < 256 ^ t.max_value_size)
    (few : length t.data_blocks < 2 ^ 40) where
  -- After an insertion of a key and a value that fit in their sizes into a valid table with fewer than
  -- 2^40 blocks, `load_key_internal` for the number that the index keeps for the offset reads from the
  -- table the bytes that `load_key` makes of the key: the tree finds the key that it was given.
  pub inserted_loads :
      (fuel : ℕ)
      → Returns (insert_number (suc fuel) t key value) (λ r.
        load_key_internal t.max_key_size r.0 (tid_of r.1) ≡ done (load_key t.max_key_size key))
  inserted_loads fuel =
      Returns-map (insert_number (suc fuel) t key value)
        (λ r h. loads_same t.max_key_size key r.1 r.0 h.1 h.2)
        (insert_number_reads t v key value fits_key fits_value few fuel)
