-- ===== src/Static/Find.antt =====
-- `find` of src/static_index/binary_index.h, kary_index.h and fast_index.h: the three methods have
-- the same text, and call the `find_inner_layers` of their class.
pub mod Range
pub mod By
pub mod Flat
use index_zoo.Base.{
  ℕ, zero, suc, ◌+◌, List, [], ◌∷◌, ◌++◌, length, true, false, ◌==◌, ltb, ◌||◌, if◌then◌else◌, Run,
  done, ◌>>=◌, ℤ, ltb_ℤ, to_size, Bool, not, ◌&&◌,
}
use index_zoo.Static.Entry.{KeyOffsetPair, offsets_of}
use index_zoo.Static.Walk.{collect}
use index_zoo.Static.Search.{find_internal}

-- `for (i = 0; i < size_; ++i) offsets.push_back(container_[i].offset_)`
unfoldable pub push_all : List KeyOffsetPair → List ℕ → List ℕ
push_all [] offsets = offsets
push_all (x ∷ c) offsets = push_all c (offsets ++ x.offset ∷ [])

abbrev pub same_int : ℤ → ℤ → Bool
same_int a b = not (ltb_ℤ a b) && not (ltb_ℤ b a)

-- The part of `find` behind the call of `find_inner_layers`, which returned `first` and `second`.
unfoldable pub find_in_range : List KeyOffsetPair → ℕ → ℤ × ℤ → List ℕ → Run (List ℕ)
find_in_range c key (first, second) offsets = do
  offset_find ←
      (if same_int first second
        then done (to_size first)
        else find_internal (length c + 2) c key first second)
  if offset_find == length c then done offsets else collect c key offset_find offsets

unfoldable pub find_by : List KeyOffsetPair → ℕ → ℕ → (ℕ → Run (ℤ × ℤ)) → ℕ → List ℕ → Run (List ℕ)
find_by c key_min key_max find_inner_layers key offsets =
    if length c == 0
    then done offsets
    else if ltb key_max key || ltb key key_min
    then done offsets
    else if key_max == key_min
    then (if key_max == key then done (push_all c offsets) else done offsets)
    else (find_inner_layers key >>= λ range. find_in_range c key range offsets)
