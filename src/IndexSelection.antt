-- ===== src/IndexSelection.antt =====
-- The choice of an index (src/index_all.h). An `IndexType` is a number, since a program makes it from any
-- number that it is given.
pub mod Checks
use index_zoo.Static.Interpolation as Interpolation
use index_zoo.Static.Interpolation.{InterpolationIndex}
use index_zoo.Static.Binary as Binary
use index_zoo.Static.Binary.{BinaryIndex}
use index_zoo.Static.KAry as KAry
use index_zoo.Static.KAry.{KAryIndex}
use index_zoo.Static.Fast as Fast
use index_zoo.Static.Fast.{FastIndex}
use Prim.Native.String.{String}
use index_zoo.Base.{
  ℕ, ◌-◌, ◌^◌, ◌≡◌, Bool, true, false, ◌==◌, if◌then◌else◌, Run, done, fail, trap, ℤ, pos, negsuc,
  ltb_ℤ, to_size, ◌>>=◌,
}

-- `enum class IndexType`
abbrev pub d_st_stx_btree : ℕ
d_st_stx_btree = 0

abbrev pub d_st_art_tree : ℕ
d_st_art_tree = 1

abbrev pub d_st_sd_tree : ℕ
d_st_sd_tree = 2

abbrev pub d_mt_libcuckoo : ℕ
d_mt_libcuckoo = 10

abbrev pub d_mt_art_tree : ℕ
d_mt_art_tree = 11

abbrev pub d_mt_bw_tree : ℕ
d_mt_bw_tree = 12

abbrev pub d_mt_masstree : ℕ
d_mt_masstree = 13

abbrev pub s_interpolation : ℕ
s_interpolation = 20

abbrev pub s_binary : ℕ
s_binary = 21

abbrev pub s_kary : ℕ
s_kary = 22

abbrev pub s_fast : ℕ
s_fast = 23

-- `get_index_name(index_type)`
unfoldable pub get_index_name : ℕ → Run String
get_index_name index_type =
    if index_type == s_interpolation
    then done "static - interpolation index"
    else if index_type == s_binary
    then done "static - binary index"
    else if index_type == s_kary
    then done "static - k-ary index"
    else if index_type == s_fast
    then done "static - fast index"
    else if index_type == d_st_stx_btree
    then done "dynamic - singlethread - stx-btree index"
    else if index_type == d_st_art_tree
    then done "dynamic - singlethread - art-tree index"
    else if index_type == d_st_sd_tree
    then done "dynamic - singlethread - approx-tree index"
    else if index_type == d_mt_libcuckoo
    then done "dynamic - multithread - libcuckoo index"
    else if index_type == d_mt_art_tree
    then done "dynamic - multithread - art-tree index"
    else if index_type == d_mt_bw_tree
    then done "dynamic - multithread - bw-tree index"
    else if index_type == d_mt_masstree
    then done "dynamic - multithread - masstree index"
    else fail trap

-- `INVALID_INDEX_PARAM`, and the tests on the parameters, which are `int`s.
abbrev pub is_unset : ℤ → Bool
is_unset (pos n) = false
is_unset (negsuc n) = n == 0

abbrev pub below_two : ℤ → Bool
below_two param = ltb_ℤ param (pos 2)

-- What `validate_index_params` does: it returns, or exits with an error.
pub data Checked : Type 0 where
  accepted : Checked
  exits : Checked

-- `validate_index_params(index_type, index_param_1, index_param_2)`
unfoldable pub validate_index_params : ℕ → ℤ → ℤ → Run Checked
validate_index_params index_type index_param_1 index_param_2 =
    if index_type == s_interpolation
    then done (if is_unset index_param_1 then exits else accepted)
    else if index_type == s_binary
    then done (if is_unset index_param_1 then exits else accepted)
    else if index_type == s_kary
    then done (
        if is_unset index_param_1
        then exits
        else if is_unset index_param_2
        then exits
        else if below_two index_param_2
        then exits
        else accepted)
    else if index_type == s_fast
    then done (if is_unset index_param_1 then exits else accepted)
    else (elim (get_index_name index_type) [ done name ↦ done accepted | fail f ↦ fail f ])

-- The indexes over numbers. Of the dynamic indexes, whose constructors only make an empty container, it is
-- the class that is kept.
pub data NumericIndex : Type 0 where
  interpolation : InterpolationIndex → NumericIndex
  binary : BinaryIndex → NumericIndex
  kary : KAryIndex → NumericIndex
  fast : FastIndex → NumericIndex
  stx_btree art_tree libcuckoo art_tree_multi bw_tree masstree : NumericIndex

-- `create_numeric_index(index_type, table_ptr, index_param_1, index_param_2)`, for keys of `key_size` bytes,
-- with the constructors of the static indexes, whose ASSERTs can fail.
unfoldable pub create_numeric_index : ℕ → ℕ → ℤ → ℤ → Run NumericIndex
create_numeric_index key_size index_type index_param_1 index_param_2 =
    if index_type == s_interpolation
    then (Interpolation.new_index (to_size index_param_1) >>= λ index. done (interpolation index))
    else if index_type == s_binary
    then done (binary (Binary.new_index (to_size index_param_1)))
    else if index_type == s_kary
    then (KAry.new_index (to_size index_param_1) (to_size index_param_2) >>= λ index.
        done (kary index))
    else if index_type == s_fast
    then (Fast.new_index key_size (to_size index_param_1) >>= λ index. done (fast index))
    else if index_type == d_st_stx_btree
    then done stx_btree
    else if index_type == d_st_art_tree
    then done art_tree
    else if index_type == d_mt_libcuckoo
    then done libcuckoo
    else if index_type == d_mt_art_tree
    then done art_tree_multi
    else if index_type == d_mt_bw_tree
    then done bw_tree
    else if index_type == d_mt_masstree
    then done masstree
    else fail trap

-- The classes of indexes over `GenericKey`.
pub data GenericIndex : Type 0 where
  stx_btree art_tree sd_tree libcuckoo art_tree_multi bw_tree masstree : GenericIndex

-- `create_generic_index(index_type, table_ptr)`
unfoldable pub create_generic_index : ℕ → Run GenericIndex
create_generic_index index_type =
    if index_type == d_st_stx_btree
    then done GenericIndex.stx_btree
    else if index_type == d_st_art_tree
    then done GenericIndex.art_tree
    else if index_type == d_st_sd_tree
    then done GenericIndex.sd_tree
    else if index_type == d_mt_libcuckoo
    then done GenericIndex.libcuckoo
    else if index_type == d_mt_art_tree
    then done GenericIndex.art_tree_multi
    else if index_type == d_mt_bw_tree
    then done GenericIndex.bw_tree
    else if index_type == d_mt_masstree
    then done GenericIndex.masstree
    else fail trap
