-- ===== src/IndexSelection/Checks.antt =====
-- What the checks of the parameters in src/index_all.h let through.
use index_zoo.Base.{
  arith, ℕ, ◌≡◌, ◌≢◌, ◌⊎◌, ◌↔◌, refl, done, fail, trap, ℤ, pos, negsuc, to_size, Returns,
}
use index_zoo.Static.KAry as KAry
use index_zoo.Static.KAry.{KAryIndex}
use index_zoo.Static.Interpolation as Interpolation
use index_zoo.Static.Fast as Fast
use index_zoo.IndexSelection.{
  accepted, get_index_name, validate_index_params, create_numeric_index, d_st_sd_tree,
  s_interpolation, s_kary, s_fast,
}

-- What the check of the parameters lets pass although the index cannot be made.
abbrev pub CannotCreate : ℕ → ℕ → ℤ → Type 0
CannotCreate key_size index_type index_param_1 =
    (index_type ≡ d_st_sd_tree)
    ⊎ ((index_type ≡ s_interpolation) × (to_size index_param_1 ≡ 0))
    ⊎ ((index_type ≡ s_fast) × (key_size ≢ 4))

-- Of what the check of the parameters accepts, exactly these end in an ASSERT when they are created as indexes
-- over keys of `key_size` bytes: the type `D_ST_SdTree`, an interpolation index of no segments, and a FAST
-- index over keys that are not of 4 bytes.
pub accepted_created :
    (key_size index_type : ℕ) (index_param_1 index_param_2 : ℤ)
    → validate_index_params index_type index_param_1 index_param_2 ≡ done accepted
    → (create_numeric_index key_size index_type index_param_1 index_param_2 ≡ fail trap)
      ↔ CannotCreate key_size index_type index_param_1
unfolding validate_index_params create_numeric_index get_index_name Interpolation.new_index
    KAry.new_index Fast.new_index
accepted_created key_size index_type (pos n) (pos k) ok = (ground arith, ground arith)
accepted_created key_size index_type (pos n) (negsuc k) ok = (ground arith, ground arith)
accepted_created key_size index_type (negsuc n) (pos k) ok = (ground arith, ground arith)
accepted_created key_size index_type (negsuc n) (negsuc k) ok = (ground arith, ground arith)

-- A k-ary index that the check of the parameters accepts is constructed: no ASSERT of the constructor
-- fails, and it has as many layers and arys as the two numbers say, if the first is not negative.
pub accepted_kary :
    (layers : ℕ) (index_param_2 : ℤ)
    → validate_index_params s_kary (pos layers) index_param_2 ≡ done accepted
    → Returns
        (KAry.new_index (to_size (pos layers)) (to_size index_param_2))
        (λ index. (index.num_layers ≡ layers) × (pos index.num_arys ≡ index_param_2))
unfolding validate_index_params KAry.new_index
accepted_kary layers (pos n) ok = ground arith
accepted_kary layers (negsuc n) ok = ground arith

-- The check accepts any number of segments but -1, also 0, at which the constructor ends in its ASSERT.
zero_segments :
    (index_param_2 : ℤ)
    → (validate_index_params s_interpolation (pos 0) index_param_2 ≡ done accepted)
      × (Interpolation.new_index (to_size (pos 0)) ≡ fail trap)
unfolding validate_index_params Interpolation.new_index
zero_segments index_param_2 = (refl, refl)
