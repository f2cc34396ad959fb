-- ===== src/Examples/Blocks.antt =====
-- Tests of the SIMD blocks of the FAST index (src/static_index/fast_index.h).
use index_zoo.Base.{arith, ℕ, ◌+◌, ◌≡◌, refl, List, [], ◌∷◌, done, Returns}
use index_zoo.Static.Fast.{construct_simd_block, lookup_simd_block, step_of}
use index_zoo.Static.Fast.Simd.{is_below, lookup_simd_block-negative}
use index_zoo.Static.Fast.Block.{construct-lookup}
use index_zoo.Examples.Binaries.{pair, three, three-IsSorted}

abbrev block : List ℕ
block = 20 ∷ 10 ∷ 30 ∷ 0 ∷ []

lookup_simd_block-negative_example : lookup_simd_block block 3000000000 0 ≡ done 0
lookup_simd_block-negative_example =
    lookup_simd_block-negative block 3000000000 0 10 20 30 0 refl refl refl refl (omega arith)
      (omega arith) (omega arith) (omega arith) (omega arith)

one_step : step_of 0 3 4 ≡ 1
one_step = omega arith

construct-lookup_example :
    Returns
      (construct_simd_block three 0 0 3 (0 ∷ 0 ∷ 0 ∷ 0 ∷ []))
      (λ ns. lookup_simd_block ns 20 0 ≡ done (is_below 20 10 + is_below 20 20 + is_below 20 30))
construct-lookup_example =
    construct-lookup three three-IsSorted (omega arith) 0 3 1 one_step (omega arith) (omega arith)
      (0 ∷ 0 ∷ 0 ∷ 0 ∷ []) 0 (omega arith) (pair 10 100) (pair 20 200) (pair 30 300) refl refl refl
      20 (omega arith) (omega arith)
