-- ===== src/Examples/Threads.antt =====
-- Interleavings of calls of `insert_tuple` (src/generic_data_table.h) and `get_next_key`
-- (src/sequence_key_generator.h), and the choice of an index (src/index_all.h).
use index_zoo.Base.{pos, arith, ℕ, ◌+◌, ◌<◌, ◌≡◌, ◌≢◌, ◌↔◌, refl, [], ◌∷◌, fail, trap, negsuc, done}
use index_zoo.Table.Concurrent.{
  World, loaded, holding, growing, returned, start, set_at, load, take, copy, copy_last, Reach,
  here, next,
}
use index_zoo.Table.Concurrent.Kept.{slot}
use index_zoo.Table.Offset.{word}
use index_zoo.Table.Concurrent.Slots.{returned_apart, one_grows}
use index_zoo.Table.Concurrent.Progress.{CanReturn, call-CanReturn}
use index_zoo.KeyGenerator as KeyGenerator
use index_zoo.KeyGenerator.{
  call_all, get_next_key, refilled, fetched, UniformKeyGenerator, next_uniform_key, uniform_type,
  validate_key_generator_params,
}
use index_zoo.KeyGenerator.Distinct.{AllDistinct, sequence_keys-AllDistinct}
use index_zoo.IndexSelection.{get_index_name, validate_index_params, create_numeric_index, accepted}
use index_zoo.IndexSelection.Checks.{CannotCreate, accepted_created}

-- Two calls load the block, take its two slots in turn and finish, the one with the last slot half way.
abbrev one_loaded : World
one_loaded = record start { phases = set_at start.phases 1 (loaded 0) }

abbrev both_loaded : World
both_loaded = record one_loaded { phases = set_at one_loaded.phases 2 (loaded 0) }

abbrev one_taken : World
one_taken = record both_loaded {
  next_rel_offsets = set_at both_loaded.next_rel_offsets 0 1;
  phases = set_at both_loaded.phases 1 (holding 0 0);
}

abbrev both_taken : World
both_taken = record one_taken {
  next_rel_offsets = set_at one_taken.next_rel_offsets 0 2;
  phases = set_at one_taken.phases 2 (holding 0 1);
}

abbrev one_returned : World
one_returned = record both_taken { phases = set_at both_taken.phases 1 (returned 0 0) }

abbrev both_returned : World
both_returned = record one_returned { phases = set_at one_returned.phases 2 (returned 0 1) }

abbrev one_growing : World
one_growing = record one_returned { phases = set_at one_returned.phases 2 (growing 0 1) }

reach_one_returned : (cap : ℕ) → 1 < cap → Reach cap one_returned
reach_one_returned cap room =
    next
      (next
        (next (next (next here 1 (load refl refl)) 2 (load refl refl)) 1
          (take 0 refl (omega arith) refl))
        2 (take 0 refl room refl))
      1 (copy 0 0 refl (omega arith) refl)

reach_both_returned : Reach 3 both_returned
reach_both_returned = next (reach_one_returned 3 (omega arith)) 2 (copy 0 1 refl (omega arith) refl)

reach_one_growing : Reach 2 one_growing
reach_one_growing = next (reach_one_returned 2 (omega arith)) 2 (copy_last 0 1 refl refl refl)

returned_apart_example : (slot 0 0 ≢ slot 0 1) × (0 < 1) × (0 < 3)
returned_apart_example =
    returned_apart 3 both_returned reach_both_returned 1 2 (omega arith) 0 0 0 1 refl refl

small_counts : (b : ℕ) → one_growing.next_rel_offsets b + 1 < word
small_counts b = ground arith

one_grows_example : ¬ (one_growing.phases 1 ≡ growing 0 0)
one_grows_example = one_grows 2 one_growing reach_one_growing 2 1 (omega arith) 0 1 0 0 refl

-- The block is full, the call 2 is to extend the table, and the call 3 has not begun.
call-CanReturn_example : CanReturn 2 one_growing 3
call-CanReturn_example = call-CanReturn 2 one_growing 3 (omega arith) reach_one_growing small_counts

sequence_keys-AllDistinct_example : AllDistinct (call_all (0 ∷ 1 ∷ 0 ∷ []) KeyGenerator.start).1
sequence_keys-AllDistinct_example = sequence_keys-AllDistinct (0 ∷ 1 ∷ 0 ∷ []) (omega arith)

three_keys : (call_all (0 ∷ 1 ∷ 0 ∷ []) KeyGenerator.start).1 ≡ 0 ∷ 1024 ∷ 1 ∷ []
unfolding call_all get_next_key refilled fetched
three_keys = refl

no_segments_accepted : validate_index_params 20 (pos 0) (negsuc 0) ≡ done accepted
unfolding validate_index_params get_index_name
no_segments_accepted = refl

accepted_created_example :
    (create_numeric_index 8 20 (pos 0) (negsuc 0) ≡ fail trap) ↔ CannotCreate 8 20 (pos 0)
accepted_created_example = accepted_created 8 20 (pos 0) (negsuc 0) no_segments_accepted
