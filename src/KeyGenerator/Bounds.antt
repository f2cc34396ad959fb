-- ===== src/KeyGenerator/Bounds.antt =====
-- The keys of src/uniform_key_generator.h, with the check of its bound in src/key_generator_all.h.
use native.Mathlib.Nat.{mod-lt}
use index_zoo.Base.{arith, ℕ, ◌<◌, ◌≡◌, ◌≢◌, Bool, true, false, ◌==◌, Returns}
use index_zoo.KeyGenerator.{
  UniformKeyGenerator, next_uniform_key, uniform_type, validate_key_generator_params,
}

-- If the check of the parameters of a uniform generator lets a bound pass, a generator with the bound
-- returns a key at every call, below the bound, and keeps its bound.
pub next_uniform_key-lt :
    (key_bound : ℕ) (stddev_unset left_first : Bool) (generator : UniformKeyGenerator)
    → validate_key_generator_params uniform_type key_bound stddev_unset ≡ true
    → generator.upper_bound ≡ key_bound
    → Returns
        (next_uniform_key left_first generator)
        (λ r. (r.1 < key_bound) × (r.0.upper_bound ≡ key_bound))
unfolding next_uniform_key validate_key_generator_params
next_uniform_key-lt key_bound stddev_unset left_first generator checked same =
    let some_bound : generator.upper_bound ≢ 0 = ground arith in
    let test : (generator.upper_bound == 0) ≡ false = ground arith in
    rw test (rw (← same) (mod-lt _ (omega arith)), same)
