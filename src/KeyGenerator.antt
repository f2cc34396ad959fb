-- ===== src/KeyGenerator.antt =====
-- The key generators: `SequenceKeyGenerator` (src/sequence_key_generator.h), `UniformKeyGenerator`
-- (src/uniform_key_generator.h) and the checks of src/key_generator_all.h, for 64-bit keys.
pub mod Distinct
pub mod Bounds
pub mod Generic
use index_zoo.Base.{
  ℕ, ◌+◌, ◌%◌, ◌≡◌, List, [], ◌∷◌, Bool, true, false, ◌==◌, if◌then◌else◌, Run, done, fail,
  division_by_zero,
}
use index_zoo.Table.Offset.{word}
use index_zoo.FastRandom.{set_seed0, next_word}

-- `batch_key_count_`
abbrev pub batch_key_count : ℕ
batch_key_count = 1024

-- The members of a `SequenceKeyGenerator`.
pub record SequenceKeyGenerator : Type 0 where
  pub local_curr_key : ℕ
  pub local_max_key : ℕ

-- `global_curr_key_`, which all generators share, and the generator of each thread.
pub record World : Type 0 where
  pub global_curr_key : ℕ
  pub generators : ℕ → SequenceKeyGenerator

abbrev pub start : World
start = record {
  global_curr_key = 0;
  generators = λ thread. record { local_curr_key = 0; local_max_key = 0 };
}

-- The generator after the `if` of `get_next_key()`, with `key` fetched from the counter.
unfoldable pub refilled : ℕ → SequenceKeyGenerator → SequenceKeyGenerator
refilled key generator =
    if generator.local_curr_key == generator.local_max_key
    then record { local_curr_key = key; local_max_key = (key + batch_key_count) % word }
    else generator

-- The counter after the `if`.
unfoldable pub fetched : ℕ → SequenceKeyGenerator → ℕ
fetched key generator =
    if generator.local_curr_key == generator.local_max_key
    then (key + batch_key_count) % word
    else key

-- `get_next_key()` by the thread `thread`. What it does besides `fetch_add` is on members that no
-- other thread uses, so a call is one step.
unfoldable pub get_next_key : World → ℕ → World × ℕ
get_next_key w thread =
    let generator = w.generators thread in
    let r = refilled w.global_curr_key generator in
    (
      record {
        global_curr_key = fetched w.global_curr_key generator;
        generators = λ other.
            if other == thread
            then record {
              local_curr_key = (r.local_curr_key + 1) % word;
              local_max_key = r.local_max_key;
            }
            else w.generators other;
      },
      r.local_curr_key,
    )

-- The calls of a schedule of threads, and the keys that they return.
unfoldable pub call_all : List ℕ → World → World × List ℕ
call_all [] w = (w, [])
call_all (thread ∷ schedule) w =
    let next = get_next_key w thread in
    let rest = call_all schedule next.0 in (rest.0, next.1 ∷ rest.1)

-- The members of a `UniformKeyGenerator`.
pub record UniformKeyGenerator : Type 0 where
  pub upper_bound : ℕ
  pub seed : ℕ

-- The constructor.
unfoldable pub new_uniform : ℕ → ℕ → UniformKeyGenerator
new_uniform thread_id upper_bound = record { upper_bound = upper_bound; seed = set_seed0 thread_id }

-- `get_next_key()`; the flag is the order of the two draws.
unfoldable pub next_uniform_key : Bool → UniformKeyGenerator → Run (UniformKeyGenerator × ℕ)
next_uniform_key left_first generator =
    let drawn = next_word left_first generator.seed in
    if generator.upper_bound == 0
    then fail division_by_zero
    else done (record generator { seed = drawn.0 }, drawn.1 % generator.upper_bound)

-- `enum class DistributionType`
pub data DistributionType : Type 0 where
  sequence_type uniform_type normal_type lognormal_type : DistributionType

-- `validate_key_generator_params`: whether it returns, where it does not it exits. `stddev_unset` is the test
-- `key_stddev == INVALID_KEY_STDDEV`.
unfoldable pub validate_key_generator_params : DistributionType → ℕ → Bool → Bool
validate_key_generator_params sequence_type key_bound stddev_unset = true
validate_key_generator_params uniform_type key_bound stddev_unset =
    if key_bound == 0 then false else true
validate_key_generator_params normal_type key_bound stddev_unset =
    if key_bound == 0 then false else if stddev_unset then false else true
validate_key_generator_params lognormal_type key_bound stddev_unset =
    if key_bound == 0 then false else if stddev_unset then false else true

-- The classes of key generators; the generators of the standard library for the normal and the lognormal
-- distribution are given by the arguments of their constructors.
pub data KeyGenerator (Double : Type 0) : Type 0 where
  sequence : SequenceKeyGenerator → KeyGenerator Double
  uniform : UniformKeyGenerator → KeyGenerator Double
  normal : (thread_id upper_bound : ℕ) → (stddev : Double) → KeyGenerator Double
  lognormal : (thread_id upper_bound : ℕ) → (s : Double) → KeyGenerator Double

-- `construct_key_generator(distribution_type, thread_id, key_bound, key_stddev)`
unfoldable pub construct_key_generator :
    {Double : Type 0} → DistributionType → ℕ → ℕ → Double → KeyGenerator Double
construct_key_generator sequence_type thread_id key_bound key_stddev =
    sequence (record { local_curr_key = 0; local_max_key = 0 })
construct_key_generator uniform_type thread_id key_bound key_stddev =
    uniform (new_uniform thread_id key_bound)
construct_key_generator normal_type thread_id key_bound key_stddev =
    normal thread_id key_bound key_stddev
construct_key_generator lognormal_type thread_id key_bound key_stddev =
    lognormal thread_id key_bound key_stddev
