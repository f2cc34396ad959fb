-- ===== src/KeyGenerator/Generic.antt =====
-- The generator of keys of any length, `SyntheticGenericKeyGenerator`
-- (src/synthetic_generic_key_generator.h), and its choice (src/generic_key_generator_all.h).
use index_zoo.Base.{
  arith, ℕ, ◌≤◌, ◌≡◌, refl, List, length, some, true, false, leb, le→leb, if◌then◌else◌, ◌==◌, Run,
  done, fail, trap, assert, Returns, Returns-bind, ◌>>=◌, ◌>>◌,
}
use index_zoo.FastRandom.{set_seed0, next_readable_string}
use index_zoo.FastRandom.Strings.{all_readable, next_readable_string-readable}
use index_zoo.GenericKey.{GenericKey, bytes, empty_key, zero_key, resize}

-- The members of a `SyntheticGenericKeyGenerator`.
pub record SyntheticGenericKeyGenerator : Type 0 where
  pub seed : ℕ
  pub key_size : ℕ

-- The constructor.
unfoldable pub new_synthetic : ℕ → ℕ → SyntheticGenericKeyGenerator
new_synthetic thread_id key_size = record { seed = set_seed0 thread_id; key_size = key_size }

-- `next_readable_chars(key.size(), key.raw())` writes the whole memory of the key, if it has any.
abbrev pub written : GenericKey → List ℕ → GenericKey
written key chars = if key.data_size == 0 then key else record key { raw = some chars }

-- `get_next_key(key)`
unfoldable pub next_generic_key :
    SyntheticGenericKeyGenerator → GenericKey → Run (SyntheticGenericKeyGenerator × GenericKey)
next_generic_key generator key = resize key generator.key_size >>= λ sized.
    next_readable_string sized.data_size generator.seed >>= λ (drawn : ℕ × List ℕ).
    done (record generator { seed = drawn.0 }, written sized drawn.1)

-- `enum class WorkloadType`
pub data WorkloadType : Type 0 where
  synthetic_type username_type url_type : WorkloadType

-- `construct_generic_key_generator(workload_type, thread_id, key_size)`
unfoldable pub construct_generic_key_generator :
    WorkloadType → ℕ → ℕ → Run SyntheticGenericKeyGenerator
construct_generic_key_generator synthetic_type thread_id key_size =
    assert (leb 8 key_size) >> done (new_synthetic thread_id key_size)
construct_generic_key_generator username_type thread_id key_size = fail trap
construct_generic_key_generator url_type thread_id key_size = fail trap

-- The key has the size, and every character is readable.
abbrev pub IsReadableKey : ℕ → GenericKey → Type 0
IsReadableKey size key =
    (key.data_size ≡ size) × (length (bytes key.raw) ≡ size) × (all_readable (bytes key.raw) ≡ true)

zero_key-size : (size : ℕ) → (zero_key size).data_size ≡ size
unfolding zero_key
zero_key-size size = ground arith

next_generic_key-readable :
    (generator : SyntheticGenericKeyGenerator)
    → 8 ≤ generator.key_size
    → Returns
        (next_generic_key generator empty_key)
        (λ r. (r.0.key_size ≡ generator.key_size) × IsReadableKey generator.key_size r.1)
unfolding next_generic_key resize
next_generic_key-readable generator long =
    let sized = zero_key generator.key_size in
    let same : sized.data_size ≡ generator.key_size = zero_key-size generator.key_size in
    let some_size : (sized.data_size == 0) ≡ false = ground (arith, same) in
    Returns-bind (λ (y : ℕ × List ℕ). (length y.1 ≡ sized.data_size) × (all_readable y.1 ≡ true))
      (λ (r : SyntheticGenericKeyGenerator × GenericKey).
        (r.0.key_size ≡ generator.key_size) × IsReadableKey generator.key_size r.1)
      (next_readable_string sized.data_size generator.seed)
      (λ (y : ℕ × List ℕ). done (record generator { seed = y.0 }, written sized y.1))
      (next_readable_string-readable sized.data_size generator.seed)
      (λ y h. rw some_size (refl, (same, rw same at h.0, h.1)))

-- For keys of at least 8 bytes a generator is constructed, and every key that it draws, from any seed, into an
-- empty key, has that many bytes, each a digit, a letter, `@` or `_`.
pub synthetic_keys_readable :
    (thread_id key_size seed : ℕ)
    → 8 ≤ key_size
    → Returns
        (construct_generic_key_generator synthetic_type thread_id key_size >>= λ generator.
          next_generic_key (record generator { seed = seed }) empty_key)
        (λ r. (r.0.key_size ≡ key_size) × IsReadableKey key_size r.1)
unfolding construct_generic_key_generator new_synthetic
synthetic_keys_readable thread_id key_size seed long =
    rw (le→leb 8 key_size long)
      (next_generic_key-readable (record { seed = seed; key_size = key_size }) long)

-- A key that has memory cannot be drawn into again: `resize` ends in its ASSERT.
full_key_traps :
    (generator : SyntheticGenericKeyGenerator) (chars : List ℕ) (size : ℕ)
    → next_generic_key generator (record { raw = some chars; data_size = size }) ≡ fail trap
unfolding next_generic_key resize
full_key_traps generator chars size = refl
