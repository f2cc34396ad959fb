-- ===== src/Dynamic/Libcuckoo.antt =====
-- `LibcuckooIndex` and `LibcuckooGenericIndex` (src/dynamic_index/multithread/libcuckoo_index.h and
-- libcuckoo_generic_index.h), which have the same text up to the key type and to the macro in `find_range`.
pub mod Laws
use index_zoo.Base.{
  ℕ, ◌+◌, ◌-◌, ◌≡◌, refl, List, [], ◌∷◌, ◌++◌, Option, none, some, Bool, true, false, if◌then◌else◌,
  Run, done, assert, ◌>>=◌, ◌>>◌,
}
use index_zoo.Dynamic.Keys.{Keys}

-- What `upsert` leaves under the key: `fresh`, or the value changed by `change`.
abbrev pub upserted : (List ℕ → List ℕ) → List ℕ → Option (List ℕ) → List ℕ
upserted change fresh none = fresh
upserted change fresh (some v) = change v

-- What `find(key, val)` leaves in `val`.
abbrev pub assigned : List ℕ → Option (List ℕ) → List ℕ
assigned val none = val
assigned val (some v) = v

abbrev pub one_if_none : Option (List ℕ) → ℕ
one_if_none none = 1
one_if_none (some v) = 0

-- `cuckoohash_map<KeyT, std::vector<Uint64>>`, with the documented behaviour of its operations.
-- `lookup` observes the vector that is stored under a key.
pub record HashMap (keys : Keys) : Type 1 where
  pub Container : Type 0
  pub empty : Container
  pub upsert : Container → keys.Key → (List ℕ → List ℕ) → List ℕ → Container
  pub find : Container → keys.Key → List ℕ → List ℕ
  pub erase : Container → keys.Key → Container
  pub size : Container → ℕ
  pub lookup : Container → keys.Key → Option (List ℕ)
  pub lookup-empty : (k : keys.Key) → lookup empty k ≡ none
  pub lookup-upsert :
      (c : Container) (k j : keys.Key) (change : List ℕ → List ℕ) (fresh : List ℕ)
      → lookup (upsert c k change fresh) j
        ≡ (if keys.equals k j then some (upserted change fresh (lookup c k)) else lookup c j)
  pub lookup-erase :
      (c : Container) (k j : keys.Key)
      → lookup (erase c k) j ≡ (if keys.equals k j then none else lookup c j)
  pub find-lookup :
      (c : Container) (k : keys.Key) (val : List ℕ) → find c k val ≡ assigned val (lookup c k)
  pub size-upsert :
      (c : Container) (k : keys.Key) (change : List ℕ → List ℕ) (fresh : List ℕ)
      → size (upsert c k change fresh) ≡ size c + one_if_none (lookup c k)

-- A function from keys to vectors, with a count of the keys, has this behaviour.
abbrev pub by_function : (keys : Keys) → HashMap keys
by_function keys = record {
  Container = (keys.Key → Option (List ℕ)) × ℕ;
  empty = (λ k. none, 0);
  upsert = λ c k change fresh. (
    λ j. if keys.equals k j then some (upserted change fresh (c.0 k)) else c.0 j,
    c.1 + one_if_none (c.0 k),
  );
  find = λ c k val. assigned val (c.0 k);
  erase = λ c k. (λ j. if keys.equals k j then none else c.0 j, c.1 - 1 + one_if_none (c.0 k));
  size = λ c. c.1;
  lookup = λ c k. c.0 k;
  lookup-empty = λ k. refl;
  lookup-upsert = λ c k j change fresh. refl;
  lookup-erase = λ c k j. refl;
  find-lookup = λ c k val. refl;
  size-upsert = λ c k change fresh. refl;
}

module _ (keys : Keys) (library : HashMap keys) where
  open keys use {Key}
  open library use {Container}

  -- `insert(key, offset)`, with the lambda that appends and the arguments of the new vector.
  unfoldable pub insert : Container → Key → ℕ → Container
  insert container key offset =
      library.upsert container key (λ vec. vec ++ offset ∷ []) (offset ∷ [])

  -- `find(key, offsets)`
  unfoldable pub find : Container → Key → List ℕ → Run (List ℕ)
  find container key offsets = done (library.find container key offsets)

  -- `find_range(lhs_key, rhs_key, offsets)`
  unfoldable pub find_range : Container → Key → Key → List ℕ → Run (List ℕ)
  find_range container lhs_key rhs_key offsets = assert false >> done offsets

  -- `erase(key)`
  unfoldable pub erase : Container → Key → Container
  erase container key = library.erase container key

  -- `size()`
  unfoldable pub size : Container → ℕ
  size container = library.size container
