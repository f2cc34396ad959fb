-- ===== src/Dynamic/StxBtree.antt =====
-- `StxBtreeIndex` and `StxBtreeGenericIndex` (src/dynamic_index/singlethread/stx_btree_index.h and
-- stx_btree_generic_index.h), which have the same text up to the key type.
pub mod Laws
pub mod Scans
pub mod Contract
pub mod Sorted
use index_zoo.Base.{
  ℕ, zero, suc, ◌+◌, ◌≤◌, ◌<◌, ◌≡◌, List, [], ◌∷◌, ◌++◌, length, get_elem?, some, Bool, true, false,
  ltb, ◌==◌, if◌then◌else◌, Run, done, fail, no_fuel, at, ◌>>=◌, Perm,
}
use index_zoo.Dynamic.Keys.{Keys}
use index_zoo.Dynamic.Spec.{Entries, without}

-- An iterator is its distance from `begin()`.
pub record IsLowerBound (keys : Keys) (entries : List (keys.Key × ℕ)) (k : keys.Key) (i : ℕ)
    : Type 0 where
  pub inside : i ≤ length entries
  pub below :
      (j : ℕ) (x : keys.Key × ℕ) → get_elem? entries j ≡ some x → j < i → keys.less x.0 k ≡ true
  pub above :
      (j : ℕ) (x : keys.Key × ℕ) → get_elem? entries j ≡ some x → i ≤ j → keys.less x.0 k ≡ false

pub record IsUpperBound (keys : Keys) (entries : List (keys.Key × ℕ)) (k : keys.Key) (i : ℕ)
    : Type 0 where
  pub inside : i ≤ length entries
  pub below :
      (j : ℕ) (x : keys.Key × ℕ) → get_elem? entries j ≡ some x → j < i → keys.less k x.0 ≡ false
  pub above :
      (j : ℕ) (x : keys.Key × ℕ) → get_elem? entries j ≡ some x → i ≤ j → keys.less k x.0 ≡ true

-- The entries are in the order of their keys.
abbrev pub IsOrdered : (keys : Keys) → List (keys.Key × ℕ) → Type 0
IsOrdered keys entries =
    (i j : ℕ) (x y : keys.Key × ℕ)
    → i ≤ j
    → get_elem? entries i ≡ some x
    → get_elem? entries j ≡ some y
    → keys.less y.0 x.0 ≡ false

-- `stx::btree_multimap`, with the documented behaviour of its operations: the entries from `begin()` to
-- `end()` are in the order of their keys.
pub record Multimap (keys : Keys) : Type 1 where
  pub Container : Type 0
  pub empty : Container
  pub insert : Container → keys.Key × ℕ → Container
  pub erase : Container → keys.Key → Container
  pub size : Container → ℕ
  pub lower_bound : Container → keys.Key → ℕ
  pub upper_bound : Container → keys.Key → ℕ
  pub equal_range : Container → keys.Key → ℕ × ℕ
  pub entries : Container → List (keys.Key × ℕ)
  pub ordered : (c : Container) → IsOrdered keys (entries c)
  pub empty-entries : entries empty ≡ []
  pub insert-perm : (c : Container) (x : keys.Key × ℕ) → Perm (entries (insert c x)) (x ∷ entries c)
  pub erase-entries :
      (c : Container) (k : keys.Key) → entries (erase c k) ≡ without keys k (entries c)
  pub size-entries : (c : Container) → size c ≡ length (entries c)
  pub lower_bound-IsLowerBound :
      (c : Container) (k : keys.Key) → IsLowerBound keys (entries c) k (lower_bound c k)
  pub upper_bound-IsUpperBound :
      (c : Container) (k : keys.Key) → IsUpperBound keys (entries c) k (upper_bound c k)
  pub equal_range-eq :
      (c : Container) (k : keys.Key) → equal_range c k ≡ (lower_bound c k, upper_bound c k)

module _ (keys : Keys) where
  open keys use {Key, less, equals}

  -- `for (it = ...; it != stop; ++it) offsets.push_back(it->second)`, on fuel.
  unfoldable pub copy_from : ℕ → Entries keys → ℕ → ℕ → List ℕ → Run (List ℕ)
  copy_from zero entries it stop offsets = fail no_fuel
  copy_from (suc fuel) entries it stop offsets = elim (it == stop) [
    | true ↦ done offsets
    | false ↦ at entries it >>= λ x. copy_from fuel entries (it + 1) stop (offsets ++ x.1 ∷ [])
  ]

  -- The loop of `scan(key, offsets)`.
  unfoldable pub scan_from : Entries keys → Key → List ℕ → List ℕ
  scan_from [] key offsets = offsets
  scan_from (x ∷ entries) key offsets =
      let pushed = if equals x.0 key then offsets ++ x.1 ∷ [] else offsets in
      let rest = scan_from entries key pushed in if less key x.0 then pushed else rest

  -- The loop of `scan_full(offsets, count)`, with its counter.
  unfoldable pub scan_full_from : Entries keys → ℕ → ℕ → List ℕ → List ℕ
  scan_full_from [] i count offsets = offsets
  scan_full_from (x ∷ entries) i count offsets =
      let rest = scan_full_from entries (i + 1) count (offsets ++ x.1 ∷ []) in
      if ltb i count then rest else offsets

module _ (keys : Keys) (library : Multimap keys) where
  open keys use {Key, less, equals}
  open library use {Container}

  -- `insert(key, offset)`
  unfoldable pub insert : Container → Key → ℕ → Container
  insert container key offset = library.insert container (key, offset)

  -- `find(key, offsets)`
  unfoldable pub find : Container → Key → List ℕ → Run (List ℕ)
  find container key offsets =
      let ret = library.equal_range container key in
      let entries = library.entries container in
      copy_from keys (length entries + 1) entries ret.0 ret.1 offsets

  -- `find_range(lhs_key, rhs_key, offsets)`
  unfoldable pub find_range : Container → Key → Key → List ℕ → Run (List ℕ)
  find_range container lhs_key rhs_key offsets = elim (less rhs_key lhs_key) [
    | true ↦ done offsets
    | false ↦ elim (equals lhs_key rhs_key) [
      | true ↦ find container lhs_key offsets
      | false ↦
          let entries = library.entries container in
          copy_from keys (length entries + 1) entries (library.lower_bound container lhs_key)
            (library.upper_bound container rhs_key) offsets
    ]
  ]

  -- `scan(key, offsets)`
  unfoldable pub scan : Container → Key → List ℕ → List ℕ
  scan container key offsets = scan_from keys (library.entries container) key offsets

  -- `scan_reverse(key, offsets)`, with an empty body.
  unfoldable pub scan_reverse : Container → Key → List ℕ → List ℕ
  scan_reverse container key offsets = offsets

  -- `scan_full(offsets, count)`
  unfoldable pub scan_full : Container → List ℕ → ℕ → List ℕ
  scan_full container offsets count =
      scan_full_from keys (library.entries container) 0 count offsets

  -- `erase(key)`
  unfoldable pub erase : Container → Key → Container
  erase container key = library.erase container key

  -- `size()`
  unfoldable pub size : Container → ℕ
  size container = library.size container
