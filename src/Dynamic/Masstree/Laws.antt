-- ===== src/Dynamic/Masstree/Laws.antt =====
-- What `find` of src/dynamic_index/multithread/masstree_index.h finds, and the numbers of its threads.
use mathlib.Core.List.{append-nil}
use index_zoo.Base.{
  arith, ℕ, ◌+◌, ◌<◌, ◌^◌, ◌≡◌, refl, sym, ap, ◌∙◌, List, [], ◌∷◌, ◌++◌, Option, none, some, ◌==◌,
  if◌then◌else◌, Bool-cases, ◌⊎◌, inl, inr, ℕ_discrete,
}
use index_zoo.Table.Numeric.{from_bytes-to_bytes}
use index_zoo.Dynamic.Keys.Bytes.{same_bytes}
use index_zoo.Dynamic.Masstree.{
  Row, Library, MasstreeIndex, insert, find, pushed, Threads, register_thread,
}

module _ (library : Library) (Key : Type 0) (raw : Key → List ℕ) where
  open library use {Table}

  -- Inserts the pairs from the first to the last.
  unfoldable pub insert_all : List (Key × ℕ) → MasstreeIndex Table → MasstreeIndex Table
  insert_all [] index = index
  insert_all (x ∷ m) index = insert_all m (insert library Key raw index x.0 x.1)

  abbrev pub AllOffsets : List (Key × ℕ) → Type 0
  AllOffsets [] = Unit
  AllOffsets (x ∷ m) = (x.1 < 256 ^ 8) × AllOffsets m

  -- The offset that was inserted last with the key, or what was found before.
  abbrev pub last_for : Key → List (Key × ℕ) → List ℕ → List ℕ
  last_for key [] before = before
  last_for key (x ∷ m) before =
      last_for key m (if same_bytes (raw x.0) (raw key) then x.1 ∷ [] else before)

  abbrev found : MasstreeIndex Table → Key → List ℕ
  found index key = pushed [] (library.lookup index.container (raw key))

  found-insert :
      (index : MasstreeIndex Table) (x : Key × ℕ) (key : Key)
      → x.1 < 256 ^ 8
      → found (insert library Key raw index x.0 x.1) key
        ≡ (if same_bytes (raw x.0) (raw key) then x.1 ∷ [] else found index key)
  unfolding insert
  found-insert index x key h =
      ap (pushed []) (library.lookup-assign index.container (raw x.0) (raw key) _)
      ∙ elim (Bool-cases (same_bytes (raw x.0) (raw key))) [
        | inl t ↦ rw t (ap (λ n. n ∷ []) (from_bytes-to_bytes 8 x.1 h))
        | inr f ↦ rw f refl
      ]

  found-insert_all :
      (m : List (Key × ℕ)) (index : MasstreeIndex Table) (key : Key)
      → AllOffsets m
      → found (insert_all m index) key ≡ last_for key m (found index key)
  unfolding insert_all
  found-insert_all [] index key small = refl
  found-insert_all (x ∷ m) index key small =
      found-insert_all m (insert library Key raw index x.0 x.1) key small.1
      ∙ ap (last_for key m) (found-insert index x key small.0)

  find-found :
      (index : MasstreeIndex Table) (key : Key) (out : List ℕ)
      → find library Key raw index key out ≡ out ++ found index key
  unfolding find
  find-found index key out = go (library.lookup index.container (raw key))
    where
      go : (o : Option Row) → pushed out o ≡ out ++ pushed [] o
      go none = sym (append-nil out)
      go (some row) = refl

  -- After any insertions of 64-bit offsets into a new index, `find` adds one offset, that of the last
  -- insertion with the key, or nothing if there was none: an insertion replaces the offset of the key.
  pub masstree_find-last :
      (m : List (Key × ℕ)) (index : MasstreeIndex Table) (key : Key) (out : List ℕ)
      → index.container ≡ library.initial
      → AllOffsets m
      → find library Key raw (insert_all m index) key out ≡ out ++ last_for key m []
  masstree_find-last m index key out fresh small =
      find-found (insert_all m index) key out
      ∙ ap (λ l. out ++ l)
          (found-insert_all m index key small
            ∙ ap (last_for key m) (
                ap (λ t. pushed [] (library.lookup t (raw key))) fresh
                ∙ ap (pushed []) (library.lookup-initial (raw key))))

-- Each number was given to one thread at most, and the counter is past them all.
pub record IsRegistry (threads : Threads) : Type 0 where
  pub below : (thread i : ℕ) → threads.infos thread ≡ some i → i < threads.idx
  pub distinct :
      (thread other i : ℕ)
      → threads.infos thread ≡ some i
      → threads.infos other ≡ some i
      → thread ≡ other

register_known :
    (threads : Threads) (thread info : ℕ)
    → threads.infos thread ≡ some info
    → register_thread threads thread ≡ threads
unfolding register_thread
register_known threads thread info e = rw (e, register_thread) refl

register_new :
    (threads : Threads) (thread : ℕ)
    → threads.infos thread ≡ none
    → register_thread threads thread ≡ record {
      infos = λ other. if other == thread then some threads.idx else threads.infos other;
      idx = threads.idx + 1;
    }
unfolding register_thread
register_new threads thread e = rw (e, register_thread) refl

module _ (threads : Threads) (r : IsRegistry threads) (thread : ℕ)
    (fresh : threads.infos thread ≡ none) where
  -- Who has the number `i` once `thread` is registered: `thread` the next one, the others as before.
  owner :
      (other i : ℕ)
      → (if other == thread then some threads.idx else threads.infos other) ≡ some i
      → ((other ≡ thread) × (i ≡ threads.idx))
        ⊎ ((threads.infos other ≡ some i) × (i < threads.idx))
  owner other i e = elim (ℕ_discrete other thread) [
    | yes same ↦ inl (same, ground arith)
    | no differ ↦
        let old : threads.infos other ≡ some i = ground arith in inr (old, r.below other i old)
  ]

  new-IsRegistry : IsRegistry (register_thread threads thread)
  new-IsRegistry = rw (register_new threads thread fresh) (record {
    below = λ other i e. elim (owner other i e) [
      | inl (same, next) ↦ omega arith
      | inr (old, less) ↦ omega arith
    ];
    distinct = λ one other i e f. elim (owner one i e) [
      | inl (same, next) ↦ elim (owner other i f) [
        | inl (same', next') ↦ same ∙ sym same'
        | inr (old', less') ↦ absurd (omega arith)
      ]
      | inr (old, less) ↦ elim (owner other i f) [
        | inl (same', next') ↦ absurd (omega arith)
        | inr (old', less') ↦ r.distinct one other i old old'
      ]
    ];
  })

-- `register_thread` keeps it that no number was given to two threads and that the counter is past
-- them all, whether the thread is new or registered already, and leaves the thread with a number.
pub register_thread-IsRegistry :
    (threads : Threads) (thread : ℕ)
    → IsRegistry threads
    → IsRegistry (register_thread threads thread)
      × (i : ℕ) × ((register_thread threads thread).infos thread ≡ some i)
register_thread-IsRegistry threads thread r = go (threads.infos thread) refl
  where
    go :
        (o : Option ℕ)
        → threads.infos thread ≡ o
        → IsRegistry (register_thread threads thread)
          × (i : ℕ) × ((register_thread threads thread).infos thread ≡ some i)
    go (some info) e = rw (register_known threads thread info e) (r, info, e)
    go none e = (
      new-IsRegistry threads r thread e,
      threads.idx,
      rw (register_new threads thread e) (ground arith),
    )
