-- ===== src/Dynamic/StxBtree/Contract.antt =====
-- The index over the STX B+ tree meets the contract of an index
-- (src/dynamic_index/singlethread/stx_btree_index.h and stx_btree_generic_index.h).
use mathlib.Core.List.Perm
use mathlib.Core.List.{perm_append_singleton}
use index_zoo.Base.{ℕ, List, [], ◌∷◌, ◌++◌, Returns, Perm}
use index_zoo.Dynamic.Keys.{Keys}
use index_zoo.Dynamic.Spec.{
  Entries, offsets_for, without, Index, Call, after_all, call_all, find-after_all,
}
use index_zoo.Dynamic.Rearrange.{offsets_for-Perm, without-Perm}
use index_zoo.Dynamic.StxBtree.{Multimap, insert, erase, find}
use index_zoo.Dynamic.StxBtree.Laws.{find_lem}

module _ (keys : Keys) (library : Multimap keys) where
  open keys use {Key, less, equals}
  open library use {Container, entries}

  abbrev pub Holds : Container → Entries keys → Type 0
  Holds c m = Perm (entries c) m

  pub new-Holds : Holds library.empty []
  new-Holds = rw library.empty-entries (Perm.refl [])

  pub insert-Holds :
      (c : Container) (m : Entries keys) (k : Key) (v : ℕ)
      → Holds c m
      → Holds (insert keys library c k v) (m ++ (k, v) ∷ [])
  unfolding insert
  insert-Holds c m k v h =
      Perm.trans (library.insert-perm c (k, v))
        (Perm.trans (Perm.cons (k, v) h) (Perm.symm (perm_append_singleton (k, v) m)))

  pub erase-Holds :
      (c : Container) (m : Entries keys) (k : Key)
      → Holds c m
      → Holds (erase keys library c k) (without keys k m)
  unfolding erase
  erase-Holds c m k h = rw (library.erase-entries c k) (without-Perm keys k (entries c) m h)

  pub find-Holds :
      (c : Container) (m : Entries keys) (k : Key)
      → Holds c m
      → Returns (find keys library c k []) (λ r. Perm r (offsets_for keys k m))
  find-Holds c m k h = rw (find_lem keys library c k []) (offsets_for-Perm keys k (entries c) m h)

  abbrev pub stx_btree : Index keys
  stx_btree = record {
    State = Container;
    new_index = library.empty;
    insert = insert keys library;
    erase = erase keys library;
    find = find keys library;
    Holds = Holds;
    new-Holds = new-Holds;
    insert-Holds = insert-Holds;
    erase-Holds = erase-Holds;
    find-Holds = find-Holds;
  }

  -- For any library with the documented behaviour of the B+ tree: after any calls of `insert` and `erase`
  -- on a new index, `find` into an empty vector ends normally with the offsets that were inserted with the
  -- key and not erased since, each as often as it was inserted.
  pub stx_btree_find :
      (calls : List (Call Key)) (k : Key)
      → Returns
          (find keys library (call_all keys stx_btree calls library.empty) k [])
          (λ r. Perm r (offsets_for keys k (after_all keys calls [])))
  stx_btree_find calls k = find-after_all keys stx_btree calls k
