-- ===== src/Dynamic/Libcuckoo/Laws.antt =====
-- What the operations of the index over libcuckoo return
-- (src/dynamic_index/multithread/libcuckoo_index.h and libcuckoo_generic_index.h).
use mathlib.Core.List.Perm
use mathlib.Core.List.{append-nil}
use index_zoo.Base.{
  ℕ, ◌+◌, ◌≡◌, ◌≢◌, refl, sym, ap, ◌∙◌, List, [], ◌∷◌, ◌++◌, Option, none, some, true, false,
  if◌then◌else◌, Bool-cases, inl, inr, done, Returns, Perm,
}
use index_zoo.Dynamic.Keys.{Keys, equals_congr, equals_sym}
use index_zoo.Dynamic.Spec.{
  Entries, offsets_for, offsets_for-append, without, Index, Call, call_all, after_all,
  find-after_all,
}
use index_zoo.Dynamic.Libcuckoo.{
  HashMap, upserted, assigned, one_if_none, insert, find, erase, size,
}

-- No vector is stored where there are no offsets.
abbrev pub stored : List ℕ → Option (List ℕ)
stored [] = none
stored (v ∷ vs) = some (v ∷ vs)

stored-upserted :
    (v : ℕ) (l : List ℕ)
    → some (upserted (λ vec. vec ++ v ∷ []) (v ∷ []) (stored l)) ≡ stored (l ++ v ∷ [])
stored-upserted v [] = refl
stored-upserted v (x ∷ l) = refl

module _ (keys : Keys) where
  open keys use {Key, equals}

  offsets_for-equals :
      (j k : Key) (m : Entries keys)
      → equals j k ≡ true
      → offsets_for keys j m ≡ offsets_for keys k m
  offsets_for-equals j k [] e = refl
  offsets_for-equals j k ((i, v) ∷ m) e =
      rw (equals_congr keys i j k e, offsets_for-equals j k m e) refl

  offsets_for-without :
      (j k : Key) (m : Entries keys)
      → offsets_for keys j (without keys k m) ≡ (if equals k j then [] else offsets_for keys j m)
  offsets_for-without j k [] = elim (Bool-cases (equals k j)) [
    | inl t ↦ rw t refl
    | inr f ↦ rw f refl
  ]
  offsets_for-without j k ((i, v) ∷ m) =
      let ih = offsets_for-without j k m in
      elim (Bool-cases (equals k j)) [
        | inl same ↦
            let here : offsets_for keys j (without keys k m) ≡ [] = ih ∙ rw same refl in
            elim (Bool-cases (equals i k)) [
              | inl hit ↦ rw (hit, same) here
              | inr miss ↦
                  let other : equals i j ≡ false = sym (equals_congr keys i k j same) ∙ miss in
                  rw (miss, same, other) here
            ]
        | inr differ ↦
            let here : offsets_for keys j (without keys k m) ≡ offsets_for keys j m =
              ih ∙ rw differ refl in
            elim (Bool-cases (equals i k)) [
              | inl hit ↦
                  let other : equals i j ≡ false =
                    equals_sym keys i j
                    ∙ equals_congr keys j i k hit
                    ∙ equals_sym keys j k
                    ∙ differ in
                  rw (hit, differ, other) here
              | inr miss ↦ rw (miss, differ, here) refl
            ]
      ]

module _ (keys : Keys) (library : HashMap keys) where
  open keys use {Key, equals}
  open library use {Container, lookup}

  abbrev pub Holds : Container → Entries keys → Type 0
  Holds c m = (k : Key) → lookup c k ≡ stored (offsets_for keys k m)

  pub insert-Holds :
      (c : Container) (m : Entries keys) (k : Key) (v : ℕ)
      → Holds c m
      → Holds (insert keys library c k v) (m ++ (k, v) ∷ [])
  unfolding insert
  insert-Holds c m k v h j =
      library.lookup-upsert c k j (λ vec. vec ++ v ∷ []) (v ∷ []) ∙ elim (Bool-cases (equals k j)) [
        | inl same ↦
            rw
              (
                same,
                h k,
                offsets_for-append keys j m ((k, v) ∷ []),
                same,
                offsets_for-equals keys k j m same,
              )
              (stored-upserted v (offsets_for keys j m))
        | inr other ↦
            rw (other, h j, offsets_for-append keys j m ((k, v) ∷ []), other, append-nil) refl
      ]

  pub erase-Holds :
      (c : Container) (m : Entries keys) (k : Key)
      → Holds c m
      → Holds (erase keys library c k) (without keys k m)
  unfolding erase
  erase-Holds c m k h j =
      library.lookup-erase c k j
      ∙ rw (offsets_for-without keys j k m, h j)
          (elim (Bool-cases (equals k j)) [ inl same ↦ rw same refl | inr other ↦ rw other refl ])

  pub find-Holds :
      (c : Container) (m : Entries keys) (k : Key)
      → Holds c m
      → Returns (find keys library c k []) (λ r. Perm r (offsets_for keys k m))
  unfolding find
  find-Holds c m k h =
      rw (library.find-lookup c k [], h k)
        (elim (offsets_for keys k m) as (λ l. Perm (assigned [] (stored l)) l) [
          | [] ↦ Perm.refl []
          | v ∷ vs ↦ Perm.refl (v ∷ vs)
        ])

  pub new-Holds : Holds library.empty []
  new-Holds k = library.lookup-empty k

  abbrev pub libcuckoo : Index keys
  libcuckoo = record {
    State = Container;
    new_index = library.empty;
    insert = insert keys library;
    erase = erase keys library;
    find = find keys library;
    Holds = Holds;
    new-Holds = new-Holds;
    insert-Holds = insert-Holds;
    erase-Holds = erase-Holds;
    find-Holds = find-Holds;
  }

  -- For any library with the documented behaviour of libcuckoo: after any calls of `insert` and `erase` on
  -- a new index, `find` into an empty vector ends normally with the offsets that were inserted with the key
  -- and not erased since, each as often as it was inserted.
  pub libcuckoo_find :
      (calls : List (Call Key)) (k : Key)
      → Returns
          (find keys library (call_all keys libcuckoo calls library.empty) k [])
          (λ r. Perm r (offsets_for keys k (after_all keys calls [])))
  libcuckoo_find calls k = find-after_all keys libcuckoo calls k

  -- In an index that holds entries with the key, `find` puts their offsets into the vector in place of
  -- what was there, and does not add them to it.
  pub find_replaces :
      (c : Container) (m : Entries keys) (k : Key) (out : List ℕ)
      → Holds c m
      → offsets_for keys k m ≢ []
      → find keys library c k out ≡ done (offsets_for keys k m)
  unfolding find
  find_replaces c m k out h some_entry =
      rw (library.find-lookup c k out, h k) (go (offsets_for keys k m) some_entry)
    where
      go : (l : List ℕ) → l ≢ [] → done (assigned out (stored l)) ≡ done l
      go [] held = absurd (held refl)
      go (v ∷ vs) held = refl

  -- `insert` makes `size` one larger if the index held no entry with the key, and leaves it alone otherwise:
  -- it counts keys.
  pub insert-size :
      (c : Container) (m : Entries keys) (k : Key) (v : ℕ)
      → Holds c m
      → size keys library (insert keys library c k v)
        ≡ size keys library c + one_if_none (stored (offsets_for keys k m))
  unfolding insert size
  insert-size c m k v h =
      library.size-upsert c k (λ vec. vec ++ v ∷ []) (v ∷ [])
      ∙ ap (λ o. library.size c + one_if_none o) (h k)
