-- ===== src/Dynamic/Spec.antt =====
-- What a dynamic index (`BaseIndex` of src/base_index.h) is to be: a collection of keys with offsets, in
-- which `find` finds what was inserted and not erased since.
use index_zoo.Base.{
  ℕ, suc, ◌≡◌, refl, ap, List, [], ◌∷◌, ◌++◌, Bool, not, ◌&&◌, get_elem?, some, select, false,
  if◌then◌else◌, Bool-cases, inl, inr, Run, Returns, Perm,
}
use index_zoo.Dynamic.Keys.{Keys}

-- Calls of `insert(key, offset)` and `erase(key)`.
pub data Call {ℓ} (Key : Type ℓ) : Type ℓ where
  insertion : Key → ℕ → Call Key
  erasure : Key → Call Key

module _ (keys : Keys) where
  open keys use {Key, less, equals}

  abbrev pub Entries : Type 0
  Entries = List (Key × ℕ)

  -- The offsets of the entries with the key.
  abbrev pub offsets_for : Key → Entries → List ℕ
  offsets_for k [] = []
  offsets_for k ((j, v) ∷ m) = if equals j k then v ∷ offsets_for k m else offsets_for k m

  -- The offsets of entries with keys from `lhs_key` to `rhs_key`.
  abbrev pub within : Key → Key → Key × ℕ → Bool
  within lhs_key rhs_key x = not (less x.0 lhs_key) && not (less rhs_key x.0)

  abbrev pub values : Entries → List ℕ
  values [] = []
  values ((j, v) ∷ m) = v ∷ values m

  pub offsets_for-select :
      (k : Key) (m : Entries) → offsets_for k m ≡ values (select (λ x. equals x.0 k) m)
  offsets_for-select k [] = refl
  offsets_for-select k ((j, v) ∷ m) = elim (Bool-cases (equals j k)) [
    | inl same ↦ rw same (ap (λ l. v ∷ l) (offsets_for-select k m))
    | inr other ↦ rw other (offsets_for-select k m)
  ]

  pub offsets_for-none :
      (k : Key) (m : Entries)
      → ((j : ℕ) (x : Key × ℕ) → get_elem? m j ≡ some x → equals x.0 k ≡ false)
      → offsets_for k m ≡ []
  offsets_for-none k [] h = refl
  offsets_for-none k ((j, v) ∷ m) h =
      rw (h 0 (j, v) refl) (offsets_for-none k m (λ i x e. h (suc i) x e))

  -- The entries with other keys.
  abbrev pub without : Key → Entries → Entries
  without k [] = []
  without k ((j, v) ∷ m) = if equals j k then without k m else (j, v) ∷ without k m

  pub offsets_for-append :
      (k : Key) (m n : Entries) → offsets_for k (m ++ n) ≡ offsets_for k m ++ offsets_for k n
  offsets_for-append k [] n = refl
  offsets_for-append k ((j, v) ∷ m) n = elim (Bool-cases (equals j k)) [
    | inl same ↦ rw same (ap (λ l. v ∷ l) (offsets_for-append k m n))
    | inr other ↦ rw other (offsets_for-append k m n)
  ]

  -- What the collection holds after the call.
  abbrev pub after : Call Key → Entries → Entries
  after (insertion k v) m = m ++ (k, v) ∷ []
  after (erasure k) m = without k m

  abbrev pub after_all : List (Call Key) → Entries → Entries
  after_all [] m = m
  after_all (call ∷ calls) m = after_all calls (after call m)

-- The contract of an index.
pub record Index (keys : Keys) : Type 1 where
  pub State : Type 0
  pub new_index : State
  pub insert : State → keys.Key → ℕ → State
  pub erase : State → keys.Key → State
  pub find : State → keys.Key → List ℕ → Run (List ℕ)
  pub Holds : State → List (keys.Key × ℕ) → Type 0
  pub new-Holds : Holds new_index []
  pub insert-Holds :
      (s : State) (m : List (keys.Key × ℕ)) (k : keys.Key) (v : ℕ)
      → Holds s m
      → Holds (insert s k v) (m ++ (k, v) ∷ [])
  pub erase-Holds :
      (s : State) (m : List (keys.Key × ℕ)) (k : keys.Key)
      → Holds s m
      → Holds (erase s k) (without keys k m)
  pub find-Holds :
      (s : State) (m : List (keys.Key × ℕ)) (k : keys.Key)
      → Holds s m
      → Returns (find s k []) (λ r. Perm r (offsets_for keys k m))

module _ (keys : Keys) (index : Index keys) where
  unfoldable pub call_all : List (Call keys.Key) → index.State → index.State
  call_all [] s = s
  call_all (insertion k v ∷ calls) s = call_all calls (index.insert s k v)
  call_all (erasure k ∷ calls) s = call_all calls (index.erase s k)

  pub call_all-Holds :
      (calls : List (Call keys.Key)) (s : index.State) (m : List (keys.Key × ℕ))
      → index.Holds s m
      → index.Holds (call_all calls s) (after_all keys calls m)
  unfolding call_all
  call_all-Holds [] s m h = h
  call_all-Holds (insertion k v ∷ calls) s m h =
      call_all-Holds calls (index.insert s k v) (m ++ (k, v) ∷ []) (index.insert-Holds s m k v h)
  call_all-Holds (erasure k ∷ calls) s m h =
      call_all-Holds calls (index.erase s k) (without keys k m) (index.erase-Holds s m k h)

  -- After any calls of `insert` and `erase` on a new index that meets the contract, `find` into an
  -- empty vector ends normally with the offsets that were inserted with the key and not erased
  -- since, each as often as it was inserted.
  pub find-after_all :
      (calls : List (Call keys.Key)) (k : keys.Key)
      → Returns
          (index.find (call_all calls index.new_index) k [])
          (λ r. Perm r (offsets_for keys k (after_all keys calls [])))
  find-after_all calls k =
      index.find-Holds (call_all calls index.new_index) (after_all keys calls []) k
        (call_all-Holds calls index.new_index [] index.new-Holds)
