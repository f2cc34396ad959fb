-- ===== src/GenericKey/Assign.antt =====
-- Copies and assignments of src/generic_key.h.
use mathlib.Core.Path.{ap₂}
use index_zoo.Base.{
  arith, ℕ, zero, suc, ◌<◌, ◌≡◌, refl, sym, ap, ◌∙◌, List, [], ◌∷◌, length, some, true, false, ◌==◌,
  done, fail, trap, Returns, ℕ_discrete, Bool-cases, inl, inr,
}
use index_zoo.Table.Memory.{load, read_bytes}
use index_zoo.GenericKey.{
  GenericKey, IsKey, bytes, is_null, empty_key, copy_key, assign, assign_self,
}

read_bytes-suc : (x : ℕ) (m : List ℕ) (p n : ℕ) → read_bytes (x ∷ m) (suc p) n ≡ read_bytes m p n
unfolding read_bytes
read_bytes-suc x m p zero = refl
read_bytes-suc x m p (suc n) = ap₂ (λ b bs. b ∷ bs) refl (read_bytes-suc x m (suc p) n)

read_bytes-all : (m : List ℕ) → read_bytes m 0 (length m) ≡ m
unfolding read_bytes
read_bytes-all [] = refl
read_bytes-all (x ∷ m) = ap (λ bs. x ∷ bs) (read_bytes-suc x m 0 (length m) ∙ read_bytes-all m)

load_all : (m : List ℕ) → load m 0 (length m) ≡ done m
unfolding load
load_all m = rw read_bytes-all (ground arith)

-- A key that holds the bytes of another, in memory of its own.
abbrev pub Copies : GenericKey → GenericKey → Type 0
Copies key r = IsKey r × (bytes r.raw ≡ bytes key.raw)

-- `ASSERT(data_size_ != 0)` holds where memory is to be freed.
abbrev pub CanAssign : GenericKey → Type 0
CanAssign this = (is_null this.raw ≡ false) → 0 < this.data_size

module _ (key : GenericKey) (ok : IsKey key) where
  load_key : load (bytes key.raw) 0 key.data_size ≡ done (bytes key.raw)
  load_key = rw (sym ok) (load_all (bytes key.raw))

  -- The copy constructor on a key whose size is that of its memory ends normally, and the copy
  -- holds the same bytes.
  pub copy_key-Copies : Returns (copy_key key) (Copies key)
  unfolding copy_key
  copy_key-Copies = elim (ℕ_discrete key.data_size 0) [
    | yes empty ↦
        let test : (key.data_size == 0) ≡ true = ground arith in
        rw test (refl, nothing (bytes key.raw) (ok ∙ empty))
    | no some_bytes ↦
        let test : (key.data_size == 0) ≡ false = ground arith in rw (test, load_key) (ok, refl)
  ]
    where
      nothing : (bs : List ℕ) → length bs ≡ 0 → [] ≡ bs
      nothing [] h = refl
      nothing (b ∷ bs) h = absurd (omega arith)

  -- Assigning a key whose size is that of its memory to another object, one that has no memory or
  -- a size above zero, ends normally and leaves the bytes of the key in the object.
  pub assign-Copies : (this : GenericKey) → CanAssign this → Returns (assign this key) (Copies key)
  unfolding assign
  assign-Copies this can = elim (Bool-cases (is_null this.raw)) [
    | inl null ↦ rw (null, load_key) (ok, refl)
    | inr memory ↦
        let test : (this.data_size == 0) ≡ false = ground (arith, can memory) in
        rw (memory, test, load_key) (ok, refl)
  ]

-- A defect: assigning an empty key to an object that has no memory or a size above zero ends
-- normally, and leaves an object to which nothing can be assigned any more: its memory is not null
-- and its size is zero, so the next assignment traps, whatever the key.
pub assign_empty_traps :
    (this key : GenericKey)
    → CanAssign this
    → Returns (assign this empty_key) (λ r. assign r key ≡ fail trap)
unfolding assign load read_bytes
assign_empty_traps this key can = elim (Bool-cases (is_null this.raw)) [
  | inl null ↦ rw null refl
  | inr memory ↦
      let test : (this.data_size == 0) ≡ false = ground (arith, can memory) in
      rw (memory, test) refl
]

-- A defect: assigning an object to itself, one that has either no memory and size zero or a size
-- above zero, frees its memory first, so that all its bytes are lost, however many there were.
pub assign_self_loses :
    (this : GenericKey)
    → CanAssign this
    → (is_null this.raw ≡ true → this.data_size ≡ 0)
    → assign_self this ≡ done (record { raw = some []; data_size = 0 })
unfolding assign_self load read_bytes
assign_self_loses this can empty = elim (Bool-cases (is_null this.raw)) [
  | inl null ↦ rw (null, empty null) refl
  | inr memory ↦
      let test : (this.data_size == 0) ≡ false = ground (arith, can memory) in
      rw (memory, test) refl
]
