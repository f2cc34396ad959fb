-- ===== src/GenericKey.antt =====
-- Keys of any length (src/generic_key.h): an owned byte string.
pub mod Order
pub mod Assign
use index_zoo.Base.{
  ℕ, zero, suc, ◌≡◌, List, [], ◌∷◌, length, replicate, Option, some, none, Bool, true, false, ltb,
  ◌==◌, not, if◌then◌else◌, Run, done, fail, out_of_bounds, assert, ◌>>=◌, ◌>>◌,
}
use index_zoo.Table.Memory.{load}

-- `struct GenericKey`: `raw` is the memory behind `data_`, or `none` for the null pointer.
pub record GenericKey : Type 0 where
  pub raw : Option (List ℕ)
  pub data_size : ℕ

-- The bytes behind a pointer, none behind the null pointer.
abbrev pub bytes : Option (List ℕ) → List ℕ
bytes none = []
bytes (some bs) = bs

abbrev pub is_null : Option (List ℕ) → Bool
is_null none = true
is_null (some bs) = false

abbrev pub empty_key : GenericKey
empty_key = record { raw = none; data_size = 0 }

-- `GenericKey(data_size)`
unfoldable pub zero_key : ℕ → GenericKey
zero_key data_size =
    if data_size == 0
    then empty_key
    else record { raw = some (replicate data_size 0); data_size = data_size }

-- `GenericKey(data, data_size)`
unfoldable pub key_from : Option (List ℕ) → ℕ → Run GenericKey
key_from raw data_size =
    let copied = load (bytes raw) 0 data_size >>= λ bs.
    done (record { raw = some bs; data_size = data_size }) in
    let empty = assert (is_null raw) >> done empty_key in if data_size == 0 then empty else copied

-- `GenericKey(key)`
unfoldable pub copy_key : GenericKey → Run GenericKey
copy_key key =
    let copied = load (bytes key.raw) 0 key.data_size >>= λ bs.
    done (record { raw = some bs; data_size = key.data_size }) in
    if key.data_size == 0 then done empty_key else copied

-- `operator=(key)` where `key` is another object. Memory is allocated for an empty key too.
unfoldable pub assign : GenericKey → GenericKey → Run GenericKey
assign this key =
    let copied = load (bytes key.raw) 0 key.data_size >>= λ bs.
    done (record { raw = some bs; data_size = key.data_size }) in
    if is_null this.raw then copied else (assert (not (this.data_size == 0)) >> copied)

-- `operator=(key)` where `key` is the object itself: its size is zero by the time it is read, and the memory
-- that is copied is the new one, in which nothing was written.
unfoldable pub assign_self : GenericKey → Run GenericKey
assign_self this =
    let size_after = if is_null this.raw then this.data_size else 0 in
    let copied =
      load [] 0 size_after >>= λ bs. done (record { raw = some bs; data_size = size_after }) in
    if is_null this.raw then copied else (assert (not (this.data_size == 0)) >> copied)

-- `resize(data_size)`
unfoldable pub resize : GenericKey → ℕ → Run GenericKey
resize this data_size = do
  assert (is_null this.raw)
  assert (this.data_size == 0)
  done (zero_key data_size)

-- The sign of what `memcmp` returns.
pub data Sign : Type 0 where
  equal below above : Sign

-- `memcmp(lhs, rhs, len)`
unfoldable pub memcmp : ℕ → List ℕ → List ℕ → Run Sign
memcmp zero xs ys = done equal
memcmp (suc len) [] ys = fail out_of_bounds
memcmp (suc len) (x ∷ xs) [] = fail out_of_bounds
memcmp (suc len) (x ∷ xs) (y ∷ ys) =
    let rest = memcmp len xs ys in
    if x == y then rest else if ltb x y then done below else done above

-- `(data_size_ < rhs.data_size_) ? data_size_ : rhs.data_size_`
abbrev pub cmp_len : ℕ → ℕ → ℕ
cmp_len m n = if ltb m n then m else n

abbrev pub is_equal : Sign → Bool
is_equal equal = true
is_equal below = false
is_equal above = false

-- `operator==(rhs)`
unfoldable pub equals : GenericKey → GenericKey → Run Bool
equals this rhs =
    let compared =
      memcmp this.data_size (bytes this.raw) (bytes rhs.raw) >>= λ rt. done (is_equal rt) in
    if not (this.data_size == rhs.data_size) then done false else compared

abbrev pub less_by : ℕ → ℕ → Sign → Bool
less_by m n equal = ltb m n
less_by m n below = true
less_by m n above = false

-- `operator<(rhs)`
unfoldable pub less : GenericKey → GenericKey → Run Bool
less this rhs = do
  rt ← memcmp (cmp_len this.data_size rhs.data_size) (bytes this.raw) (bytes rhs.raw)
  done (less_by this.data_size rhs.data_size rt)

abbrev pub greater_by : ℕ → ℕ → Sign → Bool
greater_by m n equal = ltb n m
greater_by m n below = false
greater_by m n above = true

-- `operator>(rhs)`
unfoldable pub greater : GenericKey → GenericKey → Run Bool
greater this rhs = do
  rt ← memcmp (cmp_len this.data_size rhs.data_size) (bytes this.raw) (bytes rhs.raw)
  done (greater_by this.data_size rhs.data_size rt)

-- `GenericKeyComparator` and `GenericKeyEqualityChecker` repeat the text of two operators.
abbrev pub comparator : GenericKey → GenericKey → Run Bool
comparator lhs rhs = less lhs rhs

abbrev pub equality_checker : GenericKey → GenericKey → Run Bool
equality_checker lhs rhs = equals lhs rhs

-- The size is that of the memory.
abbrev pub IsKey : GenericKey → Type 0
IsKey key = length (bytes key.raw) ≡ key.data_size
