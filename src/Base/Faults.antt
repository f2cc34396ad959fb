-- ===== src/Base/Faults.antt =====
-- Results of code that may stop: the faults of the C++ code, and a monad of results.
use mathlib.Core.Path.{◌≡◌}
use mathlib.Core.Bool.{Bool, true, false}
use mathlib.Core.Option.{Option, none, some}
use mathlib.Core.List.{List}
use Prim.Native.Nat.{ℕ, ◌<◌}
use native.Mathlib.Omega.{arith}
use index_zoo.Base.Lists.{get_elem?, set, length}
use index_zoo.Base.Tests.{ltb, if◌then◌else◌}

-- `trap` is a failed ASSERT, which raises SIGTRAP; `out_of_bounds` an access past an array;
-- `uninitialized` a read of a cell that was never written; `no_fuel` a recursion that was cut off.
pub data Fault : Type 0 where
  trap out_of_bounds uninitialized division_by_zero overflow no_fuel : Fault

pub data Run {ℓ} (A : Type ℓ) : Type ℓ where
  done : A → Run A
  fail : Fault → Run A

infixl 5 ◌>>=◌ ◌>>◌
abbrev pub ◌>>=◌ {ℓ κ} : {A : Type ℓ} {B : Type κ} → Run A → (A → Run B) → Run B
done a >>= f = f a
fail e >>= f = fail e

abbrev pub ◌>>◌ {ℓ} : {B : Type ℓ} → Run (Unit {0}) → Run B → Run B
m >> k = m >>= λ _. k

-- `ASSERT(condition, ...)` of utils.h.
abbrev pub assert : Bool → Run (Unit {0})
assert true = done tt
assert false = fail trap

abbrev pub of_option {ℓ} : {A : Type ℓ} → Option A → Run A
of_option none = fail out_of_bounds
of_option (some a) = done a

-- `xs[i]`
abbrev pub at {ℓ} : {A : Type ℓ} → List A → ℕ → Run A
at xs i = of_option (get_elem? xs i)

-- The run ends normally, with a value that satisfies `P`.
abbrev pub Returns {ℓ} : {A : Type ℓ} → Run A → (A → Type 0) → Type 0
Returns (done a) P = P a
Returns (fail e) P = ⊥

pub Returns-map {ℓ} :
    {A : Type ℓ} {P Q : A → Type 0} (m : Run A) → ((a : A) → P a → Q a) → Returns m P → Returns m Q
Returns-map (done a) f h = f a h
Returns-map (fail e) f h = h

-- An array from `new T[n]`: its cells are `none` until they are written.
abbrev pub cell {ℓ} : {A : Type ℓ} → Option A → Run A
cell none = fail uninitialized
cell (some a) = done a

-- `xs[i]` and `xs[i] = v` of such an array.
abbrev pub read_cell {ℓ} : {A : Type ℓ} → List (Option A) → ℕ → Run A
read_cell xs i = at xs i >>= cell

unfoldable pub write_cell {ℓ} : {A : Type ℓ} → List (Option A) → ℕ → A → Run (List (Option A))
write_cell xs i v = if ltb i (length xs) then done (set xs i (some v)) else fail out_of_bounds

pub Returns-bind {ℓ κ} :
    {A : Type ℓ} {B : Type κ} (P : A → Type 0) (Q : B → Type 0) (m : Run A) (f : A → Run B)
    → Returns m P
    → ((a : A) → P a → Returns (f a) Q)
    → Returns (m >>= f) Q
Returns-bind P Q (done a) f h k = k a h
Returns-bind P Q (fail e) f h k = h

pub write_cell_lem {ℓ} :
    {A : Type ℓ} (xs : List (Option A)) (i : ℕ) (v : A)
    → i < length xs
    → write_cell xs i v ≡ done (set xs i (some v))
unfolding write_cell
write_cell_lem xs i v h = ground arith
