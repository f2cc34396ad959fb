-- ===== src/Base/Ints.antt =====
-- The type `int` of C++, as an integer, with the operations that the searches use.
use Prim.Native.Nat.{ℕ, zero, suc, ◌+◌, ◌-◌, ◌/◌, ◌≤◌, ◌<◌, ◌^◌, ◌%◌}
use mathlib.Core.Path.{◌≡◌, refl}
use mathlib.Core.Bool.{Bool, ◌&&◌}
use mathlib.Core.List.{List}
use native.Mathlib.Omega.{arith}
use index_zoo.Base.Tests.{ltb, leb, if◌then◌else◌}
use index_zoo.Base.Faults.{Run, done, fail, overflow, out_of_bounds, ◌>>=◌, at}

-- `negsuc n` is -(n + 1).
pub data ℤ : Type 0 where
  pos : ℕ → ℤ
  negsuc : ℕ → ℤ

abbrev pub pos_part : ℤ → ℕ
pos_part (pos n) = n
pos_part (negsuc n) = 0

abbrev pub neg_part : ℤ → ℕ
neg_part (pos n) = 0
neg_part (negsuc n) = suc n

-- a - b, as an integer.
abbrev pub sub_ℕ : ℕ → ℕ → ℤ
sub_ℕ a b = if leb b a then pos (a - b) else negsuc (b - a - 1)

infixl 65 ◌+ℤ◌ ◌-ℤ◌
abbrev pub ◌+ℤ◌ : ℤ → ℤ → ℤ
a +ℤ b = sub_ℕ (pos_part a + pos_part b) (neg_part a + neg_part b)

abbrev pub ◌-ℤ◌ : ℤ → ℤ → ℤ
a -ℤ b = sub_ℕ (pos_part a + neg_part b) (neg_part a + pos_part b)

abbrev pub ltb_ℤ : ℤ → ℤ → Bool
ltb_ℤ a b = ltb (pos_part a + neg_part b) (pos_part b + neg_part a)

-- A `size_t` as an `int`: the low 32 bits, read as a signed number.
abbrev pub to_int : ℕ → ℤ
to_int x = if ltb (x % 2 ^ 32) (2 ^ 31) then pos (x % 2 ^ 32) else negsuc (2 ^ 32 - x % 2 ^ 32 - 1)

-- An `int` as a `size_t`.
abbrev pub to_size : ℤ → ℕ
to_size (pos n) = n
to_size (negsuc n) = 2 ^ 64 - (n + 1)

-- The values that a loop `for (; i >= 0; --i)` takes from `i` on.
abbrev pub rounds_down : ℤ → ℕ
rounds_down (pos n) = n + 1
rounds_down (negsuc n) = 0

-- Division by two rounds towards zero.
abbrev pub half : ℤ → ℤ
half (pos n) = pos (n / 2)
half (negsuc n) = sub_ℕ 0 ((n + 1) / 2)

-- A sum of two `int`s that leaves the type is a fault.
abbrev pub checked_add : ℤ → ℤ → Run ℤ
checked_add a b =
    if ltb (pos_part (a +ℤ b)) (2 ^ 31) && leb (neg_part (a +ℤ b)) (2 ^ 31)
    then done (a +ℤ b)
    else fail overflow

-- `(begin + end) / 2`
unfoldable pub midpoint : ℤ → ℤ → Run ℤ
midpoint a b = checked_add a b >>= λ s. done (half s)

-- `xs[i]`
abbrev pub at_int {ℓ} : {A : Type ℓ} → List A → ℤ → Run A
at_int xs (pos i) = at xs i
at_int xs (negsuc i) = fail out_of_bounds

-- The `int` before a position: -1 before position 0.
abbrev pub before_pos : ℕ → ℤ
before_pos zero = negsuc 0
before_pos (suc n) = pos n

pub midpoint_lem :
    (b e : ℕ) → b + e < 2 ^ 31 → b ≤ e → midpoint (pos b) (pos e) ≡ done (pos ((b + e) / 2))
unfolding midpoint
midpoint_lem b e h k = ground arith

pub rounds_down_lem : (n : ℕ) → n < 2 ^ 31 → rounds_down (to_int ((n + 2 ^ 64 - 1) % 2 ^ 64)) ≡ n
rounds_down_lem n h = ground arith

pub to_int_small : (n : ℕ) → n < 2 ^ 31 → to_int n ≡ pos n
to_int_small n h = ground arith

pub to_int_before : (n : ℕ) → n < 2 ^ 31 → to_int ((n + 2 ^ 64 - 1) % 2 ^ 64) ≡ before_pos n
to_int_before zero h = refl
to_int_before (suc n) h = ground arith

pub pos-minus-one : (n : ℕ) → pos n -ℤ pos 1 ≡ before_pos n
pos-minus-one zero = refl
pos-minus-one (suc n) = ground arith

pub to_int_last : (n : ℕ) → 0 < n → n < 2 ^ 31 → to_int (n - 1) ≡ before_pos n
to_int_last zero h k = elim h [ ]
to_int_last (suc n) h k = ground arith
