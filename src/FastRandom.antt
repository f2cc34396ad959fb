-- ===== src/FastRandom.antt =====
-- The random number generator (src/fast_random.h): a linear congruential generator on 48 bits. A
-- drawing function returns the new seed and the value.
pub mod Bounds
pub mod Strings
use index_zoo.Base.{
  ℕ, zero, suc, ◌+◌, ◌-◌, ◌*◌, ◌/◌, ◌%◌, ◌^◌, List, [], ◌∷◌, Bool, true, false, ◌==◌, if◌then◌else◌,
  Run, done, at, ◌>>=◌,
}
use index_zoo.Table.Offset.{word}

abbrev pub multiplier : ℕ
multiplier = 25214903917

-- `x ^ y` on numbers of `width` bits.
unfoldable pub xor : ℕ → ℕ → ℕ → ℕ
xor zero x y = 0
xor (suc width) x y = (if x % 2 == y % 2 then 0 else 1) + 2 * xor width (x / 2) (y / 2)

-- `set_seed0(seed)`, which the constructors call.
unfoldable pub set_seed0 : ℕ → ℕ
set_seed0 seed = xor 64 seed multiplier % 2 ^ 48

-- `set_seed(seed)` stores the number as it is.
abbrev pub set_seed : ℕ → ℕ
set_seed seed = seed

-- The seed that `next` leaves.
unfoldable pub step : ℕ → ℕ
step seed = (seed * multiplier + 11) % word % 2 ^ 48

-- `next(bits)`; `bits` is at most 48.
unfoldable pub next : ℕ → ℕ → ℕ × ℕ
next bits seed = (step seed, step seed / 2 ^ (48 - bits) % 2 ^ 32)

-- The numerator of `next_uniform()`. C++ does not say which of the two draws of the sum comes
-- first: `left_first` says it.
unfoldable pub next_uniform : Bool → ℕ → ℕ × ℕ
next_uniform left_first seed =
    if left_first
    then (let (seed', high) = next 26 seed in
        let (seed'', low) = next 27 seed' in (seed'', (high * 2 ^ 27 % word + low) % word))
    else (let (seed', low) = next 27 seed in
        let (seed'', high) = next 26 seed' in (seed'', (high * 2 ^ 27 % word + low) % word))

-- `next<uint64_t>()`, in the same two orders.
unfoldable pub next_word : Bool → ℕ → ℕ × ℕ
next_word left_first seed =
    if left_first
    then (let (seed', high) = next 32 seed in
        let (seed'', low) = next 32 seed' in (seed'', (high * 2 ^ 32 % word + low) % word))
    else (let (seed', low) = next 32 seed in
        let (seed'', high) = next 32 seed' in (seed'', (high * 2 ^ 32 % word + low) % word))

-- `next_char()`, as an unsigned byte.
unfoldable pub next_char : ℕ → ℕ × ℕ
next_char seed = let (seed', x) = next 8 seed in (seed', x % 256)

-- The ten digits, `@`, the capital letters, `_` and the small letters, in ASCII, and the zero
-- that ends the literal.
abbrev pub readables : List ℕ
readables =
    48 ∷ 49 ∷ 50 ∷ 51 ∷ 52 ∷ 53 ∷ 54 ∷ 55 ∷ 56 ∷ 57 ∷ 64 ∷ 65 ∷ 66 ∷ 67 ∷ 68 ∷ 69 ∷ 70 ∷ 71 ∷ 72
    ∷ 73 ∷ 74 ∷ 75 ∷ 76 ∷ 77 ∷ 78 ∷ 79 ∷ 80 ∷ 81 ∷ 82 ∷ 83 ∷ 84 ∷ 85 ∷ 86 ∷ 87 ∷ 88 ∷ 89 ∷ 90 ∷ 95
    ∷ 97 ∷ 98 ∷ 99 ∷ 100 ∷ 101 ∷ 102 ∷ 103 ∷ 104 ∷ 105 ∷ 106 ∷ 107 ∷ 108 ∷ 109 ∷ 110 ∷ 111 ∷ 112
    ∷ 113 ∷ 114 ∷ 115 ∷ 116 ∷ 117 ∷ 118 ∷ 119 ∷ 120 ∷ 121 ∷ 122 ∷ 0 ∷ []

-- `next_readable_char()`
unfoldable pub next_readable_char : ℕ → Run (ℕ × ℕ)
next_readable_char seed = let (seed', x) = next 6 seed in at readables x >>= λ c. done (seed', c)

-- `next_string(len, s)` and `next_chars(len, s)`: the characters in order.
unfoldable pub next_string : ℕ → ℕ → ℕ × List ℕ
next_string zero seed = (seed, [])
next_string (suc len) seed =
    let (seed', c) = next_char seed in let (seed'', cs) = next_string len seed' in (seed'', c ∷ cs)

-- `next_readable_string(len, s)` and `next_readable_chars(len, s)`
unfoldable pub next_readable_string : ℕ → ℕ → Run (ℕ × List ℕ)
next_readable_string zero seed = done (seed, [])
next_readable_string (suc len) seed = next_readable_char seed >>= λ (x : ℕ × ℕ).
    next_readable_string len x.0 >>= λ (y : ℕ × List ℕ). done (y.0, x.1 ∷ y.1)
