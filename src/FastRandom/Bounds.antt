-- ===== src/FastRandom/Bounds.antt =====
-- The range of the draws of src/fast_random.h, and what its seed does.
use index_zoo.Base.{
  arith, ℕ, ◌+◌, ◌-◌, ◌*◌, ◌/◌, ◌%◌, ◌^◌, ◌<◌, ◌≤◌, ◌≡◌, ◌≢◌, sym, ap, ◌∙◌, Bool, true, false,
  two_pow_pos, two_pow-add,
}
use native.Mathlib.Nat.{mod-eq_of_lt, div-lt_iff_lt-mul, pow-le-pow_right}
use index_zoo.FastRandom.{step, next, next_uniform}

-- The seed before a step.
unstep : ℕ → ℕ
unstep seed = (seed + 2 ^ 48 - 11) * 246154705703781 % 2 ^ 48

unstep-step : (seed : ℕ) → seed < 2 ^ 48 → unstep (step seed) ≡ seed
unfolding unstep step
unstep-step seed h = omega arith

step_small : (seed : ℕ) → step seed < 2 ^ 48
unfolding step
step_small seed = omega arith

-- The step of the generator keeps different seeds of 48 bits different: as it also ends in a seed
-- of 48 bits, it is a permutation of them, and the wrap-around at 64 bits does no harm.
pub step-distinct :
    (a b : ℕ) → a < 2 ^ 48 → b < 2 ^ 48 → a ≢ b → (step a ≢ step b) × (step a < 2 ^ 48)
step-distinct a b h k differ =
    ((λ same. differ (sym (unstep-step a h) ∙ ap unstep same ∙ unstep-step b k)), step_small a)

-- Both powers make up the 48 bits.
split_power : (bits : ℕ) → bits ≤ 48 → 2 ^ bits * 2 ^ (48 - bits) ≡ 2 ^ 48
split_power bits h = sym (two_pow-add bits (48 - bits)) ∙ ap (λ k. 2 ^ k) all
  where
    all : bits + (48 - bits) ≡ 48
    all = omega arith

-- `next(bits)` with `bits` at most 32 leaves a seed of 48 bits and returns a number of `bits` bits:
-- the cast to 32 bits loses nothing.
pub next-bounds :
    (bits seed : ℕ)
    → bits ≤ 32
    → ((next bits seed).0 < 2 ^ 48)
      × ((next bits seed).1 < 2 ^ bits)
      × ((next bits seed).1 ≡ step seed / 2 ^ (48 - bits))
unfolding next
next-bounds bits seed h = (step_small seed, omega (arith, kept, value_small), kept)
  where
    value_small : step seed / 2 ^ (48 - bits) < 2 ^ bits
    value_small =
        (div-lt_iff_lt-mul (two_pow_pos (48 - bits))).1
          (rw (split_power bits (omega arith)) (step_small seed))

    two_positive : 0 < 2
    two_positive = omega arith

    bits_small : 2 ^ bits ≤ 2 ^ 32
    bits_small = pow-le-pow_right two_positive h

    kept : step seed / 2 ^ (48 - bits) % 2 ^ 32 ≡ step seed / 2 ^ (48 - bits)
    kept = mod-eq_of_lt (omega (arith, value_small, bits_small))

-- The numerator of `next_uniform` is below its denominator 2^53, in whichever order its two draws
-- are made, so the quotient is below one.
pub next_uniform-bounds : (left_first : Bool) (seed : ℕ) → (next_uniform left_first seed).1 < 2 ^ 53
unfolding next_uniform next step
next_uniform-bounds true seed = omega arith
next_uniform-bounds false seed = omega arith
