-- ===== src/FastRandom/Strings.antt =====
-- The characters and strings of src/fast_random.h.
use index_zoo.Base.{
  arith, ℕ, zero, suc, ◌<◌, ◌≤◌, ◌≡◌, refl, ap, List, [], ◌∷◌, length, take, Bool, true, false, leb,
  ◌==◌, ◌&&◌, ◌||◌, done, Returns, Returns-bind, at, ◌>>=◌, Bool-cases, inl, inr,
}
use index_zoo.FastRandom.{next, next_readable_char, next_readable_string, readables}
use index_zoo.FastRandom.Bounds.{next-bounds}

-- A digit, a letter, `@` or `_`.
abbrev pub is_readable : ℕ → Bool
is_readable c = leb 48 c && leb c 57 || leb 64 c && leb c 90 || c == 95 || leb 97 c && leb c 122

abbrev pub all_readable : List ℕ → Bool
all_readable [] = true
all_readable (c ∷ cs) = is_readable c && all_readable cs

and_right : (a b : Bool) → (a && b) ≡ true → b ≡ true
and_right true b h = h
and_right false b h = cc

readable_at :
    (n i : ℕ) (cs : List ℕ)
    → all_readable (take n cs) ≡ true
    → i < n
    → n ≤ length cs
    → Returns (at cs i) (λ c. is_readable c ≡ true)
readable_at zero i cs h k l = absurd (omega arith)
readable_at (suc n) i [] h k l = absurd (omega arith)
readable_at (suc n) zero (c ∷ cs) h k l = elim (Bool-cases (is_readable c)) [
  | inl yes_it_is ↦ yes_it_is
  | inr no_it_is ↦ cc
]
readable_at (suc n) (suc i) (c ∷ cs) h k l =
    readable_at n i cs (and_right (is_readable c) _ h) (omega arith) (omega arith)

pub next_readable_char-readable :
    (seed : ℕ) → Returns (next_readable_char seed) (λ r. is_readable r.1 ≡ true)
unfolding next_readable_char
next_readable_char-readable seed =
    Returns-bind (λ c. is_readable c ≡ true) (λ r. is_readable r.1 ≡ true)
      (at readables (next 6 seed).1) (λ c. done ((next 6 seed).0, c))
      (readable_at 64 (next 6 seed).1 readables refl
        (omega (arith, (next-bounds 6 seed (omega arith)).1)) (omega arith))
      (λ c h. h)

-- `next_readable_string(len, s)` ends normally from every seed: it never reads the table of
-- characters outside its 64 letters, and fills the string with `len` characters, each a digit, a
-- letter, `@` or `_`.
pub next_readable_string-readable :
    (len seed : ℕ)
    → Returns (next_readable_string len seed) (λ r. (length r.1 ≡ len) × (all_readable r.1 ≡ true))
unfolding next_readable_string
next_readable_string-readable zero seed = (refl, refl)
next_readable_string-readable (suc len) seed =
    Returns-bind (λ (x : ℕ × ℕ). is_readable x.1 ≡ true)
      (λ (r : ℕ × List ℕ). (length r.1 ≡ suc len) × (all_readable r.1 ≡ true))
      (next_readable_char seed)
      (λ (x : ℕ × ℕ). next_readable_string len x.0 >>= λ (y : ℕ × List ℕ). done (y.0, x.1 ∷ y.1))
      (next_readable_char-readable seed)
      (λ x h.
        Returns-bind (λ (y : ℕ × List ℕ). (length y.1 ≡ len) × (all_readable y.1 ≡ true))
          (λ (r : ℕ × List ℕ). (length r.1 ≡ suc len) × (all_readable r.1 ≡ true))
          (next_readable_string len x.0) (λ (y : ℕ × List ℕ). done (y.0, x.1 ∷ y.1))
          (next_readable_string-readable len x.0) (λ y k. (ap suc k.0, rw (h, k.1) refl)))
