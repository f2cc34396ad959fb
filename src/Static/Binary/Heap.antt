-- ===== src/Static/Binary/Heap.antt =====
-- The layers of src/static_index/binary_index.h lie in the array as a heap: the children of
-- position `p` are `2 p + 1` and `2 p + 2`. So a position determines the range of the array that
-- its key halves.
use index_zoo.Base.{
  arith, ℕ, zero, suc, ◌+◌, ◌-◌, ◌*◌, ◌/◌, ◌%◌, ◌<◌, ◌≡◌, refl, ◌∙◌, ◌⊎◌, List, length, get_elem?,
  set, ℕ_discrete, get_elem?-set_self, get_elem?-set_ne, Option, some, ◌==◌, if◌then◌else◌,
}
use native.Mathlib.Numerals.{add-one}
use index_zoo.Static.Entry.{KeyOffsetPair}

-- A range of indices, with the index behind its last one.
abbrev pub middle : ℕ × ℕ → ℕ
middle (b, e) = (b + e - 1) / 2

abbrev pub left_of : ℕ × ℕ → ℕ × ℕ
left_of (b, e) = (b, middle (b, e))

abbrev pub right_of : ℕ × ℕ → ℕ × ℕ
right_of (b, e) = (middle (b, e) + 1, e)

-- The range of position `p` over an array of `n` pairs, by the way from the root.
range_within : ℕ → ℕ → ℕ → ℕ × ℕ
range_within zero n p = (0, n)
range_within (suc fuel) n p =
    let up = range_within fuel n ((p - 1) / 2) in
    if p == 0 then (0, n) else if p % 2 == 1 then left_of up else right_of up

pub range_of : ℕ → ℕ → ℕ × ℕ
range_of n p = range_within (p + 1) n p

range_within_stable : (f g n p : ℕ) → p < f → p < g → range_within f n p ≡ range_within g n p
unfolding range_within
range_within_stable zero g n p h k = elim h [ ]
range_within_stable (suc f) zero n p h k = elim k [ ]
range_within_stable (suc f) (suc g) n p h k =
    ground (arith, range_within_stable f g n ((p - 1) / 2))

pub range_of-root : (n : ℕ) → range_of n 0 ≡ (0, n)
unfolding range_of range_within
range_of-root n = refl

parent_left : (n p : ℕ) → range_within (2 * p + 1) n p ≡ range_of n p
unfolding range_of
parent_left n p = range_within_stable (2 * p + 1) (p + 1) n p (omega arith) (omega arith)

parent_right : (n p : ℕ) → range_within (2 * p + 2) n p ≡ range_of n p
unfolding range_of
parent_right n p = range_within_stable (2 * p + 2) (p + 1) n p (omega arith) (omega arith)

pub range_of-left : (n p : ℕ) → range_of n (2 * p + 1) ≡ left_of (range_of n p)
unfolding range_of range_within
range_of-left n p =
    rw (add-one (2 * p + 1))
      (let up : (2 * p + 1 - 1) / 2 ≡ p = omega arith in rw up (ground (arith, parent_left n p)))

pub range_of-right : (n p : ℕ) → range_of n (2 * p + 2) ≡ right_of (range_of n p)
unfolding range_of range_within
range_of-right n p =
    rw (add-one (2 * p + 2))
      (let up : (2 * p + 2 - 1) / 2 ≡ p = omega arith in rw up (ground (arith, parent_right n p)))

-- Position `q` lies in the `k` layers from `p` down.
abbrev pub Below : ℕ → ℕ → ℕ → Type 0
Below zero p q = ⊥
Below (suc k) p q = (q ≡ p) ⊎ (Below k (2 * p + 1) q ⊎ Below k (2 * p + 2) q)

-- The cell at `q` holds the key in the middle of the range of `q`.
pub record Right (c : List KeyOffsetPair) (nodes : List (Option ℕ)) (q : ℕ) : Type 0 where
  pub pair : KeyOffsetPair
  pub at_middle : get_elem? c (middle (range_of (length c) q)) ≡ some pair
  pub in_cell : get_elem? nodes q ≡ some (some pair.key)

-- Writing the key that belongs in a cell keeps all right cells right.
pub set-Right :
    (c : List KeyOffsetPair) (nodes : List (Option ℕ)) (p : ℕ) (x : KeyOffsetPair) (q : ℕ)
    → get_elem? c (middle (range_of (length c) p)) ≡ some x
    → p < length nodes
    → Right c nodes q
    → Right c (set nodes p (some x.key)) q
set-Right c nodes p x q at_p inside r = elim (ℕ_discrete p q) [
  | yes same ↦ rw (← same) (record {
    pair = x;
    at_middle = at_p;
    in_cell = get_elem?-set_self nodes p (some x.key) inside;
  })
  | no other ↦ record {
    pair = r.pair;
    at_middle = r.at_middle;
    in_cell = get_elem?-set_ne nodes p q (some x.key) other ∙ r.in_cell;
  }
]
