-- ===== src/Dynamic/ByteSwap.antt =====
-- `byte_swap` of src/utils.h: the memory of a swapped number is ordered as the number.
use mathlib.Core.List.{reverse-append, reverse-reverse}
use native.Mathlib.Nat.{pow-suc}
use index_zoo.Base.{
  arith, ℕ, zero, suc, ◌+◌, ◌*◌, ◌/◌, ◌%◌, ◌^◌, ◌<◌, ◌≡◌, refl, sym, ap, ◌∙◌, List, [], ◌∷◌, ◌++◌,
  reverse, length, length-append, not, ◌&&◌, ◌||◌, ltb,
}
use index_zoo.Table.Numeric.{to_bytes, from_bytes, length-to_bytes, from_bytes-to_bytes}
use index_zoo.GenericKey.Order.{precedes}

-- `byte_swap<KeyT>(x)`, for a `KeyT` of `size` bytes.
unfoldable pub byte_swap : ℕ → ℕ → ℕ
byte_swap size x = from_bytes (reverse (to_bytes size x))

abbrev AreBytes : List ℕ → Type 0
AreBytes [] = Unit
AreBytes (b ∷ bs) = (b < 256) × AreBytes bs

to_bytes-AreBytes : (size x : ℕ) → AreBytes (to_bytes size x)
unfolding to_bytes
to_bytes-AreBytes zero x = tt
to_bytes-AreBytes (suc size) x = (omega arith, to_bytes-AreBytes size (x / 256))

AreBytes-append : (xs ys : List ℕ) → AreBytes xs → AreBytes ys → AreBytes (xs ++ ys)
AreBytes-append [] ys h k = k
AreBytes-append (x ∷ xs) ys h k = (h.0, AreBytes-append xs ys h.1 k)

AreBytes-reverse : (xs : List ℕ) → AreBytes xs → AreBytes (reverse xs)
AreBytes-reverse [] h = tt
AreBytes-reverse (x ∷ xs) h =
    rw (reverse-append (x ∷ []) xs)
      (AreBytes-append (reverse xs) (x ∷ []) (AreBytes-reverse xs h.1) (h.0, tt))

length-reverse : (xs : List ℕ) → length (reverse xs) ≡ length xs
length-reverse [] = refl
length-reverse (x ∷ xs) =
    rw (reverse-append (x ∷ []) xs)
      (omega (arith, length-append (reverse xs) (x ∷ []), length-reverse xs))

to_bytes-from_bytes : (bs : List ℕ) → AreBytes bs → to_bytes (length bs) (from_bytes bs) ≡ bs
unfolding to_bytes from_bytes
to_bytes-from_bytes [] h = refl
to_bytes-from_bytes (b ∷ bs) h =
    let low : (b + 256 * from_bytes bs) % 256 ≡ b = omega (arith, h.0) in
    let high : (b + 256 * from_bytes bs) / 256 ≡ from_bytes bs = omega (arith, h.0) in
    rw (low, high) (ap (λ l. b ∷ l) (to_bytes-from_bytes bs h.1))

-- The memory of the swapped number: the highest byte first.
pub to_bytes-byte_swap : (size x : ℕ) → to_bytes size (byte_swap size x) ≡ reverse (to_bytes size x)
unfolding byte_swap
to_bytes-byte_swap size x =
    let same_size : size ≡ length (reverse (to_bytes size x)) =
      sym (length-reverse (to_bytes size x) ∙ length-to_bytes size x) in
    ap (λ n. to_bytes n (from_bytes (reverse (to_bytes size x)))) same_size
    ∙ to_bytes-from_bytes (reverse (to_bytes size x))
        (AreBytes-reverse (to_bytes size x) (to_bytes-AreBytes size x))

precedes-append :
    (xs ys : List ℕ) (x y : ℕ)
    → length xs ≡ length ys
    → precedes (xs ++ x ∷ []) (ys ++ y ∷ []) ≡ (precedes xs ys || (not (precedes ys xs) && ltb x y))
unfolding precedes
precedes-append [] [] x y h = ground arith
precedes-append [] (b ∷ ys) x y h = absurd (omega arith)
precedes-append (a ∷ xs) [] x y h = absurd (omega arith)
precedes-append (a ∷ xs) (b ∷ ys) x y h = ground (arith, precedes-append xs ys x y (omega arith))

big_end : (w x : ℕ) → reverse (to_bytes (suc w) x) ≡ reverse (to_bytes w (x / 256)) ++ x % 256 ∷ []
unfolding to_bytes
big_end w x = reverse-append (x % 256 ∷ []) (to_bytes w (x / 256))

below_root : (w x : ℕ) → x < 256 ^ suc w → x / 256 < 256 ^ w
below_root w x h = omega (arith, pow-suc 256 w)

digits_decide :
    (x y : ℕ)
    → (ltb (x / 256) (y / 256) || (not (ltb (y / 256) (x / 256)) && ltb (x % 256) (y % 256)))
      ≡ ltb x y
digits_decide x y = ground arith

reversed-precedes :
    (w x y : ℕ)
    → x < 256 ^ w
    → y < 256 ^ w
    → precedes (reverse (to_bytes w x)) (reverse (to_bytes w y)) ≡ ltb x y
unfolding precedes to_bytes
reversed-precedes zero x y hx hy = ground arith
reversed-precedes (suc w) x y hx hy =
    rw
      (
        big_end w x,
        big_end w y,
        precedes-append (reverse (to_bytes w (x / 256))) (reverse (to_bytes w (y / 256))) (x % 256)
            (y % 256)
            (length-reverse (to_bytes w (x / 256))
              ∙ length-to_bytes w (x / 256)
              ∙ sym (length-reverse (to_bytes w (y / 256)) ∙ length-to_bytes w (y / 256))),
        reversed-precedes w (x / 256) (y / 256) (below_root w x hx) (below_root w y hy),
        reversed-precedes w (y / 256) (x / 256) (below_root w y hy) (below_root w x hx),
      )
      (digits_decide x y)

-- The bytes of swapped numbers that fit in `size` bytes are in lexicographic order exactly as the
-- numbers are in theirs.
pub byte_swap-precedes :
    (size a b : ℕ)
    → a < 256 ^ size
    → b < 256 ^ size
    → precedes (to_bytes size (byte_swap size a)) (to_bytes size (byte_swap size b)) ≡ ltb a b
byte_swap-precedes size a b ha hb =
    rw (to_bytes-byte_swap size a, to_bytes-byte_swap size b) (reversed-precedes size a b ha hb)

-- Swapping twice gives the number back, if it fits in `size` bytes.
pub byte_swap_twice : (size x : ℕ) → x < 256 ^ size → byte_swap size (byte_swap size x) ≡ x
unfolding byte_swap
byte_swap_twice size x h =
    ap (λ bs. from_bytes (reverse bs)) (unfold byte_swap in to_bytes-byte_swap size x)
    ∙ ap from_bytes (reverse-reverse (to_bytes size x))
    ∙ from_bytes-to_bytes size x h
