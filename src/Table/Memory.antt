-- ===== src/Table/Memory.antt =====
-- The bytes of a block (`char *tuples_` of src/data_block.h), read and written by memcpy.
use mathlib.Core.Path.{ap₂}
use index_zoo.Base.{
  ◌∙◌, ◌-◌, ℕ, zero, suc, ◌+◌, ◌<◌, ◌≤◌, ◌≡◌, ◌≢◌, refl, ap, ◌⊎◌, inl, inr, List, [], ◌∷◌, ◌++◌,
  arith, length, get_or, set, length-set, leb, if◌then◌else◌, Run, done, fail, out_of_bounds,
  replicate,
}

-- The `n` bytes from `p` on.
unfoldable pub read_bytes : List ℕ → ℕ → ℕ → List ℕ
read_bytes m p zero = []
read_bytes m p (suc n) = get_or m p 0 ∷ read_bytes m (suc p) n

unfoldable pub write_bytes : List ℕ → ℕ → List ℕ → List ℕ
write_bytes m p [] = m
write_bytes m p (b ∷ bs) = write_bytes (set m p b) (suc p) bs

-- `memcpy(tuples_ + p, bs, |bs|)`; a write past the array is a fault.
unfoldable pub memcpy : List ℕ → ℕ → List ℕ → Run (List ℕ)
memcpy m p bs =
    if leb (p + length bs) (length m) then done (write_bytes m p bs) else fail out_of_bounds

-- What a reader of `n` bytes behind a pointer gets.
unfoldable pub load : List ℕ → ℕ → ℕ → Run (List ℕ)
load m p n = if leb (p + n) (length m) then done (read_bytes m p n) else fail out_of_bounds

get_or-set_self : (m : List ℕ) (i v : ℕ) → i < length m → get_or (set m i v) i 0 ≡ v
get_or-set_self [] i v h = elim h [ ]
get_or-set_self (x ∷ m) zero v h = refl
get_or-set_self (x ∷ m) (suc i) v h = get_or-set_self m i v (omega arith)

get_or-set_ne : (m : List ℕ) (i j v : ℕ) → i ≢ j → get_or (set m i v) j 0 ≡ get_or m j 0
get_or-set_ne [] i j v h = refl
get_or-set_ne (x ∷ m) zero zero v h = absurd (h refl)
get_or-set_ne (x ∷ m) zero (suc j) v h = refl
get_or-set_ne (x ∷ m) (suc i) zero v h = refl
get_or-set_ne (x ∷ m) (suc i) (suc j) v h = get_or-set_ne m i j v (λ e. h (ap suc e))

pub length-write_bytes : (m : List ℕ) (p : ℕ) (bs : List ℕ) → length (write_bytes m p bs) ≡ length m
unfolding write_bytes
length-write_bytes m p [] = refl
length-write_bytes m p (b ∷ bs) =
    omega (arith, length-write_bytes (set m p b) (suc p) bs, length-set m p b)

-- A write leaves the bytes outside of it alone.
pub get_or-write_ne :
    (m : List ℕ) (p : ℕ) (bs : List ℕ) (q : ℕ)
    → (q < p) ⊎ (p + length bs ≤ q)
    → get_or (write_bytes m p bs) q 0 ≡ get_or m q 0
unfolding write_bytes
get_or-write_ne m p [] q h = refl
get_or-write_ne m p (b ∷ bs) q h =
    grind (arith, get_or-write_ne (set m p b) (suc p) bs q, get_or-set_ne m p q b)

-- Bytes that agree are read alike.
pub read_bytes-congr :
    (m m' : List ℕ) (p n : ℕ)
    → ((q : ℕ) → p ≤ q → q < p + n → get_or m' q 0 ≡ get_or m q 0)
    → read_bytes m' p n ≡ read_bytes m p n
unfolding read_bytes
read_bytes-congr m m' p zero h = refl
read_bytes-congr m m' p (suc n) h = ground (
  arith,
  h p (omega arith) (omega arith),
  read_bytes-congr m m' (suc p) n (λ q lo hi. h q (omega arith) (omega arith)),
)

pub read_bytes-write_ne :
    (m : List ℕ) (p : ℕ) (bs : List ℕ) (q n : ℕ)
    → (q + n ≤ p) ⊎ (p + length bs ≤ q)
    → read_bytes (write_bytes m p bs) q n ≡ read_bytes m q n
read_bytes-write_ne m p bs q n h =
    read_bytes-congr m (write_bytes m p bs) q n (λ i lo hi. get_or-write_ne m p bs i (omega arith))

pub read_bytes-write_self :
    (m : List ℕ) (p : ℕ) (bs : List ℕ)
    → p + length bs ≤ length m
    → read_bytes (write_bytes m p bs) p (length bs) ≡ bs
unfolding read_bytes write_bytes
read_bytes-write_self m p [] h = refl
read_bytes-write_self m p (b ∷ bs) h = ground (
  arith,
  length-set m p b,
  get_or-write_ne (set m p b) (suc p) bs p (inl (omega arith)),
  get_or-set_self m p b (omega arith),
  read_bytes-write_self (set m p b) (suc p) bs (omega (arith, length-set m p b)),
)

-- A read in two parts.
pub read_bytes-append :
    (m : List ℕ) (p n k : ℕ) → read_bytes m p (n + k) ≡ read_bytes m p n ++ read_bytes m (p + n) k
unfolding read_bytes
read_bytes-append m p zero k = ground arith
read_bytes-append m p (suc n) k =
    let e : suc n + k ≡ suc (n + k) = omega arith in
    let e' : p + suc n ≡ suc p + n = omega arith in
    rw (e, e') (ap (λ l. get_or m p 0 ∷ l) (read_bytes-append m (suc p) n k))

pub read_bytes-zeros :
    (m : List ℕ) (p n : ℕ) → ((q : ℕ) → p ≤ q → get_or m q 0 ≡ 0) → read_bytes m p n ≡ replicate n 0
unfolding read_bytes
read_bytes-zeros m p zero h = refl
read_bytes-zeros m p (suc n) h =
    ground (arith, h p (omega arith), read_bytes-zeros m (suc p) n (λ q lo. h q (omega arith)))

pub get_or-zeros : (n q : ℕ) → get_or {A = ℕ} (replicate n 0) q 0 ≡ 0
get_or-zeros zero q = refl
get_or-zeros (suc n) zero = refl
get_or-zeros (suc n) (suc q) = get_or-zeros n q

pub memcpy_fits :
    (m : List ℕ) (p : ℕ) (bs : List ℕ)
    → p + length bs ≤ length m
    → memcpy m p bs ≡ done (write_bytes m p bs)
unfolding memcpy
memcpy_fits m p bs h = ground arith

pub load_fits : (m : List ℕ) (p n : ℕ) → p + n ≤ length m → load m p n ≡ done (read_bytes m p n)
unfolding load
load_fits m p n h = ground arith

-- Bytes written over zeros, read with the zeros behind them.
pub read_bytes-padded :
    (m : List ℕ) (p : ℕ) (bs : List ℕ) (n : ℕ)
    → length bs ≤ n
    → p + n ≤ length m
    → ((q : ℕ) → p ≤ q → get_or m q 0 ≡ 0)
    → read_bytes (write_bytes m p bs) p n ≡ bs ++ replicate (n - length bs) 0
read_bytes-padded m p bs n short fits zeros =
    ap (read_bytes (write_bytes m p bs) p) split
    ∙ read_bytes-append (write_bytes m p bs) p (length bs) (n - length bs)
    ∙ ap₂ ◌++◌ (read_bytes-write_self m p bs (omega arith)) (
        read_bytes-write_ne m p bs (p + length bs) (n - length bs) (inr (omega arith))
        ∙ read_bytes-zeros m (p + length bs) (n - length bs) (λ q lo. zeros q (omega arith)))
  where
    split : n ≡ length bs + (n - length bs)
    split = omega arith
