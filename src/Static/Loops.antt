-- ===== src/Static/Loops.antt =====
-- The `for` loops of src/static_index/kary_index.h and fast_index.h.
use index_zoo.Base.{
  arith, ℕ, zero, suc, ◌+◌, ◌<◌, ◌≡◌, Bool, Option, none, some, true, false, Run, done, Returns,
  Returns-bind, ◌>>=◌,
}

-- `for (i = ...; i < bound; ++i) { body }`; the first argument is `bound - i`.
unfoldable pub for_each {ℓ} : {A : Type ℓ} → ℕ → ℕ → (ℕ → A → Run A) → A → Run A
for_each zero i body a = done a
for_each (suc left) i body a = body i a >>= λ a'. for_each left (i + 1) body a'

-- The same loop with `if (test) return`: the first index that passes.
unfoldable pub first_such : ℕ → ℕ → (ℕ → Run Bool) → Run (Option ℕ)
first_such zero i test = done none
first_such (suc left) i test =
    test i >>= λ hit. elim hit [ true ↦ done (some i) | false ↦ first_such left (i + 1) test ]

-- The invariant rule: `P i` holds before the round of `i`.
pub for_each-Returns {ℓ} :
    {A : Type ℓ} (P : ℕ → A → Type 0) (body : ℕ → A → Run A) (stop : ℕ)
    → ((i : ℕ) (a : A) → i < stop → P i a → Returns (body i a) (P (i + 1)))
    → (left i : ℕ) (a : A) → i + left ≡ stop
    → P i a
    → Returns (for_each left i body a) (P stop)
unfolding for_each
for_each-Returns P body stop keep zero i a h p = let here : i ≡ stop = omega arith in rw here at p
for_each-Returns P body stop keep (suc left) i a h p =
    Returns-bind (P (i + 1)) (P stop) (body i a) (for_each left (i + 1) body)
      (keep i a (omega arith) p)
      (λ a' p'. for_each-Returns P body stop keep left (i + 1) a' (omega arith) p')
