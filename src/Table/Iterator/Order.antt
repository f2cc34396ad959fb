-- ===== src/Table/Iterator/Order.antt =====
-- The iterator visits the tuples of a table once each, in the order of their insertion.
use index_zoo.Base.{
  ℕ, zero, suc, ◌+◌, ◌*◌, ◌%◌, ◌/◌, ◌^◌, ◌<◌, ◌≤◌, ◌≡◌, ◌≢◌, refl, sym, List, [], ◌∷◌, arith, Run,
  done, fail, ◌>>=◌, Bool-cases, true, false, inl, inr, ◌==◌, eqb_iff, dec_lt,
}
use index_zoo.Table.Offset.{word}
use index_zoo.Table.Generic.{GenericDataTable}
use index_zoo.Table.Generic.Laws.{div_part, mod_part}
use native.Mathlib.Nat.{mod-eq_of_lt}
use index_zoo.Table.Iterator.{
  IteratorEntry, TableIterator, has_next, advance, entry_at, next, iterate,
}

-- The entries of the `k` tuples from number `p` on, block by block.
unfoldable pub entries_from : GenericDataTable → ℕ → ℕ → Run (List IteratorEntry)
entries_from t p zero = done []
entries_from t p (suc k) = do
  entry ← entry_at t (p / t.max_block_capacity) (p % t.max_block_capacity)
  rest ← entries_from t (p + 1) k
  done (entry ∷ rest)

-- The iterator stands at tuple number `p` of `n`.
pub record Stands (cap p n : ℕ) (it : TableIterator) : Type 0 where
  pub max_rel : it.max_rel_offset + 1 ≡ cap
  pub inside : it.curr_rel_offset < cap
  pub last_inside : it.last_rel_offset < cap
  pub here : it.curr_block_id * cap + it.curr_rel_offset ≡ p
  pub last : it.last_block_id * cap + it.last_rel_offset + 1 ≡ n
  pub small : n < word
  pub few : it.last_block_id + 1 < word
  pub positions : cap ≤ 2 ^ 24

before : (a b i c : ℕ) → a < b → i < c → a * c + i < b * c
before a b i c h k = let step : (a + 1) * c ≤ b * c = grind arith in omega arith

module _ (cap p n : ℕ) (it : TableIterator) (s : Stands cap p n it) where
  open s use {here, last, inside, last_inside}

  has_next-true : p < n → has_next it ≡ true
  unfolding has_next
  has_next-true h = ground (
    arith,
    before it.last_block_id it.curr_block_id it.last_rel_offset cap,
    before it.curr_block_id it.last_block_id it.curr_rel_offset cap,
    here,
    last,
    inside,
    last_inside,
  )

  has_next-false : n ≤ p → has_next it ≡ false
  unfolding has_next
  has_next-false h = ground (
    arith,
    before it.last_block_id it.curr_block_id it.last_rel_offset cap,
    before it.curr_block_id it.last_block_id it.curr_rel_offset cap,
    here,
    last,
    inside,
    last_inside,
  )

  not_past : p < n → it.curr_block_id ≤ it.last_block_id
  not_past h = elim (dec_lt it.last_block_id it.curr_block_id) [
    | no within ↦ omega arith
    | yes past ↦ absurd (
        omega (
          arith,
          before it.last_block_id it.curr_block_id it.last_rel_offset cap past last_inside,
          here,
          last,
        ))
  ]

  advance-Stands : p < n → Stands cap (p + 1) n (advance it)
  unfolding advance
  advance-Stands h = elim (Bool-cases (it.curr_rel_offset == it.max_rel_offset)) [
    | inl end ↦ rw end (record {
      max_rel = s.max_rel;
      inside = omega (arith, inside);
      last_inside = last_inside;
      here = rw (mod-eq_of_lt no_wrap) (omega (arith, here, (eqb_iff _ _).0 end, s.max_rel));
      last = last;
      small = s.small;
      few = s.few;
      positions = s.positions;
    })
    | inr more ↦ rw more (record {
      max_rel = s.max_rel;
      inside = omega (arith, inside, s.max_rel, not_last more, s.positions);
      last_inside = last_inside;
      here = rw (mod-eq_of_lt short) (omega (arith, here));
      last = last;
      small = s.small;
      few = s.few;
      positions = s.positions;
    })
  ]
    where
      no_wrap : it.curr_block_id + 1 < word
      no_wrap = omega (arith, not_past h, s.few)

      short : it.curr_rel_offset + 1 < word
      short = omega (arith, inside, s.positions)

      not_last :
          (it.curr_rel_offset == it.max_rel_offset) ≡ false → it.curr_rel_offset ≢ it.max_rel_offset
      not_last e = ground arith

  here_div : it.curr_block_id ≡ p / cap
  here_div = rw (← here) (sym (div_part it.curr_block_id it.curr_rel_offset cap inside))

  here_mod : it.curr_rel_offset ≡ p % cap
  here_mod = rw (← here) (sym (mod_part it.curr_block_id it.curr_rel_offset cap inside))

collect :
    (m : Run IteratorEntry) (it : TableIterator) (later : TableIterator → Run (List IteratorEntry))
    (rest : Run (List IteratorEntry))
    → later it ≡ rest
    → ((m >>= λ entry. done (it, entry))
        >>= (λ (x : TableIterator × IteratorEntry). later x.0 >>= λ l. done (x.1 ∷ l)))
      ≡ (m >>= λ entry. rest >>= λ l. done (entry ∷ l))
collect (done entry) it later rest h = rw h refl
collect (fail f) it later rest h = refl

-- From tuple number `p` the loop collects the `k` entries that are left.
pub iterate-entries_from :
    (t : GenericDataTable) (k p n fuel : ℕ) (it : TableIterator)
    → Stands t.max_block_capacity p n it
    → p + k ≡ n
    → k < fuel
    → iterate fuel t it ≡ entries_from t p k
unfolding iterate entries_from next
iterate-entries_from t k p n zero it s e h = absurd (omega arith)
iterate-entries_from t zero p n (suc fuel) it s e h =
    rw (has_next-false t.max_block_capacity p n it s (omega arith)) refl
iterate-entries_from t (suc k) p n (suc fuel) it s e h =
    rw
      (
        has_next-true t.max_block_capacity p n it s (omega arith),
        sym (here_div t.max_block_capacity p n it s),
        sym (here_mod t.max_block_capacity p n it s),
      )
      (collect (entry_at t it.curr_block_id it.curr_rel_offset) (advance it) (iterate fuel t)
        (entries_from t (p + 1) k)
        (iterate-entries_from t k (p + 1) n fuel (advance it)
          (advance-Stands t.max_block_capacity p n it s (omega arith)) (omega arith) (omega arith)))
