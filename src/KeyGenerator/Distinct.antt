-- ===== src/KeyGenerator/Distinct.antt =====
-- Threads that draw from src/sequence_key_generator.h at the same time never get the same key.
use index_zoo.Base.{
  arith, ℕ, ◌+◌, ◌*◌, ◌<◌, ◌≤◌, ◌≡◌, ◌≢◌, sym, ◌∙◌, ◌^◌, List, [], ◌∷◌, length, ◌⊎◌, inl, inr,
  ℕ_discrete,
}
use index_zoo.Table.Offset.{word}
use index_zoo.KeyGenerator.{
  SequenceKeyGenerator, World, start, batch_key_count, refilled, fetched, get_next_key, call_all,
}

-- The batch of a thread.
abbrev InBatch : World → ℕ → ℕ → Type 0
InBatch w thread k =
    ((w.generators thread).local_curr_key ≤ k) × (k < (w.generators thread).local_max_key)

-- The batches lie below the counter and do not overlap.
record IsFair (w : World) : Type 0 where
  curr-le : (t : ℕ) → (w.generators t).local_curr_key ≤ (w.generators t).local_max_key
  max-le : (t : ℕ) → (w.generators t).local_max_key ≤ w.global_curr_key
  apart : (t u k : ℕ) → InBatch w t k → InBatch w u k → t ≡ u

-- The keys that can still be returned.
Left : World → ℕ → Type 0
Left w k = (w.global_curr_key ≤ k) ⊎ ((t : ℕ) × InBatch w t k)

module _ (w : World) (fair : IsFair w) (thread : ℕ)
    (room : w.global_curr_key + batch_key_count < word) where
  abbrev mine : SequenceKeyGenerator
  mine = w.generators thread

  abbrev after : World
  after = (get_next_key w thread).0

  key : ℕ
  key = (get_next_key w thread).1

  -- A call on an empty batch takes the next 1024 keys.
  record Refills : Type 0 where
    empty : mine.local_curr_key ≡ mine.local_max_key
    key_is : key ≡ w.global_curr_key
    global_is : after.global_curr_key ≡ w.global_curr_key + 1024
    curr_is : (after.generators thread).local_curr_key ≡ w.global_curr_key + 1
    max_is : (after.generators thread).local_max_key ≡ w.global_curr_key + 1024

  -- Any other takes the first key of the batch.
  record Advances : Type 0 where
    some_left : mine.local_curr_key < mine.local_max_key
    key_is : key ≡ mine.local_curr_key
    global_is : after.global_curr_key ≡ w.global_curr_key
    curr_is : (after.generators thread).local_curr_key ≡ mine.local_curr_key + 1
    max_is : (after.generators thread).local_max_key ≡ mine.local_max_key

  one_of : Refills ⊎ Advances
  unfolding get_next_key refilled fetched key
  one_of = elim (ℕ_discrete mine.local_curr_key mine.local_max_key) [
    | yes same ↦ inl (ground arith)
    | no differ ↦
        let bound = fair.curr-le thread in let below = fair.max-le thread in inr (ground arith)
  ]

  others : (t : ℕ) → t ≢ thread → after.generators t ≡ w.generators t
  unfolding get_next_key
  others t other = ground arith

  -- Who has `k` in the batch after the call had it before, or it is one of the keys just fetched.
  owner :
      (t k : ℕ)
      → InBatch after t k
      → ((InBatch w t k) × (k ≢ key)) ⊎ ((t ≡ thread) × (w.global_curr_key < k))
  owner t k held = elim (ℕ_discrete t thread) [
    | no other ↦
        let before : InBatch w t k = rw (others t other) at held in
        inl (before, not_key other before)
    | yes same ↦
        let here : InBatch after thread k = rw same at held in
        elim one_of [
          | inl r ↦ inr (same, omega (arith, r.curr_is, here.0))
          | inr a ↦
              let before : InBatch w t k =
                rw same (omega (arith, a.curr_is, here.0), omega (arith, a.max_is, here.1)) in
              inl (before, λ e. absurd (omega (arith, a.curr_is, a.key_is, here.0)))
        ]
  ]
    where
      not_key : t ≢ thread → InBatch w t k → k ≢ key
      not_key other before e = elim one_of [
        | inl r ↦ absurd (omega (arith, r.key_is, before.1, fair.max-le t))
        | inr a ↦
            let mine_too : InBatch w thread k =
              (omega (arith, a.key_is), omega (arith, a.key_is, a.some_left)) in
            absurd (other (fair.apart t thread k before mine_too))
      ]

  counter_grows : w.global_curr_key ≤ after.global_curr_key
  counter_grows = elim one_of [
    | inl r ↦ omega (arith, r.global_is)
    | inr a ↦ omega (arith, a.global_is)
  ]

  after-IsFair : IsFair after
  after-IsFair = record {
    curr-le = λ t. elim (ℕ_discrete t thread) [
      | no other ↦ rw (others t other) (fair.curr-le t)
      | yes same ↦ rw same (elim one_of [
        | inl r ↦ omega (arith, r.curr_is, r.max_is)
        | inr a ↦ omega (arith, a.curr_is, a.max_is, a.some_left)
      ])
    ];
    max-le = λ t. elim (ℕ_discrete t thread) [
      | no other ↦ rw (others t other) (omega (arith, fair.max-le t, counter_grows))
      | yes same ↦ rw same (elim one_of [
        | inl r ↦ omega (arith, r.max_is, r.global_is)
        | inr a ↦ omega (arith, a.max_is, a.global_is, fair.max-le thread)
      ])
    ];
    apart = λ t u k in_t in_u. elim (owner t k in_t) [
      | inl (old, _) ↦ elim (owner u k in_u) [
        | inl (old', _) ↦ fair.apart t u k old old'
        | inr (mine', new') ↦ absurd (omega (arith, old.1, fair.max-le t))
      ]
      | inr (mine_is, new) ↦ elim (owner u k in_u) [
        | inl (old', _) ↦ absurd (omega (arith, old'.1, fair.max-le u))
        | inr (mine', new') ↦ mine_is ∙ sym mine'
      ]
    ];
  }

  key-Left : Left w key
  unfolding Left
  key-Left = elim one_of [
    | inl r ↦ inl (omega (arith, r.key_is))
    | inr a ↦ inr (thread, (omega (arith, a.key_is), omega (arith, a.key_is, a.some_left)))
  ]

  -- The key that was returned is not left, and no key comes back.
  after-Left : (k : ℕ) → Left after k → Left w k × (k ≢ key)
  unfolding Left
  after-Left k (inl above) = (
    inl (omega (arith, counter_grows)),
    λ e. elim one_of [
      | inl r ↦ absurd (omega (arith, r.key_is, r.global_is))
      | inr a ↦ absurd (omega (arith, a.key_is, a.global_is, a.some_left, fair.max-le thread))
    ],
  )
  after-Left k (inr (t, held)) = elim (owner t k held) [
    | inl (old, other) ↦ (inr (t, old), other)
    | inr (_, new) ↦ (
      inl (omega arith),
      λ e. elim one_of [
        | inl r ↦ absurd (omega (arith, r.key_is))
        | inr a ↦ absurd (omega (arith, a.key_is, a.some_left, fair.max-le thread))
      ],
    )
  ]

  counter-le : after.global_curr_key ≤ w.global_curr_key + 1024
  counter-le = elim one_of [
    | inl r ↦ omega (arith, r.global_is)
    | inr a ↦ omega (arith, a.global_is)
  ]

abbrev pub NotIn : ℕ → List ℕ → Type 0
NotIn k [] = Unit
NotIn k (x ∷ xs) = (x ≢ k) × NotIn k xs

abbrev pub AllDistinct : List ℕ → Type 0
AllDistinct [] = Unit
AllDistinct (x ∷ xs) = NotIn x xs × AllDistinct xs

abbrev AllLeft : World → List ℕ → Type 0
AllLeft w [] = Unit
AllLeft w (k ∷ ks) = Left w k × AllLeft w ks

call_all-AllDistinct :
    (schedule : List ℕ) (w : World)
    → IsFair w
    → w.global_curr_key + length schedule * 1024 < word
    → AllLeft w (call_all schedule w).1 × AllDistinct (call_all schedule w).1
unfolding call_all key
call_all-AllDistinct [] w fair room = (tt, tt)
call_all-AllDistinct (thread ∷ schedule) w fair room =
    let enough : w.global_curr_key + batch_key_count < word = omega arith in
    let w' = (get_next_key w thread).0 in
    let (left, distinct) =
      call_all-AllDistinct schedule w' (after-IsFair w fair thread enough)
        (omega (arith, counter-le w fair thread enough)) in
    (
      (key-Left w fair thread enough, was_left enough (call_all schedule w').1 left),
      (not_again enough (call_all schedule w').1 left, distinct),
    )
  where
    was_left :
        w.global_curr_key + batch_key_count < word
        → (ks : List ℕ) → AllLeft (get_next_key w thread).0 ks
        → AllLeft w ks
    was_left enough [] left = tt
    was_left enough (k ∷ ks) left =
        ((after-Left w fair thread enough k left.0).0, was_left enough ks left.1)

    not_again :
        w.global_curr_key + batch_key_count < word
        → (ks : List ℕ) → AllLeft (get_next_key w thread).0 ks
        → NotIn (get_next_key w thread).1 ks
    not_again enough [] left = tt
    not_again enough (k ∷ ks) left =
        ((after-Left w fair thread enough k left.0).1, not_again enough ks left.1)

start-IsFair : IsFair start
start-IsFair = record {
  curr-le = λ t. omega arith;
  max-le = λ t. omega arith;
  apart = λ t u k in_t in_u. absurd (omega (arith, in_t.1));
}

-- In any interleaving of fewer than 2^54 calls of `get_next_key` for 64-bit keys, by any threads, no key is
-- returned twice.
pub sequence_keys-AllDistinct :
    (schedule : List ℕ) → length schedule < 2 ^ 54 → AllDistinct (call_all schedule start).1
sequence_keys-AllDistinct schedule few =
    (call_all-AllDistinct schedule start start-IsFair (omega arith)).1
