-- ===== src/Table/Concurrent/Progress.antt =====
-- Concurrent calls of `insert_tuple` (src/generic_data_table.h) can always be completed.
use index_zoo.Base.{arith, ℕ, ◌+◌, ◌<◌, ◌≤◌, ◌≡◌, refl, ap, dec_lt, ℕ_discrete}
use index_zoo.Table.Offset.{word}
use index_zoo.Table.Concurrent.{
  Phase, reading, loaded, holding, growing, publishing, returned, World, set_at, Step, load, take,
  retry, copy, copy_last, emplace, publish, Reach,
}
use index_zoo.Table.Concurrent.Kept.{set_at_other, set_at_self}
use index_zoo.Table.Concurrent.Live.{Extends, last_held, grows, publishes, IsLive}
use index_zoo.Table.Concurrent.Reached.{Reach-IsLive}

-- Steps of any calls, one after the other.
pub data Steps (cap : ℕ) : World → World → Type 0 where
  stop : (w : World) → Steps cap w w
  step : (t : ℕ) (w middle w' : World) → Step cap w t middle → Steps cap middle w' → Steps cap w w'

-- Steps that lead to where the call `t` has returned.
pub record CanReturn (cap : ℕ) (w : World) (t : ℕ) : Type 0 where
  pub after : World
  pub run : Steps cap w after
  pub id : ℕ
  pub rel_offset : ℕ
  pub returns : after.phases t ≡ returned id rel_offset

-- Steps that lead to where the active block has a slot left; no other block has more of its slots taken.
record CanGrow (cap : ℕ) (w : World) : Type 0 where
  after : World
  run : Steps cap w after
  room : after.next_rel_offsets after.active_data_block < cap
  bounded : (b : ℕ) → after.next_rel_offsets b ≤ w.next_rel_offsets b

phase_at : (f : ℕ → Phase) (t : ℕ) (p : Phase) → set_at f t p t ≡ p
phase_at f t p = ground arith

Steps-trans :
    (cap : ℕ) (end : World) {w middle : World}
    → Steps cap w middle
    → Steps cap middle end
    → Steps cap w end
Steps-trans cap end (stop w) more = more
Steps-trans cap end (step t w next middle first rest) more =
    step t w next end first (Steps-trans cap end rest more)

module _ (cap : ℕ) where
  returns_after : (w w' : World) (t : ℕ) → Steps cap w w' → CanReturn cap w' t → CanReturn cap w t
  returns_after w w' t steps can = record {
    after = can.after;
    run = Steps-trans cap can.after steps can.run;
    id = can.id;
    rel_offset = can.rel_offset;
    returns = can.returns;
  }

  first_step : (w w' : World) (t u : ℕ) → Step cap w u w' → CanReturn cap w' t → CanReturn cap w t
  first_step w w' t u taken can = returns_after w w' t (step u w w' w' taken (stop w')) can

  returned-CanReturn : (w : World) (t b n : ℕ) → w.phases t ≡ returned b n → CanReturn cap w t
  returned-CanReturn w t b n at_t = record {
    after = w;
    run = stop w;
    id = b;
    rel_offset = n;
    returns = at_t;
  }

  publishing-CanReturn :
      (w : World) (t b n new_block : ℕ) → w.phases t ≡ publishing b n new_block → CanReturn cap w t
  publishing-CanReturn w t b n new_block at_t =
      first_step w _ t t (publish b n new_block at_t refl) (
        returned-CanReturn _ t (w.block_ids b) n (phase_at w.phases t (returned (w.block_ids b) n)))

  growing-CanReturn : (w : World) (t b n : ℕ) → w.phases t ≡ growing b n → CanReturn cap w t
  growing-CanReturn w t b n at_t = first_step w _ t t (emplace b n at_t refl) (
      publishing-CanReturn _ t b n w.block_count
        (phase_at w.phases t (publishing b n w.block_count)))

  holding-CanReturn : (w : World) (t b n : ℕ) → w.phases t ≡ holding b n → CanReturn cap w t
  holding-CanReturn w t b n at_t = elim (ℕ_discrete (n + 1) cap) [
    | yes is_last ↦
        first_step w _ t t (copy_last b n at_t is_last refl)
          (growing-CanReturn _ t b n (phase_at w.phases t (growing b n)))
    | no inner ↦ first_step w _ t t (copy b n at_t inner refl) (
        returned-CanReturn _ t (w.block_ids b) n (phase_at w.phases t (returned (w.block_ids b) n)))
  ]

  taking-CanReturn :
      (w : World) (t b : ℕ) → w.phases t ≡ loaded b → w.next_rel_offsets b < cap → CanReturn cap w t
  taking-CanReturn w t b at_t some_left = first_step w _ t t (take b at_t some_left refl) (
      holding-CanReturn _ t b (w.next_rel_offsets b)
        (phase_at w.phases t (holding b (w.next_rel_offsets b))))

  reading-CanReturn :
      (w : World) (t : ℕ)
      → w.phases t ≡ reading
      → w.next_rel_offsets w.active_data_block < cap
      → CanReturn cap w t
  reading-CanReturn w t at_t room = first_step w _ t t (load at_t refl) (
      taking-CanReturn _ t w.active_data_block (phase_at w.phases t (loaded w.active_data_block))
        room)

  -- A call that looked at a full block looks again.
  retrying-CanReturn :
      (w : World) (t b : ℕ)
      → w.phases t ≡ loaded b
      → cap ≤ w.next_rel_offsets b
      → w.next_rel_offsets b + 1 < word
      → w.next_rel_offsets w.active_data_block < cap
      → CanReturn cap w t
  retrying-CanReturn w t b at_t none_left small room =
      first_step w _ t t (retry b at_t none_left small refl) (
        reading-CanReturn _ t (phase_at w.phases t reading) (
          rw
            (set_at_other w.next_rel_offsets b (w.next_rel_offsets b + 1) w.active_data_block
              (λ same. absurd (omega (arith, ap w.next_rel_offsets same))))
            room))

  with_room :
      (w : World) (t : ℕ)
      → ((b : ℕ) → w.next_rel_offsets b + 1 < word)
      → w.next_rel_offsets w.active_data_block < cap
      → (p : Phase) → w.phases t ≡ p
      → CanReturn cap w t
  with_room w t small room reading at_t = reading-CanReturn w t at_t room
  with_room w t small room (loaded b) at_t = elim (dec_lt (w.next_rel_offsets b) cap) [
    | yes some_left ↦ taking-CanReturn w t b at_t some_left
    | no none_left ↦ retrying-CanReturn w t b at_t (omega arith) (small b) room
  ]
  with_room w t small room (holding b n) at_t = holding-CanReturn w t b n at_t
  with_room w t small room (growing b n) at_t = growing-CanReturn w t b n at_t
  with_room w t small room (publishing b n new) at_t = publishing-CanReturn w t b n new at_t
  with_room w t small room (returned b n) at_t = returned-CanReturn w t b n at_t

  grow_after :
      (w w' : World) (u : ℕ)
      → Step cap w u w'
      → ((b : ℕ) → w'.next_rel_offsets b ≤ w.next_rel_offsets b)
      → CanGrow cap w'
      → CanGrow cap w
  grow_after w w' u taken smaller can = record {
    after = can.after;
    run = step u w w' can.after taken can.run;
    room = can.room;
    bounded = λ b. omega (arith, smaller b, can.bounded b);
  }

  publishing-CanGrow :
      (w : World) (u b n new_block : ℕ)
      → w.phases u ≡ publishing b n new_block
      → w.next_rel_offsets new_block < cap
      → CanGrow cap w
  publishing-CanGrow w u b n new_block at_u room =
      let w' : World = record w {
        active_data_block = new_block;
        phases = set_at w.phases u (returned (w.block_ids b) n);
      } in
      record {
        after = w';
        run = step u w w' w' (publish b n new_block at_u refl) (stop w');
        room = room;
        bounded = λ c. omega arith;
      }

  growing-CanGrow : (w : World) (u b n : ℕ) → 1 ≤ cap → w.phases u ≡ growing b n → CanGrow cap w
  growing-CanGrow w u b n some_slot at_u = grow_after w _ u (emplace b n at_u refl) emptied (
      publishing-CanGrow _ u b n w.block_count (phase_at w.phases u (publishing b n w.block_count))
        (rw (set_at_self w.next_rel_offsets w.block_count 0) (omega arith)))
    where
      emptied : (c : ℕ) → set_at w.next_rel_offsets w.block_count 0 c ≤ w.next_rel_offsets c
      emptied c = elim (ℕ_discrete c w.block_count) [
        | yes same ↦ rw (same, set_at_self w.next_rel_offsets w.block_count 0) (omega arith)
        | no other ↦ rw (set_at_other w.next_rel_offsets w.block_count 0 c other) (omega arith)
      ]

  extending-CanGrow :
      (w : World) (u : ℕ)
      → 1 ≤ cap
      → IsLive cap w
      → (p : Phase) → w.phases u ≡ p
      → Extends cap w.active_data_block p
      → CanGrow cap w
  extending-CanGrow w u some_slot live p at_u (last_held n is_last) =
      grow_after w _ u (copy_last w.active_data_block n at_u is_last refl) (λ b. omega arith)
        (growing-CanGrow _ u w.active_data_block n some_slot
          (phase_at w.phases u (growing w.active_data_block n)))
  extending-CanGrow w u some_slot live p at_u (grows n) =
      growing-CanGrow w u w.active_data_block n some_slot at_u
  extending-CanGrow w u some_slot live p at_u (publishes b n new_block) =
      publishing-CanGrow w u b n new_block at_u (omega (arith, live.fresh u b n new_block at_u))

  -- From every state that calls of `insert_tuple` reach in any order of their steps, on blocks of at least
  -- one slot whose counters are below 2^64 - 1, steps of the calls lead to a state in which a given
  -- call has returned: the calls never block each other for good.
  pub call-CanReturn :
      (w : World) (t : ℕ)
      → 1 ≤ cap
      → Reach cap w
      → ((b : ℕ) → w.next_rel_offsets b + 1 < word)
      → CanReturn cap w t
  call-CanReturn w t some_slot reach small =
      let live = Reach-IsLive cap some_slot reach in
      elim (dec_lt (w.next_rel_offsets w.active_data_block) cap) [
        | yes room ↦ with_room w t small room (w.phases t) refl
        | no full ↦
            let (u, extends) = live.extended (omega arith) in
            let grown = extending-CanGrow w u some_slot live (w.phases u) refl extends in
            returns_after w grown.after t grown.run (
              with_room grown.after t (λ b. omega (arith, small b, grown.bounded b)) grown.room
                (grown.after.phases t) refl)
      ]
