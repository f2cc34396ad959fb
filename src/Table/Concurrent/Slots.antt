-- ===== src/Table/Concurrent/Slots.antt =====
-- Concurrent calls of `insert_tuple` (src/generic_data_table.h) never share a slot.
use index_zoo.Base.{arith, ℕ, ◌+◌, ◌<◌, ◌≤◌, ◌≡◌, ◌≢◌, sym, ap, ◌∙◌, some, inl, inr, ℕ_discrete}
use index_zoo.Table.Concurrent.{
  Phase, reading, loaded, holding, growing, publishing, returned, World, set_at, start, Step, load,
  take, retry, copy, copy_last, emplace, publish, Reach, here, next,
}
use index_zoo.Table.Concurrent.Safe.{
  slot_of, to_extend, points_to, IsSafe, phase_after, moved-IsSafe,
}
use index_zoo.Table.Concurrent.Kept.{counted-IsSafe, taken-IsSafe, set_at_other, set_at_self, slot}

-- The step that appends a block.
module _ (cap : ℕ) (w : World) (safe : IsSafe cap w) (t b n : ℕ)
    (at_t : w.phases t ≡ growing b n) where
  abbrev count : ℕ
  count = w.block_count

  is_last : n + 1 ≡ cap
  is_last = safe.grows t b n at_t

  ends : count ≡ b + 1
  ends = safe.last t b n (ap to_extend at_t) is_last

  abbrev after : Phase
  after = publishing b n count

  abbrev grown : World
  grown = record w {
    block_count = count + 1;
    block_ids = set_at w.block_ids count (w.block_ids b + 1);
    next_rel_offsets = set_at w.next_rel_offsets count 0;
    phases = set_at w.phases t after;
  }

  slot_before :
      (u c m : ℕ) → slot_of (set_at w.phases t after u) ≡ slot c m → slot_of (w.phases u) ≡ slot c m
  slot_before u c m h = elim (phase_after w.phases t after u) [
    | inl (same, is_new) ↦ rw same (ap slot_of at_t ∙ (rw is_new at h))
    | inr (other, is_old) ↦ rw is_old at h
  ]

  named_after : (i : ℕ) → i < count + 1 → set_at w.block_ids count (w.block_ids b + 1) i ≡ i
  named_after i h = elim (ℕ_discrete i count) [
    | yes same ↦
        rw (same, set_at_self w.block_ids count (w.block_ids b + 1))
          (omega (arith, ends, safe.named b (omega (arith, ends))))
    | no other ↦
        rw (set_at_other w.block_ids count (w.block_ids b + 1) i other) (safe.named i (omega arith))
  ]

  grown-IsSafe : IsSafe cap grown
  grown-IsSafe = record {
    named = named_after;
    active = omega (arith, safe.active);
    pointers = λ u c h. elim (phase_after w.phases t after u) [
      | inl (same, is_new) ↦
          let mine : points_to after ≡ some c = rw is_new at h in
          let block : count ≡ c = cc in omega arith
      | inr (other, is_old) ↦ omega (arith, safe.pointers u c (rw is_old at h))
    ];
    slots = λ u c m h.
        let (inside, in_block, given) = safe.slots u c m (slot_before u c m h) in
        (omega arith, in_block, rw (set_at_other w.next_rel_offsets count 0 c (omega arith)) given);
    apart = λ u v c m h k. safe.apart u v c m (slot_before u c m h) (slot_before v c m k);
    full = λ c h. rw (set_at_other w.next_rel_offsets count 0 c (omega arith)) (filled c h);
    last = λ u c m h e. elim (phase_after w.phases t after u) [
      | inl (same, is_new) ↦ let no_way : to_extend after ≡ slot c m = rw is_new at h in cc
      | inr (other, is_old) ↦ absurd (other (one_extends u c m (rw is_old at h) e))
    ];
    grows = λ u c m h. elim (phase_after w.phases t after u) [
      | inl (same, is_new) ↦ let no_way : after ≡ growing c m = sym is_new ∙ h in cc
      | inr (other, is_old) ↦ safe.grows u c m (sym is_old ∙ h)
    ];
  }
    where
      filled : (c : ℕ) → c + 1 < count + 1 → cap ≤ w.next_rel_offsets c
      filled c h = elim (ℕ_discrete c b) [
        | yes same ↦
            let (inside, in_block, given) = safe.slots t b n (ap slot_of at_t) in
            rw same (omega (arith, is_last, given))
        | no other ↦ safe.full c (omega (arith, ends))
      ]

      has_slot : (p : Phase) (c m : ℕ) → to_extend p ≡ slot c m → slot_of p ≡ slot c m
      has_slot (holding x y) c m h = h
      has_slot (growing x y) c m h = h
      has_slot reading c m h = cc
      has_slot (loaded x) c m h = cc
      has_slot (publishing x y z) c m h = cc
      has_slot (returned x y) c m h = cc

      -- Two calls with the last slot of the last block are one.
      one_extends : (u c m : ℕ) → to_extend (w.phases u) ≡ slot c m → m + 1 ≡ cap → u ≡ t
      one_extends u c m h e =
          let same_block : c ≡ b = omega (arith, ends, safe.last u c m h e) in
          let same_slot : m ≡ n = omega (arith, is_last) in
          let theirs : slot_of (w.phases u) ≡ slot b n =
            has_slot (w.phases u) c m h ∙ ap (λ x. slot x m) same_block ∙ ap (slot b) same_slot in
          safe.apart u t b n theirs (ap slot_of at_t)

start-IsSafe : (cap : ℕ) → IsSafe cap start
start-IsSafe cap = record {
  named = λ i h. omega arith;
  active = omega arith;
  pointers = λ t b h. cc;
  slots = λ t b n h. cc;
  apart = λ t u b n h k. cc;
  full = λ b h. absurd (omega arith);
  last = λ t b n h e. cc;
  grows = λ t b n h. cc;
}

-- Every step keeps what holds.
pub Step-IsSafe : (cap : ℕ) (w w' : World) (t : ℕ) → Step cap w t w' → IsSafe cap w → IsSafe cap w'
Step-IsSafe cap w w' t (load at_t after) safe = rw after (
    moved-IsSafe cap w safe t (loaded w.active_data_block) w.active_data_block safe.active
      (λ b n h. cc) (λ b n h. cc)
      (λ b h. (let same : w.active_data_block ≡ b = cc in rw (← same) safe.active)) (λ b n h. cc))
Step-IsSafe cap w w' t (take b at_t some_left after) safe =
    rw after (taken-IsSafe cap w safe b t at_t some_left)
Step-IsSafe cap w w' t (retry b at_t none_left small after) safe = rw after (
    moved-IsSafe cap _ (counted-IsSafe cap w safe b) t reading w.active_data_block safe.active
      (λ b n h. cc) (λ b n h. cc) (λ b h. cc) (λ b n h. cc))
Step-IsSafe cap w w' t (copy b n at_t inner after) safe = rw after (
    moved-IsSafe cap w safe t (returned (w.block_ids b) n) w.active_data_block safe.active
      (λ c m h.
        let (inside, in_block, given) = safe.slots t b n (ap slot_of at_t) in
        ap slot_of at_t ∙ ap (λ i. slot i n) (sym (safe.named b inside)) ∙ h)
      (λ c m h. cc) (λ c h. cc) (λ c m h. cc))
Step-IsSafe cap w w' t (copy_last b n at_t is_end after) safe = rw after (
    moved-IsSafe cap w safe t (growing b n) w.active_data_block safe.active
      (λ c m h. ap slot_of at_t ∙ h) (λ c m h. ap to_extend at_t ∙ h) (λ c h. cc)
      (λ c m h. (let same : n ≡ m = cc in omega arith)))
Step-IsSafe cap w w' t (emplace b n at_t after) safe = rw after (grown-IsSafe cap w safe t b n at_t)
Step-IsSafe cap w w' t (publish b n new_block at_t after) safe = rw after (
    moved-IsSafe cap w safe t (returned (w.block_ids b) n) new_block
      (safe.pointers t new_block (ap points_to at_t))
      (λ c m h.
        let (inside, in_block, given) = safe.slots t b n (ap slot_of at_t) in
        ap slot_of at_t ∙ ap (λ i. slot i n) (sym (safe.named b inside)) ∙ h)
      (λ c m h. cc) (λ c h. cc) (λ c m h. cc))

pub Reach-IsSafe : (cap : ℕ) {w : World} → Reach cap w → IsSafe cap w
Reach-IsSafe cap here = start-IsSafe cap
Reach-IsSafe cap (next {w} {w'} r t st) = Step-IsSafe cap w w' t st (Reach-IsSafe cap r)

module _ (cap : ℕ) (w : World) (reach : Reach cap w) (t u : ℕ) (other : t ≢ u) (b n c m : ℕ) where
  -- However the steps of calls of `insert_tuple` interleave on blocks of `cap` slots: two calls that have
  -- returned have returned different pairs of a block number and a position, and each names a slot of a
  -- block of the table.
  pub returned_apart :
      w.phases t ≡ returned b n
      → w.phases u ≡ returned c m
      → (slot b n ≢ slot c m) × (b < w.block_count) × (n < cap)
  returned_apart at_t at_u =
      let safe = Reach-IsSafe cap reach in
      let (inside, in_block, given) = safe.slots t b n (ap slot_of at_t) in
      (
        λ same. other (safe.apart t u b n (ap slot_of at_t) (ap slot_of at_u ∙ sym same)),
        inside,
        in_block,
      )

  -- However the steps of calls of `insert_tuple` interleave: no two calls are about to append a block to
  -- the table at the same time.
  pub one_grows : w.phases t ≡ growing b n → ¬ (w.phases u ≡ growing c m)
  one_grows at_t at_u =
      let safe = Reach-IsSafe cap reach in
      let last_t : n + 1 ≡ cap = safe.grows t b n at_t in
      let last_u : m + 1 ≡ cap = safe.grows u c m at_u in
      let ends_t : w.block_count ≡ b + 1 = safe.last t b n (ap to_extend at_t) last_t in
      let ends_u : w.block_count ≡ c + 1 = safe.last u c m (ap to_extend at_u) last_u in
      let block : c ≡ b = omega arith in
      let same : m ≡ n = omega arith in
      other (
        safe.apart t u b n (ap slot_of at_t)
          (ap slot_of at_u ∙ ap (λ x. slot x m) block ∙ ap (slot b) same))
