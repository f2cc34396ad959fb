-- ===== src/Table/Concurrent/Safe.antt =====
-- What holds between the steps of concurrent calls of `insert_tuple` (src/generic_data_table.h).
use index_zoo.Base.{
  arith, ℕ, ◌+◌, ◌<◌, ◌≤◌, ◌≡◌, ◌≢◌, sym, ◌∙◌, Option, none, some, ◌⊎◌, inl, inr, ℕ_discrete,
}
use index_zoo.Table.Concurrent.{
  Phase, reading, loaded, holding, growing, publishing, returned, World, set_at,
}

-- The slot that a call has.
abbrev pub slot_of : Phase → Option (ℕ × ℕ)
slot_of reading = none
slot_of (loaded b) = none
slot_of (holding b n) = some (b, n)
slot_of (growing b n) = some (b, n)
slot_of (publishing b n new) = some (b, n)
slot_of (returned id n) = some (id, n)

-- The block that a call is to extend the table behind, if its slot is the last.
abbrev pub to_extend : Phase → Option (ℕ × ℕ)
to_extend reading = none
to_extend (loaded b) = none
to_extend (holding b n) = some (b, n)
to_extend (growing b n) = some (b, n)
to_extend (publishing b n new) = none
to_extend (returned id n) = none

-- The block that a call is to look at or to make active.
abbrev pub points_to : Phase → Option ℕ
points_to reading = none
points_to (loaded b) = some b
points_to (holding b n) = none
points_to (growing b n) = none
points_to (publishing b n new) = some new
points_to (returned id n) = none

pub record IsSafe (cap : ℕ) (w : World) : Type 0 where
  pub named : (i : ℕ) → i < w.block_count → w.block_ids i ≡ i
  pub active : w.active_data_block < w.block_count
  pub pointers : (t b : ℕ) → points_to (w.phases t) ≡ some b → b < w.block_count
  pub slots :
      (t b n : ℕ)
      → slot_of (w.phases t) ≡ some (b, n)
      → (b < w.block_count) × (n < cap) × (n < w.next_rel_offsets b)
  pub apart :
      (t u b n : ℕ)
      → slot_of (w.phases t) ≡ some (b, n)
      → slot_of (w.phases u) ≡ some (b, n)
      → t ≡ u
  pub full : (b : ℕ) → b + 1 < w.block_count → cap ≤ w.next_rel_offsets b
  pub last :
      (t b n : ℕ) → to_extend (w.phases t) ≡ some (b, n) → n + 1 ≡ cap → w.block_count ≡ b + 1
  pub grows : (t b n : ℕ) → w.phases t ≡ growing b n → n + 1 ≡ cap

-- The phase of a call after a step of the call `t`.
pub phase_after :
    (f : ℕ → Phase) (t : ℕ) (p : Phase) (u : ℕ)
    → ((u ≡ t) × (set_at f t p u ≡ p)) ⊎ ((u ≢ t) × (set_at f t p u ≡ f u))
phase_after f t p u = elim (ℕ_discrete u t) [
  | yes same ↦ inl (same, ground arith)
  | no other ↦ inr (other, ground arith)
]

-- A step that changes only phases and active blocks: the new phase has the slot of the old one.
module _ (cap : ℕ) (w : World) (safe : IsSafe cap w) (t : ℕ) (p : Phase) (active : ℕ)
    (active_in : active < w.block_count)
    (keeps_slot : (b n : ℕ) → slot_of p ≡ some (b, n) → slot_of (w.phases t) ≡ some (b, n))
    (keeps_extend : (b n : ℕ) → to_extend p ≡ some (b, n) → to_extend (w.phases t) ≡ some (b, n))
    (points_in : (b : ℕ) → points_to p ≡ some b → b < w.block_count)
    (grows_last : (b n : ℕ) → p ≡ growing b n → n + 1 ≡ cap) where
  abbrev moved : World
  moved = record w { active_data_block = active; phases = set_at w.phases t p }

  slot_before :
      (u b n : ℕ)
      → slot_of (set_at w.phases t p u) ≡ some (b, n)
      → slot_of (w.phases u) ≡ some (b, n)
  slot_before u b n h = elim (phase_after w.phases t p u) [
    | inl (same, is_new) ↦ rw same (keeps_slot b n (rw is_new at h))
    | inr (other, is_old) ↦ rw is_old at h
  ]

  extend_before :
      (u b n : ℕ)
      → to_extend (set_at w.phases t p u) ≡ some (b, n)
      → to_extend (w.phases u) ≡ some (b, n)
  extend_before u b n h = elim (phase_after w.phases t p u) [
    | inl (same, is_new) ↦ rw same (keeps_extend b n (rw is_new at h))
    | inr (other, is_old) ↦ rw is_old at h
  ]

  pub moved-IsSafe : IsSafe cap moved
  moved-IsSafe = record {
    named = safe.named;
    active = active_in;
    pointers = λ u b h. elim (phase_after w.phases t p u) [
      | inl (same, is_new) ↦ points_in b (rw is_new at h)
      | inr (other, is_old) ↦ safe.pointers u b (rw is_old at h)
    ];
    slots = λ u b n h. safe.slots u b n (slot_before u b n h);
    apart = λ u v b n h k. safe.apart u v b n (slot_before u b n h) (slot_before v b n k);
    full = safe.full;
    last = λ u b n h e. safe.last u b n (extend_before u b n h) e;
    grows = λ u b n h. elim (phase_after w.phases t p u) [
      | inl (same, is_new) ↦ grows_last b n (sym is_new ∙ h)
      | inr (other, is_old) ↦ safe.grows u b n (sym is_old ∙ h)
    ];
  }
