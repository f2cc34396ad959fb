-- ===== src/Table/Concurrent/Kept.antt =====
-- Each step of a concurrent call of `insert_tuple` (src/generic_data_table.h) keeps what holds.
use index_zoo.Base.{
  arith, ℕ, ◌+◌, ◌<◌, ◌≤◌, ◌≡◌, ◌≢◌, sym, ap, ◌∙◌, Option, some, inl, inr, ℕ_discrete, dec_lt,
}
use index_zoo.Table.Concurrent.{loaded, holding, growing, World, set_at}
use index_zoo.Table.Concurrent.Safe.{slot_of, points_to, IsSafe, phase_after}

-- A number at another index is left alone.
pub set_at_other : (f : ℕ → ℕ) (i v j : ℕ) → j ≢ i → set_at f i v j ≡ f j
set_at_other f i v j h = ground arith

pub set_at_self : (f : ℕ → ℕ) (i v : ℕ) → set_at f i v i ≡ v
set_at_self f i v = ground arith

set_at_grows : (f : ℕ → ℕ) (i j : ℕ) → f j ≤ set_at f i (f i + 1) j
set_at_grows f i j = elim (ℕ_discrete j i) [
  | yes same ↦ rw (same, set_at_self f i (f i + 1)) (omega arith)
  | no other ↦ rw (set_at_other f i (f i + 1) j other) (omega arith)
]

abbrev pub slot : ℕ → ℕ → Option (ℕ × ℕ)
slot b n = some (b, n)

pub slot-injective : (b n c m : ℕ) → slot b n ≡ slot c m → (b ≡ c) × (n ≡ m)
slot-injective b n c m e = (cc, cc)

module _ (cap : ℕ) (w : World) (safe : IsSafe cap w) where
  module _ (b : ℕ) where
    -- With the counter of a block one larger.
    abbrev pub counted : World
    counted = record w { next_rel_offsets = set_at w.next_rel_offsets b (w.next_rel_offsets b + 1) }

    pub counted-IsSafe : IsSafe cap counted
    counted-IsSafe = record {
      named = safe.named;
      active = safe.active;
      pointers = safe.pointers;
      slots = λ t c n h.
          let (inside, in_block, given) = safe.slots t c n h in
          (inside, in_block, omega (arith, set_at_grows w.next_rel_offsets b c));
      apart = safe.apart;
      full = λ c h. omega (arith, safe.full c h, set_at_grows w.next_rel_offsets b c);
      last = safe.last;
      grows = safe.grows;
    }

    module _ (t : ℕ) (at_t : w.phases t ≡ loaded b) (some_left : w.next_rel_offsets b < cap) where
      abbrev pub n : ℕ
      n = w.next_rel_offsets b

      abbrev pub taken : World
      taken = record counted { phases = set_at w.phases t (holding b n) }

      in_table : b < w.block_count
      in_table = safe.pointers t b (ap points_to at_t)

      -- Nobody has the slot yet.
      no_owner : (u c m : ℕ) → slot_of (w.phases u) ≡ some (c, m) → slot b n ≢ slot c m
      no_owner u c m h e =
          let (inside, in_block, given) = safe.slots u c m h in
          let (block, same) = slot-injective b n c m e in
          absurd (omega (arith, ap w.next_rel_offsets block))

      extends : n + 1 ≡ cap → w.block_count ≡ b + 1
      extends is_last = elim (dec_lt (b + 1) w.block_count) [
        | yes more ↦ absurd (omega (arith, safe.full b more))
        | no end ↦ omega (arith, in_table)
      ]

      pub taken-IsSafe : IsSafe cap taken
      taken-IsSafe = record {
        named = safe.named;
        active = safe.active;
        pointers = λ u c h. elim (phase_after w.phases t (holding b n) u) [
          | inl (same, is_new) ↦
              let no_way : points_to (holding b n) ≡ some c = rw is_new at h in cc
          | inr (other, is_old) ↦ safe.pointers u c (rw is_old at h)
        ];
        slots = λ u c m h. elim (phase_after w.phases t (holding b n) u) [
          | inl (same, is_new) ↦
              let mine : slot b n ≡ slot c m = rw is_new at h in
              let (block, same_slot) = slot-injective b n c m mine in
              (omega (arith, in_table), omega arith, new_given c m block same_slot)
          | inr (other, is_old) ↦ counted-IsSafe.slots u c m (rw is_old at h)
        ];
        apart = λ u v c m h k. elim (phase_after w.phases t (holding b n) u) [
          | inl (same, is_new) ↦ elim (phase_after w.phases t (holding b n) v) [
            | inl (same', is_new') ↦ same ∙ sym same'
            | inr (other', is_old') ↦ absurd (no_owner v c m (rw is_old' at k) (rw is_new at h))
          ]
          | inr (other, is_old) ↦ elim (phase_after w.phases t (holding b n) v) [
            | inl (same', is_new') ↦ absurd (no_owner u c m (rw is_old at h) (rw is_new' at k))
            | inr (other', is_old') ↦ safe.apart u v c m (rw is_old at h) (rw is_old' at k)
          ]
        ];
        full = counted-IsSafe.full;
        last = λ u c m h e. elim (phase_after w.phases t (holding b n) u) [
          | inl (same, is_new) ↦
              let mine : slot b n ≡ slot c m = rw is_new at h in
              let (block, same_slot) = slot-injective b n c m mine in
              omega (arith, extends (omega arith))
          | inr (other, is_old) ↦ safe.last u c m (rw is_old at h) e
        ];
        grows = λ u c m h. elim (phase_after w.phases t (holding b n) u) [
          | inl (same, is_new) ↦ let no_way : holding b n ≡ growing c m = sym is_new ∙ h in cc
          | inr (other, is_old) ↦ safe.grows u c m (sym is_old ∙ h)
        ];
      }
        where
          new_given :
              (c m : ℕ)
              → b ≡ c
              → n ≡ m
              → m < set_at w.next_rel_offsets b (w.next_rel_offsets b + 1) c
          new_given c m block same =
              rw (← block, ← same, set_at_self w.next_rel_offsets b (n + 1)) (omega arith)
