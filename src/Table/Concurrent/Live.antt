-- ===== src/Table/Concurrent/Live.antt =====
-- While the active block is full, some concurrent call of `insert_tuple` (src/generic_data_table.h) is about
-- to make a new one active.
use index_zoo.Base.{arith, ℕ, ◌+◌, ◌<◌, ◌≤◌, ◌≡◌, ◌≢◌, refl, sym, ◌∙◌, inl, inr, ℕ_discrete, dec_lt}
use index_zoo.Table.Concurrent.{Phase, loaded, holding, growing, publishing, World, set_at, start}
use index_zoo.Table.Concurrent.Safe.{phase_after}
use index_zoo.Table.Concurrent.Kept.{set_at_other, set_at_self}

-- A call that is to extend the table behind the active block.
pub data Extends (cap active : ℕ) : Phase → Type 0 where
  last_held : (n : ℕ) → n + 1 ≡ cap → Extends cap active (holding active n)
  grows : (n : ℕ) → Extends cap active (growing active n)
  publishes : (b n new_block : ℕ) → Extends cap active (publishing b n new_block)

pub record IsLive (cap : ℕ) (w : World) : Type 0 where
  pub behind : (t b : ℕ) → w.phases t ≡ loaded b → b ≤ w.active_data_block
  pub fresh :
      (t b n new_block : ℕ)
      → w.phases t ≡ publishing b n new_block
      → w.next_rel_offsets new_block ≡ 0
  pub newest :
      (t b n new_block : ℕ)
      → w.phases t ≡ publishing b n new_block
      → (w.active_data_block < new_block) × (w.block_count ≡ new_block + 1)
  pub one :
      (t u b n new_block c m other : ℕ)
      → w.phases t ≡ publishing b n new_block
      → w.phases u ≡ publishing c m other
      → t ≡ u
  pub extended :
      cap ≤ w.next_rel_offsets w.active_data_block
      → (u : ℕ) × Extends cap w.active_data_block (w.phases u)

pub start-IsLive : (cap : ℕ) → 1 ≤ cap → IsLive cap start
start-IsLive cap some_slot = record {
  behind = λ t b h. cc;
  fresh = λ t b n new h. cc;
  newest = λ t b n new h. cc;
  one = λ t u b n new c m other h k. cc;
  extended = λ full. absurd (omega arith);
}

-- A step of the call `t` to the phase `p` that leaves blocks alone and does not publish.
module _ (cap : ℕ) (w : World) (live : IsLive cap w) (t : ℕ) (p : Phase)
    (not_publishing : (b n new_block : ℕ) → p ≢ publishing b n new_block)
    (loads : (b : ℕ) → p ≡ loaded b → b ≤ w.active_data_block)
    (still : Extends cap w.active_data_block (w.phases t) → Extends cap w.active_data_block p) where
  abbrev moved : World
  moved = record w { phases = set_at w.phases t p }

  publishing_before :
      (u b n new_block : ℕ)
      → set_at w.phases t p u ≡ publishing b n new_block
      → w.phases u ≡ publishing b n new_block
  publishing_before u b n new_block h = elim (phase_after w.phases t p u) [
    | inl (same, is_new) ↦ absurd (not_publishing b n new_block (sym is_new ∙ h))
    | inr (other, is_old) ↦ sym is_old ∙ h
  ]

  pub moved-IsLive : IsLive cap moved
  moved-IsLive = record {
    behind = λ u b h. elim (phase_after w.phases t p u) [
      | inl (same, is_new) ↦ loads b (sym is_new ∙ h)
      | inr (other, is_old) ↦ live.behind u b (sym is_old ∙ h)
    ];
    fresh = λ u b n new h. live.fresh u b n new (publishing_before u b n new h);
    newest = λ u b n new h. live.newest u b n new (publishing_before u b n new h);
    one = λ u v b n new c m other h k.
        live.one u v b n new c m other (publishing_before u b n new h)
          (publishing_before v c m other k);
    extended = λ full.
        let (u, extends) = live.extended full in
        (
          u,
          elim (phase_after w.phases t p u) [
            | inl (same, is_new) ↦ rw is_new (still (rw same at extends))
            | inr (other, is_old) ↦ rw is_old extends
          ],
        );
  }

-- A step that counts one more slot of the block `b`.
module _ (cap : ℕ) (w : World) (live : IsLive cap w) (t b : ℕ) (at_t : w.phases t ≡ loaded b)
    (p : Phase) (not_publishing : (c n new_block : ℕ) → p ≢ publishing c n new_block)
    (not_loaded : (c : ℕ) → p ≢ loaded c)
    (last_slot : (n : ℕ) → n ≡ w.next_rel_offsets b → n < cap → cap ≤ n + 1 → Extends cap b p) where
  abbrev active : ℕ
  active = w.active_data_block

  abbrev counts : ℕ → ℕ
  counts = set_at w.next_rel_offsets b (w.next_rel_offsets b + 1)

  abbrev recounted : World
  recounted = record w { next_rel_offsets = counts; phases = set_at w.phases t p }

  before :
      (u c n new_block : ℕ)
      → set_at w.phases t p u ≡ publishing c n new_block
      → w.phases u ≡ publishing c n new_block
  before u c n new_block h = elim (phase_after w.phases t p u) [
    | inl (same, is_new) ↦ absurd (not_publishing c n new_block (sym is_new ∙ h))
    | inr (other, is_old) ↦ sym is_old ∙ h
  ]

  not_extending : Extends cap active (loaded b) → ⊥
  not_extending extends = no_loaded (loaded b) extends refl
    where
      no_loaded : (q : Phase) → Extends cap active q → q ≢ loaded b
      no_loaded q (last_held n e) same = cc
      no_loaded q (grows n) same = cc
      no_loaded q (publishes c n new) same = cc

  kept : (u : ℕ) → Extends cap active (w.phases u) → Extends cap active (set_at w.phases t p u)
  kept u extends = elim (phase_after w.phases t p u) [
    | inl (same, is_new) ↦ absurd (not_extending (rw (same, at_t) at extends))
    | inr (other, is_old) ↦ rw is_old extends
  ]

  still_extended : cap ≤ counts active → (u : ℕ) × Extends cap active (set_at w.phases t p u)
  still_extended full = elim (dec_lt (w.next_rel_offsets active) cap) [
    | no was_full ↦ let (u, extends) = live.extended (omega arith) in (u, kept u extends)
    | yes some_left ↦ elim (ℕ_discrete active b) [
      | no other ↦
          let same_count : counts active ≡ w.next_rel_offsets active =
            set_at_other w.next_rel_offsets b (w.next_rel_offsets b + 1) active other in
          absurd (omega arith)
      | yes same ↦
          let reached : cap ≤ w.next_rel_offsets b + 1 =
            rw (same, set_at_self w.next_rel_offsets b (w.next_rel_offsets b + 1)) at full in
          let is_new : set_at w.phases t p t ≡ p = ground arith in
          (
            t,
            rw (is_new, same)
                (last_slot (w.next_rel_offsets b) refl (rw same at some_left) reached),
          )
    ]
  ]

  pub recounted-IsLive : IsLive cap recounted
  recounted-IsLive = record {
    behind = λ u c h. elim (phase_after w.phases t p u) [
      | inl (same, is_new) ↦ absurd (not_loaded c (sym is_new ∙ h))
      | inr (other, is_old) ↦ live.behind u c (sym is_old ∙ h)
    ];
    fresh = λ u c n new h.
        let (ahead, _) = live.newest u c n new (before u c n new h) in
        set_at_other w.next_rel_offsets b (w.next_rel_offsets b + 1) new
          (omega (arith, live.behind t b at_t))
        ∙ live.fresh u c n new (before u c n new h);
    newest = λ u c n new h. live.newest u c n new (before u c n new h);
    one = λ u v c n new d m other h k.
        live.one u v c n new d m other (before u c n new h) (before v d m other k);
    extended = still_extended;
  }
