-- ===== src/Table/Concurrent/Reached.antt =====
-- Whatever concurrent calls of `insert_tuple` (src/generic_data_table.h) reach, some call extends a table
-- whose active block is full.
use index_zoo.Base.{arith, ℕ, ◌+◌, ◌≤◌, ◌≡◌, ◌≢◌, refl, sym, ap, ◌∙◌, inl, inr}
use index_zoo.Table.Concurrent.{
  Phase, reading, loaded, holding, growing, publishing, returned, World, set_at, Step, load, take,
  retry, copy, copy_last, emplace, publish, Reach, here, next,
}
use index_zoo.Table.Concurrent.Safe.{slot_of, to_extend, IsSafe, phase_after}
use index_zoo.Table.Concurrent.Kept.{set_at_self}
use index_zoo.Table.Concurrent.Slots.{Reach-IsSafe}
use index_zoo.Table.Concurrent.Live.{
  Extends, last_held, grows, publishes, IsLive, start-IsLive, moved-IsLive, recounted-IsLive,
}

-- The step that appends a block.
module _ (cap : ℕ) (w : World) (safe : IsSafe cap w) (live : IsLive cap w) (t b n : ℕ)
    (at_t : w.phases t ≡ growing b n) where
  abbrev count : ℕ
  count = w.block_count

  abbrev p : Phase
  p = publishing b n count

  abbrev grown : World
  grown = record w {
    block_count = count + 1;
    block_ids = set_at w.block_ids count (w.block_ids b + 1);
    next_rel_offsets = set_at w.next_rel_offsets count 0;
    phases = set_at w.phases t p;
  }

  ends : count ≡ b + 1
  ends = safe.last t b n (ap to_extend at_t) (safe.grows t b n at_t)

  -- No other call has appended a block that is not active yet.
  alone : (u c m new_block : ℕ) → w.phases u ≢ publishing c m new_block
  alone u c m new_block h =
      let (inside, in_block, given) = safe.slots t b n (ap slot_of at_t) in
      let (ahead, is_last) = live.newest u c m new_block h in
      let same : new_block ≡ b = omega (arith, ends) in
      absurd (omega (arith, ap w.next_rel_offsets same, live.fresh u c m new_block h))

  block_of : (c m new_block : ℕ) → p ≡ publishing c m new_block → count ≡ new_block
  block_of c m new_block e = cc

  grown-IsLive : IsLive cap grown
  grown-IsLive = record {
    behind = λ u c h. elim (phase_after w.phases t p u) [
      | inl (same, is_new) ↦ let no_way : p ≡ loaded c = sym is_new ∙ h in cc
      | inr (other, is_old) ↦ live.behind u c (sym is_old ∙ h)
    ];
    fresh = λ u c m new h. elim (phase_after w.phases t p u) [
      | inl (same, is_new) ↦
          rw (← block_of c m new (sym is_new ∙ h)) (set_at_self w.next_rel_offsets count 0)
      | inr (other, is_old) ↦ absurd (alone u c m new (sym is_old ∙ h))
    ];
    newest = λ u c m new h. elim (phase_after w.phases t p u) [
      | inl (same, is_new) ↦ rw (← block_of c m new (sym is_new ∙ h)) (safe.active, refl)
      | inr (other, is_old) ↦ absurd (alone u c m new (sym is_old ∙ h))
    ];
    one = λ u v c m new d k other_block h g. elim (phase_after w.phases t p u) [
      | inl (same, is_new) ↦ elim (phase_after w.phases t p v) [
        | inl (same', is_new') ↦ same ∙ sym same'
        | inr (other', is_old') ↦ absurd (alone v d k other_block (sym is_old' ∙ g))
      ]
      | inr (other, is_old) ↦ absurd (alone u c m new (sym is_old ∙ h))
    ];
    extended = λ full.
        let is_new : set_at w.phases t p t ≡ p = ground arith in
        (t, rw is_new (publishes b n count));
  }

-- The step that makes the new block active.
module _ (cap : ℕ) (w : World) (safe : IsSafe cap w) (live : IsLive cap w) (t b n new_block : ℕ)
    (at_t : w.phases t ≡ publishing b n new_block) where
  abbrev q : Phase
  q = returned (w.block_ids b) n

  abbrev published : World
  published = record w { active_data_block = new_block; phases = set_at w.phases t q }

  published-IsLive : IsLive cap published
  published-IsLive = record {
    behind = λ u c h. elim (phase_after w.phases t q u) [
      | inl (same, is_new) ↦ let no_way : q ≡ loaded c = sym is_new ∙ h in cc
      | inr (other, is_old) ↦
          let (ahead, is_last) = live.newest t b n new_block at_t in
          omega (arith, live.behind u c (sym is_old ∙ h))
    ];
    fresh = λ u c m new h. absurd (none_left u c m new h);
    newest = λ u c m new h. absurd (none_left u c m new h);
    one = λ u v c m new d k other_block h g. absurd (none_left u c m new h);
    extended = λ full.
        let (inside, in_block, given) = safe.slots t b n (ap slot_of at_t) in
        absurd (omega (arith, live.fresh t b n new_block at_t));
  }
    where
      none_left : (u c m new : ℕ) → set_at w.phases t q u ≢ publishing c m new
      none_left u c m new h = elim (phase_after w.phases t q u) [
        | inl (same, is_new) ↦ let no_way : q ≡ publishing c m new = sym is_new ∙ h in cc
        | inr (other, is_old) ↦ other (live.one u t c m new b n new_block (sym is_old ∙ h) at_t)
      ]

not_reading : (cap active : ℕ) (p : Phase) → Extends cap active p → p ≢ reading
not_reading cap active p (last_held n e) same = cc
not_reading cap active p (grows n) same = cc
not_reading cap active p (publishes c n new) same = cc

holds_last :
    (cap active b n : ℕ) (p : Phase)
    → Extends cap active p
    → p ≡ holding b n
    → (b ≡ active) × (n + 1 ≡ cap)
holds_last cap active b n p (last_held m e) same =
    let block : active ≡ b = cc in let slot : m ≡ n = cc in (sym block, omega arith)
holds_last cap active b n p (grows m) same = cc
holds_last cap active b n p (publishes c m new) same = cc

module _ (cap : ℕ) where
  Step-IsLive :
      (w w' : World) (t : ℕ) → Step cap w t w' → IsSafe cap w → IsLive cap w → IsLive cap w'
  Step-IsLive w w' t (load at_t after) safe live = rw after (
      moved-IsLive cap w live t (loaded w.active_data_block) (λ b n new h. cc)
        (λ b h. (let same : w.active_data_block ≡ b = cc in omega arith))
        (λ extends. absurd (not_reading cap w.active_data_block (w.phases t) extends at_t)))
  Step-IsLive w w' t (take b at_t some_left after) safe live = rw after (
      recounted-IsLive cap w live t b at_t (holding b (w.next_rel_offsets b)) (λ c n new h. cc)
        (λ c h. cc) (λ n same inside reached. rw (← same) (last_held n (omega arith))))
  Step-IsLive w w' t (retry b at_t none_left small after) safe live = rw after (
      recounted-IsLive cap w live t b at_t reading (λ c n new h. cc) (λ c h. cc)
        (λ n same inside reached. absurd (omega arith)))
  Step-IsLive w w' t (copy b n at_t inner after) safe live = rw after (
      moved-IsLive cap w live t (returned (w.block_ids b) n) (λ c m new h. cc) (λ c h. cc)
        (λ extends.
          absurd (inner (holds_last cap w.active_data_block b n (w.phases t) extends at_t).1)))
  Step-IsLive w w' t (copy_last b n at_t is_end after) safe live = rw after (
      moved-IsLive cap w live t (growing b n) (λ c m new h. cc) (λ c h. cc)
        (λ extends.
          rw (holds_last cap w.active_data_block b n (w.phases t) extends at_t).0 (grows n)))
  Step-IsLive w w' t (emplace b n at_t after) safe live =
      rw after (grown-IsLive cap w safe live t b n at_t)
  Step-IsLive w w' t (publish b n new_block at_t after) safe live =
      rw after (published-IsLive cap w safe live t b n new_block at_t)

  pub Reach-IsLive : {w : World} → 1 ≤ cap → Reach cap w → IsLive cap w
  Reach-IsLive some_slot here = start-IsLive cap some_slot
  Reach-IsLive some_slot (next {w} {w'} r t st) =
      Step-IsLive w w' t st (Reach-IsSafe cap r) (Reach-IsLive some_slot r)
