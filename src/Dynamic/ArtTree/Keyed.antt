-- ===== src/Dynamic/ArtTree/Keyed.antt =====
-- The bytes of swapped keys select what the numbers select (src/utils.h,
-- src/dynamic_index/singlethread/art_tree_index.h).
use index_zoo.Base.{
  arith, ℕ, ◌<◌, ◌^◌, ◌≡◌, refl, ap, List, [], ◌∷◌, length, not, ◌&&◌, ltb, ◌==◌, Bool-cases, inl,
  inr,
}
use index_zoo.GenericKey.Order.{precedes}
use index_zoo.Table.Numeric.{length-to_bytes}
use index_zoo.Dynamic.ByteSwap.{byte_swap, byte_swap-precedes}
use index_zoo.Dynamic.Keys.{numbers}
use index_zoo.Dynamic.Keys.Bytes.{byte_strings, same_bytes}
use index_zoo.Dynamic.Spec.{offsets_for}
use index_zoo.Dynamic.ArtTree.{swapped_key}

pub length-swapped_key : (size key : ℕ) → length (swapped_key size key) ≡ size
unfolding swapped_key
length-swapped_key size key = length-to_bytes size (byte_swap size key)

module _ (size : ℕ) where
  abbrev pub AllShort : List (ℕ × ℕ) → Type 0
  AllShort [] = Unit
  AllShort (x ∷ m) = (x.0 < 256 ^ size) × AllShort m

  abbrev pub keyed : List (ℕ × ℕ) → List (List ℕ × ℕ)
  keyed [] = []
  keyed (x ∷ m) = (swapped_key size x.0, x.1) ∷ keyed m

  swapped-less :
      (a b : ℕ)
      → a < 256 ^ size
      → b < 256 ^ size
      → precedes (swapped_key size a) (swapped_key size b) ≡ ltb a b
  unfolding swapped_key
  swapped-less a b ha hb = byte_swap-precedes size a b ha hb

  equal_numbers : (a b : ℕ) → (not (ltb a b) && not (ltb b a)) ≡ (a == b)
  equal_numbers a b = ground arith

  pub same_bytes-swapped :
      (a b : ℕ)
      → a < 256 ^ size
      → b < 256 ^ size
      → same_bytes (swapped_key size a) (swapped_key size b) ≡ (a == b)
  same_bytes-swapped a b ha hb =
      rw (swapped-less a b ha hb, swapped-less b a hb ha) (equal_numbers a b)

  pub for-keyed :
      (key : ℕ)
      → key < 256 ^ size
      → (m : List (ℕ × ℕ)) → AllShort m
      → offsets_for byte_strings (swapped_key size key) (keyed m) ≡ offsets_for numbers key m
  for-keyed key hk [] short = refl
  for-keyed key hk (x ∷ m) short =
      let ih = for-keyed key hk m short.1 in
      rw (swapped-less x.0 key short.0 hk, swapped-less key x.0 hk short.0, equal_numbers x.0 key)
        (elim (Bool-cases (x.0 == key)) [ inl t ↦ rw t (ap (λ l. x.1 ∷ l) ih) | inr f ↦ rw f ih ])
