-- ===== src/Dynamic/Keys/Bytes.antt =====
-- Keys that are ordered as byte strings: the keys of src/dynamic_index/singlethread/art_tree, and `GenericKey`
-- (src/generic_key.h).
use index_zoo.Base.{
  ℕ, ◌≡◌, refl, ◌↔◌, ◌⊎◌, inl, inr, List, Bool, true, false, not, ◌&&◌, Bool-cases, done,
}
use index_zoo.GenericKey.{GenericKey, IsKey, bytes, less}
use index_zoo.GenericKey.Order.{
  precedes, precedes-irreflexive, precedes_trans, precedes-total, less-precedes,
}
use index_zoo.Dynamic.Keys.{Keys}

pub precedes_split :
    (a b c : List ℕ) → precedes a c ≡ true → (precedes a b ≡ true) ⊎ (precedes b c ≡ true)
precedes_split a b c h = elim (Bool-cases (precedes a b)) [
  | inl before ↦ inl before
  | inr not_before ↦ elim (Bool-cases (precedes b a)) [
    | inl behind ↦ inr (precedes_trans b a c behind h)
    | inr not_behind ↦
        let same : a ≡ b = precedes-total a b not_before not_behind in inr (rw same at h)
  ]
]

abbrev pub same_bytes : List ℕ → List ℕ → Bool
same_bytes a b = not (precedes a b) && not (precedes b a)

pub same_bytes_iff :
    (a b : List ℕ) → (same_bytes a b ≡ true) ↔ ((precedes a b ≡ false) × (precedes b a ≡ false))
same_bytes_iff a b = (there, λ h. rw (h.0, h.1) refl)
  where
    there : same_bytes a b ≡ true → (precedes a b ≡ false) × (precedes b a ≡ false)
    there h = elim (Bool-cases (precedes a b)) [
      | inl t ↦ let no_way : false ≡ true = rw t at h in cc
      | inr f ↦ elim (Bool-cases (precedes b a)) [
        | inl t ↦ let no_way : false ≡ true = rw (f, t) at h in cc
        | inr g ↦ (f, g)
      ]
    ]

abbrev pub byte_strings : Keys
byte_strings = record {
  Key = List ℕ;
  less = precedes;
  equals = same_bytes;
  less_irrefl = precedes-irreflexive;
  less_trans = precedes_trans;
  less_split = precedes_split;
  equals_iff = same_bytes_iff;
}

-- The keys whose sizes are those of their memory.
abbrev pub generic_keys : Keys
generic_keys = record {
  Key = (k : GenericKey) × IsKey k;
  less = λ a b. precedes (bytes a.0.raw) (bytes b.0.raw);
  equals = λ a b. same_bytes (bytes a.0.raw) (bytes b.0.raw);
  less_irrefl = λ a. precedes-irreflexive (bytes a.0.raw);
  less_trans = λ a b c. precedes_trans (bytes a.0.raw) (bytes b.0.raw) (bytes c.0.raw);
  less_split = λ a b c. precedes_split (bytes a.0.raw) (bytes b.0.raw) (bytes c.0.raw);
  equals_iff = λ a b. same_bytes_iff (bytes a.0.raw) (bytes b.0.raw);
}

-- The order of these keys is what `operator<` of `GenericKey` computes.
pub generic_keys-less : (a b : generic_keys.Key) → less a.0 b.0 ≡ done (generic_keys.less a b)
generic_keys-less a b = less-precedes a.0 b.0 a.1 b.1
