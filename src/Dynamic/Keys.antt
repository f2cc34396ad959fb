-- ===== src/Dynamic/Keys.antt =====
-- The key types of the dynamic indexes: numbers (src/dynamic_index/*/*_index.h) and `GenericKey`
-- (src/dynamic_index/*/*_generic_index.h), by their operators `<` and `==`.
pub mod Bytes
use index_zoo.Base.{
  arith, ℕ, ◌≡◌, refl, sym, ◌∙◌, ◌↔◌, ◌⊎◌, inl, inr, Bool, true, false, ltb, ◌==◌, Bool-cases,
  dec_lt,
}

pub record Keys : Type 1 where
  pub Key : Type 0
  pub less : Key → Key → Bool
  pub equals : Key → Key → Bool
  pub less_irrefl : (a : Key) → less a a ≡ false
  pub less_trans : (a b c : Key) → less a b ≡ true → less b c ≡ true → less a c ≡ true
  pub less_split : (a b c : Key) → less a c ≡ true → (less a b ≡ true) ⊎ (less b c ≡ true)
  pub equals_iff : (a b : Key) → (equals a b ≡ true) ↔ ((less a b ≡ false) × (less b a ≡ false))

pub ltb_split : (a b c : ℕ) → ltb a c ≡ true → (ltb a b ≡ true) ⊎ (ltb b c ≡ true)
ltb_split a b c h = elim (dec_lt a b) [ yes p ↦ inl (ground arith) | no p ↦ inr (ground arith) ]

pub ==-ltb : (a b : ℕ) → ((a == b) ≡ true) ↔ ((ltb a b ≡ false) × (ltb b a ≡ false))
==-ltb a b = (λ h. (ground arith, ground arith), λ h. ground (arith, h.0, h.1))

pub ltb_irrefl : (a : ℕ) → ltb a a ≡ false
ltb_irrefl a = ground arith

pub ltb_trans : (a b c : ℕ) → ltb a b ≡ true → ltb b c ≡ true → ltb a c ≡ true
ltb_trans a b c h k = ground arith

-- Numbers, the `KeyT` of the numeric indexes.
abbrev pub numbers : Keys
numbers = record {
  Key = ℕ;
  less = ltb;
  equals = ◌==◌;
  less_irrefl = ltb_irrefl;
  less_trans = ltb_trans;
  less_split = ltb_split;
  equals_iff = ==-ltb;
}

module _ (keys : Keys) where
  open keys use {Key, less, equals}

  pub equals_refl : (a : Key) → equals a a ≡ true
  equals_refl a = (keys.equals_iff a a).1 (keys.less_irrefl a, keys.less_irrefl a)

  pub equals_sym : (a b : Key) → equals a b ≡ equals b a
  equals_sym a b = elim (Bool-cases (equals a b)) [
    | inl e ↦
        let (ab, ba) = (keys.equals_iff a b).0 e in rw (e, (keys.equals_iff b a).1 (ba, ab)) refl
    | inr e ↦ elim (Bool-cases (equals b a)) [
      | inr f ↦ rw (e, f) refl
      | inl f ↦
          let (ba, ab) = (keys.equals_iff b a).0 f in
          let both : equals a b ≡ true = (keys.equals_iff a b).1 (ab, ba) in cc
    ]
  ]

  -- Below a key is below an equal one.
  pub less_equals : (a b c : Key) → equals a b ≡ true → less a c ≡ less b c
  less_equals a b c e =
      let (ab, ba) = (keys.equals_iff a b).0 e in
      elim (Bool-cases (less a c)) [
        | inl h ↦ elim (keys.less_split a b c h) [ inl k ↦ cc | inr k ↦ cc ]
        | inr h ↦ elim (Bool-cases (less b c)) [
          | inr k ↦ cc
          | inl k ↦ elim (keys.less_split b a c k) [ inl m ↦ cc | inr m ↦ cc ]
        ]
      ]

  pub equals_trans : (a b c : Key) → equals a b ≡ true → equals b c ≡ true → equals a c ≡ true
  equals_trans a b c e f =
      let (ab, ba) = (keys.equals_iff a b).0 e in
      let (bc, cb) = (keys.equals_iff b c).0 f in
      (keys.equals_iff a c).1 (not_both a c ab bc, not_both c a cb ba)
    where
      not_both : (x z : Key) → less x b ≡ false → less b z ≡ false → less x z ≡ false
      not_both x z h k = elim (Bool-cases (less x z)) [
        | inr g ↦ g
        | inl t ↦ elim (keys.less_split x b z t) [ inl u ↦ cc | inr u ↦ cc ]
      ]

  pub equals_congr : (x a b : Key) → equals a b ≡ true → equals x a ≡ equals x b
  equals_congr x a b e = elim (Bool-cases (equals x a)) [
    | inl t ↦ t ∙ sym (equals_trans x a b t e)
    | inr f ↦ elim (Bool-cases (equals x b)) [
      | inr g ↦ f ∙ sym g
      | inl t ↦ let back : equals x a ≡ true = equals_trans x b a t (equals_sym b a ∙ e) in cc
    ]
  ]
