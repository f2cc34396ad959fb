-- ===== src/Examples/Keys.antt =====
-- Tests of the keys and of their generator (src/generic_key.h, src/synthetic_generic_key_generator.h).
use index_zoo.Base.{arith, ◌>>=◌, ◌≡◌, refl, [], ◌∷◌, some, true, false, done, Returns}
use index_zoo.GenericKey.{GenericKey, bytes, empty_key, less, equals, assign_self}
use index_zoo.GenericKey.Order.{precedes, less-precedes, less_is_order}
use index_zoo.GenericKey.Assign.{CanAssign, assign_self_loses}
use index_zoo.KeyGenerator.Generic.{
  synthetic_type, next_generic_key, construct_generic_key_generator, IsReadableKey,
  synthetic_keys_readable,
}

abbrev ab : GenericKey
ab = record { raw = some (97 ∷ 98 ∷ []); data_size = 2 }

abbrev abc : GenericKey
abc = record { raw = some (97 ∷ 98 ∷ 99 ∷ []); data_size = 3 }

abbrev b : GenericKey
b = record { raw = some (98 ∷ []); data_size = 1 }

ab_can : CanAssign ab
ab_can h = omega arith

less-precedes_example : less ab abc ≡ done (precedes (97 ∷ 98 ∷ []) (97 ∷ 98 ∷ 99 ∷ []))
less-precedes_example = less-precedes ab abc refl refl

less_is_order_example :
    (less ab ab ≡ done false)
    × (less ab abc ≡ done true → less abc b ≡ done true → less ab b ≡ done true)
    × (less ab abc ≡ done false
        → less abc ab ≡ done false
        → (bytes ab.raw ≡ bytes abc.raw) × (equals ab abc ≡ done true))
    × (equals ab abc ≡ done true
        → (bytes ab.raw ≡ bytes abc.raw) × (less ab abc ≡ done false) × (less abc ab ≡ done false))
less_is_order_example = less_is_order ab abc b refl refl refl

assign_self_loses_example : assign_self ab ≡ done (record { raw = some []; data_size = 0 })
assign_self_loses_example = assign_self_loses ab ab_can (λ h. cc)

synthetic_keys_readable_example :
    Returns
      (construct_generic_key_generator synthetic_type 1 8 >>= λ generator.
        next_generic_key (record generator { seed = 1 }) empty_key)
      (λ r. (r.0.key_size ≡ 8) × IsReadableKey 8 r.1)
synthetic_keys_readable_example = synthetic_keys_readable 1 8 1 (omega arith)
