-- ===== src/Tests/RegistryTests.antt =====
-- Names given to devices: hive/internal/registry/registry.go.
use herdr_hive.Base.{
  ◌≡◌, ◌≢◌, ◌≤◌, refl, true, false, some, [], ◌∷◌, Bytes, bytes_eq_iff, length, arith,
}
use herdr_hive.Base.Dict.{Dict, lookup, insert}
use herdr_hive.Base.Decimal.{decimal}
use herdr_hive.Registry.{
  Registry, max_names, named, stuck, is_used, find_name, suffixed, value_of, is_new, assign,
  name_device,
}
use herdr_hive.Registry.Assign.{IsUnique, SameMap}
use herdr_hive.Registry.Names.{
  name_device-IsUnique, name_device-SameMap, name_device_bounded, name_device_stable,
  name_device_answers, name_device_owner,
}

-- One device, `a`, called `x`.
abbrev one : Dict Bytes
one = (97 ∷ [], 120 ∷ []) ∷ []

abbrev before_call : Registry
before_call = record { names = one; file = one }

abbrev x_2 : Bytes
x_2 = 120 ∷ 45 ∷ 50 ∷ []

abbrev two : Dict Bytes
two = (97 ∷ [], 120 ∷ []) ∷ (98 ∷ [], x_2) ∷ []

abbrev after_call : Registry
after_call = record { names = two; file = two }

-- A second device that wants to be called `x` is called `x-2`.
second_device : name_device before_call (98 ∷ []) (120 ∷ []) true ≡ (after_call, named x_2)
unfolding name_device find_name is_used suffixed assign value_of is_new decimal lookup insert
second_device = refl

one-IsUnique : IsUnique one
unfolding lookup
one-IsUnique j k v hj hk = ground (arith, bytes_eq_iff (97 ∷ []) j, bytes_eq_iff (97 ∷ []) k)

name_device-IsUnique_example : IsUnique (name_device before_call (98 ∷ []) (120 ∷ []) true).0.names
name_device-IsUnique_example =
    name_device-IsUnique before_call (98 ∷ []) (120 ∷ []) true one-IsUnique

name_device-SameMap_example :
    SameMap
      (name_device before_call (98 ∷ []) (120 ∷ []) false).0.file
      (name_device before_call (98 ∷ []) (120 ∷ []) false).0.names
name_device-SameMap_example = name_device-SameMap before_call (98 ∷ []) (120 ∷ []) false (λ k. refl)

name_device_bounded_example :
    length (name_device before_call (98 ∷ []) (120 ∷ []) true).0.names ≤ max_names
name_device_bounded_example =
    name_device_bounded before_call (98 ∷ []) (120 ∷ []) true (omega arith)

name_device_stable_example :
    name_device after_call (98 ∷ []) (120 ∷ []) false ≡ (after_call, named x_2)
name_device_stable_example =
    name_device_stable before_call after_call (98 ∷ []) (120 ∷ []) x_2 true false second_device

name_device_answers_example : (name_device before_call (98 ∷ []) (120 ∷ []) true).1 ≢ stuck
name_device_answers_example = name_device_answers before_call (98 ∷ []) (120 ∷ []) true

b_has : lookup (98 ∷ []) after_call.names ≡ some x_2
unfolding lookup
b_has = refl

abbrev second_owner : Bytes
second_owner = 98 ∷ []

name_device_owner_example : second_owner ≡ 98 ∷ []
name_device_owner_example =
    name_device_owner before_call after_call (98 ∷ []) (120 ∷ []) x_2 (98 ∷ []) true second_device
      b_has
