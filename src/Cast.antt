-- ===== src/Cast.antt =====
-- The tests on classes of src/native/cast.c. A class is a number, `NULL` is zero, and a table gives
-- the `ClassBlock_t` of each.
pub mod SubClass
use turkey_vm.Prelude.{
  ℕ, zero, suc, Bool, true, false, not, ◌&&◌, Option, none, some, List, [], ◌∷◌, ◌==◌,
}

-- The fields of `ClassBlock_t` that the tests read; `is_interface` and `is_array` are the macros
-- `IS_INTERFACE` and `IS_ARRAY`.
pub record Class : Type 0 where
  pub super : ℕ
  pub interfaces : List ℕ
  pub is_interface : Bool
  pub is_array : Bool
  pub element : ℕ
  pub dim : ℕ

-- The loop over the interfaces of `implements`, with its recursive call.
unfoldable pub scan_interfaces : (ℕ → Option Bool) → ℕ → List ℕ → Option Bool
scan_interfaces call class [] = some false
scan_interfaces call class (interface ∷ rest) = elim (class == interface) [
  | true ↦ some true
  | false ↦ elim (call interface) [
    | none ↦ none
    | some true ↦ some true
    | some false ↦ scan_interfaces call class rest
  ]
]

-- In these three, `none` is a search that is not done in so many steps.
unfoldable pub implements : (ℕ → Class) → ℕ → ℕ → ℕ → Option Bool
unfolding scan_interfaces
implements table zero class test = none
implements table (suc n) class test =
    elim (scan_interfaces (λ interface. implements table n class interface) class
      (table test).interfaces) [
        | none ↦ none
        | some true ↦ some true
        | some false ↦ elim ((table test).super == 0) [
          | true ↦ some false
          | false ↦ implements table n class (table test).super
        ]
      ]

unfoldable pub is_sub_class_of : (ℕ → Class) → ℕ → ℕ → ℕ → Option Bool
is_sub_class_of table zero class test = none
is_sub_class_of table (suc n) class test = elim (test == 0) [
  | true ↦ some false
  | false ↦ elim (test == class) [
    | true ↦ some true
    | false ↦ is_sub_class_of table n class (table test).super
  ]
]

-- `isInstanceOf`, with `isInstOfArray` in its place.
unfoldable pub is_instance_of : (ℕ → Class) → ℕ → ℕ → ℕ → Option Bool
unfolding implements is_sub_class_of
is_instance_of table zero class test = none
is_instance_of table (suc n) class test = elim (class == test) [
  | true ↦ some true
  | false ↦ elim (table class).is_interface [
    | true ↦ implements table (suc n) class test
    | false ↦ elim (table class).is_array [
      | false ↦ is_sub_class_of table (suc n) class test
      | true ↦ elim (is_sub_class_of table (suc n) class test) [
        | none ↦ none
        | some true ↦ some true
        | some false ↦
            elim (not ((table test).element == 0)
              && not ((table class).element == 0)
              && ((table class).dim == (table test).dim)) [
                | true ↦ is_instance_of table n (table class).element (table test).element
                | false ↦ some false
              ]
      ]
    ]
  ]
]
