-- ===== src/Calls/Descriptor/Types.antt =====
-- Descriptors as the class file format defines them: the types, their texts, and their words.
use turkey_vm.Prelude.{ℕ, ◌+◌, ◌≢◌, List, [], ◌∷◌, ◌++◌, All}
use turkey_vm.Calls.Descriptor.{close, semicolon, bracket, letter_object}

pub data FieldType : Type 0 where
  byte char double float int long short boolean : FieldType
  object : List ℕ → FieldType
  array : FieldType → FieldType

-- A name has no semicolon.
abbrev pub IsFieldType : FieldType → Type 0
IsFieldType (object name) = All (λ (c : ℕ). c ≢ semicolon) name
IsFieldType (array t) = IsFieldType t
IsFieldType _ = Unit

abbrev pub print_type : FieldType → List ℕ
print_type byte = 66 ∷ []
print_type char = 67 ∷ []
print_type double = 68 ∷ []
print_type float = 70 ∷ []
print_type int = 73 ∷ []
print_type long = 74 ∷ []
print_type short = 83 ∷ []
print_type boolean = 90 ∷ []
print_type (object name) = letter_object ∷ name ++ semicolon ∷ []
print_type (array t) = bracket ∷ print_type t

-- The type is not float; an array of floats is allowed.
abbrev pub IsNotFloat : FieldType → Type 0
IsNotFloat t = t ≢ float

-- The words that a value takes on the stack: an array is a reference.
abbrev pub words_of : FieldType → ℕ
words_of double = 2
words_of long = 2
words_of _ = 1

abbrev pub print_types : List FieldType → List ℕ → List ℕ
print_types [] behind = close ∷ behind
print_types (t ∷ ts) behind = print_type t ++ print_types ts behind

-- The descriptor of a method with these parameters; `behind` is its return type.
abbrev pub print_descriptor : List FieldType → List ℕ → List ℕ
print_descriptor ts behind = 40 ∷ print_types ts behind

abbrev pub total_words : List FieldType → ℕ
total_words [] = 0
total_words (t ∷ ts) = words_of t + total_words ts
