-- ===== src/Classes.antt =====
-- src/classloader/resolve.c and the preparing and linking of src/classloader/class.c: the search
-- for fields and methods, the numbering of methods, the layout of fields and the tables of methods.
-- Names and types are texts, the lists of their bytes.
pub mod Texts
pub mod Search
pub mod Prepare
pub mod Link
pub mod Dispatch
pub mod Virtual
pub mod Layout
pub mod Fields
pub mod Resolved
use turkey_vm.Prelude.{
  ℕ, zero, suc, ◌+◌, ◌-◌, ◌*◌, ◌%◌, ◌^◌, Bool, true, false, not, ◌&&◌, ◌||◌, Option, some, none,
  List, [], ◌∷◌, bit_and, ltb, ◌==◌, if◌then◌else◌, Run, ok, halt, ◌>>=◌, undefined, exception,
  assertion_failed,
}

abbrev pub Text : Type 0
Text = List ℕ

-- `strcmp(a, b) == 0`.
unfoldable pub equals : Text → Text → Bool
equals [] [] = true
equals [] (b ∷ bs) = false
equals (a ∷ rest) [] = false
equals (a ∷ rest) (b ∷ rest') = a == b && equals rest rest'

-- `FieldBlock_t`; `static_value` and `offset` are patterns of ints.
pub record FieldBlock : Type 0 where
  pub access_flags : ℕ
  pub name : Text
  pub type : Text
  pub static_value : ℕ
  pub offset : ℕ

-- The part of `MethodBlock_t` that the search and the tables use. `body` stands for the rest, and a
-- pointer to a block is the block.
pub record MethodBlock : Type 0 where
  pub access_flags : ℕ
  pub name : Text
  pub type : Text
  pub methods_table_idx : ℕ
  pub body : ℕ

-- `ClassBlock_t`, less the super class. `methods_table` has `methods_table_size` entries.
pub record ClassBlock : Type 0 where
  pub access_flags : ℕ
  pub fields : List FieldBlock
  pub methods : List MethodBlock
  pub methods_table : ℕ → Option MethodBlock
  pub methods_table_size : ℕ
  pub obj_size : ℕ

-- A class that is loaded: `NULL`, or a block over its super class, which is loaded before it.
pub data LoadedClass : Type 0 where
  null : LoadedClass
  class_block : LoadedClass → ClassBlock → LoadedClass

abbrev pub acc_private : ℕ
acc_private = 2

abbrev pub acc_static : ℕ
acc_static = 8

abbrev pub acc_interface : ℕ
acc_interface = 512

-- A test `flags & bit`.
unfoldable pub has : ℕ → ℕ → Bool
has flags bit = not (bit_and flags bit == 0)

unfoldable pub find_field_in_current : List FieldBlock → Text → Text → Option FieldBlock
find_field_in_current [] name type = none
find_field_in_current (fb ∷ fbs) name type =
    if equals fb.name name && equals fb.type type
    then some fb
    else find_field_in_current fbs name type

-- `findField`; at `NULL` the code reads on, which is undefined.
unfoldable pub find_field : LoadedClass → Text → Text → Run (Option FieldBlock)
unfolding find_field_in_current
find_field null name type = halt undefined
find_field (class_block super cb) name type = elim (find_field_in_current cb.fields name type) [
  | some fb ↦ ok (some fb)
  | none ↦ elim super [ null ↦ ok none | class_block up cb' ↦ find_field super name type ]
]

unfoldable pub find_method_in_current : List MethodBlock → Text → Text → Option MethodBlock
find_method_in_current [] name type = none
find_method_in_current (mb ∷ mbs) name type =
    if equals mb.name name && equals mb.type type
    then some mb
    else find_method_in_current mbs name type

-- `findMethod`. Nothing is found at `NULL`, where the callers and the recursion do not go.
unfoldable pub find_method : LoadedClass → Text → Text → Option MethodBlock
unfolding find_method_in_current
find_method null name type = none
find_method (class_block super cb) name type = elim (find_method_in_current cb.methods name type) [
  | some mb ↦ some mb
  | none ↦ find_method super name type
]

abbrev pub init : Text
init = 60 ∷ 105 ∷ 110 ∷ 105 ∷ 116 ∷ 62 ∷ []

abbrev pub clinit : Text
clinit = 60 ∷ 99 ∷ 108 ∷ 105 ∷ 110 ∷ 105 ∷ 116 ∷ 62 ∷ []

-- The methods that `prepareMethod` and `linkMethod` pass over.
unfoldable pub omitted : MethodBlock → Bool
unfolding has equals
omitted mb =
    has mb.access_flags acc_static
    || has mb.access_flags acc_private
    || equals mb.name init
    || equals mb.name clinit

abbrev pub table_size : LoadedClass → ℕ
table_size null = 0
table_size (class_block super cb) = cb.methods_table_size

-- The loop of `prepareMethod`: `size` is `super_methodstable_size` and `idx` the next number. Both
-- are of 16 bits, and so is `methods_table_idx`.
unfoldable pub prepare_methods : LoadedClass → ℕ → ℕ → List MethodBlock → List MethodBlock × ℕ
unfolding omitted find_method
prepare_methods super size idx [] = ([], idx)
prepare_methods super size idx (mb ∷ mbs) = elim (omitted mb) [
  | true ↦ let (rest, end) = prepare_methods super size idx mbs in (mb ∷ rest, end)
  | false ↦ elim (find_method super mb.name mb.type) [
    | some super_mb ↦
        let (rest, end) = prepare_methods super size idx mbs in
        (record mb { methods_table_idx = super_mb.methods_table_idx } ∷ rest, end)
    | none ↦
        let (rest, end) = prepare_methods super size ((idx + 1) % 2 ^ 16) mbs in
        (record mb { methods_table_idx = (size + idx) % 2 ^ 16 } ∷ rest, end)
  ]
]

unfoldable pub prepare_method : LoadedClass → ClassBlock → ClassBlock
unfolding prepare_methods
prepare_method super cb =
    let size = table_size super % 2 ^ 16 in
    let (methods, idx) = prepare_methods super size 0 cb.methods in
    record cb { methods = methods; methods_table_size = size + idx }

abbrev pub letter_J : Text
letter_J = 74 ∷ []

abbrev pub letter_D : Text
letter_D = 68 ∷ []

-- How many words a field takes.
unfoldable pub field_words : FieldBlock → ℕ
unfolding equals
field_words fb = if equals fb.type letter_J || equals fb.type letter_D then 2 else 1

-- The loop of `prepareField`. The zero of two words also covers `offset`, which comes next.
unfoldable pub prepare_fields : ℕ → List FieldBlock → Run (List FieldBlock × ℕ)
unfolding has field_words
prepare_fields field_offset [] = ok ([], field_offset)
prepare_fields field_offset (fb ∷ fbs) = elim (has fb.access_flags acc_static) [
  | true ↦ do
    (rest, end) ← prepare_fields field_offset fbs
    ok (
      record fb { static_value = 0; offset = if field_words fb == 2 then 0 else fb.offset } ∷ rest,
      end,
    )
  | false ↦ elim (ltb (field_offset + field_words fb) (2 ^ 31)) [
    | false ↦ halt undefined
    | true ↦ do
      (rest, end) ← prepare_fields (field_offset + field_words fb) fbs
      ok (record fb { offset = field_offset } ∷ rest, end)
  ]
]

abbrev pub object_words : LoadedClass → ℕ
object_words null = 0
object_words (class_block super cb) = cb.obj_size

unfoldable pub prepare_field : LoadedClass → ClassBlock → Run ClassBlock
unfolding prepare_fields
prepare_field super cb = do
  (fields, field_offset) ← prepare_fields (1 + object_words super) cb.fields
  ok (record cb { fields = fields; obj_size = field_offset - 1 })

-- The flags that the three steps of a class are done are left out: each is done once, in order.
unfoldable pub prepare_class : LoadedClass → ClassBlock → Run ClassBlock
unfolding prepare_method prepare_field
prepare_class super cb = prepare_field super (prepare_method super cb)

-- `cb->methods_table[idx] = mb`, in a table of `size` entries.
unfoldable pub set_method :
    ℕ → (ℕ → Option MethodBlock) → MethodBlock → Run (ℕ → Option MethodBlock)
set_method size table mb =
    if ltb mb.methods_table_idx size
    then ok (λ i. if mb.methods_table_idx == i then some mb else table i)
    else halt undefined

-- The loop of `linkMethod`.
unfoldable pub link_methods :
    ℕ → (ℕ → Option MethodBlock) → List MethodBlock → Run (ℕ → Option MethodBlock)
unfolding omitted set_method
link_methods size table [] = ok table
link_methods size table (mb ∷ mbs) = elim (omitted mb) [
  | true ↦ link_methods size table mbs
  | false ↦ do table₁ ← set_method size table mb; link_methods size table₁ mbs
]

-- The block of zeros, with the table of the super class copied over its start.
abbrev pub inherited_table : LoadedClass → ℕ → Option MethodBlock
inherited_table null i = none
inherited_table (class_block super cb) i =
    if ltb i cb.methods_table_size then cb.methods_table i else none

unfoldable pub link_method : LoadedClass → ClassBlock → Run ClassBlock
unfolding link_methods
link_method super cb = do
  table ← link_methods cb.methods_table_size (inherited_table super) cb.methods
  ok (record cb { methods_table = table })

-- `linkClass`, less the object that stands for the class.
unfoldable pub link_class : LoadedClass → ClassBlock → Run ClassBlock
unfolding has link_method
link_class super cb = if has cb.access_flags acc_interface then ok cb else link_method super cb

unfoldable pub load_class_block : LoadedClass → ClassBlock → Run LoadedClass
unfolding prepare_class link_class
load_class_block super cb = do
  prepared ← prepare_class super cb
  linked ← link_class super prepared
  ok (class_block super linked)

-- The choice of the method in `exe_OPC_INVOKEVIRTUAL`, and in `exe_OPC_INVOKEINTERFACE`, once the
-- method of the constant pool is resolved.
unfoldable pub select_virtual : LoadedClass → MethodBlock → Run MethodBlock
select_virtual null resolved_mtd = halt undefined
select_virtual (class_block super cb) resolved_mtd =
    if ltb resolved_mtd.methods_table_idx cb.methods_table_size
    then elim (cb.methods_table resolved_mtd.methods_table_idx) [
      | some method ↦ ok method
      | none ↦ halt exception
    ]
    else halt undefined

unfoldable pub select_interface : LoadedClass → MethodBlock → Run MethodBlock
select_interface null resolve_mtd = halt undefined
select_interface (class_block super cb) resolve_mtd =
    elim (find_method (class_block super cb) resolve_mtd.name resolve_mtd.type) [
      | some method ↦ ok method
      | none ↦ halt exception
    ]

-- `quickSearch`: the loop over the table, from entry `i` on, with so many entries left.
unfoldable pub search_table :
    (ℕ → Option MethodBlock) → ℕ → ℕ → Text → Text → Run (Option MethodBlock)
unfolding equals
search_table table zero i name type = ok none
search_table table (suc n) i name type = elim (table i) [
  | none ↦ halt undefined
  | some mb ↦ elim (equals name mb.name && equals type mb.type) [
    | true ↦ ok (some mb)
    | false ↦ search_table table n (i + 1) name type
  ]
]
