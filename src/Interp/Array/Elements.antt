-- ===== src/Interp/Array/Elements.antt =====
-- The types of elements, with what each stands for: how many bytes it has, how its values stand on
-- the operand stack, and its two handlers.
use turkey_vm.Prelude.{ℕ, ◌*◌, ◌%◌, ◌^◌, List, ◌∷◌, Run, char_to_int, short_to_int}
use turkey_vm.Memory.{read_bytes}
use turkey_vm.Frame.Defs.{Frame}
use turkey_vm.Objects.{Object, Heap}
use turkey_vm.Interp.Rules.{long_on}
use turkey_vm.Interp.Array.{
  exe_opc_iaload, exe_opc_iastore, exe_opc_laload, exe_opc_lastore, exe_opc_faload, exe_opc_fastore,
  exe_opc_daload, exe_opc_dastore, exe_opc_aaload, exe_opc_aastore, exe_opc_baload, exe_opc_bastore,
  exe_opc_caload, exe_opc_castore, exe_opc_saload, exe_opc_sastore,
}

pub data ElementType : Type 0 where
  int long float double reference byte char short : ElementType

abbrev pub width : ElementType → ℕ
width int = 4
width long = 8
width float = 4
width double = 8
width reference = 4
width byte = 1
width char = 2
width short = 2

-- The value `v` on top of `s`.
abbrev pub value_on : ElementType → ℕ → List ℕ → List ℕ
value_on int v s = v ∷ s
value_on long v s = long_on v s
value_on float v s = v ∷ s
value_on double v s = long_on v s
value_on reference v s = v ∷ s
value_on byte v s = v ∷ s
value_on char v s = v ∷ s
value_on short v s = v ∷ s

-- What an element becomes on the stack: a byte, a char and a short are extended by their sign.
abbrev pub extended : ElementType → ℕ → ℕ
extended int v = v
extended long v = v
extended float v = v
extended double v = v
extended reference v = v
extended byte v = char_to_int v
extended char v = short_to_int v
extended short v = short_to_int v

abbrev pub load_handler : ElementType → Heap → Frame → Run Frame
load_handler int = exe_opc_iaload
load_handler long = exe_opc_laload
load_handler float = exe_opc_faload
load_handler double = exe_opc_daload
load_handler reference = exe_opc_aaload
load_handler byte = exe_opc_baload
load_handler char = exe_opc_caload
load_handler short = exe_opc_saload

abbrev pub store_handler : ElementType → Heap → Frame → Run (Heap × Frame)
store_handler int = exe_opc_iastore
store_handler long = exe_opc_lastore
store_handler float = exe_opc_fastore
store_handler double = exe_opc_dastore
store_handler reference = exe_opc_aastore
store_handler byte = exe_opc_bastore
store_handler char = exe_opc_castore
store_handler short = exe_opc_sastore

-- Element `i` of an object, as an array of elements of `w` bytes.
abbrev pub element : Object → ℕ → ℕ → ℕ
element o w i = read_bytes w o.cell (i * w)

-- What a store keeps of a value.
abbrev pub lowered : ElementType → ℕ → ℕ
lowered byte v = v % 2 ^ 8
lowered char v = v % 2 ^ 16
lowered short v = v % 2 ^ 16
lowered int v = v
lowered long v = v
lowered float v = v
lowered double v = v
lowered reference v = v
