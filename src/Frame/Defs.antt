-- ===== src/Frame/Defs.antt =====
-- The frame and the operations on it, as the C code defines them. A value is its bit pattern.
use turkey_vm.Prelude.{
  ℕ, zero, suc, ◌+◌, ◌-◌, ◌*◌, ◌/◌, ◌%◌, ◌^◌, Bool, ◌&&◌, ◌||◌, none, some, List, ltb, leb,
  if◌then◌else◌, get_elem?, update, Run, ok, halt, stack_error, wrong_type, undefined, ◌>>=◌,
}

-- `Operand_e`.
pub data Operand : Type 0 where
  type_int type_long type_ulong type_double type_char type_uint type_reference type_float : Operand

-- `struct JFrame_t`. `code` is `mb->code`, and `pc` counts from its start. The block that `locals`
-- points to has `size` words, the words being `cell`. `ostack`, `bottom` and `top` point into that
-- block, and each is held as the index that it points to plus one, since `createFrame0` starts them
-- at `locals + max_locals - 1`. `pc_offset` is the pattern of an int. `assert_stack` is the global
-- of src/control/control.c, carried with the frame that the macro `ASSERT_STACK` reads it for.
pub record Frame : Type 0 where
  pub code : List ℕ
  pub pc : ℕ
  pub pc_offset : ℕ
  pub size : ℕ
  pub cell : ℕ → ℕ
  pub ostack : ℕ
  pub bottom : ℕ
  pub top : ℕ
  pub assert_stack : Bool

-- `*(unsigned int *) (locals + i)`, read and written; outside the block C leaves it undefined.
unfoldable pub read_slot : Frame → ℕ → Run ℕ
read_slot f i = if ltb i f.size then ok (f.cell i) else halt undefined

unfoldable pub write_slot : Frame → ℕ → ℕ → Run Frame
write_slot f i v =
    if ltb i f.size then ok (record f { cell = update f.cell i v }) else halt undefined

-- The eight bytes of a long long or a double, at two slots.
unfoldable pub read_wide : Frame → ℕ → Run ℕ
unfolding read_slot
read_wide f i = do low ← read_slot f i; high ← read_slot f (i + 1); ok (low + high * 2 ^ 32)

unfoldable pub write_wide : Frame → ℕ → ℕ → Run Frame
unfolding write_slot
write_wide f i v = do f₁ ← write_slot f i (v % 2 ^ 32); write_slot f₁ (i + 1) (v / 2 ^ 32)

-- `ASSERT_STACK`.
unfoldable pub check_stack : Frame → Run Frame
check_stack f =
    if f.assert_stack && (ltb f.ostack f.bottom || ltb f.top f.ostack)
    then halt stack_error
    else ok f

-- The index of `*f->ostack`, and of `*(f->ostack - 1)`.
unfoldable pub top_slot : Frame → Run ℕ
top_slot f = elim f.ostack [ zero ↦ halt undefined | suc i ↦ ok i ]

unfoldable pub second_slot : Frame → Run ℕ
second_slot f = elim f.ostack [
  | zero ↦ halt undefined
  | suc n ↦ elim n [ zero ↦ halt undefined | suc i ↦ ok i ]
]

-- The cases of `pop` that take one slot: read it, zero it, move down, check.
unfoldable pub pop_slot : Frame → Run (ℕ × Frame)
unfolding top_slot read_slot write_slot check_stack
pop_slot f = do
  i ← top_slot f
  result ← read_slot f i
  f₁ ← write_slot f i 0
  f₂ ← check_stack (record f₁ { ostack = i })
  ok (result, f₂)

-- The cases of `pop` that take two slots. Only that of `TYPE_DOUBLE` checks.
unfoldable pub pop_wide : Frame → Run (ℕ × Frame)
unfolding second_slot read_wide write_wide
pop_wide f = do
  i ← second_slot f
  result ← read_wide f i
  f₁ ← write_wide f i 0
  ok (result, record f₁ { ostack = i })

unfoldable pub pop : Frame → Operand → Run (ℕ × Frame)
unfolding pop_slot pop_wide check_stack
pop f type_int = pop_slot f
pop f type_float = pop_slot f
pop f type_long = pop_wide f
pop f type_ulong = pop_wide f
pop f type_double = do (result, f₁) ← pop_wide f; f₂ ← check_stack f₁; ok (result, f₂)
pop f type_reference = pop_slot f
pop f type_char = do (result, f₁) ← pop_slot f; ok (result % 2 ^ 8, f₁)
pop f type_uint = pop_slot f

-- What the `switch` of `push` stores, once the pointer has moved up to index `i` and was checked.
unfoldable pub push_at : Frame → ℕ → ℕ → Operand → Run Frame
unfolding read_slot write_slot write_wide
push_at f i value type_int = write_slot f i value
push_at f i value type_float = write_slot f i value
push_at f i value type_double = do
  f₁ ← write_wide f i value
  ok (record f₁ { ostack = f₁.ostack + 1 })
push_at f i value type_long = do
  f₁ ← write_wide f i value
  ok (record f₁ { ostack = f₁.ostack + 1 })
push_at f i value type_char = do
  old ← read_slot f i
  write_slot f i (old - old % 2 ^ 8 + value % 2 ^ 8)
push_at f i value type_reference = write_slot f i value
push_at f i value type_uint = write_slot f i value
push_at f i value type_ulong = halt wrong_type

unfoldable pub push : Frame → ℕ → Operand → Run Frame
unfolding check_stack push_at
push f value type = do
  f₁ ← check_stack (record f { ostack = f.ostack + 1 })
  push_at f₁ f.ostack value type

-- `LOAD` and `STORE`, at a type of one slot and at a type of two.
unfoldable pub load : Frame → ℕ → Run ℕ
unfolding read_slot
load f i = read_slot f i

unfoldable pub load_wide : Frame → ℕ → Run ℕ
unfolding read_wide
load_wide f i = read_wide f i

unfoldable pub store : Frame → ℕ → ℕ → Run Frame
unfolding write_slot
store f v i = write_slot f i v

unfoldable pub store_wide : Frame → ℕ → ℕ → Run Frame
unfolding write_wide
store_wide f v i = write_wide f i v

-- `p[k]` for `p = GET_PC(f)`; outside `mb->code` C leaves it undefined.
unfoldable pub fetch : Frame → ℕ → Run ℕ
fetch f k = elim (get_elem? f.code (f.pc + k)) [ none ↦ halt undefined | some b ↦ ok b ]

-- The step of `pc` and `pc_offset` that ends `INTERP_U1`, `INTERP_U2` and `INTERP_U4`.
unfoldable pub advance : Frame → ℕ → Frame
advance f k = record f { pc = f.pc + k; pc_offset = (f.pc_offset + k) % 2 ^ 32 }

unfoldable pub interp_u1 : Frame → Run (ℕ × Frame)
unfolding fetch advance
interp_u1 f = do v ← fetch f 0; ok (v, advance f 1)

-- The bytes of a number are put together by shifts and `|`; they do not overlap.
unfoldable pub interp_u2 : Frame → Run (ℕ × Frame)
unfolding fetch advance
interp_u2 f = do b₀ ← fetch f 0; b₁ ← fetch f 1; ok (b₀ * 2 ^ 8 + b₁, advance f 2)

unfoldable pub interp_u4 : Frame → Run (ℕ × Frame)
unfolding fetch advance
interp_u4 f = do
  b₀ ← fetch f 0
  b₁ ← fetch f 1
  b₂ ← fetch f 2
  b₃ ← fetch f 3
  ok (b₀ * 2 ^ 24 + b₁ * 2 ^ 16 + b₂ * 2 ^ 8 + b₃, advance f 4)

-- `PC_MOVE` by an int `x`, given as its pattern. Below the start of the code there is no pointer.
unfoldable pub pc_move : ℕ → Frame → Run Frame
pc_move x f =
    let offset = (f.pc_offset + x) % 2 ^ 32 in
    if ltb x (2 ^ 31)
    then ok (record f { pc = f.pc + x; pc_offset = offset })
    else if leb (2 ^ 32 - x) f.pc
    then ok (record f { pc = f.pc - (2 ^ 32 - x); pc_offset = offset })
    else halt undefined
