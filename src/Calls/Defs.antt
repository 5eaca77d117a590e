-- ===== src/Calls/Defs.antt =====
-- The frames that src/interp/stackmanager.c makes for a method, and the copying of its arguments.
use turkey_vm.Prelude.{
  ℕ, zero, suc, ◌+◌, ◌%◌, ◌^◌, Bool, List, ltb, if◌then◌else◌, update, Run, ok, halt, undefined,
  ◌>>=◌,
}
use turkey_vm.Frame.Defs.{Frame, read_slot, write_slot, top_slot}

-- What `struct MethodBlock_t` tells of a method. `is_static` is `access_flags & ACC_STATIC`.
pub record Method : Type 0 where
  pub code : List ℕ
  pub max_stack : ℕ
  pub max_locals : ℕ
  pub args_count : ℕ
  pub is_static : Bool

-- `struct NFrame_t`: a block of `size` words.
pub record NativeFrame : Type 0 where
  pub size : ℕ
  pub cell : ℕ → ℕ

-- The new frame of `createFrame0`, with its block set to zero. `checked` is `assert_stack`.
unfoldable pub create_frame₀ : Bool → Method → Frame
create_frame₀ checked mb = record {
  code = mb.code;
  pc = 0;
  pc_offset = 0;
  size = mb.max_stack + mb.max_locals;
  cell = λ i. 0;
  ostack = mb.max_locals;
  bottom = mb.max_locals;
  top = mb.max_locals + mb.max_stack;
  assert_stack = checked;
}

-- The loop that copies the words at indices from `n - 1` down to 0, from the operands of `prev`
-- into a block of `size` words, and takes them off `prev`. There is no `ASSERT_STACK`.
unfoldable pub copy_args : ℕ → Frame → ℕ → (ℕ → ℕ) → Run (Frame × (ℕ → ℕ))
unfolding top_slot read_slot write_slot
copy_args zero prev size cell = ok (prev, cell)
copy_args (suc n) prev size cell = do
  i ← top_slot prev
  v ← read_slot prev i
  cell₁ ← (if ltb n size then ok (update cell n v) else halt undefined)
  prev₁ ← write_slot prev i 0
  copy_args n (record prev₁ { ostack = i }) size cell₁

-- `createFrame` without arguments from C. `prev` is the current frame; the results are what is left
-- of it, and the new current frame.
unfoldable pub create_frame : Bool → Method → Frame → Run (Frame × Frame)
unfolding create_frame₀ copy_args
create_frame checked mb prev =
    let frame = create_frame₀ checked mb in
    let count = if mb.is_static then mb.args_count else mb.args_count + 1 in
    do
      (prev₁, cell) ← copy_args count prev frame.size frame.cell
      ok (prev₁, record frame { cell = cell })

-- `createNativeFrame`. `n_locals` is an unsigned short.
unfoldable pub create_native_frame : Method → Frame → Run (Frame × NativeFrame)
unfolding copy_args
create_native_frame mb prev =
    let n_locals = mb.args_count % 2 ^ 16 in
    let count = if mb.is_static then n_locals else (n_locals + 1) % 2 ^ 16 in
    do
      (prev₁, cell) ← copy_args count prev count (λ i. 0)
      ok (prev₁, record { size = count; cell = cell })
