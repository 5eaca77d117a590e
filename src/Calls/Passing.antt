-- ===== src/Calls/Passing.antt =====
-- The calling convention: what a called method finds, and what its caller keeps.
use turkey_vm.Prelude.{
  ℕ, ◌+◌, ◌-◌, ◌%◌, ◌^◌, ◌<◌, ◌≤◌, ◌≡◌, refl, ◌∙◌, ap, sym, Bool, List, [], ◌++◌, arith, length,
  if◌then◌else◌, ok,
}
use turkey_vm.Frame.Defs.{Frame}
use turkey_vm.Frame.View.{words_above, operands, IsFrame, Leaves}
use turkey_vm.Calls.Defs.{
  Method, NativeFrame, create_frame₀, copy_args, create_frame, create_native_frame,
}
use turkey_vm.Calls.Copy.{Holds, copy_args-Holds}

-- The frame of a method that starts: it is in order and at the start of the method's code, its
-- operand stack is empty and as large as the method says, the words `args` are its first local
-- variables, the last of them as the head of the list, and the other local variables are zero.
pub record Starts (mb : Method) (args : List ℕ) (g : Frame) : Type 0 where
  pub valid : IsFrame g
  pub empty : operands g ≡ []
  pub room : g.top ≡ g.bottom + mb.max_stack
  pub local_count : g.bottom ≡ mb.max_locals
  pub args_in : words_above g.cell 0 (length args) ≡ args
  pub others : (i : ℕ) → length args ≤ i → g.cell i ≡ 0
  pub start : g.pc ≡ 0
  pub code : g.code ≡ mb.code

-- The number of words that a method takes, `this` included.
abbrev pub arg_words : Method → ℕ
arg_words mb = if mb.is_static then mb.args_count else mb.args_count + 1

module _ (mb : Method) (f : Frame) (valid : IsFrame f) (args s : List ℕ)
    (h : operands f ≡ args ++ s) (count : length args ≡ arg_words mb) where
  starts :
      (checked : Bool) (c : ℕ → ℕ)
      → Holds (λ i. 0) args c
      → Starts mb args (record (create_frame₀ checked mb) { cell = c })
  unfolding create_frame₀ operands
  starts checked c held = record {
    valid = record {
      lower = omega arith;
      upper = omega arith;
      fits = omega arith;
      words = held.words (λ i. omega arith);
      synced = refl;
    };
    empty = let e : mb.max_locals - mb.max_locals ≡ 0 = omega arith in rw e refl;
    room = refl;
    local_count = refl;
    args_in = held.args_in;
    others = held.others;
    start = refl;
    code = refl;
  }

  -- When the caller, a frame in order, has the arguments of a method on its stack, as many as the
  -- method takes and no more than its local variables, `createFrame` returns: the new frame is in
  -- order and at the start of the code, its stack is empty, its first local variables are the
  -- arguments in the order of their pushing, and the others are zero; the caller loses the
  -- arguments from its stack and is otherwise as before.
  pub create_frame-passes :
      (checked : Bool)
      → length args ≤ mb.max_locals
      → (g : Frame) × (new : Frame) × (create_frame checked mb f ≡ ok (g, new))
        × Leaves f f.cell f.pc s g
        × Starts mb args new
  unfolding create_frame create_frame₀
  create_frame-passes checked room =
      let (g, c, runs, l, held) =
        copy_args-Holds args f valid s (mb.max_stack + mb.max_locals) (λ i. 0) h (omega arith) in
      let runs' =
        ap (λ n. copy_args n f (mb.max_stack + mb.max_locals) (λ i. 0)) (sym count) ∙ runs in
      (g, record (create_frame₀ checked mb) { cell = c }, rw runs' refl, l, starts checked c held)

  -- When the caller, a frame in order, has the arguments of a native method on its stack, as many
  -- as the method takes and fewer than 2 ^ 16, `createNativeFrame` returns: the first words of the
  -- block of the new frame, which has room for them, are the arguments in the order of their
  -- pushing, and the caller loses them from its stack and is otherwise as before.
  pub create_native_frame-passes :
      length args < 2 ^ 16
      → (g : Frame) × (new : NativeFrame) × (create_native_frame mb f ≡ ok (g, new))
        × Leaves f f.cell f.pc s g
        × (length args ≤ new.size)
        × (words_above new.cell 0 (length args) ≡ args)
  unfolding create_native_frame
  create_native_frame-passes small =
      let (g, c, runs, l, held) =
        copy_args-Holds args f valid s (length args) (λ i. 0) h (omega arith) in
      let same : (if mb.is_static
            then mb.args_count % 2 ^ 16
            else (mb.args_count % 2 ^ 16 + 1) % 2 ^ 16)
          ≡ length args =
        ground arith in
      (
        g,
        record { size = length args; cell = c },
        rw (same, runs) refl,
        l,
        omega arith,
        held.args_in,
      )
