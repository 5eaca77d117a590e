-- ===== src/Frame/Bounds.antt =====
-- The ends of the operand stack: what `ASSERT_STACK` catches, and what it does not.
use turkey_vm.Prelude.{ℕ, suc, ◌<◌, ◌≡◌, true, arith, halt, stack_error, undefined, wrong_type}
use turkey_vm.Frame.Defs.{
  Frame, Operand, type_int, type_long, type_ulong, type_double, type_float, type_reference,
  type_uint, push, pop, pop_slot,
}
use turkey_vm.Frame.View.{IsFrame}
use turkey_vm.Frame.Steps.{is_word}

module _ (f : Frame) (valid : IsFrame f) (on : f.assert_stack ≡ true) where
  -- With the check on, a frame in order whose stack is full stops with the stack error at each
  -- `push`, whatever its type.
  pub push-full : (v : ℕ) (t : Operand) → f.ostack ≡ f.top → push f v t ≡ halt stack_error
  unfolding push
  push-full v t full = ground arith

  pop_slot-empty : f.ostack ≡ f.bottom → 0 < f.bottom → pop_slot f ≡ halt stack_error
  unfolding pop_slot
  pop_slot-empty e some_local = ground arith

  -- With the check on and a local variable below, a frame in order whose stack is empty stops with
  -- the stack error at each `pop` of one word.
  pub pop-empty :
      (t : Operand)
      → is_word t ≡ true
      → f.ostack ≡ f.bottom
      → 0 < f.bottom
      → pop f t ≡ halt stack_error
  unfolding pop
  pop-empty type_int w e l = pop_slot-empty e l
  pop-empty type_float w e l = pop_slot-empty e l
  pop-empty type_reference w e l = pop_slot-empty e l
  pop-empty type_uint w e l = pop_slot-empty e l
  pop-empty _ w e l = cc

  -- With the check on, on a frame in order with one word of room, a `push` of a long long or a
  -- double passes the check and then writes behind the end of the block.
  pub push_wide-overflow :
      (v : ℕ)
      → suc f.ostack ≡ f.top
      → (push f v type_long ≡ halt undefined) × (push f v type_double ≡ halt undefined)
  unfolding push
  push_wide-overflow v one_left = ground arith

  -- With the check on, on a frame in order with room, a `push` of `TYPE_ULONG` stops with the type
  -- error.
  pub push-ulong : (v : ℕ) → f.ostack < f.top → push f v type_ulong ≡ halt wrong_type
  unfolding push
  push-ulong v room = ground arith
