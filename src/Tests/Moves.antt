-- ===== src/Tests/Moves.antt =====
-- Loads, stores and stack handlers at concrete frames.
use turkey_vm.Frame.Bounds.{push-full, push_wide-overflow}
use turkey_vm.Frame.Defs.{push, type_double, type_long}
use turkey_vm.Frame.Steps.{Effect}
use turkey_vm.Interp.Store.{exe_opc_dstore_0}
use turkey_vm.Interp.Store.Pops.{update_wide, wide_stores, wide_stores-pop}
use turkey_vm.Prelude.{All, [], arith, halt, refl, stack_error, undefined, ◌*◌, ◌-◌, ◌^◌, ◌∷◌, ◌≡◌}
use turkey_vm.Tests.Frames.{
  some_frame, some_frame-IsFrame, some_frame-operands, full_frame, nearly_full_frame, at_any_height,
}

wide_stores-pop_example :
    All
      (λ (i, handler).
        Effect some_frame
          (handler some_frame)
          (update_wide some_frame.cell i (2 * 2 ^ 32))
          some_frame.pc
          ((2 ^ 32 - 3) ∷ []))
      wide_stores
    × Effect some_frame
        (exe_opc_dstore_0 some_frame)
        some_frame.cell
        some_frame.pc
        ((2 ^ 32 - 3) ∷ [])
wide_stores-pop_example =
    wide_stores-pop some_frame some_frame-IsFrame (2 * 2 ^ 32) ((2 ^ 32 - 3) ∷ [])
      some_frame-operands (omega arith)

push-full_example : push full_frame 1 type_long ≡ halt stack_error
push-full_example =
    push-full full_frame (at_any_height 13 (omega arith) (omega arith)) refl 1 type_long refl

push_wide-overflow_example :
    (push nearly_full_frame 1 type_long ≡ halt undefined)
    × (push nearly_full_frame 1 type_double ≡ halt undefined)
push_wide-overflow_example =
    push_wide-overflow nearly_full_frame (at_any_height 12 (omega arith) (omega arith)) refl 1 refl
