-- ===== src/Interp/IntArith/Division.antt =====
-- Quotients and remainders of ints against the truncated division of the integers.
use turkey_vm.Prelude.{
  ℕ, ◌-◌, ◌/◌, ◌%◌, ◌^◌, ◌<◌, ◌≡◌, ◌≢◌, refl, false, ◌&&◌, List, ◌∷◌, arith, ltb, ◌==◌,
  if◌then◌else◌, ok, halt, assertion_failed, signed32, wrap32,
}
use turkey_vm.Words.Wrap.{wrap32-lt}
use turkey_vm.Words.Divide.{quot, rem, quot-wrap32, rem-wrap32}
use turkey_vm.Frame.Defs.{Frame, type_int}
use turkey_vm.Frame.View.{operands, IsFrame}
use turkey_vm.Frame.Steps.{Effect, Leaves-self, operands-room}
use turkey_vm.Frame.Operands.{with_pop, push-Effect, pop-Effect}
use turkey_vm.Interp.IntArith.{int_div, exe_opc_idiv, exe_opc_irem}

fits-test : (a b : ℕ) → (a ≡ 2 ^ 31 → b ≢ 2 ^ 32 - 1) → ((a == 2 ^ 31) && (b == 2 ^ 32 - 1)) ≡ false
fits-test a b h = ground arith

-- The quotient of two patterns, where it fits.
abbrev quotient : ℕ → ℕ → ℕ
quotient a b =
    if ltb a (2 ^ 31)
    then (if ltb b (2 ^ 31) then a / b else (2 ^ 32 - a / (2 ^ 32 - b)) % 2 ^ 32)
    else (if ltb b (2 ^ 31)
        then (2 ^ 32 - (2 ^ 32 - a) / b) % 2 ^ 32
        else (2 ^ 32 - a) / (2 ^ 32 - b))

int_div-ok : (a b : ℕ) → (a ≡ 2 ^ 31 → b ≢ 2 ^ 32 - 1) → int_div a b ≡ ok (quotient a b)
unfolding int_div
int_div-ok a b h = rw (fits-test a b h) ground arith

module _ (f : Frame) (valid : IsFrame f) (a b : ℕ) (s : List ℕ) where
  -- On a frame in order with two ints on top, of which the top one is not zero and the two are not
  -- the least int and -1: `idiv` leaves their quotient rounded towards zero, and `irem` the
  -- remainder, with the sign of the dividend; all else stays.
  pub int_quotients :
      operands f ≡ b ∷ a ∷ s
      → 0 < b
      → (a ≡ 2 ^ 31 → b ≢ 2 ^ 32 - 1)
      → Effect f (exe_opc_idiv f) f.cell f.pc (wrap32 (quot (signed32 a) (signed32 b)) ∷ s)
        × Effect f (exe_opc_irem f) f.cell f.pc (wrap32 (rem (signed32 a) (signed32 b)) ∷ s)
  unfolding exe_opc_idiv exe_opc_irem
  int_quotients h nonzero fits =
      let test : (b == 0) ≡ false = ground arith in
      let room = operands-room f valid h in
      (
        with_pop type_int _ refl (Leaves-self f valid h) λ f₁ hb l₁. rw test (
            with_pop type_int _ refl l₁ λ f₂ ha l₂.
              rw (int_div-ok a b fits, quot-wrap32 a b ha hb nonzero)
                (push-Effect _ type_int refl l₂ (wrap32-lt _) (omega (arith, room)))),
        with_pop type_int _ refl (Leaves-self f valid h) λ f₁ hb l₁. rw test (
            with_pop type_int _ refl l₁ λ f₂ ha l₂.
              rw (int_div-ok a b fits, rem-wrap32 a b ha hb nonzero)
                (push-Effect _ type_int refl l₂ (wrap32-lt _) (omega (arith, room)))),
      )

  -- On a frame in order with the int zero on top, `idiv` and `irem` stop with the failed assertion.
  pub int_division_by_zero :
      operands f ≡ 0 ∷ s
      → (exe_opc_idiv f ≡ halt assertion_failed) × (exe_opc_irem f ≡ halt assertion_failed)
  unfolding exe_opc_idiv exe_opc_irem
  int_division_by_zero h =
      let (f₁, runs, l) = pop-Effect type_int refl (Leaves-self f valid h) in
      (rw runs refl, rw runs refl)
