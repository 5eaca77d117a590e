-- ===== src/Interp/LongArith/Division.antt =====
-- Quotients and remainders of longs against the truncated division of the integers.
use turkey_vm.Prelude.{
  ℕ, ◌-◌, ◌/◌, ◌%◌, ◌^◌, ◌<◌, ◌≡◌, ◌≢◌, refl, false, ◌&&◌, List, arith, ltb, ◌==◌, if◌then◌else◌,
  ok, halt, assertion_failed, signed64, wrap64,
}
use turkey_vm.Words.Wrap.{wrap64-lt}
use turkey_vm.Words.Divide.{quot, rem, quot-wrap64, rem-wrap64}
use turkey_vm.Interp.Rules.{long_on, long_parts}
use turkey_vm.Frame.Defs.{Frame, type_long}
use turkey_vm.Frame.View.{operands, IsFrame}
use turkey_vm.Frame.Steps.{Effect, Leaves-self, operands-room}
use turkey_vm.Frame.Operands.{with_pop_wide, push_wide-Effect, pop_wide_type-Effect}
use turkey_vm.Interp.LongArith.{long_div, long_rem, exe_opc_ldiv, exe_opc_lrem}

fits-test : (a b : ℕ) → (a ≡ 2 ^ 63 → b ≢ 2 ^ 64 - 1) → ((a == 2 ^ 63) && (b == 2 ^ 64 - 1)) ≡ false
fits-test a b h = ground arith

abbrev quotient : ℕ → ℕ → ℕ
quotient a b =
    if ltb a (2 ^ 63)
    then (if ltb b (2 ^ 63) then a / b else (2 ^ 64 - a / (2 ^ 64 - b)) % 2 ^ 64)
    else (if ltb b (2 ^ 63)
        then (2 ^ 64 - (2 ^ 64 - a) / b) % 2 ^ 64
        else (2 ^ 64 - a) / (2 ^ 64 - b))

abbrev remainder : ℕ → ℕ → ℕ
remainder a b =
    if ltb a (2 ^ 63)
    then (if ltb b (2 ^ 63) then a % b else a % (2 ^ 64 - b))
    else (if ltb b (2 ^ 63)
        then (2 ^ 64 - (2 ^ 64 - a) % b) % 2 ^ 64
        else (2 ^ 64 - (2 ^ 64 - a) % (2 ^ 64 - b)) % 2 ^ 64)

long_div-ok : (a b : ℕ) → (a ≡ 2 ^ 63 → b ≢ 2 ^ 64 - 1) → long_div a b ≡ ok (quotient a b)
unfolding long_div
long_div-ok a b h = rw (fits-test a b h) ground arith

long_rem-ok : (a b : ℕ) → (a ≡ 2 ^ 63 → b ≢ 2 ^ 64 - 1) → long_rem a b ≡ ok (remainder a b)
unfolding long_rem
long_rem-ok a b h = rw (fits-test a b h) ground arith

module _ (f : Frame) (valid : IsFrame f) (a b : ℕ) (s : List ℕ) where
  -- On a frame in order with two longs on top, of which the top one is not zero and the two are not
  -- the least long and -1: `ldiv` leaves their quotient rounded towards zero, and `lrem` the
  -- remainder, with the sign of the dividend; all else stays.
  pub long_quotients :
      operands f ≡ long_on b (long_on a s)
      → 0 < b
      → (a ≡ 2 ^ 63 → b ≢ 2 ^ 64 - 1)
      → Effect f (exe_opc_ldiv f) f.cell f.pc (long_on (wrap64 (quot (signed64 a) (signed64 b))) s)
        × Effect f (exe_opc_lrem f) f.cell f.pc (long_on (wrap64 (rem (signed64 a) (signed64 b))) s)
  unfolding exe_opc_ldiv exe_opc_lrem
  long_quotients h nonzero fits =
      let test : (b == 0) ≡ false = ground arith in
      let room = operands-room f valid h in
      (
        with_pop_wide type_long _ refl (Leaves-self f valid h) λ f₁ hb l₁.
            rw (long_parts b, test)
              (with_pop_wide type_long _ refl l₁ λ f₂ ha l₂.
                rw
                  (
                    long_parts a,
                    long_div-ok a b fits,
                    quot-wrap64 a b (rw (long_parts a) at ha) (rw (long_parts b) at hb) nonzero,
                  )
                  (push_wide-Effect _ type_long refl (λ e. cc) l₂ (wrap64-lt _)
                    (omega (arith, room)))),
        with_pop_wide type_long _ refl (Leaves-self f valid h) λ f₁ hb l₁.
            rw (long_parts b, test)
              (with_pop_wide type_long _ refl l₁ λ f₂ ha l₂.
                rw
                  (
                    long_parts a,
                    long_rem-ok a b fits,
                    rem-wrap64 a b (rw (long_parts a) at ha) (rw (long_parts b) at hb) nonzero,
                  )
                  (push_wide-Effect _ type_long refl (λ e. cc) l₂ (wrap64-lt _)
                    (omega (arith, room)))),
      )

  -- On a frame in order with the long zero on top, `ldiv` and `lrem` stop with the failed assertion.
  pub long_division_by_zero :
      operands f ≡ long_on 0 s
      → (exe_opc_ldiv f ≡ halt assertion_failed) × (exe_opc_lrem f ≡ halt assertion_failed)
  unfolding exe_opc_ldiv exe_opc_lrem
  long_division_by_zero h =
      let (f₁, runs, l) = pop_wide_type-Effect type_long refl (Leaves-self f valid h) in
      (rw runs refl, rw runs refl)
