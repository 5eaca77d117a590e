-- ===== src/Interp/Switch/Negative.antt =====
-- `lookupswitch` with a negative number of pairs.
use turkey_vm.Prelude.{
  ℕ, suc, ◌+◌, ◌-◌, ◌^◌, ◌<◌, ◌≤◌, ◌≡◌, refl, ◌∙◌, sym, false, List, ◌∷◌, ltb, ok, halt, error, Run,
  ◌>>=◌, ap, arith,
}
use turkey_vm.Frame.Defs.{Frame, type_int, interp_u4, pc_move}
use turkey_vm.Frame.View.{operands, IsFrame, Leaves}
use turkey_vm.Frame.Steps.{Leaves-self}
use turkey_vm.Frame.Operands.{pop-Effect}
use turkey_vm.Frame.Fetch.{WordAt, with_u4, pc_move-Effect}
use turkey_vm.Interp.Switch.Moves.{aligned, step_back, with_pad}
use turkey_vm.Interp.Switch.{switch_pad, exe_opc_lookupswitch}

bind-ok : {A : Type 0} (m : Run A) → (m >>= λ x. ok x) ≡ m
bind-ok (ok x) = refl
bind-ok (halt why) = refl

module _ {f g : Frame} {l : ℕ → ℕ} {p : ℕ} {vs : List ℕ} (s : Leaves f l p vs g) where
  u4-Effect :
      {w : ℕ}
      → WordAt f.code p w
      → (h : Frame) × (interp_u4 g ≡ ok (w, h)) × Leaves f l (p + 4) vs h
  u4-Effect {w} there =
      let ((v, h), runs, (same, s')) =
        with_u4 {P = λ (v, h). (v ≡ w) × Leaves f l (p + 4) vs h} (λ r. ok r) there s
          (λ h s'. ((w, h), refl, (refl, s'))) in
      (h, sym (bind-ok (interp_u4 g)) ∙ runs ∙ ap (λ x. ok (x, h)) same, s')

  pad-Effect :
      p < 2 ^ 31
      → (h : Frame) × (pc_move (switch_pad g.pc_offset) g ≡ ok h) × Leaves f l (aligned p) vs h
  pad-Effect inside =
      let (h, runs, s') =
        with_pad {P = λ h. Leaves f l (aligned p) vs h} (λ h. ok h) s inside
          (λ h s'. (h, refl, s')) in
      (h, sym (bind-ok (pc_move (switch_pad g.pc_offset) g)) ∙ runs, s')

-- On a frame in order that has read a `lookupswitch` at a position below 2 ^ 31, with an operand,
-- a default offset and then a negative number of pairs in the code, the process ends with an error.
pub lookupswitch-negative :
    (f : Frame)
    → IsFrame f
    → (p def npairs key : ℕ) (s : List ℕ) → f.pc ≡ suc p
    → p < 2 ^ 31
    → WordAt f.code (aligned p) def
    → WordAt f.code (aligned p + 4) npairs
    → 2 ^ 31 ≤ npairs
    → operands f ≡ key ∷ s
    → exe_opc_lookupswitch f ≡ halt error
unfolding exe_opc_lookupswitch
lookupswitch-negative f valid p def npairs key s at inside def_at count_at negative on_top =
    let started : Leaves f f.cell (suc p) (key ∷ s) f = rw (← at) (Leaves-self f valid on_top) in
    let (f₁, moved, l₁) = pc_move-Effect (2 ^ 32 - 1) p started (omega arith) (step_back p) in
    let (f₂, popped, l₂) = pop-Effect type_int refl l₁ in
    let (f₃, padded, l₃) = pad-Effect l₂ inside in
    let (f₄, read, l₄) = u4-Effect l₃ def_at in
    let (f₅, read', l₅) = u4-Effect l₄ count_at in
    let test : ltb npairs (2 ^ 31) ≡ false = ground arith in
    rw (moved, popped, padded, read, read', test) refl
