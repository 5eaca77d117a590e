-- ===== src/Interp/Switch/Moves.antt =====
-- The moves that the two switch instructions share.
use turkey_vm.Prelude.{
  ℕ, suc, ◌+◌, ◌-◌, ◌%◌, ◌^◌, ◌<◌, ◌≡◌, ◌∙◌, List, Run, ◌>>=◌, Returns, ap, pos, ◌+ℤ◌, signed32,
  arith,
}
use turkey_vm.Frame.Defs.{Frame, pc_move}
use turkey_vm.Frame.View.{Leaves}
use turkey_vm.Frame.Steps.{Effect}
use turkey_vm.Frame.Fetch.{pc_move-Effect}
use turkey_vm.Interp.Switch.{switch_pad, switch_jump}

-- The first multiple of four behind position `p`.
abbrev pub aligned : ℕ → ℕ
aligned p = p + (4 - p % 4)

pub step_back : (p : ℕ) → pos (suc p) +ℤ signed32 (2 ^ 32 - 1) ≡ pos p
unfolding ◌+ℤ◌
step_back p = ground arith

pads : (p : ℕ) → p < 2 ^ 31 → switch_pad p ≡ 4 - p % 4
unfolding switch_pad
pads p h = ground arith

step_pad : (p : ℕ) → pos p +ℤ signed32 (4 - p % 4) ≡ pos (aligned p)
unfolding ◌+ℤ◌
step_pad p = ground arith

-- The jump, made at position `q` behind the instruction.
lands :
    (p q jump target : ℕ)
    → p < q
    → q < 2 ^ 31
    → target < 2 ^ 31
    → jump < 2 ^ 32
    → pos p +ℤ signed32 jump ≡ pos target
    → pos q +ℤ signed32 ((jump + 2 ^ 32 - (q + 2 ^ 32 - p) % 2 ^ 32) % 2 ^ 32) ≡ pos target
unfolding ◌+ℤ◌
lands p q jump target behind inside inside' small h = ground arith

module _ {f g : Frame} {l : ℕ → ℕ} {vs : List ℕ} where
  -- A move, with more behind it.
  pub with_move :
      {A : Type 0} {P : A → Type 0} {p : ℕ} (x target : ℕ) (k : Frame → Run A)
      → Leaves f l p vs g
      → x < 2 ^ 32
      → pos p +ℤ signed32 x ≡ pos target
      → ((h : Frame) → Leaves f l target vs h → Returns (k h) P)
      → Returns (pc_move x g >>= k) P
  with_move x target k s small e next =
      let (h, runs, s') = pc_move-Effect x target s small e in rw runs (next h s')

  pub offset-is : {p : ℕ} → Leaves f l p vs g → p < 2 ^ 31 → g.pc_offset ≡ p
  offset-is s h = omega (arith, s.valid.synced, s.at)

  pub with_pad :
      {A : Type 0} {P : A → Type 0} {p : ℕ} (k : Frame → Run A)
      → Leaves f l p vs g
      → p < 2 ^ 31
      → ((h : Frame) → Leaves f l (aligned p) vs h → Returns (k h) P)
      → Returns (pc_move (switch_pad g.pc_offset) g >>= k) P
  with_pad {p} k s inside next =
      let e : switch_pad g.pc_offset ≡ 4 - p % 4 =
        ap switch_pad (offset-is s inside) ∙ pads p inside in
      with_move (switch_pad g.pc_offset) (aligned p) k s (rw e (omega arith)) (rw e (step_pad p))
        next

  pub switch_jump-Effect :
      (p q base jump target : ℕ)
      → Leaves f l q vs g
      → base ≡ p
      → p < q
      → q < 2 ^ 31
      → target < 2 ^ 31
      → jump < 2 ^ 32
      → pos p +ℤ signed32 jump ≡ pos target
      → Effect f (switch_jump base jump g) l target vs
  unfolding switch_jump
  switch_jump-Effect p q base jump target s b behind inside inside' small e =
      pc_move-Effect _ target s (omega arith)
        (rw (offset-is s inside, b) (lands p q jump target behind inside inside' small e))
