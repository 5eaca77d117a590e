-- ===== src/Interp/Branch/Jumps.antt =====
-- The two ends of a conditional jump: where the pc goes.
use turkey_vm.Prelude.{
  ℕ, suc, ◌+◌, ◌-◌, ◌*◌, ◌%◌, ◌^◌, ◌<◌, ◌≡◌, Bool, true, false, not, List, some, arith,
  if◌then◌else◌, get_elem?, pos, ◌+ℤ◌, signed16, signed32, short_to_int,
}
use turkey_vm.Frame.Defs.{Frame}
use turkey_vm.Frame.View.{operands, IsFrame, Leaves}
use turkey_vm.Frame.Steps.{Effect, Leaves-self}
use turkey_vm.Frame.Fetch.{with_u2, pc_move-Effect}
use turkey_vm.Interp.Branch.{jump, fall_through}

-- `PC_MOVE(offset - 3)`, made three bytes behind the instruction.
offset_lands :
    (p v target : ℕ)
    → v < 2 ^ 16
    → pos p +ℤ signed16 v ≡ pos target
    → pos (suc p + 2) +ℤ signed32 ((short_to_int (v % 2 ^ 16) + 2 ^ 32 - 3) % 2 ^ 32) ≡ pos target
unfolding ◌+ℤ◌
offset_lands p v target small h = ground arith

plus_two : (p : ℕ) → pos (suc p) +ℤ signed32 2 ≡ pos (p + 3)
unfolding ◌+ℤ◌
plus_two p = ground arith

-- The frame has read the instruction at position `p`, and the two bytes behind it are the offset
-- of `target`, a signed number of 16 bits, from `p`.
pub record AtBranch (f : Frame) (p target : ℕ) : Type 0 where
  pub high : ℕ
  pub low : ℕ
  pub high_lt : high < 2 ^ 8
  pub low_lt : low < 2 ^ 8
  pub at : f.pc ≡ suc p
  pub first : get_elem? f.code (suc p + 0) ≡ some high
  pub second : get_elem? f.code (suc p + 1) ≡ some low
  pub lands : pos p +ℤ signed16 (high * 2 ^ 8 + low) ≡ pos target

module _ (f : Frame) (valid : IsFrame f) (p target : ℕ) (o : AtBranch f p target) where
  pub jump-Effect :
      {g : Frame} (l : ℕ → ℕ) (vs : List ℕ)
      → Leaves f l (suc p) vs g
      → Effect f (jump g) l target vs
  unfolding jump
  jump-Effect l vs s = with_u2 _ o.first o.second s λ h t.
      pc_move-Effect _ target t (omega arith)
        (offset_lands p (o.high * 2 ^ 8 + o.low) target (omega arith) o.lands)

  fall-Effect :
      {g : Frame} (l : ℕ → ℕ) (vs : List ℕ)
      → Leaves f l (suc p) vs g
      → Effect f (fall_through g) l (p + 3) vs
  unfolding fall_through
  fall-Effect l vs s = pc_move-Effect 2 (p + 3) s (omega arith) (plus_two p)

  pub branch-Effect :
      {g : Frame} (test : Bool) (l : ℕ → ℕ) (vs : List ℕ)
      → Leaves f l (suc p) vs g
      → Effect f (if test then jump g else fall_through g) l (if test then target else p + 3) vs
  branch-Effect true l vs s = jump-Effect l vs s
  branch-Effect false l vs s = fall-Effect l vs s

  pub not_branch-Effect :
      {g : Frame} (test : Bool) (l : ℕ → ℕ) (vs : List ℕ)
      → Leaves f l (suc p) vs g
      → Effect f (if not test then jump g else fall_through g) l (if test then p + 3 else target) vs
  not_branch-Effect true l vs s = fall-Effect l vs s
  not_branch-Effect false l vs s = jump-Effect l vs s

  pub started : (vs : List ℕ) → operands f ≡ vs → Leaves f f.cell (suc p) vs f
  started vs h = rw (← o.at) (Leaves-self f valid h)
