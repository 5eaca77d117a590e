-- ===== src/Interp/Switch/Table.antt =====
-- `tableswitch`: where the pc goes.
use turkey_vm.Prelude.{
  ℕ, suc, ◌+◌, ◌-◌, ◌*◌, ◌%◌, ◌^◌, ◌<◌, ◌≡◌, refl, true, false, ◌||◌, List, ◌∷◌, Run, ◌>>=◌,
  Returns, pos, ◌+ℤ◌, signed32, ltb_ℤ, arith,
}
use turkey_vm.Frame.Defs.{Frame, type_int, pop, interp_u4, pc_move}
use turkey_vm.Frame.View.{operands, IsFrame, Leaves}
use turkey_vm.Frame.Steps.{Effect, Leaves-self}
use turkey_vm.Frame.Operands.{with_pop}
use turkey_vm.Frame.Fetch.{WordAt, with_u4}
use turkey_vm.Interp.Switch.Moves.{
  aligned, step_back, with_move, with_pad, offset-is, switch_jump-Effect,
}
use turkey_vm.Interp.Switch.{switch_pad, exe_opc_tableswitch}

-- Where the entries of the table start.
abbrev pub entries : ℕ → ℕ
entries p = aligned p + 4 + 4 + 4

-- What stands at the instruction at position `p`.
pub record TableAt (code : List ℕ) (p def low high : ℕ) : Type 0 where
  pub def_at : WordAt code (aligned p) def
  pub low_at : WordAt code (aligned p + 4) low
  pub high_at : WordAt code (aligned p + 4 + 4) high

-- The entry for an index.
enters :
    (q index low k : ℕ)
    → q + 4 * k < 2 ^ 31
    → index < 2 ^ 32
    → low < 2 ^ 32
    → signed32 low +ℤ pos k ≡ signed32 index
    → pos q +ℤ signed32 ((index + 2 ^ 32 - low) * 4 % 2 ^ 32) ≡ pos (q + 4 * k)
unfolding ◌+ℤ◌
enters q index low k inside hi hl h = ground arith

not_below :
    (low index k : ℕ)
    → signed32 low +ℤ pos k ≡ signed32 index
    → ltb_ℤ (signed32 index) (signed32 low) ≡ false
unfolding ◌+ℤ◌
not_below low index k h = ground arith

module _ (f : Frame) (valid : IsFrame f) (p def low high index : ℕ) (s : List ℕ) (at : f.pc ≡ suc p)
    (table : TableAt f.code p def low high) (inside : entries p < 2 ^ 31)
    (on_top : operands f ≡ index ∷ s) where
  -- The instruction up to the test of the operand.
  with_table :
      {A : Type 0} {P : A → Type 0} (k : ℕ → ℕ → ℕ → ℕ → ℕ → Frame → Run A)
      → ((base : ℕ) (h : Frame)
          → base ≡ p
          → index < 2 ^ 32
          → Leaves f f.cell (entries p) s h
          → Returns (k base def low high index h) P)
      → Returns
          (pc_move (2 ^ 32 - 1) f >>= λ f₁. pc_move (switch_pad f₁.pc_offset) f₁ >>= λ f₂.
            interp_u4 f₂ >>= λ (def', f₃). interp_u4 f₃ >>= λ (low', f₄).
            interp_u4 f₄ >>= λ (high', f₅).
            pop f₅ type_int >>= λ (index', f₆). k f₁.pc_offset def' low' high' index' f₆)
          P
  with_table k next =
      let started : Leaves f f.cell (suc p) (index ∷ s) f =
        rw (← at) (Leaves-self f valid on_top) in
      with_move (2 ^ 32 - 1) p _ started (omega arith) (step_back p) λ f₁ l₁.
        with_pad _ l₁ (omega arith) λ f₂ l₂. with_u4 _ table.def_at l₂ λ f₃ l₃.
          with_u4 _ table.low_at l₃ λ f₄ l₄. with_u4 _ table.high_at l₄ λ f₅ l₅.
            with_pop type_int _ refl l₅
              λ f₆ small l₆. next f₁.pc_offset f₆ (offset-is l₁ (omega arith)) small l₆

  -- On a frame in order that has read a `tableswitch` at position `p`, whose numbers lie in the
  -- first 2 ^ 31 bytes of the code from the next multiple of four on, with an operand that is less
  -- than the low bound or greater than the high one, and a target below 2 ^ 31: the operand is
  -- taken, and the pc goes to the target, `p` plus the signed default offset; all else stays.
  pub tableswitch-default :
      (target : ℕ)
      → (ltb_ℤ (signed32 index) (signed32 low) || ltb_ℤ (signed32 high) (signed32 index)) ≡ true
      → pos p +ℤ signed32 def ≡ pos target
      → target < 2 ^ 31
      → Effect f (exe_opc_tableswitch f) f.cell target s
  unfolding exe_opc_tableswitch
  tableswitch-default target outside e small = with_table _ λ base h b _ l. rw outside (
      switch_jump-Effect p (entries p) base def target l b (omega arith) inside small
        table.def_at.small e)

  -- On a frame in order that has read a `tableswitch` at position `p`, whose numbers lie in the
  -- first 2 ^ 31 bytes of the code from the next multiple of four on, with an operand that is `k`
  -- more than the low bound and not greater than the high one, and a target below 2 ^ 31: the
  -- operand is taken, and the pc goes to the target, `p` plus the signed offset in entry `k` of
  -- the table; all else stays.
  pub tableswitch-entry :
      (k jump target : ℕ)
      → signed32 low +ℤ pos k ≡ signed32 index
      → ltb_ℤ (signed32 high) (signed32 index) ≡ false
      → WordAt f.code (entries p + 4 * k) jump
      → entries p + 4 * k + 4 < 2 ^ 31
      → pos p +ℤ signed32 jump ≡ pos target
      → target < 2 ^ 31
      → Effect f (exe_opc_tableswitch f) f.cell target s
  unfolding exe_opc_tableswitch
  tableswitch-entry k jump target here below entry room e small =
      with_table _ λ base h b index_lt l.
        let above : ltb_ℤ (signed32 index) (signed32 low) ≡ false = not_below low index k here in
        rw (above, below)
          (with_move _ (entries p + 4 * k) _ l (omega arith)
            (enters (entries p) index low k (omega arith) index_lt table.low_at.small here)
            λ f₇ l₇. with_u4 _ entry l₇ λ f₈ l₈.
              switch_jump-Effect p (entries p + 4 * k + 4) base jump target l₈ b (omega arith) room
                small entry.small e)
